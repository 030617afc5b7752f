-- ===== src/Sync/Generate/Passes.antt =====
-- routers/api/sync/stream.py: which passes a request runs, and which of them send deletes.
use immich_adapter.Prelude.{
  ◌≡◌, refl, Bool, true, false, not, ◌&&◌, none, some, List, [], ◌∷◌, arith, ◌==◌, string_eq, any,
  lookup,
}
use immich_adapter.Sync.EntityType
use immich_adapter.Sync.EntityType.{SyncEntityType, entity_type_eq}
use immich_adapter.Sync.RequestType
use immich_adapter.Sync.RequestType.{SyncRequestType, request_type_eq}
use immich_adapter.Sync.Generate.{
  Entry, sync_type_order, v1_superseded_by_v2, is_streamed, emits_deletes,
}

-- Two passes over one Gumnut type both run and both send its deletes.
abbrev pub collide : List SyncRequestType → Entry → Entry → Bool
collide requested a b =
    a.1 == b.1
    && emits_deletes a.2
    && emits_deletes b.2
    && is_streamed requested a.0
    && is_streamed requested b.0

abbrev pub are_apart : List SyncRequestType → List Entry → Bool
are_apart requested [] = true
are_apart requested (entry ∷ more) =
    not (any (collide requested entry) more) && are_apart requested more

superseded :
    (requested : List SyncRequestType) (v1 v2 : SyncRequestType)
    → lookup v1 v1_superseded_by_v2 ≡ some v2
    → lookup v2 v1_superseded_by_v2 ≡ none
    → (is_streamed requested v1 && is_streamed requested v2) ≡ false
unfolding is_streamed
superseded requested v1 v2 h k = rw (h, k, is_streamed) (ground arith)

-- Whatever types a client requests, no two of the passes that run send deletes of one Gumnut type.
pub sync_type_order-apart :
    (requested : List SyncRequestType) → are_apart requested sync_type_order ≡ true
unfolding EntityType.same EntityType.value RequestType.same RequestType.value
sync_type_order-apart requested =
    rw
      (
        superseded requested SyncRequestType.assets_v1 SyncRequestType.assets_v2 refl refl,
        superseded requested SyncRequestType.albums_v1 SyncRequestType.albums_v2 refl refl,
        superseded requested SyncRequestType.asset_faces_v1 SyncRequestType.asset_faces_v2 refl
            refl,
      )
      refl
