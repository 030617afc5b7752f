-- ===== src/Sync/Convert/Nulled.antt =====
-- routers/api/sync/converters.py: the conversion of a membership whose asset was nulled.
use immich_adapter.Prelude.{
  ℕ, String, ◌≡◌, refl, true, Option, none, some, err, Error, attribute_error, Result-cases, inl,
  inr, Bool-cases, string_eq,
}
use immich_adapter.Outside.ShortUuid.{ShortUuid}
use immich_adapter.Ids.{Kind}
use immich_adapter.Sync.EntityType.{SyncEntityType}
use immich_adapter.Sync.Entities.{album_asset, get_attribute, set_attribute}
use immich_adapter.Sync.Fk.{SyncStreamStats, is_deleted, null_deleted_fk_references}
use immich_adapter.Sync.Convert.{
  required, gumnut_album_asset_to_sync_album_to_asset_v1, convert_entity,
}

no_asset-raises :
    (S : ShortUuid) (id : String) (album_id : Option String)
    → (e : Error) × (gumnut_album_asset_to_sync_album_to_asset_v1 S (album_asset id album_id none)
        ≡ err e)
unfolding gumnut_album_asset_to_sync_album_to_asset_v1 required
no_asset-raises S id album_id = elim (Result-cases (required S Kind.album album_id)) [
  | inl (u, e) ↦ (attribute_error, rw (e, gumnut_album_asset_to_sync_album_to_asset_v1) refl)
  | inr (x, e) ↦ (x, rw (e, gumnut_album_asset_to_sync_album_to_asset_v1) refl)
]

-- A membership whose asset was confirmed missing cannot be converted once its references are nulled:
-- the conversion raises, whatever its album is.
pub convert_entity-null_deleted :
    (S : ShortUuid) (id asset_id : String) (album_id : Option String) (stats : SyncStreamStats)
    (owner : ℕ) (t : SyncEntityType)
    → is_deleted stats "asset" (some asset_id) ≡ true
    → (e : Error) × (convert_entity S "album_asset"
          (null_deleted_fk_references "album_asset" (album_asset id album_id (some asset_id)) stats)
          owner
          t
        ≡ err e)
unfolding convert_entity null_deleted_fk_references get_attribute set_attribute
convert_entity-null_deleted S id asset_id album_id stats owner t h =
    elim (Bool-cases (is_deleted stats "album" album_id)) [
      | inl e ↦ rw (e, h, null_deleted_fk_references) (no_asset-raises S id none)
      | inr e ↦ rw (e, h, null_deleted_fk_references) (no_asset-raises S id album_id)
    ]
