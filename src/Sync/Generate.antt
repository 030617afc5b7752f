-- ===== src/Sync/Generate.antt =====
-- routers/api/sync/stream.py: `generate_sync_stream` and `generate_reset_stream`, with the tables
-- that they go by. Log records and the counts that only they show are left out, and so are the tables
-- of no-op and supported request types, which only they read.
pub mod Phases
pub mod Passes
use immich_adapter.Prelude.{
  ℕ, String, Bool, true, not, ◌&&◌, Option, none, some, List, [], ◌∷◌, ◌++◌, ◌==◌, string_eq,
  if◌then◌else◌, Dict, lookup, contains, Exec, pure, lift, gets, ◌>>=◌, ◌>>◌, map_ok, Result, ok,
}
use immich_adapter.Outside.Formats.{Formats}
use immich_adapter.Outside.ShortUuid.{ShortUuid}
use immich_adapter.Outside.Client.{Client}
use immich_adapter.Ids.{Kind, safe_uuid_from}
use immich_adapter.Checkpoint.{Checkpoint}
use immich_adapter.Sync.EntityType
use immich_adapter.Sync.EntityType.{SyncEntityType, entity_type_eq}
use immich_adapter.Sync.RequestType.{SyncRequestType, request_type_eq}
use immich_adapter.Sync.Entities.{Line, Model, make_sync_event}
use immich_adapter.Sync.Fk.{no_stats}
use immich_adapter.Sync.Overrides.{same_ref}
use immich_adapter.Sync.Stream.{State, Pass, Delete, emit, stream_entity_type}
use immich_adapter.Sync.DeleteBuffer.{yield_buffered_deletes}

abbrev pub Entry : Type 0
Entry = SyncRequestType × String × SyncEntityType

-- parents before children
abbrev pub sync_type_order : List Entry
sync_type_order =
    (SyncRequestType.assets_v1, "asset", SyncEntityType.asset_v1)
    ∷ (SyncRequestType.assets_v2, "asset", SyncEntityType.asset_v2)
    ∷ (SyncRequestType.albums_v1, "album", SyncEntityType.album_v1)
    ∷ (SyncRequestType.albums_v2, "album", SyncEntityType.album_v2)
    ∷ (SyncRequestType.album_users_v1, "album", SyncEntityType.album_user_v1)
    ∷ (SyncRequestType.album_to_assets_v1, "album_asset", SyncEntityType.album_to_asset_v1)
    ∷ (SyncRequestType.asset_exifs_v1, "metadata", SyncEntityType.asset_exif_v1)
    ∷ (SyncRequestType.people_v1, "person", SyncEntityType.person_v1)
    ∷ (SyncRequestType.asset_faces_v1, "face", SyncEntityType.asset_face_v1)
    ∷ (SyncRequestType.asset_faces_v2, "face", SyncEntityType.asset_face_v2)
    ∷ []

abbrev pub v1_superseded_by_v2 : Dict SyncRequestType SyncRequestType
v1_superseded_by_v2 =
    (SyncRequestType.assets_v1, SyncRequestType.assets_v2)
    ∷ (SyncRequestType.albums_v1, SyncRequestType.albums_v2)
    ∷ (SyncRequestType.asset_faces_v1, SyncRequestType.asset_faces_v2)
    ∷ []

abbrev pub derived_upsert_only_types : List SyncEntityType
derived_upsert_only_types = SyncEntityType.album_user_v1 ∷ []

-- the two `continue` tests of phase 1
unfoldable pub is_streamed : List SyncRequestType → SyncRequestType → Bool
is_streamed requested t =
    contains t requested
    && (elim (lookup t v1_superseded_by_v2) [ none ↦ true | some v2 ↦ not (contains v2 requested) ])

abbrev pub emits_deletes : SyncEntityType → Bool
emits_deletes t = not (contains t derived_upsert_only_types)

-- the fields of the SDK's `UserResponse` that a stream reads
pub record User : Type 0 where
  pub id : String
  pub updated_at : Option ℕ

module _ (F : Formats) (S : ShortUuid) where
  abbrev pub user_cursor : User → String
  user_cursor user = elim user.updated_at [ none ↦ user.id | some t ↦ F.isoformat t ]

  -- `checkpoint is None or checkpoint.cursor != user_cursor`
  abbrev pub is_stale : Option Checkpoint → String → Bool
  is_stale none cursor = true
  is_stale (some c) cursor = not (same_ref c.cursor (some cursor))

  -- one of the three user entities: its line, where it is requested and its checkpoint is stale
  send_user :
      {W : Type 0}
      → SyncRequestType
      → SyncEntityType
      → (Result Model)
      → User
      → List SyncRequestType
      → Dict SyncEntityType Checkpoint
      → Exec (State W) (Unit {0})
  send_user request t converted user requested checkpoints =
      if contains request requested && is_stale (lookup t checkpoints) (user_cursor user)
      then (do model ← lift converted; emit (make_sync_event t model (user_cursor user)))
      else pure tt

  module _ {W : Type 0} (client : Client W) where
    abbrev pub pass_of : ℕ → ℕ → Dict SyncEntityType Checkpoint → Entry → Pass
    pass_of owner now checkpoints entry = record {
      gumnut_type = entry.1;
      sync_type = entry.2;
      owner = owner;
      started_at = now;
      checkpoints = checkpoints;
      buffered = true;
      emit_deletes = emits_deletes entry.2;
    }

    -- phase 1
    run_passes :
        ℕ
        → ℕ
        → ℕ
        → Dict SyncEntityType Checkpoint
        → List SyncRequestType
        → List Entry
        → Exec (State W) (Unit {0})
    run_passes n owner now checkpoints requested [] = pure tt
    run_passes n owner now checkpoints requested (entry ∷ more) = do
      if is_streamed requested entry.0
          then stream_entity_type S client n (pass_of owner now checkpoints entry)
          else pure tt
      run_passes n owner now checkpoints requested more

    -- phase 2
    emit_all : List Delete → Exec (State W) (Unit {0})
    emit_all [] = pure tt
    emit_all ((line, t) ∷ more) = do emit line; emit_all more

    -- the three user entities
    send_users :
        ℕ → User → List SyncRequestType → Dict SyncEntityType Checkpoint → Exec (State W) (Unit {0})
    unfolding send_user
    send_users owner user requested checkpoints = do
      send_user SyncRequestType.auth_users_v1 SyncEntityType.auth_user_v1
          (map_ok Model.auth_user (safe_uuid_from S Kind.user user.id)) user requested checkpoints
      send_user SyncRequestType.users_v1 SyncEntityType.user_v1
          (map_ok Model.user (safe_uuid_from S Kind.user user.id)) user requested checkpoints
      send_user SyncRequestType.user_metadata_v1 SyncEntityType.user_metadata_v1
          (ok (Model.user_metadata owner)) user requested checkpoints

    abbrev pub complete_line : Line
    complete_line = make_sync_event SyncEntityType.sync_complete_v1 Model.empty "complete"

    -- The body of the `try`. `n` is the fuel of each pass, `now` the clock when phase 1 starts.
    pub stream_body :
        ℕ
        → ℕ
        → List SyncRequestType
        → Dict SyncEntityType Checkpoint
        → User
        → Exec (State W) (Unit {0})
    unfolding send_users run_passes emit_all
    stream_body n now requested checkpoints user = do
      owner ← lift (safe_uuid_from S Kind.user user.id)
      send_users owner user requested checkpoints
      run_passes n owner now checkpoints requested sync_type_order
      deletes ← gets (λ s. s.deletes)
      emit_all (yield_buffered_deletes deletes)
      emit complete_line

    abbrev pub initial : W → State W
    initial w = record { world = w; out = []; stats = no_stats; deletes = [] }

    -- Whatever is raised ends the stream and is only logged.
    pub generate_sync_stream :
        ℕ → ℕ → List SyncRequestType → Dict SyncEntityType Checkpoint → User → W → State W
    unfolding stream_body
    generate_sync_stream n now requested checkpoints user w =
        (stream_body n now requested checkpoints user (initial w)).1

pub generate_reset_stream : List Line
generate_reset_stream = make_sync_event SyncEntityType.sync_reset_v1 Model.empty "reset" ∷ []
