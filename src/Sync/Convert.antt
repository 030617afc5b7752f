-- ===== src/Sync/Convert.antt =====
-- routers/api/sync/converters.py and `convert_entity_to_sync_event` of routers/api/sync/events.py:
-- the ids of the models that an entity is converted to, and where a conversion raises. Reading a field
-- of the wrong class, or using None as an id, is AttributeError; an id of another kind is ValueError; a
-- date or a number out of range is OverflowError. The validation of the models is left out.
pub mod Raises
pub mod Nulled
pub mod Persons
use immich_adapter.Prelude.{
  ℕ, String, Option, none, some, ◌==◌, string_eq, if◌then◌else◌, Result, ok, err, value_error,
  attribute_error, and_then, map_ok,
}
use immich_adapter.Outside.ShortUuid.{ShortUuid}
use immich_adapter.Ids.{Kind, safe_uuid_from}
use immich_adapter.Sync.EntityType.{SyncEntityType, same}
use immich_adapter.Sync.Fields.{
  resolve_file_created_at, resolve_file_modified_at, format_duration, optional_utc,
  format_exposure_time, normalize_rating,
}
use immich_adapter.Sync.Entities.{
  Entity, asset, album, album_asset, person, face, Model, asset_row, exif_row, album_row,
  album_row_v2, album_user_row, album_to_asset_row, person_row, face_row, Line, make_sync_event,
}

module _ (S : ShortUuid) where
  -- an id in a field that may hold None
  pub required : Kind → Option String → Result ℕ
  required kind none = err attribute_error
  required kind (some id) = safe_uuid_from S kind id

  -- `str(safe_uuid_from_…(id)) if id else None`
  pub optional : Kind → Option String → Result (Option ℕ)
  optional kind none = ok none
  optional kind (some id) = if id == "" then ok none else map_ok some (safe_uuid_from S kind id)

  -- SyncAssetV2 is made of SyncAssetV1, and differs in the duration alone.
  gumnut_asset_to_sync_asset : Entity → ℕ → Result Model
  gumnut_asset_to_sync_asset (asset id fields metadata) owner =
      and_then (resolve_file_created_at fields) (λ created.
        and_then (resolve_file_modified_at fields metadata) (λ modified.
          and_then (safe_uuid_from S Kind.asset id)
            (λ u. map_ok (λ _. asset_row u owner) (format_duration fields.duration))))
  gumnut_asset_to_sync_asset _ owner = err attribute_error

  gumnut_metadata_to_sync_exif_v1 : Entity → Result Model
  gumnut_metadata_to_sync_exif_v1 (asset id fields none) = err value_error
  gumnut_metadata_to_sync_exif_v1 (asset id fields (some metadata)) =
      and_then (optional_utc metadata.original_datetime) (λ original.
        and_then (optional_utc metadata.modified_datetime) (λ modified.
          and_then (safe_uuid_from S Kind.asset metadata.asset_id) (λ u.
            and_then (format_exposure_time metadata.exposure_time)
              (λ _. map_ok (λ _. exif_row u) (normalize_rating metadata.rating)))))
  gumnut_metadata_to_sync_exif_v1 _ = err attribute_error

  gumnut_person_to_sync_person_v1 : Entity → ℕ → Result Model
  gumnut_person_to_sync_person_v1 (person id) owner =
      map_ok (λ u. person_row u owner) (safe_uuid_from S Kind.person id)
  gumnut_person_to_sync_person_v1 _ owner = err attribute_error

  gumnut_album_to_sync_album_v1 : Entity → ℕ → Result Model
  gumnut_album_to_sync_album_v1 (album id cover) owner =
      and_then (optional Kind.asset cover)
        (λ thumbnail. map_ok (λ u. album_row u owner thumbnail) (safe_uuid_from S Kind.album id))
  gumnut_album_to_sync_album_v1 _ owner = err attribute_error

  drop_owner : Model → Model
  drop_owner (album_row id owner thumbnail) = album_row_v2 id thumbnail
  drop_owner model = model

  gumnut_album_to_sync_album_v2 : Entity → ℕ → Result Model
  gumnut_album_to_sync_album_v2 entity owner =
      map_ok drop_owner (gumnut_album_to_sync_album_v1 entity owner)

  gumnut_album_to_sync_album_user_v1 : Entity → ℕ → Result Model
  gumnut_album_to_sync_album_user_v1 (album id cover) owner =
      map_ok (λ u. album_user_row u owner) (safe_uuid_from S Kind.album id)
  gumnut_album_to_sync_album_user_v1 _ owner = err attribute_error

  -- SyncAssetFaceV2 adds two constants.
  gumnut_face_to_sync_face : Entity → Result Model
  gumnut_face_to_sync_face (face id asset_id person_id) =
      and_then (optional Kind.person person_id) (λ p.
        and_then (safe_uuid_from S Kind.face id)
          (λ u. map_ok (λ a. face_row u a p) (required Kind.asset asset_id)))
  gumnut_face_to_sync_face _ = err attribute_error

  gumnut_album_asset_to_sync_album_to_asset_v1 : Entity → Result Model
  gumnut_album_asset_to_sync_album_to_asset_v1 (album_asset id album_id asset_id) =
      and_then (required Kind.album album_id)
        (λ al. map_ok (λ a. album_to_asset_row al a) (required Kind.asset asset_id))
  gumnut_album_asset_to_sync_album_to_asset_v1 _ = err attribute_error

  pub convert_entity : String → Entity → ℕ → SyncEntityType → Result Model
  unfolding required optional gumnut_asset_to_sync_asset gumnut_metadata_to_sync_exif_v1
      gumnut_person_to_sync_person_v1 gumnut_album_to_sync_album_v1 drop_owner
      gumnut_album_to_sync_album_v2 gumnut_album_to_sync_album_user_v1 gumnut_face_to_sync_face
      gumnut_album_asset_to_sync_album_to_asset_v1
  convert_entity gumnut_type entity owner sync_type =
      if gumnut_type == "asset"
      then gumnut_asset_to_sync_asset entity owner
      else if gumnut_type == "album"
      then (if same sync_type SyncEntityType.album_user_v1
          then gumnut_album_to_sync_album_user_v1 entity owner
          else if same sync_type SyncEntityType.album_v2
          then gumnut_album_to_sync_album_v2 entity owner
          else gumnut_album_to_sync_album_v1 entity owner)
      else if gumnut_type == "person"
      then gumnut_person_to_sync_person_v1 entity owner
      else if gumnut_type == "album_asset"
      then gumnut_album_asset_to_sync_album_to_asset_v1 entity
      else if gumnut_type == "face"
      then gumnut_face_to_sync_face entity
      else if gumnut_type == "metadata"
      then gumnut_metadata_to_sync_exif_v1 entity
      else err value_error

  unfoldable pub convert_entity_to_sync_event :
      String → Entity → ℕ → String → SyncEntityType → Result Line
  unfolding convert_entity
  convert_entity_to_sync_event gumnut_type entity owner cursor sync_type =
      map_ok (λ model. make_sync_event sync_type model cursor)
        (convert_entity gumnut_type entity owner sync_type)
