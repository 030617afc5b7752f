-- ===== src/Sync/Convert/Raises.antt =====
-- routers/api/sync/converters.py: the exceptions of converting an entity.
use immich_adapter.Prelude.{
  ℕ, String, Option, none, some, Error, value_error, attribute_error, overflow_error, Raises,
  Raises-and_then, Raises-map_ok, Raises-if, ◌==◌, string_eq,
}
use immich_adapter.Outside.ShortUuid.{ShortUuid}
use immich_adapter.Ids.{Kind}
use immich_adapter.Ids.Raises.{safe_uuid_from-Raises}
use immich_adapter.Sync.EntityType.{SyncEntityType, same}
use immich_adapter.Sync.Fields.Raises.{
  resolve_file_created_at-Raises, resolve_file_modified_at-Raises, format_duration-Raises,
  optional_utc-Raises, format_exposure_time-Raises, normalize_rating-Raises,
}
use immich_adapter.Sync.Entities.{Entity, asset, album, album_asset, person, face}
use immich_adapter.Sync.Convert.{
  required, optional, gumnut_asset_to_sync_asset, gumnut_metadata_to_sync_exif_v1,
  gumnut_person_to_sync_person_v1, gumnut_album_to_sync_album_v1, gumnut_album_to_sync_album_v2,
  gumnut_album_to_sync_album_user_v1, gumnut_face_to_sync_face,
  gumnut_album_asset_to_sync_album_to_asset_v1, convert_entity, convert_entity_to_sync_event,
}

module _ (P : Error → Type 0) (v : P value_error) (a : P attribute_error) (o : P overflow_error)
    (S : ShortUuid) where
  required-Raises : (kind : Kind) (id : Option String) → Raises P (required S kind id)
  unfolding required
  required-Raises kind none = a
  required-Raises kind (some id) = safe_uuid_from-Raises P S kind id v

  optional-Raises : (kind : Kind) (id : Option String) → Raises P (optional S kind id)
  unfolding optional
  optional-Raises kind none = tt
  optional-Raises kind (some id) =
      Raises-if P (id == "") _ _ tt (Raises-map_ok P some _ (safe_uuid_from-Raises P S kind id v))

  asset-Raises : (e : Entity) (owner : ℕ) → Raises P (gumnut_asset_to_sync_asset S e owner)
  unfolding gumnut_asset_to_sync_asset
  asset-Raises (asset id f m) owner =
      Raises-and_then P _ _ (resolve_file_created_at-Raises P v o f) (λ c.
        Raises-and_then P _ _ (resolve_file_modified_at-Raises P v o f m) (λ t.
          Raises-and_then P _ _ (safe_uuid_from-Raises P S Kind.asset id v)
            (λ u. Raises-map_ok P _ _ (format_duration-Raises P v o f.duration))))
  asset-Raises _ owner = a

  exif-Raises : (e : Entity) → Raises P (gumnut_metadata_to_sync_exif_v1 S e)
  unfolding gumnut_metadata_to_sync_exif_v1
  exif-Raises (asset id f none) = v
  exif-Raises (asset id f (some m)) =
      Raises-and_then P _ _ (optional_utc-Raises P v o m.original_datetime) (λ c.
        Raises-and_then P _ _ (optional_utc-Raises P v o m.modified_datetime) (λ t.
          Raises-and_then P _ _ (safe_uuid_from-Raises P S Kind.asset m.asset_id v) (λ u.
            Raises-and_then P _ _ (format_exposure_time-Raises P v o m.exposure_time)
              (λ x. Raises-map_ok P _ _ (normalize_rating-Raises P v o m.rating)))))
  exif-Raises _ = a

  person-Raises : (e : Entity) (owner : ℕ) → Raises P (gumnut_person_to_sync_person_v1 S e owner)
  unfolding gumnut_person_to_sync_person_v1
  person-Raises (person id) owner = Raises-map_ok P _ _ (safe_uuid_from-Raises P S Kind.person id v)
  person-Raises _ owner = a

  album-Raises : (e : Entity) (owner : ℕ) → Raises P (gumnut_album_to_sync_album_v1 S e owner)
  unfolding gumnut_album_to_sync_album_v1
  album-Raises (album id cover) owner =
      Raises-and_then P _ _ (optional-Raises Kind.asset cover)
        (λ t. Raises-map_ok P _ _ (safe_uuid_from-Raises P S Kind.album id v))
  album-Raises _ owner = a

  album_user-Raises :
      (e : Entity) (owner : ℕ) → Raises P (gumnut_album_to_sync_album_user_v1 S e owner)
  unfolding gumnut_album_to_sync_album_user_v1
  album_user-Raises (album id cover) owner =
      Raises-map_ok P _ _ (safe_uuid_from-Raises P S Kind.album id v)
  album_user-Raises _ owner = a

  face-Raises : (e : Entity) → Raises P (gumnut_face_to_sync_face S e)
  unfolding gumnut_face_to_sync_face
  face-Raises (face id asset_id person_id) =
      Raises-and_then P _ _ (optional-Raises Kind.person person_id) (λ p.
        Raises-and_then P _ _ (safe_uuid_from-Raises P S Kind.face id v)
          (λ u. Raises-map_ok P _ _ (required-Raises Kind.asset asset_id)))
  face-Raises _ = a

  album_asset-Raises : (e : Entity) → Raises P (gumnut_album_asset_to_sync_album_to_asset_v1 S e)
  unfolding gumnut_album_asset_to_sync_album_to_asset_v1
  album_asset-Raises (album_asset id album_id asset_id) =
      Raises-and_then P _ _ (required-Raises Kind.album album_id)
        (λ u. Raises-map_ok P _ _ (required-Raises Kind.asset asset_id))
  album_asset-Raises _ = a

  convert_entity-Raises :
      (type : String) (e : Entity) (owner : ℕ) (t : SyncEntityType)
      → Raises P (convert_entity S type e owner t)
  unfolding convert_entity gumnut_album_to_sync_album_v2
  convert_entity-Raises type e owner t = Raises-if P (type == "asset") _ _ (asset-Raises e owner) (
      Raises-if P (type == "album") _ _
        (Raises-if P (same t SyncEntityType.album_user_v1) _ _ (album_user-Raises e owner) (
          Raises-if P (same t SyncEntityType.album_v2) _ _
            (Raises-map_ok P _ _ (album-Raises e owner)) (album-Raises e owner)))
        (Raises-if P (type == "person") _ _ (person-Raises e owner) (
          Raises-if P (type == "album_asset") _ _ (album_asset-Raises e) (
            Raises-if P (type == "face") _ _ (face-Raises e)
              (Raises-if P (type == "metadata") _ _ (exif-Raises e) v)))))

  pub convert_entity_to_sync_event-Raises :
      (type : String) (e : Entity) (owner : ℕ) (cursor : String) (t : SyncEntityType)
      → Raises P (convert_entity_to_sync_event S type e owner cursor t)
  unfolding convert_entity_to_sync_event
  convert_entity_to_sync_event-Raises type e owner cursor t =
      Raises-map_ok P _ _ (convert_entity-Raises type e owner t)
