-- ===== src/Sync/Overrides.antt =====
-- routers/api/sync/stream.py: the references that an upsert event's entity is streamed with in place
-- of those that it has by the time it is fetched.
use immich_adapter.Prelude.{
  String, Bool, true, false, not, ◌&&◌, ◌||◌, Option, none, some, ◌==◌, string_eq, if◌then◌else◌,
  is_some,
}
use immich_adapter.Sync.EntityType.{SyncEntityType, same, entity_type_eq}
use immich_adapter.Sync.Entities.{Event, Entity, asset, album, album_asset, person, face}
use immich_adapter.Sync.Fk.{payload_override}

abbrev pub same_ref : Option String → Option String → Bool
same_ref none none = true
same_ref none (some b) = false
same_ref (some a) none = false
same_ref (some a) (some b) = a == b

abbrev pub is_face_type : SyncEntityType → Bool
is_face_type t = same t SyncEntityType.asset_face_v1 || same t SyncEntityType.asset_face_v2

-- the person that the face of a face event is streamed with
abbrev pub face_person : Event → Option String → Option String
face_person event current =
    if (event.event_type == "face_created") && is_some current
    then none
    else if event.event_type == "face_updated"
    then elim event.payload [
      | none ↦ current
      | some payload ↦
          let (should_apply, person_id) = payload_override payload "person_id" in
          if should_apply && not (same_ref current person_id) then person_id else current
    ]
    else current

-- the cover that the album of an album event is streamed with
abbrev pub album_cover : Event → Option String → Option String
album_cover event current =
    if event.event_type == "album_updated"
    then elim event.payload [
      | none ↦ current
      | some payload ↦
          let (should_apply, cover_id) = payload_override payload "album_cover_asset_id" in
          if should_apply && not (same_ref current cover_id) then cover_id else current
    ]
    else current

-- the causally consistent overrides of one upsert event
unfoldable pub apply_overrides : SyncEntityType → Event → Entity → Entity
apply_overrides t event (face id asset_id person_id) =
    if is_face_type t
    then face id asset_id (face_person event person_id)
    else face id asset_id person_id
apply_overrides t event (album id cover) =
    if same t SyncEntityType.album_v1 || same t SyncEntityType.album_v2
    then album id (album_cover event cover)
    else album id cover
apply_overrides t event (asset id f m) = asset id f m
apply_overrides t event (album_asset id a b) = album_asset id a b
apply_overrides t event (person id) = person id
