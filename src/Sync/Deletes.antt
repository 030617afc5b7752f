-- ===== src/Sync/Deletes.antt =====
-- `make_delete_sync_event` of routers/api/sync/events.py: the line for a delete event, `none` where
-- the event is skipped (each skip is logged there).
pub mod Made
pub mod Raises
use immich_adapter.Prelude.{
  ℕ, String, Bool, Option, none, some, [], ◌∷◌, ◌==◌, string_eq, if◌then◌else◌, Dict, lookup, strip,
  ◌||◌, not, Result, ok, and_then, map_ok,
}
use immich_adapter.Outside.ShortUuid.{ShortUuid}
use immich_adapter.Ids.{Kind, safe_uuid_from}
use immich_adapter.Sync.EntityType.{
  SyncEntityType, asset_delete_v1, album_delete_v1, person_delete_v1, asset_face_delete_v1,
  album_to_asset_delete_v1,
}
use immich_adapter.Sync.Entities.{
  Event, PayloadValue, null, other, text, number, Model, asset_delete, album_delete, person_delete,
  face_delete, album_to_asset_delete, Line, make_sync_event,
}

abbrev pub delete_event_entity_types : Dict String String
delete_event_entity_types =
    ("asset_deleted", "asset")
    ∷ ("album_deleted", "album")
    ∷ ("person_deleted", "person")
    ∷ ("face_deleted", "face")
    ∷ ("album_asset_removed", "album_asset")
    ∷ []

-- the entity type that an event of a delete type must have, where the type is known
pub mismatched : Event → Bool
mismatched event = elim (lookup event.event_type delete_event_entity_types) [
  | none ↦ Bool.false
  | some expected ↦ not (event.entity_type == expected)
]

-- `str(value)` of a value that is a str or an int
abbrev pub as_text : Option PayloadValue → Option String
as_text none = none
as_text (some null) = none
as_text (some other) = none
as_text (some (text s)) = some s
as_text (some (number s)) = some s

module _ (S : ShortUuid) where
  delete_line :
      SyncEntityType → Kind → (ℕ → Model) → Event → Result (Option (Line × SyncEntityType))
  delete_line t kind model event =
      map_ok (λ u. some (make_sync_event t (model u) event.cursor, t))
        (safe_uuid_from S kind event.entity_id)

  removal_line : Event → String → String → Result (Option (Line × SyncEntityType))
  removal_line event album_id asset_id =
      if album_id == "" || asset_id == ""
      then ok none
      else and_then (safe_uuid_from S Kind.album album_id) (λ al.
        map_ok
          (λ a. some (
            make_sync_event album_to_asset_delete_v1 (album_to_asset_delete al a) event.cursor,
            album_to_asset_delete_v1,
          ))
          (safe_uuid_from S Kind.asset asset_id))

  removal_of_texts : Event → Option String → Option String → Result (Option (Line × SyncEntityType))
  removal_of_texts event none asset_id = ok none
  removal_of_texts event (some album_id) none = ok none
  removal_of_texts event (some album_id) (some asset_id) =
      removal_line event (strip album_id) (strip asset_id)

  album_asset_removed : Event → Result (Option (Line × SyncEntityType))
  unfolding removal_of_texts removal_line
  album_asset_removed event = elim event.payload [
    | none ↦ ok none
    | some fields ↦
        removal_of_texts event (as_text (lookup "album_id" fields))
          (as_text (lookup "asset_id" fields))
  ]

  unfoldable pub make_delete_sync_event : Event → Result (Option (Line × SyncEntityType))
  unfolding mismatched delete_line album_asset_removed
  make_delete_sync_event event =
      if mismatched event
      then ok none
      else if event.event_type == "asset_deleted"
      then delete_line asset_delete_v1 Kind.asset asset_delete event
      else if event.event_type == "album_deleted"
      then delete_line album_delete_v1 Kind.album album_delete event
      else if event.event_type == "person_deleted"
      then delete_line person_delete_v1 Kind.person person_delete event
      else if event.event_type == "face_deleted"
      then delete_line asset_face_delete_v1 Kind.face face_delete event
      else if event.event_type == "album_asset_removed"
      then album_asset_removed event
      else ok none
