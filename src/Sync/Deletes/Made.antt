-- ===== src/Sync/Deletes/Made.antt =====
-- routers/api/sync/events.py: the lines that delete events are turned into.
use immich_adapter.Prelude.{
  ℕ, String, ◌≡◌, refl, subst, Bool, true, false, Option, none, some, List, [], ◌∷◌, Result, ok,
  err, if◌then◌else◌, map_ok, and_then, ◌==◌, string_eq, contains, ◌||◌, strip, Dict, lookup,
}
use immich_adapter.Outside.ShortUuid.{ShortUuid}
use immich_adapter.Ids.{Kind, safe_uuid_from}
use immich_adapter.Sync.Ack.{to_ack_string}
use immich_adapter.Sync.EntityType
use immich_adapter.Sync.EntityType.{
  SyncEntityType, entity_type_eq, asset_delete_v1, album_delete_v1, person_delete_v1,
  asset_face_delete_v1, album_to_asset_delete_v1,
}
use immich_adapter.Sync.Entities.{
  Event, PayloadValue, Line, Model, asset_delete, album_delete, person_delete, face_delete,
  make_sync_event,
}
use immich_adapter.Sync.Deletes.{
  mismatched, as_text, removal_line, removal_of_texts, album_asset_removed, make_delete_sync_event,
}

-- the types of delete lines, children first
abbrev pub delete_types : List SyncEntityType
delete_types =
    asset_face_delete_v1 ∷ album_to_asset_delete_v1 ∷ person_delete_v1 ∷ album_delete_v1
    ∷ asset_delete_v1 ∷ []

-- The line has the type that it is buffered under, a delete type, and acknowledges the event.
abbrev pub IsMade : Event → Line × SyncEntityType → Type 0
IsMade event d =
    (d.0.type ≡ d.1)
    × (contains d.1 delete_types ≡ true)
    × (d.0.ack ≡ to_ack_string d.1 event.cursor)

abbrev Ensures : (Line × SyncEntityType → Type 0) → Result (Option (Line × SyncEntityType)) → Type 0
Ensures P (err e) = Unit
Ensures P (ok none) = Unit
Ensures P (ok (some d)) = P d

ensures-if :
    (P : Line × SyncEntityType → Type 0) (b : Bool) (x y : Result (Option (Line × SyncEntityType)))
    → Ensures P x
    → Ensures P y
    → Ensures P (if b then x else y)
ensures-if P true x y hx hy = hx
ensures-if P false x y hx hy = hy

-- a line that is made of one id
of_id :
    (event : Event) (t : SyncEntityType) (r : Result ℕ) (model : ℕ → Model)
    → contains t delete_types ≡ true
    → Ensures (IsMade event) (map_ok (λ u. some (make_sync_event t (model u) event.cursor, t)) r)
unfolding make_sync_event
of_id event t (ok u) model h = (refl, h, refl)
of_id event t (err e) model h = tt

of_ids :
    (event : Event) (t : SyncEntityType) (q r : Result ℕ) (model : ℕ → ℕ → Model)
    → contains t delete_types ≡ true
    → Ensures
        (IsMade event)
        (and_then q (λ a. map_ok (λ u. some (make_sync_event t (model a u) event.cursor, t)) r))
of_ids event t (ok a) r model h = of_id event t r (model a) h
of_ids event t (err e) r model h = tt

module _ (S : ShortUuid) where
  removal_of_texts-ensures :
      (event : Event) (a b : Option String) → Ensures (IsMade event) (removal_of_texts S event a b)
  unfolding removal_of_texts removal_line EntityType.same EntityType.value
  removal_of_texts-ensures event none b = tt
  removal_of_texts-ensures event (some a) none = tt
  removal_of_texts-ensures event (some a) (some b) =
      ensures-if (IsMade event) (strip a == "" || strip b == "") _ _ tt (
        of_ids event album_to_asset_delete_v1 (safe_uuid_from S Kind.album (strip a))
          (safe_uuid_from S Kind.asset (strip b)) Model.album_to_asset_delete refl)

  album_asset_removed-ensures :
      (event : Event) (payload : Option (Dict String PayloadValue))
      → payload ≡ event.payload
      → Ensures (IsMade event) (album_asset_removed S event)
  unfolding album_asset_removed
  album_asset_removed-ensures event none e = rw (← e) tt
  album_asset_removed-ensures event (some fields) e = rw (← e) (
      removal_of_texts-ensures event (as_text (lookup "album_id" fields))
        (as_text (lookup "asset_id" fields)))

  made : (event : Event) → Ensures (IsMade event) (make_delete_sync_event S event)
  unfolding make_delete_sync_event EntityType.same EntityType.value
  made event = ensures-if (IsMade event) (mismatched event) _ _ tt (
      ensures-if (IsMade event) (event.event_type == "asset_deleted") _ _
        (of_id event asset_delete_v1 (safe_uuid_from S Kind.asset event.entity_id) asset_delete
          refl)
        (ensures-if (IsMade event) (event.event_type == "album_deleted") _ _
          (of_id event album_delete_v1 (safe_uuid_from S Kind.album event.entity_id) album_delete
            refl)
          (ensures-if (IsMade event) (event.event_type == "person_deleted") _ _
            (of_id event person_delete_v1 (safe_uuid_from S Kind.person event.entity_id)
              person_delete refl)
            (ensures-if (IsMade event) (event.event_type == "face_deleted") _ _
              (of_id event asset_face_delete_v1 (safe_uuid_from S Kind.face event.entity_id)
                face_delete refl)
              (ensures-if (IsMade event) (event.event_type == "album_asset_removed") _ _
                (album_asset_removed-ensures event event.payload refl) tt)))))

  -- Whatever line a delete event is turned into has one of the five delete types, the type that it is
  -- buffered under, and acknowledges the event's cursor under that type.
  pub make_delete_sync_event-IsMade :
      (event : Event) (d : Line × SyncEntityType)
      → make_delete_sync_event S event ≡ ok (some d)
      → IsMade event d
  make_delete_sync_event-IsMade event d e = subst (Ensures (IsMade event)) e (made event)
