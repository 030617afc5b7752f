-- ===== src/Sync/Deletes/Raises.antt =====
-- routers/api/sync/events.py: the exceptions of making a delete line.
use immich_adapter.Prelude.{
  ℕ, String, Option, none, some, Error, value_error, Raises, Raises-and_then, Raises-map_ok,
  Raises-if, ◌==◌, string_eq, ◌||◌, strip, lookup, Option-cases, inl, inr,
}
use immich_adapter.Outside.ShortUuid.{ShortUuid}
use immich_adapter.Ids.{Kind}
use immich_adapter.Ids.Raises.{safe_uuid_from-Raises}
use immich_adapter.Sync.EntityType.{
  SyncEntityType, asset_delete_v1, album_delete_v1, person_delete_v1, asset_face_delete_v1,
}
use immich_adapter.Sync.Entities.{
  Event, Model, asset_delete, album_delete, person_delete, face_delete,
}
use immich_adapter.Sync.Deletes.{
  mismatched, delete_line, removal_line, removal_of_texts, album_asset_removed,
  make_delete_sync_event, as_text,
}

module _ (P : Error → Type 0) (v : P value_error) (S : ShortUuid) where
  delete_line-Raises :
      (t : SyncEntityType) (kind : Kind) (model : ℕ → Model) (event : Event)
      → Raises P (delete_line S t kind model event)
  unfolding delete_line
  delete_line-Raises t kind model event =
      Raises-map_ok P _ _ (safe_uuid_from-Raises P S kind event.entity_id v)

  removal-Raises : (event : Event) (a b : Option String) → Raises P (removal_of_texts S event a b)
  unfolding removal_of_texts removal_line
  removal-Raises event none b = tt
  removal-Raises event (some a) none = tt
  removal-Raises event (some a) (some b) = Raises-if P (strip a == "" || strip b == "") _ _ tt (
      Raises-and_then P _ _ (safe_uuid_from-Raises P S Kind.album (strip a) v)
        (λ u. Raises-map_ok P _ _ (safe_uuid_from-Raises P S Kind.asset (strip b) v)))

  album_asset_removed-Raises : (event : Event) → Raises P (album_asset_removed S event)
  unfolding album_asset_removed
  album_asset_removed-Raises event = elim (Option-cases event.payload) [
    | inl e ↦ rw e tt
    | inr (fields, e) ↦ rw e (
        removal-Raises event (as_text (lookup "album_id" fields))
          (as_text (lookup "asset_id" fields)))
  ]

  pub make_delete_sync_event-Raises : (event : Event) → Raises P (make_delete_sync_event S event)
  unfolding make_delete_sync_event
  make_delete_sync_event-Raises event = Raises-if P (mismatched event) _ _ tt (
      Raises-if P (event.event_type == "asset_deleted") _ _
        (delete_line-Raises asset_delete_v1 Kind.asset asset_delete event)
        (Raises-if P (event.event_type == "album_deleted") _ _
          (delete_line-Raises album_delete_v1 Kind.album album_delete event)
          (Raises-if P (event.event_type == "person_deleted") _ _
            (delete_line-Raises person_delete_v1 Kind.person person_delete event)
            (Raises-if P (event.event_type == "face_deleted") _ _
              (delete_line-Raises asset_face_delete_v1 Kind.face face_delete event)
              (Raises-if P (event.event_type == "album_asset_removed") _ _
                (album_asset_removed-Raises event) tt)))))
