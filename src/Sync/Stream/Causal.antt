-- ===== src/Sync/Stream/Causal.antt =====
-- routers/api/sync/stream.py: the person that a face is streamed with when it was created.
use immich_adapter.Prelude.{
  String, ◌≡◌, refl, ap, sym, subst, ◌∙◌, true, ◌||◌, Option, none, some, ok, string_eq, Bool-cases,
  inl, inr, map_ok-eq-ok,
}
use immich_adapter.Outside.ShortUuid.{ShortUuid}
use immich_adapter.Outside.Client.{Client}
use immich_adapter.Sync.EntityType.{SyncEntityType, same}
use immich_adapter.Sync.Entities.{
  Event, Entity, asset, album, album_asset, person, face, get_attribute, Line, make_sync_event,
}
use immich_adapter.Sync.Convert.{convert_entity, convert_entity_to_sync_event}
use immich_adapter.Sync.Convert.Persons.{person_of, HasNoPerson, no_person-convert}
use immich_adapter.Sync.Fk.{SyncStreamStats, references_of}
use immich_adapter.Sync.Fk.Nulled.{names_missing, get_attribute-null_deleted}
use immich_adapter.Sync.Overrides.{is_face_type, face_person, apply_overrides}
use immich_adapter.Sync.Stream.{Pass, prepared}

face_person-created :
    (event : Event) (current : Option String)
    → event.event_type ≡ "face_created"
    → face_person event current ≡ none
face_person-created event none h = rw h refl
face_person-created event (some p) h = rw h refl

person-apply_overrides :
    (t : SyncEntityType) (event : Event) (entity : Entity)
    → event.event_type ≡ "face_created"
    → is_face_type t ≡ true
    → get_attribute (apply_overrides t event entity) "person_id" ≡ none
unfolding apply_overrides get_attribute
person-apply_overrides t event (face id a p) h k = rw k (face_person-created event p h)
person-apply_overrides t event (album id cover) h k =
    elim (Bool-cases (same t SyncEntityType.album_v1 || same t SyncEntityType.album_v2)) [
      | inl e ↦ rw e refl
      | inr e ↦ rw e refl
    ]
person-apply_overrides t event (asset id f m) h k = refl
person-apply_overrides t event (album_asset id a b) h k = refl
person-apply_overrides t event (person id) h k = refl

module _ {W : Type 0} (S : ShortUuid) (client : Client W) where
  person-prepared :
      (p : Pass) (event : Event) (entity : Entity) (stats : SyncStreamStats)
      → event.event_type ≡ "face_created"
      → is_face_type p.sync_type ≡ true
      → get_attribute (prepared S client p event entity stats) "person_id" ≡ none
  person-prepared p event entity stats h k =
      let changed = apply_overrides p.sync_type event entity in
      get_attribute-null_deleted p.gumnut_type changed stats "person_id"
      ∙ rw (person-apply_overrides p.sync_type event entity h k)
          (elim (Bool-cases
            (names_missing stats changed "person_id" (references_of p.gumnut_type))) [
              | inl e ↦ rw e refl
              | inr e ↦ rw e refl
            ])

  -- In a pass over faces, the line of a face_created event refers to no person, whatever person the
  -- face has by the time it is fetched.
  pub face_created-no_person :
      (p : Pass) (event : Event) (entity : Entity) (stats : SyncStreamStats) (line : Line)
      → event.event_type ≡ "face_created"
      → is_face_type p.sync_type ≡ true
      → convert_entity_to_sync_event S p.gumnut_type
          (prepared S client p event entity stats)
          p.owner
          event.cursor
          p.sync_type
        ≡ ok line
      → person_of line.model ≡ none
  unfolding convert_entity_to_sync_event make_sync_event
  face_created-no_person p event entity stats line h k made =
      let e' = prepared S client p event entity stats in
      let (model, e, same_line) =
        map_ok-eq-ok (λ m. make_sync_event p.sync_type m event.cursor)
          (convert_entity S p.gumnut_type e' p.owner p.sync_type) made in
      ap (λ l. person_of l.model) (sym same_line)
      ∙ subst HasNoPerson e (
          no_person-convert S p.gumnut_type e' p.owner p.sync_type
            (person-prepared p event entity stats h k))
