-- ===== src/Sync/Stream/Complete.antt =====
-- routers/api/sync/stream.py: the lines that the loop over a page's events yields.
use immich_adapter.Prelude.{
  String, ◌≡◌, refl, ap, sym, ◌∙◌, Bool, true, not, ◌&&◌, Option, none, some, List, [], ◌∷◌, ◌++◌,
  map, keep, Dict, lookup, string_eq, is_some, ok, resume-eq-ok, map_ok-eq-ok, Bool-cases, inl, inr,
  if◌then◌else◌, Option-cases, append_assoc, append-nil,
}
use immich_adapter.Outside.ShortUuid.{ShortUuid}
use immich_adapter.Outside.Client.{Client}
use immich_adapter.Sync.Ack.{to_ack_string}
use immich_adapter.Sync.Entities.{Event, Entity, Line, make_sync_event}
use immich_adapter.Sync.Convert.{convert_entity, convert_entity_to_sync_event}
use immich_adapter.Sync.Deletes.{make_delete_sync_event}
use immich_adapter.Sync.Stream.{
  Delete, State, Pass, put_delete, stream_entity, process_event, process_events, is_delete,
  streamed_stats, prepared,
}

-- the acknowledgements of the lines that were yielded
abbrev pub acks_of : {W : Type 0} → State W → List String
acks_of s = map (λ line. line.ack) s.out

-- an upsert event whose entity was fetched
abbrev pub is_hydrated : Dict String Entity → Event → Bool
is_hydrated entities event = not (is_delete event) && is_some (lookup event.entity_id entities)

map-append {ℓ κ} :
    {A : Type ℓ} {B : Type κ} (f : A → B) (xs ys : List A) → map f (xs ++ ys) ≡ map f xs ++ map f ys
map-append f [] ys = refl
map-append f (x ∷ xs) ys = ap (λ r. f x ∷ r) (map-append f xs ys)

convert-ack :
    (S : ShortUuid) (type : String) (entity : Entity) (p : Pass) (event : Event) (line : Line)
    → convert_entity_to_sync_event S type entity p.owner event.cursor p.sync_type ≡ ok line
    → line.ack ≡ to_ack_string p.sync_type event.cursor
unfolding convert_entity_to_sync_event make_sync_event
convert-ack S type entity p event line h =
    let (model, e, made) =
      map_ok-eq-ok (λ m. make_sync_event p.sync_type m event.cursor)
        (convert_entity S type entity p.owner p.sync_type) h in
    sym (ap (λ l. l.ack) made)

module _ {W : Type 0} (S : ShortUuid) (client : Client W) (p : Pass)
    (buffered : p.buffered ≡ true) where
  put_delete-acks :
      (made : Option Delete) (s : State W) → acks_of (put_delete p made s).1 ≡ acks_of s
  unfolding put_delete
  put_delete-acks none s = refl
  put_delete-acks (some d) s = rw buffered refl

  stream_entity-acks :
      (event : Event) (entity : Entity) (s : State W)
      → (stream_entity S client p event entity s).0 ≡ ok tt
      → acks_of (stream_entity S client p event entity s).1
        ≡ acks_of s ++ to_ack_string p.sync_type event.cursor ∷ []
  unfolding stream_entity
  stream_entity-acks event entity s h =
      let e' = prepared S client p event entity s.stats in
      let r = convert_entity_to_sync_event S p.gumnut_type e' p.owner event.cursor p.sync_type in
      let t : State W = record s { stats = streamed_stats S client p e' s.stats } in
      let (line, e, same) = resume-eq-ok r _ t h in
      ap (λ x. acks_of x.1) same
      ∙ map-append (λ l. l.ack) s.out (line ∷ [])
      ∙ rw (convert-ack S p.gumnut_type e' p event line e) refl

  process_event-acks :
      (entities : Dict String Entity) (event : Event) (s : State W)
      → (process_event S client p entities event s).0 ≡ ok tt
      → acks_of (process_event S client p entities event s).1
        ≡ acks_of s
          ++ (if is_hydrated entities event
              then to_ack_string p.sync_type event.cursor ∷ []
              else [])
  unfolding process_event
  process_event-acks entities event s h = elim (Bool-cases (is_delete event)) [
    | inl is ↦ elim (Bool-cases p.emit_deletes) [
      | inl emits ↦
          let (made, e, same) =
            resume-eq-ok (make_delete_sync_event S event) (put_delete p) s
              (rw (is, emits, process_event) at h) in
          rw (is, emits, process_event)
            (ap (λ x. acks_of x.1) same ∙ put_delete-acks made s ∙ sym (append-nil _))
      | inr silent ↦ rw (is, silent, process_event) (sym (append-nil _))
    ]
    | inr upsert ↦ elim (Option-cases (lookup event.entity_id entities)) [
      | inl gone ↦ rw (upsert, gone, process_event) (sym (append-nil _))
      | inr (entity, found) ↦
          rw (upsert, found, process_event)
            (stream_entity-acks event entity s (rw (upsert, found, process_event) at h))
    ]
  ]

  -- In a pass that buffers deletes, where the loop over a page's events ends without an exception, the
  -- lines that it yielded acknowledge, one for one and in order, the upsert events of the page whose
  -- entities were fetched, under the type of the pass.
  pub process_events-acks :
      (entities : Dict String Entity) (events : List Event) (s : State W)
      → (process_events S client p entities events s).0 ≡ ok tt
      → acks_of (process_events S client p entities events s).1
        ≡ acks_of s
          ++ map (λ e. to_ack_string p.sync_type e.cursor) (keep (is_hydrated entities) events)
  unfolding process_events
  process_events-acks entities [] s h = sym (append-nil _)
  process_events-acks entities (event ∷ events) s h =
      let r = process_event S client p entities event s in
      let (u, e, same) = resume-eq-ok r.0 (λ _. process_events S client p entities events) r.1 h in
      ap (λ x. acks_of x.1) same
      ∙ process_events-acks entities events r.1 (ap (λ x. x.0) (sym same) ∙ h)
      ∙ ap
          (λ acks.
            acks
            ++ map (λ e. to_ack_string p.sync_type e.cursor) (keep (is_hydrated entities) events))
          (process_event-acks entities event s e)
      ∙ (elim (Bool-cases (is_hydrated entities event)) [
        | inl is ↦
            rw (is, keep) (append_assoc (acks_of s) (to_ack_string p.sync_type event.cursor ∷ []) _)
        | inr other ↦
            rw (other, keep)
              (ap
                (λ acks.
                  acks
                  ++ map (λ e. to_ack_string p.sync_type e.cursor)
                      (keep (is_hydrated entities) events))
                (append-nil (acks_of s)))
      ])
