-- ===== src/Sync/Stream/Keeps.antt =====
-- routers/api/sync/stream.py: predicates on lines and buffered deletes that a pass carries along.
use immich_adapter.Prelude.{
  ℕ, zero, suc, String, ◌≡◌, Bool, true, false, Option, none, some, List, [], ◌∷◌, Dict, lookup,
  string_eq, All, All-append, ok, Exec, resume_keeps, ◌>>=◌, Bool-cases, inl, inr, Option-cases,
}
use immich_adapter.Outside.ShortUuid.{ShortUuid}
use immich_adapter.Outside.Client.{Client}
use immich_adapter.Sync.Entities.{Event, Entity, Line}
use immich_adapter.Sync.Convert.{convert_entity_to_sync_event}
use immich_adapter.Sync.Deletes.{make_delete_sync_event}
use immich_adapter.Sync.Fk.{extract_payload_fk_refs, add_ids}
use immich_adapter.Sync.Fetch.{fetch_entities_map}
use immich_adapter.Sync.Stream.{
  Delete, State, Pass, put_delete, stream_entity, process_event, process_events, verify_unknown,
  verify_refs, process_page, pages, events_query, stream_entity_type, start_cursor, last_cursor,
  is_delete, upsert_ids, streamed_stats, prepared, unknown_refs, missing_of, call, round,
}

module _ {W : Type 0} (Good : Line → Type 0) (Held : Delete → Type 0) where
  abbrev pub Keeping : State W → Type 0
  Keeping s = All Good s.out × All Held s.deletes

module _ {W : Type 0} (S : ShortUuid) (client : Client W) (Good : Line → Type 0)
    (Held : Delete → Type 0) (p : Pass) (buffered : p.buffered ≡ true)
    (good : (event : Event) (entity : Entity) (line : Line)
      → convert_entity_to_sync_event S p.gumnut_type entity p.owner event.cursor p.sync_type
        ≡ ok line
      → Good line)
    (held : (event : Event) (d : Delete)
      → make_delete_sync_event S event ≡ ok (some d)
      → Held d) where
  stream_entity-keeps :
      (event : Event) (entity : Entity) (s : State W)
      → Keeping Good Held s
      → Keeping Good Held (stream_entity S client p event entity s).1
  unfolding stream_entity
  stream_entity-keeps event entity s h =
      resume_keeps (Keeping Good Held)
        (convert_entity_to_sync_event S p.gumnut_type (prepared S client p event entity s.stats)
          p.owner event.cursor p.sync_type)
        _
        (λ line e t k. (
          All-append Good t.out (line ∷ []) k.0
              (good event (prepared S client p event entity s.stats) line e, tt),
          k.1,
        ))
        (record s {
          stats = streamed_stats S client p (prepared S client p event entity s.stats) s.stats;
        })
        h

  put_delete-keeps :
      (event : Event) (made : Option Delete) (s : State W)
      → make_delete_sync_event S event ≡ ok made
      → Keeping Good Held s
      → Keeping Good Held (put_delete p made s).1
  unfolding put_delete
  put_delete-keeps event none s e h = h
  put_delete-keeps event (some d) s e h =
      rw buffered (h.0, All-append Held s.deletes (d ∷ []) h.1 (held event d e, tt))

  process_event-keeps :
      (entities : Dict String Entity) (event : Event) (s : State W)
      → Keeping Good Held s
      → Keeping Good Held (process_event S client p entities event s).1
  unfolding process_event
  process_event-keeps entities event s h = elim (Bool-cases (is_delete event)) [
    | inl is ↦ elim (Bool-cases p.emit_deletes) [
      | inl emits ↦
          rw (is, emits)
            (resume_keeps (Keeping Good Held) (make_delete_sync_event S event) _
              (λ made e t k. put_delete-keeps event made t e k) s h)
      | inr silent ↦ rw (is, silent) h
    ]
    | inr upsert ↦ elim (Option-cases (lookup event.entity_id entities)) [
      | inl gone ↦ rw (upsert, gone) h
      | inr (entity, found) ↦ rw (upsert, found) (stream_entity-keeps event entity s h)
    ]
  ]

  process_events-keeps :
      (entities : Dict String Entity) (events : List Event) (s : State W)
      → Keeping Good Held s
      → Keeping Good Held (process_events S client p entities events s).1
  unfolding process_events
  process_events-keeps entities [] s h = h
  process_events-keeps entities (event ∷ events) s h =
      resume_keeps (Keeping Good Held) (process_event S client p entities event s).0 _
        (λ _ e t k. process_events-keeps entities events t k)
        (process_event S client p entities event s).1 (process_event-keeps entities event s h)

  -- A call of the SDK changes the world alone, whatever it answers.
  after_call :
      {A : Type 0} (m : Exec W A) (f : A → Exec (State W) (Unit {0})) (s : State W)
      → ((a : A) (t : State W) → Keeping Good Held t → Keeping Good Held (f a t).1)
      → Keeping Good Held s
      → Keeping Good Held ((call m >>= f) s).1
  after_call m f s keep h =
      resume_keeps (Keeping Good Held) (m s.world).0 f (λ a e t k. keep a t k)
        (record s { world = (m s.world).1 }) h

  verify_unknown-keeps :
      (ref_type : String) (ids : List String) (s : State W)
      → Keeping Good Held s
      → Keeping Good Held (verify_unknown S client ref_type ids s).1
  unfolding verify_unknown
  verify_unknown-keeps ref_type [] s h = h
  verify_unknown-keeps ref_type (id ∷ ids) s h =
      after_call (fetch_entities_map client ref_type (id ∷ ids)) _ s (λ a t k. k) h

  verify_refs-keeps :
      (refs : List (String × List String)) (s : State W)
      → Keeping Good Held s
      → Keeping Good Held (verify_refs S client refs s).1
  unfolding verify_refs
  verify_refs-keeps [] s h = h
  verify_refs-keeps ((ref_type, ids) ∷ more) s h =
      resume_keeps (Keeping Good Held)
        (verify_unknown S client ref_type (unknown_refs ref_type ids s.stats) s).0 _
        (λ _ e t k. verify_refs-keeps more t k)
        (verify_unknown S client ref_type (unknown_refs ref_type ids s.stats) s).1
        (verify_unknown-keeps ref_type (unknown_refs ref_type ids s.stats) s h)

  process_page-keeps :
      (events : List Event) (s : State W)
      → Keeping Good Held s
      → Keeping Good Held (process_page S client p events s).1
  unfolding process_page
  process_page-keeps events s h =
      after_call (fetch_entities_map client p.gumnut_type (upsert_ids events)) _ s
        (λ fetched t k.
          let refs = extract_payload_fk_refs p.gumnut_type events in
          let t' : State W = record t {
            stats = record t.stats {
              not_found_ids =
                  add_ids p.gumnut_type (missing_of (upsert_ids events) fetched.0)
                    t.stats.not_found_ids;
            };
          } in
          resume_keeps (Keeping Good Held) (verify_refs S client refs t').0 _
            (λ _ e u j. process_events-keeps fetched.0 events u j) (verify_refs S client refs t').1
            (verify_refs-keeps refs t' k))
        h

  round-keeps :
      (next : Option String → Exec (State W) (Unit {0})) (events : List Event) (has_more : Bool)
      (s : State W)
      → ((cursor : Option String) (t : State W)
          → Keeping Good Held t
          → Keeping Good Held (next cursor t).1)
      → Keeping Good Held s
      → Keeping Good Held (round S client next p events has_more s).1
  unfolding round
  round-keeps next [] has_more s keep h = h
  round-keeps next (event ∷ events) true s keep h =
      resume_keeps (Keeping Good Held) (process_page S client p (event ∷ events) s).0 _
        (λ _ e t k. keep (some (last_cursor event events)) t k)
        (process_page S client p (event ∷ events) s).1 (process_page-keeps (event ∷ events) s h)
  round-keeps next (event ∷ events) false s keep h = process_page-keeps (event ∷ events) s h

  pages-keeps :
      (n : ℕ) (cursor : Option String) (s : State W)
      → Keeping Good Held s
      → Keeping Good Held (pages S client n p cursor s).1
  unfolding pages
  pages-keeps zero cursor s h = h
  pages-keeps (suc n) cursor s h =
      after_call (client.get_events (events_query S client p cursor)) _ s
        (λ page t k.
          round-keeps (pages S client n p) page.events page.has_more t
            (λ c u j. pages-keeps n c u j) k)
        h

  pub stream_entity_type-keeps :
      (n : ℕ) (s : State W)
      → Keeping Good Held s
      → Keeping Good Held (stream_entity_type S client n p s).1
  unfolding stream_entity_type
  stream_entity_type-keeps n s h = pages-keeps n (start_cursor p) s h
