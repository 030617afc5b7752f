-- ===== src/Sync/Stream/Ends.antt =====
-- routers/api/sync/stream.py: the end of the loop over the pages of a pass, and its exceptions.
use immich_adapter.Prelude.{
  ℕ, zero, suc, ◌<◌, String, ◌≡◌, refl, arith, Bool, true, false, Option, none, some, List, [], ◌∷◌,
  Dict, lookup, string_eq, ok, Error, value_error, attribute_error, overflow_error, Exec, Raises,
  Raises-resume, Option-cases, inl, inr,
}
use immich_adapter.Outside.ShortUuid.{ShortUuid}
use immich_adapter.Outside.Client.{Client, EventsPage}
use immich_adapter.Sync.Entities.{Event, Entity}
use immich_adapter.Sync.Convert.{convert_entity_to_sync_event}
use immich_adapter.Sync.Convert.Raises.{convert_entity_to_sync_event-Raises}
use immich_adapter.Sync.Deletes.{make_delete_sync_event}
use immich_adapter.Sync.Deletes.Raises.{make_delete_sync_event-Raises}
use immich_adapter.Sync.Fk.{extract_payload_fk_refs, add_ids}
use immich_adapter.Sync.Fetch.{fetch_entities_map}
use immich_adapter.Sync.Fetch.Raises.{ClientRaises, Raises-if_exec, fetch_entities_map-Raises}
use immich_adapter.Sync.Stream.{
  Delete, State, Pass, put_delete, stream_entity, process_event, process_events, verify_unknown,
  verify_refs, process_page, pages, events_query, stream_entity_type, start_cursor, last_cursor,
  is_delete, upsert_ids, streamed_stats, prepared, unknown_refs, missing_of, round,
}

module _ (P : Error → Type 0) (v : P value_error) (a : P attribute_error) (o : P overflow_error)
    {W : Type 0} (S : ShortUuid) (client : Client W) (calls : ClientRaises P client)
    (p : Pass) where
  put_delete-Raises : (made : Option Delete) (s : State W) → Raises P (put_delete p made s).0
  unfolding put_delete
  put_delete-Raises none s = tt
  put_delete-Raises (some d) s = Raises-if_exec P p.buffered _ _ s tt tt

  process_event-Raises :
      (entities : Dict String Entity) (event : Event) (s : State W)
      → Raises P (process_event S client p entities event s).0
  unfolding process_event stream_entity
  process_event-Raises entities event s =
      Raises-if_exec P (is_delete event) _ _ s
        (Raises-if_exec P p.emit_deletes _ _ s
          (Raises-resume P (make_delete_sync_event S event) _ s
            (make_delete_sync_event-Raises P v S event) (λ made e. put_delete-Raises made s))
          tt)
        (elim (Option-cases (lookup event.entity_id entities)) [
          | inl e ↦ rw e tt
          | inr (entity, e) ↦ rw e (
              Raises-resume P
                (convert_entity_to_sync_event S p.gumnut_type
                  (prepared S client p event entity s.stats) p.owner event.cursor p.sync_type)
                _
                (record s {
                  stats =
                      streamed_stats S client p (prepared S client p event entity s.stats) s.stats;
                })
                (convert_entity_to_sync_event-Raises P v a o S p.gumnut_type
                  (prepared S client p event entity s.stats) p.owner event.cursor p.sync_type)
                (λ line e. tt))
        ])

  process_events-Raises :
      (entities : Dict String Entity) (events : List Event) (s : State W)
      → Raises P (process_events S client p entities events s).0
  unfolding process_events
  process_events-Raises entities [] s = tt
  process_events-Raises entities (event ∷ events) s =
      let r = process_event S client p entities event s in
      Raises-resume P r.0 _ r.1 (process_event-Raises entities event s)
        (λ _ e. process_events-Raises entities events r.1)

  verify_unknown-Raises :
      (ref_type : String) (ids : List String) (s : State W)
      → Raises P (verify_unknown S client ref_type ids s).0
  unfolding verify_unknown
  verify_unknown-Raises ref_type [] s = tt
  verify_unknown-Raises ref_type (id ∷ ids) s =
      let r = fetch_entities_map client ref_type (id ∷ ids) s.world in
      Raises-resume P r.0 _ (record s { world = r.1 })
        (fetch_entities_map-Raises P v client calls ref_type (id ∷ ids) s.world) (λ fetched e. tt)

  verify_refs-Raises :
      (refs : List (String × List String)) (s : State W) → Raises P (verify_refs S client refs s).0
  unfolding verify_refs
  verify_refs-Raises [] s = tt
  verify_refs-Raises ((ref_type, ids) ∷ more) s =
      let r = verify_unknown S client ref_type (unknown_refs ref_type ids s.stats) s in
      Raises-resume P r.0 _ r.1
        (verify_unknown-Raises ref_type (unknown_refs ref_type ids s.stats) s)
        (λ _ e. verify_refs-Raises more r.1)

  process_page-Raises :
      (events : List Event) (s : State W) → Raises P (process_page S client p events s).0
  unfolding process_page
  process_page-Raises events s =
      let r = fetch_entities_map client p.gumnut_type (upsert_ids events) s.world in
      Raises-resume P r.0 _ (record s { world = r.1 })
        (fetch_entities_map-Raises P v client calls p.gumnut_type (upsert_ids events) s.world)
        (λ fetched e.
          let refs = extract_payload_fk_refs p.gumnut_type events in
          let t : State W = record s {
            world = r.1;
            stats = record s.stats {
              not_found_ids =
                  add_ids p.gumnut_type (missing_of (upsert_ids events) fetched.0)
                    s.stats.not_found_ids;
            };
          } in
          let verified = verify_refs S client refs t in
          Raises-resume P verified.0 _ verified.1 (verify_refs-Raises refs t)
            (λ _ f. process_events-Raises fetched.0 events verified.1))

-- The cursors of a page advance: where more pages stand behind a page that is not empty, fewer are
-- left behind its last cursor than behind the cursor that it was fetched after.
abbrev pub Advances : {W : Type 0} → ShortUuid → Client W → Pass → (Option String → ℕ) → Type 0
Advances {W} S client p left =
    (cursor : Option String) (w : W) (page : EventsPage) (event : Event) (events : List Event)
    → (client.get_events (events_query S client p cursor) w).0 ≡ ok page
    → page.events ≡ event ∷ events
    → page.has_more ≡ true
    → left (some (last_cursor event events)) < left cursor

module _ (P : Error → Type 0) (v : P value_error) (a : P attribute_error) (o : P overflow_error)
    {W : Type 0} (S : ShortUuid) (client : Client W) (calls : ClientRaises P client) (p : Pass)
    (left : Option String → ℕ) (advances : Advances S client p left) where
  round-Raises :
      (next : Option String → Exec (State W) (Unit {0})) (events : List Event) (has_more : Bool)
      (s : State W)
      → ((event : Event) (more : List Event) (t : State W)
          → events ≡ event ∷ more
          → has_more ≡ true
          → Raises P (next (some (last_cursor event more)) t).0)
      → Raises P (round S client next p events has_more s).0
  unfolding round
  round-Raises next [] has_more s h = tt
  round-Raises next (event ∷ events) true s h =
      let r = process_page S client p (event ∷ events) s in
      Raises-resume P r.0 _ r.1 (process_page-Raises P v a o S client calls p (event ∷ events) s)
        (λ _ e. h event events r.1 refl refl)
  round-Raises next (event ∷ events) false s h =
      process_page-Raises P v a o S client calls p (event ∷ events) s

  pages-Raises :
      (n : ℕ) (cursor : Option String) (s : State W)
      → left cursor < n
      → Raises P (pages S client n p cursor s).0
  unfolding pages
  pages-Raises zero cursor s h = absurd (omega (arith, h))
  pages-Raises (suc n) cursor s h =
      let r = client.get_events (events_query S client p cursor) s.world in
      Raises-resume P r.0 _ (record s { world = r.1 })
        (calls.get_events (events_query S client p cursor) s.world)
        (λ page e.
          round-Raises (pages S client n p) page.events page.has_more (record s { world = r.1 })
            (λ event more t f g.
              pages-Raises n (some (last_cursor event more)) t
                (omega (arith, h, advances cursor s.world page event more e f g))))

  -- Where the cursors of the SDK's pages advance, a pass whose fuel exceeds the pages left behind its
  -- start raises nothing but what the calls of the SDK raise, ValueError, AttributeError and
  -- OverflowError: its loop ends, and never for want of fuel.
  pub stream_entity_type-Raises :
      (n : ℕ) (s : State W)
      → left (start_cursor p) < n
      → Raises P (stream_entity_type S client n p s).0
  unfolding stream_entity_type
  stream_entity_type-Raises n s h = pages-Raises n (start_cursor p) s h
