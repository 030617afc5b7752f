-- ===== src/Sync/Stream.antt =====
-- routers/api/sync/stream.py: one pass over the events of an entity type. The state of a stream is
-- the world behind the API, the lines yielded so far, the statistics and the buffer of deletes.
pub mod Causal
pub mod Keeps
pub mod Complete
pub mod Ends
use immich_adapter.Prelude.{
  ℕ, zero, suc, ◌+◌, String, Bool, true, false, not, ◌&&◌, ◌||◌, Option, none, some, List, [], ◌∷◌,
  ◌++◌, map, ◌==◌, string_eq, if◌then◌else◌, Dict, lookup, insert, contains, is_none, keep, Exec,
  pure, raise, lift, gets, modify, fuel, ◌>>=◌, ◌>>◌,
}
use immich_adapter.Outside.ShortUuid.{ShortUuid}
use immich_adapter.Outside.Client.{Client, EventsQuery}
use immich_adapter.Checkpoint.{Checkpoint}
use immich_adapter.Sync.EntityType.{SyncEntityType, entity_type_eq}
use immich_adapter.Sync.Entities.{Event, Entity, entity_id, Line}
use immich_adapter.Sync.Overrides.{apply_overrides}
use immich_adapter.Sync.Convert.{convert_entity_to_sync_event}
use immich_adapter.Sync.Deletes.{make_delete_sync_event}
use immich_adapter.Sync.Fk.{
  SyncStreamStats, ids_of, add_ids, check_fk_references, null_deleted_fk_references,
  extract_payload_fk_refs,
}
use immich_adapter.Sync.Fetch.{fetch_entities_map}

abbrev pub events_page_size : ℕ
events_page_size = 200

abbrev pub delete_event_types : List String
delete_event_types =
    "asset_deleted" ∷ "album_deleted" ∷ "person_deleted" ∷ "face_deleted" ∷ "album_asset_removed"
    ∷ []

-- `event.event_type in _DELETE_EVENT_TYPES`; no event type is in `_SKIPPED_EVENT_TYPES`, which is
-- empty.
unfoldable pub is_delete : Event → Bool
is_delete event = contains event.event_type delete_event_types

abbrev pub Delete : Type 0
Delete = Line × SyncEntityType

pub record State (W : Type 0) : Type 0 where
  pub world : W
  pub out : List Line
  pub stats : SyncStreamStats
  pub deletes : List Delete

-- What a pass is given: the request type's Gumnut and sync type, the owner, the upper bound of the
-- query window, all checkpoints of the session, whether deletes are buffered (a `delete_buffer` is
-- passed) or yielded at once, and `emit_deletes`.
pub record Pass : Type 0 where
  pub gumnut_type : String
  pub sync_type : SyncEntityType
  pub owner : ℕ
  pub started_at : ℕ
  pub checkpoints : Dict SyncEntityType Checkpoint
  pub buffered : Bool
  pub emit_deletes : Bool

-- `skips[type] += 1` of a defaultdict of ints
abbrev add_one : String → Dict String ℕ → Dict String ℕ
add_one type skips = insert type (elim (lookup type skips) [ none ↦ 1 | some n ↦ n + 1 ]) skips

-- the members of the first list that are not in the second
abbrev minus : List String → List String → List String
minus xs ys = keep (λ x. not (contains x ys)) xs

-- the ids that were asked for and are no keys of the answer
abbrev missing_of : List String → Dict String Entity → List String
missing_of ids found = keep (λ id. is_none (lookup id found)) ids

abbrev upsert_ids : List Event → List String
upsert_ids events = map (λ e. e.entity_id) (keep (λ e. not (is_delete e)) events)

-- `events[-1].cursor`
abbrev pub last_cursor : Event → List Event → String
last_cursor e [] = e.cursor
last_cursor e (e' ∷ es) = last_cursor e' es

-- `checkpoint.cursor if checkpoint else None`
abbrev pub start_cursor : Pass → Option String
start_cursor p = elim (lookup p.sync_type p.checkpoints) [ none ↦ none | some c ↦ c.cursor ]

-- the payload references of a page that were neither streamed nor found missing before
abbrev pub unknown_refs : String → List String → SyncStreamStats → List String
unknown_refs ref_type ref_ids stats =
    minus (minus ref_ids (ids_of ref_type stats.streamed_ids)) (ids_of ref_type stats.not_found_ids)

module _ {W : Type 0} where
  -- a call of the SDK
  abbrev pub call : {A : Type 0} → Exec W A → Exec (State W) A
  call m s = ((m s.world).0, record s { world = (m s.world).1 })

  -- `yield line`
  abbrev pub emit : Line → Exec (State W) (Unit {0})
  emit line = modify (λ s. record s { out = s.out ++ line ∷ [] })

  abbrev pub set_stats : (SyncStreamStats → SyncStreamStats) → Exec (State W) (Unit {0})
  set_stats f = modify (λ s. record s { stats = f s.stats })

  -- what is done with the line that `make_delete_sync_event` answers with
  put_delete : Pass → Option Delete → Exec (State W) (Unit {0})
  put_delete p none = set_stats (λ t. record t { delete_event_skips = t.delete_event_skips + 1 })
  put_delete p (some (line, type)) =
      if p.buffered
      then modify (λ s. record s {
        deletes = s.deletes ++ (line, type) ∷ [];
        stats = record s.stats { buffered_deletes = s.stats.buffered_deletes + 1 };
      })
      else emit line

module _ {W : Type 0} (S : ShortUuid) (client : Client W) where
  -- the statistics and the entity behind an upsert event, up to its conversion
  abbrev pub prepared : Pass → Event → Entity → SyncStreamStats → Entity
  prepared p event entity stats =
      null_deleted_fk_references p.gumnut_type (apply_overrides p.sync_type event entity) stats

  abbrev pub streamed_stats : Pass → Entity → SyncStreamStats → SyncStreamStats
  streamed_stats p entity stats =
      check_fk_references p.gumnut_type entity p.checkpoints (record stats {
        streamed_ids = add_ids p.gumnut_type (entity_id entity ∷ []) stats.streamed_ids;
      })

  -- the upsert branch of the loop over a page's events, for an entity that was fetched
  stream_entity : Pass → Event → Entity → Exec (State W) (Unit {0})
  stream_entity p event entity = do
    stats ← gets (λ s. s.stats)
    set_stats (streamed_stats p (prepared p event entity stats))
    line ← lift (
        convert_entity_to_sync_event S p.gumnut_type (prepared p event entity stats) p.owner
          event.cursor p.sync_type)
    emit line

  -- one round of the loop over a page's events
  process_event : Pass → Dict String Entity → Event → Exec (State W) (Unit {0})
  unfolding stream_entity put_delete
  process_event p entities event =
      if is_delete event
      then (if p.emit_deletes
          then (do made ← lift (make_delete_sync_event S event); put_delete p made)
          else pure tt)
      else elim (lookup event.entity_id entities) [
        | none ↦ set_stats (λ t. record t {
          entity_not_found_skips = add_one p.gumnut_type t.entity_not_found_skips;
        })
        | some entity ↦ stream_entity p event entity
      ]

  unfoldable pub process_events : Pass → Dict String Entity → List Event → Exec (State W) (Unit {0})
  unfolding process_event
  process_events p entities [] = pure tt
  process_events p entities (event ∷ events) = do
    process_event p entities event
    process_events p entities events

  -- the ids that are asked for and not answered with are recorded as missing
  verify_unknown : String → List String → Exec (State W) (Unit {0})
  verify_unknown ref_type [] = pure tt
  verify_unknown ref_type (id ∷ ids) = do
    fetched ← call (fetch_entities_map client ref_type (id ∷ ids))
    set_stats (λ t. record t {
      not_found_ids = add_ids ref_type (missing_of (id ∷ ids) fetched.0) t.not_found_ids;
    })

  -- the loop over the payload references of a page
  verify_refs : List (String × List String) → Exec (State W) (Unit {0})
  verify_refs [] = pure tt
  verify_refs ((ref_type, ref_ids) ∷ more) = do
    stats ← gets (λ s. s.stats)
    verify_unknown ref_type (unknown_refs ref_type ref_ids stats)
    verify_refs more

  -- one round of the `while`, behind the fetch of its events
  process_page : Pass → List Event → Exec (State W) (Unit {0})
  unfolding process_event verify_refs verify_unknown process_events
  process_page p events = do
    fetched ← call (fetch_entities_map client p.gumnut_type (upsert_ids events))
    set_stats (λ t. record t {
      not_found_ids =
          add_ids p.gumnut_type (missing_of (upsert_ids events) fetched.0) t.not_found_ids;
    })
    verify_refs (extract_payload_fk_refs p.gumnut_type events)
    process_events p fetched.0 events

  abbrev pub events_query : Pass → Option String → EventsQuery
  events_query p cursor = record {
    created_at_lt = p.started_at;
    entity_types = p.gumnut_type;
    limit = events_page_size;
    after_cursor = cursor;
  }

  -- The rest of a round behind the fetch of its page, with the next rounds as an argument: a page
  -- without events, or without more behind it, ends the loop; else it goes on behind the page's last
  -- cursor.
  round :
      (Option String → Exec (State W) (Unit {0}))
      → Pass
      → List Event
      → (has_more : Bool) → Exec (State W) (Unit {0})
  round next p [] has_more = pure tt
  round next p (event ∷ events) true = do
    process_page p (event ∷ events)
    next (some (last_cursor event events))
  round next p (event ∷ events) false = process_page p (event ∷ events)

  -- the `while` loop, with fuel for its rounds
  pages : ℕ → Pass → Option String → Exec (State W) (Unit {0})
  unfolding round
  pages zero p cursor = raise fuel
  pages (suc n) p cursor = do
    page ← call (client.get_events (events_query p cursor))
    round (pages n p) p page.events page.has_more

  -- `_stream_entity_type`
  pub stream_entity_type : ℕ → Pass → Exec (State W) (Unit {0})
  unfolding pages
  stream_entity_type n p = pages n p (start_cursor p)
