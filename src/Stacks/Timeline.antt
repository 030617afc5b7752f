-- ===== src/Stacks/Timeline.antt =====
-- routers/utils/stack_conversion.py: which frames of a timeline's month stand for their stack, and the
-- use of it by `get_time_bucket` of routers/api/timeline.py.
pub mod Grouped
pub mod Reads
pub mod Covers
pub mod Collapse
pub mod Bounded
use Prim.Native.Nat.{Ordering}
use Prim.Native.String.{compare}
use immich_adapter.Prelude.{
  ℕ, String, Bool, true, false, not, ◌&&◌, ◌||◌, Option, none, some, List, [], ◌∷◌, ◌++◌, map, find,
  keep, take, ltb, length, if◌then◌else◌, ◌==◌, string_eq, number_eq, Dict, lookup, insert, Error,
  Result, ok, err, Exec, pure, raise, ◌>>=◌, status, transport,
}
use immich_adapter.Ids.{Kind, stack, safe_uuid_from}
use immich_adapter.Sync.Fetch.{max_bulk_ids, batched, unique}
use immich_adapter.Outside.ShortUuid.{ShortUuid}
use immich_adapter.Stacks.{
  Asset, StackRow, StackClient, is_live, resolve_effective_primary, gather, sorted,
}

abbrev pub max_timeline_stack_member_reads : ℕ
max_timeline_stack_member_reads = 50

abbrev put_row : StackRow → Dict String StackRow → Dict String StackRow
put_row row rows = insert row.id row rows

-- `{row.id: row for row in rows}`
abbrev pub rows_by_id : List StackRow → Dict String StackRow → Dict String StackRow
rows_by_id [] found = found
rows_by_id (row ∷ rows) found = rows_by_id rows (put_row row found)

unfoldable pub select_timeline_cover : StackRow → List Asset → Option String
select_timeline_cover row members = elim (resolve_effective_primary row (keep is_live members)) [
  | none ↦ none
  | some m ↦ some m.id
]

-- A stack's tuple stands as the UUID and the count that its two texts print.
pub record TimelineStacks : Type 0 where
  pub covers : Dict String String
  pub tuples : Dict String (ℕ × ℕ)

abbrev pub no_stacks : TimelineStacks
no_stacks = record { covers = []; tuples = [] }

unfoldable pub is_collapsed_away : TimelineStacks → Asset → Bool
is_collapsed_away stacks a = elim a.stack_id [
  | none ↦ false
  | some id ↦ elim (lookup id stacks.covers) [ none ↦ false | some cover ↦ not (cover == a.id) ]
]

unfoldable pub tuple_for : TimelineStacks → Asset → Option (ℕ × ℕ)
tuple_for stacks a = elim a.stack_id [ none ↦ none | some id ↦ lookup id stacks.tuples ]

-- `d.get(key, [])`
abbrev pub members_of : String → Dict String (List Asset) → List Asset
members_of id groups = elim (lookup id groups) [ none ↦ [] | some ms ↦ ms ]

abbrev add_member : Asset → String → Dict String (List Asset) → Dict String (List Asset)
add_member a id groups = insert id (members_of id groups ++ a ∷ []) groups

-- the loop that groups the live assets by stack
unfoldable pub grouped : List Asset → Dict String (List Asset) → Dict String (List Asset)
grouped [] groups = groups
grouped (a ∷ assets) groups = elim a.stack_id [
  | none ↦ grouped assets groups
  | some id ↦ grouped assets (if is_live a then add_member a id groups else groups)
]

-- the order of the keys `(to_actual_utc(resolve_capture_datetime(a)), a.id)`
abbrev pub is_earlier : Asset → Asset → Bool
is_earlier a b =
    if a.captured == b.captured
    then elim (compare a.id b.id) [ Ordering.lt ↦ true | Ordering.eq ↦ true | Ordering.gt ↦ false ]
    else ltb a.captured b.captured

abbrev pub sort_members : Dict String (List Asset) → Dict String (List Asset)
sort_members [] = []
sort_members ((id, members) ∷ groups) = (id, sorted is_earlier members) ∷ sort_members groups

unfoldable pub bucket_members_by_stack : List Asset → Dict String (List Asset)
unfolding grouped
bucket_members_by_stack assets = sort_members (grouped assets [])

-- the stack ids of the assets that have one
abbrev pub stack_ids_of : List Asset → List String
stack_ids_of [] = []
stack_ids_of (a ∷ assets) = elim a.stack_id [
  | none ↦ stack_ids_of assets
  | some id ↦ id ∷ stack_ids_of assets
]

-- whether the bucket holds all live members that a stack's row counts
abbrev pub is_complete : Dict String (List Asset) → StackRow → String → Bool
is_complete groups row id = length (members_of id groups) == row.asset_count

-- `complete_ids` and `partial_ids`
unfoldable pub classify :
    Dict String StackRow → Dict String (List Asset) → List String → List String × List String
classify rows groups [] = ([], [])
classify rows groups (id ∷ ids) =
    let (complete, partial) = classify rows groups ids in
    elim (lookup id rows) [
      | none ↦ (complete, partial)
      | some row ↦
          if is_complete groups row id then (id ∷ complete, partial) else (complete, id ∷ partial)
    ]

abbrev pub put_complete :
    Dict String (List Asset) → List String → Dict String (List Asset) → Dict String (List Asset)
put_complete groups [] live = live
put_complete groups (id ∷ ids) live =
    put_complete groups ids (insert id (members_of id groups) live)

-- the loop over `zip(read_ids, fetched_members)`; the two are of one length
abbrev pub put_fetched :
    List String → List (Result (List Asset)) → Dict String (List Asset) → Dict String (List Asset)
put_fetched [] fetched live = live
put_fetched (id ∷ ids) [] live = live
put_fetched (id ∷ ids) (ok members ∷ fetched) live =
    put_fetched ids fetched (insert id members live)
put_fetched (id ∷ ids) (err e ∷ fetched) live = put_fetched ids fetched live

-- `except GumnutError`
abbrev pub is_gumnut_error : Error → Bool
is_gumnut_error (status n) = true
is_gumnut_error transport = true
is_gumnut_error e = false

abbrev pub or_error : {A W : Type 0} → Result A → Exec W (Result A)
or_error (ok a) w = (ok (ok a), w)
or_error (err e) w = (if is_gumnut_error e then ok (err e) else err e, w)

module _ {W : Type 0} (client : StackClient W) where
  unfoldable pub fetch_row_chunks : List (List String) → Exec W (List StackRow)
  fetch_row_chunks [] = pure []
  fetch_row_chunks (chunk ∷ chunks) = do
    rows ← client.list_stacks chunk
    more ← fetch_row_chunks chunks
    pure (rows ++ more)

  unfoldable pub fetch_stack_rows : List String → Exec W (List StackRow)
  unfolding fetch_row_chunks batched
  fetch_stack_rows ids = fetch_row_chunks (batched ids max_bulk_ids)

  unfoldable pub live_members_or_error : String → Exec W (Result (List Asset))
  live_members_or_error id w =
      let (r, after) = client.fetch_live_stack_members id w in or_error r after

abbrev pub read_ids : List StackRow → List Asset → List String
read_ids rows assets =
    take max_timeline_stack_member_reads
      (classify (rows_by_id rows []) (bucket_members_by_stack assets)
        (unique (stack_ids_of assets))).1

abbrev pub complete_ids : List StackRow → List Asset → List String
complete_ids rows assets =
    (classify (rows_by_id rows []) (bucket_members_by_stack assets)
      (unique (stack_ids_of assets))).0

abbrev pub live_from :
    List StackRow → List Asset → List (Result (List Asset)) → Dict String (List Asset)
live_from rows assets fetched =
    put_fetched (read_ids rows assets) fetched
      (put_complete (bucket_members_by_stack assets) (complete_ids rows assets) [])

-- a failure of the stacks leaves the bucket as it is
abbrev pub or_no_stacks : Result TimelineStacks → TimelineStacks
or_no_stacks (ok stacks) = stacks
or_no_stacks (err e) = no_stacks

module _ (S : ShortUuid) where
  -- the cover and the tuple of a stack, where its row, its members, a live one and its UUID are there
  unfoldable pub decide :
      Dict String StackRow → Dict String (List Asset) → String → Option (String × ℕ × ℕ)
  decide rows live id = elim (lookup id rows) [
    | none ↦ none
    | some row ↦ elim (lookup id live) [
      | none ↦ none
      | some members ↦ elim (select_timeline_cover row members) [
        | none ↦ none
        | some cover ↦ elim (safe_uuid_from S stack id) [
          | err e ↦ none
          | ok uuid ↦ some (cover, uuid, row.asset_count)
        ]
      ]
    ]
  ]

  -- the loop that fills `covers` and `tuples`
  unfoldable pub resolve_all :
      Dict String StackRow
      → Dict String (List Asset)
      → List String
      → TimelineStacks
      → TimelineStacks
  unfolding decide
  resolve_all rows live [] stacks = stacks
  resolve_all rows live (id ∷ ids) stacks = elim (decide rows live id) [
    | none ↦ resolve_all rows live ids stacks
    | some found ↦ resolve_all rows live ids (record {
      covers = insert id found.0 stacks.covers;
      tuples = insert id (found.1, found.2) stacks.tuples;
    })
  ]

  module _ {W : Type 0} (client : StackClient W) where
    -- the resolution of the stacks with these ids, for a bucket
    unfoldable pub resolve_ids : List String → List Asset → Exec W TimelineStacks
    unfolding resolve_all classify bucket_members_by_stack live_members_or_error fetch_stack_rows
        gather
    resolve_ids [] assets = pure no_stacks
    resolve_ids (id ∷ ids) assets = do
      rows ← fetch_stack_rows client (id ∷ ids)
      fetched ← gather (map (live_members_or_error client) (read_ids rows assets))
      pure (resolve_all (rows_by_id rows []) (live_from rows assets fetched) (id ∷ ids) no_stacks)

    unfoldable pub resolve_timeline_stacks : List Asset → Exec W TimelineStacks
    unfolding resolve_ids unique
    resolve_timeline_stacks assets = resolve_ids (unique (stack_ids_of assets)) assets

    -- the part of `get_time_bucket` that collapses the stacks of the assets it has read
    unfoldable pub collapse_bucket :
        Bool → Bool → List Asset → Exec W (List Asset × Option TimelineStacks)
    unfolding resolve_timeline_stacks is_collapsed_away
    collapse_bucket with_stacked is_trashed assets w =
        if with_stacked && not is_trashed
        then (let (r, after) = resolve_timeline_stacks assets w in
            let stacks = or_no_stacks r in
            (ok (keep (λ a. not (is_collapsed_away stacks a)) assets, some stacks), after))
        else (ok (assets, none), w)
