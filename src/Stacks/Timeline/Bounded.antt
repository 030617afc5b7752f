-- ===== src/Stacks/Timeline/Bounded.antt =====
-- routers/utils/stack_conversion.py: the number of member reads that a month's collapse makes.
use immich_adapter.Prelude.{
  ℕ, ◌+◌, ◌≤◌, String, List, [], ◌∷◌, map, length, Result-cases, inl, inr, arith,
}
use immich_adapter.Outside.ShortUuid.{ShortUuid}
use immich_adapter.Sync.Fetch.{max_bulk_ids, unique, batched}
use immich_adapter.Sync.Fetch.Batches.{length-take_le}
use immich_adapter.Stacks.{Asset, StackClient, gather}
use immich_adapter.Stacks.Timeline.{
  stack_ids_of, rows_by_id, bucket_members_by_stack, classify, read_ids, live_members_or_error,
  fetch_row_chunks, fetch_stack_rows, resolve_ids, resolve_timeline_stacks,
}

-- `reads` counts the member reads of a world: such a read adds at most one, and a read of rows none.
module _ {W : Type 0} (client : StackClient W) (reads : W → ℕ)
    (one : (id : String) (w : W) → reads (client.fetch_live_stack_members id w).1 ≤ reads w + 1)
    (no_more : (ids : List String) (w : W) → reads (client.list_stacks ids w).1 ≤ reads w) where
  live_members_or_error-reads :
      (id : String) (w : W) → reads (live_members_or_error client id w).1 ≤ reads w + 1
  unfolding live_members_or_error
  live_members_or_error-reads id w = elim (Result-cases (client.fetch_live_stack_members id w).0) [
    | inl (a, k) ↦ rw k (one id w)
    | inr (e, k) ↦ rw k (one id w)
  ]

  gather-reads :
      (ids : List String) (w : W)
      → reads (gather (map (live_members_or_error client) ids) w).1 ≤ reads w + length ids
  unfolding gather
  gather-reads [] w = omega arith
  gather-reads (id ∷ ids) w = omega (
    arith,
    live_members_or_error-reads id w,
    gather-reads ids (live_members_or_error client id w).1,
  )

  fetch_row_chunks-reads :
      (chunks : List (List String)) (w : W) → reads (fetch_row_chunks client chunks w).1 ≤ reads w
  unfolding fetch_row_chunks
  fetch_row_chunks-reads [] w = omega arith
  fetch_row_chunks-reads (chunk ∷ chunks) w = elim (Result-cases (client.list_stacks chunk w).0) [
    | inr (e, k) ↦ rw k (no_more chunk w)
    | inl (rows, k) ↦
        let after = (client.list_stacks chunk w).1 in
        rw k (elim (Result-cases (fetch_row_chunks client chunks after).0) [
          | inl (more, j) ↦
              rw j (omega (arith, fetch_row_chunks-reads chunks after, no_more chunk w))
          | inr (e, j) ↦ rw j (omega (arith, fetch_row_chunks-reads chunks after, no_more chunk w))
        ])
  ]

  resolve_ids-reads :
      (S : ShortUuid) (ids : List String) (assets : List Asset) (w : W)
      → reads (resolve_ids S client ids assets w).1 ≤ reads w + 50
  unfolding resolve_ids fetch_stack_rows
  resolve_ids-reads S [] assets w = omega arith
  resolve_ids-reads S (id ∷ ids) assets w =
      let chunks = batched (id ∷ ids) max_bulk_ids in
      let after = (fetch_row_chunks client chunks w).1 in
      let first = fetch_row_chunks-reads chunks w in
      elim (Result-cases (fetch_row_chunks client chunks w).0) [
        | inr (e, k) ↦ rw (k, resolve_ids) (omega (arith, first))
        | inl (rows, k) ↦
            let asked = read_ids rows assets in
            let last = gather-reads asked after in
            let few =
              length-take_le 50
                (classify (rows_by_id rows []) (bucket_members_by_stack assets)
                  (unique (stack_ids_of assets))).1 in
            rw (k, resolve_ids)
              (elim (Result-cases (gather (map (live_members_or_error client) asked) after).0) [
                | inl (fetched, g) ↦ rw (g, resolve_ids) (omega (arith, first, last, few))
                | inr (e, g) ↦ rw (g, resolve_ids) (omega (arith, first, last, few))
              ])
      ]

-- However many stacks a month's frames have, and whatever the reads answer, its collapse makes at
-- most 50 member reads, where `reads` counts them: a member read adds at most one to it, and a read of
-- stack rows nothing.
pub resolve_timeline_stacks-reads :
    {W : Type 0} (S : ShortUuid) (client : StackClient W) (reads : W → ℕ)
    → ((id : String) (w : W) → reads (client.fetch_live_stack_members id w).1 ≤ reads w + 1)
    → ((ids : List String) (w : W) → reads (client.list_stacks ids w).1 ≤ reads w)
    → (assets : List Asset) (w : W)
    → reads (resolve_timeline_stacks S client assets w).1 ≤ reads w + 50
unfolding resolve_timeline_stacks
resolve_timeline_stacks-reads S client reads one no_more assets w =
    resolve_ids-reads client reads one no_more S (unique (stack_ids_of assets)) assets w
