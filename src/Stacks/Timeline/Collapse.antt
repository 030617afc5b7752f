-- ===== src/Stacks/Timeline/Collapse.antt =====
-- routers/utils/stack_conversion.py and `get_time_bucket` of routers/api/timeline.py: the frames that a
-- collapsed month keeps and hides.
use immich_adapter.Prelude.{
  ◌≡◌, ◌≢◌, refl, ◌∙◌, ap, sym, String, Bool, true, false, not, ◌&&◌, ◌⊎◌, Option, none, some, List,
  [], ◌∷◌, map, keep, string_eq, lookup, All, Bool-cases, Result-cases, Option-cases, inl, inr,
  arith, subst, Result, ok,
}
use immich_adapter.Outside.ShortUuid.{ShortUuid}
use immich_adapter.Sync.Fetch.{unique}
use immich_adapter.Stacks.{Asset, StackRow, StackClient, is_live, gather}
use immich_adapter.Stacks.Cover.{In}
use immich_adapter.Stacks.Timeline.{
  TimelineStacks, no_stacks, members_of, stack_ids_of, rows_by_id, bucket_members_by_stack,
  is_collapsed_away, resolve_all, read_ids, live_from, complete_ids, put_complete,
  live_members_or_error, fetch_stack_rows, resolve_ids, resolve_timeline_stacks, or_no_stacks,
  collapse_bucket,
}
use immich_adapter.Stacks.Timeline.Grouped.{IsFrameOf, bucket_members-frames}
use immich_adapter.Stacks.Timeline.Reads.{
  IsRead, IsKnown, gather-AllRead, put_complete-AllKnown, put_fetched-AllKnown,
}
use immich_adapter.Stacks.Timeline.Covers.{
  In-keep, keep-In, All-In, All-of, decide-live, resolve_all-Decided,
}

-- A frame is hidden where its stack has a cover of another id.
hidden-cover :
    (st : TimelineStacks) (a : Asset)
    → is_collapsed_away st a ≡ true
    → (id : String) × (a.stack_id ≡ some id)
      × ((c : String) × (lookup id st.covers ≡ some c) × (c ≢ a.id))
unfolding is_collapsed_away
hidden-cover st a h = elim (Option-cases a.stack_id) [
  | inl j ↦ absurd (ground (arith, j, h))
  | inr (id, j) ↦ elim (Option-cases (lookup id st.covers)) [
    | inl l ↦ absurd (ground (arith, j, l, h))
    | inr (c, l) ↦ (id, j, (c, l, λ e. ground (arith, j, l, h, (string_eq.beq_iff c a.id).1 e)))
  ]
]

cover-kept :
    (st : TimelineStacks) (m : Asset) (id c : String)
    → m.stack_id ≡ some id
    → lookup id st.covers ≡ some c
    → m.id ≡ c
    → is_collapsed_away st m ≡ false
unfolding is_collapsed_away
cover-kept st m id c k l named = ground (arith, k, l, (string_eq.beq_iff c m.id).1 (sym named))

module _ (S : ShortUuid) {W : Type 0} (client : StackClient W) (assets : List Asset) where
  -- a live frame that stands for a stack: of the bucket, or in the answer of a read of the stack
  abbrev pub StandsFor : String → Asset → Type 0
  StandsFor id m =
      (is_live m ≡ true)
      × (IsFrameOf assets id m ⊎ ((ms : List Asset) × IsRead client id ms × In m ms))

  IsKnown-StandsFor :
      (id : String) (ms : List Asset) (m : Asset)
      → IsKnown client (bucket_members_by_stack assets) id ms
      → In m ms
      → is_live m ≡ true
      → StandsFor id m
  IsKnown-StandsFor id ms m (inl e) i live = (
    live,
    inl (
        All-In (IsFrameOf assets id) (members_of id (bucket_members_by_stack assets)) m
          (bucket_members-frames assets id) (subst (In m) e i)),
  )
  IsKnown-StandsFor id ms m (inr r) i live = (live, inr (ms, r, i))

  abbrev pub CoversStand : TimelineStacks → Type 0
  CoversStand st =
      (id c : String) → lookup id st.covers ≡ some c → (m : Asset) × StandsFor id m × (m.id ≡ c)

  live_from-CoversStand :
      (rows : List StackRow) (w : W) (fetched : List (Result (List Asset))) (ids : List String)
      → (gather (map (live_members_or_error client) (read_ids rows assets)) w).0 ≡ ok fetched
      → CoversStand
          (resolve_all S (rows_by_id rows []) (live_from rows assets fetched) ids no_stacks)
  live_from-CoversStand rows w fetched ids g id c h =
      let (f, k, e) =
        resolve_all-Decided S (rows_by_id rows []) (live_from rows assets fetched) ids no_stacks
          (λ u d j. cc) id c h in
      let (ms, l, found) =
        decide-live S (rows_by_id rows []) (live_from rows assets fetched) id f k in
      let (m, i, live, named) = found in
      (
        m,
        IsKnown-StandsFor id ms m
            (put_fetched-AllKnown client (bucket_members_by_stack assets) (read_ids rows assets)
              fetched (put_complete (bucket_members_by_stack assets) (complete_ids rows assets) [])
              (gather-AllRead client (read_ids rows assets) w fetched g)
              (put_complete-AllKnown client (bucket_members_by_stack assets)
                (complete_ids rows assets) [] (λ u d j. cc))
              id ms l)
            i live,
        named ∙ e,
      )

  resolve_ids-CoversStand :
      (ids : List String) (w : W) → CoversStand (or_no_stacks (resolve_ids S client ids assets w).0)
  unfolding resolve_ids
  resolve_ids-CoversStand [] w = λ id c h. cc
  resolve_ids-CoversStand (id ∷ ids) w =
      elim (Result-cases (fetch_stack_rows client (id ∷ ids) w).0) [
        | inr (e, k) ↦ rw (k, resolve_ids) (λ u c h. cc)
        | inl (rows, k) ↦
            let after = (fetch_stack_rows client (id ∷ ids) w).1 in
            elim (Result-cases
              (gather (map (live_members_or_error client) (read_ids rows assets)) after).0) [
                | inr (e, g) ↦ rw (k, resolve_ids) (rw (g, resolve_ids) (λ u c h. cc))
                | inl (fetched, g) ↦
                    rw (k, resolve_ids)
                      (rw (g, resolve_ids) (live_from-CoversStand rows after fetched (id ∷ ids) g))
              ]
      ]

  -- What stands for a hidden frame: a live one of another id, which is a frame of the stack that is kept
  -- or one that a read of the stack's live members has answered.
  abbrev pub IsStoodFor : List Asset → Asset → Type 0
  IsStoodFor kept a =
      (id : String) × (a.stack_id ≡ some id)
      × ((m : Asset) × (m.id ≢ a.id)
          × (is_live m ≡ true)
          × (((m.stack_id ≡ some id) × In m kept)
              ⊎ ((ms : List Asset) × IsRead client id ms × In m ms)))

  hidden-IsStoodFor :
      (st : TimelineStacks) (a : Asset)
      → CoversStand st
      → is_collapsed_away st a ≡ true
      → IsStoodFor (keep (λ b. not (is_collapsed_away st b)) assets) a
  hidden-IsStoodFor st a stands h =
      let (id, j, found) = hidden-cover st a h in
      let (c, l, other) = found in
      let (m, stand, named) = stands id c l in
      (
        id,
        j,
        (
          m,
          (λ e. other (sym named ∙ e)),
          stand.0,
          elim stand.1 [
            | inl (i, k, live) ↦ inl (
              k,
              keep-In (λ b. not (is_collapsed_away st b)) assets m i
                  (ap not (cover-kept st m id c k l named)),
            )
            | inr read ↦ inr read
          ],
        ),
      )

  -- Whatever the stacks and their reads answer, a collapse of a month's frames does not fail, keeps
  -- just frames of the month, and hides a frame only where another one, live and of a different id,
  -- stands for its stack: a frame of the stack that the month keeps, or one that a read of the stack's
  -- live members has answered.
  pub collapse_bucket-IsStoodFor :
      (with_stacked is_trashed : Bool) (w : W)
      → (kept : List Asset) × ((st : Option TimelineStacks) × ((collapse_bucket S client
              with_stacked is_trashed assets w).0
            ≡ ok (kept, st)))
        × All (λ a. In a assets) kept
        × All (λ a. In a kept ⊎ IsStoodFor kept a) assets
  unfolding collapse_bucket
  collapse_bucket-IsStoodFor with_stacked is_trashed w =
      elim (Bool-cases (with_stacked && not is_trashed)) [
        | inl e ↦
            let st = or_no_stacks (resolve_timeline_stacks S client assets w).0 in
            let shown = λ (a : Asset). not (is_collapsed_away st a) in
            (
              keep shown assets,
              (some st, rw (e, collapse_bucket) refl),
              All-of (λ a. In a assets) (keep shown assets) (λ a i. (In-keep shown assets a i).0),
              All-of (λ a. In a (keep shown assets) ⊎ IsStoodFor (keep shown assets) a) assets
                  (λ a i. elim (Bool-cases (is_collapsed_away st a)) [
                    | inl hidden ↦ inr (
                        hidden-IsStoodFor st a
                          (resolve_ids-CoversStand (unique (stack_ids_of assets)) w) hidden)
                    | inr visible ↦ inl (keep-In shown assets a i (ap not visible))
                  ]),
            )
        | inr e ↦ (
          assets,
          (none, rw (e, collapse_bucket) refl),
          All-of (λ a. In a assets) assets (λ a i. i),
          All-of (λ a. In a assets ⊎ IsStoodFor assets a) assets (λ a i. inl i),
        )
      ]
