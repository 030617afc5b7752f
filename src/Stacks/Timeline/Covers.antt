-- ===== src/Stacks/Timeline/Covers.antt =====
-- routers/utils/stack_conversion.py: the covers of a timeline's stacks.
use immich_adapter.Prelude.{
  ℕ, ◌≡◌, refl, ◌∙◌, ap, sym, String, Bool, true, some, List, [], ◌∷◌, keep, ◌==◌, string_eq, Dict,
  lookup, insert, lookup-insert, All, Bool-cases, Option-cases, inl, inr, arith, subst,
}
use immich_adapter.Outside.ShortUuid.{ShortUuid}
use immich_adapter.Stacks.{Asset, StackRow, is_live}
use immich_adapter.Stacks.Cover.{In, resolve_effective_primary-IsCover, keep-true, keep-false}
use immich_adapter.Stacks.Timeline.{TimelineStacks, select_timeline_cover, decide, resolve_all}

module _ {A : Type 0} (p : A → Bool) where
  pub In-keep : (xs : List A) (a : A) → In a (keep p xs) → In a xs × (p a ≡ true)
  In-keep [] a h = absurd h
  In-keep (x ∷ xs) a h = elim (Bool-cases (p x)) [
    | inl e ↦ elim (subst (In a) (keep-true p x xs e) h) [
      | inl same ↦ (inl same, subst (λ b. p b ≡ true) same e)
      | inr more ↦ let (i, q) = In-keep xs a more in (inr i, q)
    ]
    | inr e ↦ let (i, q) = In-keep xs a (subst (In a) (keep-false p x xs e) h) in (inr i, q)
  ]

  pub keep-In : (xs : List A) (a : A) → In a xs → p a ≡ true → In a (keep p xs)
  keep-In [] a h q = absurd h
  keep-In (x ∷ xs) a (inl same) q =
      rw (keep-true p x xs (subst (λ b. p b ≡ true) (sym same) q)) (inl same)
  keep-In (x ∷ xs) a (inr more) q = elim (Bool-cases (p x)) [
    | inl e ↦ rw (keep-true p x xs e) (inr (keep-In xs a more q))
    | inr e ↦ rw (keep-false p x xs e) (keep-In xs a more q)
  ]

module _ (P : Asset → Type 0) where
  pub All-In : (xs : List Asset) (a : Asset) → All P xs → In a xs → P a
  All-In [] a hs h = absurd h
  All-In (x ∷ xs) a (h, hs) (inl same) = subst P same h
  All-In (x ∷ xs) a (h, hs) (inr more) = All-In xs a hs more

  pub All-of : (xs : List Asset) → ((a : Asset) → In a xs → P a) → All P xs
  All-of [] h = tt
  All-of (x ∷ xs) h = (h x (inl refl), All-of xs (λ a i. h a (inr i)))

-- The timeline's cover is the id of a live member of those that it is chosen from.
pub select_timeline_cover-live :
    (row : StackRow) (ms : List Asset) (c : String)
    → select_timeline_cover row ms ≡ some c
    → (m : Asset) × In m ms × (is_live m ≡ true) × (m.id ≡ c)
unfolding select_timeline_cover
select_timeline_cover-live row ms c h =
    elim (resolve_effective_primary-IsCover row (keep is_live ms)) [
      | inl (e, k) ↦ absurd (ground (arith, k, h))
      | inr (m, k, cover) ↦
          let (i, live) = In-keep is_live ms m cover.0 in (m, i, live, ground (arith, k, h))
    ]

module _ (S : ShortUuid) (rows : Dict String StackRow) (live : Dict String (List Asset)) where
  pub decide-live :
      (id : String) (f : String × ℕ × ℕ)
      → decide S rows live id ≡ some f
      → (ms : List Asset) × (lookup id live ≡ some ms)
        × ((m : Asset) × In m ms × (is_live m ≡ true) × (m.id ≡ f.0))
  unfolding decide
  decide-live id f h = elim (Option-cases (lookup id rows)) [
    | inl r ↦ absurd (ground (arith, r, h))
    | inr (row, r) ↦ elim (Option-cases (lookup id live)) [
      | inl l ↦ absurd (ground (arith, r, l, h))
      | inr (ms, l) ↦ elim (Option-cases (select_timeline_cover row ms)) [
        | inl c ↦ absurd (ground (arith, r, l, c, h))
        | inr (cover, c) ↦ (
          ms,
          l,
          select_timeline_cover-live row ms f.0 (c ∙ ap some (ground (arith, r, l, c, h))),
        )
      ]
    ]
  ]

  -- All covers so far are those that were decided.
  abbrev Decided : TimelineStacks → Type 0
  Decided st =
      (id c : String)
      → lookup id st.covers ≡ some c
      → (f : String × ℕ × ℕ) × (decide S rows live id ≡ some f) × (f.0 ≡ c)

  Decided-insert :
      (id : String) (f : String × ℕ × ℕ) (st : TimelineStacks)
      → decide S rows live id ≡ some f
      → Decided st
      → Decided
          (record { covers = insert id f.0 st.covers; tuples = insert id (f.1, f.2) st.tuples })
  Decided-insert id f st k h u c j = elim (Bool-cases (id == u)) [
    | inl e ↦ (
      f,
      subst (λ v. decide S rows live v ≡ some f) ((string_eq.beq_iff id u).0 e) k,
      ground (arith, lookup-insert id u f.0 st.covers, j, e),
    )
    | inr e ↦ h u c (ground (arith, lookup-insert id u f.0 st.covers, j, e))
  ]

  pub resolve_all-Decided :
      (ids : List String) (st : TimelineStacks)
      → Decided st
      → Decided (resolve_all S rows live ids st)
  unfolding resolve_all
  resolve_all-Decided [] st h = h
  resolve_all-Decided (id ∷ ids) st h = elim (Option-cases (decide S rows live id)) [
    | inl k ↦ rw (k, resolve_all) (resolve_all-Decided ids st h)
    | inr (f, k) ↦
        rw (k, resolve_all)
          (resolve_all-Decided ids
            (record { covers = insert id f.0 st.covers; tuples = insert id (f.1, f.2) st.tuples })
            (Decided-insert id f st k h))
  ]
