-- ===== src/Stacks/Cover.antt =====
-- routers/utils/stack_conversion.py: the cover of a stack, and the order of its response.
use immich_adapter.Prelude.{
  ℕ, ◌≡◌, refl, sym, ◌∙◌, ap, Bool, true, false, not, ◌⊎◌, none, some, List, [], ◌∷◌, ◌++◌, find,
  keep, any, ◌==◌, string_eq, number_eq, Bool-cases, Option-cases, inl, inr, arith, find_sound, ok,
  ok-inj, Result-cases,
}
use immich_adapter.Outside.ShortUuid.{ShortUuid}
use immich_adapter.Ids.{asset, safe_uuid_from}
use immich_adapter.Stacks.{
  HydratedStack, StackResponse, all_ok, build_stack_response, Asset, StackRow, is_live, pinned,
  resolve_effective_primary, sorted, sort_in, primary_first,
}

abbrev pub In : {A : Type 0} → A → List A → Type 0
In a [] = ⊥
In a (x ∷ xs) = (x ≡ a) ⊎ In a xs

module _ {A : Type 0} (p : A → Bool) where
  pub find-In : (xs : List A) (a : A) → find p xs ≡ some a → In a xs
  find-In [] a h = cc
  find-In (x ∷ xs) a h = ground (arith, find-In xs a)

  pub keep-true : (x : A) (xs : List A) → p x ≡ true → keep p (x ∷ xs) ≡ x ∷ keep p xs
  keep-true x xs h = ground arith

  pub keep-false : (x : A) (xs : List A) → p x ≡ false → keep p (x ∷ xs) ≡ keep p xs
  keep-false x xs h = ground arith

  any-find : (xs : List A) → any p xs ≡ true → (a : A) × (find p xs ≡ some a)
  any-find [] h = cc
  any-find (x ∷ xs) h = elim (Bool-cases (p x)) [
    | inl e ↦ (x, ground arith)
    | inr e ↦ let (a, k) = any-find xs (ground arith) in (a, ground arith)
  ]

  any-none : (xs : List A) → any p xs ≡ false → find p xs ≡ none
  any-none [] h = refl
  any-none (x ∷ xs) h = ground (arith, any-none xs)

-- whether the pinned cover is among the members
abbrev pub has_pin : StackRow → List Asset → Bool
has_pin row members = elim row.primary_asset_id [
  | none ↦ false
  | some id ↦ any (λ m. m.id == id) members
]

-- What is the cover: a member; the pinned one, where it is among the members; else a live one, where
-- there is one.
abbrev pub IsCover : StackRow → List Asset → Asset → Type 0
IsCover row members m =
    In m members
    × (((has_pin row members ≡ true) × (row.primary_asset_id ≡ some m.id))
        ⊎ ((has_pin row members ≡ false) × ((is_live m ≡ true) ⊎ (any is_live members ≡ false))))

pinned-cases :
    (row : StackRow) (ms : List Asset)
    → ((has_pin row ms ≡ false) × (pinned row ms ≡ none))
      ⊎ ((m : Asset) × (has_pin row ms ≡ true)
          × (pinned row ms ≡ some m)
          × In m ms
          × (row.primary_asset_id ≡ some m.id))
pinned-cases row ms = elim (Option-cases row.primary_asset_id) [
  | inl k ↦ inl (ground arith, ground arith)
  | inr (id, k) ↦ elim (Bool-cases (any (λ m. m.id == id) ms)) [
    | inr e ↦ inl (rw k e, rw k (any-none (λ m. m.id == id) ms e))
    | inl e ↦
        let (m, f) = any-find (λ m. m.id == id) ms e in
        inr (
          m,
          rw k e,
          rw k f,
          find-In (λ m. m.id == id) ms m f,
          k ∙ ap some (sym ((string_eq.beq_iff m.id id).0 (find_sound (λ m. m.id == id) ms m f))),
        )
  ]
]

-- A stack without members has no cover, and any other one has: the pinned member where it is there,
-- else a live one where there is one, else a member.
pub resolve_effective_primary-IsCover :
    (row : StackRow) (members : List Asset)
    → ((members ≡ []) × (resolve_effective_primary row members ≡ none))
      ⊎ ((m : Asset) × (resolve_effective_primary row members ≡ some m) × IsCover row members m)
unfolding resolve_effective_primary
resolve_effective_primary-IsCover row [] = inl (refl, refl)
resolve_effective_primary-IsCover row (x ∷ xs) = elim (pinned-cases row (x ∷ xs)) [
  | inr (m, has, p, i, e) ↦ inr (m, simp p, (i, inl (has, e)))
  | inl (lacks, p) ↦ elim (Bool-cases (any is_live (x ∷ xs))) [
    | inl live ↦
        let (m, f) = any-find is_live (x ∷ xs) live in
        inr (
          m,
          simp (p, f),
          (find-In is_live (x ∷ xs) m f, inr (lacks, inl (find_sound is_live (x ∷ xs) m f))),
        )
    | inr dead ↦
        inr (x, simp (p, any-none is_live (x ∷ xs) dead), (inl refl, inr (lacks, inr dead)))
  ]
]

module _ (primary : ℕ) where
  abbrev pub is_primary : ℕ → Bool
  is_primary a = a == primary

  abbrev pub is_other : ℕ → Bool
  is_other a = not (a == primary)

  sort_in-first :
      (a : ℕ) (xs : List ℕ) → (a == primary) ≡ true → sort_in (primary_first primary) a xs ≡ a ∷ xs
  sort_in-first a [] h = refl
  sort_in-first a (x ∷ xs) h = rw h refl

  sort_in-others :
      (a : ℕ) (xs : List ℕ)
      → (a == primary) ≡ false
      → sort_in (primary_first primary) a (keep is_other xs) ≡ a ∷ keep is_other xs
  sort_in-others a [] h = refl
  sort_in-others a (x ∷ xs) h = elim (Bool-cases (x == primary)) [
    | inl e ↦ rw (keep-false is_other x xs (ap not e)) (sort_in-others a xs h)
    | inr e ↦ rw (keep-true is_other x xs (ap not e), h, e) refl
  ]

  sort_in-past :
      (a : ℕ) (xs ys : List ℕ)
      → (a == primary) ≡ false
      → sort_in (primary_first primary) a (keep is_primary xs ++ ys)
        ≡ keep is_primary xs ++ sort_in (primary_first primary) a ys
  sort_in-past a [] ys h = refl
  sort_in-past a (x ∷ xs) ys h = elim (Bool-cases (x == primary)) [
    | inl e ↦ rw (keep-true is_primary x xs e, h, e) (ap (λ r. x ∷ r) (sort_in-past a xs ys h))
    | inr e ↦ rw (keep-false is_primary x xs e) (sort_in-past a xs ys h)
  ]

  sort_in-primary :
      (a : ℕ) (xs : List ℕ)
      → sort_in (primary_first primary) a (keep is_primary xs ++ keep is_other xs)
        ≡ keep is_primary (a ∷ xs) ++ keep is_other (a ∷ xs)
  sort_in-primary a xs = elim (Bool-cases (a == primary)) [
    | inl e ↦
        rw (keep-true is_primary a xs e, keep-false is_other a xs (ap not e))
          (sort_in-first a (keep is_primary xs ++ keep is_other xs) e)
    | inr e ↦
        rw (keep-false is_primary a xs e, keep-true is_other a xs (ap not e))
          (sort_in-past a xs (keep is_other xs) e
            ∙ ap (λ r. keep is_primary xs ++ r) (sort_in-others a xs e))
  ]

  -- The response's assets are the primary, where it is among them, and then the others in their order.
  pub sorted-primary_first :
      (xs : List ℕ) → sorted (primary_first primary) xs ≡ keep is_primary xs ++ keep is_other xs
  sorted-primary_first [] = refl
  sorted-primary_first (x ∷ xs) = rw (sorted-primary_first xs) (sort_in-primary x xs)

-- A stack's response has the ids of its live members, each once, the primary's first where it is among
-- them, and the others after it in the order of the members.
pub build_stack_response-assets :
    (S : ShortUuid) (h : HydratedStack) (r : StackResponse)
    → build_stack_response S h ≡ ok r
    → (ids : List ℕ) × (all_ok (λ m. safe_uuid_from S asset m.id) (keep is_live h.members) ≡ ok ids)
      × (r.assets
          ≡ keep (is_primary h.primary_asset_id) ids ++ keep (is_other h.primary_asset_id) ids)
      × (r.primary_asset_id ≡ h.primary_asset_id)
unfolding build_stack_response
build_stack_response-assets S h r e =
    elim (Result-cases (all_ok (λ m. safe_uuid_from S asset m.id) (keep is_live h.members))) [
      | inr (x, k) ↦ absurd (ground (arith, k, e))
      | inl (ids, k) ↦ (
        ids,
        k,
        ap (λ (x : StackResponse). x.assets) (sym (ok-inj (rw (k, build_stack_response) at e)))
            ∙ sorted-primary_first h.primary_asset_id ids,
        ap (λ (x : StackResponse). x.primary_asset_id)
            (sym (ok-inj (rw (k, build_stack_response) at e))),
      )
    ]
