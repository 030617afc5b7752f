-- ===== src/Stacks/Timeline/Grouped.antt =====
-- routers/utils/stack_conversion.py: the bucket's members by stack.
use immich_adapter.Prelude.{
  ◌≡◌, refl, String, Bool, true, some, List, [], ◌∷◌, ◌++◌, if◌then◌else◌, ◌==◌, string_eq, Dict,
  insert, lookup-insert, All, All-append, Bool-cases, Option-cases, inl, inr, arith, subst,
}
use immich_adapter.Stacks.{Asset, is_live, sort_in, sorted}
use immich_adapter.Stacks.Cover.{In}
use immich_adapter.Stacks.Timeline.{
  members_of, grouped, sort_members, is_earlier, bucket_members_by_stack,
}

-- A live frame of a stack that the bucket holds
abbrev pub IsFrameOf : List Asset → String → Asset → Type 0
IsFrameOf assets id m = In m assets × (m.stack_id ≡ some id) × (is_live m ≡ true)

module _ {A : Type 0} (P : A → Type 0) (le : A → A → Bool) where
  All-sort_in : (x : A) (xs : List A) → P x → All P xs → All P (sort_in le x xs)
  All-sort_in x [] h hs = (h, tt)
  All-sort_in x (y ∷ ys) h (k, ks) = elim (Bool-cases (le x y)) [
    | inl e ↦ rw e (h, (k, ks))
    | inr e ↦ rw e (k, All-sort_in x ys h ks)
  ]

  pub All-sorted : (xs : List A) → All P xs → All P (sorted le xs)
  All-sorted [] h = tt
  All-sorted (x ∷ xs) (h, hs) = All-sort_in x (sorted le xs) h (All-sorted xs hs)

-- All groups hold just frames of their stack.
abbrev GroupsOf : List Asset → Dict String (List Asset) → Type 0
GroupsOf assets groups = (id : String) → All (IsFrameOf assets id) (members_of id groups)

members_of-insert :
    (id u : String) (ms : List Asset) (groups : Dict String (List Asset))
    → members_of u (insert id ms groups) ≡ (if id == u then ms else members_of u groups)
members_of-insert id u ms groups = ground (arith, lookup-insert id u ms groups)

members_of-sort :
    (u : String) (groups : Dict String (List Asset))
    → members_of u (sort_members groups) ≡ sorted is_earlier (members_of u groups)
members_of-sort u [] = refl
members_of-sort u ((id, ms) ∷ groups) = ground (arith, members_of-sort u groups)

module _ (assets : List Asset) where
  GroupsOf-add :
      (a : Asset) (id : String) (groups : Dict String (List Asset))
      → IsFrameOf assets id a
      → GroupsOf assets groups
      → GroupsOf assets (insert id (members_of id groups ++ a ∷ []) groups)
  GroupsOf-add a id groups f h u = elim (Bool-cases (id == u)) [
    | inl e ↦
        rw (members_of-insert id u (members_of id groups ++ a ∷ []) groups, e)
          (subst (λ v. All (IsFrameOf assets v) (members_of id groups ++ a ∷ []))
            ((string_eq.beq_iff id u).0 e)
            (All-append (IsFrameOf assets id) (members_of id groups) (a ∷ []) (h id) (f, tt)))
    | inr e ↦ rw (members_of-insert id u (members_of id groups ++ a ∷ []) groups, e) (h u)
  ]

  grouped-GroupsOf :
      (rest : List Asset) (groups : Dict String (List Asset))
      → ((a : Asset) → In a rest → In a assets)
      → GroupsOf assets groups
      → GroupsOf assets (grouped rest groups)
  unfolding grouped
  grouped-GroupsOf [] groups within h = h
  grouped-GroupsOf (a ∷ rest) groups within h = elim (Option-cases a.stack_id) [
    | inl k ↦ rw k (grouped-GroupsOf rest groups (λ b i. within b (inr i)) h)
    | inr (id, k) ↦ rw k (elim (Bool-cases (is_live a)) [
      | inl live ↦ rw live (
          grouped-GroupsOf rest (insert id (members_of id groups ++ a ∷ []) groups)
            (λ b i. within b (inr i)) (GroupsOf-add a id groups (within a (inl refl), k, live) h))
      | inr dead ↦ rw dead (grouped-GroupsOf rest groups (λ b i. within b (inr i)) h)
    ])
  ]

  -- The members that a bucket gives for a stack are live frames of the stack, from the bucket.
  pub bucket_members-frames :
      (id : String) → All (IsFrameOf assets id) (members_of id (bucket_members_by_stack assets))
  unfolding bucket_members_by_stack
  bucket_members-frames id = rw (members_of-sort id (grouped assets [])) (
      All-sorted (IsFrameOf assets id) is_earlier (members_of id (grouped assets []))
        (grouped-GroupsOf assets [] (λ a i. i) (λ u. tt) id))
