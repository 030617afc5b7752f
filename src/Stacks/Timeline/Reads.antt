-- ===== src/Stacks/Timeline/Reads.antt =====
-- routers/utils/stack_conversion.py: the member reads of a timeline's month, and the members that the
-- covers are chosen from.
use immich_adapter.Prelude.{
  ◌≡◌, refl, String, ◌⊎◌, some, List, [], ◌∷◌, map, ◌==◌, string_eq, Dict, lookup, insert,
  lookup-insert, Bool-cases, and_then, map_ok, ok-inj, inl, inr, arith, subst, Result, ok, err,
}
use immich_adapter.Stacks.{Asset, StackClient, gather}
use immich_adapter.Stacks.Timeline.{members_of, put_complete, put_fetched, live_members_or_error}

first_ok :
    {A : Type 0} (r : Result A) (rs : Result (List A)) (all : List A)
    → and_then r (λ a. map_ok (λ more. a ∷ more) rs) ≡ ok all
    → (a : A) × ((more : List A) × ((r ≡ ok a) × (rs ≡ ok more)) × (a ∷ more ≡ all))
first_ok (ok a) (ok more) all h = (a, (more, (refl, refl), ok-inj h))
first_ok (ok a) (err e) all h = cc
first_ok (err e) rs all h = cc

module _ {W : Type 0} (client : StackClient W) where
  -- What a member read has answered for a stack
  abbrev pub IsRead : String → List Asset → Type 0
  IsRead id ms = (w : W) × ((client.fetch_live_stack_members id w).0 ≡ ok ms)

  abbrev AllRead : List String → List (Result (List Asset)) → Type 0
  AllRead [] fetched = Unit
  AllRead (id ∷ ids) [] = Unit
  AllRead (id ∷ ids) (ok ms ∷ fetched) = IsRead id ms × AllRead ids fetched
  AllRead (id ∷ ids) (err e ∷ fetched) = AllRead ids fetched

  AllRead-cons :
      (id : String) (ids : List String) (r : Result (List Asset)) (rs : List (Result (List Asset)))
      → ((ms : List Asset) → r ≡ ok ms → IsRead id ms)
      → AllRead ids rs
      → AllRead (id ∷ ids) (r ∷ rs)
  AllRead-cons id ids (ok ms) rs h k = (h ms refl, k)
  AllRead-cons id ids (err e) rs h k = k

  live_members_or_error-IsRead :
      (id : String) (w : W) (r : Result (List Asset)) (ms : List Asset)
      → (live_members_or_error client id w).0 ≡ ok r
      → r ≡ ok ms
      → IsRead id ms
  unfolding live_members_or_error
  live_members_or_error-IsRead id w r ms h k = (w, ground arith)

  -- The answers stand in the order of the reads.
  pub gather-AllRead :
      (ids : List String) (w : W) (rs : List (Result (List Asset)))
      → (gather (map (live_members_or_error client) ids) w).0 ≡ ok rs
      → AllRead ids rs
  unfolding gather
  gather-AllRead [] w rs h = tt
  gather-AllRead (id ∷ ids) w rs h =
      let (r, k) =
        first_ok (live_members_or_error client id w).0
          (gather (map (live_members_or_error client) ids) (live_members_or_error client id w).1).0
          rs h in
      let (more, j, e) = k in
      subst (AllRead (id ∷ ids)) e (
        AllRead-cons id ids r more (λ ms. live_members_or_error-IsRead id w r ms j.0)
          (gather-AllRead ids (live_members_or_error client id w).1 more j.1))

  -- The members of a stack that the covers are chosen from are the bucket's or the answer of a read.
  abbrev pub IsKnown : Dict String (List Asset) → String → List Asset → Type 0
  IsKnown groups id ms = (ms ≡ members_of id groups) ⊎ IsRead id ms

  abbrev AllKnown : Dict String (List Asset) → Dict String (List Asset) → Type 0
  AllKnown groups live =
      (id : String) (ms : List Asset) → lookup id live ≡ some ms → IsKnown groups id ms

  module _ (groups : Dict String (List Asset)) where
    AllKnown-insert :
        (id : String) (ms : List Asset) (live : Dict String (List Asset))
        → IsKnown groups id ms
        → AllKnown groups live
        → AllKnown groups (insert id ms live)
    AllKnown-insert id ms live k h u ns j = elim (Bool-cases (id == u)) [
      | inl e ↦
          subst (λ v. IsKnown groups v ns) ((string_eq.beq_iff id u).0 e)
            (subst (IsKnown groups id) (ground (arith, lookup-insert id u ms live)) k)
      | inr e ↦ h u ns (ground (arith, lookup-insert id u ms live))
    ]

    pub put_complete-AllKnown :
        (ids : List String) (live : Dict String (List Asset))
        → AllKnown groups live
        → AllKnown groups (put_complete groups ids live)
    put_complete-AllKnown [] live h = h
    put_complete-AllKnown (id ∷ ids) live h =
        put_complete-AllKnown ids (insert id (members_of id groups) live)
          (AllKnown-insert id (members_of id groups) live (inl refl) h)

    pub put_fetched-AllKnown :
        (ids : List String) (fetched : List (Result (List Asset))) (live : Dict String (List Asset))
        → AllRead ids fetched
        → AllKnown groups live
        → AllKnown groups (put_fetched ids fetched live)
    put_fetched-AllKnown [] fetched live r h = h
    put_fetched-AllKnown (id ∷ ids) [] live r h = h
    put_fetched-AllKnown (id ∷ ids) (ok ms ∷ fetched) live (r, rs) h =
        put_fetched-AllKnown ids fetched (insert id ms live) rs
          (AllKnown-insert id ms live (inr r) h)
    put_fetched-AllKnown (id ∷ ids) (err e ∷ fetched) live r h =
        put_fetched-AllKnown ids fetched live r h
