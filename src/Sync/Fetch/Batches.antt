-- ===== src/Sync/Fetch/Batches.antt =====
-- routers/api/sync/entity_fetch.py: the chunks in which ids are fetched.
use immich_adapter.Prelude.{
  ℕ, zero, suc, ◌+◌, ◌/◌, ◌-◌, ◌≤◌, ◌<◌, String, ◌≡◌, refl, ap, ◌∙◌, false, not, ◌&&◌, List, [],
  ◌∷◌, ◌++◌, arith, ◌==◌, string_eq, contains, take, drop, length, All, Bool-cases, inl, inr,
}
use immich_adapter.Sync.Fetch.{slices, batched, unique_from, unique}

-- the items of all chunks
abbrev pub concat {ℓ} : {A : Type ℓ} → List (List A) → List A
concat [] = []
concat (xs ∷ xss) = xs ++ concat xss

module _ {ℓ} {A : Type ℓ} where
  pub take-append-drop : (n : ℕ) (xs : List A) → take n xs ++ drop n xs ≡ xs
  take-append-drop zero xs = refl
  take-append-drop (suc n) [] = refl
  take-append-drop (suc n) (x ∷ xs) = ap (λ r. x ∷ r) (take-append-drop n xs)

  pub length-take_le : (n : ℕ) (xs : List A) → length (take n xs) ≤ n
  length-take_le zero xs = omega arith
  length-take_le (suc n) [] = omega arith
  length-take_le (suc n) (x ∷ xs) = omega (arith, length-take_le n xs)

  length-drop : (n : ℕ) (xs : List A) → length (drop n xs) ≡ length xs - n
  length-drop zero xs = omega arith
  length-drop (suc n) [] = omega arith
  length-drop (suc n) (x ∷ xs) = omega (arith, length-drop n xs)

  -- With fuel for its length and a size above 0, the slices make up the list.
  slices-concat :
      (fuel size : ℕ) (xs : List A) → length xs ≤ fuel → concat (slices fuel (suc size) xs) ≡ xs
  unfolding slices
  slices-concat zero size [] h = refl
  slices-concat zero size (x ∷ xs) h = absurd (omega (arith, h))
  slices-concat (suc fuel) size [] h = refl
  slices-concat (suc fuel) size (x ∷ xs) h =
      rw (slices-concat fuel size (drop size xs) (omega (arith, h, length-drop size xs)))
        (ap (λ r. x ∷ r) (take-append-drop size xs))

  slices-short :
      (fuel size : ℕ) (xs : List A)
      → All (λ c. (0 < length c) × (length c ≤ suc size)) (slices fuel (suc size) xs)
  unfolding slices
  slices-short zero size xs = tt
  slices-short (suc fuel) size [] = tt
  slices-short (suc fuel) size (x ∷ xs) =
      ((omega arith, omega (arith, length-take_le size xs)), slices-short fuel size (drop size xs))

  -- Split at a size above 0, a list is its chunks one after the other, and each chunk has between one
  -- item and that size.
  pub batched-concat :
      (items : List A) (size : ℕ)
      → (concat (batched items (suc size)) ≡ items)
        × All (λ c. (0 < length c) × (length c ≤ suc size)) (batched items (suc size))
  unfolding batched
  batched-concat items size = (
    slices-concat (length items) size items (omega arith),
    slices-short (length items) size items,
  )

  -- the number of chunks of 200
  length-slices :
      (fuel : ℕ) (xs : List A)
      → length xs ≤ fuel
      → length (slices fuel 200 xs) ≡ (length xs + 199) / 200
  unfolding slices
  length-slices zero [] h = omega arith
  length-slices zero (x ∷ xs) h = absurd (omega (arith, h))
  length-slices (suc fuel) [] h = omega arith
  length-slices (suc fuel) (x ∷ xs) h = omega (
    arith,
    length-slices fuel (drop 199 xs) (omega (arith, h, length-drop 199 xs)),
    length-drop 199 xs,
  )

  pub length-batched : (xs : List A) → length (batched xs 200) ≡ (length xs + 199) / 200
  unfolding batched
  length-batched xs = length-slices (length xs) xs (omega arith)

-- No member comes twice.
abbrev pub HasNoDuplicates : List String → Type 0
HasNoDuplicates [] = Unit
HasNoDuplicates (x ∷ xs) = (contains x xs ≡ false) × HasNoDuplicates xs

contains-unique_from :
    (seen ids : List String) (x : String)
    → contains x (unique_from seen ids) ≡ (contains x ids && not (contains x seen))
unfolding unique_from
contains-unique_from seen [] x = refl
contains-unique_from seen (y ∷ ys) x = elim (Bool-cases (y == x)) [
  | inl e ↦
      let same = (string_eq.beq_iff y x).0 e in
      elim (Bool-cases (contains y seen)) [
        | inl s ↦ rw s (contains-unique_from (y ∷ seen) ys x ∙ rw (e, ← same, s) (ground arith))
        | inr s ↦ rw (s, e, ← same, s) (ground arith)
      ]
  | inr e ↦ elim (Bool-cases (contains y seen)) [
    | inl s ↦ rw s (contains-unique_from (y ∷ seen) ys x ∙ rw e (ground arith))
    | inr s ↦ rw (s, e) (contains-unique_from (y ∷ seen) ys x ∙ rw e (ground arith))
  ]
]

unique_from-distinct : (seen ids : List String) → HasNoDuplicates (unique_from seen ids)
unfolding unique_from
unique_from-distinct seen [] = tt
unique_from-distinct seen (y ∷ ys) = elim (Bool-cases (contains y seen)) [
  | inl s ↦ rw s (unique_from-distinct (y ∷ seen) ys)
  | inr s ↦ rw s (
    contains-unique_from (y ∷ seen) ys y ∙ ground (arith, string_eq.beq_iff y y),
    unique_from-distinct (y ∷ seen) ys,
  )
]

-- Removing repeated ids keeps just the ids that were there, and leaves none twice.
pub unique-members :
    (ids : List String)
    → ((x : String) → contains x (unique ids) ≡ contains x ids) × HasNoDuplicates (unique ids)
unfolding unique
unique-members ids =
    ((λ x. contains-unique_from [] ids x ∙ ground arith), unique_from-distinct [] ids)
