-- ===== src/Stacks/Routes/Admitted.antt =====
-- routers/api/stacks.py: the stacks that an unfiltered search hydrates.
use immich_adapter.Prelude.{
  ℕ, suc, ◌+◌, ◌≤◌, ◌<◌, ◌≡◌, refl, ap, ◌⊎◌, inl, inr, Option, none, some, List, [], ◌∷◌, ◌++◌, leb,
  length, Bool-cases, arith,
}
use immich_adapter.Stacks.{StackRow}
use immich_adapter.Stacks.Routes.{Truncated, admit, stack_cap, member_budget}

abbrev pub members_of_rows : List StackRow → ℕ
members_of_rows [] = 0
members_of_rows (row ∷ rows) = row.asset_count + members_of_rows rows

-- the members of all rows but the last
abbrev pub members_before_last : List StackRow → ℕ
members_before_last [] = 0
members_before_last (row ∷ []) = 0
members_before_last (row ∷ next ∷ rows) = row.asset_count + members_before_last (next ∷ rows)

-- The rows that are left out are not none.
abbrev pub LeavesOut : List StackRow → Type 0
LeavesOut rest = (row : StackRow) × (rows : List StackRow) × (rest ≡ row ∷ rows)

-- How an admission that has `count` rows and `members` members so far goes on
abbrev Goes : ℕ → ℕ → List StackRow → List StackRow × Option Truncated → Type 0
Goes count members rows (admitted, cut) =
    (count + length admitted ≤ 500)
    × ((admitted ≡ []) ⊎ (members + members_before_last admitted < 5000))
    × ((rest : List StackRow) × (admitted ++ rest ≡ rows)
        × (((cut ≡ none) × (rest ≡ []))
            ⊎ (LeavesOut rest
                × (((cut ≡ some stack_cap) × (count + length admitted ≡ 500))
                    ⊎ ((cut ≡ some member_budget) × (5000 ≤ members + members_of_rows admitted))))))

members_before_last-cons :
    (row : StackRow) (rows : List StackRow) (m : ℕ)
    → m < 5000
    → (rows ≡ []) ⊎ ((m + row.asset_count) + members_before_last rows < 5000)
    → m + members_before_last (row ∷ rows) < 5000
members_before_last-cons row [] m h k = omega (arith, h)
members_before_last-cons row (x ∷ xs) m h (inl e) = cc
members_before_last-cons row (x ∷ xs) m h (inr k) = omega (arith, k)

few :
    (rows : List StackRow)
    → (rows ≡ []) ⊎ (0 + members_before_last rows < 5000)
    → members_before_last rows < 5000
few rows (inl e) = rw e (omega arith)
few rows (inr k) = omega (arith, k)

Goes-cons :
    (count members : ℕ) (row : StackRow) (rows : List StackRow)
    (more : List StackRow × Option Truncated)
    → members < 5000
    → Goes (suc count) (members + row.asset_count) rows more
    → Goes count members (row ∷ rows) (row ∷ more.0, more.1)
Goes-cons count members row rows (adm, cut) small (l, b, rest) =
    let (cut_off, whole, why) = rest in
    (
      omega (arith, l),
      inr (members_before_last-cons row adm members small b),
      (
        cut_off,
        ap (λ r. row ∷ r) whole,
        elim why [
          | inl all ↦ inl all
          | inr (out, inl (c, e)) ↦ inr (out, inl (c, omega (arith, e)))
          | inr (out, inr (c, e)) ↦ inr (out, inr (c, omega (arith, e)))
        ],
      ),
    )

admit-Goes :
    (count members : ℕ) (rows : List StackRow)
    → count ≤ 500
    → Goes count members rows (admit count members rows)
unfolding admit
admit-Goes count members [] h = (omega (arith, h), inl refl, ([], refl, inl (refl, refl)))
admit-Goes count members (row ∷ rows) h = elim (Bool-cases (leb 500 count)) [
  | inl capped ↦
      rw (capped, admit)
        (
          omega (arith, h),
          inl refl,
          (row ∷ rows, refl, inr ((row, rows, refl), inl (refl, ground (arith, h, capped)))),
        )
  | inr below ↦ elim (Bool-cases (leb 5000 members)) [
    | inl spent ↦
        rw (below, spent, admit)
          (
            omega (arith, h),
            inl refl,
            (row ∷ rows, refl, inr ((row, rows, refl), inr (refl, ground (arith, spent)))),
          )
    | inr left ↦
        rw (below, left, admit)
          (Goes-cons count members row rows (admit (suc count) (members + row.asset_count) rows)
            (ground (arith, left))
            (admit-Goes (suc count) (members + row.asset_count) rows (ground (arith, below))))
  ]
]

-- A search admits the first rows of the walk: at most 500, and of those before the last fewer than 5000
-- members together. Either it admits all rows and reports no cut, or it leaves out at least one row and
-- reports the cap, with 500 rows admitted, or the budget, with 5000 members or more admitted.
pub admit-bounds :
    (rows : List StackRow)
    → (length (admit 0 0 rows).0 ≤ 500)
      × (members_before_last (admit 0 0 rows).0 < 5000)
      × ((rest : List StackRow) × ((admit 0 0 rows).0 ++ rest ≡ rows)
          × ((((admit 0 0 rows).1 ≡ none) × (rest ≡ []))
              ⊎ (LeavesOut rest
                  × ((((admit 0 0 rows).1 ≡ some stack_cap) × (length (admit 0 0 rows).0 ≡ 500))
                      ⊎ (((admit 0 0 rows).1 ≡ some member_budget)
                          × (5000 ≤ members_of_rows (admit 0 0 rows).0))))))
admit-bounds rows =
    let (l, b, rest) = admit-Goes 0 0 rows (omega arith) in
    let (left, whole, why) = rest in
    (
      omega (arith, l),
      few (admit 0 0 rows).0 b,
      (
        left,
        whole,
        elim why [
          | inl all ↦ inl all
          | inr (out, inl (c, e)) ↦ inr (out, inl (c, omega (arith, e)))
          | inr (out, inr (c, e)) ↦ inr (out, inr (c, omega (arith, e)))
        ],
      ),
    )
