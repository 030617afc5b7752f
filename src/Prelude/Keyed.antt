-- ===== src/Prelude/Keyed.antt =====
-- Types with a Boolean equality, and Python dictionaries and sets over them. A dictionary keeps the
-- order in which its keys were first inserted; a set is held as a list that is asked for members.
use mathlib.Core.Path.{◌≡◌, refl}
use mathlib.Core.Logic.{◌↔◌, inl, inr}
use mathlib.Core.Bool.{Bool, true, false, ◌||◌}
use mathlib.Core.Option.{Option, none, some}
use mathlib.Core.List.{List, [], ◌∷◌}
use native.Mathlib.Omega.{arith}
use Prim.Native.Nat.{ℕ}
use Prim.Native.String.{String}
use text.Mathlib.Text.{◌==◌ as str_eq}
use text.Mathlib.TextEquality.{eq_iff}
use immich_adapter.Prelude.Tests.{if◌then◌else◌, nat_eq, Bool-cases}

pub nat_eq_iff : (a b : ℕ) → (nat_eq a b ≡ true) ↔ (a ≡ b)
nat_eq_iff a b = (λ h. ground arith, λ h. ground arith)

-- `==` as Python has it for the types that are compared
pub record Eq {ℓ} (A : Type ℓ) : Type ℓ where
  pub beq : A → A → Bool
  pub beq_iff : (a b : A) → (beq a b ≡ true) ↔ (a ≡ b)

instance abbrev pub number_eq : Eq ℕ
number_eq = record { beq = nat_eq; beq_iff = nat_eq_iff }

instance abbrev pub string_eq : Eq String
string_eq = record { beq = str_eq; beq_iff = eq_iff }

infix 50 ◌==◌
abbrev pub ◌==◌ {ℓ} : {A : Type ℓ} ⦃e : Eq A⦄ → A → A → Bool
◌==◌ ⦃e⦄ = e.beq

module _ {ℓ} {A : Type ℓ} ⦃e : Eq A⦄ where
  pub beq_refl : (a : A) → (a == a) ≡ true
  beq_refl a = (e.beq_iff a a).1 refl

  pub beq_sym : (a b : A) → (a == b) ≡ (b == a)
  beq_sym a b = ground (arith, e.beq_iff a b, e.beq_iff b a)

  -- `a in xs`
  abbrev pub contains : A → List A → Bool
  contains a [] = false
  contains a (x ∷ xs) = x == a || contains a xs

  -- `dict.fromkeys`: the first occurrence of each, in order
  abbrev pub without : A → List A → List A
  without a [] = []
  without a (x ∷ xs) = let rest = without a xs in elim (x == a) [ true ↦ rest | false ↦ x ∷ rest ]

abbrev pub Dict {ℓ κ} : Type ℓ → Type κ → Type (ℓ ⊔ κ)
Dict K V = List (K × V)

module _ {ℓ κ} {K : Type ℓ} {V : Type κ} ⦃e : Eq K⦄ where
  abbrev pub lookup : K → Dict K V → Option V
  lookup k [] = none
  lookup k ((j, v) ∷ m) = let rest = lookup k m in elim (j == k) [ true ↦ some v | false ↦ rest ]

  -- `d[k] = v`
  abbrev pub insert : K → V → Dict K V → Dict K V
  insert k v [] = (k, v) ∷ []
  insert k v ((j, w) ∷ m) =
      let rest = insert k v m in elim (j == k) [ true ↦ (j, v) ∷ m | false ↦ (j, w) ∷ rest ]

  -- `d.update(pairs)`
  abbrev pub update : Dict K V → Dict K V → Dict K V
  update m [] = m
  update m ((k, v) ∷ more) = update (insert k v m) more

  pub lookup-insert :
      (k j : K) (v : V) (m : Dict K V)
      → lookup j (insert k v m) ≡ (if k == j then some v else lookup j m)
  lookup-insert k j v [] = ground arith
  lookup-insert k j v ((i, w) ∷ m) =
      ground (arith, e.beq_iff k j, e.beq_iff i k, e.beq_iff i j, lookup-insert k j v m)

  -- what `d.pop(k)` leaves
  abbrev pub removed : K → Dict K V → Dict K V
  removed k [] = []
  removed k ((j, v) ∷ m) =
      let rest = removed k m in elim (j == k) [ true ↦ rest | false ↦ (j, v) ∷ rest ]

  pub lookup-removed :
      (k j : K) (m : Dict K V) → lookup j (removed k m) ≡ (if k == j then none else lookup j m)
  lookup-removed k j [] = ground arith
  lookup-removed k j ((i, w) ∷ m) =
      ground (arith, e.beq_iff k j, e.beq_iff i k, e.beq_iff i j, lookup-removed k j m)

  -- The keys of a dictionary are among those of a list.
  abbrev pub KeysIn : List K → Dict K V → Type 0
  KeysIn ks [] = Unit
  KeysIn ks ((j, v) ∷ m) = (contains j ks ≡ true) × KeysIn ks m

  pub KeysIn-removed :
      (k : K) (ks : List K) (m : Dict K V) → KeysIn (k ∷ ks) m → KeysIn ks (removed k m)
  KeysIn-removed k ks [] h = tt
  KeysIn-removed k ks ((j, v) ∷ m) (h, hs) = elim (Bool-cases (j == k)) [
    | inl same ↦ rw (same, removed) (KeysIn-removed k ks m hs)
    | inr other ↦ rw (other, removed) (ground (arith, beq_sym j k), KeysIn-removed k ks m hs)
  ]

  pub KeysIn-insert :
      (ks : List K) (k : K) (v : V) (m : Dict K V)
      → contains k ks ≡ true
      → KeysIn ks m
      → KeysIn ks (insert k v m)
  KeysIn-insert ks k v [] h hs = (h, tt)
  KeysIn-insert ks k v ((j, w) ∷ m) h (g, hs) = elim (Bool-cases (j == k)) [
    | inl same ↦ rw (same, insert) (g, hs)
    | inr other ↦ rw (other, insert) (g, KeysIn-insert ks k v m h hs)
  ]
