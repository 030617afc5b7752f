-- ===== src/Prelude/Updates.antt =====
-- Dictionaries whose keys are all different, and a run of updates of one.
use mathlib.Core.Path.{◌≡◌, refl}
use mathlib.Core.Logic.{inl, inr}
use mathlib.Core.Option.{Option, none, some}
use mathlib.Core.List.{[], ◌∷◌}
use native.Mathlib.Omega.{arith}
use immich_adapter.Prelude.Tests.{if◌then◌else◌, Bool-cases}
use immich_adapter.Prelude.Keyed.{Eq, ◌==◌, Dict, lookup, insert, update, lookup-insert, beq_sym}

abbrev pub or_else {ℓ} : {A : Type ℓ} → Option A → Option A → Option A
or_else none o = o
or_else (some v) o = some v

pub or_else-none {ℓ} : {A : Type ℓ} (o : Option A) → or_else o none ≡ o
or_else-none none = refl
or_else-none (some a) = refl

module _ {ℓ κ} {K : Type ℓ} {V : Type κ} ⦃e : Eq K⦄ where
  -- No key of the dictionary comes twice.
  abbrev pub HasDistinctKeys : Dict K V → Type κ
  HasDistinctKeys [] = Unit
  HasDistinctKeys ((k, v) ∷ m) = (lookup k m ≡ none) × HasDistinctKeys m

  pub HasDistinctKeys-insert :
      (k : K) (v : V) (m : Dict K V) → HasDistinctKeys m → HasDistinctKeys (insert k v m)
  HasDistinctKeys-insert k v [] h = (refl, tt)
  HasDistinctKeys-insert k v ((j, w) ∷ m) (h, hs) = elim (Bool-cases (j == k)) [
    | inl same ↦ rw (same, insert) (h, hs)
    | inr other ↦
        rw (other, insert)
          (ground (arith, lookup-insert k j v m, beq_sym j k), HasDistinctKeys-insert k v m hs)
  ]

  -- the value that a list of pairs gives for a key: its last pair wins
  abbrev pub last_for : K → Dict K V → Option V
  last_for u [] = none
  last_for u ((k, v) ∷ more) = elim (last_for u more) [
    | some x ↦ some x
    | none ↦ if k == u then some v else none
  ]

  pub last_for-distinct : (u : K) (m : Dict K V) → HasDistinctKeys m → last_for u m ≡ lookup u m
  last_for-distinct u [] h = refl
  last_for-distinct u ((k, v) ∷ m) (h, hs) = ground (arith, last_for-distinct u m hs, e.beq_iff k u)

  pub lookup-update :
      (u : K) (m pairs : Dict K V)
      → lookup u (update m pairs) ≡ or_else (last_for u pairs) (lookup u m)
  lookup-update u m [] = refl
  lookup-update u m ((k, v) ∷ more) =
      rw (lookup-update u (insert k v m) more, lookup-insert k u v m) (ground arith)

  pub HasDistinctKeys-update :
      (m pairs : Dict K V) → HasDistinctKeys m → HasDistinctKeys (update m pairs)
  HasDistinctKeys-update m [] h = h
  HasDistinctKeys-update m ((k, v) ∷ more) h =
      HasDistinctKeys-update (insert k v m) more (HasDistinctKeys-insert k v m h)
