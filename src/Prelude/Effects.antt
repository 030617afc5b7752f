-- ===== src/Prelude/Effects.antt =====
-- Exceptions as values, and methods that change state and may raise: what was changed before a
-- raise stays changed, so the state comes back beside the error too.
use mathlib.Core.Path.{◌≡◌, refl}
use mathlib.Core.Logic.{◌⊎◌, inl, inr}
use mathlib.Core.Bool.{Bool, true, false}
use immich_adapter.Prelude.Tests.{if◌then◌else◌}
use Prim.Native.Nat.{ℕ}

-- The exceptions that the modelled code raises or catches. `status n` is an `APIStatusError` of the
-- Gumnut SDK with that HTTP status, `transport` any other `GumnutError`; `fuel` is raised by no code:
-- a loop of the model ends with it where its fuel is used up.
pub data Error : Type 0 where
  value_error checkpoint_data session_data session_store session_expired : Error
  jwt_encryption missing_key transport timeout attribute_error key_error overflow_error fuel : Error
  http : ℕ → Error
  status : ℕ → Error

pub data Result {ℓ} (A : Type ℓ) : Type ℓ where
  ok : A → Result A
  err : Error → Result A

-- sequencing of results, as a function so that `do` stays free for state
abbrev pub and_then {ℓ κ} : {A : Type ℓ} {B : Type κ} → Result A → (A → Result B) → Result B
and_then (ok a) f = f a
and_then (err e) f = err e

abbrev pub map_ok {ℓ κ} : {A : Type ℓ} {B : Type κ} → (A → B) → Result A → Result B
map_ok f (ok a) = ok (f a)
map_ok f (err e) = err e

abbrev pub Exec : Type 0 → Type 0 → Type 0
Exec S A = S → Result A × S

module _ {S A : Type 0} where
  abbrev pub pure : A → Exec S A
  pure a s = (ok a, s)

  abbrev pub raise : Error → Exec S A
  raise e s = (err e, s)

  abbrev pub lift : Result A → Exec S A
  lift r s = (r, s)

  abbrev pub gets : (S → A) → Exec S A
  gets f s = (ok (f s), s)

abbrev pub modify : {S : Type 0} → (S → S) → Exec S (Unit {0})
modify f s = (ok tt, f s)

module _ {S A B : Type 0} where
  abbrev pub resume : Result A → (A → Exec S B) → Exec S B
  resume (ok a) f s = f a s
  resume (err e) f s = (err e, s)

  infixl 5 ◌>>=◌ ◌>>◌
  abbrev pub ◌>>=◌ : Exec S A → (A → Exec S B) → Exec S B
  ◌>>=◌ m f s = resume (m s).0 f (m s).1

  abbrev pub ◌>>◌ : Exec S A → Exec S B → Exec S B
  m >> n = m >>= λ _. n

-- A property of the state that the rest of an action keeps from each result, it keeps after a result
-- that is an exception too.
pub resume_keeps :
    {S A B : Type 0} (P : S → Type 0) (r : Result A) (f : A → Exec S B)
    → ((a : A) → r ≡ ok a → (s : S) → P s → P (f a s).1)
    → (s : S) → P s
    → P (resume r f s).1
resume_keeps P (ok a) f keep s h = keep a refl s h
resume_keeps P (err e) f keep s h = h

pub map_ok-eq-ok {ℓ κ} :
    {A : Type ℓ} {B : Type κ} (f : A → B) (r : Result A) {b : B}
    → map_ok f r ≡ ok b
    → (a : A) × (r ≡ ok a) × (f a ≡ b)
map_ok-eq-ok f (ok a) h = (a, refl, cc)
map_ok-eq-ok f (err e) h = cc

pub Result-cases {ℓ} :
    {A : Type ℓ} (r : Result A) → ((a : A) × (r ≡ ok a)) ⊎ ((e : Error) × (r ≡ err e))
Result-cases (ok a) = inl (a, refl)
Result-cases (err e) = inr (e, refl)

pub ok-inj {ℓ} : {A : Type ℓ} {a b : A} → ok a ≡ ok b → a ≡ b
ok-inj h = cc

-- A result raises only exceptions with a property.
module _ (P : Error → Type 0) where
  abbrev pub Raises {ℓ} : {A : Type ℓ} → Result A → Type 0
  Raises (ok a) = Unit
  Raises (err e) = P e

  pub Raises-and_then {ℓ κ} :
      {A : Type ℓ} {B : Type κ} (r : Result A) (f : A → Result B)
      → Raises r
      → ((a : A) → Raises (f a))
      → Raises (and_then r f)
  Raises-and_then (ok a) f h k = k a
  Raises-and_then (err e) f h k = h

  pub Raises-map_ok {ℓ κ} :
      {A : Type ℓ} {B : Type κ} (f : A → B) (r : Result A) → Raises r → Raises (map_ok f r)
  Raises-map_ok f (ok a) h = tt
  Raises-map_ok f (err e) h = h

  pub Raises-resume :
      {S A B : Type 0} (r : Result A) (f : A → Exec S B) (s : S)
      → Raises r
      → ((a : A) → r ≡ ok a → Raises (f a s).0)
      → Raises (resume r f s).0
  Raises-resume (ok a) f s h k = k a refl
  Raises-resume (err e) f s h k = h

  pub Raises-if {ℓ} :
      {A : Type ℓ} (b : Bool) (x y : Result A) → Raises x → Raises y → Raises (if b then x else y)
  Raises-if true x y h k = h
  Raises-if false x y h k = k

pub resume-eq-ok :
    {S A B : Type 0} (r : Result A) (f : A → Exec S B) (s : S) {b : B}
    → (resume r f s).0 ≡ ok b
    → (a : A) × (r ≡ ok a) × (resume r f s ≡ f a s)
resume-eq-ok (ok a) f s h = (a, refl, refl)
resume-eq-ok (err e) f s h = cc
