-- ===== src/Prelude/Texts.antt =====
-- Python text operations that the adapter uses, on native strings by their characters.
use Prim.Native.Char.{Char, code}
use Prim.Native.String
use Prim.Native.String.{String}
use mathlib.Core.Path.{◌≡◌, refl}
use mathlib.Core.Bool.{Bool, true, false, ◌&&◌, ◌||◌}
use mathlib.Core.Option.{Option, none, some}
use mathlib.Core.List.{List, [], ◌∷◌}
use native.Mathlib.Omega.{arith}
use text.Mathlib.Text.{◌==◌}
use text.Mathlib.TextEquality.{eq_iff}
use text.Mathlib.TextLemmas.{nil-append, cons-append, cons≢nil, append_assoc}
use mathlib.Core.Logic.{inl, inr}
use immich_adapter.Prelude.Tests.{Bool-cases, if◌then◌else◌, nat_eq, leb}

infixr 65 ◌⧺◌
-- concatenation of texts
abbrev pub ◌⧺◌ : String → String → String
s ⧺ t = String.◌++◌ s t

pub text_append_assoc : (a b c : String) → (a ⧺ b) ⧺ c ≡ a ⧺ b ⧺ c
text_append_assoc = append_assoc

abbrev pub is_pipe : Char → Bool
is_pipe c = nat_eq (code c) b'|'

-- `"|" in s`
unfoldable pub has_pipe : String → Bool
has_pipe String.[] = false
has_pipe (String.◌∷◌ c s) = is_pipe c || has_pipe s

push_first : Char → List String → List String
push_first c [] = String.◌∷◌ c "" ∷ []
push_first c (p ∷ ps) = String.◌∷◌ c p ∷ ps

-- `s.split("|")`
unfoldable pub split_pipe : String → List String
unfolding push_first
split_pipe String.[] = "" ∷ []
split_pipe (String.◌∷◌ c s) =
    let rest = split_pipe s in elim (is_pipe c) [ true ↦ "" ∷ rest | false ↦ push_first c rest ]

pub split_pipe_field :
    (p s : String) → has_pipe p ≡ false → split_pipe (p ⧺ "|" ⧺ s) ≡ p ∷ split_pipe s
unfolding split_pipe has_pipe
split_pipe_field String.[] s h = rw nil-append (rw cons-append (rw nil-append))
split_pipe_field (String.◌∷◌ c p) s h = rw cons-append (ground (arith, split_pipe_field p s))

-- A text with no "|" is one field.
pub split_pipe_whole : (p : String) → has_pipe p ≡ false → split_pipe p ≡ p ∷ []
unfolding split_pipe has_pipe
split_pipe_whole String.[] h = refl
split_pipe_whole (String.◌∷◌ c p) h = ground (arith, split_pipe_whole p)

-- the characters that `str.strip` removes
is_space : Char → Bool
is_space c =
    let n = code c in
    (leb 9 n && leb n 13)
    || (leb 28 n && leb n 32)
    || nat_eq n 133
    || nat_eq n 160
    || nat_eq n 5760
    || (leb 8192 n && leb n 8202)
    || nat_eq n 8232
    || nat_eq n 8233
    || nat_eq n 8239
    || nat_eq n 8287
    || nat_eq n 12288

strip_left : String → String
strip_left String.[] = ""
strip_left (String.◌∷◌ c s) = let rest = strip_left s in if is_space c then rest else String.◌∷◌ c s

is_empty : String → Bool
is_empty String.[] = true
is_empty (String.◌∷◌ c s) = false

strip_right : String → String
strip_right String.[] = ""
strip_right (String.◌∷◌ c s) =
    let rest = strip_right s in if is_space c && is_empty rest then "" else String.◌∷◌ c rest

-- `s.strip()`
unfoldable pub strip : String → String
unfolding strip_left strip_right is_space is_empty
strip s = strip_right (strip_left s)

strip_test : strip " \t a b\n" ≡ "a b"
unfolding strip
strip_test = refl

split_pipe_test : split_pipe "AssetV1|c7|" ≡ "AssetV1" ∷ "c7" ∷ "" ∷ []
unfolding split_pipe
split_pipe_test = refl

pub split_pipe_cons : (p : String) → (a : String) × (rest : List String) × (split_pipe p ≡ a ∷ rest)
unfolding split_pipe
split_pipe_cons String.[] = ("", [], refl)
split_pipe_cons (String.◌∷◌ c p) =
    let (a, rest, q) = split_pipe_cons p in
    elim (Bool-cases (is_pipe c)) [
      | inl e ↦ ("", split_pipe p, ground arith)
      | inr e ↦ (String.◌∷◌ c a, rest, ground arith)
    ]

-- A text with a "|" has at least two fields.
pub split_pipe_more :
    (p : String)
    → has_pipe p ≡ true
    → (a b : String) × (rest : List String) × (split_pipe p ≡ a ∷ b ∷ rest)
unfolding split_pipe has_pipe
split_pipe_more String.[] h = cc
split_pipe_more (String.◌∷◌ c p) h = elim (Bool-cases (is_pipe c)) [
  | inl e ↦ let (a, rest, q) = split_pipe_cons p in ("", a, rest, ground arith)
  | inr e ↦
      let (a, b, rest, q) = split_pipe_more p (ground arith) in
      (String.◌∷◌ c a, b, rest, ground arith)
]

cons_filled : (x : Char) (s : String) → (String.◌∷◌ x s == "") ≡ false
cons_filled x s = elim (Bool-cases (String.◌∷◌ x s == "")) [
  | inl e ↦ absurd (cons≢nil ((eq_iff _ _).0 e))
  | inr e ↦ e
]

pub with_pipe_filled : (a c : String) → ((a ⧺ "|" ⧺ c) == "") ≡ false
with_pipe_filled String.[] c = rw (nil-append ("|" ⧺ c)) (rw (cons-append _ "" c) (cons_filled _ _))
with_pipe_filled (String.◌∷◌ x a) c = rw cons-append (cons_filled _ _)

-- `"_" in s`
unfoldable pub has_underscore : String → Bool
has_underscore String.[] = false
has_underscore (String.◌∷◌ c s) = nat_eq (code c) b'_' || has_underscore s

-- `s[len(p):]` where `s.startswith(p)`, else `none`
unfoldable pub after_prefix : String → String → Option String
after_prefix String.[] s = some s
after_prefix (String.◌∷◌ c p) String.[] = none
after_prefix (String.◌∷◌ c p) (String.◌∷◌ d s) =
    let rest = after_prefix p s in if nat_eq (code c) (code d) then rest else none

-- `after_prefix p (q ⧺ s)`, by the characters of `p` and `q` alone as far as these go
unfoldable pub after_prefix_of_append : String → String → String → Option String
after_prefix_of_append String.[] q s = some (q ⧺ s)
after_prefix_of_append (String.◌∷◌ c p) String.[] s = after_prefix (String.◌∷◌ c p) s
after_prefix_of_append (String.◌∷◌ c p) (String.◌∷◌ d q) s =
    let rest = after_prefix_of_append p q s in if nat_eq (code c) (code d) then rest else none

pub after_prefix-append : (p q s : String) → after_prefix p (q ⧺ s) ≡ after_prefix_of_append p q s
unfolding after_prefix after_prefix_of_append
after_prefix-append String.[] q s = refl
after_prefix-append (String.◌∷◌ c p) String.[] s = rw nil-append
after_prefix-append (String.◌∷◌ c p) (String.◌∷◌ d q) s =
    rw cons-append (rw (after_prefix-append p q s))

pub after_prefix_self : (p s : String) → after_prefix p (p ⧺ s) ≡ some s
unfolding after_prefix
after_prefix_self String.[] s = rw nil-append
after_prefix_self (String.◌∷◌ c p) s = rw cons-append (ground (arith, after_prefix_self p s))

pub has_underscore-append : (p s : String) → has_underscore p ≡ true → has_underscore (p ⧺ s) ≡ true
unfolding has_underscore
has_underscore-append String.[] s h = cc
has_underscore-append (String.◌∷◌ c p) s h =
    rw cons-append (ground (arith, has_underscore-append p s))

-- A text that goes on behind a prefix with an underscore has one.
pub has_underscore_of_prefix :
    (p s rest : String)
    → after_prefix p s ≡ some rest
    → has_underscore p ≡ true
    → has_underscore s ≡ true
unfolding after_prefix has_underscore
has_underscore_of_prefix String.[] s rest h u = cc
has_underscore_of_prefix (String.◌∷◌ c p) String.[] rest h u = cc
has_underscore_of_prefix (String.◌∷◌ c p) (String.◌∷◌ d s) rest h u =
    ground (arith, has_underscore_of_prefix p s rest)
