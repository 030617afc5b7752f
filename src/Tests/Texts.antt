-- ===== src/Tests/Texts.antt =====
-- Times, UUIDs and short UUIDs whose texts are runs of the digit 1.
use Prim.Native.Char.{code}
use immich_adapter.Prelude.{
  ℕ, zero, suc, String, ◌≡◌, refl, true, false, Option, none, some, arith, has_pipe, has_underscore,
  nat_eq, if◌then◌else◌,
}
use immich_adapter.Outside.Formats.{Formats, IsFormats}
use immich_adapter.Outside.ShortUuid.{ShortUuid, IsShortUuid}
use immich_adapter.Jwt.{Fernet, IsFernet}

unfoldable pub ones : ℕ → String
ones zero = ""
ones (suc n) = String.◌∷◌ "1" (ones n)

abbrev one_more : Option ℕ → Option ℕ
one_more none = none
one_more (some n) = some (suc n)

unfoldable pub count : String → Option ℕ
count String.[] = some 0
count (String.◌∷◌ c s) = let rest = count s in if nat_eq (code c) b'1' then one_more rest else none

count-ones : (n : ℕ) → count (ones n) ≡ some n
unfolding count ones
count-ones zero = refl
count-ones (suc n) = rw (count-ones n) refl

ones_no_pipe : (n : ℕ) → has_pipe (ones n) ≡ false
unfolding has_pipe ones
ones_no_pipe zero = refl
ones_no_pipe (suc n) = ones_no_pipe n

ones_no_underscore : (n : ℕ) → has_underscore (ones n) ≡ false
unfolding has_underscore ones
ones_no_underscore zero = refl
ones_no_underscore (suc n) = ones_no_underscore n

count_outside : (s : String) → has_underscore s ≡ true → count s ≡ none
unfolding has_underscore count
count_outside String.[] h = cc
count_outside (String.◌∷◌ c s) h = ground (arith, count_outside s)

abbrev pub formats : Formats
formats = record { isoformat = ones; fromisoformat = count; uuid_text = ones; uuid_of = count }

pub formats-IsFormats : IsFormats formats
formats-IsFormats = record {
  read_time = count-ones;
  time_no_pipe = ones_no_pipe;
  read_uuid = count-ones;
}

abbrev pub short : ShortUuid
short = record { encode = ones; decode = count }

pub short-IsShortUuid : IsShortUuid short
short-IsShortUuid = record {
  decode-encode = count-ones;
  encoded = ones_no_underscore;
  outside_alphabet = count_outside;
}

-- a key that leaves texts as they are
abbrev pub clear : Fernet
clear = record { encrypt = some; decrypt = some }

pub clear-IsFernet : IsFernet clear
clear-IsFernet = record { decrypt-encrypt = λ s t h. cc }
