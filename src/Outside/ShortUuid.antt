-- ===== src/Outside/ShortUuid.antt =====
-- The package shortuuid, which writes a UUID in an alphabet of letters and digits.
use immich_adapter.Prelude.{ℕ, String, ◌≡◌, true, false, Option, none, some, has_underscore}

-- `decode` is `none` where the package raises ValueError.
pub record ShortUuid : Type 0 where
  pub encode : ℕ → String
  pub decode : String → Option ℕ

pub record IsShortUuid (S : ShortUuid) : Type 0 where
  pub decode-encode : (u : ℕ) → S.decode (S.encode u) ≡ some u
  pub encoded : (u : ℕ) → has_underscore (S.encode u) ≡ false
  pub outside_alphabet : (s : String) → has_underscore s ≡ true → S.decode s ≡ none
