-- ===== src/Jwt.antt =====
-- utils/jwt_encryption.py over the package cryptography. The key of the settings, and the Fernet made
-- of it, is an argument; the cache of one Fernet is left out.
use immich_adapter.Prelude.{
  String, ◌≡◌, Option, none, some, Result, ok, err, jwt_encryption, missing_key, arith,
}

-- a Fernet with one key; `none` is an exception of the package
pub record Fernet : Type 0 where
  pub encrypt : String → Option String
  pub decrypt : String → Option String

pub record IsFernet (F : Fernet) : Type 0 where
  pub decrypt-encrypt : (s t : String) → F.encrypt s ≡ some t → F.decrypt t ≡ some s

or_raise : Option String → Result String
or_raise none = err jwt_encryption
or_raise (some t) = ok t

unfoldable pub encrypt_jwt : Option Fernet → String → Result String
unfolding or_raise
encrypt_jwt none jwt = err missing_key
encrypt_jwt (some f) jwt = or_raise (f.encrypt jwt)

unfoldable pub decrypt_jwt : Option Fernet → String → Result String
unfolding or_raise
decrypt_jwt none encrypted = err missing_key
decrypt_jwt (some f) encrypted = or_raise (f.decrypt encrypted)

-- What was encrypted is decrypted to itself under the same key.
pub decrypt_jwt-encrypt_jwt :
    (f : Fernet)
    → IsFernet f
    → (jwt encrypted : String) → encrypt_jwt (some f) jwt ≡ ok encrypted
    → decrypt_jwt (some f) encrypted ≡ ok jwt
unfolding encrypt_jwt decrypt_jwt
decrypt_jwt-encrypt_jwt f laws jwt encrypted h = ground (arith, laws.decrypt-encrypt jwt encrypted)
