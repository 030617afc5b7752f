-- ===== src/Ids.antt =====
-- routers/utils/gumnut_id_conversion.py: Gumnut's prefixed short ids and Immich's UUIDs.
pub mod Kinds
pub mod Raises
use immich_adapter.Prelude.{ℕ, String, ◌⧺◌, after_prefix, none, some, Result, ok, err, value_error}
use immich_adapter.Outside.ShortUuid.{ShortUuid}

-- the kinds of the convenience functions, and the prefix that each passes
pub data Kind : Type 0 where
  album asset stack person face user : Kind

pub prefix : Kind → String
prefix album = "album"
prefix asset = "asset"
prefix stack = "asset_stack"
prefix person = "person"
prefix face = "face"
prefix user = "intuser"

module _ (S : ShortUuid) where
  pub safe_uuid_from_gumnut_id : String → String → Result ℕ
  safe_uuid_from_gumnut_id gumnut_id prefix = elim (after_prefix (prefix ⧺ "_") gumnut_id) [
    | none ↦ err value_error
    | some short ↦ elim (S.decode short) [ none ↦ err value_error | some u ↦ ok u ]
  ]

  pub uuid_to_gumnut_id : ℕ → String → String
  uuid_to_gumnut_id u prefix = (prefix ⧺ "_") ⧺ S.encode u

  -- `safe_uuid_from_album_id` and its siblings
  unfoldable pub safe_uuid_from : Kind → String → Result ℕ
  unfolding safe_uuid_from_gumnut_id prefix
  safe_uuid_from kind gumnut_id = safe_uuid_from_gumnut_id gumnut_id (prefix kind)

  -- `uuid_to_gumnut_album_id` and its siblings
  unfoldable pub uuid_to : Kind → ℕ → String
  unfolding uuid_to_gumnut_id prefix
  uuid_to kind u = uuid_to_gumnut_id u (prefix kind)
