-- ===== src/Checkpoint.antt =====
-- services/checkpoint_store.py: the stored form of a checkpoint, and the store of a session's
-- checkpoints over Redis. Tracing spans and log records are left out.
pub mod Format
pub mod Reads
use immich_adapter.Prelude.{
  ℕ, String, Option, none, some, List, [], ◌∷◌, ◌⧺◌, map, split_pipe, ◌==◌, string_eq,
  if◌then◌else◌, Dict, lookup, insert, Result, ok, err, checkpoint_data, value_error, and_then,
}
use immich_adapter.Outside.Formats.{Formats}
use immich_adapter.Outside.Redis.{Redis, Key, checkpoints, hset, hdel, delete}
use immich_adapter.Sync.EntityType
use immich_adapter.Sync.EntityType.{SyncEntityType}

pub record Checkpoint : Type 0 where
  pub entity_type : SyncEntityType
  pub updated_at : ℕ
  pub cursor : Option String

-- the checkpoint that `set` and `set_many` store
abbrev pub fresh : ℕ → SyncEntityType → String → Checkpoint
fresh now t cursor = record { entity_type = t; updated_at = now; cursor = some cursor }

-- `cursor or ""`
abbrev pub or_empty : Option String → String
or_empty none = ""
or_empty (some c) = c

-- `parts[1] if parts[1] else None`
abbrev pub if_filled : String → Option String
if_filled c = if c == "" then none else some c

module _ (F : Formats) where
  unfoldable pub to_redis_value : Checkpoint → String
  to_redis_value c = F.isoformat c.updated_at ⧺ "|" ⧺ or_empty c.cursor

  from_parts : SyncEntityType → List String → Result Checkpoint
  from_parts t (time ∷ cursor ∷ []) = elim (F.fromisoformat time) [
    | none ↦ err checkpoint_data
    | some at ↦ ok (record { entity_type = t; updated_at = at; cursor = if_filled cursor })
  ]
  from_parts t _ = err checkpoint_data

  unfoldable pub from_redis_value : SyncEntityType → String → Result Checkpoint
  unfolding from_parts
  from_redis_value t value = from_parts t (split_pipe value)

  -- the body of the loop of `get_all`: a corrupt value is skipped
  abbrev pub collect : Result Checkpoint → List Checkpoint → List Checkpoint
  collect (ok c) rest = c ∷ rest
  collect (err e) rest = rest

  -- A field that names no entity type raises; the guard of the loop does not cover it.
  unfoldable pub read_fields : Dict String String → Result (List Checkpoint)
  read_fields [] = ok []
  read_fields ((field, value) ∷ more) =
      let rest = read_fields more in
      elim (EntityType.of_value field) [
        | none ↦ err value_error
        | some t ↦ and_then rest (λ cs. ok (collect (from_redis_value t value) cs))
      ]

  module _ {D : Type 0} (R : Redis D) where
    abbrev pub checkpoint_key : ℕ → Key
    checkpoint_key token = checkpoints (F.uuid_text token)

    unfoldable pub get_all : ℕ → D → Result (List Checkpoint)
    unfolding read_fields
    get_all token d = read_fields (R.hgetall (checkpoint_key token) d)

    -- `hget` is the field of the hash; an empty value counts as missing, a corrupt one too.
    abbrev pub read_value : SyncEntityType → Option String → Option Checkpoint
    read_value t none = none
    read_value t (some value) =
        if value == ""
        then none
        else elim (from_redis_value t value) [ ok c ↦ some c | err e ↦ none ]

    unfoldable pub get : ℕ → SyncEntityType → D → Option Checkpoint
    get token t d = read_value t (lookup (EntityType.value t) (R.hgetall (checkpoint_key token) d))

    -- The time is the clock's at the call.
    pub set : (now : ℕ) → ℕ → SyncEntityType → String → D → D
    set now token t cursor d =
        R.run
          (hset (checkpoint_key token)
            ((EntityType.value t, to_redis_value (fresh now t cursor)) ∷ []))
          d

    stored_values :
        (now : ℕ) → Dict String String → List (SyncEntityType × String) → Dict String String
    stored_values now mapping [] = mapping
    stored_values now mapping ((t, cursor) ∷ more) =
        stored_values now
          (insert (EntityType.value t) (to_redis_value (fresh now t cursor)) mapping) more

    unfoldable pub set_many : (now : ℕ) → ℕ → List (SyncEntityType × String) → D → D
    unfolding stored_values
    set_many now token [] d = d
    set_many now token (c ∷ cs) d =
        R.run (hset (checkpoint_key token) (stored_values now [] (c ∷ cs))) d

    unfoldable pub delete_types : ℕ → List SyncEntityType → D → D
    delete_types token [] d = d
    delete_types token (t ∷ ts) d =
        R.run (hdel (checkpoint_key token) (map EntityType.value (t ∷ ts))) d

    unfoldable pub delete_all : ℕ → D → D
    delete_all token d = R.run (delete (checkpoint_key token)) d
