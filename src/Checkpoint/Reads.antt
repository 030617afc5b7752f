-- ===== src/Checkpoint/Reads.antt =====
-- services/checkpoint_store.py: what `get` answers after each write of the checkpoint store.
use immich_adapter.Prelude.{
  ℕ, String, ◌≡◌, ◌≢◌, refl, false, ◌&&◌, Option, none, some, List, [], ◌∷◌, arith, has_pipe, ◌==◌,
  string_eq, number_eq, if◌then◌else◌, map, contains, lookup, insert, lookup-insert, Dict, All,
  last_for, with_pipe_filled, beq_refl, Bool-cases, inl, inr,
}
use immich_adapter.Outside.Formats.{Formats, IsFormats, uuid_text-injective}
use immich_adapter.Outside.Redis.{Redis, IsRedis, checkpoints, hset, hdel, delete, same_key, key_eq}
use immich_adapter.Sync.EntityType
use immich_adapter.Sync.EntityType.{SyncEntityType, entity_type_eq}
use immich_adapter.Checkpoint.Format.{from_redis_value-to_redis_value}
use immich_adapter.Checkpoint.{
  fresh, to_redis_value, get, set, set_many, delete_types, delete_all, stored_values, read_value,
}

-- The key of a session's checkpoints, and the field of a type, are compared by session and type.
pub same_checkpoint_key :
    (F : Formats) (laws : IsFormats F) (a b : ℕ)
    → (checkpoints (F.uuid_text a) == checkpoints (F.uuid_text b)) ≡ (a == b)
unfolding same_key
same_checkpoint_key F laws a b = elim (Bool-cases (a == b)) [
  | inl e ↦ rw (e, (number_eq.beq_iff a b).0 e) (beq_refl (checkpoints (F.uuid_text b)))
  | inr e ↦ ground (
    arith,
    string_eq.beq_iff (F.uuid_text a) (F.uuid_text b),
    number_eq.beq_iff a b,
    uuid_text-injective laws a b,
  )
]

same_field : (t u : SyncEntityType) → (EntityType.value t == EntityType.value u) ≡ (t == u)
unfolding EntityType.same
same_field t u = refl

module _ (F : Formats) (laws : IsFormats F) {D : Type 0} (R : Redis D) (redis : IsRedis R) where
  -- Deleting all checkpoints of a session leaves none of it, and every other session's as they were.
  pub get-delete_all :
      (token other : ℕ) (t : SyncEntityType) (d : D)
      → get F R other t (delete_all F R token d)
        ≡ (if token == other then none else get F R other t d)
  unfolding get delete_all
  get-delete_all token other t d =
      rw
        (redis.fields (delete (checkpoints (F.uuid_text token))) (checkpoints (F.uuid_text other))
          (EntityType.value t) d)
        (rw (same_checkpoint_key F laws token other) (ground arith))

  stored_is_filled :
      (now : ℕ) (t : SyncEntityType) (cursor : String)
      → (to_redis_value F (fresh now t cursor) == "") ≡ false
  unfolding to_redis_value
  stored_is_filled now t cursor = with_pipe_filled (F.isoformat now) cursor

  -- What `get` makes of a stored cursor that holds no "|" and is not empty.
  read_value-stored :
      (now : ℕ) (t : SyncEntityType) (cursor : String)
      → has_pipe cursor ≡ false
      → cursor ≢ ""
      → read_value F R t (some (to_redis_value F (fresh now t cursor))) ≡ some (fresh now t cursor)
  read_value-stored now t cursor h ne = rw (stored_is_filled now t cursor) (
      rw (from_redis_value-to_redis_value F laws (fresh now t cursor), h)
        (ground (arith, string_eq.beq_iff cursor "")))

  -- Setting one checkpoint is seen by `get` for that session and type, with the time of the call,
  -- and by no other `get`; the cursor must hold no "|" and not be empty.
  pub get-set :
      (now token other : ℕ) (t u : SyncEntityType) (cursor : String) (d : D)
      → has_pipe cursor ≡ false
      → cursor ≢ ""
      → get F R other u (set F R now token t cursor d)
        ≡ (if (token == other) && (t == u) then some (fresh now t cursor) else get F R other u d)
  unfolding get set EntityType.same
  get-set now token other t u cursor d h ne =
      rw
        (redis.fields
          (hset (checkpoints (F.uuid_text token))
            ((EntityType.value t, to_redis_value F (fresh now t cursor)) ∷ []))
          (checkpoints (F.uuid_text other)) (EntityType.value u) d)
        (rw (same_checkpoint_key F laws token other) (elim (Bool-cases (t == u)) [
          | inl f ↦
              rw ((entity_type_eq.beq_iff t u).0 f)
                (ground (arith, read_value-stored now u cursor h ne, beq_refl (EntityType.value u)))
          | inr f ↦ ground arith
        ]))

  abbrev stored_or : ℕ → SyncEntityType → Option String → Option String → Option String
  stored_or now u none o = o
  stored_or now u (some c) o = some (to_redis_value F (fresh now u c))

  lookup-stored_values :
      (now : ℕ) (m : Dict String String) (cs : List (SyncEntityType × String)) (u : SyncEntityType)
      → lookup (EntityType.value u) (stored_values F R now m cs)
        ≡ stored_or now u (last_for u cs) (lookup (EntityType.value u) m)
  unfolding stored_values EntityType.same
  lookup-stored_values now m [] u = refl
  lookup-stored_values now m ((t, c) ∷ more) u =
      rw
        (lookup-stored_values now (insert (EntityType.value t) (to_redis_value F (fresh now t c)) m)
          more u)
        (rw
          (lookup-insert (EntityType.value t) (EntityType.value u)
            (to_redis_value F (fresh now t c)) m)
          (elim (Bool-cases (t == u)) [
            | inl f ↦
                rw ((entity_type_eq.beq_iff t u).0 f)
                  (ground (arith, beq_refl (EntityType.value u)))
            | inr f ↦ ground arith
          ]))

  -- What `get` makes of a field after the list was stored over it.
  read_value-stored_or :
      (now : ℕ) (u : SyncEntityType) (cs : List (SyncEntityType × String)) (o : Option String)
      → All (λ c. (has_pipe c.1 ≡ false) × (c.1 ≢ "")) cs
      → read_value F R u (stored_or now u (last_for u cs) o)
        ≡ elim (last_for u cs) [ some c ↦ some (fresh now u c) | none ↦ read_value F R u o ]
  read_value-stored_or now u [] o h = refl
  read_value-stored_or now u ((t, c) ∷ more) o (hc, hs) =
      ground (arith, read_value-stored_or now u more o hs, read_value-stored now u c hc.0 hc.1)

  -- After storing a list of checkpoints, `get` for that session finds for each type of the list the
  -- last cursor given for it, with the time of the call; all else is as before. Each cursor of the
  -- list must hold no "|" and not be empty.
  pub get-set_many :
      (now token other : ℕ) (cs : List (SyncEntityType × String)) (u : SyncEntityType) (d : D)
      → All (λ c. (has_pipe c.1 ≡ false) × (c.1 ≢ "")) cs
      → get F R other u (set_many F R now token cs d) ≡ (
          if token == other
          then elim (last_for u cs) [ some c ↦ some (fresh now u c) | none ↦ get F R other u d ]
          else get F R other u d)
  unfolding get set_many
  get-set_many now token other [] u d ok_cursors = ground arith
  get-set_many now token other (c ∷ cs) u d ok_cursors =
      rw
        (redis.fields (hset (checkpoints (F.uuid_text token)) (stored_values F R now [] (c ∷ cs)))
          (checkpoints (F.uuid_text other)) (EntityType.value u) d)
        (rw (same_checkpoint_key F laws token other) (
          ground (
            arith,
            lookup-stored_values now [] (c ∷ cs) u,
            read_value-stored_or now u (c ∷ cs)
                (lookup (EntityType.value u) (R.hgetall (checkpoints (F.uuid_text other)) d))
                ok_cursors,
          )))

  contains-map-value :
      (ts : List SyncEntityType) (u : SyncEntityType)
      → contains (EntityType.value u) (map EntityType.value ts) ≡ contains u ts
  unfolding EntityType.same
  contains-map-value [] u = refl
  contains-map-value (t ∷ ts) u = rw (contains-map-value ts u)

  -- Deleting some types of a session leaves no checkpoint of those, and every other as it was.
  pub get-delete_types :
      (token other : ℕ) (ts : List SyncEntityType) (u : SyncEntityType) (d : D)
      → get F R other u (delete_types F R token ts d)
        ≡ (if (token == other) && contains u ts then none else get F R other u d)
  unfolding get delete_types
  get-delete_types token other [] u d = ground arith
  get-delete_types token other (t ∷ ts) u d =
      rw
        (redis.fields (hdel (checkpoints (F.uuid_text token)) (map EntityType.value (t ∷ ts)))
          (checkpoints (F.uuid_text other)) (EntityType.value u) d)
        (rw (same_checkpoint_key F laws token other)
          (rw (contains-map-value (t ∷ ts) u) (ground arith)))
