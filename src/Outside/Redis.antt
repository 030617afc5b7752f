-- ===== src/Outside/Redis.antt =====
-- The commands of utils/redis_protocols.py that the two stores issue, and what Redis documents of
-- them: how a write changes one field of a hash, one member of a set, one score of a sorted set.
use immich_adapter.Prelude.{
  ℕ, String, ◌≡◌, ◌↔◌, refl, ap, ◌∙◌, Bool, true, false, not, ◌&&◌, ◌||◌, Option, none, some, List,
  [], ◌∷◌, Eq, ◌==◌, string_eq, Dict, lookup, contains, HasDistinctKeys, or_else, leb,
  if◌then◌else◌,
}

-- The keys that the stores build: `session:{token}`, `session:{token}:checkpoints`,
-- `user:{id}:sessions` and `sessions:by_updated_at`, kept apart by their form.
pub data Key : Type 0 where
  session checkpoints user_sessions : String → Key
  by_updated_at : Key

unfoldable pub same_key : Key → Key → Bool
same_key (session a) (session b) = a == b
same_key (checkpoints a) (checkpoints b) = a == b
same_key (user_sessions a) (user_sessions b) = a == b
same_key by_updated_at by_updated_at = true
same_key _ _ = false

same_key_sound : (a b : Key) → same_key a b ≡ true → a ≡ b
unfolding same_key
same_key_sound (session a) (session b) h = ap session ((string_eq.beq_iff a b).0 h)
same_key_sound (checkpoints a) (checkpoints b) h = ap checkpoints ((string_eq.beq_iff a b).0 h)
same_key_sound (user_sessions a) (user_sessions b) h =
    ap user_sessions ((string_eq.beq_iff a b).0 h)
same_key_sound by_updated_at by_updated_at h = refl
same_key_sound _ _ h = cc

same_key_self : (a : Key) → same_key a a ≡ true
unfolding same_key
same_key_self (session a) = (string_eq.beq_iff a a).1 refl
same_key_self (checkpoints a) = (string_eq.beq_iff a a).1 refl
same_key_self (user_sessions a) = (string_eq.beq_iff a a).1 refl
same_key_self by_updated_at = refl

pub same_key_iff : (a b : Key) → (same_key a b ≡ true) ↔ (a ≡ b)
same_key_iff a b = (same_key_sound a b, λ p. rw p (same_key_self b))

instance abbrev pub key_eq : Eq Key
unfolding same_key
key_eq = record { beq = same_key; beq_iff = same_key_iff }

-- The writes, alone or in a pipeline, which Redis runs in order as one transaction.
pub data Command : Type 0 where
  hset : Key → Dict String String → Command
  hdel : Key → List String → Command
  delete : Key → Command
  sadd srem : Key → String → Command
  zadd : Key → String → ℕ → Command
  zrem : Key → String → Command
  expire : Key → ℕ → Command

pub record Redis (D : Type 0) : Type 0 where
  pub hgetall : Key → D → Dict String String
  pub exists : Key → D → Bool
  pub smembers : Key → D → List String
  pub zscore : Key → String → D → Option ℕ
  pub zrangebyscore : Key → ℕ → D → List String
  pub run : Command → D → D

-- what a write makes of field `f` of the hash at `k`
abbrev pub field_after : Command → Key → String → Option String → Option String
field_after (hset j m) k f o = if j == k then or_else (lookup f m) o else o
field_after (hdel j fs) k f o = if (j == k) && contains f fs then none else o
field_after (delete j) k f o = if j == k then none else o
field_after (sadd j t) k f o = o
field_after (srem j t) k f o = o
field_after (zadd j t s) k f o = o
field_after (zrem j t) k f o = o
field_after (expire j n) k f o = o

-- what a write makes of the membership of `t` in the set at `k`
abbrev pub member_after : Command → Key → String → Bool → Bool
member_after (sadd j t') k t b = (j == k) && (t' == t) || b
member_after (srem j t') k t b = if (j == k) && (t' == t) then false else b
member_after (delete j) k t b = if j == k then false else b
member_after (hset j m) k t b = b
member_after (hdel j fs) k t b = b
member_after (zadd j t' s) k t b = b
member_after (zrem j t') k t b = b
member_after (expire j n) k t b = b

-- what a write makes of the score of `t` in the sorted set at `k`
abbrev pub score_after : Command → Key → String → Option ℕ → Option ℕ
score_after (zadd j t' s) k t o = if (j == k) && (t' == t) then some s else o
score_after (zrem j t') k t o = if (j == k) && (t' == t) then none else o
score_after (delete j) k t o = if j == k then none else o
score_after (hset j m) k t o = o
score_after (hdel j fs) k t o = o
score_after (sadd j t') k t o = o
score_after (srem j t') k t o = o
score_after (expire j n) k t o = o

abbrev pub at_most : ℕ → Option ℕ → Bool
at_most max none = false
at_most max (some s) = leb s max

abbrev pub is_nil {ℓ} : {A : Type ℓ} → List A → Bool
is_nil [] = true
is_nil (x ∷ xs) = false

pub record IsRedis {D : Type 0} (R : Redis D) : Type 0 where
  pub fields :
      (c : Command) (k : Key) (f : String) (d : D)
      → lookup f (R.hgetall k (R.run c d)) ≡ field_after c k f (lookup f (R.hgetall k d))
  pub distinct : (k : Key) (d : D) → HasDistinctKeys (R.hgetall k d)
  pub existence : (k : Key) (d : D) → R.exists k d ≡ not (is_nil (R.hgetall k d))
  pub members :
      (c : Command) (k : Key) (t : String) (d : D)
      → contains t (R.smembers k (R.run c d)) ≡ member_after c k t (contains t (R.smembers k d))
  pub scores :
      (c : Command) (k : Key) (t : String) (d : D)
      → R.zscore k t (R.run c d) ≡ score_after c k t (R.zscore k t d)
  pub range :
      (k : Key) (max : ℕ) (t : String) (d : D)
      → contains t (R.zrangebyscore k max d) ≡ at_most max (R.zscore k t d)

module _ {D : Type 0} (R : Redis D) where
  -- `pipe.execute()`
  abbrev pub execute : List Command → D → D
  execute [] d = d
  execute (c ∷ cs) d = execute cs (R.run c d)

-- what a pipeline makes of a field, a membership and a score
abbrev pub field_through : List Command → Key → String → Option String → Option String
field_through [] k f o = o
field_through (c ∷ cs) k f o = field_through cs k f (field_after c k f o)

abbrev pub member_through : List Command → Key → String → Bool → Bool
member_through [] k t b = b
member_through (c ∷ cs) k t b = member_through cs k t (member_after c k t b)

abbrev pub score_through : List Command → Key → String → Option ℕ → Option ℕ
score_through [] k t o = o
score_through (c ∷ cs) k t o = score_through cs k t (score_after c k t o)

module _ {D : Type 0} (R : Redis D) (redis : IsRedis R) where
  pub execute-fields :
      (cs : List Command) (k : Key) (f : String) (d : D)
      → lookup f (R.hgetall k (execute R cs d)) ≡ field_through cs k f (lookup f (R.hgetall k d))
  execute-fields [] k f d = refl
  execute-fields (c ∷ cs) k f d =
      execute-fields cs k f (R.run c d) ∙ ap (λ o. field_through cs k f o) (redis.fields c k f d)

  pub execute-members :
      (cs : List Command) (k : Key) (t : String) (d : D)
      → contains t (R.smembers k (execute R cs d))
        ≡ member_through cs k t (contains t (R.smembers k d))
  execute-members [] k t d = refl
  execute-members (c ∷ cs) k t d =
      execute-members cs k t (R.run c d) ∙ ap (λ b. member_through cs k t b) (redis.members c k t d)

  pub execute-scores :
      (cs : List Command) (k : Key) (t : String) (d : D)
      → R.zscore k t (execute R cs d) ≡ score_through cs k t (R.zscore k t d)
  execute-scores [] k t d = refl
  execute-scores (c ∷ cs) k t d =
      execute-scores cs k t (R.run c d) ∙ ap (λ o. score_through cs k t o) (redis.scores c k t d)
