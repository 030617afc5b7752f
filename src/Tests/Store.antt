-- ===== src/Tests/Store.antt =====
-- A store in memory that behaves as Redis does.
use immich_adapter.Prelude.{
  ℕ, String, ◌≡◌, refl, ap, sym, ◌∙◌, false, not, none, List, [], ◌∷◌, arith, ◌==◌, string_eq,
  if◌then◌else◌, Dict, lookup, insert, removed, lookup-insert, lookup-removed, HasDistinctKeys,
  HasDistinctKeys-insert, or_else, contains, without, leb,
}
use immich_adapter.Outside.Redis.{
  Key, key_eq, Command, hset, hdel, delete, sadd, srem, zadd, zrem, expire, Redis, IsRedis, is_nil,
  at_most, field_after, member_after, score_after,
}

pub record Memory : Type 0 where
  pub hashes : Key → Dict String String
  pub sets : Key → List String
  pub scores : Key → Dict String ℕ

abbrev put_fields : Dict String String → Dict String String → Dict String String
put_fields old [] = old
put_fields old ((f, v) ∷ m) = insert f v (put_fields old m)

abbrev drop_fields : Dict String String → List String → Dict String String
drop_fields old [] = old
drop_fields old (f ∷ fs) = removed f (drop_fields old fs)

abbrev distinct_fields : Dict String String → Dict String String
distinct_fields [] = []
distinct_fields ((f, v) ∷ m) = insert f v (distinct_fields m)

abbrev in_range : ℕ → Dict String ℕ → List String
in_range max [] = []
in_range max ((t, s) ∷ m) =
    let rest = without t (in_range max m) in if leb s max then t ∷ rest else rest

-- a function changed at one key
abbrev at {ℓ} : {A : Type ℓ} → Key → (A → A) → (Key → A) → Key → A
at j f old k = if j == k then f (old k) else old k

abbrev run : Command → Memory → Memory
run (hset j m) d = record d { hashes = at j (λ old. put_fields old m) d.hashes }
run (hdel j fs) d = record d { hashes = at j (λ old. drop_fields old fs) d.hashes }
run (delete j) d = record {
  hashes = at j (λ old. []) d.hashes;
  sets = at j (λ old. []) d.sets;
  scores = at j (λ old. []) d.scores;
}
run (sadd j t) d = record d { sets = at j (λ old. t ∷ old) d.sets }
run (srem j t) d = record d { sets = at j (λ old. without t old) d.sets }
run (zadd j t s) d = record d { scores = at j (λ old. insert t s old) d.scores }
run (zrem j t) d = record d { scores = at j (λ old. removed t old) d.scores }
run (expire j n) d = d

abbrev pub memory : Redis Memory
memory = record {
  hgetall = λ k d. distinct_fields (d.hashes k);
  exists = λ k d. not (is_nil (distinct_fields (d.hashes k)));
  smembers = λ k d. d.sets k;
  zscore = λ k t d. lookup t (d.scores k);
  zrangebyscore = λ k max d. in_range max (d.scores k);
  run = run;
}

abbrev pub empty_memory : Memory
empty_memory = record { hashes = λ k. []; sets = λ k. []; scores = λ k. [] }

lookup-put_fields :
    (f : String) (old m : Dict String String)
    → lookup f (put_fields old m) ≡ or_else (lookup f m) (lookup f old)
lookup-put_fields f old [] = refl
lookup-put_fields f old ((g, v) ∷ m) =
    lookup-insert g f v (put_fields old m) ∙ rw (lookup-put_fields f old m) (ground arith)

lookup-drop_fields :
    (f : String) (old : Dict String String) (fs : List String)
    → lookup f (drop_fields old fs) ≡ (if contains f fs then none else lookup f old)
lookup-drop_fields f old [] = refl
lookup-drop_fields f old (g ∷ fs) =
    lookup-removed g f (drop_fields old fs) ∙ rw (lookup-drop_fields f old fs) (ground arith)

lookup-distinct_fields :
    (f : String) (m : Dict String String) → lookup f (distinct_fields m) ≡ lookup f m
lookup-distinct_fields f [] = refl
lookup-distinct_fields f ((g, v) ∷ m) =
    lookup-insert g f v (distinct_fields m) ∙ rw (lookup-distinct_fields f m) (ground arith)

distinct_fields-distinct : (m : Dict String String) → HasDistinctKeys (distinct_fields m)
distinct_fields-distinct [] = tt
distinct_fields-distinct ((f, v) ∷ m) =
    HasDistinctKeys-insert f v (distinct_fields m) (distinct_fields-distinct m)

contains-without :
    (t u : String) (xs : List String)
    → contains u (without t xs) ≡ (if t == u then false else contains u xs)
contains-without t u [] = ground arith
contains-without t u (x ∷ xs) = ground (
  arith,
  contains-without t u xs,
  string_eq.beq_iff t u,
  string_eq.beq_iff x t,
  string_eq.beq_iff x u,
)

contains-in_range :
    (max : ℕ) (t : String) (m : Dict String ℕ)
    → contains t (in_range max m) ≡ at_most max (lookup t m)
contains-in_range max t [] = refl
contains-in_range max t ((u, s) ∷ m) =
    ground (arith, contains-in_range max t m, contains-without u t (in_range max m))

raw_fields :
    (c : Command) (k : Key) (f : String) (d : Memory)
    → lookup f ((run c d).hashes k) ≡ field_after c k f (lookup f (d.hashes k))
raw_fields (hset j m) k f d = ground (arith, lookup-put_fields f (d.hashes k) m)
raw_fields (hdel j fs) k f d = ground (arith, lookup-drop_fields f (d.hashes k) fs)
raw_fields (delete j) k f d = ground arith
raw_fields (sadd j t) k f d = refl
raw_fields (srem j t) k f d = refl
raw_fields (zadd j t s) k f d = refl
raw_fields (zrem j t) k f d = refl
raw_fields (expire j n) k f d = refl

members_law :
    (c : Command) (k : Key) (t : String) (d : Memory)
    → contains t ((run c d).sets k) ≡ member_after c k t (contains t (d.sets k))
members_law (hset j m) k t d = refl
members_law (hdel j fs) k t d = refl
members_law (delete j) k t d = ground arith
members_law (sadd j u) k t d = ground arith
members_law (srem j u) k t d = ground (arith, contains-without u t (d.sets k))
members_law (zadd j u s) k t d = refl
members_law (zrem j u) k t d = refl
members_law (expire j n) k t d = refl

scores_law :
    (c : Command) (k : Key) (t : String) (d : Memory)
    → lookup t ((run c d).scores k) ≡ score_after c k t (lookup t (d.scores k))
scores_law (hset j m) k t d = refl
scores_law (hdel j fs) k t d = refl
scores_law (delete j) k t d = ground arith
scores_law (sadd j u) k t d = refl
scores_law (srem j u) k t d = refl
scores_law (zadd j u s) k t d = ground (arith, lookup-insert u t s (d.scores k))
scores_law (zrem j u) k t d = ground (arith, lookup-removed u t (d.scores k))
scores_law (expire j n) k t d = refl

pub memory-IsRedis : IsRedis memory
memory-IsRedis = record {
  fields = λ c k f d.
      lookup-distinct_fields f ((run c d).hashes k)
      ∙ raw_fields c k f d
      ∙ ap (λ o. field_after c k f o) (sym (lookup-distinct_fields f (d.hashes k)));
  distinct = λ k d. distinct_fields-distinct (d.hashes k);
  existence = λ k d. refl;
  members = members_law;
  scores = scores_law;
  range = λ k max t d. contains-in_range max t (d.scores k);
}
