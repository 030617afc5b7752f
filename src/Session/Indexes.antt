-- ===== src/Session/Indexes.antt =====
-- services/session_store.py, the indexes of sessions: what `get_by_user` clears out of them, and what a cleanup does to them.
use immich_adapter.Prelude.{
  ℕ, ◌-◌, ◌*◌, nat_eq, String, ◌≡◌, refl, ap, ◌∙◌, Bool, true, false, not, ◌&&◌, ◌||◌, Option, none,
  List, [], ◌∷◌, ◌++◌, arith, ◌==◌, string_eq, if◌then◌else◌, Dict, contains, Result, ok, err,
  Bool-cases, Result-cases, inl, inr, beq_refl, All,
}
use immich_adapter.Outside.Formats.{Formats}
use immich_adapter.Outside.Redis.{
  Redis, IsRedis, Key, session, user_sessions, by_updated_at, Command, execute-members,
  execute-scores, member_through, score_through, at_most, is_nil, key_eq, same_key,
}
use immich_adapter.Jwt.{Fernet}
use immich_adapter.Session.{
  decode, sort_tokens, orphan_commands, get_by_user, stale_commands, stale_pipeline,
  get_stale_sessions, cleanup_stale_sessions,
}

abbrev is_ok {ℓ} : {A : Type ℓ} → Result A → Bool
is_ok (ok a) = true
is_ok (err e) = false

score_through-append :
    (xs ys : List Command) (k : Key) (t : String) (o : Option ℕ)
    → score_through (xs ++ ys) k t o ≡ score_through ys k t (score_through xs k t o)
score_through-append [] ys k t o = refl
score_through-append (x ∷ xs) ys k t o = score_through-append xs ys k t _

if_contains :
    (r r' : Bool) (token t : String) (os : List String) (c : Bool)
    → ((token == t) ≡ true → r ≡ r')
    → contains t os ≡ (c && not r')
    → contains t (if r then os else token ∷ os) ≡ ((token == t || c) && not r')
if_contains r r' token t os c h k = ground arith

module _ (F : Formats) (K : Option Fernet) {D : Type 0} (R : Redis D) where
  -- whether the token's hash holds a session that can be read
  abbrev pub is_readable : String → D → Bool
  is_readable token d =
      not (is_nil (R.hgetall (session token) d))
      && is_ok (decode F K R token (R.hgetall (session token) d))

  sort_tokens-first :
      (token : String) (tokens : List String) (d : D)
      → (sort_tokens F K R (token ∷ tokens) d).1 ≡ (
          if is_readable token d
          then (sort_tokens F K R tokens d).1
          else token ∷ (sort_tokens F K R tokens d).1)
  unfolding sort_tokens
  sort_tokens-first token tokens d = elim (Bool-cases (is_nil (R.hgetall (session token) d))) [
    | inl e ↦ rw (e, sort_tokens) refl
    | inr e ↦ elim (Result-cases (decode F K R token (R.hgetall (session token) d))) [
      | inl (s, f) ↦ rw (e, f, sort_tokens) refl
      | inr (x, f) ↦ rw (e, f, sort_tokens) refl
    ]
  ]

  orphans-readable :
      (tokens : List String) (t : String) (d : D)
      → contains t (sort_tokens F K R tokens d).1 ≡ (contains t tokens && not (is_readable t d))
  unfolding sort_tokens
  orphans-readable [] t d = refl
  orphans-readable (token ∷ tokens) t d =
      let same : (token == t) ≡ true → is_readable token d ≡ is_readable t d =
        λ e. ap (λ x. is_readable x d) ((string_eq.beq_iff token t).0 e) in
      ap (λ os. contains t os) (sort_tokens-first token tokens d)
      ∙ if_contains (is_readable token d) (is_readable t d) token t (sort_tokens F K R tokens d).1
          (contains t tokens) same (orphans-readable tokens t d)

  orphan-members :
      (user_id : String) (orphans : List String) (t : String) (b : Bool)
      → member_through (orphan_commands F K R user_id orphans) (user_sessions user_id) t b
        ≡ (b && not (contains t orphans))
  unfolding orphan_commands same_key
  orphan-members user_id [] t b = ground arith
  orphan-members user_id (o ∷ os) t b =
      orphan-members user_id os t _ ∙ ground (arith, beq_refl user_id)

  orphan-scores :
      (user_id : String) (orphans : List String) (t : String) (s : Option ℕ)
      → score_through (orphan_commands F K R user_id orphans) by_updated_at t s
        ≡ (if contains t orphans then none else s)
  unfolding orphan_commands same_key
  orphan-scores user_id [] t s = refl
  orphan-scores user_id (o ∷ os) t s = orphan-scores user_id os t _ ∙ ground arith

module _ (F : Formats) (K : Option Fernet) {D : Type 0} (R : Redis D) (redis : IsRedis R) where
  -- Listing a user's sessions clears the tokens without a readable session out of both indexes: after
  -- it the user's index names just those of its tokens that can be read, and the activity index has
  -- lost the scores of the others and no score else.
  pub get_by_user-indexes :
      (user_id t : String) (d : D)
      → (let after = (get_by_user F K R user_id d).1 in
          let named = contains t (R.smembers (user_sessions user_id) d) in
          (contains t (R.smembers (user_sessions user_id) after) ≡ (named && is_readable F K R t d))
          × (R.zscore by_updated_at t after ≡ (
              if named && not (is_readable F K R t d) then none else R.zscore by_updated_at t d)))
  unfolding get_by_user
  get_by_user-indexes user_id t d =
      let tokens = R.smembers (user_sessions user_id) d in
      let orphans = (sort_tokens F K R tokens d).1 in
      let known = orphans-readable F K R tokens t d in
      (
        execute-members R redis (orphan_commands F K R user_id orphans) (user_sessions user_id) t d
            ∙ orphan-members F K R user_id orphans t (contains t tokens)
            ∙ ground arith,
        execute-scores R redis (orphan_commands F K R user_id orphans) by_updated_at t d
            ∙ orphan-scores F K R user_id orphans t (R.zscore by_updated_at t d)
            ∙ ground arith,
      )

module _ (F : Formats) (K : Option Fernet) {D : Type 0} (R : Redis D) where
  -- The tokens whose session hash is gone.
  abbrev pub IsGone : D → String → Type 0
  IsGone d token = is_nil (R.hgetall (session token) d) ≡ true

  stale_pipeline-gone :
      (tokens : List String) (d : D) → All (IsGone d) tokens → (stale_pipeline F K R tokens d).1 ≡ 0
  unfolding stale_pipeline
  stale_pipeline-gone [] d h = refl
  stale_pipeline-gone (token ∷ tokens) d (h, hs) =
      rw (h, stale_pipeline) (omega (arith, stale_pipeline-gone tokens d hs))

  stale_commands-scores :
      (token t : String) (fields : Dict String String) (s : Option ℕ)
      → score_through (stale_commands F K R token fields).0 by_updated_at t s
        ≡ (if token == t then none else s)
  unfolding same_key
  stale_commands-scores token t fields s = elim (Bool-cases (is_nil fields)) [
    | inl e ↦ rw e refl
    | inr e ↦ elim (Result-cases (decode F K R token fields)) [
      | inl (x, f) ↦ rw (e, f) refl
      | inr (x, f) ↦ rw (e, f) refl
    ]
  ]

  stale_pipeline-scores :
      (tokens : List String) (d : D) (t : String) (s : Option ℕ)
      → score_through (stale_pipeline F K R tokens d).0 by_updated_at t s
        ≡ (if contains t tokens then none else s)
  unfolding stale_pipeline
  stale_pipeline-scores [] d t s = refl
  stale_pipeline-scores (token ∷ tokens) d t s =
      let first = (stale_commands F K R token (R.hgetall (session token) d)).0 in
      score_through-append first (stale_pipeline F K R tokens d).0 by_updated_at t s
      ∙ ap (λ o. score_through (stale_pipeline F K R tokens d).0 by_updated_at t o)
          (stale_commands-scores token t (R.hgetall (session token) d) s)
      ∙ stale_pipeline-scores tokens d t _
      ∙ ground arith

  -- A cleanup takes out of the activity index the tokens whose last activity is at or before the
  -- cutoff and no other, if it counts a session that it removes; if it counts none it takes out none.
  pub cleanup_stale_sessions-scores :
      (now days : ℕ) (t : String) (d : D)
      → IsRedis R
      → (let result = cleanup_stale_sessions F K R now days d in
          let score = R.zscore by_updated_at t d in
          R.zscore by_updated_at t result.1 ≡ (
            if not (nat_eq result.0 0) && at_most (now - days * 86_400_000_000) score
            then none
            else score))
  unfolding cleanup_stale_sessions get_stale_sessions
  cleanup_stale_sessions-scores now days t d redis =
      let stale = get_stale_sessions F K R now days d in
      elim (Bool-cases (nat_eq (stale_pipeline F K R stale d).1 0)) [
        | inl e ↦ rw (e, cleanup_stale_sessions) refl
        | inr e ↦
            rw (e, cleanup_stale_sessions)
              (execute-scores R redis (stale_pipeline F K R stale d).0 by_updated_at t d
                ∙ stale_pipeline-scores stale d t (R.zscore by_updated_at t d)
                ∙ rw (redis.range by_updated_at (now - days * 86_400_000_000) t d, e) refl)
      ]

  -- Where the session of every stale token is gone, a cleanup counts nothing and leaves Redis as it
  -- is: the commands that would take the tokens out of the activity index are never run.
  pub cleanup_stale_sessions-gone :
      (now days : ℕ) (d : D)
      → All (IsGone d) (get_stale_sessions F K R now days d)
      → cleanup_stale_sessions F K R now days d ≡ (0, d)
  unfolding cleanup_stale_sessions get_stale_sessions
  cleanup_stale_sessions-gone now days d h =
      rw (stale_pipeline-gone (get_stale_sessions F K R now days d) d h, cleanup_stale_sessions)
        refl
