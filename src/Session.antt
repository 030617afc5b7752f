-- ===== src/Session.antt =====
-- services/session_store.py: sessions in Redis hashes, with an index of each user's sessions and one
-- of all sessions by their last activity. Tracing spans are left out. A call gets the time of its
-- clock; Redis failures stand only where the code handles them, in `get_by_id`.
pub mod Stored
pub mod Deleted
pub mod Indexes
use immich_adapter.Prelude.{
  ℕ, ◌+◌, ◌-◌, ◌*◌, ◌/◌, String, Bool, true, false, ◌&&◌, ◌||◌, Option, none, some, List, [], ◌∷◌,
  ◌++◌, ◌==◌, string_eq, if◌then◌else◌, Dict, leb, nat_eq, length, Result, ok, err, session_data,
  session_store, session_expired, map_ok, Exec, gets, ◌>>=◌, ◌>>◌,
}
use immich_adapter.Outside.Formats.{Formats}
use immich_adapter.Outside.Redis.{
  Redis, session, checkpoints, user_sessions, by_updated_at, Command, hset, delete, sadd, srem,
  zadd, zrem, expire, execute, is_nil,
}
use immich_adapter.Jwt.{Fernet, encrypt_jwt}
unfoldable pub use immich_adapter.SessionFields.{to_dict, from_dict}
pub use immich_adapter.SessionFields.{Session, flag_text, needed, or_malformed}

module _ (F : Formats) where
  module _ (K : Option Fernet) {D : Type 0} (R : Redis D) where
    -- the two `expire` commands of `create`, where an expiry is given
    abbrev pub expiry : String → ℕ → Option ℕ → List Command
    expiry token now none = []
    expiry token now (some at) =
        let seconds = (at - now) / 1_000_000 in
        let ttl = if nat_eq seconds 0 then 1 else seconds in
        expire (session token) ttl ∷ expire (checkpoints token) ttl ∷ []

    abbrev pub is_past : ℕ → Option ℕ → Bool
    is_past now none = false
    is_past now (some at) = leb at now

    abbrev pub new_session :
        (id now : ℕ) (encrypted user_id library_id device_type device_os app_version : String)
        → Session
    new_session id now encrypted user_id library_id device_type device_os app_version = record {
      id = id;
      user_id = user_id;
      library_id = library_id;
      stored_jwt = encrypted;
      device_type = device_type;
      device_os = device_os;
      app_version = app_version;
      created_at = now;
      updated_at = now;
      is_pending_sync_reset = false;
    }

    -- the pipeline of `create`
    abbrev pub store_session : ℕ → Session → Option ℕ → List Command
    store_session now s expires_at =
        let token = F.uuid_text s.id in
        hset (session token) (to_dict F s)
        ∷ sadd (user_sessions s.user_id) token
        ∷ zadd by_updated_at token now
        ∷ expiry token now expires_at

    -- `id` is the fresh uuid4.
    unfoldable pub create :
        (id now : ℕ) (jwt user_id library_id device_type device_os app_version : String)
        → Option ℕ
        → Exec D Session
    create id now jwt user_id library_id device_type device_os app_version expires_at d =
        if is_past now expires_at then (err session_expired, d) else elim (encrypt_jwt K jwt) [
          | err e ↦ (err e, d)
          | ok encrypted ↦
              let s =
                new_session id now encrypted user_id library_id device_type device_os app_version in
              (ok s, execute R (store_session now s expires_at) d)
        ]

    -- one stored hash as a session, by the token that keys it
    abbrev pub read_session : ℕ → Dict String String → Result (Option Session)
    read_session id fields = if is_nil fields then ok none else map_ok some (from_dict F id fields)

    -- `down` says whether Redis fails in this call.
    unfoldable pub get_by_id : (down : Bool) → String → D → Result (Option Session)
    get_by_id down token d = elim (F.uuid_of token) [
      | none ↦ ok none
      | some id ↦ if down then err session_store else read_session id (R.hgetall (session token) d)
    ]

    -- `Session.from_dict(UUID(token), data)` for the data of a token of an index
    abbrev pub decode : String → Dict String String → Result Session
    decode token fields = elim (F.uuid_of token) [
      | none ↦ err session_data
      | some id ↦ from_dict F id fields
    ]

    -- the loop of `get_by_user`: the sessions, and the tokens without one
    sort_tokens : List String → D → List Session × List String
    sort_tokens [] d = ([], [])
    sort_tokens (token ∷ tokens) d =
        let (sessions, orphans) = sort_tokens tokens d in
        let fields = R.hgetall (session token) d in
        if is_nil fields then (sessions, token ∷ orphans) else elim (decode token fields) [
          | ok s ↦ (s ∷ sessions, orphans)
          | err e ↦ (sessions, token ∷ orphans)
        ]

    -- `_cleanup_orphaned_indexes`
    pub orphan_commands : String → List String → List Command
    orphan_commands user_id [] = []
    orphan_commands user_id (token ∷ tokens) =
        srem (user_sessions user_id) token
        ∷ zrem by_updated_at token
        ∷ orphan_commands user_id tokens

    unfoldable pub get_by_user : String → Exec D (List Session)
    unfolding sort_tokens orphan_commands
    get_by_user user_id d =
        let (sessions, orphans) = sort_tokens (R.smembers (user_sessions user_id) d) d in
        (ok sessions, execute R (orphan_commands user_id orphans) d)

    unfoldable pub update_activity : (now : ℕ) → String → D → Bool × D
    update_activity now token d =
        if R.exists (session token) d
        then (
          true,
          execute R
              (hset (session token) (("updated_at", F.isoformat now) ∷ [])
                ∷ zadd by_updated_at token now
                ∷ [])
              d,
        )
        else (false, d)

    unfoldable pub update_stored_jwt : (now : ℕ) → String → String → Exec D Bool
    update_stored_jwt now token jwt d =
        if R.exists (session token) d
        then elim (encrypt_jwt K jwt) [
          | err e ↦ (err e, d)
          | ok encrypted ↦ (
            ok true,
            execute R
                (hset (session token) (("stored_jwt", encrypted) ∷ [])
                  ∷ hset (session token) (("updated_at", F.isoformat now) ∷ [])
                  ∷ zadd by_updated_at token now
                  ∷ [])
                d,
          )
        ]
        else (ok false, d)

    unfoldable pub set_pending_sync_reset : String → Bool → D → Bool × D
    set_pending_sync_reset token pending d =
        if R.exists (session token) d
        then (
          true,
          R.run (hset (session token) (("is_pending_sync_reset", flag_text pending) ∷ [])) d,
        )
        else (false, d)

    -- the pipeline of `delete_by_id`
    abbrev pub drop_session : String → String → List Command
    drop_session user_id token =
        delete (session token)
        ∷ delete (checkpoints token)
        ∷ srem (user_sessions user_id) token
        ∷ zrem by_updated_at token
        ∷ []

    unfoldable pub delete_by_id : (down : Bool) → String → Exec D Bool
    unfolding get_by_id
    delete_by_id down token d = elim (get_by_id down token d) [
      | err e ↦ (err e, d)
      | ok none ↦ (ok false, d)
      | ok (some s) ↦ (ok true, execute R (drop_session s.user_id token) d)
    ]

    drop_tokens : List String → List Command
    drop_tokens [] = []
    drop_tokens (token ∷ tokens) =
        delete (session token)
        ∷ delete (checkpoints token)
        ∷ zrem by_updated_at token
        ∷ drop_tokens tokens

    unfoldable pub delete_all_for_user : String → D → ℕ × D
    unfolding drop_tokens
    delete_all_for_user user_id d =
        let tokens = R.smembers (user_sessions user_id) d in
        if is_nil tokens then (0, d) else (
          length tokens,
          execute R (drop_tokens tokens ++ delete (user_sessions user_id) ∷ []) d,
        )

    -- The cutoff is `days` before the clock, which is so much past 1970.
    unfoldable pub get_stale_sessions : (now days : ℕ) → D → List String
    get_stale_sessions now days d = R.zrangebyscore by_updated_at (now - days * 86_400_000_000) d

    -- the commands for one stale token, and what it adds to the count
    abbrev pub stale_commands : String → Dict String String → List Command × ℕ
    stale_commands token fields =
        if is_nil fields then (zrem by_updated_at token ∷ [], 0) else elim (decode token fields) [
          | ok s ↦ (drop_session s.user_id token, 1)
          | err e ↦ (
            delete (session token) ∷ delete (checkpoints token) ∷ zrem by_updated_at token ∷ [],
            1,
          )
        ]

    stale_pipeline : List String → D → List Command × ℕ
    stale_pipeline [] d = ([], 0)
    stale_pipeline (token ∷ tokens) d =
        let (commands, count) = stale_pipeline tokens d in
        let (first, n) = stale_commands token (R.hgetall (session token) d) in
        (first ++ commands, n + count)

    unfoldable pub cleanup_stale_sessions : (now days : ℕ) → D → ℕ × D
    unfolding stale_pipeline get_stale_sessions
    cleanup_stale_sessions now days d =
        let (commands, count) = stale_pipeline (get_stale_sessions now days d) d in
        if nat_eq count 0 then (0, d) else (count, execute R commands d)
