-- ===== src/Auth/Stored.antt =====
-- services/session_store.py, `update_stored_jwt` as the auth middleware calls it: what it makes of the hashes of sessions.
use immich_adapter.Prelude.{
  ℕ, String, ◌≡◌, refl, ap, sym, ◌∙◌, Bool, true, false, Option, some, List, [], ◌∷◌, arith, ◌==◌,
  string_eq, if◌then◌else◌, Dict, lookup, ok, map_ok, map_ok-eq-ok, some-inj, Bool-cases,
  Result-cases, inl, inr, beq_refl,
}
use immich_adapter.Outside.Formats.{Formats, IsFormats}
use immich_adapter.Outside.Redis.{
  Redis, IsRedis, session, Command, execute, execute-fields, is_nil, key_eq, same_key, hset, zadd,
  by_updated_at,
}
use immich_adapter.Jwt.{Fernet, encrypt_jwt}
use immich_adapter.Session.{Session, needed, from_dict, read_session, get_by_id, update_stored_jwt}
use immich_adapter.Session.Stored.{get_by_id_of, filled}
use immich_adapter.Auth.{store_refreshed}

-- the fields of a session after `update_stored_jwt`
abbrev refreshed_field : String → String → String → Option String → Option String
refreshed_field encrypted now f o =
    if "updated_at" == f then some now else if "stored_jwt" == f then some encrypted else o

module _ (F : Formats) (laws : IsFormats F) where
  -- A hash that is read as a session is read as one with the new JWT when its fields are refreshed.
  from_dict-refreshed :
      (id now : ℕ) (encrypted : String) (m m' : Dict String String) (s : Session)
      → ((f : String) → lookup f m' ≡ refreshed_field encrypted (F.isoformat now) f (lookup f m))
      → from_dict F id m ≡ ok s
      → from_dict F id m' ≡ ok (record s { stored_jwt = encrypted; updated_at = now })
  unfolding from_dict
  from_dict-refreshed id now encrypted m m' s fields h =
      rw
        (
          from_dict,
          needed,
          fields "user_id",
          fields "library_id",
          fields "stored_jwt",
          fields "device_type",
          fields "device_os",
          fields "app_version",
          fields "created_at",
          fields "updated_at",
          fields "is_pending_sync_reset",
          laws.read_time now,
        )
        (ground arith)

abbrev update_commands : Formats → ℕ → String → String → List Command
update_commands F now token encrypted =
    hset (session token) (("stored_jwt", encrypted) ∷ [])
    ∷ hset (session token) (("updated_at", F.isoformat now) ∷ [])
    ∷ zadd by_updated_at token now
    ∷ []

module _ (F : Formats) (K : Option Fernet) {D : Type 0} (R : Redis D) (redis : IsRedis R) where
  update_commands-fields :
      (now : ℕ) (token encrypted other f : String) (d : D)
      → lookup f (R.hgetall (session other) (execute R (update_commands F now token encrypted) d))
        ≡ (if token == other
            then refreshed_field encrypted
                (F.isoformat now)
                f
                (lookup f (R.hgetall (session other) d))
            else lookup f (R.hgetall (session other) d))
  unfolding same_key
  update_commands-fields now token encrypted other f d =
      execute-fields R redis (update_commands F now token encrypted) (session other) f d
      ∙ ground arith

  -- Storing a refreshed JWT leaves every other session as it was.
  pub store_refreshed-others :
      (down : Bool) (now : ℕ) (token jwt other f : String) (d : D)
      → (token == other) ≡ false
      → lookup f (R.hgetall (session other) (store_refreshed F K R down now token jwt d))
        ≡ lookup f (R.hgetall (session other) d)
  unfolding update_stored_jwt
  store_refreshed-others true now token jwt other f d h = refl
  store_refreshed-others false now token jwt other f d h =
      elim (Bool-cases (R.exists (session token) d)) [
        | inr gone ↦ rw (gone, update_stored_jwt) refl
        | inl there ↦ elim (Result-cases (encrypt_jwt K jwt)) [
          | inr (x, e) ↦ rw (there, e, update_stored_jwt) refl
          | inl (encrypted, e) ↦
              rw (there, e, update_stored_jwt)
                (update_commands-fields now token encrypted other f d ∙ rw h refl)
        ]
      ]

module _ (F : Formats) (laws : IsFormats F) (K : Option Fernet) {D : Type 0} (R : Redis D)
    (redis : IsRedis R) where
  abbrev pub refreshed : ℕ → String → Session → Session
  refreshed now encrypted s = record s { stored_jwt = encrypted; updated_at = now }

  own_fields :
      (now : ℕ) (token encrypted f : String) (d : D)
      → lookup f (R.hgetall (session token) (execute R (update_commands F now token encrypted) d))
        ≡ refreshed_field encrypted (F.isoformat now) f (lookup f (R.hgetall (session token) d))
  own_fields now token encrypted f d =
      update_commands-fields F K R redis now token encrypted token f d ∙ rw (beq_refl token) refl

  read_refreshed_fields :
      (id now : ℕ) (encrypted : String) (s : Session) (m m' : Dict String String)
      → ((f : String) → lookup f m' ≡ refreshed_field encrypted (F.isoformat now) f (lookup f m))
      → read_session F K R id m ≡ ok (some s)
      → (is_nil m ≡ false) × (read_session F K R id m' ≡ ok (some (refreshed now encrypted s)))
  read_refreshed_fields id now encrypted s m m' fields h = elim (Bool-cases (is_nil m)) [
    | inl gone ↦ cc (rw (gone, read_session) at h)
    | inr there ↦
        let read : map_ok some (from_dict F id m) ≡ ok (some s) = rw (there, read_session) at h in
        let (s', q, same) = map_ok-eq-ok some (from_dict F id m) read in
        let q' : from_dict F id m ≡ ok s = q ∙ ap ok (some-inj same) in
        (
          there,
          rw
              (
                filled m' "stored_jwt" encrypted (fields "stored_jwt"),
                from_dict-refreshed F laws id now encrypted m m' s fields q',
                read_session,
              )
              refl,
        )
  ]

  -- A session that can be read is read with the refreshed JWT after it was stored.
  pub read_refreshed :
      (id now : ℕ) (jwt encrypted : String) (s : Session) (d : D)
      → get_by_id F K R false (F.uuid_text id) d ≡ ok (some s)
      → encrypt_jwt K jwt ≡ ok encrypted
      → get_by_id F K R false
          (F.uuid_text id)
          (store_refreshed F K R false now (F.uuid_text id) jwt d)
        ≡ ok (some (refreshed now encrypted s))
  unfolding update_stored_jwt
  read_refreshed id now jwt encrypted s d h e =
      let token = F.uuid_text id in
      let (there, read) =
        read_refreshed_fields id now encrypted s (R.hgetall (session token) d)
          (R.hgetall (session token) (execute R (update_commands F now token encrypted) d))
          (λ f. own_fields now token encrypted f d)
          (sym (get_by_id_of F laws K R redis id d) ∙ h) in
      let exists : R.exists (session token) d ≡ true =
        redis.existence (session token) d ∙ rw there refl in
      get_by_id_of F laws K R redis id _ ∙ rw (exists, e, update_stored_jwt) read
