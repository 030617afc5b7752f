-- ===== src/Session/Stored.antt =====
-- services/session_store.py: the stored form of a session, and what a session that was created is read as.
use immich_adapter.Prelude.{
  ℕ, String, ◌≡◌, refl, sym, ◌∙◌, Bool, true, false, Option, none, some, [], ◌∷◌, arith, ◌==◌,
  string_eq, number_eq, if◌then◌else◌, Dict, lookup, or_else, ok, ok-inj, Bool-cases, inl, inr,
  Result-cases, beq_refl,
}
use immich_adapter.Outside.Formats.{Formats, IsFormats, uuid_text-injective}
use immich_adapter.Outside.Redis.{
  Redis, IsRedis, session, execute, execute-fields, is_nil, key_eq, same_key,
}
use immich_adapter.Jwt.{Fernet, encrypt_jwt}
use immich_adapter.Session.{
  Session, flag_text, needed, to_dict, from_dict, create, new_session, store_session, is_past,
  read_session, get_by_id,
}

-- The dictionaries have the same fields.
abbrev pub SameFields : Dict String String → Dict String String → Type 0
SameFields m m' = (f : String) → lookup f m ≡ lookup f m'

flag_text-read : (b : Bool) → (flag_text b == "1") ≡ b
flag_text-read true = refl
flag_text-read false = refl

module _ (F : Formats) (laws : IsFormats F) where
  -- A session's stored fields, with any others beside them, are read back as the session.
  pub from_dict-to_dict :
      (s : Session) (m : Dict String String)
      → ((f v : String) → lookup f (to_dict F s) ≡ some v → lookup f m ≡ some v)
      → from_dict F s.id m ≡ ok s
  unfolding to_dict from_dict
  from_dict-to_dict s m h =
      rw
        (
          from_dict,
          needed,
          h "user_id" s.user_id refl,
          h "library_id" s.library_id refl,
          h "stored_jwt" s.stored_jwt refl,
          h "device_type" s.device_type refl,
          h "device_os" s.device_os refl,
          h "app_version" s.app_version refl,
          h "created_at" (F.isoformat s.created_at) refl,
          h "updated_at" (F.isoformat s.updated_at) refl,
          h "is_pending_sync_reset" (flag_text s.is_pending_sync_reset) refl,
          laws.read_time s.created_at,
          laws.read_time s.updated_at,
          flag_text-read s.is_pending_sync_reset,
        )
        refl

module _ (F : Formats) where
  pub from_dict_same :
      (id : ℕ) (m m' : Dict String String) → SameFields m m' → from_dict F id m ≡ from_dict F id m'
  unfolding from_dict
  from_dict_same id m m' h =
      rw
        (
          from_dict,
          needed,
          h "user_id",
          h "library_id",
          h "stored_jwt",
          h "device_type",
          h "device_os",
          h "app_version",
          h "created_at",
          h "updated_at",
          h "is_pending_sync_reset",
        )
        refl

  lookup_first : (k v : String) (m : Dict String String) → lookup k ((k, v) ∷ m) ≡ some v
  lookup_first k v m = rw (beq_refl k, lookup) refl

  -- fields that are all missing on both sides leave both empty
  pub is_nil_same : (m m' : Dict String String) → SameFields m m' → is_nil m ≡ is_nil m'
  is_nil_same [] [] h = refl
  is_nil_same [] ((k, v) ∷ m') h = cc (h k, lookup_first k v m')
  is_nil_same ((k, v) ∷ m) [] h = cc (h k, lookup_first k v m)
  is_nil_same (x ∷ m) (y ∷ m') h = refl

  pub read_session_same :
      (K : Option Fernet) {D : Type 0} (R : Redis D) (id : ℕ) (m m' : Dict String String)
      → SameFields m m'
      → read_session F K R id m ≡ read_session F K R id m'
  read_session_same K R id m m' h = rw (is_nil_same m m' h, from_dict_same id m m' h) refl

module _ (F : Formats) where
  user_id_stored : (s : Session) → lookup "user_id" (to_dict F s) ≡ some s.user_id
  unfolding to_dict
  user_id_stored s = refl

pub filled : (m : Dict String String) (f v : String) → lookup f m ≡ some v → is_nil m ≡ false
filled [] f v h = cc
filled (x ∷ m) f v h = refl

module _ (F : Formats) (laws : IsFormats F) (K : Option Fernet) {D : Type 0} (R : Redis D)
    (redis : IsRedis R) where
  -- the pipeline of `create` on the hashes of sessions
  store_session-fields :
      (now : ℕ) (s : Session) (expires_at : Option ℕ) (id f : String) (d : D)
      → lookup f (R.hgetall (session id) (execute R (store_session F K R now s expires_at) d)) ≡ (
          if F.uuid_text s.id == id
          then or_else (lookup f (to_dict F s)) (lookup f (R.hgetall (session id) d))
          else lookup f (R.hgetall (session id) d))
  unfolding same_key
  store_session-fields now s none id f d =
      execute-fields R redis (store_session F K R now s none) (session id) f d
  store_session-fields now s (some at_) id f d =
      execute-fields R redis (store_session F K R now s (some at_)) (session id) f d

  -- what `get_by_id` answers while Redis is up, by the text of the token
  pub get_by_id_of :
      (id : ℕ) (d : D)
      → get_by_id F K R false (F.uuid_text id) d
        ≡ read_session F K R id (R.hgetall (session (F.uuid_text id)) d)
  unfolding get_by_id
  get_by_id_of id d = rw (laws.read_uuid id, get_by_id) refl

  pub same_text : (a b : ℕ) → (F.uuid_text a == F.uuid_text b) ≡ (a == b)
  same_text a b = elim (Bool-cases (a == b)) [
    | inl e ↦ rw (e, (number_eq.beq_iff a b).0 e) (beq_refl (F.uuid_text b))
    | inr e ↦ ground (
      arith,
      string_eq.beq_iff (F.uuid_text a) (F.uuid_text b),
      number_eq.beq_iff a b,
      uuid_text-injective laws a b,
    )
  ]

  read_stored :
      (now : ℕ) (s : Session) (expires_at : Option ℕ) (d : D)
      → read_session F K R s.id (
          R.hgetall
            (session (F.uuid_text s.id))
            (execute R (store_session F K R now s expires_at) d))
        ≡ ok (some s)
  read_stored now s expires_at d =
      let m =
        R.hgetall (session (F.uuid_text s.id))
          (execute R (store_session F K R now s expires_at) d) in
      let kept : ((f v : String) → lookup f (to_dict F s) ≡ some v → lookup f m ≡ some v) = λ f v e.
        store_session-fields now s expires_at (F.uuid_text s.id) f d
        ∙ rw (beq_refl (F.uuid_text s.id), e) refl in
      rw
        (
          filled m "user_id" s.user_id (kept "user_id" s.user_id (user_id_stored F s)),
          from_dict-to_dict F laws s m kept,
        )
        refl

  read_stored_other :
      (now : ℕ) (s : Session) (expires_at : Option ℕ) (other : ℕ) (d : D)
      → (s.id == other) ≡ false
      → read_session F K R other (
          R.hgetall
            (session (F.uuid_text other))
            (execute R (store_session F K R now s expires_at) d))
        ≡ read_session F K R other (R.hgetall (session (F.uuid_text other)) d)
  read_stored_other now s expires_at other d h = read_session_same F K R other _ _ (λ f.
      store_session-fields now s expires_at (F.uuid_text other) f d
      ∙ rw (same_text s.id other, h) refl)

  -- After `create` has answered with a session, reading its token while Redis is up gives that
  -- session, and reading any other token answers as before.
  pub get_by_id-create :
      (id other now : ℕ) (jwt user_id library_id device_type device_os app_version : String)
      (expires_at : Option ℕ) (d : D) (s : Session)
      → (create F K R id now jwt user_id library_id device_type device_os app_version expires_at
          d).0
        ≡ ok s
      → get_by_id F K R false
          (F.uuid_text other)
          (create F K R id now jwt user_id library_id device_type device_os app_version expires_at
            d).1
        ≡ (if id == other then ok (some s) else get_by_id F K R false (F.uuid_text other) d)
  unfolding create
  get_by_id-create id other now jwt user_id library_id device_type device_os app_version expires_at
        d s h =
      elim (Bool-cases (is_past F K R now expires_at)) [
        | inl past ↦ cc (rw (past, create) at h)
        | inr ahead ↦ elim (Result-cases (encrypt_jwt K jwt)) [
          | inr (x, e) ↦ cc (rw (ahead, e, create) at h)
          | inl (encrypted, e) ↦
              let made =
                new_session F K R id now encrypted user_id library_id device_type device_os
                  app_version in
              let q : ok made ≡ ok s = rw (ahead, e, create) at h in
              rw (ahead, e, create, get_by_id_of other, ← ok-inj q)
                (elim (Bool-cases (id == other)) [
                  | inl same ↦
                      rw (same, ← (number_eq.beq_iff id other).0 same)
                        (read_stored now made expires_at d)
                  | inr differs ↦ rw differs (
                      read_stored_other now made expires_at other d differs
                      ∙ sym (get_by_id_of other d))
                ])
        ]
      ]
