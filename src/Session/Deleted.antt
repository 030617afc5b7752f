-- ===== src/Session/Deleted.antt =====
-- services/session_store.py: what is left of a session that was deleted.
use immich_adapter.Prelude.{
  ℕ, String, ◌≡◌, refl, sym, ◌∙◌, true, false, Option, none, some, [], arith, ◌==◌, string_eq,
  number_eq, if◌then◌else◌, contains, ok, Bool-cases, inl, inr, beq_refl,
}
use immich_adapter.Outside.Formats.{Formats, IsFormats}
use immich_adapter.Outside.Redis.{
  Redis, IsRedis, session, checkpoints, user_sessions, by_updated_at, execute, execute-fields,
  execute-members, execute-scores, key_eq, same_key,
}
use immich_adapter.Jwt.{Fernet}
use immich_adapter.Sync.EntityType
use immich_adapter.Sync.EntityType.{SyncEntityType}
use immich_adapter.Checkpoint.{get}
use immich_adapter.Session.{Session, get_by_id, delete_by_id, drop_session}
use immich_adapter.Session.Stored.{is_nil_same, read_session_same, same_text, get_by_id_of}

module _ (F : Formats) (laws : IsFormats F) (K : Option Fernet) {D : Type 0} (R : Redis D)
    (redis : IsRedis R) where
  get_by_id-drop :
      (user_id : String) (id other : ℕ) (d : D)
      → get_by_id F K R false
          (F.uuid_text other)
          (execute R (drop_session F K R user_id (F.uuid_text id)) d)
        ≡ (if id == other then ok none else get_by_id F K R false (F.uuid_text other) d)
  unfolding same_key
  get_by_id-drop user_id id other d =
      let d' = execute R (drop_session F K R user_id (F.uuid_text id)) d in
      let fields = λ (f : String).
        execute-fields R redis (drop_session F K R user_id (F.uuid_text id))
          (session (F.uuid_text other)) f d in
      get_by_id_of F laws K R redis other d' ∙ elim (Bool-cases (id == other)) [
        | inl e ↦
            rw
              (
                is_nil_same F (R.hgetall (session (F.uuid_text other)) d') []
                    (λ f. fields f ∙ rw (same_text F laws K R redis id other, e) refl),
                e,
              )
              refl
        | inr e ↦ rw e (
            read_session_same F K R other _ _
              (λ f. fields f ∙ rw (same_text F laws K R redis id other, e) refl)
            ∙ sym (get_by_id_of F laws K R redis other d))
      ]

  get-drop :
      (user_id : String) (id other : ℕ) (t : SyncEntityType) (d : D)
      → get F R other t (execute R (drop_session F K R user_id (F.uuid_text id)) d)
        ≡ (if id == other then none else get F R other t d)
  unfolding get same_key
  get-drop user_id id other t d =
      rw
        (
          execute-fields R redis (drop_session F K R user_id (F.uuid_text id))
              (checkpoints (F.uuid_text other)) (EntityType.value t) d,
          same_text F laws K R redis id other,
        )
        (ground arith)

  -- While Redis is up, deleting a session that is stored answers true. After it, reading its token finds no session and
  -- no checkpoint, and neither its user's index nor the activity index names the token; what every
  -- other token is read as in these four places is as before.
  pub delete_by_id-erases :
      (id other : ℕ) (t : SyncEntityType) (s : Session) (d : D)
      → get_by_id F K R false (F.uuid_text id) d ≡ ok (some s)
      → (let after = (delete_by_id F K R false (F.uuid_text id) d).1 in
          let token = F.uuid_text other in
          ((delete_by_id F K R false (F.uuid_text id) d).0 ≡ ok true)
          × (get_by_id F K R false token after
              ≡ (if id == other then ok none else get_by_id F K R false token d))
          × (get F R other t after ≡ (if id == other then none else get F R other t d))
          × (contains token (R.smembers (user_sessions s.user_id) after) ≡ (
              if id == other
              then false
              else contains token (R.smembers (user_sessions s.user_id) d)))
          × (R.zscore by_updated_at token after
              ≡ (if id == other then none else R.zscore by_updated_at token d)))
  unfolding delete_by_id same_key
  delete_by_id-erases id other t s d h =
      let dropped = drop_session F K R s.user_id (F.uuid_text id) in
      rw (h, delete_by_id)
        (
          refl,
          get_by_id-drop s.user_id id other d,
          get-drop s.user_id id other t d,
          execute-members R redis dropped (user_sessions s.user_id) (F.uuid_text other) d
              ∙ rw (beq_refl s.user_id, same_text F laws K R redis id other) refl,
          execute-scores R redis dropped by_updated_at (F.uuid_text other) d
              ∙ rw (same_text F laws K R redis id other) refl,
        )
