-- ===== src/Sync/Routes/Frames.antt =====
-- routers/api/sync/routes.py: what one effect of an acknowledgement leaves as it was.
use immich_adapter.Prelude.{
  ℕ, String, ◌≡◌, refl, false, Option, some, List, [], ◌∷◌, arith, string_eq, number_eq, lookup, ok,
  Bool-cases, inl, inr, if◌then◌else◌, beq_refl,
}
use immich_adapter.Outside.Formats.{Formats}
use immich_adapter.Outside.Redis.{
  Redis, IsRedis, session, checkpoints, by_updated_at, hset, delete, zadd, same_key, key_eq,
}
use immich_adapter.Jwt.{Fernet}
use immich_adapter.Sync.EntityType
use immich_adapter.Sync.EntityType.{SyncEntityType, entity_type_eq, same}
use immich_adapter.Checkpoint.{get, delete_all}
use immich_adapter.Session.{update_activity, set_pending_sync_reset}
use immich_adapter.Sync.Routes.{Acked, collect_acks, apply_acked, get_session_token, send_sync_ack}

module _ (F : Formats) (K : Option Fernet) {D : Type 0} (R : Redis D) (redis : IsRedis R) where
  -- Noting activity changes no checkpoint.
  pub get-update_activity :
      (now token : ℕ) (id : String) (t : SyncEntityType) (d : D)
      → get F R token t (update_activity F K R now id d).1 ≡ get F R token t d
  unfolding get update_activity same_key
  get-update_activity now token id t d = elim (Bool-cases (R.exists (session id) d)) [
    | inl e ↦
        rw
          (
            e,
            redis.fields (zadd by_updated_at id now) (checkpoints (F.uuid_text token))
                (EntityType.value t)
                (R.run (hset (session id) (("updated_at", F.isoformat now) ∷ [])) d),
            redis.fields (hset (session id) (("updated_at", F.isoformat now) ∷ []))
                (checkpoints (F.uuid_text token)) (EntityType.value t) d,
          )
          refl
    | inr e ↦ rw e refl
  ]

  -- A pending reset is unchanged by noting activity and by deleting checkpoints.
  pub pending-update_activity :
      (now : ℕ) (id x : String) (d : D)
      → lookup "is_pending_sync_reset" (R.hgetall (session x) (update_activity F K R now id d).1)
        ≡ lookup "is_pending_sync_reset" (R.hgetall (session x) d)
  unfolding update_activity same_key
  pending-update_activity now id x d = elim (Bool-cases (R.exists (session id) d)) [
    | inl e ↦
        rw
          (
            e,
            redis.fields (zadd by_updated_at id now) (session x) "is_pending_sync_reset"
                (R.run (hset (session id) (("updated_at", F.isoformat now) ∷ [])) d),
            redis.fields (hset (session id) (("updated_at", F.isoformat now) ∷ [])) (session x)
                "is_pending_sync_reset" d,
          )
          (ground arith)
    | inr e ↦ rw e refl
  ]

  pub pending-delete_all :
      (token : ℕ) (x : String) (d : D)
      → lookup "is_pending_sync_reset" (R.hgetall (session x) (delete_all F R token d))
        ≡ lookup "is_pending_sync_reset" (R.hgetall (session x) d)
  unfolding delete_all same_key
  pending-delete_all token x d =
      rw
        (redis.fields (delete (checkpoints (F.uuid_text token))) (session x) "is_pending_sync_reset"
          d)
        refl

  pub pending-set_pending :
      (x : String) (d : D)
      → lookup "is_pending_sync_reset"
          (R.hgetall (session x) (set_pending_sync_reset F K R x false d).1)
        ≡ (if R.exists (session x) d
            then some "0"
            else lookup "is_pending_sync_reset" (R.hgetall (session x) d))
  unfolding set_pending_sync_reset same_key
  pending-set_pending x d = elim (Bool-cases (R.exists (session x) d)) [
    | inl e ↦
        rw
          (
            e,
            redis.fields (hset (session x) (("is_pending_sync_reset", "0") ∷ [])) (session x)
                "is_pending_sync_reset" d,
            beq_refl x,
          )
          refl
    | inr e ↦ rw e refl
  ]

  pub get-set_pending :
      (token : ℕ) (x : String) (t : SyncEntityType) (d : D)
      → get F R token t (set_pending_sync_reset F K R x false d).1 ≡ get F R token t d
  unfolding get set_pending_sync_reset same_key
  get-set_pending token x t d = elim (Bool-cases (R.exists (session x) d)) [
    | inl e ↦
        rw
          (
            e,
            redis.fields (hset (session x) (("is_pending_sync_reset", "0") ∷ []))
                (checkpoints (F.uuid_text token)) (EntityType.value t) d,
          )
          refl
    | inr e ↦ rw e refl
  ]

  pub send_sync_ack-ok :
      (now token : ℕ) (text : String) (acks : List String) (acked : Acked) (d : D)
      → get_session_token F (some text) ≡ ok token
      → collect_acks acks [] ≡ ok acked
      → send_sync_ack F K R now (some text) acks d ≡ (ok tt, apply_acked F K R now token acked d)
  unfolding send_sync_ack
  send_sync_ack-ok now token text acks acked d e h = rw (e, h, send_sync_ack) refl
