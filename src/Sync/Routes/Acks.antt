-- ===== src/Sync/Routes/Acks.antt =====
-- routers/api/sync/routes.py: what the acknowledgements of streamed lines do to the checkpoints and the session.
use immich_adapter.Prelude.{
  ℕ, String, ◌≡◌, ◌≢◌, refl, ap, ◌∙◌, false, Option, none, some, List, [], ◌∷◌, ◌++◌, map, ◌==◌,
  string_eq, number_eq, lookup, update, last_for, ok, All, if◌then◌else◌, has_pipe,
}
use immich_adapter.Outside.Formats.{Formats, IsFormats}
use immich_adapter.Outside.Redis.{Redis, IsRedis, session, key_eq}
use immich_adapter.Jwt.{Fernet}
use immich_adapter.Sync.EntityType.{SyncEntityType, entity_type_eq}
use immich_adapter.Sync.Ack.{to_ack_string}
use immich_adapter.Checkpoint.{fresh, get, set_many, delete_all}
use immich_adapter.Checkpoint.Reads.{get-set_many, get-delete_all}
use immich_adapter.Session.{set_pending_sync_reset}
use immich_adapter.Sync.Routes.{reset, store, apply_acked, get_session_token, send_sync_ack}
use immich_adapter.Sync.Routes.Collected.{
  Streamed, ack_of, IsStorable, HasStorableCursor-update, last_for-collected, collected,
  collected_reset,
}
use immich_adapter.Sync.Routes.Frames.{
  get-update_activity, pending-update_activity, pending-delete_all, pending-set_pending,
  get-set_pending, send_sync_ack-ok,
}

module _ (F : Formats) (laws : IsFormats F) (K : Option Fernet) {D : Type 0} (R : Redis D)
    (redis : IsRedis R) where
  -- Acknowledging streamed lines, each of them storable, succeeds, and then a read of a checkpoint of
  -- that session finds for each type the cursor of the last acknowledged line of the type, with the
  -- time of the call; the other types and the other sessions are as before.
  pub get-send_sync_ack :
      (now token other : ℕ) (text : String) (lines : List Streamed) (t : SyncEntityType) (d : D)
      → get_session_token F (some text) ≡ ok token
      → All IsStorable lines
      → ((send_sync_ack F K R now (some text) (map ack_of lines) d).0 ≡ ok tt)
        × (get F R other t (send_sync_ack F K R now (some text) (map ack_of lines) d).1 ≡ (
            if token == other
            then elim (last_for t lines) [
              | some cursor ↦ some (fresh now t cursor)
              | none ↦ get F R other t d
            ]
            else get F R other t d))
  unfolding send_sync_ack apply_acked
  get-send_sync_ack now token other text lines t d e h =
      let found = update [] lines in
      rw
        (send_sync_ack-ok F K R redis now token text (map ack_of lines) (store found) d e
          (collected lines h))
        (
          refl,
          get-update_activity F K R redis now other (F.uuid_text token) t
                (set_many F R now token found d)
              ∙ get-set_many F laws R redis now token other found t d
                  (HasStorableCursor-update [] lines tt h)
              ∙ rw (last_for-collected t lines) refl,
        )

  -- Acknowledging storable lines and then the line of a reset succeeds, whatever follows; it leaves
  -- the session without checkpoints and every other session's as they were, and clears the
  -- session's pending reset where the session exists.
  pub get-send_reset_ack :
      (now token other : ℕ) (text cursor : String) (lines : List Streamed) (more : List String)
      (t : SyncEntityType) (d : D)
      → get_session_token F (some text) ≡ ok token
      → All IsStorable lines
      → has_pipe cursor ≡ false
      → cursor ≢ ""
      → (let acks = map ack_of lines ++ to_ack_string SyncEntityType.sync_reset_v1 cursor ∷ more in
          let after = (send_sync_ack F K R now (some text) acks d).1 in
          ((send_sync_ack F K R now (some text) acks d).0 ≡ ok tt)
          × (get F R other t after ≡ (if token == other then none else get F R other t d))
          × (lookup "is_pending_sync_reset" (R.hgetall (session (F.uuid_text token)) after) ≡ (
              if R.exists (session (F.uuid_text token)) d
              then some "0"
              else lookup "is_pending_sync_reset" (R.hgetall (session (F.uuid_text token)) d))))
  unfolding send_sync_ack apply_acked
  get-send_reset_ack now token other text cursor lines more t d e h p ne =
      let id = F.uuid_text token in
      let cleared = (set_pending_sync_reset F K R id false d).1 in
      let dropped = delete_all F R token cleared in
      rw
        (send_sync_ack-ok F K R redis now token text
          (map ack_of lines ++ to_ack_string SyncEntityType.sync_reset_v1 cursor ∷ more) reset d e
          (collected_reset cursor lines more h p ne))
        (
          refl,
          get-update_activity F K R redis now other id t dropped
              ∙ get-delete_all F laws R redis token other t cleared
              ∙ ap (λ c. if token == other then none else c)
                  (get-set_pending F K R redis other id t d),
          pending-update_activity F K R redis now id id dropped
              ∙ pending-delete_all F K R redis token id cleared
              ∙ pending-set_pending F K R redis id d,
        )
