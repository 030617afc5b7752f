-- ===== src/Sync/Routes/Reset.antt =====
-- routers/api/sync/routes.py: what a request for a stream does to the checkpoints.
use immich_adapter.Prelude.{
  ℕ, String, ◌≡◌, ap, ◌∙◌, Bool, true, false, not, ◌&&◌, Option, none, some, List, ok, Exec,
  Result-cases, inl, inr, if◌then◌else◌, ◌==◌, number_eq, arith,
}
use immich_adapter.Outside.Formats.{Formats, IsFormats}
use immich_adapter.Outside.ShortUuid.{ShortUuid}
use immich_adapter.Outside.Redis.{Redis, IsRedis}
use immich_adapter.Outside.Client.{Client}
use immich_adapter.Jwt.{Fernet}
use immich_adapter.Sync.EntityType.{SyncEntityType}
use immich_adapter.Sync.RequestType.{SyncRequestType}
use immich_adapter.Checkpoint.{get}
use immich_adapter.Checkpoint.Reads.{get-delete_all}
use immich_adapter.Sync.Generate.{User}
use immich_adapter.Sync.Routes.{stream_session, pending_reset, loaded, get_sync_stream}

module _ (F : Formats) (laws : IsFormats F) (K : Option Fernet) {D : Type 0} (R : Redis D)
    (redis : IsRedis R) (S : ShortUuid) {W : Type 0} (client : Client W) (me : Exec W User)
    (n started : ℕ) (down : Bool) where
  -- Behind the test for a pending reset, Redis is what loading the checkpoints leaves.
  get_sync_stream-store :
      (text : String) (token : ℕ) (types : List SyncRequestType) (wants_reset : Bool) (d : D)
      (w : W)
      → stream_session F (some text) ≡ some token
      → pending_reset F K R down (some token) d ≡ ok false
      → (get_sync_stream F K R S client me n started down (some text) types wants_reset (d, w)).1.0
        ≡ (loaded F K R wants_reset (some token) d).1
  unfolding get_sync_stream
  get_sync_stream-store text token types wants_reset d w h p =
      let p' : pending_reset F K R down (stream_session F (some text)) d ≡ ok false =
        ap (λ o. pending_reset F K R down o d) h ∙ p in
      elim (Result-cases (loaded F K R wants_reset (stream_session F (some text)) d).0) [
        | inl (found, e) ↦ elim (Result-cases (me w).0) [
          | inl (user, f) ↦
              rw (p', e, f, get_sync_stream) (ap (λ o. (loaded F K R wants_reset o d).1) h)
          | inr (x, f) ↦
              rw (p', e, f, get_sync_stream) (ap (λ o. (loaded F K R wants_reset o d).1) h)
        ]
        | inr (x, e) ↦ rw (p', e, get_sync_stream) (ap (λ o. (loaded F K R wants_reset o d).1) h)
      ]

  -- A request for a stream deletes the checkpoints of its session if it wants a reset and none is
  -- pending, and changes no other checkpoint.
  pub get_sync_stream-checkpoints :
      (text : String) (token other : ℕ) (types : List SyncRequestType) (wants_reset pending : Bool)
      (t : SyncEntityType) (d : D) (w : W)
      → stream_session F (some text) ≡ some token
      → pending_reset F K R down (some token) d ≡ ok pending
      → get F R other t
          (get_sync_stream F K R S client me n started down
            (some text)
            types
            wants_reset
            (d, w)).1.0
        ≡ (if wants_reset && not pending && (token == other) then none else get F R other t d)
  unfolding get_sync_stream
  get_sync_stream-checkpoints text token other types wants_reset true t d w h p =
      let p' : pending_reset F K R down (stream_session F (some text)) d ≡ ok true =
        ap (λ o. pending_reset F K R down o d) h ∙ p in
      rw (p', get_sync_stream) (ground arith)
  get_sync_stream-checkpoints text token other types true false t d w h p =
      ap (λ x. get F R other t x) (get_sync_stream-store text token types true d w h p)
      ∙ get-delete_all F laws R redis token other t d
  get_sync_stream-checkpoints text token other types false false t d w h p =
      ap (λ x. get F R other t x) (get_sync_stream-store text token types false d w h p)
