-- ===== src/Sync/Routes/Resumed.antt =====
-- routers/api/sync/routes.py: where the next stream starts after acknowledgements.
use immich_adapter.Prelude.{
  ℕ, String, ◌≡◌, refl, ◌∙◌, false, Option, some, List, map, Dict, last_for, ok, All, number_eq,
  beq_refl,
}
use immich_adapter.Outside.Formats.{Formats, IsFormats}
use immich_adapter.Outside.ShortUuid.{ShortUuid}
use immich_adapter.Outside.Redis.{Redis, IsRedis}
use immich_adapter.Outside.Client.{Client}
use immich_adapter.Jwt.{Fernet}
use immich_adapter.Sync.EntityType.{SyncEntityType, entity_type_eq}
use immich_adapter.Checkpoint.{Checkpoint, get, fresh}
use immich_adapter.Sync.Stream.{start_cursor}
use immich_adapter.Sync.Generate.{Entry, pass_of}
use immich_adapter.Sync.Routes.{get_session_token, send_sync_ack, loaded}
use immich_adapter.Sync.Routes.Collected.{Streamed, ack_of, IsStorable}
use immich_adapter.Sync.Routes.Acks.{get-send_sync_ack}
use immich_adapter.Sync.Routes.Resume.{loaded-get}

module _ (F : Formats) (laws : IsFormats F) (S : ShortUuid) (K : Option Fernet) {D : Type 0}
    (R : Redis D) (redis : IsRedis R) {W : Type 0} (client : Client W) where
  -- A stream that starts after storable lines were acknowledged, and that can load its checkpoints,
  -- runs the pass of each type with an acknowledged line from the cursor of the last such line.
  pub start_cursor-send_sync_ack :
      (now token owner started : ℕ) (text cursor : String) (lines : List Streamed) (entry : Entry)
      (found : Dict SyncEntityType Checkpoint) (d : D)
      → get_session_token F (some text) ≡ ok token
      → All IsStorable lines
      → last_for entry.2 lines ≡ some cursor
      → (loaded F K R false
          (some token)
          (send_sync_ack F K R now (some text) (map ack_of lines) d).1).0
        ≡ ok found
      → start_cursor (pass_of F S client owner started found entry) ≡ some cursor
  start_cursor-send_sync_ack now token owner started text cursor lines entry found d e h last l =
      let after = (send_sync_ack F K R now (some text) (map ack_of lines) d).1 in
      let known = get-send_sync_ack F laws K R redis now token token text lines entry.2 d e h in
      let stored : get F R token entry.2 after ≡ some (fresh now entry.2 cursor) =
        known.1 ∙ rw (beq_refl token, last) refl in
      rw (loaded-get F K R redis token entry.2 after found l, stored) refl
