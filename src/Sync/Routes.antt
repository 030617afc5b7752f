-- ===== src/Sync/Routes.antt =====
-- routers/api/sync/routes.py: the handlers of the acknowledgements and of the stream, over the two
-- stores in one Redis. Log records are left out.
pub mod Collected
pub mod Frames
pub mod Acks
pub mod Resume
pub mod Resumed
pub mod Reset
use immich_adapter.Prelude.{
  ℕ, String, Bool, true, false, ◌&&◌, Option, none, some, List, [], ◌∷◌, ◌++◌, ◌==◌, string_eq,
  if◌then◌else◌, Dict, insert, Result, ok, err, http, and_then, map_ok, Exec,
}
use immich_adapter.Outside.Formats.{Formats}
use immich_adapter.Outside.ShortUuid.{ShortUuid}
use immich_adapter.Outside.Redis.{Redis}
use immich_adapter.Outside.Client.{Client}
use immich_adapter.Jwt.{Fernet}
use immich_adapter.Checkpoint.{Checkpoint, get_all, set_many, delete_types, delete_all}
use immich_adapter.Session.{get_by_id, update_activity, set_pending_sync_reset}
use immich_adapter.Sync.EntityType.{SyncEntityType, same, entity_type_eq}
use immich_adapter.Sync.RequestType.{SyncRequestType}
use immich_adapter.Sync.Ack.{to_ack_string, parse_ack}
use immich_adapter.Sync.Entities.{Line}
use immich_adapter.Sync.Generate.{User, generate_sync_stream, generate_reset_stream}

-- What the loop over the acknowledgements ends with: a SyncResetV1 was met, or the checkpoints.
pub data Acked : Type 0 where
  reset : Acked
  store : Dict SyncEntityType String → Acked

-- the loop over the acknowledgements
pub collect_acks : List String → Dict SyncEntityType String → Result Acked
collect_acks [] found = ok (store found)
collect_acks (ack ∷ acks) found = elim (parse_ack ack) [
  | err e ↦ err e
  | ok none ↦ collect_acks acks found
  | ok (some (t, cursor)) ↦ elim (same t SyncEntityType.sync_reset_v1) [
    | true ↦ ok reset
    | false ↦ collect_acks acks (insert t cursor found)
  ]
]

-- `{cp.entity_type: cp for cp in checkpoints}`
unfoldable pub checkpoint_map :
    List Checkpoint → Dict SyncEntityType Checkpoint → Dict SyncEntityType Checkpoint
checkpoint_map [] m = m
checkpoint_map (c ∷ cs) m = checkpoint_map cs (insert c.entity_type c m)

-- `SyncAckDto` for each checkpoint with a cursor
ack_dtos : List Checkpoint → List (SyncEntityType × String)
ack_dtos [] = []
ack_dtos (c ∷ cs) =
    let rest = ack_dtos cs in
    elim c.cursor [
      | none ↦ rest
      | some cursor ↦
          if cursor == "" then rest else (c.entity_type, to_ack_string c.entity_type cursor) ∷ rest
    ]

module _ (F : Formats) where
  unfoldable pub get_session_token : Option String → Result ℕ
  get_session_token none = err (http 403)
  get_session_token (some token) =
      if token == ""
      then err (http 403)
      else elim (F.uuid_of token) [ none ↦ err (http 403) | some u ↦ ok u ]

  -- the session of a stream request, where an invalid token is as good as none
  abbrev pub stream_session : Option String → Option ℕ
  stream_session none = none
  stream_session (some token) = if token == "" then none else F.uuid_of token

  module _ (K : Option Fernet) {D : Type 0} (R : Redis D) where
    pub get_sync_ack : Option String → D → Result (List (SyncEntityType × String))
    unfolding ack_dtos
    get_sync_ack token d =
        and_then (get_session_token token) (λ u. map_ok ack_dtos (get_all F R u d))

    -- the effects behind the loop
    pub apply_acked : (now : ℕ) → ℕ → Acked → D → D
    apply_acked now u reset d =
        (update_activity F K R now (F.uuid_text u)
          (delete_all F R u (set_pending_sync_reset F K R (F.uuid_text u) false d).1)).1
    apply_acked now u (store found) d =
        (update_activity F K R now (F.uuid_text u) (set_many F R now u found d)).1

    unfoldable pub send_sync_ack : (now : ℕ) → Option String → List String → Exec D (Unit {0})
    unfolding collect_acks apply_acked
    send_sync_ack now token acks d = elim (get_session_token token) [
      | err e ↦ (err e, d)
      | ok u ↦ elim (collect_acks acks []) [
        | err e ↦ (err e, d)
        | ok acked ↦ (ok tt, apply_acked now u acked d)
      ]
    ]

    pub delete_sync_ack : Option String → Option (List SyncEntityType) → Exec D (Unit {0})
    delete_sync_ack token types d = elim (get_session_token token) [
      | err e ↦ (err e, d)
      | ok u ↦ elim types [
        | none ↦ (ok tt, delete_all F R u d)
        | some ts ↦ (ok tt, delete_types F R u ts d)
      ]
    ]

    -- `session and session.is_pending_sync_reset`
    abbrev pub pending_reset : (down : Bool) → Option ℕ → D → Result Bool
    pending_reset down none d = ok false
    pending_reset down (some u) d = elim (get_by_id F K R down (F.uuid_text u) d) [
      | err e ↦ err e
      | ok none ↦ ok false
      | ok (some s) ↦ ok s.is_pending_sync_reset
    ]

    -- the checkpoints that a stream starts from, and Redis behind a requested reset
    abbrev pub loaded : Bool → Option ℕ → D → Result (Dict SyncEntityType Checkpoint) × D
    loaded wants_reset none d = (ok [], d)
    loaded wants_reset (some u) d =
        if wants_reset
        then (ok [], delete_all F R u d)
        else (map_ok (λ cs. checkpoint_map cs []) (get_all F R u d), d)

    -- `n` is the fuel of a pass, `started` the clock when phase 1 starts, `me` the call of the SDK.
    pub get_sync_stream :
        (S : ShortUuid) {W : Type 0} (client : Client W) (me : Exec W User) (n started : ℕ)
        (down : Bool)
        → Option String
        → List SyncRequestType
        → (wants_reset : Bool) → Exec (D × W) (List Line)
    unfolding checkpoint_map
    get_sync_stream S client me n started down token types wants_reset (d, w) =
        elim (pending_reset down (stream_session token) d) [
          | err e ↦ (err e, (d, w))
          | ok true ↦ (ok generate_reset_stream, (d, w))
          | ok false ↦
              let (result, d') = loaded wants_reset (stream_session token) d in
              elim result [
                | err e ↦ (err e, (d', w))
                | ok checkpoints ↦
                    let (user, w') = me w in
                    elim user [
                      | err e ↦ (err e, (d', w'))
                      | ok u ↦
                          let s =
                            generate_sync_stream F S client n started types checkpoints u w' in
                          (ok s.out, (d', s.world))
                    ]
              ]
        ]
