-- ===== src/Tests/Sessions.antt =====
-- The theorems of the two stores and of the acknowledgement routes, at concrete inputs.
use immich_adapter.Prelude.{
  last_for, ◌≡◌, refl, true, false, not, ◌&&◌, none, some, List, [], ◌∷◌, ◌++◌, map, Dict, lookup,
  contains, Result, ok, has_pipe, split_pipe, if◌then◌else◌, string_eq, number_eq, nat_eq, All,
}
use immich_adapter.Outside.Redis.{
  session, user_sessions, by_updated_at, at_most, same_key, sadd, zadd,
}
use immich_adapter.Jwt.{encrypt_jwt}
use immich_adapter.Sync.EntityType
use immich_adapter.Sync.EntityType.{SyncEntityType, entity_type_eq}
use immich_adapter.Sync.Ack.{to_ack_string, parse_ack}
use immich_adapter.Sync.Ack.RoundTrip.{parse_ack-to_ack_string, parse_ack-cut}
use immich_adapter.Checkpoint.{
  Checkpoint, fresh, to_redis_value, from_redis_value, get, get_all, read_fields, set_many,
}
use immich_adapter.Session.{
  Session, create, new_session, get_by_id, delete_by_id, get_by_user, get_stale_sessions,
  cleanup_stale_sessions,
}
use immich_adapter.Session.Stored.{get_by_id-create}
use immich_adapter.Session.Deleted.{delete_by_id-erases}
use immich_adapter.Session.Indexes.{
  is_readable, get_by_user-indexes, cleanup_stale_sessions-scores, cleanup_stale_sessions-gone,
}
use immich_adapter.Sync.Routes.{checkpoint_map, get_session_token, send_sync_ack, loaded}
use immich_adapter.Sync.Routes.Collected.{Streamed, ack_of, IsStorable}
use immich_adapter.Sync.Routes.Acks.{get-send_sync_ack, get-send_reset_ack}
use immich_adapter.Sync.Routes.Resume.{loaded-get}
use immich_adapter.Sync.RequestType.{SyncRequestType}
use immich_adapter.Sync.Stream.{start_cursor}
use immich_adapter.Sync.Generate.{pass_of, User}
use immich_adapter.Sync.Routes.{stream_session, pending_reset, get_sync_stream}
use immich_adapter.Sync.Routes.Reset.{get_sync_stream-checkpoints}
use immich_adapter.Sync.Routes.Resumed.{start_cursor-send_sync_ack}
use immich_adapter.Session.{update_activity}
use immich_adapter.Tests.Sync.{client}
use immich_adapter.Tests.Texts.{short, ones, count, formats, formats-IsFormats, clear}
use immich_adapter.Tests.Store.{Memory, memory, empty_memory, memory-IsRedis}

-- two cursors for one type, and one for another
abbrev lines : List Streamed
lines =
    (SyncEntityType.asset_v1, "c1")
    ∷ (SyncEntityType.person_v1, "c2")
    ∷ (SyncEntityType.asset_v1, "c3")
    ∷ []

lines-IsStorable : All IsStorable lines
unfolding EntityType.same EntityType.value has_pipe
lines-IsStorable = ((refl, refl, λ h. cc), ((refl, refl, λ h. cc), ((refl, refl, λ h. cc), tt)))

abbrev stored : Memory
stored = set_many formats memory 7 3 lines empty_memory

abbrev with_pipe : Checkpoint
with_pipe = record { entity_type = SyncEntityType.asset_v1; updated_at = 2; cursor = some "a|b" }

parse_ack-to_ack_string_example :
    parse_ack (to_ack_string SyncEntityType.album_v2 "c7")
    ≡ ok (some (SyncEntityType.album_v2, "c7"))
unfolding has_pipe
parse_ack-to_ack_string_example = parse_ack-to_ack_string SyncEntityType.album_v2 "c7" refl

parse_ack-cut_example :
    parse_ack (to_ack_string SyncEntityType.album_v2 "c|7")
    ≡ ok (some (SyncEntityType.album_v2, "c"))
unfolding has_pipe
parse_ack-cut_example = parse_ack-cut SyncEntityType.album_v2 "c" "7" refl (λ h. cc)

-- a session that is created at time 5 with the token 3
abbrev made : Session
made = new_session formats (some clear) memory 3 5 "jwt" "u1" "l1" "phone" "os" "v1"

abbrev created : Result Session × Memory
created = create formats (some clear) memory 3 5 "jwt" "u1" "l1" "phone" "os" "v1" none empty_memory

created_ok : created.0 ≡ ok made
unfolding create encrypt_jwt
created_ok = refl

get_by_id-create_example :
    get_by_id formats (some clear) memory false (ones 3) created.1 ≡ ok (some made)
get_by_id-create_example =
    get_by_id-create formats formats-IsFormats (some clear) memory memory-IsRedis 3 3 5 "jwt" "u1"
      "l1" "phone" "os" "v1" none empty_memory made created_ok

abbrev kept : Memory
kept = created.1

found : get_by_id formats (some clear) memory false (ones 3) kept ≡ ok (some made)
found =
    get_by_id-create formats formats-IsFormats (some clear) memory memory-IsRedis 3 3 5 "jwt" "u1"
      "l1" "phone" "os" "v1" none empty_memory made created_ok

delete_by_id-erases_example :
    (let after = (delete_by_id formats (some clear) memory false (ones 3) kept).1 in
      ((delete_by_id formats (some clear) memory false (ones 3) kept).0 ≡ ok true)
      × (get_by_id formats (some clear) memory false (ones 3) after ≡ ok none)
      × (get formats memory 3 SyncEntityType.asset_v1 after ≡ none)
      × (contains (ones 3) (memory.smembers (user_sessions "u1") after) ≡ false)
      × (memory.zscore by_updated_at (ones 3) after ≡ none))
delete_by_id-erases_example =
    delete_by_id-erases formats formats-IsFormats (some clear) memory memory-IsRedis 3 3
      SyncEntityType.asset_v1 made kept found

-- a user's index with a token whose session is gone
abbrev orphaned : Memory
orphaned = memory.run (sadd (user_sessions "u1") "gone") kept

get_by_user-indexes_example :
    (let after = (get_by_user formats (some clear) memory "u1" orphaned).1 in
      let named = contains "gone" (memory.smembers (user_sessions "u1") orphaned) in
      (contains "gone" (memory.smembers (user_sessions "u1") after)
        ≡ (named && is_readable formats (some clear) memory "gone" orphaned))
      × (memory.zscore by_updated_at "gone" after ≡ (
          if named && not (is_readable formats (some clear) memory "gone" orphaned)
          then none
          else memory.zscore by_updated_at "gone" orphaned)))
get_by_user-indexes_example =
    get_by_user-indexes formats (some clear) memory memory-IsRedis "u1" "gone" orphaned

cleanup_stale_sessions-scores_example :
    (let result = cleanup_stale_sessions formats (some clear) memory 9 0 kept in
      let score = memory.zscore by_updated_at (ones 3) kept in
      memory.zscore by_updated_at (ones 3) result.1
      ≡ (if not (nat_eq result.0 0) && at_most 9 score then none else score))
cleanup_stale_sessions-scores_example =
    cleanup_stale_sessions-scores formats (some clear) memory 9 0 (ones 3) kept memory-IsRedis

-- an activity index with a token whose session is gone
abbrev expired : Memory
expired = memory.run (zadd by_updated_at "gone" 5) empty_memory

cleanup_stale_sessions-gone_example :
    cleanup_stale_sessions formats (some clear) memory 9 0 expired ≡ (0, expired)
unfolding get_stale_sessions same_key
cleanup_stale_sessions-gone_example =
    cleanup_stale_sessions-gone formats (some clear) memory 9 0 expired (refl, tt)

token_read : get_session_token formats (some "111") ≡ ok 3
unfolding get_session_token count
token_read = refl

get-send_sync_ack_example :
    ((send_sync_ack formats (some clear) memory 7 (some "111") (map ack_of lines) kept).0 ≡ ok tt)
    × (get formats memory 3 SyncEntityType.asset_v1
          (send_sync_ack formats (some clear) memory 7 (some "111") (map ack_of lines) kept).1
        ≡ some (fresh 7 SyncEntityType.asset_v1 "c3"))
unfolding EntityType.same EntityType.value
get-send_sync_ack_example =
    get-send_sync_ack formats formats-IsFormats (some clear) memory memory-IsRedis 7 3 3 "111" lines
      SyncEntityType.asset_v1 kept token_read lines-IsStorable

get-send_reset_ack_example :
    (let acks = map ack_of lines ++ to_ack_string SyncEntityType.sync_reset_v1 "reset" ∷ [] in
      let after = (send_sync_ack formats (some clear) memory 7 (some "111") acks kept).1 in
      ((send_sync_ack formats (some clear) memory 7 (some "111") acks kept).0 ≡ ok tt)
      × (get formats memory 3 SyncEntityType.asset_v1 after ≡ none)
      × (lookup "is_pending_sync_reset" (memory.hgetall (session (ones 3)) after) ≡ (
          if memory.exists (session (ones 3)) kept
          then some "0"
          else lookup "is_pending_sync_reset" (memory.hgetall (session (ones 3)) kept))))
unfolding has_pipe
get-send_reset_ack_example =
    get-send_reset_ack formats formats-IsFormats (some clear) memory memory-IsRedis 7 3 3 "111"
      "reset" lines [] SyncEntityType.asset_v1 kept token_read lines-IsStorable refl (λ h. cc)

abbrev loaded_checkpoints : Dict SyncEntityType Checkpoint
loaded_checkpoints =
    (SyncEntityType.asset_v1, fresh 7 SyncEntityType.asset_v1 "c3")
    ∷ (SyncEntityType.person_v1, fresh 7 SyncEntityType.person_v1 "c2")
    ∷ []

loaded_ok : (loaded formats (some clear) memory false (some 3) stored).0 ≡ ok loaded_checkpoints
unfolding checkpoint_map get_all read_fields set_many from_redis_value to_redis_value split_pipe
    EntityType.of_value EntityType.same EntityType.value same_key ones count
loaded_ok = refl

loaded-get_example :
    lookup SyncEntityType.asset_v1 loaded_checkpoints
    ≡ get formats memory 3 SyncEntityType.asset_v1 stored
loaded-get_example =
    loaded-get formats (some clear) memory memory-IsRedis 3 SyncEntityType.asset_v1 stored
      loaded_checkpoints loaded_ok

abbrev acked : Memory
acked = (send_sync_ack formats (some clear) memory 7 (some "111") (map ack_of lines) empty_memory).1

loads_after_ack :
    (loaded formats (some clear) memory false (some 3) acked).0 ≡ ok loaded_checkpoints
unfolding send_sync_ack get_session_token parse_ack to_ack_string update_activity checkpoint_map
    get_all read_fields set_many from_redis_value to_redis_value split_pipe EntityType.of_value
    EntityType.same EntityType.value same_key ones count
loads_after_ack = refl

last_asset : last_for SyncEntityType.asset_v1 lines ≡ some "c3"
unfolding EntityType.same EntityType.value
last_asset = refl

start_cursor-send_sync_ack_example :
    start_cursor (
      pass_of formats short client 1 9 loaded_checkpoints
        (SyncRequestType.assets_v1, "asset", SyncEntityType.asset_v1))
    ≡ some "c3"
start_cursor-send_sync_ack_example =
    start_cursor-send_sync_ack formats formats-IsFormats short (some clear) memory memory-IsRedis
      client 7 3 1 9 "111" "c3" lines (SyncRequestType.assets_v1, "asset", SyncEntityType.asset_v1)
      loaded_checkpoints empty_memory token_read lines-IsStorable last_asset loads_after_ack

abbrev user : User
user = record { id = "intuser_1"; updated_at = none }

session_read : stream_session formats (some "111") ≡ some 3
unfolding count
session_read = refl

none_pending : pending_reset formats (some clear) memory false (some 3) stored ≡ ok false
unfolding get_by_id set_many same_key ones count
none_pending = refl

get_sync_stream-checkpoints_example :
    get formats memory 3 SyncEntityType.asset_v1
      (get_sync_stream formats
        (some clear)
        memory
        short
        client
        (λ w. (ok user, w))
        3
        9
        false
        (some "111")
        []
        true
        (stored, 0)).1.0
    ≡ none
get_sync_stream-checkpoints_example =
    get_sync_stream-checkpoints formats formats-IsFormats (some clear) memory memory-IsRedis short
      client (λ w. (ok user, w)) 3 9 false "111" 3 3 [] true false SyncEntityType.asset_v1 stored 0
      session_read none_pending
