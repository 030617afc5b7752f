-- ===== src/Sync/Ack.antt =====
-- The acknowledgement texts: `to_ack_string` of routers/api/sync/events.py and `_parse_ack` of
-- routers/api/sync/routes.py. The log records of both are left out.
pub mod RoundTrip
use immich_adapter.Prelude.{
  String, Option, none, some, List, [], ◌∷◌, ◌⧺◌, split_pipe, ◌==◌, string_eq, if◌then◌else◌,
  Result, ok, err, http,
}
use immich_adapter.Sync.EntityType
use immich_adapter.Sync.EntityType.{SyncEntityType}

unfoldable pub to_ack_string : SyncEntityType → String → String
to_ack_string entity_type cursor = EntityType.value entity_type ⧺ "|" ⧺ cursor ⧺ "|"

-- the part of `_parse_ack` behind `ack.split("|")`
parse_parts : List String → Result (Option (SyncEntityType × String))
parse_parts [] = ok none
parse_parts (p ∷ []) = ok none
parse_parts (p ∷ cursor ∷ _) = elim (EntityType.of_value p) [
  | none ↦ err (http 400)
  | some entity_type ↦ if cursor == "" then ok none else ok (some (entity_type, cursor))
]

unfoldable pub parse_ack : String → Result (Option (SyncEntityType × String))
unfolding parse_parts
parse_ack ack = parse_parts (split_pipe ack)
