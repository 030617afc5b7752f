-- ===== src/Tests/Sync.antt =====
-- The theorems of the ids and of the sync stream, at concrete inputs.
use immich_adapter.Prelude.{
  ℕ, String, ◌≡◌, ◌≢◌, refl, true, false, Option, none, some, List, [], ◌∷◌, Dict, Result, ok, err,
  Error, fuel, transport, Raises, string_eq, after_prefix, arith,
}
use immich_adapter.Outside.Client.{Client, EventsPage}
use immich_adapter.Ids.{safe_uuid_from, safe_uuid_from_gumnut_id, uuid_to_gumnut_id}
use immich_adapter.Ids.Kinds.{safe_uuid-uuid_to}
use immich_adapter.Sync.EntityType
use immich_adapter.Sync.EntityType.{SyncEntityType, entity_type_eq}
use immich_adapter.Sync.RequestType.{SyncRequestType}
use immich_adapter.Sync.Ack.{to_ack_string}
use immich_adapter.Sync.Entities.{
  Line, Event, set_attribute, Entity, Model, get_attribute, make_sync_event,
}
use immich_adapter.Sync.Convert.{convert_entity, convert_entity_to_sync_event}
use immich_adapter.Sync.Convert.Nulled.{convert_entity-null_deleted}
use immich_adapter.Sync.Convert.Persons.{person_of}
use immich_adapter.Sync.Stream.Causal.{face_created-no_person}
use immich_adapter.Sync.Deletes.{make_delete_sync_event}
use immich_adapter.Sync.Deletes.Made.{IsMade, make_delete_sync_event-IsMade}
use immich_adapter.Sync.Fk.{SyncStreamStats, no_stats, null_deleted_fk_references}
use immich_adapter.Sync.Fk.Nulled.{get_attribute-null_deleted}
use immich_adapter.Sync.Fetch.Raises.{ClientRaises}
use immich_adapter.Sync.Overrides.{apply_overrides}
use immich_adapter.Sync.Stream.{
  prepared, State, is_delete, Pass, Delete, process_events, stream_entity_type,
}
use immich_adapter.Sync.Stream.Complete.{acks_of, process_events-acks}
use immich_adapter.Sync.Stream.Ends.{Advances, stream_entity_type-Raises}
use immich_adapter.Sync.DeleteBuffer.{delete_type_order, yield_buffered_deletes}
use immich_adapter.Sync.DeleteBuffer.Order.{by_types, yield_buffered_deletes-eq-by_types}
use immich_adapter.Sync.Generate.{User, sync_type_order, stream_body, initial, generate_sync_stream}
use immich_adapter.Sync.Generate.Passes.{are_apart, sync_type_order-apart}
use immich_adapter.Sync.Generate.Phases.{Written, generate_sync_stream-Written}
use immich_adapter.Tests.Texts.{count, formats, short, short-IsShortUuid}

safe_uuid-uuid_to_example :
    safe_uuid_from_gumnut_id short (uuid_to_gumnut_id short 4 "album") "album" ≡ ok 4
safe_uuid-uuid_to_example = safe_uuid-uuid_to short short-IsShortUuid 4 "album"

abbrev event_of : String → String → String → Event
event_of type id cursor = record {
  event_type = type;
  entity_type = "person";
  entity_id = id;
  cursor = cursor;
  payload = none;
}

abbrev created : Event
created = event_of "person_created" "person_11" "c1"

abbrev removed : Event
removed = event_of "person_deleted" "person_111" "c2"

abbrev removal : Delete
removal = (
  make_sync_event SyncEntityType.person_delete_v1 (Model.person_delete 3) "c2",
  SyncEntityType.person_delete_v1,
)

make_delete_sync_event-IsMade_example : IsMade removed removal
unfolding make_delete_sync_event safe_uuid_from after_prefix count make_sync_event
make_delete_sync_event-IsMade_example = make_delete_sync_event-IsMade short removed removal refl

-- a person created on the first page, another deleted on the second
abbrev pub page_at : Option String → Result EventsPage
page_at none = ok (record { events = created ∷ []; has_more = true })
page_at (some c) = ok (record { events = removed ∷ []; has_more = false })

abbrev pub client : Client ℕ
client = record {
  get_events = λ q w. (page_at q.after_cursor, w);
  list_assets = λ all ids w. (ok [], w);
  list_albums = λ ids w. (ok [], w);
  list_people = λ ids w. (ok (Entity.person "person_11" ∷ []), w);
  list_faces = λ ids w. (err transport, w);
  list_album_assets = λ ids w. (ok [], w);
}

abbrev NotFuel : Error → Type 0
NotFuel e = e ≢ fuel

page_at-Raises : (cursor : Option String) → Raises NotFuel (page_at cursor)
page_at-Raises none = tt
page_at-Raises (some c) = tt

client-Raises : ClientRaises NotFuel client
client-Raises = record {
  get_events = λ q w. page_at-Raises q.after_cursor;
  list_assets = λ all ids w. tt;
  list_albums = λ ids w. tt;
  list_people = λ ids w. tt;
  list_faces = λ ids w. λ h. cc;
  list_album_assets = λ ids w. tt;
}

abbrev pass : Pass
pass = record {
  gumnut_type = "person";
  sync_type = SyncEntityType.person_v1;
  owner = 1;
  started_at = 9;
  checkpoints = [];
  buffered = true;
  emit_deletes = true;
}

abbrev left : Option String → ℕ
left none = 1
left (some c) = 0

client-Advances : Advances short client pass left
client-Advances none w page event events h f g = omega arith
client-Advances (some c) w page event events h f g = cc

abbrev start : State ℕ
start = record { world = 0; out = []; stats = no_stats; deletes = [] }

stream_entity_type-Raises_example : Raises NotFuel (stream_entity_type short client 2 pass start).0
stream_entity_type-Raises_example =
    stream_entity_type-Raises NotFuel (λ h. cc) (λ h. cc) (λ h. cc) short client client-Raises pass
      left client-Advances 2 start (omega arith)

abbrev fetched : Dict String Entity
fetched = ("person_11", Entity.person "person_11") ∷ []

ran : (process_events short client pass fetched (created ∷ removed ∷ []) start).0 ≡ ok tt
unfolding process_events is_delete make_delete_sync_event convert_entity_to_sync_event
    null_deleted_fk_references apply_overrides get_attribute set_attribute safe_uuid_from
    after_prefix count EntityType.same EntityType.value
ran = refl

process_events-acks_example :
    acks_of (process_events short client pass fetched (created ∷ removed ∷ []) start).1
    ≡ "PersonV1|c1|" ∷ []
unfolding is_delete to_ack_string EntityType.value
process_events-acks_example =
    process_events-acks short client pass refl fetched (created ∷ removed ∷ []) start ran

abbrev buffer : List Delete
buffer =
    (
      make_sync_event SyncEntityType.asset_delete_v1 (Model.asset_delete 1) "c1",
      SyncEntityType.asset_delete_v1,
    )
    ∷ (
      make_sync_event SyncEntityType.asset_face_delete_v1 (Model.face_delete 2) "c2",
      SyncEntityType.asset_face_delete_v1,
    )
    ∷ []

yield_buffered_deletes-eq-by_types_example :
    yield_buffered_deletes buffer ≡ by_types delete_type_order buffer
unfolding EntityType.same EntityType.value
yield_buffered_deletes-eq-by_types_example =
    yield_buffered_deletes-eq-by_types buffer (refl, (refl, tt))

abbrev requested : List SyncRequestType
requested = SyncRequestType.people_v1 ∷ SyncRequestType.assets_v1 ∷ SyncRequestType.assets_v2 ∷ []

sync_type_order-apart_example : are_apart requested sync_type_order ≡ true
sync_type_order-apart_example = sync_type_order-apart requested

abbrev user : User
user = record { id = "intuser_1"; updated_at = none }

generate_sync_stream-Written_example :
    Written
      (stream_body formats short client 3 9 requested [] user (initial formats short client 0)).0
      (generate_sync_stream formats short client 3 9 requested [] user 0)
generate_sync_stream-Written_example =
    generate_sync_stream-Written formats short client 3 9 requested [] user 0

-- the person of a face was found missing
abbrev face : Entity
face = Entity.face "face_1" (some "asset_1") (some "person_1")

abbrev missing : SyncStreamStats
missing = record no_stats { not_found_ids = ("person", "person_1" ∷ []) ∷ [] }

get_attribute-null_deleted_example :
    get_attribute (null_deleted_fk_references "face" face missing) "person_id" ≡ none
unfolding get_attribute
get_attribute-null_deleted_example = get_attribute-null_deleted "face" face missing "person_id"

abbrev letters : List String
letters = "a" ∷ "b" ∷ "c" ∷ []

abbrev gone : SyncStreamStats
gone = record no_stats { not_found_ids = ("asset", "asset_1" ∷ []) ∷ [] }

convert_entity-null_deleted_example :
    (e : Error) × (convert_entity short "album_asset"
        (null_deleted_fk_references "album_asset"
          (Entity.album_asset "album_asset_1" (some "album_1") (some "asset_1"))
          gone)
        1
        SyncEntityType.album_to_asset_v1
      ≡ err e)
convert_entity-null_deleted_example =
    convert_entity-null_deleted short "album_asset_1" "asset_1" (some "album_1") gone 1
      SyncEntityType.album_to_asset_v1 refl

abbrev face_pass : Pass
face_pass = record pass { gumnut_type = "face"; sync_type = SyncEntityType.asset_face_v1 }

abbrev face_created : Event
face_created = event_of "face_created" "face_1" "c4"

abbrev face_line : Line
face_line = make_sync_event SyncEntityType.asset_face_v1 (Model.face_row 1 1 none) "c4"

face_converted :
    convert_entity_to_sync_event short face_pass.gumnut_type
      (prepared short client face_pass face_created face no_stats)
      1
      "c4"
      SyncEntityType.asset_face_v1
    ≡ ok face_line
unfolding convert_entity_to_sync_event null_deleted_fk_references apply_overrides get_attribute
    set_attribute safe_uuid_from after_prefix count EntityType.same EntityType.value
face_converted = refl

face_created-no_person_example : person_of face_line.model ≡ none
unfolding EntityType.same EntityType.value
face_created-no_person_example =
    face_created-no_person short client face_pass face_created face no_stats face_line refl refl
      face_converted
