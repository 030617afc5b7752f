-- ===== src/Sync/Entities.antt =====
-- What a sync stream reads from the Gumnut API and writes to the client: the events and entities of
-- the SDK, the fields of them that the sync code reads, and the lines of the stream. A line stands
-- as the type, model and acknowledgement that it serialises; of a model only the ids are kept, by
-- which the client's tables refer to one another.
use immich_adapter.Prelude.{
  ℕ, String, Option, none, Dict, ◌==◌, string_eq, if◌then◌else◌, Datetime, Float,
}
use immich_adapter.Sync.EntityType.{SyncEntityType}
use immich_adapter.Sync.Ack.{to_ack_string}

-- a value in an event's payload; an int or bool stands as the text that `str` gives
pub data PayloadValue : Type 0 where
  null other : PayloadValue
  text number : String → PayloadValue

-- gumnut's `EventData`; a payload that is no dict is `none`
pub record Event : Type 0 where
  pub event_type : String
  pub entity_type : String
  pub entity_id : String
  pub cursor : String
  pub payload : Option (Dict String PayloadValue)

-- the fields of an asset, beside its metadata, that the sync rows convert; `file_modified_at` is `none`
-- where the asset has no `file_data` either
pub record AssetFields : Type 0 where
  pub local_datetime : Datetime
  pub file_modified_at : Option Datetime
  pub duration : Option Float

-- the fields of an asset's metadata row that the sync rows convert
pub record Metadata : Type 0 where
  pub asset_id : String
  pub original_datetime : Option Datetime
  pub modified_datetime : Option Datetime
  pub exposure_time : Option Float
  pub rating : Option Float

-- An asset with its metadata row, if it has one; an album with its cover; an album
-- membership with its album and asset; a person; a face with its asset and person. A reference is
-- `none` where the field is None, which `model_copy` can make of fields that the SDK never leaves so.
pub data Entity : Type 0 where
  asset : (id : String) → (fields : AssetFields) → (metadata : Option Metadata) → Entity
  album : (id : String) → (cover : Option String) → Entity
  album_asset : (id : String) → (album_id asset_id : Option String) → Entity
  person : (id : String) → Entity
  face : (id : String) → (asset_id person_id : Option String) → Entity

pub entity_id : Entity → String
entity_id (asset id f m) = id
entity_id (album id c) = id
entity_id (album_asset id a b) = id
entity_id (person id) = id
entity_id (face id a p) = id

-- `getattr(entity, name, None)` for the reference fields
unfoldable pub get_attribute : Entity → String → Option String
get_attribute (asset id f m) name = none
get_attribute (album id cover) name = if name == "album_cover_asset_id" then cover else none
get_attribute (album_asset id album_id asset_id) name =
    if name == "album_id" then album_id else if name == "asset_id" then asset_id else none
get_attribute (person id) name = none
get_attribute (face id asset_id person_id) name =
    if name == "person_id" then person_id else if name == "asset_id" then asset_id else none

-- `entity.model_copy(update={name: value})` for a reference field
unfoldable pub set_attribute : Entity → String → Option String → Entity
set_attribute (asset id f m) name v = asset id f m
set_attribute (album id cover) name v =
    if name == "album_cover_asset_id" then album id v else album id cover
set_attribute (album_asset id album_id asset_id) name v =
    if name == "album_id"
    then album_asset id v asset_id
    else if name == "asset_id"
    then album_asset id album_id v
    else album_asset id album_id asset_id
set_attribute (person id) name v = person id
set_attribute (face id asset_id person_id) name v =
    if name == "person_id"
    then face id asset_id v
    else if name == "asset_id"
    then face id v person_id
    else face id asset_id person_id

-- the models that the stream serialises, by their ids
pub data Model : Type 0 where
  empty : Model
  auth_user user user_metadata : (id : ℕ) → Model
  asset_row : (id owner : ℕ) → Model
  exif_row : (asset : ℕ) → Model
  album_row : (id owner : ℕ) → (thumbnail : Option ℕ) → Model
  album_row_v2 : (id : ℕ) → (thumbnail : Option ℕ) → Model
  album_user_row : (album owner : ℕ) → Model
  album_to_asset_row : (album asset : ℕ) → Model
  person_row : (id owner : ℕ) → Model
  face_row : (id asset : ℕ) → (person : Option ℕ) → Model
  asset_delete album_delete person_delete face_delete : (id : ℕ) → Model
  album_to_asset_delete : (album asset : ℕ) → Model

pub record Line : Type 0 where
  pub type : SyncEntityType
  pub model : Model
  pub ack : String

-- `make_sync_event` of routers/api/sync/events.py
unfoldable pub make_sync_event : SyncEntityType → Model → String → Line
make_sync_event t model cursor = record { type = t; model = model; ack = to_ack_string t cursor }
