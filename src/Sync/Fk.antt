-- ===== src/Sync/Fk.antt =====
-- routers/api/sync/fk_integrity.py: payload overrides, the references of an entity to others, and
-- the statistics of a stream, which decide what is nulled. Log records are left out.
pub mod Nulled
use immich_adapter.Prelude.{
  ℕ, ◌+◌, String, Bool, true, false, not, ◌&&◌, Option, none, some, List, [], ◌∷◌, ◌++◌, ◌==◌,
  string_eq, if◌then◌else◌, Dict, lookup, insert, contains, strip, any, is_some,
}
use immich_adapter.Sync.EntityType
use immich_adapter.Sync.EntityType.{SyncEntityType, entity_type_eq}
use immich_adapter.Sync.Entities.{
  Event, PayloadValue, null, other, text, number, Entity, get_attribute, set_attribute,
}
use immich_adapter.Checkpoint.{Checkpoint}

-- the reference fields of an entity type, each with the type that it refers to
abbrev pub fk_references : Dict String (List (String × String))
fk_references =
    ("face", ("person_id", "person") ∷ ("asset_id", "asset") ∷ [])
    ∷ ("album_asset", ("album_id", "album") ∷ ("asset_id", "asset") ∷ [])
    ∷ ("album", ("album_cover_asset_id", "asset") ∷ [])
    ∷ []

pub record PayloadFkOverride : Type 0 where
  pub event_type : String
  pub payload_key : String
  pub referenced_type : String

abbrev pub payload_fk_overrides : Dict String (List PayloadFkOverride)
payload_fk_overrides =
    (
      "face",
      record { event_type = "face_updated"; payload_key = "person_id"; referenced_type = "person" }
          ∷ [],
    )
    ∷ (
      "album",
      record {
        event_type = "album_updated";
        payload_key = "album_cover_asset_id";
        referenced_type = "asset";
      }
          ∷ [],
    )
    ∷ []

abbrev pub gumnut_type_to_sync_types : Dict String (List SyncEntityType)
gumnut_type_to_sync_types =
    ("asset", SyncEntityType.asset_v1 ∷ SyncEntityType.asset_v2 ∷ [])
    ∷ (
      "album",
      SyncEntityType.album_v1 ∷ SyncEntityType.album_v2 ∷ SyncEntityType.album_user_v1 ∷ [],
    )
    ∷ ("album_asset", SyncEntityType.album_to_asset_v1 ∷ [])
    ∷ ("metadata", SyncEntityType.asset_exif_v1 ∷ [])
    ∷ ("person", SyncEntityType.person_v1 ∷ [])
    ∷ ("face", SyncEntityType.asset_face_v1 ∷ SyncEntityType.asset_face_v2 ∷ [])
    ∷ []

-- (should_apply, value) for one value of a payload, by the case of the value
abbrev override_value : Option PayloadValue → Bool × Option String
override_value none = (false, none)
override_value (some null) = (true, none)
override_value (some (text s)) =
    let value = strip s in if value == "" then (false, none) else (true, some value)
override_value (some (number s)) = (false, none)
override_value (some other) = (false, none)

unfoldable pub payload_override : Dict String PayloadValue → String → Bool × Option String
payload_override payload key = override_value (lookup key payload)

pub record SyncStreamStats : Type 0 where
  pub streamed_ids : Dict String (List String)
  pub not_found_ids : Dict String (List String)
  pub entity_not_found_skips : Dict String ℕ
  pub delete_event_skips : ℕ
  pub buffered_deletes : ℕ
  pub fk_warnings : ℕ

abbrev pub no_stats : SyncStreamStats
no_stats = record {
  streamed_ids = [];
  not_found_ids = [];
  entity_not_found_skips = [];
  delete_event_skips = 0;
  buffered_deletes = 0;
  fk_warnings = 0;
}

-- `sets.get(type, set())`
abbrev pub ids_of : String → Dict String (List String) → List String
ids_of type sets = elim (lookup type sets) [ none ↦ [] | some ids ↦ ids ]

-- `sets[type].update(ids)` of a defaultdict of sets
abbrev pub add_ids : String → List String → Dict String (List String) → Dict String (List String)
add_ids type ids sets = insert type (ids ++ ids_of type sets) sets

abbrev pub references_of : String → List (String × String)
references_of type = elim (lookup type fk_references) [ none ↦ [] | some refs ↦ refs ]

-- `any(t in checkpoint_map for t in ref_sync_types)`, false for a type that is not in the table
pub has_checkpoint : String → Dict SyncEntityType Checkpoint → Bool
has_checkpoint ref_type checkpoints = elim (lookup ref_type gumnut_type_to_sync_types) [
  | none ↦ false
  | some types ↦ any (λ t. is_some (lookup t checkpoints)) types
]

-- whether one reference of an entity is warned about
pub unseen_reference :
    SyncStreamStats → Dict SyncEntityType Checkpoint → String → Option String → Bool
unfolding has_checkpoint
unseen_reference stats checkpoints ref_type none = false
unseen_reference stats checkpoints ref_type (some ref_id) =
    not (has_checkpoint ref_type checkpoints)
    && not (contains ref_id (ids_of ref_type stats.streamed_ids))

-- the loop over the references in `check_fk_references`
check_references :
    Entity
    → Dict SyncEntityType Checkpoint
    → List (String × String)
    → SyncStreamStats
    → SyncStreamStats
check_references entity checkpoints [] stats = stats
check_references entity checkpoints ((name, ref_type) ∷ refs) stats =
    check_references entity checkpoints refs (
      if unseen_reference stats checkpoints ref_type (get_attribute entity name)
      then record stats { fk_warnings = stats.fk_warnings + 1 }
      else stats)

pub check_fk_references :
    String → Entity → Dict SyncEntityType Checkpoint → SyncStreamStats → SyncStreamStats
unfolding check_references unseen_reference
check_fk_references type entity checkpoints stats =
    check_references entity checkpoints (references_of type) stats

-- whether a reference names an entity that was confirmed missing
abbrev pub is_deleted : SyncStreamStats → String → Option String → Bool
is_deleted stats ref_type none = false
is_deleted stats ref_type (some ref_id) = contains ref_id (ids_of ref_type stats.not_found_ids)

-- The loop over the references in `null_deleted_fk_references`. The fields are all read from the
-- entity as it came, and the updates are written to a copy at the end.
null_references : SyncStreamStats → Entity → List (String × String) → Entity → Entity
null_references stats entity [] copy = copy
null_references stats entity ((name, ref_type) ∷ refs) copy = null_references stats entity refs (
    if is_deleted stats ref_type (get_attribute entity name)
    then set_attribute copy name none
    else copy)

unfoldable pub null_deleted_fk_references : String → Entity → SyncStreamStats → Entity
unfolding null_references
null_deleted_fk_references type entity stats =
    null_references stats entity (references_of type) entity

-- the id that one override takes from one event
pub override_ref : Event → PayloadFkOverride → Option String
override_ref event o = elim event.payload [
  | none ↦ none
  | some payload ↦
      if event.event_type == o.event_type then (payload_override payload o.payload_key).1 else none
]

add_override_refs :
    Event → List PayloadFkOverride → Dict String (List String) → Dict String (List String)
add_override_refs event [] refs = refs
add_override_refs event (o ∷ os) refs = add_override_refs event os (elim (override_ref event o) [
  | none ↦ refs
  | some id ↦ add_ids o.referenced_type (id ∷ []) refs
])

collect_refs :
    List PayloadFkOverride → List Event → Dict String (List String) → Dict String (List String)
collect_refs os [] refs = refs
collect_refs os (event ∷ events) refs = collect_refs os events (add_override_refs event os refs)

pub extract_payload_fk_refs : String → List Event → Dict String (List String)
unfolding collect_refs add_override_refs override_ref
extract_payload_fk_refs type events = elim (lookup type payload_fk_overrides) [
  | none ↦ []
  | some os ↦ collect_refs os events []
]
