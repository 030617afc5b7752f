-- ===== src/Sync/Fk/Nulled.antt =====
-- routers/api/sync/fk_integrity.py: what `null_deleted_fk_references` makes of the references of an entity.
use immich_adapter.Prelude.{
  String, ◌≡◌, refl, ◌∙◌, Bool, false, ◌&&◌, none, List, [], ◌∷◌, arith, ◌==◌, string_eq,
  if◌then◌else◌, any, All, Bool-cases, inl, inr, beq_refl, fun_ext,
}
use immich_adapter.Sync.Entities.{
  Entity, asset, album, album_asset, person, face, get_attribute, set_attribute,
}
use immich_adapter.Sync.Fk.{
  SyncStreamStats, references_of, is_deleted, null_references, null_deleted_fk_references,
}

get_attribute-set_attribute :
    (e : Entity) (n m : String)
    → get_attribute (set_attribute e n none) m ≡ (if n == m then none else get_attribute e m)
unfolding get_attribute set_attribute
get_attribute-set_attribute (asset id f x) n m = ground arith
get_attribute-set_attribute (album id c) n m = ground (
  arith,
  string_eq.beq_iff n m,
  string_eq.beq_iff n "album_cover_asset_id",
  string_eq.beq_iff m "album_cover_asset_id",
)
get_attribute-set_attribute (album_asset id a b) n m = ground (
  arith,
  string_eq.beq_iff n m,
  string_eq.beq_iff n "album_id",
  string_eq.beq_iff m "album_id",
  string_eq.beq_iff n "asset_id",
  string_eq.beq_iff m "asset_id",
)
get_attribute-set_attribute (person id) n m = ground arith
get_attribute-set_attribute (face id a p) n m = ground (
  arith,
  string_eq.beq_iff n m,
  string_eq.beq_iff n "person_id",
  string_eq.beq_iff m "person_id",
  string_eq.beq_iff n "asset_id",
  string_eq.beq_iff m "asset_id",
)

-- Some reference of that name refers to an entity that was confirmed missing.
abbrev pub names_missing : SyncStreamStats → Entity → String → List (String × String) → Bool
names_missing stats entity name refs =
    any (λ ref. ref.0 == name && is_deleted stats ref.1 (get_attribute entity ref.0)) refs

get_attribute-null_references :
    (stats : SyncStreamStats) (entity : Entity) (refs : List (String × String)) (copy : Entity)
    (name : String)
    → get_attribute (null_references stats entity refs copy) name
      ≡ (if names_missing stats entity name refs then none else get_attribute copy name)
unfolding null_references
get_attribute-null_references stats entity [] copy name = refl
get_attribute-null_references stats entity ((n, t) ∷ refs) copy name =
    elim (Bool-cases (is_deleted stats t (get_attribute entity n))) [
      | inl e ↦
          get_attribute-null_references stats entity refs _ name
          ∙ rw (e, get_attribute-set_attribute copy n name) (ground arith)
      | inr e ↦ get_attribute-null_references stats entity refs _ name ∙ rw e (ground arith)
    ]

-- The references are nulled exactly: a field of the entity is None in the copy if it is a reference
-- of the type to an entity that was confirmed missing, and else it is as it was.
pub get_attribute-null_deleted :
    (type : String) (entity : Entity) (stats : SyncStreamStats) (name : String)
    → get_attribute (null_deleted_fk_references type entity stats) name ≡ (
        if names_missing stats entity name (references_of type)
        then none
        else get_attribute entity name)
unfolding null_deleted_fk_references
get_attribute-null_deleted type entity stats name =
    get_attribute-null_references stats entity (references_of type) entity name

not_missing :
    (stats : SyncStreamStats) (entity : Entity) (refs more : List (String × String))
    → ((name : String)
        → names_missing stats entity name more ≡ false
        → names_missing stats entity name refs ≡ false)
    → All
        (λ ref.
          is_deleted stats ref.1
            (if names_missing stats entity ref.0 more then none else get_attribute entity ref.0)
          ≡ false)
        refs
not_missing stats entity [] more h = tt
not_missing stats entity ((n, t) ∷ refs) more h = (
  elim (Bool-cases (names_missing stats entity n more)) [
    | inl e ↦ rw e refl
    | inr e ↦ rw e (ground (arith, h n e, beq_refl n))
  ],
  not_missing stats entity refs more (λ name e. ground (arith, h name e)),
)

-- No reference of the copy names an entity that was confirmed missing.
pub null_deleted-no_missing :
    (type : String) (entity : Entity) (stats : SyncStreamStats)
    → All
        (λ ref.
          is_deleted stats ref.1
            (get_attribute (null_deleted_fk_references type entity stats) ref.0)
          ≡ false)
        (references_of type)
null_deleted-no_missing type entity stats =
    rw (fun_ext (λ name. get_attribute-null_deleted type entity stats name))
      (not_missing stats entity (references_of type) (references_of type) (λ name e. e))
