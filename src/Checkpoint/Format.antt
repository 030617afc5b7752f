-- ===== src/Checkpoint/Format.antt =====
-- services/checkpoint_store.py: reading back the stored form of a checkpoint.
use immich_adapter.Prelude.{
  String, ◌≡◌, refl, List, [], ◌∷◌, has_pipe, split_pipe, split_pipe_field, split_pipe_whole,
  split_pipe_more, string_eq, if◌then◌else◌, ok, err, checkpoint_data, Bool-cases, Option-cases,
  inl, inr,
}
use immich_adapter.Outside.Formats.{Formats, IsFormats}
use immich_adapter.Sync.EntityType.{SyncEntityType}
use immich_adapter.Checkpoint.{
  Checkpoint, or_empty, if_filled, to_redis_value, from_parts, from_redis_value,
}

module _ (F : Formats) (laws : IsFormats F) where
  -- What is stored for a checkpoint is read back as the checkpoint, with an empty cursor read as no
  -- cursor, exactly when its cursor holds no "|"; otherwise reading it raises CheckpointDataError.
  pub from_redis_value-to_redis_value :
      (c : Checkpoint)
      → from_redis_value F c.entity_type (to_redis_value F c) ≡ (
          if has_pipe (or_empty c.cursor)
          then err checkpoint_data
          else ok (record c { cursor = if_filled (or_empty c.cursor) }))
  unfolding from_redis_value to_redis_value
  from_redis_value-to_redis_value c =
      rw
        (split_pipe_field (F.isoformat c.updated_at) (or_empty c.cursor)
          (laws.time_no_pipe c.updated_at))
        (elim (Bool-cases (has_pipe (or_empty c.cursor))) [
          | inl e ↦ let (a, b, rest, q) = split_pipe_more (or_empty c.cursor) e in rw (e, q) refl
          | inr e ↦
              rw (e, split_pipe_whole (or_empty c.cursor) e)
                (rw (from_parts, laws.read_time c.updated_at))
        ])

module _ (F : Formats) where
  from_parts-type :
      (t : SyncEntityType) (ps : List String) (c : Checkpoint)
      → from_parts F t ps ≡ ok c
      → c.entity_type ≡ t
  unfolding from_parts
  from_parts-type t [] c h = cc
  from_parts-type t (p ∷ []) c h = cc
  from_parts-type t (time ∷ cursor ∷ []) c h = elim (Option-cases (F.fromisoformat time)) [
    | inl e ↦ cc (rw (e, from_parts) at h)
    | inr (at_, e) ↦
        let q : ok (record { entity_type = t; updated_at = at_; cursor = if_filled cursor })
            ≡ ok c =
          rw (e, from_parts) at h in
        cc
  ]
  from_parts-type t (p ∷ q ∷ r ∷ more) c h = cc

  -- A stored value is read as a checkpoint of the type that it is read for.
  pub from_redis_value-type :
      (t : SyncEntityType) (value : String) (c : Checkpoint)
      → from_redis_value F t value ≡ ok c
      → c.entity_type ≡ t
  unfolding from_redis_value
  from_redis_value-type t value c h = from_parts-type t (split_pipe value) c h

  -- An empty value is no checkpoint.
  pub from_redis_value-empty : (t : SyncEntityType) → from_redis_value F t "" ≡ err checkpoint_data
  unfolding from_redis_value from_parts split_pipe
  from_redis_value-empty t = refl
