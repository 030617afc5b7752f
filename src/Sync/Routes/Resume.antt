-- ===== src/Sync/Routes/Resume.antt =====
-- routers/api/sync/routes.py: the checkpoints that a stream starts from.
use immich_adapter.Prelude.{
  ℕ, String, ◌≡◌, refl, ap, ◌∙◌, false, Option, none, some, List, [], ◌∷◌, arith, ◌==◌, string_eq,
  Dict, lookup, insert, lookup-insert, HasDistinctKeys, or_else, or_else-none, Result, ok, err,
  Bool-cases, Option-cases, Result-cases, ok-inj, map_ok-eq-ok, beq_refl, inl, inr,
}
use immich_adapter.Outside.Formats.{Formats}
use immich_adapter.Outside.Redis.{Redis, IsRedis, checkpoints}
use immich_adapter.Sync.EntityType
use immich_adapter.Sync.EntityType.{SyncEntityType, entity_type_eq, of_value_sound}
use immich_adapter.Jwt.{Fernet}
use immich_adapter.Checkpoint.{
  Checkpoint, from_redis_value, collect, read_fields, get, get_all, read_value,
}
use immich_adapter.Checkpoint.Format.{from_redis_value-type, from_redis_value-empty}
use immich_adapter.Sync.Routes.{checkpoint_map, loaded}

module _ (F : Formats) {D : Type 0} (R : Redis D) where
  -- One field: what `get_all` collects of it, and what a single read makes of it.
  read_value-result :
      (t : SyncEntityType) (value : String)
      → read_value F R t (some value)
        ≡ elim (from_redis_value F t value) [ ok c ↦ some c | err e ↦ none ]
  read_value-result t value = elim (Bool-cases (value == "")) [
    | inl e ↦ rw (e, (string_eq.beq_iff value "").0 e, from_redis_value-empty F t) refl
    | inr e ↦ rw e refl
  ]

  lookup_first : (k v : String) (m : Dict String String) → lookup k ((k, v) ∷ m) ≡ some v
  lookup_first k v m = rw (beq_refl k, lookup) refl

  lookup_other :
      (k j v : String) (m : Dict String String)
      → (k == j) ≡ false
      → lookup j ((k, v) ∷ m) ≡ lookup j m
  lookup_other k j v m h = rw (h, lookup) refl

  -- the checkpoints of the further fields, over what was collected of the first
  after_field :
      (more : Dict String String) (cs : List Checkpoint) (m : Dict SyncEntityType Checkpoint)
      (t u : SyncEntityType) (value : String) (r : Result Checkpoint)
      → from_redis_value F t value ≡ r
      → lookup (EntityType.value t) more ≡ none
      → ((m' : Dict SyncEntityType Checkpoint)
          → lookup u (checkpoint_map cs m')
            ≡ or_else (read_value F R u (lookup (EntityType.value u) more)) (lookup u m'))
      → lookup u (checkpoint_map (collect F r cs) m)
        ≡ or_else
            (read_value F R u (lookup (EntityType.value u) ((EntityType.value t, value) ∷ more)))
            (lookup u m)
  unfolding checkpoint_map EntityType.same
  after_field more cs m t u value (ok c) e d ih =
      let same_type : (c.entity_type == u) ≡ (t == u) =
        ap (λ v. v == u) (from_redis_value-type F t value c e) in
      rw (ih (insert c.entity_type c m), lookup-insert c.entity_type u c m, same_type)
        (elim (Bool-cases (t == u)) [
          | inl f ↦
              let g = (entity_type_eq.beq_iff t u).0 f in
              rw
                (
                  f,
                  ← g,
                  d,
                  lookup_first (EntityType.value t) value more,
                  read_value-result t value,
                  e,
                )
                refl
          | inr f ↦ rw (f, lookup_other (EntityType.value t) (EntityType.value u) value more f) refl
        ])
  after_field more cs m t u value (err x) e d ih = rw (ih m) (elim (Bool-cases (t == u)) [
    | inl f ↦
        let g = (entity_type_eq.beq_iff t u).0 f in
        rw (← g, d, lookup_first (EntityType.value t) value more, read_value-result t value, e) refl
    | inr f ↦ rw (lookup_other (EntityType.value t) (EntityType.value u) value more f) refl
  ])

  lookup-read_fields :
      (fields : Dict String String) (cs : List Checkpoint) (m : Dict SyncEntityType Checkpoint)
      (u : SyncEntityType)
      → HasDistinctKeys fields
      → read_fields F fields ≡ ok cs
      → lookup u (checkpoint_map cs m)
        ≡ or_else (read_value F R u (lookup (EntityType.value u) fields)) (lookup u m)
  unfolding read_fields checkpoint_map
  lookup-read_fields [] cs m u d h = rw (← ok-inj h) (ground arith)
  lookup-read_fields ((field, value) ∷ more) cs m u (d, ds) h =
      elim (Option-cases (EntityType.of_value field)) [
        | inl e ↦ cc (rw (e, read_fields) at h)
        | inr (t, e) ↦ elim (Result-cases (read_fields F more)) [
          | inl (cs', f) ↦
              let q : ok (collect F (from_redis_value F t value) cs') ≡ ok cs =
                rw (e, f, read_fields) at h in
              let g = of_value_sound field t e in
              rw (← ok-inj q, ← g)
                (after_field more cs' m t u value (from_redis_value F t value) refl
                  (ap (λ k. lookup k more) g ∙ d) (λ m'. lookup-read_fields more cs' m' u ds f))
          | inr (x, f) ↦ cc (rw (e, f, read_fields) at h)
        ]
      ]

module _ (F : Formats) (K : Option Fernet) {D : Type 0} (R : Redis D) (redis : IsRedis R) where
  -- The checkpoints that a stream without a reset starts from are, type by type, those that single
  -- reads of the session's checkpoints give, wherever they can all be loaded.
  pub loaded-get :
      (token : ℕ) (t : SyncEntityType) (d : D) (found : Dict SyncEntityType Checkpoint)
      → (loaded F K R false (some token) d).0 ≡ ok found
      → lookup t found ≡ get F R token t d
  unfolding get get_all
  loaded-get token t d found h =
      let (cs, e, q) = map_ok-eq-ok _ (get_all F R token d) h in
      rw (← q) (
        lookup-read_fields F R (R.hgetall (checkpoints (F.uuid_text token)) d) cs [] t
          (redis.distinct (checkpoints (F.uuid_text token)) d) e
        ∙ or_else-none _)
