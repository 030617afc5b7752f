-- ===== src/Stacks.antt =====
-- routers/utils/stack_conversion.py and routers/utils/concurrency.py: stacks of burst photos, their
-- members, and the member that is shown for a stack.
pub mod Cover
pub mod Timeline
pub mod Routes
use immich_adapter.Prelude.{
  ℕ, String, Bool, true, false, not, ◌||◌, Option, none, some, List, [], ◌∷◌, ◌++◌, map, find, keep,
  ltb, if◌then◌else◌, ◌==◌, string_eq, number_eq, or_else, Result, ok, err, and_then, map_ok, Exec,
  pure, lift, ◌>>=◌,
}
use immich_adapter.Ids.{Kind, asset, stack, safe_uuid_from}
use immich_adapter.Outside.ShortUuid.{ShortUuid}

-- gumnut's `AssetResponse`: the fields that stacks read. `captured` is the capture time in UTC, as
-- `to_actual_utc(resolve_capture_datetime(a))` gives it.
pub record Asset : Type 0 where
  pub id : String
  pub stack_id : Option String
  pub trashed_at : Option ℕ
  pub captured : ℕ

-- `GumnutStackRow`
pub record StackRow : Type 0 where
  pub id : String
  pub asset_count : ℕ
  pub primary_asset_id : Option String

pub record HydratedStack : Type 0 where
  pub id : ℕ
  pub primary_asset_id : ℕ
  pub members : List Asset
  pub live_asset_count : ℕ

-- The reads that the stack code makes of the Gumnut API, each to the end of its pages: the stack rows
-- of a chunk of ids, and the members of a stack in capture order, all of them or the live ones.
pub record StackClient (W : Type 0) : Type 0 where
  pub list_stacks : List String → Exec W (List StackRow)
  pub fetch_stack_members : String → Exec W (List Asset)
  pub fetch_live_stack_members : String → Exec W (List Asset)

abbrev pub is_live : Asset → Bool
is_live a = elim a.trashed_at [ none ↦ true | some t ↦ false ]

-- the pinned cover, where it is among the members
abbrev pub pinned : StackRow → List Asset → Option Asset
pinned row members = elim row.primary_asset_id [
  | none ↦ none
  | some id ↦ find (λ m. m.id == id) members
]

unfoldable pub resolve_effective_primary : StackRow → List Asset → Option Asset
resolve_effective_primary row [] = none
resolve_effective_primary row (m ∷ ms) =
    or_else (pinned row (m ∷ ms)) (or_else (find is_live (m ∷ ms)) (some m))

-- `gather_with_concurrency`, run in the order of its list: every call is made, also after one has
-- raised, and the first exception is the result's.
unfoldable pub gather : {W A : Type 0} → List (Exec W A) → Exec W (List A)
gather [] w = (ok [], w)
gather (c ∷ cs) w =
    let (r, after) = c w in
    let (rs, last) = gather cs after in (and_then r (λ a. map_ok (λ more. a ∷ more) rs), last)

-- `sorted(xs, key=...)` for the order of the keys, as a stable sort
abbrev pub sort_in {ℓ} : {A : Type ℓ} → (A → A → Bool) → A → List A → List A
sort_in le x [] = x ∷ []
sort_in le x (y ∷ ys) = let rest = sort_in le x ys in if le x y then x ∷ y ∷ ys else y ∷ rest

abbrev pub sorted {ℓ} : {A : Type ℓ} → (A → A → Bool) → List A → List A
sorted le [] = []
sorted le (x ∷ xs) = sort_in le x (sorted le xs)

-- Immich's `StackResponseDto`; its assets stand as their ids.
pub record StackResponse : Type 0 where
  pub id : ℕ
  pub primary_asset_id : ℕ
  pub assets : List ℕ

-- Immich's `AssetStackResponseDto`
pub record AssetStack : Type 0 where
  pub id : ℕ
  pub primary_asset_id : ℕ
  pub asset_count : ℕ

abbrev pub all_ok : {A B : Type 0} → (A → Result B) → List A → Result (List B)
all_ok f [] = ok []
all_ok f (x ∷ xs) = and_then (f x) (λ y. map_ok (λ ys. y ∷ ys) (all_ok f xs))

-- the order of the key `a.id != primary`
abbrev pub primary_first : ℕ → ℕ → ℕ → Bool
primary_first primary a b = a == primary || not (b == primary)

unfoldable pub build_asset_stack_summary : Option HydratedStack → Option AssetStack
build_asset_stack_summary none = none
build_asset_stack_summary (some h) =
    if ltb h.live_asset_count 2
    then none
    else some (record {
      id = h.id;
      primary_asset_id = h.primary_asset_id;
      asset_count = h.live_asset_count;
    })

module _ (S : ShortUuid) where
  unfoldable pub build_stack_response : HydratedStack → Result StackResponse
  build_stack_response h =
      map_ok
        (λ ids. record {
          id = h.id;
          primary_asset_id = h.primary_asset_id;
          assets = sorted (primary_first h.primary_asset_id) ids;
        })
        (all_ok (λ m. safe_uuid_from S asset m.id) (keep is_live h.members))

  module _ {W : Type 0} (client : StackClient W) where
    unfoldable pub hydrate_stack : StackRow → Exec W (Option HydratedStack)
    hydrate_stack row = do
      members ← client.fetch_stack_members row.id
      elim (resolve_effective_primary row members) [
        | none ↦ pure none
        | some primary ↦ do
          id ← lift (safe_uuid_from S stack row.id)
          primary_id ← lift (safe_uuid_from S asset primary.id)
          pure (
              some (record {
                id = id;
                primary_asset_id = primary_id;
                members = members;
                live_asset_count = row.asset_count;
              }))
      ]

    unfoldable pub hydrate_stacks : List StackRow → Exec W (List (Option HydratedStack))
    unfolding hydrate_stack gather
    hydrate_stacks rows = gather (map hydrate_stack rows)
