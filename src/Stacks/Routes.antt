-- ===== src/Stacks/Routes.antt =====
-- routers/api/stacks.py: the routes of stacks.
pub mod Admitted
use immich_adapter.Prelude.{
  ℕ, zero, suc, ◌+◌, String, Bool, true, false, Option, none, some, List, [], ◌∷◌, map, ltb, leb,
  length, if◌then◌else◌, ◌==◌, number_eq, contains, Error, status, http, Result, ok, err, and_then,
  map_ok, Exec, pure, raise, lift, ◌>>=◌,
}
use immich_adapter.Outside.ShortUuid.{ShortUuid}
use immich_adapter.Ids.{Kind, asset, stack, uuid_to}
use immich_adapter.Stacks.{
  Asset, StackRow, StackClient, HydratedStack, StackResponse, build_stack_response, hydrate_stack,
  hydrate_stacks, gather,
}
use immich_adapter.Stacks.Timeline.{or_error}

abbrev pub search_stacks_cap : ℕ
search_stacks_cap = 500

abbrev pub search_stacks_member_budget : ℕ
search_stacks_member_budget = 5000

-- The calls of the routes. `walk` has the rows of all of the caller's stacks, to the end of the pages.
pub record StackRoutes (W : Type 0) : Type 0 where
  pub reads : StackClient W
  pub retrieve_asset : String → Exec W Asset
  pub retrieve_stack : String → Exec W StackRow
  pub walk : Exec W (List StackRow)
  pub create : List String → String → Exec W StackRow
  pub set_cover : String → String → Exec W StackRow
  pub delete : String → Exec W (Unit {0})
  pub remove_assets : String → List String → Exec W (Unit {0})

-- `truncated_by`
pub data Truncated : Type 0 where
  stack_cap member_budget : Truncated

-- The loop of `search_stacks` over the rows, with the number of rows and the members so far: the rows
-- that it admits, and why it ended before the last row.
unfoldable pub admit : ℕ → ℕ → List StackRow → List StackRow × Option Truncated
admit count members [] = ([], none)
admit count members (row ∷ rows) =
    let (more, cut) = admit (suc count) (members + row.asset_count) rows in
    if leb search_stacks_cap count
    then ([], some stack_cap)
    else if leb search_stacks_member_budget members
    then ([], some member_budget)
    else (row ∷ more, cut)

-- `list(dict.fromkeys(ids))`
abbrev pub distinct_from : List ℕ → List ℕ → List ℕ
distinct_from seen [] = []
distinct_from seen (u ∷ us) =
    let rest = distinct_from (u ∷ seen) us in if contains u seen then rest else u ∷ rest

-- `failures[0]`
abbrev pub first_error : List (Result (Unit {0})) → Result (Unit {0})
first_error [] = ok tt
first_error (ok u ∷ rs) = first_error rs
first_error (err e ∷ rs) = err e

-- `except NotFoundError`
abbrev pub or_nothing : {A : Type 0} → Result (Option A) → Result (Option A)
or_nothing (ok a) = ok a
or_nothing (err (status code)) = if code == 404 then ok none else err (status code)
or_nothing (err e) = err e

abbrev pub or_not_found : {A : Type 0} → Option A → Result A
or_not_found none = err (http 404)
or_not_found (some a) = ok a

abbrev pub the_some : {A : Type 0} → List (Option A) → List A
the_some [] = []
the_some (none ∷ os) = the_some os
the_some (some a ∷ os) = a ∷ the_some os

module _ (S : ShortUuid) where
  abbrev pub if_assets : StackResponse → Option StackResponse
  if_assets r = elim r.assets [ [] ↦ none | x ∷ xs ↦ some r ]

  unfoldable pub build_representable_response : Option HydratedStack → Result (Option StackResponse)
  unfolding build_stack_response
  build_representable_response none = ok none
  build_representable_response (some h) = map_ok if_assets (build_stack_response S h)

  abbrev pub represent_all : List (Option HydratedStack) → Result (List StackResponse)
  represent_all [] = ok []
  represent_all (h ∷ hs) =
      and_then (build_representable_response h)
        (λ r. map_ok (λ rs. elim r [ none ↦ rs | some x ↦ x ∷ rs ]) (represent_all hs))

  module _ {W : Type 0} (client : StackRoutes W) where
    -- the reads of `_search_by_primary_asset`
    unfoldable pub stack_of_asset : ℕ → Exec W (Option HydratedStack)
    stack_of_asset primary = do
      a ← client.retrieve_asset (uuid_to S asset primary)
      elim a.stack_id [
        | none ↦ pure none
        | some id ↦ do row ← client.retrieve_stack id; hydrate_stack S client.reads row
      ]

    abbrev pub if_primary : ℕ → Option HydratedStack → Result (List StackResponse)
    if_primary primary none = ok []
    if_primary primary (some h) =
        if h.primary_asset_id == primary then represent_all (some h ∷ []) else ok []

    unfoldable pub search_by_primary_asset : ℕ → Exec W (List StackResponse)
    unfolding stack_of_asset build_representable_response
    search_by_primary_asset primary w =
        let (r, after) = stack_of_asset primary w in
        (and_then (or_nothing r) (if_primary primary), after)

    unfoldable pub search_stacks : Option ℕ → Exec W (List StackResponse)
    unfolding search_by_primary_asset admit
    search_stacks (some primary) = search_by_primary_asset primary
    search_stacks none = do
      rows ← client.walk
      hydrated ← hydrate_stacks S client.reads (admit 0 0 rows).0
      lift (represent_all hydrated)

    -- `_delete`: an exception of the SDK is returned
    unfoldable pub delete_one : String → Exec W (Result (Unit {0}))
    delete_one id w = let (r, after) = client.delete id w in or_error r after

    unfoldable pub delete_stacks : List ℕ → Exec W (Unit {0})
    unfolding delete_one gather
    delete_stacks ids = do
      results ← gather (map (λ u. delete_one (uuid_to S stack u)) (distinct_from [] ids))
      lift (first_error results)

    -- The request's first asset, and the others.
    unfoldable pub create_stack : ℕ → List ℕ → Exec W StackResponse
    create_stack first others = do
      row ← client.create (map (uuid_to S asset) (first ∷ others)) (uuid_to S asset first)
      hydrated ← hydrate_stack S client.reads row
      elim hydrated [ none ↦ raise (http 500) | some h ↦ lift (build_stack_response S h) ]

    abbrev pub respond : StackRow → Exec W StackResponse
    respond row = do
      hydrated ← hydrate_stack S client.reads row
      response ← lift (build_representable_response hydrated)
      lift (or_not_found response)

    unfoldable pub get_stack : ℕ → Exec W StackResponse
    unfolding build_representable_response
    get_stack id = do row ← client.retrieve_stack (uuid_to S stack id); respond row

    unfoldable pub update_stack : ℕ → Option ℕ → Exec W StackResponse
    unfolding build_representable_response
    update_stack id none = do row ← client.retrieve_stack (uuid_to S stack id); respond row
    update_stack id (some primary) = do
      row ← client.set_cover (uuid_to S stack id) (uuid_to S asset primary)
      respond row

    pub delete_stack : ℕ → Exec W (Unit {0})
    delete_stack id = client.delete (uuid_to S stack id)

    pub remove_asset_from_stack : ℕ → ℕ → Exec W (Unit {0})
    remove_asset_from_stack id a =
        client.remove_assets (uuid_to S stack id) (uuid_to S asset a ∷ [])
