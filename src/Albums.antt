-- ===== src/Albums.antt =====
-- routers/api/albums.py: adding assets to albums and removing them.
pub mod Answers
pub mod Budget
use immich_adapter.Prelude.{
  ℕ, ◌+◌, ◌-◌, ◌*◌, ◌/◌, String, Bool, true, false, Option, none, some, List, [], ◌∷◌, ◌++◌, map,
  length, ltb, if◌then◌else◌, ◌==◌, string_eq, number_eq, contains, Dict, lookup, insert, Result,
  ok, err, Exec, pure, raise, http, ◌>>=◌,
}
use immich_adapter.Outside.ShortUuid.{ShortUuid}
use immich_adapter.Ids.{Kind, album, asset, uuid_to}
use immich_adapter.Stacks.{gather}
use immich_adapter.Sync.Fetch.{max_bulk_ids, batched}
use immich_adapter.Bulk.{
  Reason, duplicate, not_found, unknown, Outcome, success, failed, call_chunk,
  chunked_per_item_bulk,
}

abbrev pub bulk_fanout_concurrency_limit : ℕ
bulk_fanout_concurrency_limit = 10

-- what the API answers to an addition of assets to an album
pub record Added : Type 0 where
  pub added_assets : List String
  pub duplicate_assets : List String
  pub not_found_assets : List String

-- `client.albums.assets_associations`: the album's id, and the assets' ids
pub record AlbumClient (W : Type 0) : Type 0 where
  pub add : String → List String → Exec W Added
  pub remove : String → List String → Exec W (Unit {0})

-- `BulkIdResponseDto`
pub record BulkIdResponse : Type 0 where
  pub id : ℕ
  pub is_success : Bool
  pub error : Option Reason

-- `errors_by_uuid`
abbrev pub put_errors : List ℕ → Reason → Dict ℕ Reason → Dict ℕ Reason
put_errors [] reason errors = errors
put_errors (u ∷ uuids) reason errors = put_errors uuids reason (insert u reason errors)

abbrev pub errors_of : {A : Type 0} → List (Outcome A) → Dict ℕ Reason → Dict ℕ Reason
errors_of [] errors = errors
errors_of (success uuids a ∷ os) errors = errors_of os errors
errors_of (failed uuids reason ∷ os) errors = errors_of os (put_errors uuids reason errors)

-- the union of a part of all answers
abbrev pub gathered : (Added → List String) → List (Outcome Added) → List String
gathered part [] = []
gathered part (success uuids a ∷ os) = part a ++ gathered part os
gathered part (failed uuids reason ∷ os) = gathered part os

abbrev pub refused : ℕ → Reason → BulkIdResponse
refused u reason = record { id = u; is_success = false; error = some reason }

abbrev pub accepted : ℕ → BulkIdResponse
accepted u = record { id = u; is_success = true; error = none }

-- what a chunk's answer makes of the error so far
abbrev pub with_missing : Added → Option Reason → Option Reason
with_missing a found = elim a.not_found_assets [ [] ↦ found | x ∷ xs ↦ some not_found ]

abbrev pub first_some : List (Option Reason) → Option Reason
first_some [] = none
first_some (none ∷ os) = first_some os
first_some (some reason ∷ os) = some reason

abbrev pub chunks_per_album : List ℕ → ℕ
chunks_per_album assets = (length assets + max_bulk_ids - 1) / max_bulk_ids

module _ (S : ShortUuid) where
  -- the entry of an asset in the answer to an addition
  unfoldable pub added_result : List (Outcome Added) → ℕ → BulkIdResponse
  added_result os u = elim (lookup u (errors_of os [])) [
    | some reason ↦ refused u reason
    | none ↦
        if contains (uuid_to S asset u) (gathered (λ a. a.added_assets) os)
        then accepted u
        else if contains (uuid_to S asset u) (gathered (λ a. a.duplicate_assets) os)
        then refused u duplicate
        else if contains (uuid_to S asset u) (gathered (λ a. a.not_found_assets) os)
        then refused u not_found
        else refused u unknown
  ]

  unfoldable pub removed_result : List (Outcome (Unit {0})) → ℕ → BulkIdResponse
  removed_result os u = elim (lookup u (errors_of os [])) [
    | some reason ↦ refused u reason
    | none ↦ accepted u
  ]

  module _ {W : Type 0} (client : AlbumClient W) where
    unfoldable pub add_assets_to_album : ℕ → List ℕ → Exec W (List BulkIdResponse)
    unfolding added_result chunked_per_item_bulk
    add_assets_to_album id ids = do
      os ← chunked_per_item_bulk S (client.add (uuid_to S album id)) ids
      pure (map (added_result os) ids)

    unfoldable pub remove_asset_from_album : ℕ → List ℕ → Exec W (List BulkIdResponse)
    unfolding removed_result chunked_per_item_bulk
    remove_asset_from_album id ids = do
      os ← chunked_per_item_bulk S (client.remove (uuid_to S album id)) ids
      pure (map (removed_result os) ids)

    -- the loop of `_add_assets_to_one_album`, which ends at the first chunk that failed
    unfoldable pub add_chunks : String → List (List ℕ) → Option Reason → Exec W (Option Reason)
    unfolding call_chunk
    add_chunks album_id [] found w = (ok found, w)
    add_chunks album_id (chunk ∷ chunks) found w =
        let (r, after) = call_chunk S (client.add album_id) chunk w in
        elim r [
          | err e ↦ (err e, after)
          | ok outcome ↦ elim outcome [
            | failed uuids reason ↦ (ok (some reason), after)
            | success uuids a ↦ add_chunks album_id chunks (with_missing a found) after
          ]
        ]

    unfoldable pub add_assets_to_one_album : List ℕ → ℕ → Exec W (Option Reason)
    unfolding add_chunks batched
    add_assets_to_one_album assets id =
        add_chunks (uuid_to S album id) (batched assets max_bulk_ids) none

    -- the error of the answer; the answer is a success where there is none
    unfoldable pub add_assets_to_albums : List ℕ → List ℕ → Exec W (Option Reason)
    unfolding add_assets_to_one_album gather
    add_assets_to_albums albums assets =
        if ltb bulk_fanout_concurrency_limit (length albums * chunks_per_album assets)
        then raise (http 422)
        else do
          errors ← gather (map (add_assets_to_one_album assets) albums)
          pure (first_some errors)
