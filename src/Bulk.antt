-- ===== src/Bulk.antt =====
-- routers/utils/bulk.py, and `classify_bulk_item_error` of routers/utils/error_mapping.py: calls that
-- take many ids, in chunks that fail or succeed by themselves.
pub mod Chunks
use immich_adapter.Prelude.{
  ℕ, String, ◌||◌, Option, none, some, List, [], ◌∷◌, map, if◌then◌else◌, ◌==◌, number_eq, Error,
  status, transport, Result, ok, err, Exec, pure, ◌>>=◌,
}
use immich_adapter.Outside.ShortUuid.{ShortUuid}
use immich_adapter.Ids.{Kind, asset, uuid_to}
use immich_adapter.Sync.Fetch.{max_bulk_ids, batched}

-- `BulkIdErrorReason`
pub data Reason : Type 0 where
  duplicate no_permission not_found unknown validation : Reason

-- The SDK raises `NotFoundError` for 404, `AuthenticationError` for 401 and `PermissionDeniedError`
-- for 403.
unfoldable pub classify_bulk_item_error : ℕ → Reason
classify_bulk_item_error code =
    if code == 404 then not_found else if code == 401 || code == 403 then no_permission else unknown

pub data Outcome (A : Type 0) : Type 0 where
  success : List ℕ → A → Outcome A
  failed : List ℕ → Reason → Outcome A

-- how a call's exception is classified, where it is one of the SDK
unfoldable pub classify_error : Error → Option Reason
unfolding classify_bulk_item_error
classify_error (status code) = some (classify_bulk_item_error code)
classify_error transport = some unknown
classify_error e = none

abbrev pub chunk_outcome : {A : Type 0} → List ℕ → Result A → Result (Outcome A)
chunk_outcome uuids (ok response) = ok (success uuids response)
chunk_outcome uuids (err e) = elim (classify_error e) [
  | none ↦ err e
  | some reason ↦ ok (failed uuids reason)
]

-- `classify_bulk_item_call`: nothing on success
unfoldable pub classify_bulk_item_call : {A W : Type 0} → Exec W A → Exec W (Option Reason)
unfolding classify_error
classify_bulk_item_call call w = elim (call w).0 [
  | ok a ↦ (ok none, (call w).1)
  | err e ↦ elim (classify_error e) [
    | none ↦ (err e, (call w).1)
    | some reason ↦ (ok (some reason), (call w).1)
  ]
]

abbrev pub gumnut_ids : ShortUuid → List ℕ → List String
gumnut_ids S uuids = map (uuid_to S asset) uuids

module _ {A W : Type 0} (S : ShortUuid) (sdk_call : List String → Exec W A) where
  -- one round of the loop over the chunks; a chunk of the zipped ids stands as its UUIDs
  unfoldable pub call_chunk : List ℕ → Exec W (Outcome A)
  call_chunk uuids w =
      let (r, after) = sdk_call (gumnut_ids S uuids) w in (chunk_outcome uuids r, after)

  unfoldable pub call_chunks : List (List ℕ) → Exec W (List (Outcome A))
  unfolding call_chunk
  call_chunks [] = pure []
  call_chunks (chunk ∷ chunks) = do
    outcome ← call_chunk chunk
    more ← call_chunks chunks
    pure (outcome ∷ more)

  -- the outcomes in the order in which they are yielded
  unfoldable pub chunked_per_item_bulk : List ℕ → Exec W (List (Outcome A))
  unfolding call_chunks
  chunked_per_item_bulk uuids = call_chunks (batched uuids max_bulk_ids)
