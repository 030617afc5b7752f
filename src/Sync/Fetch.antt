-- ===== src/Sync/Fetch.antt =====
-- routers/api/sync/entity_fetch.py: fetching entities by id in chunks.
pub mod Batches
pub mod Raises
use immich_adapter.Prelude.{
  ℕ, zero, suc, ◌-◌, ◌≤◌, String, true, false, none, List, [], ◌∷◌, ◌++◌, ◌==◌, string_eq,
  if◌then◌else◌, Dict, insert, contains, take, drop, length, Exec, pure, raise, value_error, ◌>>=◌,
  ◌≡◌,
}
use immich_adapter.Sync.Entities.{Entity, asset, entity_id}
use immich_adapter.Outside.Client.{Client}

abbrev pub max_bulk_ids : ℕ
max_bulk_ids = 200

-- `items[i : i + size] for i in range(0, len(items), size)`, with fuel for the rounds
slices {ℓ} : {A : Type ℓ} → ℕ → ℕ → List A → List (List A)
slices zero size items = []
slices (suc fuel) size [] = []
slices (suc fuel) size (x ∷ xs) = take size (x ∷ xs) ∷ slices fuel size (drop size (x ∷ xs))

-- `_batched`; with a size above 0 there are at most as many slices as items.
unfoldable pub batched {ℓ} : {A : Type ℓ} → List A → ℕ → List (List A)
unfolding slices
batched items size = slices (length items) size items

-- `list(dict.fromkeys(ids))`: the first occurrence of each
unique_from : List String → List String → List String
unique_from seen [] = []
unique_from seen (x ∷ xs) =
    let rest = unique_from (x ∷ seen) xs in if contains x seen then rest else x ∷ rest

unfoldable pub unique : List String → List String
unfolding unique_from
unique ids = unique_from [] ids

abbrev supported_types : List String
supported_types = "asset" ∷ "album" ∷ "person" ∷ "face" ∷ "album_asset" ∷ "metadata" ∷ []

-- `result.update({entity.id: entity for entity in page.data})`
put_all : List Entity → Dict String Entity → Dict String Entity
put_all [] found = found
put_all (e ∷ es) found = put_all es (insert (entity_id e) e found)

abbrev pub Fetched : Type 0
Fetched = Dict String Entity × List String

abbrev put_metadata : Entity → Fetched → Fetched
put_metadata (asset id f none) (found, missing) = (found, id ∷ missing)
put_metadata e (found, missing) = (insert (entity_id e) e found, missing)

-- an asset without a metadata row is missing
put_all_metadata : List Entity → Fetched → Fetched
put_all_metadata [] acc = acc
put_all_metadata (e ∷ es) acc = put_all_metadata es (put_metadata e acc)

module _ {W : Type 0} (client : Client W) where
  -- one round of the loop over the chunks
  fetch_chunk : String → List String → Fetched → Exec W Fetched
  unfolding put_all put_all_metadata
  fetch_chunk type chunk (found, missing) =
      if type == "asset"
      then (do es ← client.list_assets true chunk; pure (put_all es found, missing))
      else if type == "album"
      then (do es ← client.list_albums chunk; pure (put_all es found, missing))
      else if type == "person"
      then (do es ← client.list_people chunk; pure (put_all es found, missing))
      else if type == "face"
      then (do es ← client.list_faces chunk; pure (put_all es found, missing))
      else if type == "album_asset"
      then (do es ← client.list_album_assets chunk; pure (put_all es found, missing))
      else (do es ← client.list_assets false chunk; pure (put_all_metadata es (found, missing)))

  fetch_chunks : String → List (List String) → Fetched → Exec W Fetched
  fetch_chunks type [] acc = pure acc
  fetch_chunks type (chunk ∷ chunks) acc = do
    acc' ← fetch_chunk type chunk acc
    fetch_chunks type chunks acc'

  unfoldable pub fetch_entities_map : String → List String → Exec W Fetched
  unfolding fetch_chunks fetch_chunk
  fetch_entities_map type ids =
      if contains type supported_types
      then fetch_chunks type (batched (unique ids) max_bulk_ids) ([], [])
      else raise value_error
