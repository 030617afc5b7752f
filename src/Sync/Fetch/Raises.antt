-- ===== src/Sync/Fetch/Raises.antt =====
-- routers/api/sync/entity_fetch.py: the exceptions of fetching entities.
use immich_adapter.Prelude.{
  String, Bool, true, false, List, [], ◌∷◌, ok, Result, Error, value_error, Exec, Raises,
  Raises-resume, ◌==◌, string_eq, if◌then◌else◌, contains,
}
use immich_adapter.Outside.Client.{Client, EventsQuery}
use immich_adapter.Sync.Entities.{Entity}
use immich_adapter.Sync.Fetch.{
  Fetched, fetch_chunk, fetch_chunks, fetch_entities_map, unique, batched, max_bulk_ids,
  supported_types,
}

-- Every call of the SDK raises only exceptions with a property.
pub record ClientRaises (P : Error → Type 0) {W : Type 0} (client : Client W) : Type 0 where
  pub get_events : (q : EventsQuery) (w : W) → Raises P (client.get_events q w).0
  pub list_assets :
      (all : Bool) (ids : List String) (w : W) → Raises P (client.list_assets all ids w).0
  pub list_albums : (ids : List String) (w : W) → Raises P (client.list_albums ids w).0
  pub list_people : (ids : List String) (w : W) → Raises P (client.list_people ids w).0
  pub list_faces : (ids : List String) (w : W) → Raises P (client.list_faces ids w).0
  pub list_album_assets : (ids : List String) (w : W) → Raises P (client.list_album_assets ids w).0

-- one of two actions, by a test
pub Raises-if_exec :
    (P : Error → Type 0) {S A : Type 0} (b : Bool) (m n : Exec S A) (s : S)
    → Raises P (m s).0
    → Raises P (n s).0
    → Raises P ((if b then m else n) s).0
Raises-if_exec P true m n s h k = h
Raises-if_exec P false m n s h k = k

module _ (P : Error → Type 0) (v : P value_error) {W : Type 0} (client : Client W)
    (calls : ClientRaises P client) where
  fetch_chunk-Raises :
      (type : String) (chunk : List String) (acc : Fetched) (w : W)
      → Raises P (fetch_chunk client type chunk acc w).0
  unfolding fetch_chunk
  fetch_chunk-Raises type chunk acc w =
      let after = λ (r : Result (List Entity) × W) (h : Raises P r.0) (f : List Entity → Fetched).
        Raises-resume P r.0 (λ es s. (ok (f es), s)) r.1 h (λ es e. tt) in
      Raises-if_exec P (type == "asset") _ _ w (after _ (calls.list_assets true chunk w) _) (
        Raises-if_exec P (type == "album") _ _ w (after _ (calls.list_albums chunk w) _) (
          Raises-if_exec P (type == "person") _ _ w (after _ (calls.list_people chunk w) _) (
            Raises-if_exec P (type == "face") _ _ w (after _ (calls.list_faces chunk w) _) (
              Raises-if_exec P (type == "album_asset") _ _ w
                (after _ (calls.list_album_assets chunk w) _)
                (after _ (calls.list_assets false chunk w) _)))))

  fetch_chunks-Raises :
      (type : String) (chunks : List (List String)) (acc : Fetched) (w : W)
      → Raises P (fetch_chunks client type chunks acc w).0
  unfolding fetch_chunks
  fetch_chunks-Raises type [] acc w = tt
  fetch_chunks-Raises type (chunk ∷ chunks) acc w =
      let r = fetch_chunk client type chunk acc w in
      Raises-resume P r.0 _ r.1 (fetch_chunk-Raises type chunk acc w)
        (λ acc' e. fetch_chunks-Raises type chunks acc' r.1)

  pub fetch_entities_map-Raises :
      (type : String) (ids : List String) (w : W)
      → Raises P (fetch_entities_map client type ids w).0
  unfolding fetch_entities_map
  fetch_entities_map-Raises type ids w =
      Raises-if_exec P (contains type supported_types) _ _ w
        (fetch_chunks-Raises type (batched (unique ids) max_bulk_ids) ([], []) w) v
