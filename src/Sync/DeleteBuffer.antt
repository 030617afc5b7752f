-- ===== src/Sync/DeleteBuffer.antt =====
-- `_yield_buffered_deletes` of routers/api/sync/stream.py: the buffered deletes by type, the types of
-- `_DELETE_TYPE_ORDER` first and in that order.
pub mod Order
use immich_adapter.Prelude.{
  none, some, List, [], ◌∷◌, ◌++◌, map, Dict, lookup, insert, removed, ◌==◌,
}
use immich_adapter.Sync.EntityType.{
  SyncEntityType, entity_type_eq, asset_face_delete_v1, album_to_asset_delete_v1, person_delete_v1,
  album_delete_v1, asset_delete_v1,
}
use immich_adapter.Sync.Entities.{Line}
use immich_adapter.Sync.Stream.{Delete}

abbrev pub delete_type_order : List SyncEntityType
delete_type_order =
    asset_face_delete_v1 ∷ album_to_asset_delete_v1 ∷ person_delete_v1 ∷ album_delete_v1
    ∷ asset_delete_v1 ∷ []

abbrev pub Groups : Type 0
Groups = Dict SyncEntityType (List Line)

-- `groups.get(t, [])`
abbrev pub group_of : SyncEntityType → Groups → List Line
group_of t groups = elim (lookup t groups) [ none ↦ [] | some lines ↦ lines ]

-- the loop that groups the buffer by type
unfoldable pub group : List Delete → Groups → Groups
group [] groups = groups
group ((line, t) ∷ more) groups = group more (insert t (group_of t groups ++ line ∷ []) groups)

abbrev pub tagged : SyncEntityType → List Line → List Delete
tagged t lines = map (λ line. (line, t)) lines

-- the types that no order lists, in the order of their first delete
pub remaining : Groups → List Delete
remaining [] = []
remaining ((t, lines) ∷ more) = tagged t lines ++ remaining more

unfoldable pub in_order : List SyncEntityType → Groups → List Delete
unfolding remaining
in_order [] groups = remaining groups
in_order (t ∷ ts) groups = tagged t (group_of t groups) ++ in_order ts (removed t groups)

unfoldable pub yield_buffered_deletes : List Delete → List Delete
unfolding in_order group
yield_buffered_deletes buffer = in_order delete_type_order (group buffer [])
