-- ===== src/Sync/Routes/Collected.antt =====
-- routers/api/sync/routes.py: the loop over the acknowledgements of streamed lines.
use immich_adapter.Prelude.{
  String, ◌≡◌, ◌≢◌, refl, ap, sym, ◌∙◌, false, some, List, [], ◌∷◌, ◌++◌, map, arith, ◌==◌,
  string_eq, number_eq, Dict, insert, update, HasDistinctKeys-update, append-nil, last_for,
  last_for-distinct, lookup-update, or_else-none, ok, All, Bool-cases, inl, inr, has_pipe,
}
use immich_adapter.Outside.Redis.{key_eq}
use immich_adapter.Sync.EntityType
use immich_adapter.Sync.EntityType.{SyncEntityType, entity_type_eq, same}
use immich_adapter.Sync.Ack.{to_ack_string, parse_ack}
use immich_adapter.Sync.Ack.RoundTrip.{parse_ack-to_ack_string}
use immich_adapter.Sync.Routes.{reset, store, collect_acks}

-- an acknowledged line: its type and the cursor that it was streamed with
abbrev pub Streamed : Type 0
Streamed = SyncEntityType × String

abbrev pub ack_of : Streamed → String
ack_of line = to_ack_string line.0 line.1

-- A line whose acknowledgement stores its cursor: the type is not SyncResetV1, and the cursor is a
-- text without "|" that is not empty.
abbrev pub IsStorable : Streamed → Type 0
IsStorable line =
    (same line.0 SyncEntityType.sync_reset_v1 ≡ false) × (has_pipe line.1 ≡ false) × (line.1 ≢ "")

pub parse_storable : (line : Streamed) → IsStorable line → parse_ack (ack_of line) ≡ ok (some line)
parse_storable (t, cursor) (h, p, ne) =
    parse_ack-to_ack_string t cursor p ∙ ground (arith, string_eq.beq_iff cursor "")

pub collect_acks-storable :
    (lines : List Streamed) (more : List String) (found : Dict SyncEntityType String)
    → All IsStorable lines
    → collect_acks (map ack_of lines ++ more) found ≡ collect_acks more (update found lines)
unfolding collect_acks
collect_acks-storable [] more found h = refl
collect_acks-storable ((t, cursor) ∷ lines) more found (h, hs) =
    rw (parse_storable (t, cursor) h, h.0, collect_acks)
      (collect_acks-storable lines more (insert t cursor found) hs)

abbrev pub HasStorableCursor : Streamed → Type 0
HasStorableCursor line = (has_pipe line.1 ≡ false) × (line.1 ≢ "")

pub HasStorableCursor-insert :
    (t : SyncEntityType) (cursor : String) (m : Dict SyncEntityType String)
    → HasStorableCursor (t, cursor)
    → All HasStorableCursor m
    → All HasStorableCursor (insert t cursor m)
HasStorableCursor-insert t cursor [] h hs = (h, tt)
HasStorableCursor-insert t cursor ((u, c) ∷ m) h (g, gs) = elim (Bool-cases (u == t)) [
  | inl e ↦ rw (e, insert) (h, gs)
  | inr e ↦ rw (e, insert) (g, HasStorableCursor-insert t cursor m h gs)
]

pub HasStorableCursor-update :
    (m : Dict SyncEntityType String) (lines : List Streamed)
    → All HasStorableCursor m
    → All IsStorable lines
    → All HasStorableCursor (update m lines)
HasStorableCursor-update m [] g h = g
HasStorableCursor-update m ((t, cursor) ∷ lines) g ((_, p, ne), hs) =
    HasStorableCursor-update (insert t cursor m) lines
      (HasStorableCursor-insert t cursor m (p, ne) g) hs

pub last_for-collected :
    (t : SyncEntityType) (lines : List Streamed) → last_for t (update [] lines) ≡ last_for t lines
last_for-collected t lines =
    last_for-distinct t (update [] lines) (HasDistinctKeys-update [] lines tt)
    ∙ lookup-update t [] lines
    ∙ or_else-none (last_for t lines)

pub collected :
    (lines : List Streamed)
    → All IsStorable lines
    → collect_acks (map ack_of lines) [] ≡ ok (store (update [] lines))
unfolding collect_acks
collected lines h =
    ap (λ acks. collect_acks acks []) (sym (append-nil (map ack_of lines)))
    ∙ collect_acks-storable lines [] [] h

pub collected_reset :
    (cursor : String) (lines : List Streamed) (more : List String)
    → All IsStorable lines
    → has_pipe cursor ≡ false
    → cursor ≢ ""
    → collect_acks (map ack_of lines ++ to_ack_string SyncEntityType.sync_reset_v1 cursor ∷ more) []
      ≡ ok reset
unfolding collect_acks EntityType.same EntityType.value
collected_reset cursor lines more h p ne =
    let parsed : parse_ack (to_ack_string SyncEntityType.sync_reset_v1 cursor)
        ≡ ok (some (SyncEntityType.sync_reset_v1, cursor)) =
      parse_ack-to_ack_string SyncEntityType.sync_reset_v1 cursor p
      ∙ ground (arith, string_eq.beq_iff cursor "") in
    collect_acks-storable lines (to_ack_string SyncEntityType.sync_reset_v1 cursor ∷ more) [] h
    ∙ rw (parsed, collect_acks) refl
