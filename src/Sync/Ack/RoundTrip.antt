-- ===== src/Sync/Ack/RoundTrip.antt =====
-- Reading back the acknowledgement texts that the stream carries.
use immich_adapter.Prelude.{
  String, ◌≡◌, ◌≢◌, refl, ◌∙◌, false, none, some, List, [], ◌∷◌, ◌⧺◌, arith, split_pipe, has_pipe,
  text_append_assoc, split_pipe_field, ◌==◌, string_eq, if◌then◌else◌, ok, Bool-cases, inl, inr,
  Option-cases,
}
use immich_adapter.Sync.EntityType
use immich_adapter.Sync.EntityType.{SyncEntityType, of_value-value, of_value_sound}
use immich_adapter.Sync.Ack.{to_ack_string, parse_parts, parse_ack}

value_no_pipe : (t : SyncEntityType) → has_pipe (EntityType.value t) ≡ false
unfolding EntityType.value has_pipe
value_no_pipe SyncEntityType.auth_user_v1 = refl
value_no_pipe _ = refl

-- An acknowledgement whose cursor begins with a pipe-free text `p` up to a "|" is read as `p`.
parse_ack-first :
    (t : SyncEntityType) (p s : String)
    → has_pipe p ≡ false
    → parse_ack (EntityType.value t ⧺ "|" ⧺ p ⧺ "|" ⧺ s)
      ≡ (if p == "" then ok none else ok (some (t, p)))
unfolding parse_ack
parse_ack-first t p s h =
    rw (split_pipe_field (EntityType.value t) (p ⧺ "|" ⧺ s) (value_no_pipe t))
      (rw (split_pipe_field p s h) (rw (parse_parts, of_value-value t)))

-- The acknowledgement of a line is read back as the line's type and cursor, for every cursor that
-- holds no "|"; the empty cursor is skipped.
pub parse_ack-to_ack_string :
    (t : SyncEntityType) (cursor : String)
    → has_pipe cursor ≡ false
    → parse_ack (to_ack_string t cursor) ≡ (if cursor == "" then ok none else ok (some (t, cursor)))
unfolding to_ack_string
parse_ack-to_ack_string t cursor h = parse_ack-first t cursor "" h

-- A cursor that holds a "|", but not at its start, comes back cut at its first "|", and the rest is
-- lost.
pub parse_ack-cut :
    (t : SyncEntityType) (p s : String)
    → has_pipe p ≡ false
    → p ≢ ""
    → parse_ack (to_ack_string t (p ⧺ "|" ⧺ s)) ≡ ok (some (t, p))
unfolding to_ack_string
parse_ack-cut t p s h ne = rw (text_append_assoc p ("|" ⧺ s) "|") (
    rw (text_append_assoc "|" s "|")
      (parse_ack-first t p (s ⧺ "|") h ∙ ground (arith, string_eq.beq_iff p "")))

parse_parts_inversion :
    (parts : List String) (cursor : String) (t : SyncEntityType)
    → parse_parts parts ≡ ok (some (t, cursor))
    → (rest : List String) × (parts ≡ EntityType.value t ∷ cursor ∷ rest) × (cursor ≢ "")
unfolding parse_parts
parse_parts_inversion [] cursor t h = cc
parse_parts_inversion (p ∷ []) cursor t h = cc
parse_parts_inversion (p ∷ c ∷ rest) cursor t h = elim (Option-cases (EntityType.of_value p)) [
  | inl missing ↦ cc (rw (missing, parse_parts) at h)
  | inr (u, found) ↦
      let e : (if c == "" then ok none else ok (some (u, c))) ≡ ok (some (t, cursor)) =
        rw (found, parse_parts) at h in
      elim (Bool-cases (c == "")) [
        | inl empty ↦ cc (rw empty at e)
        | inr full ↦ (
          rest,
          ground (arith, string_eq.beq_iff c "", of_value_sound p u found),
          ground (arith, string_eq.beq_iff c ""),
        )
      ]
]

-- What is taken from an acknowledgement is its first two fields: the first is the value of the
-- returned type, and the second, the cursor, is not empty.
pub parse_ack_inversion :
    (ack cursor : String) (t : SyncEntityType)
    → parse_ack ack ≡ ok (some (t, cursor))
    → (rest : List String) × (split_pipe ack ≡ EntityType.value t ∷ cursor ∷ rest) × (cursor ≢ "")
unfolding parse_ack
parse_ack_inversion ack cursor t h = parse_parts_inversion (split_pipe ack) cursor t h
