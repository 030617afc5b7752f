-- ===== src/Ids/Kinds.antt =====
-- routers/utils/gumnut_id_conversion.py: how the ids of the kinds relate to UUIDs and to one another.
use immich_adapter.Prelude.{
  ℕ, String, ◌≡◌, ◌≢◌, refl, true, false, some, ◌⧺◌, arith, Option-cases, some-inj, subst, inl, inr,
  has_underscore, after_prefix, after_prefix_of_append, after_prefix_self, after_prefix-append,
  has_underscore_of_prefix, has_underscore-append, ok, err, value_error,
}
use immich_adapter.Outside.ShortUuid.{ShortUuid, IsShortUuid}
use immich_adapter.Ids.{
  Kind, prefix, safe_uuid_from_gumnut_id, uuid_to_gumnut_id, safe_uuid_from, uuid_to,
}

-- What stands behind the prefix of one kind in an id of another, if that prefix fits at all, has an
-- underscore: only "asset_" fits, in the ids of stacks.
other_prefix :
    (a b : Kind) (short rest : String)
    → a ≢ b
    → has_underscore short ≡ false
    → after_prefix (prefix b ⧺ "_") ((prefix a ⧺ "_") ⧺ short) ≡ some rest
    → has_underscore rest ≡ true
unfolding prefix after_prefix_of_append has_underscore
other_prefix Kind.album Kind.album short rest ne h e = absurd (ne refl)
other_prefix Kind.asset Kind.asset short rest ne h e = absurd (ne refl)
other_prefix Kind.stack Kind.stack short rest ne h e = absurd (ne refl)
other_prefix Kind.person Kind.person short rest ne h e = absurd (ne refl)
other_prefix Kind.face Kind.face short rest ne h e = absurd (ne refl)
other_prefix Kind.user Kind.user short rest ne h e = absurd (ne refl)
other_prefix Kind.asset Kind.stack short rest ne h e =
    let q : after_prefix "stack_" short ≡ some rest =
      rw (after_prefix-append "asset_stack_" "asset_" short) at e in
    cc (h, has_underscore_of_prefix "stack_" short rest q refl)
other_prefix Kind.stack Kind.asset short rest ne h e =
    let q : some ("stack_" ⧺ short) ≡ some rest =
      rw (after_prefix-append "asset_" "asset_stack_" short) at e in
    subst (λ r. has_underscore r ≡ true) (some-inj q) (has_underscore-append "stack_" short refl)
other_prefix a b short rest ne h e =
    cc (rw (after_prefix-append (prefix b ⧺ "_") (prefix a ⧺ "_") short) at e)

module _ (S : ShortUuid) (laws : IsShortUuid S) where
  -- The id of a UUID under any prefix is read back as that UUID under the same prefix.
  pub safe_uuid-uuid_to :
      (u : ℕ) (p : String) → safe_uuid_from_gumnut_id S (uuid_to_gumnut_id S u p) p ≡ ok u
  unfolding safe_uuid_from_gumnut_id uuid_to_gumnut_id
  safe_uuid-uuid_to u p =
      ground (arith, after_prefix_self (p ⧺ "_") (S.encode u), laws.decode-encode u)

  -- An id of one kind, read as an id of another, raises ValueError; so a stack id, whose prefix
  -- begins with the prefix of asset ids, is no asset id, and the other way round.
  pub other_kind-raises :
      (a b : Kind) (u : ℕ) → a ≢ b → safe_uuid_from S b (uuid_to S a u) ≡ err value_error
  unfolding safe_uuid_from uuid_to safe_uuid_from_gumnut_id uuid_to_gumnut_id
  other_kind-raises a b u ne =
      elim (Option-cases (after_prefix (prefix b ⧺ "_") ((prefix a ⧺ "_") ⧺ S.encode u))) [
        | inl e ↦ ground arith
        | inr (rest, e) ↦ ground (
          arith,
          laws.outside_alphabet rest (other_prefix a b (S.encode u) rest ne (laws.encoded u) e),
        )
      ]
