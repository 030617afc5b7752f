-- ===== src/Sync/DeleteBuffer/Order.antt =====
-- routers/api/sync/stream.py: the order in which buffered deletes are yielded.
use immich_adapter.Prelude.{
  ◌≡◌, refl, sym, ap, ◌∙◌, Bool, true, false, List, [], ◌∷◌, ◌++◌, insert, lookup-insert, removed,
  lookup-removed, contains, KeysIn, KeysIn-removed, KeysIn-insert, or_false, beq_sym, ◌==◌, All,
  keep, if◌then◌else◌, Bool-cases, inl, inr, append_assoc, append-nil,
}
use immich_adapter.Sync.EntityType
use immich_adapter.Sync.EntityType.{SyncEntityType, entity_type_eq}
use immich_adapter.Sync.Entities.{Line}
use immich_adapter.Sync.Stream.{Delete}
use immich_adapter.Sync.DeleteBuffer.{
  delete_type_order, Groups, group_of, group, tagged, in_order, yield_buffered_deletes,
}

abbrev pub of_type : SyncEntityType → Delete → Bool
of_type t d = d.1 == t

-- The deletes of a list's types: those of the first type, then those of the second, and so on, each
-- in the order of the buffer.
abbrev pub by_types : List SyncEntityType → List Delete → List Delete
by_types [] buffer = []
by_types (t ∷ ts) buffer = keep (of_type t) buffer ++ by_types ts buffer

abbrev pub IsOrdered : Delete → Type 0
IsOrdered d = contains d.1 delete_type_order ≡ true

group_of-insert :
    (t u : SyncEntityType) (lines : List Line) (g : Groups)
    → group_of u (insert t lines g) ≡ (if t == u then lines else group_of u g)
group_of-insert t u lines g =
    rw (group_of, lookup-insert t u lines g)
      (elim (Bool-cases (t == u)) [ inl e ↦ rw e refl | inr e ↦ rw e refl ])

group_of-removed :
    (t u : SyncEntityType) (g : Groups)
    → group_of u (removed t g) ≡ (if t == u then [] else group_of u g)
group_of-removed t u g =
    rw (group_of, lookup-removed t u g)
      (elim (Bool-cases (t == u)) [ inl e ↦ rw e refl | inr e ↦ rw e refl ])

tagged-append :
    (t : SyncEntityType) (a b : List Line) → tagged t (a ++ b) ≡ tagged t a ++ tagged t b
tagged-append t [] b = refl
tagged-append t (x ∷ a) b = ap (λ r. (x, t) ∷ r) (tagged-append t a b)

tagged-group_of-group :
    (t : SyncEntityType) (buffer : List Delete) (g : Groups)
    → tagged t (group_of t (group buffer g)) ≡ tagged t (group_of t g) ++ keep (of_type t) buffer
unfolding group
tagged-group_of-group t [] g = sym (append-nil _)
tagged-group_of-group t ((line, u) ∷ more) g =
    tagged-group_of-group t more (insert u (group_of u g ++ line ∷ []) g)
    ∙ rw (group_of-insert u t (group_of u g ++ line ∷ []) g) (elim (Bool-cases (u == t)) [
      | inl e ↦
          rw (e, keep)
            (rw ((entity_type_eq.beq_iff u t).0 e) (
              rw (tagged-append t (group_of t g) (line ∷ []))
                (append_assoc (tagged t (group_of t g)) ((line, t) ∷ []) (keep (of_type t) more))))
      | inr e ↦ rw (e, keep) refl
    ])

-- all groups of a list of types, in its order
flat : List SyncEntityType → Groups → List Delete
flat [] g = []
flat (t ∷ ts) g = tagged t (group_of t g) ++ flat ts g

flat-removed :
    (t : SyncEntityType) (ts : List SyncEntityType) (g : Groups)
    → contains t ts ≡ false
    → flat ts (removed t g) ≡ flat ts g
unfolding flat
flat-removed t [] g h = refl
flat-removed t (u ∷ ts) g h =
    let (other, rest) = or_false (u == t) (contains t ts) h in
    rw (group_of-removed t u g)
      (rw (beq_sym t u, other) (ap (λ r. tagged u (group_of u g) ++ r) (flat-removed t ts g rest)))

KeysIn-group :
    (buffer : List Delete) (g : Groups)
    → All IsOrdered buffer
    → KeysIn delete_type_order g
    → KeysIn delete_type_order (group buffer g)
unfolding group
KeysIn-group [] g h k = k
KeysIn-group ((line, t) ∷ more) g (h, hs) k =
    KeysIn-group more (insert t (group_of t g ++ line ∷ []) g) hs
      (KeysIn-insert delete_type_order t _ g h k)

abbrev IsDistinct : List SyncEntityType → Type 0
IsDistinct [] = Unit
IsDistinct (t ∷ ts) = (contains t ts ≡ false) × IsDistinct ts

in_order-eq-flat :
    (ts : List SyncEntityType) (g : Groups)
    → IsDistinct ts
    → KeysIn ts g
    → in_order ts g ≡ flat ts g
unfolding in_order flat
in_order-eq-flat [] [] d k = refl
in_order-eq-flat [] ((t, lines) ∷ g) d (k, ks) = cc
in_order-eq-flat (t ∷ ts) g (d, ds) k =
    ap (λ r. tagged t (group_of t g) ++ r)
      (in_order-eq-flat ts (removed t g) ds (KeysIn-removed t ts g k) ∙ flat-removed t ts g d)

flat-group :
    (ts : List SyncEntityType) (buffer : List Delete)
    → flat ts (group buffer []) ≡ by_types ts buffer
unfolding flat
flat-group [] buffer = refl
flat-group (t ∷ ts) buffer = rw (tagged-group_of-group t buffer [], flat-group ts buffer)

delete_type_order-IsDistinct : IsDistinct delete_type_order
unfolding EntityType.same EntityType.value
delete_type_order-IsDistinct = (refl, (refl, (refl, (refl, (refl, tt)))))

-- Of a buffer whose types are all in the order of delete types, phase 2 yields the deletes of the
-- first type, then of the second and so on, each type's in the order in which they were buffered.
pub yield_buffered_deletes-eq-by_types :
    (buffer : List Delete)
    → All IsOrdered buffer
    → yield_buffered_deletes buffer ≡ by_types delete_type_order buffer
unfolding yield_buffered_deletes
yield_buffered_deletes-eq-by_types buffer h =
    in_order-eq-flat delete_type_order (group buffer []) delete_type_order-IsDistinct
      (KeysIn-group buffer [] h tt)
    ∙ flat-group delete_type_order buffer
