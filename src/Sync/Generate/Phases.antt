-- ===== src/Sync/Generate/Phases.antt =====
-- routers/api/sync/stream.py: the phases of a sync stream.
use immich_adapter.Prelude.{
  ℕ, String, ◌≡◌, refl, sym, ap, false, List, [], ◌∷◌, ◌++◌, map, Dict, lookup, string_eq, All,
  All-append, Result, ok, err, Exec, resume, resume_keeps, map_ok, map_ok-eq-ok, Bool-cases, inl,
  inr, contains, append_assoc, append-nil, ◌==◌, ◌&&◌,
}
use immich_adapter.Outside.Formats.{Formats}
use immich_adapter.Outside.ShortUuid.{ShortUuid}
use immich_adapter.Outside.Client.{Client}
use immich_adapter.Ids.{Kind, safe_uuid_from}
use immich_adapter.Checkpoint.{Checkpoint}
use immich_adapter.Sync.EntityType
use immich_adapter.Sync.EntityType.{SyncEntityType, entity_type_eq}
use immich_adapter.Sync.RequestType.{SyncRequestType, request_type_eq}
use immich_adapter.Sync.Entities.{Entity, Line, Model, make_sync_event}
use immich_adapter.Sync.Convert.{convert_entity, convert_entity_to_sync_event}
use immich_adapter.Sync.Deletes.Made.{make_delete_sync_event-IsMade}
use immich_adapter.Sync.Stream.{State, Delete, stream_entity_type}
use immich_adapter.Sync.Stream.Keeps.{Keeping, stream_entity_type-keeps}
use immich_adapter.Sync.DeleteBuffer.{delete_type_order, yield_buffered_deletes}
use immich_adapter.Sync.DeleteBuffer.Order.{by_types, IsOrdered, yield_buffered_deletes-eq-by_types}
use immich_adapter.Sync.Generate.{
  Entry, sync_type_order, is_streamed, User, send_user, send_users, pass_of, run_passes, emit_all,
  complete_line, stream_body, initial, generate_sync_stream, user_cursor, is_stale,
}

-- A type of line that adds or updates: no delete, and not the end of the stream.
abbrev pub IsUpsertType : SyncEntityType → Type 0
IsUpsertType t =
    (contains t delete_type_order ≡ false) × ((t == SyncEntityType.sync_complete_v1) ≡ false)

abbrev pub IsUpsert : Line → Type 0
IsUpsert line = IsUpsertType line.type

-- A buffered delete is held under the type of its line, a delete type.
abbrev pub IsHeld : Delete → Type 0
IsHeld d = (d.0.type ≡ d.1) × IsOrdered d

module _ {W : Type 0} where
  -- What a stream has written, by how it ended. After an exception it is upserts alone. Else it is
  -- upserts, then the deletes by type in the order of delete types, then the completing line.
  abbrev pub Written : Result (Unit {0}) → State W → Type 0
  Written (err e) s = All IsUpsert s.out
  Written (ok u) s =
      (upserts : List Line) × (complete : Line) × All IsUpsert upserts
      × All IsHeld s.deletes
      × (complete.type ≡ SyncEntityType.sync_complete_v1)
      × (s.out ≡ upserts ++ map (λ d. d.0) (by_types delete_type_order s.deletes) ++ complete ∷ [])

  abbrev Kept : State W → Type 0
  Kept = Keeping IsUpsert IsHeld

  resume-Written :
      {A : Type 0} (r : Result A) (f : A → Exec (State W) (Unit {0})) (s : State W)
      → Kept s
      → ((a : A) → Written (f a s).0 (f a s).1)
      → Written (resume r f s).0 (resume r f s).1
  resume-Written (ok a) f s h k = k a
  resume-Written (err e) f s h k = h.0

  emit_all-out :
      (F : Formats) (S : ShortUuid) (client : Client W) (ds : List Delete) (s : State W)
      → emit_all F S client ds s ≡ (ok tt, record s { out = s.out ++ map (λ d. d.0) ds })
  unfolding emit_all
  emit_all-out F S client [] s = rw (append-nil s.out) refl
  emit_all-out F S client ((line, t) ∷ ds) s =
      rw
        (
          emit_all-out F S client ds (record s { out = s.out ++ line ∷ [] }),
          append_assoc s.out (line ∷ []) (map (λ d. d.0) ds),
        )
        refl

All-IsOrdered : (ds : List Delete) → All IsHeld ds → All IsOrdered ds
All-IsOrdered [] h = tt
All-IsOrdered (d ∷ ds) (h, hs) = (h.1, All-IsOrdered ds hs)

convert-type :
    (S : ShortUuid) (g : String) (entity : Entity) (owner : ℕ) (cursor : String)
    (t : SyncEntityType) (line : Line)
    → convert_entity_to_sync_event S g entity owner cursor t ≡ ok line
    → line.type ≡ t
unfolding convert_entity_to_sync_event make_sync_event
convert-type S g entity owner cursor t line h =
    let (model, e, made) =
      map_ok-eq-ok (λ m. make_sync_event t m cursor) (convert_entity S g entity owner t) h in
    sym (ap (λ l. l.type) made)

module _ (F : Formats) (S : ShortUuid) {W : Type 0} (client : Client W) where
  run_passes-Kept :
      (n owner now : ℕ) (checkpoints : Dict SyncEntityType Checkpoint)
      (requested : List SyncRequestType) (entries : List Entry) (s : State W)
      → All (λ entry. IsUpsertType entry.2) entries
      → Kept s
      → Kept (run_passes F S client n owner now checkpoints requested entries s).1
  unfolding run_passes
  run_passes-Kept n owner now checkpoints requested [] s h k = k
  run_passes-Kept n owner now checkpoints requested (entry ∷ more) s (h, hs) k =
      elim (Bool-cases (is_streamed requested entry.0)) [
        | inl streamed ↦
            let p = pass_of F S client owner now checkpoints entry in
            rw streamed (
              resume_keeps Kept (stream_entity_type S client n p s).0 _
                (λ _ e t j. run_passes-Kept n owner now checkpoints requested more t hs j)
                (stream_entity_type S client n p s).1
                (stream_entity_type-keeps S client IsUpsert IsHeld p refl
                  (λ event entity line e. rw (convert-type S _ entity _ _ _ line e) h)
                  (λ event d e. let (a, b, c) = make_delete_sync_event-IsMade S event d e in (a, b))
                  n s k))
        | inr skipped ↦ rw skipped (run_passes-Kept n owner now checkpoints requested more s hs k)
      ]

  send_user-Kept :
      (request : SyncRequestType) (t : SyncEntityType) (converted : Result Model) (user : User)
      (requested : List SyncRequestType) (checkpoints : Dict SyncEntityType Checkpoint)
      (s : State W)
      → IsUpsertType t
      → Kept s
      → Kept (send_user F S request t converted user requested checkpoints s).1
  unfolding send_user make_sync_event
  send_user-Kept request t converted user requested checkpoints s h k =
      elim (Bool-cases (
        contains request requested && is_stale F S (lookup t checkpoints) (user_cursor F S user))) [
          | inl sent ↦ rw sent (
              resume_keeps Kept converted _
                (λ model e u j. (All-append IsUpsert u.out _ j.0 (h, tt), j.1)) s k)
          | inr same ↦ rw same k
        ]

  send_users-Kept :
      (owner : ℕ) (user : User) (requested : List SyncRequestType)
      (checkpoints : Dict SyncEntityType Checkpoint) (s : State W)
      → Kept s
      → Kept (send_users F S client owner user requested checkpoints s).1
  unfolding send_users EntityType.same EntityType.value
  send_users-Kept owner user requested checkpoints s k =
      let id = safe_uuid_from S Kind.user user.id in
      resume_keeps Kept
        (send_user F S SyncRequestType.auth_users_v1 SyncEntityType.auth_user_v1
          (map_ok Model.auth_user id) user requested checkpoints s).0
        _
        (λ _ e t j.
          resume_keeps Kept
            (send_user F S SyncRequestType.users_v1 SyncEntityType.user_v1 (map_ok Model.user id)
              user requested checkpoints t).0
            _
            (λ _ e u i.
              send_user-Kept SyncRequestType.user_metadata_v1 SyncEntityType.user_metadata_v1
                (ok (Model.user_metadata owner)) user requested checkpoints u (refl, refl) i)
            (send_user F S SyncRequestType.users_v1 SyncEntityType.user_v1 (map_ok Model.user id)
              user requested checkpoints t).1
            (send_user-Kept SyncRequestType.users_v1 SyncEntityType.user_v1 (map_ok Model.user id)
              user requested checkpoints t (refl, refl) j))
        (send_user F S SyncRequestType.auth_users_v1 SyncEntityType.auth_user_v1
          (map_ok Model.auth_user id) user requested checkpoints s).1
        (send_user-Kept SyncRequestType.auth_users_v1 SyncEntityType.auth_user_v1
          (map_ok Model.auth_user id) user requested checkpoints s (refl, refl) k)

sync_type_order-IsUpsertType : All (λ entry. IsUpsertType entry.2) sync_type_order
unfolding EntityType.same EntityType.value
sync_type_order-IsUpsertType = (
  (refl, refl),
  (
    (refl, refl),
    (
      (refl, refl),
      (
        (refl, refl),
        (
          (refl, refl),
          ((refl, refl), ((refl, refl), ((refl, refl), ((refl, refl), ((refl, refl), tt))))),
        ),
      ),
    ),
  ),
)

module _ (F : Formats) (S : ShortUuid) {W : Type 0} (client : Client W) where
  -- phase 2 and the completing line
  finish : Exec (State W) (Unit {0})
  finish s = emit_all F S client (yield_buffered_deletes s.deletes) s

  finish-Written :
      (s : State W)
      → Kept s
      → Written (ok tt) (record s {
        out =
            (s.out ++ map (λ d. d.0) (yield_buffered_deletes s.deletes))
            ++ complete_line F S client ∷ [];
      })
  unfolding make_sync_event
  finish-Written s (k, h) = (
    s.out,
    complete_line F S client,
    k,
    h,
    refl,
    rw (yield_buffered_deletes-eq-by_types s.deletes (All-IsOrdered s.deletes h)) refl,
  )

  -- A stream over any request ends in one of two ways. Where its body raises, every line that was
  -- yielded is an upsert: no delete and no completing line went out. Where it does not, the lines are
  -- upserts, then all buffered deletes by type, children before parents and each type in the order
  -- of the buffer, each of them held under its own delete type, and a completing line at the end.
  pub generate_sync_stream-Written :
      (n now : ℕ) (requested : List SyncRequestType) (checkpoints : Dict SyncEntityType Checkpoint)
      (user : User) (w : W)
      → Written
          (stream_body F S client n now requested checkpoints user (initial F S client w)).0
          (generate_sync_stream F S client n now requested checkpoints user w)
  unfolding stream_body generate_sync_stream
  generate_sync_stream-Written n now requested checkpoints user w =
      let id = safe_uuid_from S Kind.user user.id in
      let start : State W = initial F S client w in
      resume-Written id _ start (tt, tt)
        (λ owner.
          let users = send_users F S client owner user requested checkpoints start in
          let users_kept =
            send_users-Kept F S client owner user requested checkpoints start (tt, tt) in
          resume-Written users.0 _ users.1 users_kept (λ _.
            let passes =
              run_passes F S client n owner now checkpoints requested sync_type_order users.1 in
            let kept =
              run_passes-Kept F S client n owner now checkpoints requested sync_type_order users.1
                sync_type_order-IsUpsertType users_kept in
            resume-Written passes.0 _ passes.1 kept (λ _.
              rw (emit_all-out F S client (yield_buffered_deletes passes.1.deletes) passes.1)
                (finish-Written passes.1 kept))))
