-- ===== src/Bulk/Chunks.antt =====
-- routers/utils/bulk.py: what the outcomes of the chunks are.
use immich_adapter.Prelude.{
  ℕ, ◌≤◌, ◌<◌, ◌≡◌, refl, ◌∙◌, ap, sym, String, some, List, [], ◌∷◌, map, length, All, Error,
  Result, ok, err, Result-cases, Option-cases, inl, inr, arith, Exec, subst, ok-inj,
}
use immich_adapter.Outside.ShortUuid.{ShortUuid}
use immich_adapter.Sync.Fetch.{max_bulk_ids, batched}
use immich_adapter.Sync.Fetch.Batches.{concat, batched-concat}
use immich_adapter.Bulk.{
  Outcome, success, failed, classify_error, chunk_outcome, gumnut_ids, call_chunk, call_chunks,
  chunked_per_item_bulk,
}

abbrev pub uuids_of : {A : Type 0} → Outcome A → List ℕ
uuids_of (success uuids response) = uuids
uuids_of (failed uuids reason) = uuids

the_list : {A : Type 0} (x : A) (xs ys : List A) → ok (x ∷ xs) ≡ ok ys → x ∷ xs ≡ ys
the_list x xs ys h = ok-inj h

both :
    {A : Type 0} {a b : List A} {cs : List (List A)} (bs : List (List A))
    → a ≡ b
    → bs ≡ cs
    → a ∷ bs ≡ b ∷ cs
both bs h k = rw (h, k) refl

module _ {A W : Type 0} (S : ShortUuid) (sdk_call : List String → Exec W A) where
  -- An outcome is what the call for its ids answered, or the reason that its exception is classified as.
  abbrev pub IsOutcome : Outcome A → Type 0
  IsOutcome (success uuids a) = (w : W) × ((sdk_call (gumnut_ids S uuids) w).0 ≡ ok a)
  IsOutcome (failed uuids reason) =
      (w : W) × ((e : Error) × ((sdk_call (gumnut_ids S uuids) w).0 ≡ err e)
        × (classify_error e ≡ some reason))

  chunk_outcome-IsOutcome :
      (chunk : List ℕ) (w : W) (r : Result A) (o : Outcome A)
      → (sdk_call (gumnut_ids S chunk) w).0 ≡ r
      → chunk_outcome chunk r ≡ ok o
      → IsOutcome o × (uuids_of o ≡ chunk)
  chunk_outcome-IsOutcome chunk w (ok a) o k h =
      subst (λ x. IsOutcome x × (uuids_of x ≡ chunk)) (ok-inj h) ((w, k), refl)
  chunk_outcome-IsOutcome chunk w (err e) o k h = elim (Option-cases (classify_error e)) [
    | inl c ↦ absurd (ground (arith, c, h))
    | inr (reason, c) ↦
        subst (λ x. IsOutcome x × (uuids_of x ≡ chunk)) (ok-inj (rw (c, chunk_outcome) at h))
          ((w, (e, k, c)), refl)
  ]

  -- Where all chunks were called without an exception that the SDK does not raise, each chunk has one
  -- outcome, in the order of the chunks.
  call_chunks-outcomes :
      (chunks : List (List ℕ)) (w : W) (os : List (Outcome A))
      → (call_chunks S sdk_call chunks w).0 ≡ ok os
      → All IsOutcome os × (map uuids_of os ≡ chunks)
  unfolding call_chunks call_chunk
  call_chunks-outcomes [] w os h =
      subst (λ x. All IsOutcome x × (map uuids_of x ≡ [])) (ok-inj h) (tt, refl)
  call_chunks-outcomes (chunk ∷ chunks) w os h =
      let after = (call_chunk S sdk_call chunk w).1 in
      elim (Result-cases (call_chunk S sdk_call chunk w).0) [
        | inr (e, k) ↦ absurd (ground (arith, k, h))
        | inl (o, k) ↦ elim (Result-cases (call_chunks S sdk_call chunks after).0) [
          | inr (e, j) ↦ absurd (ground (arith, k, j, h))
          | inl (more, j) ↦
              let (first, one) =
                chunk_outcome-IsOutcome chunk w (sdk_call (gumnut_ids S chunk) w).0 o refl k in
              let (rest, others) = call_chunks-outcomes chunks after more j in
              subst (λ x. All IsOutcome x × (map uuids_of x ≡ chunk ∷ chunks))
                (the_list o more os (ground (arith, k, j, h)))
                ((first, rest), both (map uuids_of more) one others)
        ]
      ]

  -- Where a bulk call ends without another exception, its outcomes have just the ids that were asked
  -- for, once and in their order, in chunks of one to 200; and each outcome is what the call for its
  -- ids answered, or the reason of the SDK's exception that it raised.
  pub chunked_per_item_bulk-outcomes :
      (uuids : List ℕ) (w : W) (os : List (Outcome A))
      → (chunked_per_item_bulk S sdk_call uuids w).0 ≡ ok os
      → (concat (map uuids_of os) ≡ uuids)
        × All (λ c. (0 < length c) × (length c ≤ 200)) (map uuids_of os)
        × All IsOutcome os
  unfolding chunked_per_item_bulk
  chunked_per_item_bulk-outcomes uuids w os h =
      let chunks = batched uuids max_bulk_ids in
      let (outcomes, same) = call_chunks-outcomes chunks w os h in
      let (whole, short) = batched-concat uuids 199 in
      (
        ap concat same ∙ whole,
        subst (All (λ c. (0 < length c) × (length c ≤ 200))) (sym same) short,
        outcomes,
      )
