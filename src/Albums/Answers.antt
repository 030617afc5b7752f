-- ===== src/Albums/Answers.antt =====
-- routers/api/albums.py: the answers to an addition of assets to an album.
use immich_adapter.Prelude.{
  ◌⊎◌, ℕ, ◌≡◌, refl, sym, String, true, false, ◌||◌, List, [], ◌∷◌, ◌++◌, map, string_eq, number_eq,
  contains, All, Bool-cases, Result-cases, inl, inr, arith, ok, subst, ok-inj,
}
use immich_adapter.Outside.ShortUuid.{ShortUuid}
use immich_adapter.Ids.{album, asset, uuid_to}
use immich_adapter.Bulk.{Outcome, success, failed, chunked_per_item_bulk, gumnut_ids}
use immich_adapter.Bulk.Chunks.{IsOutcome, chunked_per_item_bulk-outcomes}
use immich_adapter.Albums.{
  Added, AlbumClient, BulkIdResponse, gathered, added_result, add_assets_to_album,
}

contains-append :
    (x : String) (xs ys : List String) → contains x (xs ++ ys) ≡ (contains x xs || contains x ys)
contains-append x [] ys = refl
contains-append x (y ∷ xs) ys = ground (arith, contains-append x xs ys)

map-same :
    {A B : Type 0} (f : A → B) (g : B → A) (xs : List A)
    → ((x : A) → g (f x) ≡ x)
    → map g (map f xs) ≡ xs
map-same f g [] h = refl
map-same f g (x ∷ xs) h = rw (h x, map-same f g xs h) refl

All-map :
    {A B : Type 0} (P : B → Type 0) (f : A → B) (xs : List A)
    → ((x : A) → P (f x))
    → All P (map f xs)
All-map P f [] h = tt
All-map P f (x ∷ xs) h = (h x, All-map P f xs h)

module _ (S : ShortUuid) {W : Type 0} (client : AlbumClient W) (id : ℕ) where
  -- A call of the API for the album has answered that it added the asset.
  abbrev pub WasAdded : ℕ → Type 0
  WasAdded u =
      (ids : List String) × ((w : W) × ((a : Added) × ((client.add (uuid_to S album id) ids w).0
            ≡ ok a)
          × (contains (uuid_to S asset u) a.added_assets ≡ true)))

  gathered-WasAdded :
      (os : List (Outcome Added)) (u : ℕ)
      → All (IsOutcome S (client.add (uuid_to S album id))) os
      → contains (uuid_to S asset u) (gathered (λ a. a.added_assets) os) ≡ true
      → WasAdded u
  gathered-WasAdded [] u h k = cc
  gathered-WasAdded (failed uuids reason ∷ os) u (h, hs) k = gathered-WasAdded os u hs k
  gathered-WasAdded (success uuids a ∷ os) u (h, hs) k =
      elim (Bool-cases (contains (uuid_to S asset u) a.added_assets)) [
        | inl here ↦ (gumnut_ids S uuids, (h.0, (a, h.1, here)))
        | inr absent ↦ gathered-WasAdded os u hs (
            ground (
              arith,
              k,
              absent,
              contains-append (uuid_to S asset u) a.added_assets
                  (gathered (λ b. b.added_assets) os),
            ))
      ]

  added_result-id : (os : List (Outcome Added)) (u : ℕ) → (added_result S os u).id ≡ u
  unfolding added_result
  added_result-id os u = ground arith

  -- A success is in the union of the additions.
  added_result-member :
      (os : List (Outcome Added)) (u : ℕ)
      → (added_result S os u).is_success ≡ true
      → contains (uuid_to S asset u) (gathered (λ a. a.added_assets) os) ≡ true
  unfolding added_result
  added_result-member os u k = ground (arith, k)

  added_result-WasAdded :
      (os : List (Outcome Added)) (u : ℕ)
      → All (IsOutcome S (client.add (uuid_to S album id))) os
      → ((added_result S os u).is_success ≡ false) ⊎ WasAdded (added_result S os u).id
  added_result-WasAdded os u h = elim (Bool-cases (added_result S os u).is_success) [
    | inr k ↦ inl k
    | inl k ↦ inr (
        subst WasAdded (sym (added_result-id os u))
          (gathered-WasAdded os u h (added_result-member os u k)))
  ]

  -- An addition that ends without another exception answers for each asset that was asked for, in the
  -- order of the request, and says of none that it succeeded but where the API answered that it added
  -- it to the album.
  pub add_assets_to_album-WasAdded :
      (ids : List ℕ) (w : W) (rs : List BulkIdResponse)
      → (add_assets_to_album S client id ids w).0 ≡ ok rs
      → (map (λ r. r.id) rs ≡ ids) × All (λ r. (r.is_success ≡ false) ⊎ WasAdded r.id) rs
  unfolding add_assets_to_album
  add_assets_to_album-WasAdded ids w rs h =
      elim (Result-cases (chunked_per_item_bulk S (client.add (uuid_to S album id)) ids w).0) [
        | inr (e, k) ↦ absurd (ground (arith, k, h))
        | inl (os, k) ↦
            subst
              (λ x. (map (λ r. r.id) x ≡ ids) × All (λ r. (r.is_success ≡ false) ⊎ WasAdded r.id) x)
              (ok-inj (rw (k, add_assets_to_album) at h))
              (
                map-same (added_result S os) (λ r. r.id) ids (added_result-id os),
                All-map (λ r. (r.is_success ≡ false) ⊎ WasAdded r.id) (added_result S os) ids
                    (λ u.
                      added_result-WasAdded os u
                        (chunked_per_item_bulk-outcomes S (client.add (uuid_to S album id)) ids w os
                          k).2),
              )
      ]
