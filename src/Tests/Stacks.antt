-- ===== src/Tests/Stacks.antt =====
-- The theorems of stacks, of bulk calls, of albums and of errors, at concrete inputs.
use immich_adapter.Prelude.{
  String, ℕ, ◌+◌, ◌≤◌, ◌<◌, ◌≡◌, ◌≢◌, ◌⊎◌, refl, true, false, Option, none, some, List, [], ◌∷◌,
  ◌++◌, map, keep, after_prefix, length, All, ok, err, status, arith,
}
use immich_adapter.Ids.{asset, stack, album, uuid_to, safe_uuid_from}
use immich_adapter.Sync.Fetch.{batched}
use immich_adapter.Sync.Fetch.Batches.{concat}
use immich_adapter.Stacks.{
  Asset, StackRow, HydratedStack, StackResponse, StackClient, is_live, resolve_effective_primary,
  build_stack_response, all_ok,
}
use immich_adapter.Stacks.Cover.{
  In, IsCover, is_primary, is_other, resolve_effective_primary-IsCover, build_stack_response-assets,
}
use immich_adapter.Stacks.Timeline.{
  TimelineStacks, select_timeline_cover, collapse_bucket, resolve_timeline_stacks,
}
use immich_adapter.Stacks.Timeline.Collapse.{IsStoodFor, collapse_bucket-IsStoodFor}
use immich_adapter.Stacks.Timeline.Bounded.{resolve_timeline_stacks-reads}
use immich_adapter.Bulk.{not_found, Outcome, failed, classify_error, chunked_per_item_bulk}
use immich_adapter.Bulk.Chunks.{uuids_of, IsOutcome, chunked_per_item_bulk-outcomes}
use immich_adapter.Albums.{AlbumClient, BulkIdResponse, accepted, refused, add_assets_to_album}
use immich_adapter.Albums.Answers.{WasAdded, add_assets_to_album-WasAdded}
use immich_adapter.Errors.{
  StatusError, Exception, status_error, Response, quota_exceeded, gumnut_error_handler,
  map_gumnut_error, upload_response,
}
use immich_adapter.Errors.Statuses.{responses-no_429}
use immich_adapter.Stacks.Routes.{stack_cap, member_budget, admit}
use immich_adapter.Stacks.Routes.Admitted.{
  LeavesOut, members_of_rows, members_before_last, admit-bounds,
}
use immich_adapter.Tests.Texts.{short, ones, count}

abbrev frame : ℕ → Option ℕ → Asset
frame n trashed = record {
  id = uuid_to short asset n;
  stack_id = some (uuid_to short stack 9);
  trashed_at = trashed;
  captured = n;
}

abbrev row : StackRow
row = record {
  id = uuid_to short stack 9;
  asset_count = 2;
  primary_asset_id = some (uuid_to short asset 2);
}

abbrev burst : List Asset
burst = frame 1 none ∷ frame 2 none ∷ frame 3 (some 5) ∷ []

resolve_effective_primary-IsCover_example :
    ((burst ≡ []) × (resolve_effective_primary row burst ≡ none))
    ⊎ ((m : Asset) × (resolve_effective_primary row burst ≡ some m) × IsCover row burst m)
resolve_effective_primary-IsCover_example = resolve_effective_primary-IsCover row burst

abbrev hydrated : HydratedStack
hydrated = record { id = 9; primary_asset_id = 2; members = burst; live_asset_count = 2 }

abbrev response : StackResponse
response = record { id = 9; primary_asset_id = 2; assets = 2 ∷ 1 ∷ [] }

build_stack_response-assets_example :
    (ids : List ℕ) × (all_ok (λ m. safe_uuid_from short asset m.id) (keep is_live burst) ≡ ok ids)
    × (response.assets ≡ keep (is_primary 2) ids ++ keep (is_other 2) ids)
    × (response.primary_asset_id ≡ 2)
unfolding build_stack_response safe_uuid_from uuid_to after_prefix count ones
build_stack_response-assets_example = build_stack_response-assets short hydrated response refl

-- a Gumnut API that counts its reads of members
abbrev rows_only : StackClient ℕ
rows_only = record {
  list_stacks = λ ids w. (ok (row ∷ []), w);
  fetch_stack_members = λ id w. (ok burst, w + 1);
  fetch_live_stack_members = λ id w. (ok (frame 1 none ∷ frame 2 none ∷ []), w + 1);
}

one_frame_left :
    (collapse_bucket short rows_only true false burst 0).0
    ≡ ok (
      frame 2 none ∷ [],
      some (record {
        covers = (uuid_to short stack 9, uuid_to short asset 2) ∷ [];
        tuples = (uuid_to short stack 9, (9, 2)) ∷ [];
      }),
    )
unfolding collapse_bucket safe_uuid_from uuid_to after_prefix count ones select_timeline_cover
    resolve_effective_primary
one_frame_left = refl

collapse_bucket-IsStoodFor_example :
    (kept : List Asset) × ((st : Option TimelineStacks) × ((collapse_bucket short rows_only true
          false burst 0).0
        ≡ ok (kept, st)))
    × All (λ a. In a burst) kept
    × All (λ a. In a kept ⊎ IsStoodFor short rows_only burst kept a) burst
collapse_bucket-IsStoodFor_example = collapse_bucket-IsStoodFor short rows_only burst true false 0

resolve_timeline_stacks-reads_example : (resolve_timeline_stacks short rows_only burst 0).1 ≤ 0 + 50
resolve_timeline_stacks-reads_example =
    resolve_timeline_stacks-reads short rows_only (λ w. w) (λ id w. omega arith)
      (λ ids w. omega arith) burst 0

-- an album that takes the first asset and does not find the second, and counts its calls
abbrev adds_one : AlbumClient ℕ
adds_one = record {
  add = λ id ids w. (
    ok (record {
      added_assets = uuid_to short asset 1 ∷ [];
      duplicate_assets = [];
      not_found_assets = uuid_to short asset 2 ∷ [];
    }),
    w + 1,
  );
  remove = λ id ids w. (err (status 404), w);
}

abbrev no_album : List (Outcome (Unit {0}))
no_album = failed (1 ∷ 2 ∷ []) not_found ∷ []

chunked_per_item_bulk-outcomes_example :
    (concat (map uuids_of no_album) ≡ 1 ∷ 2 ∷ [])
    × All (λ c. (0 < length c) × (length c ≤ 200)) (map uuids_of no_album)
    × All (IsOutcome short (adds_one.remove (uuid_to short album 4))) no_album
unfolding chunked_per_item_bulk batched classify_error
chunked_per_item_bulk-outcomes_example =
    chunked_per_item_bulk-outcomes short (adds_one.remove (uuid_to short album 4)) (1 ∷ 2 ∷ []) 0
      no_album refl

abbrev answers : List BulkIdResponse
answers = accepted 1 ∷ refused 2 not_found ∷ []

add_assets_to_album-WasAdded_example :
    (map (λ r. r.id) answers ≡ 1 ∷ 2 ∷ [])
    × All (λ r. (r.is_success ≡ false) ⊎ WasAdded short adds_one 4 r.id) answers
unfolding add_assets_to_album uuid_to ones batched
add_assets_to_album-WasAdded_example =
    add_assets_to_album-WasAdded short adds_one 4 (1 ∷ 2 ∷ []) 0 answers refl

abbrev two_albums : List ℕ
two_albums = 4 ∷ 5 ∷ []

abbrev two_assets : List ℕ
two_assets = 1 ∷ 2 ∷ []

abbrev throttled : StatusError
throttled = record { status_code = 507; body = none; message = "full" }

abbrev shown : Exception → String
shown e = "an exception"

responses-no_429_example :
    ((gumnut_error_handler ones (status_error throttled)).0 ≢ 429)
    × ((map_gumnut_error ones shown "upload" (status_error throttled)).0 ≢ 429)
    × ((upload_response 507 ≡ none)
        ⊎ ((r : Response) × (upload_response 507 ≡ some r)
            × (r.0 ≢ 429)
            × (r.0 ≢ 401)
            × ((r.0 ≡ 502) ⊎ (r.0 < 500))))
    × ((throttled.status_code ≢ 507)
        ⊎ ((gumnut_error_handler ones (status_error throttled) ≡ quota_exceeded)
            × (map_gumnut_error ones shown "upload" (status_error throttled) ≡ quota_exceeded)
            × (upload_response 507 ≡ some quota_exceeded)))
responses-no_429_example = responses-no_429 ones shown "upload" throttled

abbrev two_rows : List StackRow
two_rows = record row { asset_count = 6000 } ∷ row ∷ []

admit-bounds_example :
    (length (admit 0 0 two_rows).0 ≤ 500)
    × (members_before_last (admit 0 0 two_rows).0 < 5000)
    × ((rest : List StackRow) × ((admit 0 0 two_rows).0 ++ rest ≡ two_rows)
        × ((((admit 0 0 two_rows).1 ≡ none) × (rest ≡ []))
            ⊎ (LeavesOut rest
                × ((((admit 0 0 two_rows).1 ≡ some stack_cap)
                      × (length (admit 0 0 two_rows).0 ≡ 500))
                    ⊎ (((admit 0 0 two_rows).1 ≡ some member_budget)
                        × (5000 ≤ members_of_rows (admit 0 0 two_rows).0))))))
admit-bounds_example = admit-bounds two_rows

one_row_admitted : admit 0 0 two_rows ≡ (record row { asset_count = 6000 } ∷ [], some member_budget)
unfolding admit
one_row_admitted = refl
