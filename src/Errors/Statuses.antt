-- ===== src/Errors/Statuses.antt =====
-- routers/utils/error_mapping.py, config/exceptions.py and services/streaming_upload.py: the statuses
-- that reach an Immich client.
use immich_adapter.Prelude.{
  ℕ, ◌<◌, ◌≡◌, ◌≢◌, ◌⊎◌, inl, inr, refl, String, ◌||◌, none, some, number_eq, nat_eq, Bool-cases,
  leb, arith,
}
use immich_adapter.Errors.{
  StatusError, Exception, status_error, response_validation, connection, generic, no_sdk, Response,
  quota_exceeded, gumnut_error_handler, map_gumnut_error, upload_response,
}

module _ (decimal : ℕ → String) where
  handler-no_429 : (e : Exception) → (gumnut_error_handler decimal e).0 ≢ 429
  unfolding gumnut_error_handler
  handler-no_429 (status_error e) = λ h. ground (arith, h)
  handler-no_429 response_validation = λ h. omega (arith, h)
  handler-no_429 connection = λ h. omega (arith, h)
  handler-no_429 (generic s) = λ h. omega (arith, h)
  handler-no_429 (no_sdk s) = λ h. omega (arith, h)

  mapped-no_429 :
      (shown : Exception → String) (context : String) (e : Exception)
      → (map_gumnut_error decimal shown context e).0 ≢ 429
  unfolding map_gumnut_error
  mapped-no_429 shown context (status_error e) = λ h. ground (arith, h)
  mapped-no_429 shown context response_validation = λ h. omega (arith, h)
  mapped-no_429 shown context connection = λ h. omega (arith, h)
  mapped-no_429 shown context (generic s) = λ h. omega (arith, h)
  mapped-no_429 shown context (no_sdk s) = λ h. omega (arith, h)

upload-cases :
    (code : ℕ)
    → (upload_response code ≡ none)
      ⊎ ((r : Response) × (upload_response code ≡ some r)
          × (r.0 ≢ 429)
          × (r.0 ≢ 401)
          × ((r.0 ≡ 502) ⊎ (r.0 < 500)))
unfolding upload_response
upload-cases code = elim (Bool-cases (nat_eq code 429)) [
  | inl e ↦ inr (
    (502, "Service temporarily unavailable"),
    simp e,
    (λ h. omega (arith, h)),
    (λ h. omega (arith, h)),
    inl refl,
  )
  | inr e ↦ elim (Bool-cases (nat_eq code 200 || nat_eq code 201)) [
    | inl done ↦ inl (simp (e, done))
    | inr more ↦ elim (Bool-cases (nat_eq code 507)) [
      | inl over ↦ inr (
        quota_exceeded,
        simp (e, more, over),
        (λ h. omega (arith, h)),
        (λ h. omega (arith, h)),
        inr (omega arith),
      )
      | inr under ↦ elim (Bool-cases (leb 500 code || nat_eq code 401)) [
        | inl hidden ↦ inr (
          (502, "Upload failed"),
          simp (e, more, under, hidden),
          (λ h. omega (arith, h)),
          (λ h. omega (arith, h)),
          inl refl,
        )
        | inr passed ↦ inr (
          (code, "Upload failed"),
          simp (e, more, under, passed),
          (λ h. ground (arith, e, h)),
          (λ h. ground (arith, passed, h)),
          inr (ground (arith, passed)),
        )
      ]
    ]
  ]
]

quota-cases :
    (decimal : ℕ → String) (shown : Exception → String) (context : String) (e : StatusError)
    → (e.status_code ≢ 507)
      ⊎ ((gumnut_error_handler decimal (status_error e) ≡ quota_exceeded)
          × (map_gumnut_error decimal shown context (status_error e) ≡ quota_exceeded)
          × (upload_response e.status_code ≡ some quota_exceeded))
unfolding gumnut_error_handler map_gumnut_error upload_response
quota-cases decimal shown context e = elim (Bool-cases (nat_eq e.status_code 507)) [
  | inl k ↦ inr (ground (arith, k), ground (arith, k), ground (arith, k))
  | inr k ↦ inl (λ h. ground (arith, k, h))
]

-- Whatever status the Gumnut API answers with, no client is answered 429: not by the handler of the
-- SDK's exceptions, not by the mapping of an upload's exception, and not by a streamed upload, which
-- answers no 401 either and of the statuses from 500 on only 502. A storage that is full is answered
-- by all three with Immich's status and message for it.
pub responses-no_429 :
    (decimal : ℕ → String) (shown : Exception → String) (context : String) (e : StatusError)
    → ((gumnut_error_handler decimal (status_error e)).0 ≢ 429)
      × ((map_gumnut_error decimal shown context (status_error e)).0 ≢ 429)
      × ((upload_response e.status_code ≡ none)
          ⊎ ((r : Response) × (upload_response e.status_code ≡ some r)
              × (r.0 ≢ 429)
              × (r.0 ≢ 401)
              × ((r.0 ≡ 502) ⊎ (r.0 < 500))))
      × ((e.status_code ≢ 507)
          ⊎ ((gumnut_error_handler decimal (status_error e) ≡ quota_exceeded)
              × (map_gumnut_error decimal shown context (status_error e) ≡ quota_exceeded)
              × (upload_response e.status_code ≡ some quota_exceeded)))
responses-no_429 decimal shown context e = (
  handler-no_429 decimal (status_error e),
  mapped-no_429 decimal shown context (status_error e),
  upload-cases e.status_code,
  quota-cases decimal shown context e,
)
