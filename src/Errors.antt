-- ===== src/Errors.antt =====
-- routers/utils/error_mapping.py, the handler of the SDK's exceptions in config/exceptions.py, and the
-- statuses of `_sync_upload` in services/streaming_upload.py. Log records are left out, but for their
-- level.
pub mod Statuses
use immich_adapter.Prelude.{
  ℕ, String, Bool, true, false, ◌&&◌, ◌||◌, Option, none, some, List, [], ◌∷◌, ◌⧺◌, ltb, leb,
  if◌then◌else◌, ◌==◌, number_eq, string_eq, Dict, lookup,
}

-- a value in an error's body
pub data BodyValue : Type 0 where
  text : String → BodyValue
  other : BodyValue

-- gumnut's `APIStatusError`; a body that is no dict is `none`
pub record StatusError : Type 0 where
  pub status_code : ℕ
  pub body : Option (Dict String BodyValue)
  pub message : String

-- The exceptions by the branches that look for them; the SDK raises `RateLimitError`, which is an
-- `APIStatusError`, for the status 429. `no_sdk` is an exception that the SDK does not raise, with its
-- text.
pub data Exception : Type 0 where
  status_error : StatusError → Exception
  response_validation connection : Exception
  generic no_sdk : String → Exception

-- a response's status and message
abbrev pub Response : Type 0
Response = ℕ × String

abbrev pub quota_exceeded : Response
quota_exceeded = (400, "Quota has been exceeded!")

pub data Level : Type 0 where
  info warning error : Level

unfoldable pub upstream_status_log_level : ℕ → Level
upstream_status_log_level code =
    if code == 404
    then info
    else if code == 507
    then warning
    else if leb 400 code && ltb code 500
    then warning
    else if leb 500 code
    then error
    else info

-- the first of these keys with a text that is not empty
abbrev pub first_text : List String → Dict String BodyValue → Option String
first_text [] body = none
first_text (key ∷ keys) body = elim (lookup key body) [
  | none ↦ first_text keys body
  | some value ↦ elim value [
    | other ↦ first_text keys body
    | text s ↦ if s == "" then first_text keys body else some s
  ]
]

abbrev pub body_detail : Option (Dict String BodyValue) → Option String
body_detail none = none
body_detail (some body) = first_text ("detail" ∷ "message" ∷ "error" ∷ []) body

-- `decimal` is the text that `str` gives for a number.
module _ (decimal : ℕ → String) where
  unfoldable pub extract_detail_from_status_error : StatusError → String
  extract_detail_from_status_error e = elim (body_detail e.body) [
    | some detail ↦ detail
    | none ↦ if e.message == "" then "Upstream HTTP " ⧺ decimal e.status_code else e.message
  ]

  -- the answer to an `APIStatusError` other than a rate limit
  abbrev pub status_response : StatusError → Response
  status_response e =
      if e.status_code == 507
      then quota_exceeded
      else (e.status_code, extract_detail_from_status_error e)

  -- `_gumnut_error_handler`; it is registered for the SDK's exceptions, and no other reaches it
  unfoldable pub gumnut_error_handler : Exception → Response
  unfolding extract_detail_from_status_error
  gumnut_error_handler (status_error e) =
      if e.status_code == 429 then (502, "Upstream temporarily unavailable") else status_response e
  gumnut_error_handler response_validation = (502, "Upstream returned invalid response")
  gumnut_error_handler connection = (502, "Upstream unreachable")
  gumnut_error_handler (generic s) = (500, "Internal error")
  gumnut_error_handler (no_sdk s) = (500, "Internal error")

  -- `shown` is the text that `str` gives for an exception.
  unfoldable pub map_gumnut_error : (Exception → String) → String → Exception → Response
  unfolding extract_detail_from_status_error
  map_gumnut_error shown context (status_error e) =
      if e.status_code == 429
      then (502, context ⧺ ": Upstream temporarily unavailable")
      else status_response e
  map_gumnut_error shown context e = (500, (context ⧺ ": ") ⧺ shown e)

-- how `_sync_upload` answers to the status of its POST: nothing where the upload succeeded
unfoldable pub upload_response : ℕ → Option Response
upload_response code =
    if code == 429
    then some (502, "Service temporarily unavailable")
    else if code == 200 || code == 201
    then none
    else if code == 507
    then some quota_exceeded
    else some (if leb 500 code || code == 401 then 502 else code, "Upload failed")
