-- ===== src/Auth.antt =====
-- routers/middleware/auth_middleware.py: the credential of a request, the look-up of its session, and
-- the storing of a refreshed token. The Sentry user and the logs are left out; of a response the status
-- and the headers stand, and names of headers are in lower case.
pub mod Credential
pub mod Stored
pub mod Refreshed
pub mod Isolated
use immich_adapter.Prelude.{
  ℕ, zero, suc, String, Bool, true, false, ◌||◌, Option, none, some, List, [], ◌∷◌, ◌==◌, string_eq,
  if◌then◌else◌, Dict, lookup, contains, removed, Result, ok, err, Exec, and_then, is_some,
  after_prefix,
}
use immich_adapter.Outside.Formats.{Formats}
use immich_adapter.Outside.Redis.{Redis}
use immich_adapter.Jwt.{Fernet, decrypt_jwt}
use immich_adapter.Session.{Session, get_by_id, update_stored_jwt}
use immich_adapter.GumnutClient.{
  Holder, RequestState, is_filled, init_refresh_token_holder, get_refreshed_token,
}

pub record Request : Type 0 where
  pub path : String
  pub headers : Dict String String
  pub cookies : Dict String String

pub record HttpResponse : Type 0 where
  pub status_code : ℕ
  pub headers : Dict String String

abbrev pub unauthenticated_paths : List String
unauthenticated_paths =
    "/api/auth/login" ∷ "/api/oauth/authorize" ∷ "/api/oauth/callback"
    ∷ "/api/oauth/mobile-redirect" ∷ "/api/server/config" ∷ "/api/server/features"
    ∷ "/api/server/media-types" ∷ "/api/server/ping" ∷ "/api/server/version"
    ∷ "/api/server/version-history" ∷ []

-- the two tests by which a request goes on without authentication
unfoldable pub is_protected : String → Bool
is_protected path =
    if is_some (after_prefix "/api/" path)
    then (if contains path unauthenticated_paths then false else true)
    else false

-- `s[n:]`
unfoldable pub from_index : ℕ → String → String
from_index zero s = s
from_index (suc n) String.[] = ""
from_index (suc n) (String.◌∷◌ c s) = from_index n s

abbrev pub filled_or_none : Option String → Option String
filled_or_none none = none
filled_or_none (some s) = if is_filled s then some s else none

-- `lower` is Python's `str.lower`.
module _ (lower : String → String) where
  -- the token of an `Authorization` header
  unfoldable pub bearer : Option String → Option String
  bearer none = none
  bearer (some header) =
      if is_some (after_prefix "bearer " (lower header)) then some (from_index 7 header) else none

  abbrev pub with_token : Bool → String → RequestState
  with_token web token = record {
    jwt_token = none;
    session_token = some token;
    is_web_client = web;
  }

  -- the state of a request without an API key
  unfoldable pub session_credentials : Request → RequestState
  session_credentials r = elim (bearer (lookup "authorization" r.headers)) [
    | some t ↦ with_token false t
    | none ↦ elim (lookup "x-immich-user-token" r.headers) [
      | some t ↦ with_token false t
      | none ↦ elim (lookup "immich_access_token" r.cookies) [
        | some t ↦ with_token true t
        | none ↦ record { jwt_token = none; session_token = none; is_web_client = false }
      ]
    ]
  ]

  -- An API key is the JWT itself.
  unfoldable pub credentials : Request → RequestState
  credentials r = elim (filled_or_none (lookup "x-api-key" r.headers)) [
    | some key ↦ record { jwt_token = some key; session_token = none; is_web_client = false }
    | none ↦ session_credentials r
  ]

abbrev pub invalid_token_response : HttpResponse
invalid_token_response = record { status_code = 401; headers = [] }

abbrev pub internal_error_response : HttpResponse
internal_error_response = record { status_code = 500; headers = [] }

-- `del response.headers["x-new-access-token"]` where it is there
abbrev pub strip_refresh : HttpResponse → HttpResponse
strip_refresh r = record r { headers = removed "x-new-access-token" r.headers }

-- what ends the look-up: a response, or the state that the handler gets
pub data Looked : Type 0 where
  answered : HttpResponse → Looked
  proceeds : RequestState → Looked

module _ (F : Formats) (K : Option Fernet) {D : Type 0} (R : Redis D) where
  unfoldable pub get_jwt : Session → Result String
  get_jwt s = decrypt_jwt K s.stored_jwt

  abbrev pub with_session : RequestState → Result (Option Session) → Looked
  with_session state (err e) = answered internal_error_response
  with_session state (ok none) = answered invalid_token_response
  with_session state (ok (some s)) = elim (get_jwt s) [
    | err e ↦ answered internal_error_response
    | ok jwt ↦ proceeds (record state { jwt_token = some jwt })
  ]

  -- the look-up of the session; `down` says whether Redis fails in it
  unfoldable pub look_up : (down : Bool) → RequestState → D → Looked
  look_up down state d = elim (filled_or_none state.session_token) [
    | none ↦ proceeds state
    | some token ↦ with_session state (get_by_id F K R down token d)
  ]

  -- what `update_stored_jwt` leaves; its exceptions are caught, and `down` says whether Redis fails
  abbrev pub store_refreshed : (down : Bool) → ℕ → String → String → D → D
  store_refreshed down now token jwt d =
      if down then d else (update_stored_jwt F K R now token jwt d).1

  -- what follows the handler's response
  unfoldable pub after_response :
      (down : Bool) → ℕ → Option String → HttpResponse → Exec (Holder × D) HttpResponse
  after_response down now session_token response (h, d) =
      elim (filled_or_none (get_refreshed_token h)) [
        | none ↦ (ok response, (h, d))
        | some jwt ↦ elim (filled_or_none session_token) [
          | none ↦ (ok response, (h, d))
          | some token ↦ (ok (strip_refresh response), (h, store_refreshed down now token jwt d))
        ]
      ]

  -- an exception of the handler goes on
  abbrev pub finish_response :
      (down : Bool)
      → ℕ
      → Option String
      → Result HttpResponse × (Holder × D)
      → Result HttpResponse × (Holder × D)
  finish_response down now session_token (err e, s) = (err e, s)
  finish_response down now session_token (ok response, s) =
      after_response down now session_token response s

  module _ (lower : String → String)
      (call_next : Option RequestState → Exec (Holder × D) HttpResponse) where
    -- the handler under a state, and what follows it
    abbrev pub proceed : (down : Bool) → ℕ → RequestState → Exec (Holder × D) HttpResponse
    proceed down now state s =
        finish_response down now state.session_token (call_next (some state) s)

    unfoldable pub dispatch :
        (down down_after : Bool) → ℕ → Request → Exec (Holder × D) HttpResponse
    dispatch down down_after now r (outer, d) =
        let h = init_refresh_token_holder outer in
        if is_protected r.path
        then elim (look_up down (credentials lower r) d) [
          | answered response ↦ (ok response, (h, d))
          | proceeds state ↦ proceed down_after now state (h, d)
        ]
        else call_next none (h, d)
