-- ===== src/GumnutClient.antt =====
-- routers/utils/gumnut_client.py: the holder of a request's refreshed token, the hook that fills it, and
-- the clients that routes get by the request's state. The shared HTTP client and the client object of
-- the SDK are left out: of the latter stands the key that it is made with.
use immich_adapter.Prelude.{
  String, Bool, not, Option, none, some, List, [], ◌∷◌, ◌==◌, string_eq, if◌then◌else◌, Result, ok,
  err, http,
}

-- `if token`
abbrev pub is_filled : String → Bool
is_filled token = not (token == "")

-- the state of the ContextVar: no holder, or a holder with its token
abbrev pub Holder : Type 0
Holder = Option (Option String)

abbrev pub init_refresh_token_holder : Holder → Holder
init_refresh_token_holder h = some none

unfoldable pub get_refreshed_token : Holder → Option String
get_refreshed_token none = none
get_refreshed_token (some token) = token

-- Where no holder is, `_get_or_create_holder` installs one.
abbrev pub set_refreshed_token : String → Holder → Holder
set_refreshed_token token h = some (some token)

unfoldable pub clear_refreshed_token : Holder → Holder
clear_refreshed_token none = none
clear_refreshed_token (some token) = some none

-- `response_hook` for the header `x-new-access-token` of one response
unfoldable pub response_hook : Option String → Holder → Holder
response_hook none h = h
response_hook (some token) h = if is_filled token then set_refreshed_token token h else h

-- the hook on the responses that the backend gives during a request
abbrev pub after_responses : List (Option String) → Holder → Holder
after_responses [] h = h
after_responses (r ∷ rs) h = after_responses rs (response_hook r h)

-- what the middleware puts in `request.state`
pub record RequestState : Type 0 where
  pub jwt_token : Option String
  pub session_token : Option String
  pub is_web_client : Bool

-- `getattr(request.state, "jwt_token", None)`; a request that the middleware lets pass has no state
abbrev pub state_jwt : Option RequestState → Option String
state_jwt none = none
state_jwt (some s) = s.jwt_token

-- `none` where no JWT is there or it is empty
unfoldable pub get_authenticated_gumnut_client_optional : Option RequestState → Option String
get_authenticated_gumnut_client_optional state = elim (state_jwt state) [
  | none ↦ none
  | some jwt ↦ if is_filled jwt then some jwt else none
]

unfoldable pub get_authenticated_gumnut_client : Option RequestState → Result String
get_authenticated_gumnut_client state = elim (state_jwt state) [
  | none ↦ err (http 401)
  | some jwt ↦ if is_filled jwt then ok jwt else err (http 401)
]
