-- ===== src/Tests/Auth.antt =====
-- The theorems of the auth middleware, at concrete inputs.
use immich_adapter.Prelude.{
  String, ◌≡◌, refl, true, false, Option, none, some, List, [], ◌∷◌, ok, lookup, string_eq, Exec,
  ◌⊎◌, after_prefix, some-inj, ap, sym, ◌==◌,
}
use immich_adapter.Outside.Redis.{session, same_key}
use immich_adapter.Jwt.{encrypt_jwt, decrypt_jwt}
use immich_adapter.Session.{Session, create, new_session, get_by_id, to_dict, from_dict}
use immich_adapter.GumnutClient.{
  Holder, RequestState, after_responses, get_authenticated_gumnut_client,
}
use immich_adapter.Auth.{
  Request, HttpResponse, proceeds, credentials, session_credentials, bearer, from_index,
  is_protected, look_up, get_jwt, dispatch,
}
use immich_adapter.Auth.Credential.{look_up-credential}
use immich_adapter.Auth.Refreshed.{dispatch-refreshed}
use immich_adapter.Auth.Isolated.{dispatch-others}
use immich_adapter.Tests.Texts.{ones, count, formats, formats-IsFormats, clear, clear-IsFernet}
use immich_adapter.Tests.Store.{Memory, memory, empty_memory, memory-IsRedis}

-- the session 3 of a phone, and its store
abbrev made : Session
made = new_session formats (some clear) memory 3 5 "jwt" "u1" "l1" "phone" "os" "v1"

abbrev kept : Memory
kept =
    (create formats (some clear) memory 3 5 "jwt" "u1" "l1" "phone" "os" "v1" none empty_memory).1

abbrev lower : String → String
lower s = s

abbrev request : Request
request = record {
  path = "/api/assets";
  headers = ("authorization", "bearer 111") ∷ [];
  cookies = [];
}

abbrev response : HttpResponse
response = record { status_code = 200; headers = ("x-new-access-token", "new") ∷ [] }

-- the backend refreshes the token twice, and answers once without a token
abbrev responses : List (Option String)
responses = some "early" ∷ some "new" ∷ none ∷ some "" ∷ []

abbrev handler : Option RequestState → Exec (Holder × Memory) HttpResponse
handler state (h, d) = (ok response, (after_responses responses h, d))

abbrev state : RequestState
state = record { jwt_token = some "jwt"; session_token = some "111"; is_web_client = false }

guarded : is_protected request.path ≡ true
unfolding is_protected after_prefix
guarded = refl

found : look_up formats (some clear) memory false (credentials lower request) kept ≡ proceeds state
unfolding look_up credentials session_credentials bearer from_index after_prefix get_jwt decrypt_jwt
    get_by_id create encrypt_jwt same_key ones count to_dict from_dict
found = refl

token_sent : (credentials lower request).session_token ≡ some "111"
unfolding credentials session_credentials bearer from_index after_prefix
token_sent = refl

stored : get_by_id formats (some clear) memory false (ones 3) kept ≡ ok (some made)
unfolding get_by_id create encrypt_jwt same_key ones count to_dict from_dict
stored = refl

client : get_authenticated_gumnut_client (some state) ≡ ok "jwt"
unfolding get_authenticated_gumnut_client
client = refl

dispatch-refreshed_example :
    look_up formats
      (some clear)
      memory
      false
      (credentials lower request)
      (dispatch formats (some clear) memory lower handler false false 9 request (none, kept)).1.1
    ≡ proceeds (record (credentials lower request) { jwt_token = some "new" })
unfolding credentials session_credentials bearer from_index after_prefix ones encrypt_jwt get_by_id
    create same_key count
dispatch-refreshed_example =
    dispatch-refreshed formats formats-IsFormats clear clear-IsFernet memory memory-IsRedis lower
      handler request 3 9 state response responses "new" "new" made none kept kept guarded refl
      found refl refl stored refl

dispatch-others_example :
    lookup "stored_jwt" (
      memory.hgetall
        (session "other")
        (dispatch formats (some clear) memory lower handler false false 9 request (none, kept)).1.1)
    ≡ lookup "stored_jwt" (memory.hgetall (session "other") kept)
unfolding credentials session_credentials bearer from_index after_prefix
dispatch-others_example =
    dispatch-others formats (some clear) memory memory-IsRedis lower handler false false 9 request
      none kept "other" "stored_jwt" (λ token h. ap (λ t. t == "other") (sym (some-inj h)))
      (λ s x. refl)

-- the same request with an API key
abbrev with_key : Request
with_key = record request { headers = ("x-api-key", "apikey_1") ∷ [] }

abbrev key_state : RequestState
key_state = record { jwt_token = some "apikey_1"; session_token = none; is_web_client = false }

key_found :
    look_up formats (some clear) memory false (credentials lower with_key) kept ≡ proceeds key_state
unfolding look_up credentials
key_found = refl

key_client : get_authenticated_gumnut_client (some key_state) ≡ ok "apikey_1"
unfolding get_authenticated_gumnut_client
key_client = refl

look_up-credential_example :
    ((lookup "x-api-key" with_key.headers ≡ some "apikey_1")
      × ((credentials lower with_key).session_token ≡ none)
      × (look_up formats (some clear) memory true (credentials lower with_key) empty_memory
          ≡ proceeds key_state))
    ⊎ (token : String) × (s : Session) × ((credentials lower with_key).session_token ≡ some token)
      × (get_by_id formats (some clear) memory false token kept ≡ ok (some s))
      × (decrypt_jwt (some clear) s.stored_jwt ≡ ok "apikey_1")
look_up-credential_example =
    look_up-credential formats (some clear) memory lower false true with_key key_state "apikey_1"
      kept empty_memory key_found key_client
