-- ===== src/Auth/Credential.antt =====
-- routers/middleware/auth_middleware.py: whose credential the backend sees.
use immich_adapter.Prelude.{
  String, ◌≡◌, refl, ◌∙◌, ap, Bool, Option, none, some, ◌⊎◌, arith, string_eq, lookup, Result, ok,
  err, Option-cases, Result-cases, inl, inr,
}
use immich_adapter.Outside.Formats.{Formats}
use immich_adapter.Outside.Redis.{Redis}
use immich_adapter.Jwt.{Fernet, decrypt_jwt}
use immich_adapter.Session.{Session, get_by_id}
use immich_adapter.GumnutClient.{RequestState, get_authenticated_gumnut_client}
use immich_adapter.Auth.{
  Request, proceeds, credentials, session_credentials, filled_or_none, look_up, with_session,
  get_jwt,
}
use immich_adapter.Auth.Refreshed.{filled_or_none-source, proceeds-inj}

session_credentials-jwt :
    (lower : String → String) (r : Request) → (session_credentials lower r).jwt_token ≡ none
unfolding session_credentials
session_credentials-jwt lower r = ground arith

credentials-jwt :
    (lower : String → String) (r : Request) (jwt : String)
    → (credentials lower r).jwt_token ≡ some jwt
    → (lookup "x-api-key" r.headers ≡ some jwt) × ((credentials lower r).session_token ≡ none)
unfolding credentials
credentials-jwt lower r jwt h =
    let key = filled_or_none-source (lookup "x-api-key" r.headers) in
    elim (Option-cases (filled_or_none (lookup "x-api-key" r.headers))) [
      | inr (k, e) ↦ (key jwt (e ∙ (rw (e, credentials) at h)), rw (e, credentials) refl)
      | inl e ↦ cc (session_credentials-jwt lower r, rw (e, credentials) at h)
    ]

client-jwt :
    (state : RequestState) (jwt : String)
    → get_authenticated_gumnut_client (some state) ≡ ok jwt
    → state.jwt_token ≡ some jwt
unfolding get_authenticated_gumnut_client
client-jwt state jwt h = ground arith

module _ (F : Formats) (K : Option Fernet) {D : Type 0} (R : Redis D) where
  with_session-jwt :
      (c state : RequestState) (r : Result (Option Session)) (jwt : String)
      → with_session F K R c r ≡ proceeds state
      → state.jwt_token ≡ some jwt
      → (s : Session) × (r ≡ ok (some s)) × (get_jwt F K R s ≡ ok jwt)
  with_session-jwt c state (err e) jwt h q = cc
  with_session-jwt c state (ok none) jwt h q = cc
  with_session-jwt c state (ok (some s)) jwt h q = elim (Result-cases (get_jwt F K R s)) [
    | inl (jwt', e) ↦
        let p : proceeds (record c { jwt_token = some jwt' }) ≡ proceeds state =
          rw (e, with_session) at h in
        let p' : some jwt' ≡ state.jwt_token =
          ap (λ (t : RequestState). t.jwt_token) (proceeds-inj p) in
        (s, refl, cc)
    | inr (x, e) ↦ cc (rw (e, with_session) at h)
  ]

  -- The client that a request's handler gets has as its key either the request's own API key, or the
  -- decrypted JWT of the session that the store has under the request's own session token. In the first
  -- case the request has no session token, and the look-up goes on with the same state whatever the
  -- store holds and whether or not Redis fails.
  pub look_up-credential :
      (lower : String → String) (down down' : Bool) (r : Request) (state : RequestState)
      (jwt : String) (d d' : D)
      → look_up F K R down (credentials lower r) d ≡ proceeds state
      → get_authenticated_gumnut_client (some state) ≡ ok jwt
      → ((lookup "x-api-key" r.headers ≡ some jwt)
          × ((credentials lower r).session_token ≡ none)
          × (look_up F K R down' (credentials lower r) d' ≡ proceeds state))
        ⊎ (token : String) × (s : Session) × ((credentials lower r).session_token ≡ some token)
          × (get_by_id F K R down token d ≡ ok (some s))
          × (decrypt_jwt K s.stored_jwt ≡ ok jwt)
  unfolding look_up get_jwt
  look_up-credential lower down down' r state jwt d d' h client =
      let c = credentials lower r in
      let used = client-jwt state jwt client in
      elim (Option-cases (filled_or_none c.session_token)) [
        | inl e ↦
            let p : proceeds c ≡ proceeds state = rw (e, look_up) at h in
            let (key, no_token) =
              credentials-jwt lower r jwt
                (ap (λ (t : RequestState). t.jwt_token) (proceeds-inj p) ∙ used) in
            inl (key, no_token, rw (e, look_up) p)
        | inr (token, e) ↦
            let (s, read, jwt_read) =
              with_session-jwt c state (get_by_id F K R down token d) jwt (rw (e, look_up) at h)
                used in
            inr (token, s, filled_or_none-source c.session_token token e, read, jwt_read)
      ]
