-- ===== src/Auth/Refreshed.antt =====
-- routers/middleware/auth_middleware.py: what a refreshed token does to the sessions.
use immich_adapter.Prelude.{
  ℕ, String, ◌≡◌, ◌⊎◌, refl, ap, sym, ◌∙◌, Bool, true, false, Option, none, some, List, [], ◌∷◌,
  arith, string_eq, or_else, Result, ok, err, Exec, Option-cases, Result-cases, inl, inr,
}
use immich_adapter.Outside.Formats.{Formats, IsFormats}
use immich_adapter.Outside.Redis.{Redis, IsRedis, key_eq}
use immich_adapter.Jwt.{Fernet, IsFernet, encrypt_jwt, decrypt_jwt-encrypt_jwt}
use immich_adapter.Session.{Session, get_by_id}
use immich_adapter.Auth.Stored.{read_refreshed}
use immich_adapter.GumnutClient.{
  Holder, RequestState, is_filled, get_refreshed_token, response_hook, after_responses,
}
use immich_adapter.Auth.{
  finish_response, strip_refresh, Request, HttpResponse, Looked, answered, proceeds, is_protected,
  credentials, filled_or_none, look_up, with_session, store_refreshed, after_response, proceed,
  dispatch, get_jwt,
}

-- the last token of responses that is not empty
abbrev pub last_filled : List (Option String) → Option String
last_filled [] = none
last_filled (r ∷ rs) = or_else (last_filled rs) (filled_or_none r)

pub filled_or_none-source :
    (o : Option String) (t : String) → filled_or_none o ≡ some t → o ≡ some t
filled_or_none-source none t h = cc
filled_or_none-source (some s) t h = ground arith

pub Looked-cases :
    (x : Looked) → ((r : HttpResponse) × (x ≡ answered r)) ⊎ ((s : RequestState) × (x ≡ proceeds s))
Looked-cases (answered r) = inl (r, refl)
Looked-cases (proceeds s) = inr (s, refl)

pub proceeds-inj : {a b : RequestState} → proceeds a ≡ proceeds b → a ≡ b
proceeds-inj h = cc

module _ (F : Formats) (K : Option Fernet) {D : Type 0} (R : Redis D) where
  with_session-token :
      (c state : RequestState) (r : Result (Option Session))
      → with_session F K R c r ≡ proceeds state
      → state.session_token ≡ c.session_token
  with_session-token c state (err e) h = cc
  with_session-token c state (ok none) h = cc
  with_session-token c state (ok (some s)) h = elim (Result-cases (get_jwt F K R s)) [
    | inl (jwt, e) ↦
        let q : proceeds (record c { jwt_token = some jwt }) ≡ proceeds state =
          rw (e, with_session) at h in
        ap (λ (t : RequestState). t.session_token) (sym (proceeds-inj q))
    | inr (x, e) ↦ cc (rw (e, with_session) at h)
  ]

  pub look_up-token :
      (down : Bool) (c state : RequestState) (d : D)
      → look_up F K R down c d ≡ proceeds state
      → state.session_token ≡ c.session_token
  unfolding look_up
  look_up-token down c state d h = elim (Option-cases (filled_or_none c.session_token)) [
    | inl e ↦
        let q : proceeds c ≡ proceeds state = rw (e, look_up) at h in
        ap (λ (t : RequestState). t.session_token) (sym (proceeds-inj q))
    | inr (token, e) ↦
        with_session-token c state (get_by_id F K R down token d) (rw (e, look_up) at h)
  ]

response_hook-token :
    (r : Option String) (h : Holder)
    → get_refreshed_token (response_hook r h) ≡ or_else (filled_or_none r) (get_refreshed_token h)
unfolding get_refreshed_token response_hook
response_hook-token none h = refl
response_hook-token (some token) h = ground arith

or_else_assoc : (a b c : Option String) → or_else a (or_else b c) ≡ or_else (or_else a b) c
or_else_assoc none b c = refl
or_else_assoc (some x) b c = refl

after_responses-token :
    (rs : List (Option String)) (h : Holder)
    → get_refreshed_token (after_responses rs h) ≡ or_else (last_filled rs) (get_refreshed_token h)
after_responses-token [] h = refl
after_responses-token (r ∷ rs) h =
    after_responses-token rs (response_hook r h)
    ∙ ap (or_else (last_filled rs)) (response_hook-token r h)
    ∙ or_else_assoc (last_filled rs) (filled_or_none r) (get_refreshed_token h)

filled_or_none_twice :
    (o : Option String) (t : String) → filled_or_none o ≡ some t → is_filled t ≡ true
filled_or_none_twice none t h = cc
filled_or_none_twice (some s) t h = ground arith

last_filled-is_filled :
    (rs : List (Option String)) (t : String) → last_filled rs ≡ some t → is_filled t ≡ true
last_filled-is_filled [] t h = cc
last_filled-is_filled (r ∷ rs) t h = elim (Option-cases (last_filled rs)) [
  | inl e ↦ filled_or_none_twice r t (rw e at h)
  | inr (u, e) ↦ last_filled-is_filled rs t (e ∙ (rw e at h))
]

refreshed_token :
    (rs : List (Option String)) (jwt : String)
    → last_filled rs ≡ some jwt
    → filled_or_none (get_refreshed_token (after_responses rs (some none))) ≡ some jwt
refreshed_token rs jwt h =
    rw (after_responses-token rs (some none), h) (rw (last_filled-is_filled rs jwt h) refl)

module _ (F : Formats) (K : Option Fernet) {D : Type 0} (R : Redis D) where
  after_response_refreshed :
      (now : ℕ) (session_token : Option String) (response : HttpResponse)
      (rs : List (Option String)) (jwt token : String) (d : D)
      → last_filled rs ≡ some jwt
      → filled_or_none session_token ≡ some token
      → after_response F K R false now session_token response (after_responses rs (some none), d)
        ≡ (
          ok (strip_refresh response),
          (after_responses rs (some none), store_refreshed F K R false now token jwt d),
        )
  unfolding after_response
  after_response_refreshed now session_token response rs jwt token d last own =
      rw (refreshed_token rs jwt last, own, after_response) refl

  module _ (lower : String → String)
      (call_next : Option RequestState → Exec (Holder × D) HttpResponse) where
    pub dispatch_proceeds :
        (down : Bool) (now : ℕ) (r : Request) (state : RequestState) (outer : Holder) (d : D)
        → is_protected r.path ≡ true
        → look_up F K R false (credentials lower r) d ≡ proceeds state
        → dispatch F K R lower call_next false down now r (outer, d)
          ≡ proceed F K R lower call_next down now state (some none, d)
    unfolding dispatch
    dispatch_proceeds down now r state outer d guarded found = rw (guarded, found, dispatch) refl

    proceed_answered :
        (now : ℕ) (state : RequestState) (response : HttpResponse) (s after : Holder × D)
        → call_next (some state) s ≡ (ok response, after)
        → proceed F K R lower call_next false now state s
          ≡ after_response F K R false now state.session_token response after
    proceed_answered now state response s after answer =
        ap (finish_response F K R false now state.session_token) answer

module _ (F : Formats) (laws : IsFormats F) (f : Fernet) (fernet : IsFernet f) {D : Type 0}
    (R : Redis D) (redis : IsRedis R) where
  look_up-refreshed :
      (c : RequestState) (id now : ℕ) (jwt encrypted : String) (s : Session) (d : D)
      → filled_or_none c.session_token ≡ some (F.uuid_text id)
      → get_by_id F (some f) R false (F.uuid_text id) d ≡ ok (some s)
      → encrypt_jwt (some f) jwt ≡ ok encrypted
      → look_up F (some f) R false c (store_refreshed F (some f) R false now (F.uuid_text id) jwt d)
        ≡ proceeds (record c { jwt_token = some jwt })
  unfolding look_up get_jwt
  look_up-refreshed c id now jwt encrypted s d own h e =
      rw
        (
          own,
          look_up,
          read_refreshed F laws (some f) R redis id now jwt encrypted s d h e,
          decrypt_jwt-encrypt_jwt f fernet jwt encrypted e,
          with_session,
          get_jwt,
        )
        refl

  -- Let a protected request carry a session token, let its session be found, and let the handler answer
  -- with a response after the backend sent a refreshed token `jwt` last, with the session still there
  -- and `jwt` encrypted without error. While Redis is up, the next request with that credential reaches
  -- its handler with `jwt` as its JWT.
  pub dispatch-refreshed :
      (lower : String → String) (call_next : Option RequestState → Exec (Holder × D) HttpResponse)
      (r : Request) (id now : ℕ) (state : RequestState) (response : HttpResponse)
      (rs : List (Option String)) (jwt encrypted : String) (s : Session) (outer : Holder) (d d' : D)
      → is_protected r.path ≡ true
      → filled_or_none (credentials lower r).session_token ≡ some (F.uuid_text id)
      → look_up F (some f) R false (credentials lower r) d ≡ proceeds state
      → call_next (some state) (some none, d) ≡ (ok response, (after_responses rs (some none), d'))
      → last_filled rs ≡ some jwt
      → get_by_id F (some f) R false (F.uuid_text id) d' ≡ ok (some s)
      → encrypt_jwt (some f) jwt ≡ ok encrypted
      → look_up F
          (some f)
          R
          false
          (credentials lower r)
          (dispatch F (some f) R lower call_next false false now r (outer, d)).1.1
        ≡ proceeds (record (credentials lower r) { jwt_token = some jwt })
  dispatch-refreshed lower call_next r id now state response rs jwt encrypted s outer d d' guarded
        own found answer last there e =
      let c = credentials lower r in
      let own' = ap filled_or_none (look_up-token F (some f) R false c state d found) ∙ own in
      rw
        (
          dispatch_proceeds F (some f) R lower call_next false now r state outer d guarded found,
          proceed_answered F (some f) R lower call_next now state response _ _ answer,
          after_response_refreshed F (some f) R now state.session_token response rs jwt
              (F.uuid_text id) d' last own',
        )
        (look_up-refreshed c id now jwt encrypted s d' own there e)
