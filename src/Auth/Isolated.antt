-- ===== src/Auth/Isolated.antt =====
-- routers/middleware/auth_middleware.py: a request and the sessions of others.
use immich_adapter.Prelude.{
  ℕ, String, ◌≡◌, refl, sym, ◌∙◌, Bool, false, Option, none, some, ◌==◌, string_eq, lookup, Result,
  ok, err, Exec, Option-cases, Bool-cases, inl, inr,
}
use immich_adapter.Outside.Formats.{Formats}
use immich_adapter.Outside.Redis.{Redis, IsRedis, session}
use immich_adapter.Jwt.{Fernet}
use immich_adapter.GumnutClient.{Holder, RequestState, get_refreshed_token}
use immich_adapter.Auth.{
  Request, HttpResponse, credentials, filled_or_none, is_protected, look_up, after_response,
  finish_response, dispatch,
}
use immich_adapter.Auth.Stored.{store_refreshed-others}
use immich_adapter.Auth.Refreshed.{filled_or_none-source, look_up-token, Looked-cases}

-- The session token, where there is one, is another.
abbrev pub IsNot : String → Option String → Type 0
IsNot other o = (token : String) → o ≡ some token → (token == other) ≡ false

module _ (F : Formats) (K : Option Fernet) {D : Type 0} (R : Redis D) (redis : IsRedis R) where
  abbrev pub field_of : String → String → D → Option String
  field_of other f d = lookup f (R.hgetall (session other) d)

  finish_response-others :
      (down : Bool) (now : ℕ) (own : Option String) (result : Result HttpResponse) (h : Holder)
      (d : D) (other f : String)
      → IsNot other own
      → field_of other f (finish_response F K R down now own (result, (h, d))).1.1
        ≡ field_of other f d
  unfolding after_response
  finish_response-others down now own (err e) h d other f differs = refl
  finish_response-others down now own (ok response) h d other f differs =
      elim (Option-cases (filled_or_none (get_refreshed_token h))) [
        | inl e ↦ rw (e, after_response) refl
        | inr (jwt, e) ↦ elim (Option-cases (filled_or_none own)) [
          | inl g ↦ rw (e, g, after_response) refl
          | inr (token, g) ↦
              rw (e, g, after_response)
                (store_refreshed-others F K R redis down now token jwt other f d
                  (differs token (filled_or_none-source own token g)))
        ]
      ]

  -- A request changes no field of the session of a token that it does not carry, if its handler changes
  -- none: whatever tokens the backend refreshes, a request with an API key changes no session, and a
  -- request with a session token none but its own.
  pub dispatch-others :
      (lower : String → String) (call_next : Option RequestState → Exec (Holder × D) HttpResponse)
      (down down_after : Bool) (now : ℕ) (r : Request) (outer : Holder) (d : D) (other f : String)
      → IsNot other (credentials lower r).session_token
      → ((state : Option RequestState) (s : Holder × D)
          → field_of other f (call_next state s).1.1 ≡ field_of other f s.1)
      → field_of other f (dispatch F K R lower call_next down down_after now r (outer, d)).1.1
        ≡ field_of other f d
  unfolding dispatch
  dispatch-others lower call_next down down_after now r outer d other f differs kept =
      elim (Bool-cases (is_protected r.path)) [
        | inr open_ ↦ rw (open_, dispatch) (kept none (some none, d))
        | inl guarded ↦ elim (Looked-cases (look_up F K R down (credentials lower r) d)) [
          | inl (response, e) ↦ rw (guarded, e, dispatch) refl
          | inr (state, e) ↦
              let own = look_up-token F K R down (credentials lower r) state d e in
              let result = call_next (some state) (some none, d) in
              rw (guarded, e, dispatch)
                (finish_response-others down_after now state.session_token result.0 result.1.0
                    result.1.1 other f (λ token q. differs token (sym own ∙ q))
                  ∙ kept (some state) (some none, d))
        ]
      ]
