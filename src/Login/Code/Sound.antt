-- ===== src/Login/Code/Sound.antt =====
-- What an authenticated answer rests on, and the way from the state to the page.
use fcgijwtauth.Base.{
  ℕ, zero, suc, ◌≡◌, refl, ap, ◌∙◌, true, Option, none, some, Bytes, lit, Bool-cases, inl, inr,
}
use fcgijwtauth.Outcome.{ok, >>=-eq-ok, Outcome-cases}
use fcgijwtauth.Library.{Library}
use fcgijwtauth.Web.{Web, Config}
use fcgijwtauth.Auth.{verify_jwks_authentication_jwt, or_empty}
use fcgijwtauth.Cookies.{get_cookie}
use fcgijwtauth.State.{verify_string}
use fcgijwtauth.Login.{Server}
use fcgijwtauth.Login.Context.{RequestContext}
use fcgijwtauth.Login.Tokens.{Retrieved, got, not_received, no_token, get_tokens_from_microsoft}
use fcgijwtauth.Login.Code.{
  jwt_content_of, redirect_of, verified_answer, token_answer, code_answer, decide, code_decision,
}
use fcgijwtauth.Login.Decision.{authenticated}

module _ (lib : Library) where
  -- What is known where the token was accepted.
  abbrev pub Accepted : Bytes → Bytes → Bytes → Bytes → Server lib → Type 0
  Accepted jwtoken redirect_url state qs_state server =
      ((verify_jwks_authentication_jwt lib server.store_man jwtoken).1 ≡ ok 0)
      × (redirect_of lib qs_state ≡ (redirect_url, state))

  verified_answer-authenticated :
      (jwtoken qs_state : Bytes) (n : ℕ) {token redirect_url state : Bytes}
      → verified_answer lib jwtoken qs_state n ≡ authenticated token redirect_url state
      → (n ≡ 0) × (jwtoken ≡ token) × (redirect_of lib qs_state ≡ (redirect_url, state))
  unfolding verified_answer
  verified_answer-authenticated jwtoken qs_state zero e = (refl, cc e, cc e)
  verified_answer-authenticated jwtoken qs_state (suc n) e = cc e

  token_answer-Accepted :
      (qs_state : Bytes) (r : Retrieved) (server : Server lib) {jwtoken redirect_url state : Bytes}
      → (token_answer lib qs_state r server).1 ≡ ok (authenticated jwtoken redirect_url state)
      → (r ≡ got jwtoken) × Accepted jwtoken redirect_url state qs_state server
  unfolding token_answer
  token_answer-Accepted qs_state (got token) server e =
      let (n, decided, returned) =
        >>=-eq-ok (λ n. ok (verified_answer lib token qs_state n))
          (verify_jwks_authentication_jwt lib server.store_man token).1 e in
      let (is_zero, same, redirected) =
        verified_answer-authenticated token qs_state n (cc decided) in
      (ap got same, (rw (← same) (returned ∙ ap ok is_zero), redirected))
  token_answer-Accepted qs_state not_received server e = cc e
  token_answer-Accepted qs_state no_token server e = cc e

  module _ (web : Web) (config : Config) where
    code_answer-Accepted :
        (qs_code qs_state : Bytes) (server : Server lib) {jwtoken redirect_url state : Bytes}
        → (code_answer lib web config qs_code qs_state server).1
          ≡ ok (authenticated jwtoken redirect_url state)
        → ((get_tokens_from_microsoft lib web config qs_code server.codes).1 ≡ ok (got jwtoken))
          × Accepted jwtoken redirect_url state qs_state server
    unfolding code_answer
    code_answer-Accepted qs_code qs_state server e =
        elim (Outcome-cases (get_tokens_from_microsoft lib web config qs_code server.codes).1) [
          | inr (inl (x, m)) ↦ cc (rw (m, code_answer) at e)
          | inr (inr m) ↦ cc (rw (m, code_answer) at e)
          | inl (r, m) ↦
              let codes = (get_tokens_from_microsoft lib web config qs_code server.codes).0 in
              let (same, accepted) =
                token_answer-Accepted qs_state r (record server { codes = codes })
                  (rw (m, code_answer) at e) in
              (m ∙ ap ok same, accepted)
        ]

    -- The arguments of the query, the state verified and the token behind an authenticated answer.
    abbrev pub Rests :
        Option Bytes → Option Bytes → Option Bytes → Bytes → Bytes → Bytes → Server lib → Type 0
    Rests qs_error code_of state_of jwtoken redirect_url state server =
        (qs_code : Bytes) × (qs_state : Bytes) × (qs_error ≡ none)
        × (code_of ≡ some qs_code)
        × (state_of ≡ some qs_state)
        × (verify_string config.client_secret qs_state ≡ true)
        × ((get_tokens_from_microsoft lib web config qs_code server.codes).1 ≡ ok (got jwtoken))
        × ((verify_jwks_authentication_jwt lib server.store_man jwtoken).1 ≡ ok 0)
        × (redirect_of lib qs_state ≡ (redirect_url, state))

    decide-Rests :
        (qs_error description code_of state_of : Option Bytes) (cookie jwt_content : Bytes)
        (server : Server lib) {jwtoken redirect_url state : Bytes}
        → (decide lib web config qs_error description code_of state_of cookie jwt_content server).1
          ≡ ok (authenticated jwtoken redirect_url state)
        → Rests qs_error code_of state_of jwtoken redirect_url state server
    unfolding decide
    decide-Rests (some qs_error) description code_of state_of cookie jwt_content server e = cc e
    decide-Rests none description none state_of cookie jwt_content server e = cc e
    decide-Rests none description (some qs_code) none cookie jwt_content server e = cc e
    decide-Rests none description (some qs_code) (some qs_state) cookie jwt_content server e =
        elim (Bool-cases (verify_string config.client_secret qs_state)) [
          | inr unsigned ↦ cc (rw (unsigned, decide) at e)
          | inl signed ↦
              let (exchanged, (accepted, redirected)) =
                code_answer-Accepted qs_code qs_state server (rw (signed, decide) at e) in
              (qs_code, qs_state, refl, refl, refl, signed, exchanged, accepted, redirected)
        ]

    -- A request is found authenticated only if it has no argument "error", its state is verified with
    -- the secret of the server, and its code was exchanged for a token that the verification of tokens
    -- returned 0 for; the token that is then set and the page that is led to are that token and the
    -- page of that state.
    pub code_decision_sound :
        (req_ctx : RequestContext web) (server : Server lib) {jwtoken redirect_url state : Bytes}
        → (code_decision lib web config req_ctx server).1
          ≡ ok (authenticated jwtoken redirect_url state)
        → Rests
            (web.get_by_key req_ctx.qs (lit "error"))
            (web.get_by_key req_ctx.qs (lit "code"))
            (web.get_by_key req_ctx.qs (lit "state"))
            jwtoken
            redirect_url
            state
            server
    unfolding code_decision
    code_decision_sound req_ctx server e =
        let cookie = or_empty (get_cookie req_ctx.cookies (lit "auth") 0) in
        elim (Outcome-cases (jwt_content_of lib cookie)) [
          | inr (inl (x, m)) ↦ cc (rw (m, code_decision) at e)
          | inr (inr m) ↦ cc (rw (m, code_decision) at e)
          | inl (jwt_content, m) ↦
              decide-Rests (web.get_by_key req_ctx.qs (lit "error"))
                (web.get_by_key req_ctx.qs (lit "error_description"))
                (web.get_by_key req_ctx.qs (lit "code")) (web.get_by_key req_ctx.qs (lit "state"))
                cookie jwt_content server (rw (m, code_decision) at e)
        ]
