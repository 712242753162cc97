-- ===== src/Login/Steady/Handlers.antt =====
-- Each handler keeps what a request keeps.
use fcgijwtauth.Base.{◌≡◌, refl, ◌∙◌, Option, none, some, Bytes, lit, Option-cases, inl, inr}
use fcgijwtauth.Outcome.{Outcome, Outcome-cases}
use fcgijwtauth.Library.{Library}
use fcgijwtauth.Web.{Web, Config}
use fcgijwtauth.Jwks.Keys.{keys, Distinct}
use fcgijwtauth.Auth.{verify_jwks_authentication_jwt, verify_jwks_authentication, or_empty}
use fcgijwtauth.Cookies.{get_cookie, get_token_from_cookie_or_authorization}
use fcgijwtauth.State.{verify_string}
use fcgijwtauth.Login.{Server, with_store}
use fcgijwtauth.Login.Context.{RequestContext}
use fcgijwtauth.Login.Tokens.{Retrieved, got, not_received, no_token, get_tokens_from_microsoft}
use fcgijwtauth.Login.Code.{jwt_content_of, token_answer, code_answer, decide, code_decision}
use fcgijwtauth.Login.Get.{already_authenticated, process_direct_token_auth_request}
use fcgijwtauth.Login.Dispatch.Handlers.{if_both}
use fcgijwtauth.Login.Steady.{
  verify_jwks_authentication_jwt-keys, get_tokens_from_microsoft-Distinct,
}

module _ (lib : Library) where
  -- The templates are the same, the stores are those of the same issuers, and the codes stay a map.
  pub record Steady (start server : Server lib) : Type 0 where
    pub login_page : server.login_page ≡ start.login_page
    pub logout_page : server.logout_page ≡ start.logout_page
    pub issuers : keys server.store_man ≡ keys start.store_man
    pub distinct : Distinct start.codes → Distinct server.codes

  pub same : (server : Server lib) → Steady server server
  same server = record { login_page = refl; logout_page = refl; issuers = refl; distinct = λ h. h }

  -- Behind a verification.
  pub verified :
      (server : Server lib) (jwt_str : Bytes)
      → Steady server
          (with_store (verify_jwks_authentication_jwt lib server.store_man jwt_str).0 server)
  verified server jwt_str = record {
    login_page = refl;
    logout_page = refl;
    issuers = verify_jwks_authentication_jwt-keys lib server.store_man jwt_str;
    distinct = λ h. h;
  }

  pub already_authenticated-Steady :
      (cookie authorisation : Option Bytes) (server : Server lib)
      → Steady server (already_authenticated lib cookie authorisation server).0
  unfolding already_authenticated verify_jwks_authentication
  already_authenticated-Steady none none server = same server
  already_authenticated-Steady none (some text) server =
      verified server (get_token_from_cookie_or_authorization none (some text))
  already_authenticated-Steady (some text) authorisation server =
      verified server (get_token_from_cookie_or_authorization (some text) authorisation)

  module _ (web : Web) (config : Config) where
    pub direct-Steady :
        (req_ctx : RequestContext web) (server : Server lib)
        → Steady server (process_direct_token_auth_request lib web req_ctx server).0
    unfolding process_direct_token_auth_request
    direct-Steady req_ctx server = elim (Option-cases (web.get_by_key req_ctx.qs (lit "token"))) [
      | inl m ↦ rw (m, process_direct_token_auth_request) (same server)
      | inr (jwtoken, m) ↦ rw (m, process_direct_token_auth_request) (verified server jwtoken)
    ]

    token_answer-Steady :
        (qs_state : Bytes) (r : Retrieved) (start server : Server lib)
        → Steady start server
        → Steady start (token_answer lib qs_state r server).0
    unfolding token_answer
    token_answer-Steady qs_state (got jwtoken) start server h = record {
      login_page = h.login_page;
      logout_page = h.logout_page;
      distinct = h.distinct;
      issuers = verify_jwks_authentication_jwt-keys lib server.store_man jwtoken ∙ h.issuers;
    }
    token_answer-Steady qs_state not_received start server h = h
    token_answer-Steady qs_state no_token start server h = h

    code_answer-Steady :
        (qs_code qs_state : Bytes) (server : Server lib)
        → Steady server (code_answer lib web config qs_code qs_state server).0
    unfolding code_answer
    code_answer-Steady qs_code qs_state server =
        let exchanged = get_tokens_from_microsoft lib web config qs_code server.codes in
        let kept : Steady server (record server { codes = exchanged.0 }) = record {
          login_page = refl;
          logout_page = refl;
          issuers = refl;
          distinct = get_tokens_from_microsoft-Distinct lib web config qs_code server.codes;
        } in
        elim (Outcome-cases exchanged.1) [
          | inl (r, m) ↦ rw (m, code_answer) (token_answer-Steady qs_state r server _ kept)
          | inr (inl (e, m)) ↦ rw (m, code_answer) kept
          | inr (inr m) ↦ rw (m, code_answer) kept
        ]

    decide-Steady :
        (qs_error description code_of state_of : Option Bytes) (cookie jwt_content : Bytes)
        (server : Server lib)
        → Steady server
            (decide lib web config qs_error description code_of state_of cookie jwt_content
              server).0
    unfolding decide
    decide-Steady (some qs_error) description code_of state_of cookie jwt_content server =
        same server
    decide-Steady none description none state_of cookie jwt_content server = same server
    decide-Steady none description (some qs_code) none cookie jwt_content server = same server
    decide-Steady none description (some qs_code) (some qs_state) cookie jwt_content server =
        if_both (λ (r : Server lib × Outcome _). Steady server r.0)
          (verify_string config.client_secret qs_state) _ _
          (code_answer-Steady qs_code qs_state server) (same server)

    pub code_decision-Steady :
        (req_ctx : RequestContext web) (server : Server lib)
        → Steady server (code_decision lib web config req_ctx server).0
    unfolding code_decision
    code_decision-Steady req_ctx server =
        let cookie = or_empty (get_cookie req_ctx.cookies (lit "auth") 0) in
        elim (Outcome-cases (jwt_content_of lib cookie)) [
          | inr (inl (e, m)) ↦ rw (m, code_decision) (same server)
          | inr (inr m) ↦ rw (m, code_decision) (same server)
          | inl (jwt_content, m) ↦
              rw (m, code_decision)
                (decide-Steady (web.get_by_key req_ctx.qs (lit "error"))
                  (web.get_by_key req_ctx.qs (lit "error_description"))
                  (web.get_by_key req_ctx.qs (lit "code")) (web.get_by_key req_ctx.qs (lit "state"))
                  cookie jwt_content server)
        ]
