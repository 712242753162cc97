-- ===== src/Login/Code/RoundTrip.antt =====
-- The way of a login: the state that a form was answered with comes back with a code.
use fcgijwtauth.Base.{
  ℕ, arith, ◌≡◌, refl, ap, ◌∙◌, none, some, [], ◌∷◌, ◌++◌, Bytes, lit, Avoids, true,
}
use fcgijwtauth.Outcome.{ok}
use fcgijwtauth.Library.{Library}
use fcgijwtauth.Web.{Web, Config}
use fcgijwtauth.Auth.{verify_jwks_authentication_jwt, or_empty}
use fcgijwtauth.Cookies.{get_cookie}
use fcgijwtauth.Cookies.Memory.{c_string-Avoids}
use fcgijwtauth.State.{create_verifyable_string, verify_string}
use fcgijwtauth.State.RoundTrip.{
  verify_string-create_verifyable_string, truncate_at_second_last_dot-create_verifyable_string,
}
use fcgijwtauth.Login.{Server}
use fcgijwtauth.Login.Context.{RequestContext}
use fcgijwtauth.Login.Tokens.{got, get_tokens_from_microsoft}
use fcgijwtauth.Login.Post.{state_for}
use fcgijwtauth.Login.Code.{
  jwt_content_of, redirect_of, verified_answer, token_answer, code_answer, decide, code_decision,
}
use fcgijwtauth.Login.Decision.{authenticated}

Avoids-append : (c : ℕ) (xs ys : Bytes) → Avoids c xs → Avoids c ys → Avoids c (xs ++ ys)
Avoids-append c [] ys h k = k
Avoids-append c (x ∷ xs) ys (n, h) k = (n, Avoids-append c xs ys h k)

module _ (web : Web) (config : Config) (send_to : Bytes) where
  state_for_lem :
      Avoids 0 send_to
      → Avoids 0 web.current_time
      → state_for web config send_to
        ≡ create_verifyable_string config.client_secret (send_to ++ b'.' ∷ web.current_time)
  unfolding state_for
  state_for_lem h k = ap (create_verifyable_string config.client_secret) (
      c_string-Avoids (send_to ++ b'.' ∷ web.current_time)
        (Avoids-append 0 send_to (b'.' ∷ web.current_time) h (omega arith, k)))

  state_for-IsVerified :
      Avoids 0 send_to
      → Avoids 0 web.current_time
      → verify_string config.client_secret (state_for web config send_to) ≡ true
  state_for-IsVerified h k = rw (state_for_lem h k) (
      verify_string-create_verifyable_string config.client_secret
        (send_to ++ b'.' ∷ web.current_time))

  redirect_of-state_for :
      (lib : Library)
      → Avoids 0 send_to
      → Avoids 0 web.current_time
      → Avoids b'.' web.current_time
      → redirect_of lib (state_for web config send_to) ≡ (send_to, send_to)
  unfolding redirect_of
  redirect_of-state_for lib h k dots =
      ap (redirect_of lib) (state_for_lem h k)
      ∙ rw
          (
            truncate_at_second_last_dot-create_verifyable_string config.client_secret send_to
                web.current_time dots,
            redirect_of,
          )
          refl

-- The exchange and the verification behind a state that is verified.
code_answer-got :
    (lib : Library) (web : Web) (config : Config) (qs_code qs_state : Bytes) (server : Server lib)
    {jwtoken redirect_url state : Bytes}
    → (get_tokens_from_microsoft lib web config qs_code server.codes).1 ≡ ok (got jwtoken)
    → (verify_jwks_authentication_jwt lib server.store_man jwtoken).1 ≡ ok 0
    → redirect_of lib qs_state ≡ (redirect_url, state)
    → (code_answer lib web config qs_code qs_state server).1
      ≡ ok (authenticated jwtoken redirect_url state)
unfolding code_answer token_answer verified_answer
code_answer-got lib web config qs_code qs_state server exchanged accepted redirected =
    rw (exchanged, code_answer, token_answer)
      (rw (accepted, verified_answer) (rw (redirected) refl))

-- A state that was made for a page leads back to that page: a request that brings it with a code that
-- is exchanged for a token, which the verification returns 0 for, is found authenticated with that
-- token and that page, as long as neither the page nor the formatted time holds a NUL and the time no
-- dot, the request has no argument "error", and what the "auth" cookie shows is read without a throw.
-- Nothing else is asked of the page: it may be one of another site.
pub code_decision-state_for :
    (lib : Library) (web past : Web) (config : Config) (req_ctx : RequestContext web)
    (server : Server lib) (send_to : Bytes) {qs_code jwtoken jwt_content : Bytes}
    → Avoids 0 send_to
    → Avoids 0 past.current_time
    → Avoids b'.' past.current_time
    → web.get_by_key req_ctx.qs (lit "error") ≡ none
    → web.get_by_key req_ctx.qs (lit "code") ≡ some qs_code
    → web.get_by_key req_ctx.qs (lit "state") ≡ some (state_for past config send_to)
    → jwt_content_of lib (or_empty (get_cookie req_ctx.cookies (lit "auth") 0)) ≡ ok jwt_content
    → (get_tokens_from_microsoft lib web config qs_code server.codes).1 ≡ ok (got jwtoken)
    → (verify_jwks_authentication_jwt lib server.store_man jwtoken).1 ≡ ok 0
    → (code_decision lib web config req_ctx server).1 ≡ ok (authenticated jwtoken send_to send_to)
unfolding code_decision decide
code_decision-state_for lib web past config req_ctx server send_to {qs_code = qs_code} h k dots
      no_error code state shown exchanged accepted =
    rw (shown, code_decision)
      (rw (no_error, code, state, decide)
        (rw (state_for-IsVerified past config send_to h k, decide)
          (code_answer-got lib web config qs_code (state_for past config send_to) server exchanged
            accepted (redirect_of-state_for past config send_to lib h k dots))))
