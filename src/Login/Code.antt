-- ===== src/Login/Code.antt =====
-- `process_code_response`: the return from the provider, with a code that is exchanged for a token.
pub mod Sound
pub mod RoundTrip
use fcgijwtauth.Base.{
  ℕ, zero, suc, Bool, true, false, not, Option, none, some, List, [], ◌∷◌, if◌then◌else◌, Bytes,
  lit, is_nil, concat,
}
use fcgijwtauth.Outcome.{Outcome, ok, throws, undefined, ◌>>=◌}
use fcgijwtauth.Library.{Library}
use fcgijwtauth.Web.{Web, Config}
use fcgijwtauth.Jwks.Store.{Manager}
use fcgijwtauth.Cookies.{Jar, get_cookie, c_string}
use fcgijwtauth.UserContext.{JwtUserContext, get_user_context}
use fcgijwtauth.Auth.{verify_jwks_authentication_jwt, or_empty}
use fcgijwtauth.Auth.Request.{answered}
use fcgijwtauth.State.{verify_string, truncate_at_second_last_dot}
use fcgijwtauth.Fcgi.{Event}
use fcgijwtauth.Login.{Codes, Server}
use fcgijwtauth.Login.Context.{RequestContext}
use fcgijwtauth.Login.Decision.{
  Decision, provider_error, incomplete, unverifiable, no_tokens, unauthorized, authenticated,
  decision_page,
}
use fcgijwtauth.Login.Tokens.{Retrieved, get_tokens_from_microsoft}

module _ (lib : Library) where
  -- What of the user that a token names is shown.
  abbrev shown_user : Option JwtUserContext → Bytes
  shown_user none = []
  shown_user (some user_ctx) = concat (
      c_string user_ctx.header_json_str
      ∷ lit "\r\n"
      ∷ c_string user_ctx.payload_json_str_pretty
      ∷ lit "\r\n"
      ∷ [])

  unfoldable pub jwt_content_of : Bytes → Outcome Bytes
  unfolding get_user_context lit c_string
  jwt_content_of [] = ok (lit "NO CONTENT: ERROR\r\n")
  jwt_content_of (c ∷ jwtoken) =
      get_user_context lib (c ∷ jwtoken) >>= λ user_ctx. ok (shown_user user_ctx)

  -- `redirect_url` and the state behind `truncate_at_second_last_dot`, which cuts it in place.
  unfoldable pub redirect_of : Bytes → Bytes × Bytes
  redirect_of qs_state = elim (truncate_at_second_last_dot qs_state) [
    | none ↦ ([], qs_state)
    | some (cut, last) ↦ (cut, cut)
  ]

  -- Behind the verification of the token.
  unfoldable pub verified_answer : Bytes → Bytes → ℕ → Decision
  unfolding redirect_of
  verified_answer jwtoken qs_state zero =
      let (redirect_url, state) = redirect_of qs_state in authenticated jwtoken redirect_url state
  verified_answer jwtoken qs_state (suc res) = unauthorized

  -- Behind the exchange of the code; a token is never the null pointer.
  unfoldable pub token_answer : Bytes → Retrieved → Server lib → Server lib × Outcome Decision
  unfolding verify_jwks_authentication_jwt verified_answer
  token_answer qs_state (Retrieved.got jwtoken) server =
      let (store_man, res) = verify_jwks_authentication_jwt lib server.store_man jwtoken in
      (
        record server { store_man = store_man },
        res >>= λ n. ok (verified_answer jwtoken qs_state n),
      )
  token_answer qs_state Retrieved.not_received server = (server, ok no_tokens)
  token_answer qs_state Retrieved.no_token server = (server, ok no_tokens)

  module _ (web : Web) (config : Config) where
    -- Behind the verification of the state.
    unfoldable pub code_answer : Bytes → Bytes → Server lib → Server lib × Outcome Decision
    unfolding get_tokens_from_microsoft token_answer
    code_answer qs_code qs_state server =
        let (codes, retrieved) = get_tokens_from_microsoft lib web config qs_code server.codes in
        let server' : Server lib = record server { codes = codes } in
        elim retrieved [
          | ok r ↦ token_answer qs_state r server'
          | throws e ↦ (server', throws e)
          | undefined ↦ (server', undefined)
        ]

    -- The four arguments of the query, and the texts of the "auth" cookie and of what it holds.
    unfoldable pub decide :
        Option Bytes
        → Option Bytes
        → Option Bytes
        → Option Bytes
        → Bytes
        → Bytes
        → Server lib
        → Server lib × Outcome Decision
    unfolding verify_string code_answer
    decide (some qs_error) description qs_code qs_state jwtoken jwt_content server =
        (server, ok (provider_error qs_error description))
    decide none description (some qs_code) (some qs_state) jwtoken jwt_content server =
        if verify_string config.client_secret qs_state
        then code_answer qs_code qs_state server
        else (server, ok unverifiable)
    decide none description _ _ jwtoken jwt_content server =
        (server, ok (incomplete (not (is_nil jwtoken)) jwt_content))

    -- The decision on a request.
    unfoldable pub code_decision : RequestContext web → Server lib → Server lib × Outcome Decision
    unfolding get_cookie jwt_content_of decide lit
    code_decision req_ctx server =
        let jwtoken = or_empty (get_cookie req_ctx.cookies (lit "auth") 0) in
        elim (jwt_content_of jwtoken) [
          | throws e ↦ (server, throws e)
          | undefined ↦ (server, undefined)
          | ok jwt_content ↦
              decide (web.get_by_key req_ctx.qs (lit "error"))
                (web.get_by_key req_ctx.qs (lit "error_description"))
                (web.get_by_key req_ctx.qs (lit "code")) (web.get_by_key req_ctx.qs (lit "state"))
                jwtoken jwt_content server
        ]

    unfoldable pub process_code_response :
        RequestContext web → Server lib → Server lib × Outcome (List Event)
    unfolding code_decision decision_page
    process_code_response req_ctx server =
        let (server', decision) = code_decision req_ctx server in
        (server', decision >>= λ d. ok (answered (decision_page web d)))
