-- ===== src/Login/Get.antt =====
-- `process_login_page_get`, `process_direct_token_auth_request` and
-- `process_debug_token_auth_request`.
pub mod Local
use fcgijwtauth.Base.{
  ℕ, zero, suc, ◌+◌, ◌/◌, ◌%◌, Bool, true, false, ◌&&◌, not, Option, none, some, List, [], ◌∷◌,
  ◌++◌, leb, ◌==◌, if◌then◌else◌, Bytes, length, lit, bytes_eq, take, drop, get_or, concat,
}
use fcgijwtauth.Outcome.{Outcome, ok, throws, undefined, ◌>>=◌}
use fcgijwtauth.Library.{Library}
use fcgijwtauth.Web.{Web}
use fcgijwtauth.Template.{Engine, of_text, set_variable, render}
use fcgijwtauth.Cookies.{get_cookie, c_string}
use fcgijwtauth.Auth.{verify_jwks_authentication, verify_jwks_authentication_jwt, or_empty}
use fcgijwtauth.Fcgi.{Event}
use fcgijwtauth.Login.{Server, Request, with_store}
use fcgijwtauth.Login.Context.{RequestContext}
use fcgijwtauth.Login.Pages.{login_page_content}
use fcgijwtauth.Login.Code.{jwt_content_of}

-- The test of the query string.
unfoldable pub is_local_return : Bytes → Bool
unfolding lit bytes_eq
is_local_return query_string =
    leb 8 (length query_string)
    && (bytes_eq (take 7 query_string) (lit "return=")
        && (get_or query_string 7 0 == b'/' && not (get_or query_string 8 0 == b'/')))

-- Where the query string tells the login page to lead to.
unfoldable pub return_to_of : Option Bytes → Bytes
unfolding is_local_return lit
return_to_of none = lit "/"
return_to_of (some query_string) =
    if is_local_return query_string then drop 7 query_string else lit "/"

-- The page for a user whose token was verified, with 0 for `res`.
unfoldable pub return_page : Bytes → Bytes
unfolding lit
return_page return_to = concat (
    lit "Status: 302\r\nLocation: "
    ∷ return_to
    ∷ lit "\r\nContent-Type: text/html; charset=utf-8\r\n\r\n"
    ∷ lit "<!DOCTYPE html>\r\n<html>\r\n<head>\r\n<meta charset=\"UTF-8\" />\r\n"
    ∷ lit "<meta name=\"viewport\" content=\"width=device-width, initial-scale=1\" />\r\n"
    ∷ lit "<meta name=\"color-scheme\" content=\"dark light\" />\r\n"
    ∷ lit "<title>Authorisation</title>\r\n</head>\r\n<body>\r\n"
    ∷ lit "<h1>200 Authorisation (0)</h1>\r\n</body>\r\n</html>\r\n"
    ∷ [])

unfoldable pub final_login_page : {lib : Library} → Server lib → Bytes → Bytes
unfolding login_page_content set_variable render lit c_string
final_login_page server return_to =
    lit "Status: 200\r\nContent-Type: text/html; charset=utf-8\r\n\r\n"
    ++ c_string (
        render true
          (set_variable (lit "REDIRECT_URL") return_to (of_text (login_page_content server))))

-- The two puts where the token was verified, or the second alone.
abbrev pub login_events : Bytes → Bytes → Bool → List Event
login_events first page true = Event.put first ∷ Event.put page ∷ Event.close ∷ Event.finish ∷ []
login_events first page false = Event.put page ∷ Event.close ∷ Event.finish ∷ []

unfoldable pub missing_token_page : Bytes
unfolding lit
missing_token_page = concat (
    lit "Status: 401 Unauthorized\r\nContent-Type: text/html; charset=utf-8\r\n\r\n"
    ∷ lit "<!DOCTYPE html>\r\n<html>\r\n<head>\r\n<meta charset=\"UTF-8\" />\r\n"
    ∷ lit "<meta name=\"viewport\" content=\"width=device-width, initial-scale=1\" />\r\n"
    ∷ lit "<meta name=\"color-scheme\" content=\"dark light\" />\r\n"
    ∷ lit "<title>401 Unauthorized</title>\r\n</head>\r\n<body>\r\n"
    ∷ lit "<h1>400 Bad Request</h1>\r\n<p><code>token</code> MUST be supplied.</p>\r\n"
    ∷ lit "</body>\r\n</html>\r\n"
    ∷ [])

-- `%d` of the codes 1, 2 and 3.
abbrev pub decimal : ℕ → Bytes
decimal res = (b'0' + res % 10) ∷ []

unfoldable pub rejected_page : ℕ → Bytes
unfolding lit
rejected_page res = concat (
    lit "Status: 401\r\nContent-Type: text/html; charset=utf-8\r\n\r\n<!DOCTYPE html>\r\n"
    ∷ lit "<html>\r\n<head>\r\n<meta charset=\"UTF-8\" />\r\n"
    ∷ lit "<meta name=\"viewport\" content=\"width=device-width, initial-scale=1\" />\r\n"
    ∷ lit "<meta name=\"color-scheme\" content=\"dark light\" />\r\n"
    ∷ lit "<title>401 Unauthorized</title>\r\n</head>\r\n<body>\r\n"
    ∷ lit "<h1>401 Unauthorized</h1>\r\n<p>Could not verify supplied token, rc = "
    ∷ decimal res
    ∷ lit ".</p>\r\n"
    ∷ lit "</body>\r\n</html>\r\n"
    ∷ [])

unfoldable pub accepted_page : Bytes → Bytes → Bytes
unfolding lit
accepted_page jwtoken qs_state = concat (
    lit "Status: 200\r\nSet-Cookie: auth="
    ∷ jwtoken
    ∷ lit "; Path=/; Secure; HttpOnly; SameSite=Lax\r\n"
    ∷ lit "Content-Type: text/html; charset=utf-8\r\n\r\n<!DOCTYPE html>\r\n<html>\r\n"
    ∷ lit "<head>\r\n<meta charset=\"UTF-8\" />\r\n"
    ∷ lit "<meta name=\"viewport\" content=\"width=device-width, initial-scale=1\" />\r\n"
    ∷ lit "<meta name=\"color-scheme\" content=\"dark light\" />\r\n<title>200 OK</title>\r\n"
    ∷ lit "</head>\r\n<body>\r\n<h1>200 OK</h1>\r\n"
    ∷ lit "<p>Supplied token verified and accepted.</p>\r\n<p>"
    ∷ qs_state
    ∷ lit "</p>\r\n</body>\r\n"
    ∷ lit "</html>\r\n"
    ∷ [])

unfoldable pub debug_page : Bytes → Bytes
unfolding lit
debug_page jwt_content = concat (
    lit "Status: 200\r\nContent-Type: text/html; charset=utf-8\r\n\r\n<!DOCTYPE html>\r\n"
    ∷ lit "<html>\r\n<head>\r\n<meta charset=\"UTF-8\" />\r\n"
    ∷ lit "<meta name=\"viewport\" content=\"width=device-width, initial-scale=1\" />\r\n"
    ∷ lit "<meta name=\"color-scheme\" content=\"dark light\" />\r\n<title>200 OK</title>\r\n"
    ∷ lit "</head>\r\n<body>\r\n<h1>200 OK</h1>\r\n<p>Contents of Supplied Token:</p>\r\n"
    ∷ lit "<pre>"
    ∷ jwt_content
    ∷ lit "</pre>\r\n</body>\r\n</html>\r\n"
    ∷ [])

-- The calls behind the label `finished`, where `page` is empty.
abbrev pub direct_events : Bytes → List Event
direct_events text = Event.put text ∷ Event.put [] ∷ Event.close ∷ Event.finish ∷ []

unfoldable pub state_or_null : Option Bytes → Bytes
unfolding lit
state_or_null none = lit "(null?)"
state_or_null (some qs_state) = qs_state

-- What is answered to the number that the verification returned.
unfoldable pub direct_page : Bytes → Option Bytes → ℕ → Bytes
unfolding accepted_page rejected_page state_or_null
direct_page jwtoken qs_state zero = accepted_page jwtoken (state_or_null qs_state)
direct_page jwtoken qs_state (suc n) = rejected_page (suc n)

module _ (lib : Library) where
  -- The verification, which is made where there is a cookie or an authorization header.
  unfoldable pub already_authenticated :
      Option Bytes → Option Bytes → Server lib → Server lib × Outcome Bool
  unfolding verify_jwks_authentication
  already_authenticated none none server = (server, ok false)
  already_authenticated cookie authorisation server =
      let (store_man, res) = verify_jwks_authentication lib server.store_man cookie authorisation in
      (with_store store_man server, res >>= λ n. ok (n == 0))

  unfoldable pub process_login_page_get :
      Request → Option Bytes → Server lib → Server lib × Outcome (List Event)
  unfolding already_authenticated return_to_of return_page final_login_page lit
  process_login_page_get req query_string server =
      let return_to = return_to_of query_string in
      let (server', verified) =
        already_authenticated (req.get_param (lit "HTTP_COOKIE"))
          (req.get_param (lit "HTTP_AUTHORIZATION")) server in
      (
        server',
        verified >>= λ is_verified.
            ok (
              login_events (return_page return_to) (final_login_page server return_to) is_verified),
      )

  module _ (web : Web) where
    unfoldable pub process_direct_token_auth_request :
        RequestContext web → Server lib → Server lib × Outcome (List Event)
    unfolding verify_jwks_authentication_jwt missing_token_page direct_page lit
    process_direct_token_auth_request req_ctx server =
        elim (web.get_by_key req_ctx.qs (lit "token")) [
          | none ↦ (server, ok (direct_events missing_token_page))
          | some jwtoken ↦
              let (store_man, res) = verify_jwks_authentication_jwt lib server.store_man jwtoken in
              (
                with_store store_man server,
                res >>= λ n. ok (
                    direct_events
                      (direct_page jwtoken (web.get_by_key req_ctx.qs (lit "state")) n)),
              )
        ]

    unfoldable pub process_debug_token_auth_request : RequestContext web → Outcome (List Event)
    unfolding get_cookie jwt_content_of debug_page lit
    process_debug_token_auth_request req_ctx =
        jwt_content_of lib (or_empty (get_cookie req_ctx.cookies (lit "auth") 0)) >>= λ jwt_content.
        ok (Event.put (debug_page jwt_content) ∷ Event.close ∷ Event.finish ∷ [])
