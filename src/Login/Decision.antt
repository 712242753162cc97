-- ===== src/Login/Decision.antt =====
-- What `process_code_response` decides, and the page for each decision.
use fcgijwtauth.Base.{Bool, Option, none, some, [], ◌∷◌, if◌then◌else◌, Bytes, lit, concat}
use fcgijwtauth.Web.{Web}

-- What the handler decides; each page that it composes is one of these.
pub data Decision : Type 0 where
  provider_error : Bytes → Option Bytes → Decision
  incomplete : Bool → Bytes → Decision
  unverifiable : Decision
  no_tokens : Decision
  unauthorized : Decision
  -- The token, the page to return to and the state behind the truncation.
  authenticated : Bytes → Bytes → Bytes → Decision

module _ (web : Web) where
  unfoldable pub error_page : Bytes → Option Bytes → Bytes
  unfolding lit
  error_page qs_error qs_error_description =
      let detail : Bytes = elim qs_error_description [
        | none ↦ []
        | some description ↦ concat (
            lit "<h2>Further Detail of this Error</h2><p>"
            ∷ web.html_encode description
            ∷ lit "</p>\r\n"
            ∷ [])
      ] in
      concat (
        lit "Status: 200\r\nContent-Type: text/html; charset=utf-8\r\n\r\n<!DOCTYPE html>\r\n"
        ∷ lit "<html><head>\r\n<meta charset=\"UTF-8\" />\r\n"
        ∷ lit "<meta name=\"viewport\" content=\"width=device-width, initial-scale=1\" />\r\n"
        ∷ lit "<meta name=\"color-scheme\" content=\"dark light\" />\r\n<style>\r\n"
        ∷ lit "*, body { font-family: sans-serif; }\r\n</style>\r\n</head>\r\n<body>\r\n"
        ∷ lit "<h1>Error Returned by Microsoft</h1>\r\n<p>Error Code: <code>"
        ∷ qs_error
        ∷ lit "</code></p>\r\n"
        ∷ detail
        ∷ lit "<p><a href=\"/\">Click here to try again.</a></p>\r\n</body>\r\n</html>\r\n"
        ∷ [])

  unfoldable pub incomplete_page : Bool → Bytes → Bytes
  unfolding lit
  incomplete_page has_token jwt_content =
      let hint =
        if has_token
        then concat (
            lit
              "<p>Generally this is not a page that the developer expects you to see, sorry for that. Since you have a token you should go <a href=\"/\">back home</a> and, if possible, please report this to the developer.</p>\r\n"
            ∷ [])
        else [] in
      concat (
        lit "Status: 400\r\nContent-Type: text/html; charset=utf-8\r\n\r\n<!DOCTYPE html>\r\n"
        ∷ lit "<html><head>\r\n<meta charset=\"UTF-8\" />\r\n"
        ∷ lit "<meta name=\"viewport\" content=\"width=device-width, initial-scale=1\" />\r\n"
        ∷ lit "<meta name=\"color-scheme\" content=\"dark light\" />\r\n</head><body>\r\n"
        ∷ lit "<h1>400 Bad Request</h1>\r\n"
        ∷ lit
            "<p>Seems that no <code>code</code> or <code>state</code> argument were supplied.</p>\r\n"
        ∷ hint
        ∷ lit "<pre>"
        ∷ web.html_encode jwt_content
        ∷ lit "</pre>\r\n</body></html>\r\n"
        ∷ [])

unfoldable pub unverifiable_page : Bytes
unfolding lit
unverifiable_page = concat (
    lit "Status: 400\r\nContent-Type: text/html; charset=utf-8\r\n\r\n<!DOCTYPE html>\r\n"
    ∷ lit "<html><head></head><body>\r\n<h1>400 Error</h1>\r\n"
    ∷ lit "<p>Seems that the verifyable string was not verifyable, sorry.</p>\r\n"
    ∷ lit "</body></html>\r\n"
    ∷ [])

unfoldable pub no_tokens_page : Bytes
unfolding lit
no_tokens_page = concat (
    lit "Status: 500\r\nContent-Type: text/html; charset=utf-8\r\n\r\n<!DOCTYPE html>\r\n"
    ∷ lit "<html><head>\r\n<meta charset=\"UTF-8\" />\r\n"
    ∷ lit "<meta name=\"viewport\" content=\"width=device-width, initial-scale=1\" />\r\n"
    ∷ lit "<meta name=\"color-scheme\" content=\"dark light\" />\r\n</head><body>\r\n"
    ∷ lit "<h1>500 Error</h1>\r\n<p>Token retrieval failed.</p>\r\n</body></html>\r\n"
    ∷ [])

unfoldable pub unauthorized_page : Bytes
unfolding lit
unauthorized_page = concat (
    lit "Status: 401\r\nContent-Type: text/html; charset=utf-8\r\n\r\n<!DOCTYPE html>\r\n"
    ∷ lit "<html><head>\r\n<meta charset=\"UTF-8\" />\r\n"
    ∷ lit "<meta name=\"viewport\" content=\"width=device-width, initial-scale=1\" />\r\n"
    ∷ lit "<meta name=\"color-scheme\" content=\"dark light\" />\r\n</head><body>\r\n"
    ∷ lit "<h1>401 Unauthorized</h1>\r\n<p>verify_jwks_authentication_jwt() failed.</p>\r\n"
    ∷ lit "</body></html>\r\n"
    ∷ [])

unfoldable pub authenticated_page : Bytes → Bytes → Bytes → Bytes
unfolding lit
authenticated_page jwtoken redirect_url qs_state = concat (
    lit "Status: 302\r\nSet-Cookie: auth="
    ∷ jwtoken
    ∷ lit "; Path=/; Secure; HttpOnly; SameSite=Lax\r\n"
    ∷ lit "Content-Type: text/html; charset=utf-8\r\nLocation: "
    ∷ redirect_url
    ∷ lit "\r\n\r\n<!DOCTYPE html>\r\n<html>\r\n<head>\r\n<meta charset=\"UTF-8\" />\r\n"
    ∷ lit "<meta name=\"viewport\" content=\"width=device-width, initial-scale=1\" />\r\n"
    ∷ lit "<meta name=\"color-scheme\" content=\"dark light\" />\r\n</head>\r\n<body>\r\n"
    ∷ lit "<h1>Authenticated</h1>\r\n<p>If you are not redirected automatically please "
    ∷ lit "<a href=\""
    ∷ redirect_url
    ∷ lit "\">click here ("
    ∷ redirect_url
    ∷ lit ")</a>.</p>\r\n<p>Token Details Here</p>\r\n<p><a href=\"direct?token="
    ∷ jwtoken
    ∷ lit "&state="
    ∷ qs_state
    ∷ lit
        "\">Click here</a> to set the token as the <code>auth</code> cookie and continue...</p>\r\n"
    ∷ lit "</body>\r\n</html>\r\n"
    ∷ [])

module _ (web : Web) where
  unfoldable pub decision_page : Decision → Bytes
  unfolding error_page incomplete_page unverifiable_page no_tokens_page unauthorized_page
      authenticated_page
  decision_page (provider_error code description) = error_page web code description
  decision_page (incomplete has_token jwt_content) = incomplete_page web has_token jwt_content
  decision_page unverifiable = unverifiable_page
  decision_page no_tokens = no_tokens_page
  decision_page unauthorized = unauthorized_page
  decision_page (authenticated jwtoken redirect_url qs_state) =
      authenticated_page jwtoken redirect_url qs_state
