-- ===== src/Auth/Request.antt =====
-- `process_verification_request` of appauth.cpp: the request that the web server asks whether to let
-- another request through. What it writes to stderr is left out.
use fcgijwtauth.Base.{ℕ, Option, none, some, List, [], ◌∷◌, ◌++◌, if◌then◌else◌, ◌==◌, Bytes, lit}
use fcgijwtauth.Outcome.{Outcome, ok, ◌>>=◌}
use fcgijwtauth.Library.{Library}
use fcgijwtauth.Jwks.Store.{Manager}
use fcgijwtauth.Cookies.{Jar}
use fcgijwtauth.UserContext.{JwtUserContext}
use fcgijwtauth.Auth.{application_verify_jwt_authentication}
use fcgijwtauth.Fcgi.{Event}

-- The three pages differ in the status, the title and the heading.
unfoldable pub page : Bytes → Bytes → Bytes → Bytes
unfolding lit
page status title heading =
    lit "Status: "
    ++ (status
        ++ (lit "\r\nContent-Type: text/html; charset=utf-8\r\n\r\n"
            ++ (lit "<!DOCTYPE html>\r\n<html>\r\n<head>\r\n<meta charset=\"UTF-8\" />\r\n"
                ++ (lit
                      "<meta name=\"viewport\" content=\"width=device-width, initial-scale=1\" />\r\n"
                    ++ (lit "<meta name=\"color-scheme\" content=\"dark light\" />\r\n<title>"
                        ++ (title
                            ++ (lit "</title>\r\n</head>\r\n<body>\r\n<h1>"
                                ++ (heading ++ lit " (0)</h1>\r\n</body>\r\n</html>\r\n"))))))))

abbrev pub authorised_page : Bytes
authorised_page = page (lit "200") (lit "Authorisation") (lit "200 Authorisation")

abbrev pub unauthorized_page : Bytes
unauthorized_page = page (lit "401 Unauthorized") (lit "401 Unauthorized") (lit "401 Unauthorized")

abbrev pub forbidden_page : Bytes
forbidden_page = page (lit "403 Forbidden") (lit "403 Forbidden") (lit "401 Forbidden")

-- The calls behind the label `finished`.
abbrev pub answered : Bytes → List Event
answered text = Event.put text ∷ Event.flush ∷ Event.close ∷ Event.finish ∷ []

-- `appspecific_authorisation_verification` is there only in a build that defines
-- `APPLICATION_AUTHORISATION_VERIFICATION`.
unfoldable pub verification_answer :
    Option (JwtUserContext → ℕ) → Option JwtUserContext → List Event
unfolding page
verification_answer hook none = answered unauthorized_page
verification_answer none (some user_ctx) = answered authorised_page
verification_answer (some hook) (some user_ctx) =
    answered (if hook user_ctx == 0 then authorised_page else forbidden_page)

module _ (lib : Library) where
  -- The manager behind the request, and what was done to the request.
  unfoldable pub process_verification_request :
      Option (JwtUserContext → ℕ)
      → Manager lib
      → Option Jar
      → Option (Manager lib) × Outcome (List Event)
  unfolding verification_answer application_verify_jwt_authentication
  process_verification_request hook store_man cookies =
      let (store_man', user_ctx) =
        application_verify_jwt_authentication lib (some store_man) cookies in
      (store_man', user_ctx >>= λ ctx. ok (verification_answer hook ctx))
