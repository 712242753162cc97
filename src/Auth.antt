-- ===== src/Auth.antt =====
-- application.cpp: the verification of a token and the user context of a request. A `JWKSStoreManager` is passed
-- in and handed back. Formatting the dates of a token for the log is taken to succeed.
pub mod Request
pub mod Laws
use fcgijwtauth.Base.{
  ℕ, Bool, true, false, Option, none, some, List, [], ◌∷◌, ◌++◌, if◌then◌else◌, Bytes, lit, is_nil,
}
use fcgijwtauth.Outcome.{
  Exception, Outcome, ok, throws, undefined, runtime_error, invalid_argument, other_exception,
  ◌>>=◌,
}
use fcgijwtauth.Library.{Library}
use fcgijwtauth.Jwks.Store.{Manager, verify_jwt}
use fcgijwtauth.Cookies.{Jar, get_cookie, get_token_from_cookie_or_authorization}
use fcgijwtauth.UserContext.{JwtUserContext, get_user_context}

-- The two `catch` clauses, behind which 1 is returned.
abbrev pub caught : Outcome ℕ → Outcome ℕ
caught (throws runtime_error) = ok 1
caught (throws invalid_argument) = ok 1
caught (throws other_exception) = throws other_exception
caught (ok n) = ok n
caught undefined = undefined

abbrev pub or_empty : Option Bytes → Bytes
or_empty none = []
or_empty (some text) = text

abbrev pub with_verified : ℕ → Option JwtUserContext → Option JwtUserContext
with_verified verified none = none
with_verified verified (some ctx) = some (record ctx { verified = verified })

module _ (lib : Library) where
  open lib use {
    Token, decode_token, get_type, get_algorithm, get_key_id, get_issuer, get_audience,
    get_issued_at, get_expires_at,
  }

  abbrev audience_read : Option (Outcome (List Bytes)) → Outcome (List Bytes)
  audience_read none = ok []
  audience_read (some audience) = audience

  -- The claims that are read before the verification; each may throw.
  unfoldable pub claims_read : Token → Outcome Token
  claims_read token = do
    typ ← get_type token
    algorithm ← get_algorithm token
    key_id ← get_key_id token
    issuer ← get_issuer token
    aud ← audience_read (get_audience token)
    ok token

  abbrev dates_read : Token → Outcome ℕ
  dates_read token = do
    issue_time_date ← get_issued_at token
    valid_until_date ← get_expires_at token
    ok 0

  -- Behind the verification.
  unfoldable pub checked : Token → Bytes → Bool → Outcome ℕ
  unfolding get_user_context
  checked token jwt_str false = ok 2
  checked token jwt_str true = get_user_context lib jwt_str >>= λ user_ctx. elim user_ctx [
    | none ↦ ok 3
    | some ctx ↦ dates_read token
  ]

  unfoldable pub verify_jwks_authentication_jwt : Manager lib → Bytes → Manager lib × Outcome ℕ
  unfolding claims_read checked verify_jwt lit
  verify_jwks_authentication_jwt store_man jwt_str = elim (decode_token jwt_str >>= claims_read) [
    | throws e ↦ (store_man, caught (throws e))
    | undefined ↦ (store_man, undefined)
    | ok token ↦
        let (store_man', verify_res) = verify_jwt lib (lit "microsoft") jwt_str store_man in
        (store_man', caught (verify_res >>= checked token jwt_str))
  ]

  unfoldable pub verify_jwks_authentication :
      Manager lib → Option Bytes → Option Bytes → Manager lib × Outcome ℕ
  unfolding verify_jwks_authentication_jwt get_token_from_cookie_or_authorization
  verify_jwks_authentication store_man cookies_str auth_str =
      verify_jwks_authentication_jwt store_man
        (get_token_from_cookie_or_authorization cookies_str auth_str)

  -- The end of both functions named `application_verify_jwt_authentication`; a null `store_man` is
  -- `none`.
  unfoldable pub authenticated :
      Option (Manager lib) → Bytes → Option (Manager lib) × Outcome (Option JwtUserContext)
  unfolding verify_jwks_authentication_jwt get_user_context
  authenticated none jwt_str =
      (none, get_user_context lib jwt_str >>= λ user_ctx. ok (with_verified 0 user_ctx))
  authenticated (some store_man) jwt_str =
      let (store_man', res) = verify_jwks_authentication_jwt store_man jwt_str in
      (
        some store_man',
        res >>= λ verified.
            get_user_context lib jwt_str >>= λ user_ctx. ok (with_verified verified user_ctx),
      )

  unfoldable pub application_verify_jwt_authentication_str :
      Option (Manager lib)
      → Option Bytes
      → Option Bytes
      → Option (Manager lib) × Outcome (Option JwtUserContext)
  unfolding authenticated get_token_from_cookie_or_authorization
  application_verify_jwt_authentication_str store_man cookies_str auth_str =
      authenticated store_man (get_token_from_cookie_or_authorization cookies_str auth_str)

  unfoldable pub application_verify_jwt_authentication :
      Option (Manager lib) → Option Jar → Option (Manager lib) × Outcome (Option JwtUserContext)
  unfolding authenticated get_cookie lit
  application_verify_jwt_authentication store_man cookies =
      authenticated store_man (or_empty (get_cookie cookies (lit "auth") 0))
