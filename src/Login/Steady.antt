-- ===== src/Login/Steady.antt =====
-- What every request keeps of the server, and so what every sequence of requests keeps.
pub mod Handlers
pub mod Dispatch
pub mod Reach
use fcgijwtauth.Base.{
  ℕ, ◌≡◌, refl, ap, ◌∙◌, sym, Bool, true, false, ◌&&◌, Option, none, some, List, [], ◌∷◌, ◌++◌,
  if◌then◌else◌, Bytes, bytes_eq, lit, leb, arith, Bool-cases, Option-cases, inl, inr,
}
use fcgijwtauth.Outcome.{Outcome, ok, throws, undefined, ◌>>=◌, Outcome-cases}
use fcgijwtauth.Library.{Library}
use fcgijwtauth.Web.{Web, Config}
use fcgijwtauth.HttpClient.{http_post}
use fcgijwtauth.Jwks.Store.{find_key, update_key, Manager, find_verifier, verify_jwt}
use fcgijwtauth.Jwks.Keys.{
  keys, Distinct, keys-update_key, update_key-Distinct, try_emplace-Distinct,
}
use fcgijwtauth.Auth.{claims_read, verify_jwks_authentication_jwt, verify_jwks_authentication}
use fcgijwtauth.Cookies.{get_token_from_cookie_or_authorization}
use fcgijwtauth.Login.{Codes, Server, TimedEntry}
use fcgijwtauth.Login.Tokens.{
  remove_expired, post_data, timed, keep_token, token_read, requested, get_tokens_from_microsoft,
  lifetime,
}
use fcgijwtauth.Login.Tokens.Entries.{find_key-remove_expired}

remove_expired-Distinct :
    (now : ℕ) (codes : Codes) → Distinct codes → Distinct (remove_expired now codes)
unfolding remove_expired
remove_expired-Distinct now [] h = tt
remove_expired-Distinct now ((k, entry) ∷ codes) (absent, h) =
    elim (Bool-cases (leb entry.expires_at now)) [
      | inl expired ↦ rw (expired, remove_expired) (remove_expired-Distinct now codes h)
      | inr live ↦
          rw (live, remove_expired)
            (find_key-remove_expired now k codes absent, remove_expired-Distinct now codes h)
    ]

module _ (lib : Library) where
  verify_jwt-keys :
      (issuer jwt_str : Bytes) (stores : Manager lib)
      → keys (verify_jwt lib issuer jwt_str stores).0 ≡ keys stores
  unfolding verify_jwt
  verify_jwt-keys issuer jwt_str stores = elim (Option-cases (find_key issuer stores)) [
    | inl m ↦ rw (m, verify_jwt) refl
    | inr (store, m) ↦ elim (Outcome-cases (lib.decode_token jwt_str)) [
      | inr (inl (e, d)) ↦ rw (m, d, verify_jwt) refl
      | inr (inr d) ↦ rw (m, d, verify_jwt) refl
      | inl (token, d) ↦ elim (Outcome-cases (lib.get_key_id token)) [
        | inr (inl (e, k)) ↦ rw (m, d, k, verify_jwt) refl
        | inr (inr k) ↦ rw (m, d, k, verify_jwt) refl
        | inl (kid, k) ↦
            rw (m, d, k, verify_jwt)
              (keys-update_key issuer (find_verifier lib kid store).store stores)
      ]
    ]
  ]

  pub verify_jwks_authentication_jwt-keys :
      (store_man : Manager lib) (jwt_str : Bytes)
      → keys (verify_jwks_authentication_jwt lib store_man jwt_str).0 ≡ keys store_man
  unfolding verify_jwks_authentication_jwt
  verify_jwks_authentication_jwt-keys store_man jwt_str =
      elim (Outcome-cases (lib.decode_token jwt_str >>= claims_read lib)) [
        | inr (inl (e, d)) ↦ rw (d, verify_jwks_authentication_jwt) refl
        | inr (inr d) ↦ rw (d, verify_jwks_authentication_jwt) refl
        | inl (token, d) ↦
            rw (d, verify_jwks_authentication_jwt)
              (verify_jwt-keys (lit "microsoft") jwt_str store_man)
      ]

  module _ (web : Web) (config : Config) where
    keep_token-Distinct :
        (code : Bytes) (codes : Codes) (val : lib.Value)
        → Distinct codes
        → Distinct (keep_token lib web config code codes val).0
    unfolding keep_token
    keep_token-Distinct code codes val h = elim (Option-cases (lib.as_string val)) [
      | inl m ↦ rw (m, keep_token) h
      | inr (text, m) ↦
          rw (m, keep_token) (try_emplace-Distinct code (timed lib web config text) codes h)
    ]

    token_read-Distinct :
        (code : Bytes) (codes : Codes) (val : lib.Value)
        → Distinct codes
        → Distinct (token_read lib web config code codes val).0
    unfolding token_read
    token_read-Distinct code codes val h = elim (Option-cases (lib.as_object val)) [
      | inl m ↦ rw (m, token_read) h
      | inr (obj, m) ↦ elim (Option-cases (find_key (lit "id_token") obj)) [
        | inl n ↦ rw (m, token_read) (rw (n, token_read) h)
        | inr (member, n) ↦
            rw (m, token_read) (rw (n, token_read) (keep_token-Distinct code codes member h))
      ]
    ]

    pub get_tokens_from_microsoft-Distinct :
        (code : Bytes) (codes : Codes)
        → Distinct codes
        → Distinct (get_tokens_from_microsoft lib web config code codes).0
    unfolding get_tokens_from_microsoft requested
    get_tokens_from_microsoft-Distinct code codes h = elim (Option-cases (find_key code codes)) [
      | inr (entry, m) ↦ rw (m, get_tokens_from_microsoft) (update_key-Distinct code _ codes h)
      | inl m ↦
          let live = remove_expired-Distinct web.steady_now codes h in
          rw (m, get_tokens_from_microsoft)
            (elim (Option-cases (
              http_post web
                (some (lit "https://login.microsoftonline.com/common/oauth2/v2.0/token"))
                (lit "application/x-www-form-urlencoded") (post_data lib web config code))) [
                  | inl n ↦ rw (n, requested) live
                  | inr (r, n) ↦
                      rw (n, requested)
                        (token_read-Distinct code (remove_expired web.steady_now codes)
                          (lib.parse r.body) live)
                ])
    ]
