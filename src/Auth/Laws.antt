-- ===== src/Auth/Laws.antt =====
-- What the results of the verification say, and what the answer to a request depends on.
use fcgijwtauth.Base.{
  ℕ, ◌≡◌, refl, ap, ◌∙◌, Bool, true, false, Option, none, some, Bytes, lit, inl, inr,
}
use fcgijwtauth.Outcome.{
  Outcome, ok, throws, undefined, runtime_error, invalid_argument, other_exception, ◌>>=◌,
  >>=-eq-ok, Outcome-cases,
}
use fcgijwtauth.Library.{Library}
use fcgijwtauth.Jwks.Store.{find_key, Verifier, Store, find_verifier, Manager, verify_jwt}
use fcgijwtauth.Jwks.Verify.{verify_jwt_sound}
use fcgijwtauth.Cookies.{Jar, get_cookie}
use fcgijwtauth.UserContext.{JwtUserContext, get_user_context}
use fcgijwtauth.Auth.{
  caught, claims_read, checked, verify_jwks_authentication_jwt, authenticated,
  application_verify_jwt_authentication, or_empty,
}
use fcgijwtauth.Auth.Request.{
  process_verification_request, verification_answer, answered, authorised_page, unauthorized_page,
}

caught_zero : (m : Outcome ℕ) → caught m ≡ ok 0 → m ≡ ok 0
caught_zero (throws runtime_error) e = cc
caught_zero (throws invalid_argument) e = cc
caught_zero (throws other_exception) e = cc
caught_zero (ok n) e = e
caught_zero undefined e = cc

module _ (lib : Library) where
  checked_zero :
      (token : lib.Token) (jwt_str : Bytes) (verified : Bool)
      → checked lib token jwt_str verified ≡ ok 0
      → (verified ≡ true)
        × ((ctx : JwtUserContext) × (get_user_context lib jwt_str ≡ ok (some ctx)))
  unfolding checked
  checked_zero token jwt_str false e = cc
  checked_zero token jwt_str true e = elim (Outcome-cases (get_user_context lib jwt_str)) [
    | inl (none, g) ↦ cc (rw (g, checked) at e)
    | inl (some ctx, g) ↦ (refl, (ctx, g))
    | inr (inl (x, g)) ↦ cc (rw (g, checked) at e)
    | inr (inr g) ↦ cc (rw (g, checked) at e)
  ]

  -- The verification returns 0 only for a token that names a user, and for which a verifier of the
  -- store "microsoft", held under the key that the token names, accepts it.
  pub verify_jwks_authentication_jwt_sound :
      (store_man : Manager lib) (jwt_str : Bytes)
      → (verify_jwks_authentication_jwt lib store_man jwt_str).1 ≡ ok 0
      → (store : Store lib) × (token : lib.Token) × (kid : Bytes) × (v : Verifier lib)
        × (ctx : JwtUserContext) × (find_key (lit "microsoft") store_man ≡ some store)
        × (lib.decode_token jwt_str ≡ ok token)
        × (lib.get_key_id token ≡ ok kid)
        × (find_key kid (find_verifier lib kid store).store.verifiers ≡ some v)
        × (lib.verify v.algorithm v.leeway token ≡ ok tt)
        × (get_user_context lib jwt_str ≡ ok (some ctx))
  unfolding verify_jwks_authentication_jwt
  verify_jwks_authentication_jwt_sound store_man jwt_str h =
      elim (Outcome-cases (lib.decode_token jwt_str >>= claims_read lib)) [
        | inr (inl (x, d)) ↦
            absurd (cc (caught_zero (throws x) (rw (d, verify_jwks_authentication_jwt) at h)))
        | inr (inr d) ↦ cc (rw (d, verify_jwks_authentication_jwt) at h)
        | inl (token, d) ↦
            let zero_result = caught_zero _ (rw (d, verify_jwks_authentication_jwt) at h) in
            let (verified, c, v) =
              >>=-eq-ok (checked lib token jwt_str)
                (verify_jwt lib (lit "microsoft") jwt_str store_man).1 zero_result in
            let (is_true, (ctx, named)) = checked_zero token jwt_str verified c in
            let (store, token', kid, w, m, t, k, held, accepted) =
              verify_jwt_sound lib (lit "microsoft") jwt_str store_man (v ∙ ap ok is_true) in
            (store, token', kid, w, ctx, m, t, k, held, accepted, named)
      ]

  -- A request is answered by the user context alone: with no hook, whatever number the verification
  -- of its "auth" cookie returned, one that stands for a failure included, the answer is the page
  -- with status 200 if the token names a user, and the page with status 401 if it names none.
  pub process_verification_request-get_user_context :
      (store_man : Manager lib) (jar : Jar) {n : ℕ} {ctx : Option JwtUserContext}
      → (verify_jwks_authentication_jwt lib store_man
          (or_empty (get_cookie (some jar) (lit "auth") 0))).1
        ≡ ok n
      → get_user_context lib (or_empty (get_cookie (some jar) (lit "auth") 0)) ≡ ok ctx
      → (process_verification_request lib none store_man (some jar)).1
        ≡ ok (elim ctx [ none ↦ answered unauthorized_page | some _ ↦ answered authorised_page ])
  unfolding process_verification_request application_verify_jwt_authentication authenticated
      verification_answer
  process_verification_request-get_user_context store_man jar {ctx = none} v g =
      rw (v, g, process_verification_request, application_verify_jwt_authentication, authenticated)
        refl
  process_verification_request-get_user_context store_man jar {ctx = some c} v g =
      rw (v, g, process_verification_request, application_verify_jwt_authentication, authenticated)
        refl
