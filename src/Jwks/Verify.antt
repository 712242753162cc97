-- ===== src/Jwks/Verify.antt =====
-- What a token that was verified shows.
use fcgijwtauth.Base.{◌≡◌, refl, ap, ◌∙◌, true, Option, none, some, Bytes, Option-cases, inl, inr}
use fcgijwtauth.Outcome.{ok, >>=-eq-ok, Outcome-cases}
use fcgijwtauth.Library.{Library}
use fcgijwtauth.Jwks.Store.{
  find_key, Verifier, Store, find_verifier, Manager, verify_with, verify_jwt,
}
use fcgijwtauth.Jwks.Refresh.{find_verifier_sound}

module _ (lib : Library) where
  verify_with_sound :
      (v : Option (Verifier lib)) (token : lib.Token)
      → verify_with lib v token ≡ ok true
      → (w : Verifier lib) × (v ≡ some w) × (lib.verify w.algorithm w.leeway token ≡ ok tt)
  unfolding verify_with
  verify_with_sound none token h = cc
  verify_with_sound (some v) token h =
      elim (Outcome-cases (lib.verify v.algorithm v.leeway token)) [
        | inl (_, e) ↦ (v, refl, e)
        | inr (inl (x, e)) ↦ cc (rw (e, verify_with) at h)
        | inr (inr e) ↦ cc (rw (e, verify_with) at h)
      ]

  -- `verify_jwt` says yes only to a string that decodes to a token, for an issuer that has a store,
  -- where the token names a key for which the store, behind the look-up, holds a verifier, and this
  -- verifier accepts the token.
  pub verify_jwt_sound :
      (issuer jwt_str : Bytes) (stores : Manager lib)
      → (verify_jwt lib issuer jwt_str stores).1 ≡ ok true
      → (store : Store lib) × (token : lib.Token) × (kid : Bytes) × (v : Verifier lib) × (find_key
            issuer stores
          ≡ some store)
        × (lib.decode_token jwt_str ≡ ok token)
        × (lib.get_key_id token ≡ ok kid)
        × (find_key kid (find_verifier lib kid store).store.verifiers ≡ some v)
        × (lib.verify v.algorithm v.leeway token ≡ ok tt)
  unfolding verify_jwt
  verify_jwt_sound issuer jwt_str stores h = elim (Option-cases (find_key issuer stores)) [
    | inl m ↦ cc (rw (m, verify_jwt) at h)
    | inr (store, m) ↦ elim (Outcome-cases (lib.decode_token jwt_str)) [
      | inr (inl (x, d)) ↦ cc (rw (m, d, verify_jwt) at h)
      | inr (inr d) ↦ cc (rw (m, d, verify_jwt) at h)
      | inl (token, d) ↦ elim (Outcome-cases (lib.get_key_id token)) [
        | inr (inl (x, k)) ↦ cc (rw (m, d, k, verify_jwt) at h)
        | inr (inr k) ↦ cc (rw (m, d, k, verify_jwt) at h)
        | inl (kid, k) ↦
            let (r, verified, found) =
              >>=-eq-ok (λ v. verify_with lib v token) (find_verifier lib kid store).result
                (rw (m, d, k, verify_jwt) at h) in
            let (v, some_v, accepted) = verify_with_sound r token verified in
            let held = find_verifier_sound lib kid store (found ∙ ap ok some_v) in
            (store, token, kid, v, m, d, k, held, accepted)
      ]
    ]
  ]
