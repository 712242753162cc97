-- ===== src/UserContext/Laws.antt =====
-- Which user a token names.
use fcgijwtauth.Base.{
  ◌≡◌, ◌∙◌, ◌≢◌, ◌⊎◌, inl, inr, none, some, List, [], ◌∷◌, Bytes, lit, >>=-eq-some, Option-cases,
}
use fcgijwtauth.Outcome.{ok, Outcome-cases, runtime_error, invalid_argument, other_exception}
use fcgijwtauth.Library.{Library}
use fcgijwtauth.UserContext.{JwtUserContext, get_string, email_of, context_of, get_user_context}

module _ (lib : Library) where
  email_of_sound :
      (obj : List (Bytes × lib.Value)) {email : Bytes}
      → email_of lib obj ≡ some email
      → (get_string lib obj (lit "email") ≡ some email)
        ⊎ ((get_string lib obj (lit "email") ≡ none)
            × (get_string lib obj (lit "preferred_username") ≡ some email))
  email_of_sound obj e = elim (Option-cases (get_string lib obj (lit "email"))) [
    | inr (found, m) ↦ inl (m ∙ rw (m, email_of) at e)
    | inl m ↦ inr (m, rw (m, email_of) at e)
  ]

  context_of_sound :
      (token : lib.Token) {ctx : JwtUserContext}
      → context_of lib token ≡ some ctx
      → (email_of lib (lib.payload token) ≡ some ctx.email_address)
        × (get_string lib (lib.payload token) (lit "name") ≡ some ctx.friendly_name)
        × (ctx.verified ≡ 0)
  unfolding context_of
  context_of_sound token {ctx} e =
      let (email, m, rest) = >>=-eq-some (email_of lib (lib.payload token)) _ e in
      let (name, n, made) = >>=-eq-some (get_string lib (lib.payload token) (lit "name")) _ rest in
      (cc, cc, cc)

  -- A user context comes from a text that is not empty and decodes to a token, whose payload has the
  -- name and, as "email" or where there is no such string as "preferred_username", the address that
  -- the context has; and its field `verified` is 0.
  pub get_user_context_sound :
      (jwt_str : Bytes) {ctx : JwtUserContext}
      → get_user_context lib jwt_str ≡ ok (some ctx)
      → (token : lib.Token) × (jwt_str ≢ [])
        × (lib.decode_token jwt_str ≡ ok token)
        × (get_string lib (lib.payload token) (lit "name") ≡ some ctx.friendly_name)
        × ((get_string lib (lib.payload token) (lit "email") ≡ some ctx.email_address)
            ⊎ ((get_string lib (lib.payload token) (lit "email") ≡ none)
                × (get_string lib (lib.payload token) (lit "preferred_username")
                    ≡ some ctx.email_address)))
        × (ctx.verified ≡ 0)
  unfolding get_user_context
  get_user_context_sound [] e = cc
  get_user_context_sound (c ∷ jwt_str) {ctx} e =
      elim (Outcome-cases (lib.decode_token (c ∷ jwt_str))) [
        | inl (token, d) ↦
            let made : context_of lib token ≡ some ctx = cc (rw (d, get_user_context) at e) in
            let (email, name, fresh) = context_of_sound token made in
            (token, λ p. cc p, d, name, email_of_sound (lib.payload token) email, fresh)
        | inr (inl (runtime_error, d)) ↦ cc (rw (d, get_user_context) at e)
        | inr (inl (invalid_argument, d)) ↦ cc (rw (d, get_user_context) at e)
        | inr (inl (other_exception, d)) ↦ cc (rw (d, get_user_context) at e)
        | inr (inr d) ↦ cc (rw (d, get_user_context) at e)
      ]
