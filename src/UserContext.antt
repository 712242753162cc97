-- ===== src/UserContext.antt =====
-- jwtinterface.cpp and jwtinterface.hpp: the user that a token names. What it writes to stderr is
-- left out.
pub mod Laws
use mathlib.Core.Option
use fcgijwtauth.Base.{
  ℕ, Bool, true, false, Option, none, some, List, [], ◌∷◌, ◌++◌, if◌then◌else◌, Bytes, lit, is_nil,
  ◌>>=◌,
}
use fcgijwtauth.Outcome.{
  Exception, Outcome, ok, throws, undefined, runtime_error, invalid_argument, other_exception,
}
use fcgijwtauth.Library.{Library}
use fcgijwtauth.Jwks.Store.{find_key}

pub record JwtUserContext : Type 0 where
  pub friendly_name : Bytes
  pub email_address : Bytes
  pub payload_json_str : Bytes
  pub payload_json_str_pretty : Bytes
  pub header_json_str : Bytes
  pub verified : ℕ

module _ (lib : Library) where
  open lib use {
    Value, Token, as_string, from_string, from_object, serialize, decode_token, payload, header,
  }

  -- `jwtinterface_get_string`: `none` is -1, where the output is left as it was.
  unfoldable pub get_string : List (Bytes × Value) → Bytes → Option Bytes
  unfolding find_key
  get_string obj key = elim (find_key key obj) [ none ↦ none | some v ↦ as_string v ]

  -- The loop of `prettyPrintObject`: every member but the first stands behind ",\n".
  unfoldable pub pretty_members : List (Bytes × Value) → Bytes
  unfolding lit
  pretty_members [] = []
  pretty_members ((name, value) ∷ []) =
      lit "  " ++ (serialize (from_string name) ++ (lit ": " ++ serialize value))
  pretty_members ((name, value) ∷ member ∷ members) =
      lit "  "
      ++ (serialize (from_string name)
          ++ (lit ": " ++ (serialize value ++ b',' ∷ b'\n' ∷ pretty_members (member ∷ members))))

  unfoldable pub pretty_print_object : List (Bytes × Value) → Bytes
  unfolding pretty_members lit
  pretty_print_object [] = lit "{}"
  pretty_print_object (member ∷ members) =
      b'{' ∷ b'\n' ∷ pretty_members (member ∷ members) ++ b'\n' ∷ b'}' ∷ []

  abbrev email_of : List (Bytes × Value) → Option Bytes
  email_of obj = elim (get_string obj (lit "email")) [
    | some email ↦ some email
    | none ↦ get_string obj (lit "preferred_username")
  ]

  -- What the `try` block makes of a token; `none` is the null pointer.
  unfoldable pub context_of : Token → Option JwtUserContext
  unfolding get_string pretty_print_object
  context_of token = do
    email ← email_of (payload token)
    name ← get_string (payload token) (lit "name")
    some (record {
      friendly_name = name;
      email_address = email;
      payload_json_str = serialize (from_object (payload token));
      payload_json_str_pretty = pretty_print_object (payload token);
      header_json_str = serialize (from_object (header token));
      verified = 0;
    })

  -- The two `catch` clauses give the null pointer.
  unfoldable pub get_user_context : Bytes → Outcome (Option JwtUserContext)
  unfolding context_of
  get_user_context jwt_str =
      let decoded : Outcome (Option JwtUserContext) = elim (decode_token jwt_str) [
        | ok token ↦ ok (context_of token)
        | throws runtime_error ↦ ok none
        | throws invalid_argument ↦ ok none
        | throws other_exception ↦ throws other_exception
        | undefined ↦ undefined
      ] in
      if is_nil jwt_str then ok none else decoded
