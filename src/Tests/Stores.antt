-- ===== src/Tests/Stores.antt =====
-- The operations of the manager at the library and the stores of Tests/Tokens.
use fcgijwtauth.Base.{◌≡◌, refl, [], ◌∷◌, List, Bytes, lit, bytes_eq}
use fcgijwtauth.Outcome.{ok}
use fcgijwtauth.Jwks.Manager.{get_jwk}
use fcgijwtauth.Tests.Tokens.{lib, Json}

abbrev more : List (Bytes × Json)
more =
    (lit "kty", Json.word (lit "RSA"))
    ∷ (lit "n", Json.word (lit "3"))
    ∷ (lit "e", Json.word (lit "5"))
    ∷ []

key_found : get_jwk lib [] (lit "k1") ≡ ok ((lit "kid", Json.word (lit "k1")) ∷ more)
unfolding get_jwk lit bytes_eq
key_found = refl
