-- ===== src/Jwks/Laws.antt =====
-- What the look-ups and the refreshes keep of the stores, and what a verified token shows.
use fcgijwtauth.Base.{
  ◌≡◌, Option, none, some, List, [], ◌∷◌, ◌++◌, Bytes, bytes_eq, lit, arith, Bool-cases,
  Option-cases, inl, inr,
}
use fcgijwtauth.Outcome.{Outcome, ok, throws, undefined}
use fcgijwtauth.Library.{Library}
use fcgijwtauth.Jwks.Store.{
  find_key, try_emplace, Verifier, Store, find_string, key_algorithm, emplace_key,
  add_key_from_json_object, add_keys, add_jwks_verifiers_from_string,
}

module _ {ℓ} {V : Type ℓ} where
  find_key-append :
      (key : Bytes) (m more : List (Bytes × V)) {v : V}
      → find_key key m ≡ some v
      → find_key key (m ++ more) ≡ some v
  unfolding find_key
  find_key-append key [] more e = cc
  find_key-append key ((k, w) ∷ m) more e = elim (Bool-cases (bytes_eq k key)) [
    | inl same ↦ cc (rw (same, find_key) at e)
    | inr other ↦ rw other (find_key-append key m more (ground (arith, e, other)))
  ]

  find_key-try_emplace :
      (key new : Bytes) (w : V) (m : List (Bytes × V)) {v : V}
      → find_key key m ≡ some v
      → find_key key (try_emplace new w m).0 ≡ some v
  unfolding try_emplace
  find_key-try_emplace key new w m e = elim (Option-cases (find_key new m)) [
    | inl fresh ↦ rw (fresh, try_emplace) (find_key-append key m _ e)
    | inr (old, there) ↦ rw (there, try_emplace) e
  ]

module _ (lib : Library) where
  -- What holds of the verifiers of a store stays true when a pair is added with `emplace_key`.
  module _ (kid : Bytes) where
    emplace_key-keeps :
        (new : Bytes) (alg : Outcome (Option lib.Algorithm)) (store : Store lib) {v : Verifier lib}
        → find_key kid store.verifiers ≡ some v
        → find_key kid (emplace_key lib new alg store).0.verifiers ≡ some v
    unfolding emplace_key
    emplace_key-keeps new (ok (some alg)) store e = find_key-try_emplace kid new _ store.verifiers e
    emplace_key-keeps new (ok none) store e = e
    emplace_key-keeps new (throws x) store e = e
    emplace_key-keeps new undefined store e = e

    add_key-keeps :
        (key : List (Bytes × lib.Value)) (store : Store lib) {v : Verifier lib}
        → find_key kid store.verifiers ≡ some v
        → find_key kid (add_key_from_json_object lib key store).0.verifiers ≡ some v
    unfolding add_key_from_json_object
    add_key-keeps key store e = elim (Option-cases (find_string lib (lit "kid") key)) [
      | inl m ↦ rw (m, add_key_from_json_object) e
      | inr (new, m) ↦
          rw (m, add_key_from_json_object)
            (elim (Option-cases (find_string lib (lit "kty") key)) [
              | inl n ↦ rw (n, add_key_from_json_object) e
              | inr (kty, n) ↦
                  rw (n, add_key_from_json_object)
                    (emplace_key-keeps new (key_algorithm lib kty key) store e)
            ])
    ]

    add_keys-keeps :
        (entries : List lib.Value) (store : Store lib) {v : Verifier lib}
        → find_key kid store.verifiers ≡ some v
        → find_key kid (add_keys lib entries store).0.verifiers ≡ some v
    unfolding add_keys
    add_keys-keeps [] store e = e
    add_keys-keeps (entry ∷ entries) store e = elim (Option-cases (lib.as_object entry)) [
      | inl m ↦ rw (m, add_keys) e
      | inr (key, m) ↦ rw (m, add_keys) (add_keys-keeps entries _ (add_key-keeps key store e))
    ]

    pub add_jwks-keeps :
        (text : Bytes) (store : Store lib) {v : Verifier lib}
        → find_key kid store.verifiers ≡ some v
        → find_key kid (add_jwks_verifiers_from_string lib text store).0.verifiers ≡ some v
    unfolding add_jwks_verifiers_from_string
    add_jwks-keeps text store e = elim (Option-cases (lib.as_object (lib.parse text))) [
      | inl m ↦ rw (m, add_jwks_verifiers_from_string) e
      | inr (members, m) ↦
          rw (m, add_jwks_verifiers_from_string)
            (elim (Option-cases (find_key (lit "keys") members)) [
              | inl n ↦ rw (n, add_jwks_verifiers_from_string) e
              | inr (keys, n) ↦
                  rw (n, add_jwks_verifiers_from_string)
                    (elim (Option-cases (lib.as_array keys)) [
                      | inl a ↦ rw (a, add_jwks_verifiers_from_string) e
                      | inr (entries, a) ↦
                          rw (a, add_jwks_verifiers_from_string) (add_keys-keeps entries store e)
                    ])
            ])
    ]
