-- ===== src/Jwks/Store.antt =====
-- `JWKSStore` and `JWKSStoreManager`.
use fcgijwtauth.Base.{
  ℕ, ◌-◌, ◌*◌, ◌/◌, ◌^◌, Bool, true, false, ◌||◌, Option, none, some, List, [], ◌∷◌, ◌++◌, leb,
  ◌==◌, if◌then◌else◌, Bytes, bytes_eq, lit, is_nil,
}
use fcgijwtauth.Outcome.{
  Outcome, ok, throws, undefined, runtime_error, other_exception, ◌>>=◌, or_throw,
}
use fcgijwtauth.Library.{Library, FileRead, Download}

-- `find` of a map with strings for keys.
module _ {ℓ} {V : Type ℓ} where
  unfoldable pub find_key : Bytes → List (Bytes × V) → Option V
  find_key key [] = none
  find_key key ((k, v) ∷ m) = let next = find_key key m in if bytes_eq k key then some v else next

  -- `try_emplace`: nothing is changed where the key is there. The flag is `inserted`.
  unfoldable pub try_emplace : Bytes → V → List (Bytes × V) → List (Bytes × V) × Bool
  unfolding find_key
  try_emplace key v m = elim (find_key key m) [
    | none ↦ (m ++ (key, v) ∷ [], true)
    | some _ ↦ (m, false)
  ]

  -- A change of the value that a pointer into the map shows.
  unfoldable pub update_key : Bytes → V → List (Bytes × V) → List (Bytes × V)
  update_key key v [] = []
  update_key key v ((k, w) ∷ m) = if bytes_eq k key then (k, v) ∷ m else (k, w) ∷ update_key key v m

abbrev pub leeway_seconds : ℕ
leeway_seconds = 8 * 365 * 24 * 60 * 60

abbrev pub second : ℕ
second = 10 ^ 9

abbrev pub hour : ℕ
hour = 3600 * second

module _ (lib : Library) where
  open lib use {
    Value, Algorithm, Token, parse, as_string, as_array, as_object, rsa_algorithm, ec_algorithm,
    decode_token, get_key_id, verify, read_file, download, now,
  }

  pub record Verifier : Type 0 where
    pub algorithm : Algorithm
    pub leeway : ℕ

  -- Times are in nanoseconds since the epoch.
  pub record Store : Type 0 where
    pub src_url : Bytes
    pub backing_file : Bytes
    pub last_fetch_time : ℕ
    pub verifiers : List (Bytes × Verifier)

  -- A member that is a string, or none: `find` and `is<std::string>()`.
  unfoldable pub find_string : Bytes → List (Bytes × Value) → Option Bytes
  unfolding find_key
  find_string name key = elim (find_key name key) [ none ↦ none | some v ↦ as_string v ]

  -- `key.at(name).get<std::string>()`
  unfoldable pub at_string : Bytes → List (Bytes × Value) → Outcome Bytes
  unfolding find_key
  at_string name key = elim (find_key name key) [
    | none ↦ throws other_exception
    | some v ↦ or_throw (as_string v) runtime_error
  ]

  -- The algorithms that the two supported key types make.
  rsa_key : List (Bytes × Value) → Outcome (Option Algorithm)
  unfolding at_string lit
  rsa_key key = do
    n ← at_string (lit "n") key
    e ← at_string (lit "e") key
    alg ← rsa_algorithm n e
    ok (some alg)

  ec_key : List (Bytes × Value) → Outcome (Option Algorithm)
  unfolding at_string lit
  ec_key key = do
    crv ← at_string (lit "crv") key
    x ← at_string (lit "x") key
    y ← at_string (lit "y") key
    let made = ec_algorithm crv x y >>= λ alg. ok (some alg)
    if bytes_eq crv (lit "P-256") then made else ok none

  -- The algorithm of a key, `none` where its type or its curve is not supported.
  unfoldable pub key_algorithm : Bytes → List (Bytes × Value) → Outcome (Option Algorithm)
  unfolding rsa_key ec_key
  key_algorithm kty key =
      if bytes_eq kty (lit "RSA")
      then rsa_key key
      else if bytes_eq kty (lit "EC")
      then ec_key key
      else ok none

  -- The `try` block ends: every exception is caught and the key left out. The library
  -- makes an algorithm or throws; a construction that is undefined is not told apart from that.
  unfoldable pub emplace_key : Bytes → Outcome (Option Algorithm) → Store → Store × Bool
  unfolding try_emplace
  emplace_key kid (ok (some alg)) store =
      let (verifiers, inserted) =
        try_emplace kid (record { algorithm = alg; leeway = leeway_seconds }) store.verifiers in
      (record store { verifiers = verifiers }, inserted)
  emplace_key kid (ok none) store = (store, false)
  emplace_key kid (throws e) store = (store, false)
  emplace_key kid undefined store = (store, false)

  unfoldable pub add_key_from_json_object : List (Bytes × Value) → Store → Store × Bool
  unfolding find_string key_algorithm emplace_key
  add_key_from_json_object key store = elim (find_string (lit "kid") key) [
    | none ↦ (store, false)
    | some kid ↦ elim (find_string (lit "kty") key) [
      | none ↦ (store, false)
      | some kty ↦ emplace_key kid (key_algorithm kty key) store
    ]
  ]

  -- The loop over the array: an entry that is no object throws, behind the keys added so far.
  unfoldable pub add_keys : List Value → Store → Store × Outcome Bool
  unfolding add_key_from_json_object
  add_keys [] store = (store, ok true)
  add_keys (v ∷ vs) store = elim (as_object v) [
    | none ↦ (store, throws runtime_error)
    | some key ↦ add_keys vs (add_key_from_json_object key store).0
  ]

  -- `JWKSStore::add_jwks_verifiers_from_string`: whether the pointer that is returned is not null.
  -- Without a "keys" member the source reads behind the end iterator.
  unfoldable pub add_jwks_verifiers_from_string : Bytes → Store → Store × Outcome Bool
  unfolding find_key add_keys
  add_jwks_verifiers_from_string text store = elim (as_object (parse text)) [
    | none ↦ (store, ok false)
    | some members ↦ elim (find_key (lit "keys") members) [
      | none ↦ (store, undefined)
      | some keys ↦ elim (as_array keys) [
        | none ↦ (store, ok false)
        | some entries ↦ add_keys entries store
      ]
    ]
  ]

  -- `front` of an empty text, which its contract leaves out, reads the terminator, as the storage of
  -- std::string has it.
  abbrev pub is_file : Bytes → Bool
  is_file [] = false
  is_file (c ∷ _) = c == b'.' || c == b'/'

  abbrev file_json : FileRead → Outcome (Bytes × Option ℕ)
  file_json FileRead.not_opened = throws runtime_error
  file_json FileRead.not_read = throws runtime_error
  file_json (FileRead.contents text time) = ok (text, time)

  abbrev pub url_json : Download → Outcome (Bytes × Option ℕ)
  url_json Download.curl_failed = throws runtime_error
  url_json (Download.received status body) =
      if status == 200 then ok (body, none) else throws runtime_error

  -- `fetch_jwks_json`: the text, and what is written through `last_write_time`, if anything is.
  unfoldable pub fetch_jwks_json : Bytes → Outcome (Bytes × Option ℕ)
  fetch_jwks_json url =
      let file = file_json (read_file url) in
      let remote = url_json (download url) in if is_file url then file else remote

  abbrev pub or_zero : Option ℕ → ℕ
  or_zero none = 0
  or_zero (some t) = t

  -- A look-up: the store behind it, the files written, with their texts, and the verifier.
  pub record Found : Type 0 where
    pub store : Store
    pub saved : List (Bytes × Bytes)
    pub result : Outcome (Option Verifier)

  -- Behind a fetch: the text is saved, then added; the time is set only if nothing was thrown.
  unfoldable pub refreshed : Store → Bytes → Bytes × Option ℕ → Found
  unfolding add_jwks_verifiers_from_string
  refreshed store kid (text, time) =
      let saved = if is_nil store.backing_file then [] else (store.backing_file, text) ∷ [] in
      let (store', added) = add_jwks_verifiers_from_string text store in
      elim added [
        | ok _ ↦ record {
          store = record store' { last_fetch_time = or_zero time * second };
          saved = saved;
          result = ok (find_key kid store'.verifiers);
        }
        | throws e ↦ record { store = store'; saved = saved; result = throws e }
        | undefined ↦ record { store = store'; saved = saved; result = undefined }
      ]

  abbrev pub unchanged : Store → Outcome (Option Verifier) → Found
  unchanged store result = record { store = store; saved = []; result = result }

  unfoldable pub find_verifier : Bytes → Store → Found
  unfolding find_key fetch_jwks_json refreshed
  find_verifier kid store =
      let fetched : Found = elim (fetch_jwks_json store.src_url) [
        | ok got ↦ refreshed store kid got
        | throws e ↦ unchanged store (throws e)
        | undefined ↦ unchanged store undefined
      ] in
      elim (find_key kid store.verifiers) [
        | some v ↦ unchanged store (ok (some v))
        | none ↦
            if leb 24 ((now - store.last_fetch_time) / hour)
            then fetched
            else unchanged store (ok (find_key kid store.verifiers))
      ]

  abbrev pub Manager : Type 0
  Manager = List (Bytes × Store)

  -- The end of `verify_jwt`: `token_verifier->verify(jwt)` in a `try` that catches everything.
  unfoldable pub verify_with : Option Verifier → Token → Outcome Bool
  verify_with none token = ok false
  verify_with (some v) token = elim (verify v.algorithm v.leeway token) [
    | ok _ ↦ ok true
    | throws e ↦ ok false
    | undefined ↦ undefined
  ]

  -- The manager behind a call, and how the call ended.
  unfoldable pub verify_jwt : Bytes → Bytes → Manager → Manager × Outcome Bool
  unfolding find_key find_verifier verify_with update_key
  verify_jwt issuer jwt_str stores = elim (find_key issuer stores) [
    | none ↦ (stores, ok false)
    | some store ↦ elim (decode_token jwt_str) [
      | throws e ↦ (stores, throws e)
      | undefined ↦ (stores, undefined)
      | ok token ↦ elim (get_key_id token) [
        | throws e ↦ (stores, throws e)
        | undefined ↦ (stores, undefined)
        | ok kid ↦
            let found = find_verifier kid store in
            (update_key issuer found.store stores, found.result >>= λ v. verify_with v token)
      ]
    ]
  ]
