-- ===== src/Jwks/Manager.antt =====
-- The other operations of `JWKSStoreManager`: the stores by issuer, and `get_jwk`.
use fcgijwtauth.Base.{
  Bool, true, false, not, is_nil, Option, none, some, List, [], ◌∷◌, ◌++◌, ◌≡◌, refl, ap,
  if◌then◌else◌, Bytes, bytes_eq, bytes_eq_iff, lit, Option-cases, Bool-cases, inl, inr, ◌∙◌,
}
use fcgijwtauth.Outcome.{Outcome, ok, throws, undefined, runtime_error}
use fcgijwtauth.Library.{Library}
use fcgijwtauth.Jwks.Store.{
  find_key, try_emplace, update_key, add_keys, Verifier, Store, Manager, find_string,
}

module _ (lib : Library) where
  open lib use {Value, parse, as_array, as_object, now}

  -- A store behind its default constructor.
  abbrev pub new_store : Store lib
  new_store = record { src_url = []; backing_file = []; last_fetch_time = 0; verifiers = [] }

  -- The pointer that is returned shows the store in the manager, so it is the key.
  unfoldable pub get_or_create_store : Bytes → Manager lib → Manager lib
  unfolding find_key try_emplace
  get_or_create_store issuer stores = elim (find_key issuer stores) [
    | none ↦ (try_emplace issuer new_store stores).0
    | some store ↦ stores
  ]

  unfoldable pub init_store : Bytes → Bytes → Manager lib → Manager lib
  unfolding find_key try_emplace
  init_store issuer src_url stores = elim (find_key issuer stores) [
    | none ↦ (try_emplace issuer (record new_store { src_url = src_url }) stores).0
    | some store ↦ stores
  ]

  unfoldable pub get_verifier : Bytes → Bytes → Manager lib → Option (Verifier lib)
  unfolding find_key
  get_verifier issuer kid stores = elim (find_key issuer stores) [
    | none ↦ none
    | some store ↦ find_key kid store.verifiers
  ]

  -- The loop of `get_jwk`: the first object with both strings and that key id.
  unfoldable pub jwk_among : Bytes → List Value → List (Bytes × Value)
  unfolding find_string lit
  jwk_among key_id [] = []
  jwk_among key_id (key_val ∷ keys) =
      let next = jwk_among key_id keys in
      elim (as_object key_val) [
        | none ↦ next
        | some key ↦ elim (find_string lib (lit "kid") key) [
          | none ↦ next
          | some kid ↦ elim (find_string lib (lit "kty") key) [
            | none ↦ next
            | some kty ↦ if bytes_eq kid key_id then key else next
          ]
        ]
      ]

  -- `JWKSStoreManager::get_jwk`: the empty object where no key has the id.
  unfoldable pub get_jwk : Bytes → Bytes → Outcome (List (Bytes × Value))
  unfolding find_key jwk_among lit
  get_jwk jwks_json key_id = elim (as_object (parse jwks_json)) [
    | none ↦ throws runtime_error
    | some obj ↦ elim (find_key (lit "keys") obj) [
      | none ↦ throws runtime_error
      | some keys_val ↦ elim (as_array keys_val) [
        | none ↦ throws runtime_error
        | some keys ↦ ok (jwk_among key_id keys)
      ]
    ]
  ]

module _ (lib : Library) where
  unfoldable pub find_store : Bytes → Manager lib → Option (Store lib)
  unfolding find_key
  find_store store_name stores = find_key store_name stores

  -- Nothing is updated: the code only takes the mutex and lets it go. Whether it returns 0.
  abbrev pub update_store : Store lib → Bool
  update_store store = not (is_nil store.src_url)

  -- The store of the issuer, or a new one with the source and the time.
  unfoldable pub found_store : Bytes → Bytes → Manager lib → Manager lib × Store lib
  unfolding find_store try_emplace
  found_store issuer source_url stores =
      let new : Store lib = record {
        src_url = source_url;
        backing_file = [];
        last_fetch_time = lib.now;
        verifiers = [];
      } in
      elim (find_store issuer stores) [
        | some store ↦ (stores, store)
        | none ↦ ((try_emplace issuer new stores).0, new)
      ]

  -- Behind the checks of the text: the keys are added to the store in the manager.
  unfoldable pub filled_store :
      Bytes → Bytes → List lib.Value → Manager lib → Manager lib × Outcome Bool
  unfolding found_store add_keys update_key
  filled_store issuer source_url entries stores =
      let (stores', store) = found_store issuer source_url stores in
      let (store', added) = add_keys lib entries store in (update_key issuer store' stores', added)

  -- `JWKSStoreManager::add_jwks_verifiers_from_string`: whether the pointer that is returned is not null.
  unfoldable pub manager_add_jwks_verifiers_from_string :
      Bytes → Bytes → Bytes → Manager lib → Manager lib × Outcome Bool
  unfolding filled_store find_key lit
  manager_add_jwks_verifiers_from_string issuer source_url jwks_json stores =
      elim (lib.as_object (lib.parse jwks_json)) [
        | none ↦ (stores, ok false)
        | some members ↦ elim (find_key (lit "keys") members) [
          | none ↦ (stores, undefined)
          | some keys ↦ elim (lib.as_array keys) [
            | none ↦ (stores, ok false)
            | some entries ↦ filled_store issuer source_url entries stores
          ]
        ]
      ]

abbrev pub or_new {ℓ} : {V : Type ℓ} → Option V → Bool → V → Option V
or_new (some old) same new = some old
or_new none true new = some new
or_new none false new = none

find_key-snoc {ℓ} :
    {V : Type ℓ} (other key : Bytes) (v : V) (m : List (Bytes × V))
    → find_key other (m ++ (key, v) ∷ []) ≡ or_new (find_key other m) (bytes_eq key other) v
unfolding find_key
find_key-snoc other key v [] = elim (Bool-cases (bytes_eq key other)) [
  | inl same ↦ rw same refl
  | inr different ↦ rw different refl
]
find_key-snoc other key v ((k, w) ∷ m) = elim (Bool-cases (bytes_eq k other)) [
  | inl same ↦ rw same refl
  | inr different ↦ rw different (find_key-snoc other key v m)
]

or_new-held {ℓ} :
    {V : Type ℓ} (o : Option V) (key other : Bytes) (m : List (Bytes × V)) (new : V) {v : V}
    → find_key key m ≡ some v
    → o ≡ find_key other m
    → o ≡ or_new o (bytes_eq key other) new
or_new-held (some w) key other m new h e = refl
or_new-held none key other m new h e = elim (Bool-cases (bytes_eq key other)) [
  | inl same ↦ absurd (cc (h, e, (bytes_eq_iff key other).0 same))
  | inr different ↦ rw different refl
]

module _ (lib : Library) where
  -- Behind `init_store` every issuer has the store that it had; and the issuer that it is called for,
  -- if it had none, has an empty store with the URL. No other issuer gets one.
  find_key-init_store :
      (issuer src_url other : Bytes) (stores : Manager lib)
      → find_key other (init_store lib issuer src_url stores)
        ≡ or_new
            (find_key other stores)
            (bytes_eq issuer other)
            (record (new_store lib) { src_url = src_url })
  unfolding init_store try_emplace
  find_key-init_store issuer src_url other stores = elim (Option-cases (find_key issuer stores)) [
    | inl fresh ↦
        rw (fresh, init_store, try_emplace)
          (rw (fresh, try_emplace) (find_key-snoc other issuer _ stores))
    | inr (old, held) ↦
        rw (held, init_store) (or_new-held (find_key other stores) issuer other stores _ held refl)
  ]

  jwk_among_sound :
      (key_id : Bytes) (keys : List lib.Value) {member : Bytes × lib.Value}
      {members : List (Bytes × lib.Value)}
      → jwk_among lib key_id keys ≡ member ∷ members
      → find_string lib (lit "kid") (member ∷ members) ≡ some key_id
  unfolding jwk_among
  jwk_among_sound key_id [] e = cc
  jwk_among_sound key_id (key_val ∷ keys) {member} {members} e =
      elim (Option-cases (lib.as_object key_val)) [
        | inl o ↦ jwk_among_sound key_id keys (rw (o, jwk_among) at e)
        | inr (key, o) ↦ elim (Option-cases (find_string lib (lit "kid") key)) [
          | inl k ↦ jwk_among_sound key_id keys (rw (o, k, jwk_among) at e)
          | inr (kid, k) ↦ elim (Option-cases (find_string lib (lit "kty") key)) [
            | inl t ↦ jwk_among_sound key_id keys (rw (o, k, t, jwk_among) at e)
            | inr (kty, t) ↦ elim (Bool-cases (bytes_eq kid key_id)) [
              | inr other ↦ jwk_among_sound key_id keys (rw (o, k, t, other, jwk_among) at e)
              | inl same ↦
                  let found : key ≡ member ∷ members = rw (o, k, t, same, jwk_among) at e in
                  rw (← found) (k ∙ ap some ((bytes_eq_iff kid key_id).0 same))
            ]
          ]
        ]
      ]

  -- A key that `get_jwk` returns, if it is not the empty object, has the id that was asked for.
  get_jwk_sound :
      (jwks_json key_id : Bytes) {member : Bytes × lib.Value} {members : List (Bytes × lib.Value)}
      → get_jwk lib jwks_json key_id ≡ ok (member ∷ members)
      → find_string lib (lit "kid") (member ∷ members) ≡ some key_id
  unfolding get_jwk
  get_jwk_sound jwks_json key_id e = elim (Option-cases (lib.as_object (lib.parse jwks_json))) [
    | inl o ↦ cc (rw (o, get_jwk) at e)
    | inr (obj, o) ↦ elim (Option-cases (find_key (lit "keys") obj)) [
      | inl k ↦ cc (rw (o, k, get_jwk) at e)
      | inr (keys_val, k) ↦ elim (Option-cases (lib.as_array keys_val)) [
        | inl a ↦ cc (rw (o, k, a, get_jwk) at e)
        | inr (keys, a) ↦ jwk_among_sound key_id keys (cc (rw (o, k, a, get_jwk) at e))
      ]
    ]
  ]
