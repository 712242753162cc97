-- ===== src/Login/Tokens/Entries.antt =====
-- What is found among the entries behind the operations on them.
use fcgijwtauth.Base.{
  ℕ, ◌≡◌, refl, ◌<◌, ap, false, none, some, List, [], ◌∷◌, ◌++◌, leb, Bytes, bytes_eq, bytes_eq_iff,
  arith, Bool-cases, inl, inr,
}
use fcgijwtauth.Jwks.Store.{find_key, update_key}
use fcgijwtauth.Login.{TimedEntry, Codes}
use fcgijwtauth.Login.Tokens.{remove_expired}

not_yet : (now expires_at : ℕ) → now < expires_at → leb expires_at now ≡ false
not_yet now expires_at lt = ground arith

pub find_key-remove_expired :
    (now : ℕ) (code : Bytes) (codes : Codes)
    → find_key code codes ≡ none
    → find_key code (remove_expired now codes) ≡ none
unfolding find_key remove_expired
find_key-remove_expired now code [] e = refl
find_key-remove_expired now code ((k, entry) ∷ codes) e = elim (Bool-cases (bytes_eq k code)) [
  | inl same ↦ cc (rw (same, find_key) at e)
  | inr other ↦
      let rest = find_key-remove_expired now code codes (ground (arith, e, other)) in
      elim (Bool-cases (leb entry.expires_at now)) [
        | inl expired ↦ rw (expired, remove_expired) rest
        | inr live ↦ rw (live, remove_expired) (rw (other, find_key) rest)
      ]
]

-- What is found and has not expired is found behind the removal.
pub remove_expired-keeps :
    (now : ℕ) (code : Bytes) (codes : Codes) {entry : TimedEntry}
    → find_key code codes ≡ some entry
    → now < entry.expires_at
    → find_key code (remove_expired now codes) ≡ some entry
unfolding find_key remove_expired
remove_expired-keeps now code [] e lt = cc
remove_expired-keeps now code ((k, held) ∷ codes) {entry} e lt =
    elim (Bool-cases (bytes_eq k code)) [
      | inl same ↦
          let at_head : held ≡ entry = cc (rw (same, find_key) at e) in
          let live : leb held.expires_at now ≡ false =
            rw at_head (not_yet now entry.expires_at lt) in
          rw (live, remove_expired) (rw (same, find_key) (ap some at_head))
      | inr other ↦
          let rest = remove_expired-keeps now code codes (rw (other, find_key) at e) lt in
          elim (Bool-cases (leb held.expires_at now)) [
            | inl expired ↦ rw (expired, remove_expired) rest
            | inr live ↦ rw (live, remove_expired) (rw (other, find_key) rest)
          ]
    ]

module _ {ℓ} {V : Type ℓ} where
  pub find_key-snoc_other :
      (key k : Bytes) (v : V) (m : List (Bytes × V)) {w : V}
      → find_key key m ≡ some w
      → find_key key (m ++ (k, v) ∷ []) ≡ some w
  unfolding find_key
  find_key-snoc_other key k v [] e = cc
  find_key-snoc_other key k v ((j, u) ∷ m) e = elim (Bool-cases (bytes_eq j key)) [
    | inl same ↦ rw (same, find_key) (rw (same, find_key) at e)
    | inr other ↦ rw (other, find_key) (find_key-snoc_other key k v m (rw (other, find_key) at e))
  ]

  pub find_key-update_other :
      (key k : Bytes) (v : V) (m : List (Bytes × V))
      → bytes_eq k key ≡ false
      → find_key key (update_key k v m) ≡ find_key key m
  unfolding find_key update_key
  find_key-update_other key k v [] d = refl
  find_key-update_other key k v ((j, u) ∷ m) d = elim (Bool-cases (bytes_eq j k)) [
    | inl same ↦ ground (arith, same, d, bytes_eq_iff j k, bytes_eq_iff k key, bytes_eq_iff j key)
    | inr other ↦ elim (Bool-cases (bytes_eq j key)) [
      | inl here ↦ rw (other, update_key) (rw (here, find_key) refl)
      | inr there ↦
          rw (other, update_key) (rw (there, find_key) (find_key-update_other key k v m d))
    ]
  ]

  pub find_key-snoc_self :
      (key : Bytes) (v : V) (m : List (Bytes × V))
      → find_key key m ≡ none
      → find_key key (m ++ (key, v) ∷ []) ≡ some v
  unfolding find_key
  find_key-snoc_self key v [] e = rw ((bytes_eq_iff key key).1 refl) refl
  find_key-snoc_self key v ((k, w) ∷ m) e = elim (Bool-cases (bytes_eq k key)) [
    | inl same ↦ cc (rw (same, find_key) at e)
    | inr other ↦ rw other (find_key-snoc_self key v m (ground (arith, e, other)))
  ]

  still :
      (key k : Bytes) (m : List (Bytes × V)) (u : V) {w : V}
      → bytes_eq k key ≡ false
      → find_key key ((k, u) ∷ m) ≡ some w
      → find_key key m ≡ some w
  unfolding find_key
  still key k m u other e = ground (arith, e, other)

  pub find_key-update_key :
      (key : Bytes) (v : V) (m : List (Bytes × V)) {w : V}
      → find_key key m ≡ some w
      → find_key key (update_key key v m) ≡ some v
  unfolding find_key update_key
  find_key-update_key key v [] e = cc
  find_key-update_key key v ((k, u) ∷ m) e = elim (Bool-cases (bytes_eq k key)) [
    | inl same ↦ rw (same, update_key) (rw (same, find_key) refl)
    | inr other ↦
        rw (other, update_key)
          (rw (other, find_key) (find_key-update_key key v m (still key k m u other e)))
  ]
