-- ===== src/Jwks/Keys.antt =====
-- The keys of a map: what the operations on the list of its pairs keep of them.
use fcgijwtauth.Base.{
  ◌≡◌, refl, ap, sym, false, none, List, [], ◌∷◌, ◌++◌, map, Bytes, bytes_eq, bytes_eq_iff, arith,
  Bool-cases, Option-cases, inl, inr,
}
use fcgijwtauth.Jwks.Store.{find_key, try_emplace, update_key}

bytes_eq_sym : (a b : Bytes) → bytes_eq a b ≡ false → bytes_eq b a ≡ false
bytes_eq_sym a b e = elim (Bool-cases (bytes_eq b a)) [
  | inl same ↦ cc (e, (bytes_eq_iff a b).1 (sym ((bytes_eq_iff b a).0 same)))
  | inr different ↦ different
]

module _ {ℓ} {V : Type ℓ} where
  abbrev pub keys : List (Bytes × V) → List Bytes
  keys m = map (λ (p : Bytes × V). p.0) m

  -- No key stands in the list twice.
  abbrev pub Distinct : List (Bytes × V) → Type ℓ
  Distinct [] = Unit
  Distinct ((k, v) ∷ m) = (find_key k m ≡ none) × Distinct m

  pub keys-update_key :
      (key : Bytes) (v : V) (m : List (Bytes × V)) → keys (update_key key v m) ≡ keys m
  unfolding update_key
  keys-update_key key v [] = refl
  keys-update_key key v ((k, w) ∷ m) = elim (Bool-cases (bytes_eq k key)) [
    | inl same ↦ rw same refl
    | inr other ↦ rw other (ap (λ ks. k ∷ ks) (keys-update_key key v m))
  ]

  absent-update_key :
      (other key : Bytes) (v : V) (m : List (Bytes × V))
      → find_key other m ≡ none
      → find_key other (update_key key v m) ≡ none
  unfolding find_key update_key
  absent-update_key other key v [] e = refl
  absent-update_key other key v ((k, w) ∷ m) e = elim (Bool-cases (bytes_eq k other)) [
    | inl held ↦ cc (rw (held, find_key) at e)
    | inr absent ↦
        let rest : find_key other m ≡ none = ground (arith, e, absent) in
        elim (Bool-cases (bytes_eq k key)) [
          | inl same ↦ rw (same, update_key) (rw (absent, find_key) rest)
          | inr different ↦
              rw (different, update_key)
                (rw (absent, find_key) (absent-update_key other key v m rest))
        ]
  ]

  pub update_key-Distinct :
      (key : Bytes) (v : V) (m : List (Bytes × V)) → Distinct m → Distinct (update_key key v m)
  unfolding update_key
  update_key-Distinct key v [] h = tt
  update_key-Distinct key v ((k, w) ∷ m) (absent, h) = elim (Bool-cases (bytes_eq k key)) [
    | inl same ↦ rw same (absent, h)
    | inr other ↦ rw other (absent-update_key k key v m absent, update_key-Distinct key v m h)
  ]

  absent-snoc :
      (other key : Bytes) (v : V) (m : List (Bytes × V))
      → find_key other m ≡ none
      → bytes_eq key other ≡ false
      → find_key other (m ++ (key, v) ∷ []) ≡ none
  unfolding find_key
  absent-snoc other key v [] e n = rw n refl
  absent-snoc other key v ((k, w) ∷ m) e n = elim (Bool-cases (bytes_eq k other)) [
    | inl held ↦ cc (rw (held, find_key) at e)
    | inr absent ↦ rw absent (absent-snoc other key v m (ground (arith, e, absent)) n)
  ]

  snoc-Distinct :
      (key : Bytes) (v : V) (m : List (Bytes × V))
      → find_key key m ≡ none
      → Distinct m
      → Distinct (m ++ (key, v) ∷ [])
  unfolding find_key
  snoc-Distinct key v [] e h = (refl, tt)
  snoc-Distinct key v ((k, w) ∷ m) e (absent, h) = elim (Bool-cases (bytes_eq k key)) [
    | inl held ↦ cc (rw (held, find_key) at e)
    | inr other ↦ (
      absent-snoc k key v m absent (bytes_eq_sym k key other),
      snoc-Distinct key v m (ground (arith, e, other)) h,
    )
  ]

  pub try_emplace-Distinct :
      (key : Bytes) (v : V) (m : List (Bytes × V)) → Distinct m → Distinct (try_emplace key v m).0
  unfolding try_emplace
  try_emplace-Distinct key v m h = elim (Option-cases (find_key key m)) [
    | inl fresh ↦ rw (fresh, try_emplace) (snoc-Distinct key v m fresh h)
    | inr (held, there) ↦ rw (there, try_emplace) h
  ]
