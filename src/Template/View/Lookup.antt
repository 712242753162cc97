-- ===== src/Template/View/Lookup.antt =====
-- What a look-up finds behind a change of the variables.
use fcgijwtauth.Base.{
  ◌≡◌, refl, ap, ◌∙◌, sym, Bool, true, false, Option, none, some, List, [], ◌∷◌, if◌then◌else◌,
  Bytes, bytes_eq, bytes_eq_iff, Bool-cases, inl, inr,
}
use fcgijwtauth.Jwks.Store.{find_key}
use fcgijwtauth.Jwks.Keys.{Distinct}
use fcgijwtauth.Template.{assign, erase}

abbrev pub put : Bytes → Bytes → (Bytes → Option Bytes) → Bytes → Option Bytes
put name value f other = if bytes_eq name other then some value else f other

abbrev pub without : Bytes → (Bytes → Option Bytes) → Bytes → Option Bytes
without name f other = if bytes_eq name other then none else f other

-- Two equal keys are equal to the same keys.
bytes_eq-left :
    (k name other : Bytes) → bytes_eq k name ≡ true → bytes_eq k other ≡ bytes_eq name other
bytes_eq-left k name other e = ap (λ t. bytes_eq t other) ((bytes_eq_iff k name).0 e)

bytes_eq_apart :
    (k name other : Bytes)
    → bytes_eq k name ≡ false
    → bytes_eq k other ≡ true
    → bytes_eq name other ≡ false
bytes_eq_apart k name other d e = elim (Bool-cases (bytes_eq name other)) [
  | inl same ↦ cc (
    d,
    (bytes_eq_iff k name).1 ((bytes_eq_iff k other).0 e ∙ sym ((bytes_eq_iff name other).0 same)),
  )
  | inr different ↦ different
]

if_twice :
    (b : Bool) (x y z : Option Bytes)
    → (if b then x else z) ≡ (if b then x else (if b then y else z))
if_twice true x y z = refl
if_twice false x y z = refl

find_key_tail :
    (k other v : Bytes) (m : List (Bytes × Bytes))
    → bytes_eq k other ≡ false
    → find_key other ((k, v) ∷ m) ≡ find_key other m
unfolding find_key
find_key_tail k other v m e = rw e refl

find_key_head :
    (k other v : Bytes) (m : List (Bytes × Bytes))
    → bytes_eq k other ≡ true
    → find_key other ((k, v) ∷ m) ≡ some v
unfolding find_key
find_key_head k other v m e = rw e refl

pub find_key-assign_lem :
    (name value other : Bytes) (m : List (Bytes × Bytes))
    → find_key other (assign name value m) ≡ put name value (λ key. find_key key m) other
unfolding find_key assign
find_key-assign_lem name value other [] = refl
find_key-assign_lem name value other ((k, v) ∷ m) = elim (Bool-cases (bytes_eq k name)) [
  | inl same ↦
      rw (same, assign)
        (rw (bytes_eq-left k name other same)
          (if_twice (bytes_eq name other) (some value) (some v) (find_key other m)))
  | inr different ↦
      rw (different, assign)
        (elim (Bool-cases (bytes_eq k other)) [
          | inl held ↦ rw (held, bytes_eq_apart k name other different held) refl
          | inr absent ↦ rw absent (find_key-assign_lem name value other m)
        ])
]

pub find_key-erase :
    (name other : Bytes) (m : List (Bytes × Bytes))
    → Distinct m
    → find_key other (erase name m) ≡ without name (λ key. find_key key m) other
unfolding find_key erase
find_key-erase name other [] h = elim (Bool-cases (bytes_eq name other)) [
  | inl same ↦ rw same refl
  | inr different ↦ rw different refl
]
find_key-erase name other ((k, v) ∷ m) (fresh, h) = elim (Bool-cases (bytes_eq k name)) [
  | inl same ↦
      rw (same, erase)
        (rw (bytes_eq-left k name other same) (elim (Bool-cases (bytes_eq name other)) [
          | inl held ↦ rw held (gone k name other same held fresh)
          | inr absent ↦ rw absent refl
        ]))
  | inr different ↦
      rw (different, erase)
        (elim (Bool-cases (bytes_eq k other)) [
          | inl held ↦ rw (held, bytes_eq_apart k name other different held) refl
          | inr absent ↦ rw absent (find_key-erase name other m h)
        ])
]
  where
    gone :
        (k name other : Bytes)
        → bytes_eq k name ≡ true
        → bytes_eq name other ≡ true
        → find_key k m ≡ none
        → find_key other m ≡ none
    gone k name other same held fresh =
        ap (λ t. find_key t m)
          (sym ((bytes_eq_iff k name).0 same ∙ (bytes_eq_iff name other).0 held))
        ∙ fresh

-- A key that stands nowhere in the map stands nowhere behind a change at another key.
absent-assign :
    (k name value : Bytes) (m : List (Bytes × Bytes))
    → bytes_eq k name ≡ false
    → find_key k m ≡ none
    → find_key k (assign name value m) ≡ none
absent-assign k name value m d fresh = elim (Bool-cases (bytes_eq name k)) [
  | inl same ↦ cc (d, (bytes_eq_iff k name).1 (sym ((bytes_eq_iff name k).0 same)))
  | inr different ↦ find_key-assign_lem name value k m ∙ rw different fresh
]

absent-erase :
    (k name : Bytes) (m : List (Bytes × Bytes))
    → Distinct m
    → find_key k m ≡ none
    → find_key k (erase name m) ≡ none
absent-erase k name m h fresh = find_key-erase name k m h ∙ elim (Bool-cases (bytes_eq name k)) [
  | inl same ↦ rw same refl
  | inr different ↦ rw different fresh
]

pub assign-Distinct :
    (name value : Bytes) (m : List (Bytes × Bytes)) → Distinct m → Distinct (assign name value m)
unfolding assign find_key
assign-Distinct name value [] h = (refl, tt)
assign-Distinct name value ((k, v) ∷ m) (fresh, h) = elim (Bool-cases (bytes_eq k name)) [
  | inl same ↦ rw same (fresh, h)
  | inr different ↦
      rw different (absent-assign k name value m different fresh, assign-Distinct name value m h)
]

pub erase-Distinct :
    (name : Bytes) (m : List (Bytes × Bytes)) → Distinct m → Distinct (erase name m)
unfolding erase
erase-Distinct name [] h = tt
erase-Distinct name ((k, v) ∷ m) (fresh, h) = elim (Bool-cases (bytes_eq k name)) [
  | inl same ↦ rw same h
  | inr different ↦ rw different (absent-erase k name m h fresh, erase-Distinct name m h)
]
