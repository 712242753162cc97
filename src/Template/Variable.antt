-- ===== src/Template/Variable.antt =====
-- A variable that is set stands in the output in place of its expression.
use fcgijwtauth.Base.{
  ℕ, ◌≡◌, refl, ap, ◌∙◌, Bool, true, false, none, some, List, [], ◌∷◌, ◌++◌, Bytes, arith, All,
  Avoids, Bool-cases, inl, inr, bytes_eq, bytes_eq_iff, ◌&&◌,
}
use fcgijwtauth.Jwks.Store.{find_key}
use fcgijwtauth.Template.{
  Engine, assign, set_variable, is_whitespace, without_blank, trim_left, trim_right, trim,
  is_name_byte, all_name_bytes, is_valid_variable_name, find_pair, replacement, render,
}
use fcgijwtauth.Template.Pieces.{Piece, IsPiece, expression, template_of, output_of}
use fcgijwtauth.Template.Render.{render-template_of}

pub find_key-assign :
    (name value : Bytes) (m : List (Bytes × Bytes))
    → find_key name (assign name value m) ≡ some value
unfolding find_key assign
find_key-assign name value [] = rw ((bytes_eq_iff name name).1 refl) refl
find_key-assign name value ((n, v) ∷ m) = elim (Bool-cases (bytes_eq n name)) [
  | inl same ↦ rw same (rw same refl)
  | inr other ↦ rw (other, other) (find_key-assign name value m)
]

trim_left-append :
    (left text : Bytes)
    → All (λ c. is_whitespace c ≡ true) left
    → trim_left (left ++ text) ≡ trim_left text
unfolding trim_left
trim_left-append [] text h = refl
trim_left-append (c ∷ left) text (b, h) = rw b (trim_left-append left text h)

trim_right_blank : (right : Bytes) → All (λ c. is_whitespace c ≡ true) right → trim_right right ≡ []
unfolding trim_right
trim_right_blank [] h = refl
trim_right_blank (c ∷ right) (b, h) = rw (trim_right_blank right h) (rw b refl)

without_blank_kept :
    (c : ℕ) (rest : Bytes) → is_whitespace c ≡ false → without_blank c rest ≡ c ∷ rest
without_blank_kept c [] h = rw h refl
without_blank_kept c (d ∷ rest) h = refl

is_name_byte-is_whitespace : (c : ℕ) → is_name_byte c ≡ true → is_whitespace c ≡ false
is_name_byte-is_whitespace c h = ground arith

trim_right-append :
    (name right : Bytes)
    → all_name_bytes name ≡ true
    → All (λ c. is_whitespace c ≡ true) right
    → trim_right (name ++ right) ≡ name
unfolding trim_right all_name_bytes
trim_right-append [] right h b = trim_right_blank right b
trim_right-append (c ∷ name) right h b =
    let (here, later) = both (is_name_byte c) (all_name_bytes name) h in
    without_blank_kept c (trim_right (name ++ right)) (is_name_byte-is_whitespace c here)
    ∙ ap (◌∷◌ c) (trim_right-append name right later b)
  where
    both : (a b : Bool) → (a && b) ≡ true → (a ≡ true) × (b ≡ true)
    both true b h = (refl, h)
    both false b h = cc

is_valid_variable_name-all_name_bytes :
    (name : Bytes) → is_valid_variable_name name ≡ true → all_name_bytes name ≡ true
unfolding is_valid_variable_name all_name_bytes
is_valid_variable_name-all_name_bytes [] h = refl
is_valid_variable_name-all_name_bytes (c ∷ name) h = ground arith

trim_lem :
    (left name right : Bytes)
    → All (λ c. is_whitespace c ≡ true) left
    → is_valid_variable_name name ≡ true
    → All (λ c. is_whitespace c ≡ true) right
    → trim (left ++ (name ++ right)) ≡ name
unfolding trim trim_left is_valid_variable_name
trim_lem left [] right l h r = cc
trim_lem left (c ∷ name) right l h r =
    let letter : is_whitespace c ≡ false = ground arith in
    let kept : trim_left (c ∷ (name ++ right)) ≡ c ∷ (name ++ right) = rw letter refl in
    let valid : is_valid_variable_name (c ∷ name) ≡ true = h in
    ap trim_right (trim_left-append left (c ∷ (name ++ right)) l ∙ kept)
    ∙ trim_right-append (c ∷ name) right (is_valid_variable_name-all_name_bytes (c ∷ name) valid) r

-- Neither blanks nor names hold the closing delimiter.
find_pair-Avoids : (a b : ℕ) (text : Bytes) → Avoids a text → find_pair a b text ≡ none
unfolding find_pair
find_pair-Avoids a b [] h = refl
find_pair-Avoids a b (x ∷ []) h = refl
find_pair-Avoids a b (x ∷ y ∷ text) (n, h) = ground (arith, find_pair-Avoids a b (y ∷ text) h)

Avoids-append : (c : ℕ) (xs ys : Bytes) → Avoids c xs → Avoids c ys → Avoids c (xs ++ ys)
Avoids-append c [] ys h k = k
Avoids-append c (x ∷ xs) ys (n, h) k = (n, Avoids-append c xs ys h k)

blank-Avoids : (text : Bytes) → All (λ c. is_whitespace c ≡ true) text → Avoids b'%' text
blank-Avoids [] h = tt
blank-Avoids (c ∷ text) (b, h) = (ground arith, blank-Avoids text h)

name-Avoids : (name : Bytes) → all_name_bytes name ≡ true → Avoids b'%' name
unfolding all_name_bytes
name-Avoids [] h = tt
name-Avoids (c ∷ name) h = (ground arith, name-Avoids name (ground (arith, h)))

pub replacement-set_variable :
    (leave_unknown : Bool) (e : Engine) (left name right value original : Bytes)
    → All (λ c. is_whitespace c ≡ true) left
    → is_valid_variable_name name ≡ true
    → All (λ c. is_whitespace c ≡ true) right
    → replacement leave_unknown
        (set_variable name value e).variables
        (left ++ (name ++ right))
        original
      ≡ value
unfolding replacement set_variable
replacement-set_variable leave_unknown e left name right value original l h r =
    simp (trim_lem left name right l h r, h, find_key-assign name value e.variables)

-- A variable with a valid name that is set is rendered in place of its expression, with any blanks
-- around its name, between texts that hold no "<%": nothing else is changed, and the value is not
-- looked into.
pub render-set_variable :
    (leave_unknown : Bool) (e : Engine) (before left name right after value : Bytes)
    → find_pair b'<' b'%' before ≡ none
    → All (λ c. is_whitespace c ≡ true) left
    → is_valid_variable_name name ≡ true
    → All (λ c. is_whitespace c ≡ true) right
    → find_pair b'<' b'%' after ≡ none
    → e.template ≡ before ++ b'<' ∷ b'%' ∷ ((left ++ (name ++ right)) ++ b'%' ∷ b'>' ∷ after)
    → render leave_unknown (set_variable name value e) ≡ before ++ (value ++ after)
unfolding template_of output_of
render-set_variable leave_unknown e before left name right after value p l h r q t =
    let inner = left ++ (name ++ right) in
    let piece : Piece = record { before = before; inner = inner } in
    let no_close : find_pair b'%' b'>' inner ≡ none = find_pair-Avoids b'%' b'>' inner (
      Avoids-append b'%' left (name ++ right) (blank-Avoids left l) (
        Avoids-append b'%' name right
          (name-Avoids name (is_valid_variable_name-all_name_bytes name h))
          (blank-Avoids right r))) in
    let valid : IsPiece piece = record { closed = p; open_inside = no_close } in
    render-template_of leave_unknown (set_variable name value e) (piece ∷ []) after (valid, tt) q
      (unfold set_variable in t)
    ∙ ap (λ v. before ++ (v ++ after))
        (replacement-set_variable leave_unknown e left name right value (expression inner) l h r)
