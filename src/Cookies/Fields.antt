-- ===== src/Cookies/Fields.antt =====
-- Well-formed cookie headers, and what the parser makes of their memory.
use native.Mathlib.Nat.{add_assoc}
use fcgijwtauth.Base.{
  ℕ, suc, ◌+◌, ◌≡◌, refl, ap, ◌∙◌, true, false, List, [], ◌∷◌, ◌++◌, ◌==◌, Bytes, arith, length,
  set, get_or, Avoids, All, drop-append, drop-append_self, set-append, set-append_self,
  get_or-append_self,
}
use fcgijwtauth.Cookies.{blanks, is_blank, Cookie, with_cookie, end_value, parse_rounds}
use fcgijwtauth.Cookies.Memory.{strchr-Avoids}

-- A cookie of a header, with the blanks before its name.
pub record Field : Type 0 where
  pub blank : Bytes
  pub name : Bytes
  pub value : Bytes

abbrev pub StartsPlain : Bytes → Type 0
StartsPlain [] = Unit
StartsPlain (c ∷ _) = is_blank c ≡ false

pub record IsField (f : Field) : Type 0 where
  pub blank_is : All (λ c. is_blank c ≡ true) f.blank
  pub name_starts : StartsPlain f.name
  pub name_eq : Avoids b'=' f.name
  pub name_nul : Avoids 0 f.name
  pub value_semicolon : Avoids b';' f.value
  pub value_nul : Avoids 0 f.value

-- The fields, with the bytes that stand before each value and between the fields: '=' and ';' in
-- a header, 0 and 0 in one that was parsed.
unfoldable pub printed : ℕ → ℕ → List Field → Bytes
printed equals sep [] = []
printed equals sep (f ∷ []) = f.blank ++ (f.name ++ equals ∷ f.value)
printed equals sep (f ∷ g ∷ fs) =
    f.blank ++ (f.name ++ equals ∷ (f.value ++ sep ∷ printed equals sep (g ∷ fs)))

abbrev pub value_at : ℕ → Field → ℕ
value_at at f = at + length f.blank + length f.name + 1

abbrev pub cookie_at : ℕ → Field → Cookie
cookie_at at f = record { name = at + length f.blank; value = value_at at f }

-- The pointers to the fields of a header that begins at `at`.
unfoldable pub cookies_at : ℕ → List Field → List Cookie
cookies_at at [] = []
cookies_at at (f ∷ fs) = cookie_at at f ∷ cookies_at (value_at at f + length f.value + 1) fs

blanks-field :
    (f : Field) (rest : Bytes)
    → IsField f
    → blanks (f.blank ++ (f.name ++ b'=' ∷ rest)) ≡ length f.blank
unfolding blanks
blanks-field f rest v = go f.blank v.blank_is
  where
    start : (name : Bytes) → StartsPlain name → blanks (name ++ b'=' ∷ rest) ≡ 0
    start [] h = refl
    start (c ∷ name) h = rw h

    go :
        (blank : Bytes)
        → All (λ c. is_blank c ≡ true) blank
        → blanks (blank ++ (f.name ++ b'=' ∷ rest)) ≡ length blank
    go [] h = start f.name v.name_starts
    go (c ∷ blank) (e, h) = rw e (ap suc (go blank h))

first-ne_zero :
    (f : Field) (rest : Bytes)
    → IsField f
    → (get_or (f.blank ++ (f.name ++ b'=' ∷ rest)) 0 0 == 0) ≡ false
first-ne_zero f rest v = go f.blank v.blank_is
  where
    start : (name : Bytes) → Avoids 0 name → (get_or (name ++ b'=' ∷ rest) 0 0 == 0) ≡ false
    start [] h = refl
    start (c ∷ name) (n, h) = ground arith

    go :
        (blank : Bytes)
        → All (λ c. is_blank c ≡ true) blank
        → (get_or (blank ++ (f.name ++ b'=' ∷ rest)) 0 0 == 0) ≡ false
    go [] h = start f.name v.name_nul
    go (c ∷ blank) (e, h) = ground arith

-- A write to the byte behind a name.
pub set_name_end :
    (pre : Bytes) (f : Field) (old new : ℕ) (rest : Bytes)
    → set
        (pre ++ (f.blank ++ (f.name ++ old ∷ rest)))
        (length pre + length f.blank + length f.name)
        new
      ≡ pre ++ (f.blank ++ (f.name ++ new ∷ rest))
set_name_end pre f old new rest =
    let text = f.blank ++ (f.name ++ old ∷ rest) in
    ap (λ n. set (pre ++ text) n new) (add_assoc (length pre) (length f.blank) (length f.name))
    ∙ set-append pre text (length f.blank + length f.name) new
    ∙ ap (λ t. pre ++ t)
        (set-append f.blank (f.name ++ old ∷ rest) (length f.name) new
          ∙ ap (λ t. f.blank ++ t) (set-append_self f.name old rest new))

-- The parser at a field: it notes where the name and the value begin, and ends the name.
pub parse_rounds_field :
    (left : ℕ) (pre : Bytes) (f : Field) (rest : Bytes)
    → IsField f
    → parse_rounds (suc left) (pre ++ (f.blank ++ (f.name ++ b'=' ∷ rest))) (length pre)
      ≡ with_cookie (cookie_at (length pre) f) (
          parse_rounds left
            (end_value (pre ++ (f.blank ++ (f.name ++ 0 ∷ rest))) (value_at (length pre) f)).0
            (end_value (pre ++ (f.blank ++ (f.name ++ 0 ∷ rest))) (value_at (length pre) f)).1)
unfolding parse_rounds
parse_rounds_field left pre f rest v =
    let text = f.blank ++ (f.name ++ b'=' ∷ rest) in
    simp (
      get_or-append_self pre text 0,
      first-ne_zero f rest v,
      drop-append_self pre text,
      blanks-field f rest v,
      drop-append pre text (length f.blank),
      drop-append_self f.blank (f.name ++ b'=' ∷ rest),
      strchr-Avoids b'=' f.name rest v.name_eq v.name_nul,
      set_name_end pre f b'=' 0 rest,
    )
