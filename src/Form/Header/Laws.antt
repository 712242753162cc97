-- ===== src/Form/Header/Laws.antt =====
-- What `find_attribute_value` finds in a header that is made of attributes.
use fcgijwtauth.Base.{
  ℕ, zero, suc, ◌<◌, ◌≡◌, ◌≢◌, refl, ap, ◌∙◌, sym, Bool, true, false, ◌||◌, not, Option, none, some,
  List, [], ◌∷◌, ◌++◌, ◌==◌, if◌then◌else◌, Bytes, length, All, Avoids, arith, Bool-cases, inl, inr,
  append_assoc, append-nil, length-append,
}
use fcgijwtauth.Form.Header.{
  matches, is_space, outside, in_quotes, quote_step, append_from, append_to_dynstring, skip_spaces,
  is_prefix, value_behind, find_attribute, find_attribute_value,
}

-- A byte that is appended outside of quotes.
abbrev pub is_plain : Bytes → ℕ → Bool
is_plain delim c = not (c == b'"' || (matches c delim || c == 0))

-- A text as it stands between quotes.
unfoldable pub escape : Bytes → Bytes
escape [] = []
escape (c ∷ text) = if c == b'\\' then b'\\' ∷ c ∷ escape text else c ∷ escape text

append_from-plain :
    (delim word rest : Bytes)
    → All (λ c. is_plain delim c ≡ true) word
    → append_from delim outside (word ++ rest)
      ≡ (word ++ (append_from delim outside rest).0, (append_from delim outside rest).1)
unfolding append_from
append_from-plain delim [] rest h = refl
append_from-plain delim (c ∷ word) rest (p, h) =
    let step : quote_step delim outside c ≡ some (outside, c ∷ []) =
      unfold quote_step in ground arith in
    rw (step, append_from) (rw (append_from-plain delim word rest h) refl)

append_from-delim :
    (delim : Bytes) (d : ℕ) (rest : Bytes)
    → d ≢ b'"'
    → matches d delim ≡ true
    → append_from delim outside (d ∷ rest) ≡ ([], d ∷ rest)
unfolding append_from quote_step
append_from-delim delim d rest n h = ground arith

-- Between quotes a text is read whole, with each backslash escaped.
append_from-escape :
    (delim text tail : Bytes)
    → Avoids b'"' text
    → append_from delim in_quotes (escape text ++ tail)
      ≡ (text ++ (append_from delim in_quotes tail).0, (append_from delim in_quotes tail).1)
unfolding append_from escape quote_step
append_from-escape delim [] tail h = refl
append_from-escape delim (c ∷ text) tail (n, h) =
    let no_quote : (c == b'"') ≡ false = ground arith in
    let later = append_from-escape delim text tail h in
    elim (Bool-cases (c == b'\\')) [
      | inl back ↦ rw back (rw (no_quote, append_from) (rw later refl))
      | inr other ↦ rw other (rw (no_quote, other, append_from) (rw later refl))
    ]

append_to_dynstring-quoted :
    (delim text rest : Bytes)
    → Avoids b'"' text
    → append_to_dynstring delim (b'"' ∷ (escape text ++ b'"' ∷ rest))
      ≡ (text ++ (append_from delim outside rest).0, (append_from delim outside rest).1)
unfolding append_to_dynstring append_from quote_step
append_to_dynstring-quoted delim text rest h = append_from-escape delim text (b'"' ∷ rest) h

-- A quote that is escaped between quotes, with no other quote before or behind it there, is lost:
-- it is neither appended nor does it end the text in quotes.
append_to_dynstring-escaped_quote :
    (delim before after rest : Bytes)
    → Avoids b'"' before
    → Avoids b'"' after
    → append_to_dynstring delim
        (b'"' ∷ (escape before ++ b'\\' ∷ b'"' ∷ (escape after ++ b'"' ∷ rest)))
      ≡ (
        before ++ (after ++ (append_from delim outside rest).0),
        (append_from delim outside rest).1,
      )
unfolding append_to_dynstring append_from quote_step
append_to_dynstring-escaped_quote delim before after rest h k =
    append_from-escape delim before (b'\\' ∷ b'"' ∷ (escape after ++ b'"' ∷ rest)) h
    ∙ ap (λ (r : Bytes × Bytes). (before ++ r.0, r.1))
        (append_from-escape delim after (b'"' ∷ rest) k)

-- An attribute: a name, and a value in quotes behind '=', or no value.
pub record Attribute : Type 0 where
  pub name : Bytes
  pub value : Option Bytes

abbrev pub IsValue : Option Bytes → Type 0
IsValue none = Unit
IsValue (some value) = Avoids b'"' value

abbrev pub StartsWord : Bytes → Type 0
StartsWord [] = ⊥
StartsWord (c ∷ _) = is_space c ≡ false

pub record IsAttribute (a : Attribute) : Type 0 where
  pub starts : StartsWord a.name
  pub plain : All (λ c. is_plain (b';' ∷ b'=' ∷ []) c ≡ true) a.name
  pub value_is : IsValue a.value

abbrev pub value_text : Option Bytes → Bytes
value_text none = []
value_text (some value) = b'=' ∷ b'"' ∷ (escape value ++ b'"' ∷ [])

-- The attributes, with a semicolon and a blank between each two.
unfoldable pub header_of : List Attribute → Bytes
header_of [] = []
header_of (a ∷ []) = a.name ++ value_text a.value
header_of (a ∷ b ∷ attrs) = a.name ++ (value_text a.value ++ b';' ∷ b' ' ∷ header_of (b ∷ attrs))

abbrev pub or_nothing : Option Bytes → Bytes
or_nothing none = []
or_nothing (some value) = value

-- The value of the first attribute whose name begins the name that is asked for.
unfoldable pub value_of : Bytes → List Attribute → Option Bytes
value_of attrib [] = none
value_of attrib (a ∷ attrs) =
    let next = value_of attrib attrs in
    if is_prefix a.name attrib then some (or_nothing a.value) else next

-- The text of an attribute, up to what follows it.
tail_of : List Attribute → Bytes
tail_of [] = []
tail_of (b ∷ attrs) = b';' ∷ b' ' ∷ header_of (b ∷ attrs)

header_of-cons :
    (a : Attribute) (attrs : List Attribute)
    → header_of (a ∷ attrs) ≡ a.name ++ (value_text a.value ++ tail_of attrs)
unfolding header_of tail_of
header_of-cons a [] = ap (λ t. a.name ++ t) (sym (append-nil _))
header_of-cons a (b ∷ attrs) = refl

skip_spaces-word : (name rest : Bytes) → StartsWord name → skip_spaces (name ++ rest) ≡ name ++ rest
unfolding skip_spaces
skip_spaces-word [] rest h = absurd h
skip_spaces-word (c ∷ name) rest h = rw h refl

append_from-tail_of :
    (delim : Bytes) (attrs : List Attribute)
    → matches b';' delim ≡ true
    → append_from delim outside (tail_of attrs) ≡ ([], tail_of attrs)
unfolding tail_of
append_from-tail_of delim [] h = unfold append_from in refl
append_from-tail_of delim (b ∷ attrs) h =
    append_from-delim delim b';' (b' ' ∷ header_of (b ∷ attrs)) (omega arith) h

value_behind-value_text :
    (value : Option Bytes) (attrs : List Attribute)
    → IsValue value
    → value_behind (value_text value ++ tail_of attrs) ≡ (or_nothing value, tail_of attrs)
unfolding value_behind
value_behind-value_text none [] h = unfold tail_of in refl
value_behind-value_text none (b ∷ attrs) h = unfold tail_of in refl
value_behind-value_text (some value) attrs h =
    ap (λ t. append_to_dynstring (b';' ∷ []) (b'"' ∷ t))
      (append_assoc (escape value) (b'"' ∷ []) (tail_of attrs))
    ∙ append_to_dynstring-quoted (b';' ∷ []) value (tail_of attrs) h
    ∙ rw (append_from-tail_of (b';' ∷ []) attrs refl) (rw append-nil refl)

name_read :
    (a : Attribute) (attrs : List Attribute)
    → IsAttribute a
    → append_to_dynstring (b';' ∷ b'=' ∷ []) (a.name ++ (value_text a.value ++ tail_of attrs))
      ≡ (a.name, value_text a.value ++ tail_of attrs)
unfolding append_to_dynstring
name_read a attrs v =
    append_from-plain (b';' ∷ b'=' ∷ []) a.name (value_text a.value ++ tail_of attrs) v.plain
    ∙ ap (λ (r : Bytes × Bytes). (a.name ++ r.0, r.1)) (stop a.value)
    ∙ rw append-nil refl
  where
    stop :
        (value : Option Bytes)
        → append_from (b';' ∷ b'=' ∷ []) outside (value_text value ++ tail_of attrs)
          ≡ ([], value_text value ++ tail_of attrs)
    stop none = append_from-tail_of (b';' ∷ b'=' ∷ []) attrs refl
    stop (some value) = append_from-delim (b';' ∷ b'=' ∷ []) b'=' _ (omega arith) refl

-- One round, at an attribute.
find_attribute-step :
    (attrib : Bytes) (a : Attribute) (attrs : List Attribute) (fuel : ℕ) (text : Bytes)
    → IsAttribute a
    → skip_spaces text ≡ header_of (a ∷ attrs)
    → find_attribute (suc fuel) attrib text ≡ (
        let next : Option Bytes = elim (tail_of attrs) [
          | [] ↦ none
          | _ ∷ after ↦ find_attribute fuel attrib after
        ] in
        if is_prefix a.name attrib then some (or_nothing a.value) else next)
unfolding find_attribute
find_attribute-step attrib a attrs fuel text v e =
    let read : append_to_dynstring (b';' ∷ b'=' ∷ []) (skip_spaces text)
        ≡ (a.name, value_text a.value ++ tail_of attrs) =
      ap (append_to_dynstring (b';' ∷ b'=' ∷ [])) (e ∙ header_of-cons a attrs)
      ∙ name_read a attrs v in
    rw (read, find_attribute) (rw (value_behind-value_text a.value attrs v.value_is) refl)

find_attribute-header_of :
    (attrib : Bytes) (a : Attribute) (attrs : List Attribute) (fuel : ℕ) (text : Bytes)
    → IsAttribute a
    → All IsAttribute attrs
    → skip_spaces text ≡ header_of (a ∷ attrs)
    → length (header_of (a ∷ attrs)) < fuel
    → find_attribute fuel attrib text ≡ value_of attrib (a ∷ attrs)
unfolding value_of tail_of
find_attribute-header_of attrib a attrs zero text v vs e le = absurd (omega arith)
find_attribute-header_of attrib a [] (suc fuel) text v vs e le =
    find_attribute-step attrib a [] fuel text v e
find_attribute-header_of attrib a (b ∷ attrs) (suc fuel) text v (w, vs) e le =
    let skipped : skip_spaces (b' ' ∷ header_of (b ∷ attrs)) ≡ header_of (b ∷ attrs) =
      blank_skipped (header_of (b ∷ attrs))
      ∙ ap skip_spaces (header_of-cons b attrs)
      ∙ skip_spaces-word b.name _ w.starts
      ∙ sym (header_of-cons b attrs) in
    let shorter : length (header_of (b ∷ attrs)) < fuel = omega (
      arith,
      ap (length {A = ℕ}) (header_of-cons a (b ∷ attrs)),
      length-append a.name (value_text a.value ++ tail_of (b ∷ attrs)),
      length-append (value_text a.value) (tail_of (b ∷ attrs)),
    ) in
    find_attribute-step attrib a (b ∷ attrs) fuel text v e
    ∙ ap (λ next. if is_prefix a.name attrib then some (or_nothing a.value) else next)
        (find_attribute-header_of attrib b attrs fuel (b' ' ∷ header_of (b ∷ attrs)) w vs skipped
          shorter)
  where
    blank_skipped : (text : Bytes) → skip_spaces (b' ' ∷ text) ≡ skip_spaces text
    blank_skipped text = unfold skip_spaces in refl

-- In a header of well-formed attributes `find_attribute_value` finds the first whose name begins the
-- name that is asked for, and gives its value, or the empty text if it has none; if there is no such
-- attribute, it finds nothing.
pub find_attribute_value-header_of :
    (attrib : Bytes) (a : Attribute) (attrs : List Attribute)
    → IsAttribute a
    → All IsAttribute attrs
    → find_attribute_value (header_of (a ∷ attrs)) attrib ≡ value_of attrib (a ∷ attrs)
unfolding find_attribute_value
find_attribute_value-header_of attrib a attrs v vs =
    find_attribute-header_of attrib a attrs (suc (length (header_of (a ∷ attrs))))
      (header_of (a ∷ attrs)) v vs
      (ap skip_spaces (header_of-cons a attrs)
        ∙ skip_spaces-word a.name _ v.starts
        ∙ sym (header_of-cons a attrs))
      (omega arith)
