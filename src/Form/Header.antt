-- ===== src/Form/Header.antt =====
-- contentdisposition.c, and `qsp_append_to_dynstring` of quotedstringparser.c: the attributes of a
-- header value. A pointer into it is the text from there on, which holds no 0.
pub mod Laws
pub mod Fuel
use fcgijwtauth.Base.{
  ℕ, zero, suc, ◌+◌, Bool, true, false, ◌&&◌, ◌||◌, not, Option, none, some, List, [], ◌∷◌, ◌++◌,
  ◌==◌, if◌then◌else◌, Bytes, length, drop, take, bytes_eq, lit,
}

-- Whether a byte is among those of a text.
abbrev pub matches : ℕ → Bytes → Bool
matches c [] = false
matches c (m ∷ ms) = m == c || matches c ms

abbrev pub is_space : ℕ → Bool
is_space c = c == b'\t' || c == b' ' || c == b'\r' || c == b'\n'

pub data QuoteState : Type 0 where
  outside in_quotes escaped : QuoteState

abbrev pub toggled : QuoteState → QuoteState
toggled in_quotes = outside
toggled _ = in_quotes

-- A byte moves the state, and is appended or not; `none` is the `break`.
unfoldable pub quote_step : Bytes → QuoteState → ℕ → Option (QuoteState × Bytes)
quote_step delim state c = if c == b'"' then some (toggled state, []) else elim state [
  | in_quotes ↦ if c == b'\\' then some (escaped, []) else some (in_quotes, c ∷ [])
  | escaped ↦ some (in_quotes, c ∷ [])
  | outside ↦ if matches c delim || c == 0 then none else some (outside, c ∷ [])
]

-- What is appended, and the text that is not consumed.
unfoldable pub append_from : Bytes → QuoteState → Bytes → Bytes × Bytes
unfolding quote_step
append_from delim state [] = ([], [])
append_from delim state (c ∷ text) = elim (quote_step delim state c) [
  | none ↦ ([], c ∷ text)
  | some (state', out) ↦ let (more, rest) = append_from delim state' text in (out ++ more, rest)
]

-- `qsp_append_to_dynstring(dynstring, pos, strlen(pos), delim)`.
unfoldable pub append_to_dynstring : Bytes → Bytes → Bytes × Bytes
unfolding append_from
append_to_dynstring delim text = append_from delim outside text

unfoldable pub skip_spaces : Bytes → Bytes
skip_spaces [] = []
skip_spaces (c ∷ text) = let rest = skip_spaces text in if is_space c then rest else c ∷ text

-- `strncmp(text, name, strlen(name)) == 0`: the comparison goes no further than `name`.
unfoldable pub is_prefix : Bytes → Bytes → Bool
is_prefix [] text = true
is_prefix (c ∷ name) [] = false
is_prefix (c ∷ name) (d ∷ text) = d == c && is_prefix name text

-- The value behind a name, if '=' follows it.
unfoldable pub value_behind : Bytes → Bytes × Bytes
unfolding append_to_dynstring
value_behind [] = ([], [])
value_behind (c ∷ rest) =
    let read = append_to_dynstring (b';' ∷ []) rest in if c == b'=' then read else ([], c ∷ rest)

-- The loop `try_again`; the text gets shorter by its attribute, so the length is enough fuel.
unfoldable pub find_attribute : ℕ → Bytes → Bytes → Option Bytes
unfolding append_to_dynstring skip_spaces is_prefix value_behind
find_attribute zero attrib text = none
find_attribute (suc fuel) attrib text =
    let (name, at_value) = append_to_dynstring (b';' ∷ b'=' ∷ []) (skip_spaces text) in
    let (value, rest) = value_behind at_value in
    let next : Option Bytes = elim rest [
      | [] ↦ none
      | _ ∷ after ↦ find_attribute fuel attrib after
    ] in
    if is_prefix name attrib then some value else next

unfoldable pub find_attribute_value : Bytes → Bytes → Option Bytes
unfolding find_attribute
find_attribute_value hdr attrib = find_attribute (suc (length hdr)) attrib hdr

unfoldable pub get_name : Bytes → Option Bytes
unfolding find_attribute_value lit
get_name hdr = find_attribute_value hdr (lit "name")

unfoldable pub get_filename : Bytes → Option Bytes
unfolding find_attribute_value lit
get_filename hdr = find_attribute_value hdr (lit "filename")

-- `keyvalueheader_getbyname`
unfoldable pub get_by_name : Bytes → Bytes → Option Bytes
unfolding find_attribute_value
get_by_name hdr name = find_attribute_value hdr name
