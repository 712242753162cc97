-- ===== src/Template.antt =====
-- `TemplateEngine` (simpletemplate.hpp). The position in the template is the text from there on.
pub mod Pieces
pub mod Render
pub mod Fuel
pub mod Variable
pub mod View
use mathlib.Core.Option
use fcgijwtauth.Base.{
  ℕ, zero, suc, ◌+◌, Bool, true, false, ◌&&◌, ◌||◌, not, Option, none, some, List, [], ◌∷◌, ◌++◌,
  leb, ◌==◌, if◌then◌else◌, Bytes, bytes_eq, length, take, drop,
}
use fcgijwtauth.Library.{Library, FileRead}
use fcgijwtauth.Jwks.Store.{find_key}

pub record Engine : Type 0 where
  pub template : Bytes
  pub variables : List (Bytes × Bytes)

-- `m_variables[name] = value`
unfoldable pub assign : Bytes → Bytes → List (Bytes × Bytes) → List (Bytes × Bytes)
assign name value [] = (name, value) ∷ []
assign name value ((n, v) ∷ m) =
    let rest = assign name value m in if bytes_eq n name then (n, value) ∷ m else (n, v) ∷ rest

unfoldable pub erase : Bytes → List (Bytes × Bytes) → List (Bytes × Bytes)
erase name [] = []
erase name ((n, v) ∷ m) = let rest = erase name m in if bytes_eq n name then m else (n, v) ∷ rest

abbrev pub of_text : Bytes → Engine
of_text text = record { template = text; variables = [] }

unfoldable pub from_file : Library → Bytes → Option Engine
from_file lib filename = elim (lib.read_file filename) [
  | FileRead.not_opened ↦ none
  | FileRead.not_read ↦ none
  | FileRead.contents text time ↦ some (of_text text)
]

unfoldable pub set_template : Bytes → Engine → Engine
set_template text e = record e { template = text }

unfoldable pub set_variable : Bytes → Bytes → Engine → Engine
unfolding assign
set_variable name value e = record e { variables = assign name value e.variables }

unfoldable pub set_variables : List (Bytes × Bytes) → Engine → Engine
set_variables variables e = record e { variables = variables }

unfoldable pub remove_variable : Bytes → Engine → Engine
unfolding erase
remove_variable name e = record e { variables = erase name e.variables }

unfoldable pub clear_variables : Engine → Engine
clear_variables e = record e { variables = [] }

abbrev pub is_whitespace : ℕ → Bool
is_whitespace c = c == b' ' || c == b'\t' || c == b'\r' || c == b'\n'

-- The two loops of `Trim`, each over the text that is left.
unfoldable pub trim_left : Bytes → Bytes
trim_left [] = []
trim_left (c ∷ value) = let rest = trim_left value in if is_whitespace c then rest else c ∷ value

abbrev pub without_blank : ℕ → Bytes → Bytes
without_blank c [] = if is_whitespace c then [] else c ∷ []
without_blank c (d ∷ rest) = c ∷ d ∷ rest

unfoldable pub trim_right : Bytes → Bytes
trim_right [] = []
trim_right (c ∷ value) = without_blank c (trim_right value)

unfoldable pub trim : Bytes → Bytes
unfolding trim_left trim_right
trim value = trim_right (trim_left value)

abbrev pub is_letter : ℕ → Bool
is_letter c = (leb b'A' c && leb c b'Z') || (leb b'a' c && leb c b'z') || c == b'_'

abbrev pub is_name_byte : ℕ → Bool
is_name_byte c =
    (leb b'A' c && leb c b'Z')
    || (leb b'a' c && leb c b'z')
    || (leb b'0' c && leb c b'9')
    || c == b'_'

unfoldable pub all_name_bytes : Bytes → Bool
all_name_bytes [] = true
all_name_bytes (c ∷ name) = is_name_byte c && all_name_bytes name

unfoldable pub is_valid_variable_name : Bytes → Bool
unfolding all_name_bytes
is_valid_variable_name [] = false
is_valid_variable_name (c ∷ name) = is_letter c && all_name_bytes name

-- `find` of a text of two bytes.
unfoldable pub find_pair : ℕ → ℕ → Bytes → Option ℕ
find_pair a b [] = none
find_pair a b (x ∷ []) = none
find_pair a b (x ∷ y ∷ text) =
    let later = Option.map suc (find_pair a b (y ∷ text)) in
    if x == a && y == b then some 0 else later

-- What stands in the output for an expression with this text between its delimiters: the value, or
-- the expression itself as `original`.
unfoldable pub replacement : Bool → List (Bytes × Bytes) → Bytes → Bytes → Bytes
unfolding trim is_valid_variable_name find_key
replacement leave_unknown variables inner original =
    let unknown = if leave_unknown then original else [] in
    let known : Bytes = elim (find_key (trim inner) variables) [
      | none ↦ unknown
      | some value ↦ value
    ] in
    if is_valid_variable_name (trim inner) then known else original

-- The loop of `Render` on the text from `position` on; it ends with the text, so the fuel that
-- `render` gives, the length of the template, is enough.
unfoldable pub render_from : ℕ → Bool → List (Bytes × Bytes) → Bytes → Bytes
unfolding find_pair
render_from fuel leave_unknown variables [] = []
render_from zero leave_unknown variables (c ∷ text) = []
render_from (suc fuel) leave_unknown variables (c ∷ text) = elim (find_pair b'<' b'%' (c ∷ text)) [
  | none ↦ c ∷ text
  | some start ↦ elim (find_pair b'%' b'>' (drop (start + 2) (c ∷ text))) [
    | none ↦ take start (c ∷ text) ++ drop start (c ∷ text)
    | some count ↦
        let inside = drop (start + 2) (c ∷ text) in
        take start (c ∷ text)
        ++ (replacement leave_unknown variables (take count inside)
              (take (count + 4) (drop start (c ∷ text)))
            ++ render_from fuel leave_unknown variables (drop (count + 2) inside))
  ]
]

unfoldable pub render : Bool → Engine → Bytes
unfolding render_from
render leave_unknown e = render_from (length e.template) leave_unknown e.variables e.template
