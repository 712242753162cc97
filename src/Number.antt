-- ===== src/Number.antt =====
-- Decimal numbers in text: what `isdigit`, `strtol` and `std::from_chars` do to the bytes that
-- appauth.cpp and HTTPUtils.hpp hand them, and `appauth_parse_first_number` of appauth.cpp. An `int`
-- has 32 bits and a `long` 64.
pub mod Component
use fcgijwtauth.Base.{
  ℕ, zero, suc, ◌+◌, ◌-◌, ◌*◌, ◌^◌, Bool, true, false, ◌&&◌, ◌||◌, not, Option, none, some, List,
  [], ◌∷◌, leb, ltb, ◌==◌, if◌then◌else◌, ◌>>=◌, Bytes, ℤ, pos, negsuc,
}

abbrev pub is_digit : ℕ → Bool
is_digit c = leb b'0' c && leb c b'9'

-- The longest run of digits at the head of a text, and what follows it.
unfoldable pub span_digits : Bytes → Bytes × Bytes
span_digits [] = ([], [])
span_digits (c ∷ text) =
    let (run, rest) = span_digits text in if is_digit c then (c ∷ run, rest) else ([], c ∷ text)

-- The number that a run of digits writes, after the digits that `acc` stands for.
unfoldable pub decimal_from : ℕ → Bytes → ℕ
decimal_from acc [] = acc
decimal_from acc (c ∷ run) = decimal_from (acc * 10 + (c - b'0')) run

abbrev pub decimal : Bytes → ℕ
decimal = decimal_from 0

abbrev pub int_max : ℕ
int_max = 2147483647

abbrev pub long_max : ℕ
long_max = 9223372036854775807

-- `strtol` at the head of a run of digits: the value, and whether `errno` is set (to ERANGE). It
-- stops behind the run.
pub record Strtol : Type 0 where
  pub value : ℕ
  pub range_error : Bool

unfoldable pub strtol : Bytes → Strtol
strtol run =
    if leb (decimal run) long_max
    then record { value = decimal run; range_error = false }
    else record { value = long_max; range_error = true }

-- `while (*p != '\0' && *p != '/') p++;`, then one byte on: `none` at the end of the text.
unfoldable pub past_slash : Bytes → Option Bytes
past_slash [] = none
past_slash (c ∷ text) = let later = past_slash text in if c == b'/' then some text else later

-- The loop that passes `count` slashes.
unfoldable pub past_slashes : ℕ → Bytes → Option Bytes
unfolding past_slash
past_slashes zero p = some p
past_slashes (suc count) p = past_slash p >>= past_slashes count

abbrev pub ends_component : Bytes → Bool
ends_component [] = true
ends_component (c ∷ _) = c == b'/'

-- What follows a digit run that ends at `p`: the tests on its ends, the conversion and the range.
unfoldable pub checked_run : Bytes → Bytes → ℕ
unfolding strtol
checked_run [] p = 0
checked_run (d ∷ ds) p =
    let number = strtol (d ∷ ds) in
    if not (ends_component p)
    then 0
    else if number.range_error || ltb int_max number.value
    then 0
    else number.value

-- From `start` on.
unfoldable pub parse_component : Bytes → ℕ
unfolding span_digits checked_run
parse_component start = let (run, p) = span_digits start in checked_run run p

abbrev first_is_slash : Bytes → Bool
first_is_slash [] = false
first_is_slash (c ∷ _) = c == b'/'

-- `str` is a C string or null.
unfoldable pub appauth_parse_first_number : ℤ → Option Bytes → ℕ
unfolding past_slashes parse_component
appauth_parse_first_number delimiter_count none = 0
appauth_parse_first_number (negsuc n) (some str) = 0
appauth_parse_first_number (pos zero) (some str) = 0
appauth_parse_first_number (pos (suc n)) (some str) =
    if not (first_is_slash str)
    then 0
    else elim (past_slashes (suc n) str) [ none ↦ 0 | some start ↦ parse_component start ]

-- `std::from_chars` into an `int`: the value if one was stored, what follows the number, and
-- whether there was no error. Without digits nothing is read; past the range of `int` nothing is
-- stored.
pub record FromChars : Type 0 where
  pub stored : Option ℤ
  pub rest : Bytes
  pub fine : Bool

abbrev pub int_of : Bool → ℕ → Option ℤ
int_of true zero = some (pos 0)
int_of true (suc n) = if leb n int_max then some (negsuc n) else none
int_of false n = if leb n int_max then some (pos n) else none

abbrev pub is_some {ℓ} : {A : Type ℓ} → Option A → Bool
is_some none = false
is_some (some _) = true

-- The result once the run of digits is known; `text` is the whole text, the sign included.
unfoldable pub chars_of_run : Bytes → Bool → Bytes → Bytes → FromChars
chars_of_run text negative [] rest = record { stored = none; rest = text; fine = false }
chars_of_run text negative (d ∷ ds) rest =
    let value = int_of negative (decimal (d ∷ ds)) in
    record { stored = value; rest = rest; fine = is_some value }

unfoldable pub from_chars_at : Bytes → Bool → Bytes → FromChars
unfolding span_digits chars_of_run
from_chars_at text negative body =
    let (run, rest) = span_digits body in chars_of_run text negative run rest

unfoldable pub from_chars : Bytes → FromChars
unfolding from_chars_at
from_chars [] = from_chars_at [] false []
from_chars (c ∷ text) =
    if c == b'-'
    then from_chars_at (c ∷ text) true text
    else from_chars_at (c ∷ text) false (c ∷ text)
