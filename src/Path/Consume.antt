-- ===== src/Path/Consume.antt =====
-- `consume`, and `consume_read` and `consume_read_ex` at `int` and at `std::string` (HTTPUtils.hpp,
-- HTTPUtils.cpp): each takes the segment at `idx`, and returns whether it did, the new `idx` and the
-- new value of the output parameter.
pub mod Laws
pub mod Floating
use fcgijwtauth.Base.{
  ℕ, ◌+◌, Bool, true, false, ◌&&◌, Option, none, some, [], ◌∷◌, leb, not, ◌||◌, if◌then◌else◌,
  Bytes, bytes_eq, ℤ, is_nil,
}
use fcgijwtauth.Number.{FromChars, from_chars}
use fcgijwtauth.Path.Parse.{ParsedPath, get_idx, size}

unfoldable pub consume : ParsedPath → ℕ → Bytes → Bool × ℕ
consume p idx literal =
    if leb (size p) idx || not (bytes_eq (get_idx p idx) literal)
    then (false, idx)
    else (true, idx + 1)

abbrev pub or_else : Option ℤ → ℤ → ℤ
or_else none out = out
or_else (some value) out = value

-- At `int`: `from_chars` stores into `out` itself, before the tests.
unfoldable pub consume_read : ParsedPath → ℕ → ℤ → Bool × ℕ × ℤ
consume_read p idx out =
    let number = from_chars (get_idx p idx) in
    let out' = or_else number.stored out in
    if leb (size p) idx
    then (false, idx, out)
    else if not number.fine || not (is_nil number.rest)
    then (false, idx, out')
    else (true, idx + 1, out')

-- At `int`: `from_chars` stores into a local `value`, which is copied after the tests.
unfoldable pub consume_read_ex : ParsedPath → ℕ → ℤ → Bool × ℕ × ℤ
consume_read_ex p idx out =
    let number = from_chars (get_idx p idx) in
    if leb (size p) idx
    then (false, idx, out)
    else if not number.fine || not (is_nil number.rest)
    then (false, idx, out)
    else (true, idx + 1, or_else number.stored (ℤ.pos 0))

-- At `std::string`, both of them.
unfoldable pub consume_read_string : ParsedPath → ℕ → Bytes → Bool × ℕ × Bytes
consume_read_string p idx out =
    if leb (size p) idx then (false, idx, out) else (true, idx + 1, get_idx p idx)
