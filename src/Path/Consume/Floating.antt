-- ===== src/Path/Consume/Floating.antt =====
-- `consume_read` and `consume_read_ex` at a floating point type, and `consume_read` at a type with a
-- `parse` of its own (HTTPUtils.hpp). The conversions of the C and the C++ library are parameters.
use fcgijwtauth.Base.{
  ℕ, ◌+◌, ◌<◌, ◌≡◌, refl, ◌∙◌, Bool, true, false, ◌&&◌, not, Option, none, some, leb, ◌==◌,
  if◌then◌else◌, Bytes, length, arith, Bool-cases, inl, inr,
}
use fcgijwtauth.Cookies.{c_string}
use fcgijwtauth.Path.Parse.{ParsedPath, get_idx, size}

-- `strtod` with the cast to the type, and `std::stof` or `std::stod`, which throws where there is
-- nothing to convert or the number is out of the range; each with the bytes it read. Both read the C
-- string of a segment.
pub record Floats : Type 1 where
  pub Float : Type 0
  pub strtod : Bytes → Float × ℕ
  pub is_in_range : Bytes → Bool
  pub sto : Bytes → Option (Float × ℕ)

module _ (floats : Floats) where
  open floats use {Float, strtod, is_in_range, sto}

  -- `sizeof buf` is 64.
  unfoldable pub consume_read_floating : ParsedPath → ℕ → Float → Bool × ℕ × Float
  unfolding c_string
  consume_read_floating p idx out =
      let seg = get_idx p idx in
      let (value, end) = strtod (c_string seg) in
      if leb (size p) idx
      then (false, idx, out)
      else if leb 64 (length seg)
      then (false, idx, out)
      else if end == length seg
      then (true, idx + 1, value)
      else (false, idx, value)

  unfoldable pub consume_read_ex_floating : ParsedPath → ℕ → Float → Bool × ℕ × Float
  unfolding c_string
  consume_read_ex_floating p idx out =
      let seg = get_idx p idx in
      let converted : Bool × ℕ × Float = elim (sto (c_string seg)) [
        | none ↦ (false, idx, out)
        | some (value, pos) ↦
            if pos == length seg then (true, idx + 1, value) else (false, idx, value)
      ] in
      if leb (size p) idx then (false, idx, out) else converted

  abbrev putting_back : ℕ → Float → Bool × ℕ × Float → Bool × ℕ × Float
  putting_back idx out (done, idx', out') = if done then (true, idx', out') else (false, idx, out)

  -- At a segment that is not empty, shorter than 64 bytes and within the range of the type, both read
  -- the same, but for the output where they fail.
  consume_read_ex_floating-consume_read_floating :
      (p : ParsedPath) (idx : ℕ) (out : Float)
      → ((text : Bytes)
          → sto text
            ≡ (if leb 1 (strtod text).1 && is_in_range text then some (strtod text) else none))
      → 0 < length (get_idx p idx)
      → length (get_idx p idx) < 64
      → is_in_range (c_string (get_idx p idx)) ≡ true
      → putting_back idx out (consume_read_ex_floating p idx out)
        ≡ putting_back idx out (consume_read_floating p idx out)
  unfolding consume_read_ex_floating consume_read_floating
  consume_read_ex_floating-consume_read_floating p idx out stod nonempty short in_range =
      let seg = get_idx p idx in
      let short_test : leb 64 (length seg) ≡ false = ground arith in
      elim (Bool-cases (leb (size p) idx)) [
        | inl past ↦ rw past refl
        | inr here ↦ elim (Bool-cases (leb 1 (strtod (c_string seg)).1)) [
          | inl some_read ↦
              let converted : sto (c_string seg) ≡ some (strtod (c_string seg)) =
                stod (c_string seg) ∙ rw (some_read, in_range) refl in
              elim (Bool-cases ((strtod (c_string seg)).1 == length seg)) [
                | inl whole ↦ rw (here, converted, short_test, whole) refl
                | inr part ↦ rw (here, converted, short_test, part) refl
              ]
          | inr none_read ↦
              let refused : sto (c_string seg) ≡ none = stod (c_string seg) ∙ rw none_read refl in
              let part : ((strtod (c_string seg)).1 == length seg) ≡ false = ground arith in
              rw (here, refused, short_test, part) refl
        ]
      ]

-- A type with a `parse`, which returns whether it could.
unfoldable pub consume_read_parsed {ℓ} :
    {T : Type ℓ} → (Bytes → T → Bool × T) → ParsedPath → ℕ → T → Bool × ℕ × T
consume_read_parsed parse p idx out =
    let (parsed, out') = parse (get_idx p idx) out in
    if leb (size p) idx then (false, idx, out) else (not parsed, idx, out')
