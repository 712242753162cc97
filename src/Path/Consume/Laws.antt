-- ===== src/Path/Consume/Laws.antt =====
-- What the `consume` family does at an `int`: which segments are numbers, and what a failure leaves.
use fcgijwtauth.Base.{
  ℕ, ◌+◌, ◌≡◌, refl, Bool, true, false, ◌&&◌, ◌||◌, not, Option, none, some, [], ◌∷◌, leb, ◌==◌,
  if◌then◌else◌, Bytes, ℤ, pos, arith, Bool-cases, inl, inr, is_nil,
}
use fcgijwtauth.Number.{
  int_of, is_some, chars_of_run, span_digits, decimal, from_chars_at, from_chars, FromChars,
}
use fcgijwtauth.Number.Component.{all_digits}
use fcgijwtauth.Path.Parse.{ParsedPath, get_idx, size}
use fcgijwtauth.Path.Consume.{consume_read, consume_read_ex, or_else}

-- The number that a whole text writes: a minus sign or none, then digits alone, in range.
unfoldable pub digits_number : Bool → Bytes → Option ℤ
digits_number negative [] = none
digits_number negative (d ∷ ds) =
    if all_digits (d ∷ ds) then int_of negative (decimal (d ∷ ds)) else none

unfoldable pub int_text : Bytes → Option ℤ
unfolding digits_number
int_text [] = none
int_text (c ∷ text) = if c == b'-' then digits_number true text else digits_number false (c ∷ text)

-- What the callers keep of a conversion: the number, if there was no error and nothing follows it.
abbrev complete : FromChars → Option ℤ
complete r = if r.fine && is_nil r.rest then r.stored else none

is_nil-span_digits : (text : Bytes) → is_nil (span_digits text).1 ≡ all_digits text
unfolding span_digits
is_nil-span_digits [] = refl
is_nil-span_digits (c ∷ text) = ground (arith, is_nil-span_digits text)

span_digits_whole : (text : Bytes) → all_digits text ≡ true → (span_digits text).0 ≡ text
unfolding span_digits
span_digits_whole [] h = refl
span_digits_whole (c ∷ text) h = ground (arith, span_digits_whole text)

complete-chars_of_run :
    (text : Bytes) (negative : Bool) (run rest body : Bytes)
    → is_nil rest ≡ all_digits body
    → (all_digits body ≡ true → run ≡ body)
    → complete (chars_of_run text negative run rest) ≡ digits_number negative body
unfolding chars_of_run digits_number
complete-chars_of_run text negative [] rest [] e f = refl
complete-chars_of_run text negative [] rest (c ∷ body) e f =
    elim (Bool-cases (all_digits (c ∷ body))) [ inl good ↦ cc (f good) | inr bad ↦ rw bad ]
complete-chars_of_run text negative (d ∷ ds) rest [] e f = cc (f refl)
complete-chars_of_run text negative (d ∷ ds) rest (c ∷ body) e f =
    elim (Bool-cases (all_digits (c ∷ body))) [
      | inl good ↦ rw (f good, e, good) (kept (int_of negative (decimal (c ∷ body))))
      | inr bad ↦ rw (e, bad) (dropped (int_of negative (decimal (d ∷ ds))))
    ]
  where
    kept : (o : Option ℤ) → (if is_some o && true then o else none) ≡ o
    kept none = refl
    kept (some v) = refl

    dropped : (o : Option ℤ) → (if is_some o && false then o else none) ≡ none
    dropped none = refl
    dropped (some v) = refl

complete-from_chars : (text : Bytes) → complete (from_chars text) ≡ int_text text
unfolding from_chars int_text from_chars_at
complete-from_chars [] = refl
complete-from_chars (c ∷ text) = elim (Bool-cases (c == b'-')) [
  | inl e ↦ rw e (
      complete-chars_of_run (c ∷ text) true _ _ text (is_nil-span_digits text)
        (span_digits_whole text))
  | inr e ↦ rw e (
      complete-chars_of_run (c ∷ text) false _ _ (c ∷ text) (is_nil-span_digits (c ∷ text))
        (span_digits_whole (c ∷ text)))
]

fine-from_chars : (text : Bytes) → (from_chars text).fine ≡ is_some (from_chars text).stored
unfolding from_chars from_chars_at
fine-from_chars [] = refl
fine-from_chars (c ∷ text) = elim (Bool-cases (c == b'-')) [
  | inl e ↦ rw e (at_run (c ∷ text) true (span_digits text).0 (span_digits text).1)
  | inr e ↦ rw e (at_run (c ∷ text) false (span_digits (c ∷ text)).0 (span_digits (c ∷ text)).1)
]
  where
    at_run :
        (whole : Bytes) (negative : Bool) (run rest : Bytes)
        → (chars_of_run whole negative run rest).fine
          ≡ is_some (chars_of_run whole negative run rest).stored
    at_run whole negative [] rest = refl
    at_run whole negative (d ∷ ds) rest = refl

-- The result of a reader that takes an optional number.
abbrev pub outcome : ℕ → ℤ → Option ℤ → Bool × ℕ × ℤ
outcome idx out none = (false, idx, out)
outcome idx out (some value) = (true, idx + 1, value)

outcome-complete :
    (r : FromChars) (idx : ℕ) (out : ℤ)
    → r.fine ≡ is_some r.stored
    → (if not r.fine || not (is_nil r.rest)
        then (false, idx, out)
        else (true, idx + 1, or_else r.stored (pos 0)))
      ≡ outcome idx out (complete r)
outcome-complete r idx out e = ground arith

-- `consume_read_ex` at `int` reads the segment at `idx` exactly if there is one and it is an
-- optional minus sign and one or more digits, of a value that an `int` holds: then it moves `idx` on
-- by one and stores that value. Otherwise it changes neither `idx` nor the output.
pub consume_read_ex-int_text :
    (p : ParsedPath) (idx : ℕ) (out : ℤ)
    → consume_read_ex p idx out
      ≡ outcome idx out (if leb (size p) idx then none else int_text (get_idx p idx))
unfolding consume_read_ex
consume_read_ex-int_text p idx out = elim (Bool-cases (leb (size p) idx)) [
  | inl past ↦ rw past
  | inr here ↦
      rw (here, ← complete-from_chars (get_idx p idx))
        (outcome-complete (from_chars (get_idx p idx)) idx out (fine-from_chars (get_idx p idx)))
]

abbrev pub restore : ℕ → ℤ → Bool × ℕ × ℤ → Bool × ℕ × ℤ
restore idx out (done, idx', out') = if done then (done, idx', out') else (false, idx, out)

restored_complete :
    (r : FromChars) (idx : ℕ) (out : ℤ)
    → r.fine ≡ is_some r.stored
    → (if not r.fine || not (is_nil r.rest)
        then (false, idx, out)
        else (true, idx + 1, or_else r.stored (pos 0)))
      ≡ restore idx out (
          if not r.fine || not (is_nil r.rest)
          then (false, idx, or_else r.stored out)
          else (true, idx + 1, or_else r.stored out))
restored_complete r idx out e = ground arith

-- `consume_read_ex` at `int` is `consume_read` with the output put back on a failure.
consume_read_ex-consume_read :
    (p : ParsedPath) (idx : ℕ) (out : ℤ)
    → consume_read_ex p idx out ≡ restore idx out (consume_read p idx out)
unfolding consume_read_ex consume_read
consume_read_ex-consume_read p idx out = elim (Bool-cases (leb (size p) idx)) [
  | inl past ↦ rw past
  | inr here ↦
      rw here
        (restored_complete (from_chars (get_idx p idx)) idx out (fine-from_chars (get_idx p idx)))
]
