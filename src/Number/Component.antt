-- ===== src/Number/Component.antt =====
-- `appauth_parse_first_number` against its specification: the component with that index among the
-- texts between the slashes, if it is a number that an `int` holds, and 0 otherwise.
use fcgijwtauth.Base.{
  ℕ, zero, suc, ◌≤◌, ◌≡◌, refl, sym, ap, ◌∙◌, Bool, true, ◌&&◌, Option, none, some, List, [], ◌∷◌,
  leb, ◌==◌, if◌then◌else◌, ◌>>=◌, Bytes, ℤ, pos, negsuc, get_elem?, arith, inl, inr, Bool-cases,
  Option-cases, eq_of_some,
}
use fcgijwtauth.Path.Parse.Segments.{split_slash, push_head}
use fcgijwtauth.Number.{
  is_digit, span_digits, decimal, int_max, past_slash, ends_component, checked_run, past_slashes,
  parse_component, appauth_parse_first_number,
}

abbrev pub all_digits : Bytes → Bool
all_digits [] = true
all_digits (c ∷ text) = is_digit c && all_digits text

-- The value of a component.
unfoldable pub component_number : Option Bytes → ℕ
component_number none = 0
component_number (some []) = 0
component_number (some (c ∷ text)) =
    if all_digits (c ∷ text) && leb (decimal (c ∷ text)) int_max then decimal (c ∷ text) else 0

-- The first of the texts between the slashes.
abbrev first_component : Bytes → Bytes
first_component [] = []
first_component (c ∷ text) = if c == b'/' then [] else c ∷ first_component text

ends_component-span_digits :
    (start : Bytes) → ends_component (span_digits start).1 ≡ all_digits (first_component start)
unfolding span_digits
ends_component-span_digits [] = refl
ends_component-span_digits (c ∷ text) = ground (arith, ends_component-span_digits text)

span_digits-all_digits :
    (start : Bytes)
    → all_digits (first_component start) ≡ true
    → (span_digits start).0 ≡ first_component start
unfolding span_digits
span_digits-all_digits [] h = refl
span_digits-all_digits (c ∷ text) h = ground (arith, span_digits-all_digits text)

checked_run_lem :
    (run p component : Bytes)
    → ends_component p ≡ all_digits component
    → (all_digits component ≡ true → run ≡ component)
    → checked_run run p ≡ component_number (some component)
unfolding checked_run component_number
checked_run_lem [] p [] e f = refl
checked_run_lem [] p (c ∷ text) e f = elim (Bool-cases (all_digits (c ∷ text))) [
  | inl good ↦ cc (f good)
  | inr bad ↦ rw bad
]
checked_run_lem (d ∷ ds) p [] e f = cc (f refl)
checked_run_lem (d ∷ ds) p (c ∷ text) e f = elim (Bool-cases (all_digits (c ∷ text))) [
  | inl good ↦ rw (e, good, f good) (ground arith)
  | inr bad ↦ rw (e, bad)
]

parse_component_lem :
    (start : Bytes) → parse_component start ≡ component_number (some (first_component start))
unfolding parse_component
parse_component_lem start =
    checked_run_lem (span_digits start).0 (span_digits start).1 (first_component start)
      (ends_component-span_digits start) (span_digits-all_digits start)

get_elem?-push_head_zero :
    (c : ℕ) (xs : List Bytes) {x : Bytes}
    → get_elem? xs 0 ≡ some x
    → get_elem? (push_head c xs) 0 ≡ some (c ∷ x)
get_elem?-push_head_zero c [] e = cc
get_elem?-push_head_zero c (y ∷ xs) e = ap (λ t. some (c ∷ t)) (eq_of_some e)

get_elem?-push_head-suc :
    (c : ℕ) (xs : List Bytes) (n : ℕ) → get_elem? (push_head c xs) (suc n) ≡ get_elem? xs (suc n)
get_elem?-push_head-suc c [] n = refl
get_elem?-push_head-suc c (y ∷ xs) n = refl

split_slash-first_component :
    (text : Bytes) → get_elem? (split_slash text) 0 ≡ some (first_component text)
unfolding split_slash
split_slash-first_component [] = refl
split_slash-first_component (c ∷ text) = elim (Bool-cases (c == b'/')) [
  | inl e ↦ rw e
  | inr e ↦ rw e (get_elem?-push_head_zero c (split_slash text) (split_slash-first_component text))
]

past_slash_lem :
    (text : Bytes) (n : ℕ)
    → get_elem? (split_slash text) (suc n)
      ≡ (past_slash text >>= λ rest. get_elem? (split_slash rest) n)
unfolding split_slash past_slash
past_slash_lem [] n = refl
past_slash_lem (c ∷ text) n = elim (Bool-cases (c == b'/')) [
  | inl e ↦ rw e
  | inr e ↦ rw e (get_elem?-push_head-suc c (split_slash text) n ∙ past_slash_lem text n)
]

past_slashes_lem :
    (n : ℕ) (text : Bytes)
    → (past_slashes n text >>= λ start. some (first_component start))
      ≡ get_elem? (split_slash text) n
unfolding past_slashes
past_slashes_lem zero text = sym (split_slash-first_component text)
past_slashes_lem (suc n) text = elim (Option-cases (past_slash text)) [
  | inl e ↦ rw e (sym (past_slash_lem text n ∙ rw e))
  | inr (rest, e) ↦ rw e (past_slashes_lem n rest ∙ sym (past_slash_lem text n ∙ rw e))
]

number_of_start :
    (o : Option Bytes)
    → elim o [ none ↦ 0 | some start ↦ parse_component start ]
      ≡ component_number (o >>= λ start. some (first_component start))
number_of_start none = unfold component_number in refl
number_of_start (some start) = parse_component_lem start

-- Of a path that begins with a slash, `appauth_parse_first_number` gives the value of the component
-- behind the n-th slash, for n from 1, if it is there, consists of digits alone and fits an `int`,
-- and otherwise 0.
pub appauth_parse_first_number-split_slash :
    (n : ℕ) (path : Bytes)
    → appauth_parse_first_number (pos (suc n)) (some (b'/' ∷ path))
      ≡ component_number (get_elem? (split_slash path) n)
unfolding appauth_parse_first_number past_slashes past_slash
appauth_parse_first_number-split_slash n path =
    number_of_start (past_slashes n path) ∙ ap component_number (past_slashes_lem n path)

component_number-le : (component : Option Bytes) → component_number component ≤ int_max
unfolding component_number
component_number-le none = omega arith
component_number-le (some []) = omega arith
component_number-le (some (c ∷ text)) = ground arith

parse_component-le : (start : Bytes) → parse_component start ≤ int_max
parse_component-le start =
    rw (parse_component_lem start) (component_number-le (some (first_component start)))

-- Whatever the arguments, the result is an `int` that is not negative.
appauth_parse_first_number-le :
    (count : ℤ) (str : Option Bytes) → appauth_parse_first_number count str ≤ int_max
unfolding appauth_parse_first_number
appauth_parse_first_number-le count none = omega arith
appauth_parse_first_number-le (negsuc n) (some str) = omega arith
appauth_parse_first_number-le (pos zero) (some str) = omega arith
appauth_parse_first_number-le (pos (suc n)) (some str) =
    elim (Option-cases (past_slashes (suc n) str)) [
      | inl e ↦ ground (arith, e)
      | inr (start, e) ↦ ground (arith, e, parse_component-le start)
    ]
