-- ===== src/Form/Header/Fuel.antt =====
-- The loop of `find_attribute_value` ends on every header.
use fcgijwtauth.Base.{
  ℕ, zero, suc, ◌≤◌, ◌<◌, ◌≡◌, refl, ap, Option, none, some, [], ◌∷◌, ◌==◌, if◌then◌else◌, Bytes,
  length, arith, Bool-cases, Option-cases, inl, inr,
}
use fcgijwtauth.Form.Header.{
  QuoteState, quote_step, append_from, append_to_dynstring, skip_spaces, is_prefix, value_behind,
  find_attribute,
}

length-append_from :
    (delim : Bytes) (state : QuoteState) (text : Bytes)
    → length (append_from delim state text).1 ≤ length text
unfolding append_from
length-append_from delim state [] = omega arith
length-append_from delim state (c ∷ text) = elim (Option-cases (quote_step delim state c)) [
  | inl stop ↦ rw (stop, append_from) (omega arith)
  | inr ((state', out), go) ↦
      rw (go, append_from) (omega (arith, length-append_from delim state' text))
]

length-skip_spaces : (text : Bytes) → length (skip_spaces text) ≤ length text
unfolding skip_spaces
length-skip_spaces [] = omega arith
length-skip_spaces (c ∷ text) = ground (arith, length-skip_spaces text)

length-value_behind : (text : Bytes) → length (value_behind text).1 ≤ length text
unfolding value_behind append_to_dynstring
length-value_behind [] = omega arith
length-value_behind (c ∷ rest) = elim (Bool-cases (c == b'=')) [
  | inl e ↦ rw e (omega (arith, length-append_from (b';' ∷ []) QuoteState.outside rest))
  | inr e ↦ rw e (omega arith)
]

-- Past the length of the header more rounds change nothing, for any header and any name: the loop
-- has ended by itself.
find_attribute-length :
    (attrib : Bytes) (fuel more : ℕ) (text : Bytes)
    → length text < fuel
    → length text < more
    → find_attribute fuel attrib text ≡ find_attribute more attrib text
unfolding find_attribute
find_attribute-length attrib zero more text h k = absurd (omega arith)
find_attribute-length attrib (suc fuel) zero text h k = absurd (omega arith)
find_attribute-length attrib (suc fuel) (suc more) text h k =
    let read = append_to_dynstring (b';' ∷ b'=' ∷ []) (skip_spaces text) in
    ap (λ next. if is_prefix read.0 attrib then some (value_behind read.1).0 else next)
      (go (find_attribute-length attrib fuel more) (value_behind read.1).1 shorter)
  where
    shorter :
        length (value_behind (append_to_dynstring (b';' ∷ b'=' ∷ []) (skip_spaces text)).1).1
        ≤ length text
    shorter =
        unfold append_to_dynstring in
        omega (
          arith,
          length-value_behind (append_to_dynstring (b';' ∷ b'=' ∷ []) (skip_spaces text)).1,
          length-append_from (b';' ∷ b'=' ∷ []) QuoteState.outside (skip_spaces text),
          length-skip_spaces text,
        )

    go :
        ((t : Bytes)
          → length t < fuel
          → length t < more
          → find_attribute fuel attrib t ≡ find_attribute more attrib t)
        → (rest : Bytes) → length rest ≤ length text
        → (let next : Option Bytes = elim rest [
          | [] ↦ none
          | _ ∷ after ↦ find_attribute fuel attrib after
        ] in
            next)
          ≡ (let next : Option Bytes = elim rest [
            | [] ↦ none
            | _ ∷ after ↦ find_attribute more attrib after
          ] in
              next)
    go ih [] le = refl
    go ih (c ∷ after) le = ih after (omega arith) (omega arith)
