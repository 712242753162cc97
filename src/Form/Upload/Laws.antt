-- ===== src/Form/Upload/Laws.antt =====
-- How much of a body is read.
use fcgijwtauth.Base.{
  concat, ℕ, zero, suc, ◌+◌, ◌-◌, ◌≤◌, ◌<◌, ◌≡◌, refl, ap, ◌∙◌, true, false, none, some, [], ◌∷◌,
  ◌++◌, ltb, leb, ◌==◌, if◌then◌else◌, Bytes, length, take, drop, is_nil, arith, Bool-cases, inl,
  inr, length-append, length-drop, append-nil, take-drop, All,
}
use fcgijwtauth.Web.{Web}
use fcgijwtauth.Form.{Kind, init}
use fcgijwtauth.Form.Upload.{read_buffer_size, pieces_from, read_from, decode_urlencoded}

length-take-le : (n : ℕ) (xs : Bytes) → length (take n xs) ≤ n
length-take-le zero xs = omega arith
length-take-le (suc n) [] = omega arith
length-take-le (suc n) (x ∷ xs) = omega (arith, length-take-le n xs)

-- The pieces that a body is read in are the body, whole and in order, and each fits the buffer.
pub pieces_from-concat :
    (fuel : ℕ) (input : Bytes)
    → length input ≤ fuel
    → (concat (pieces_from fuel input) ≡ input)
      × All (λ (piece : Bytes). length piece ≤ read_buffer_size) (pieces_from fuel input)
unfolding pieces_from
pieces_from-concat zero [] h = (refl, tt)
pieces_from-concat zero (c ∷ input) h = absurd (omega arith)
pieces_from-concat (suc fuel) [] h = (refl, tt)
pieces_from-concat (suc fuel) (c ∷ input) h =
    let (whole, fit) =
      pieces_from-concat fuel (drop read_buffer_size (c ∷ input))
        (omega (arith, length-drop read_buffer_size (c ∷ input))) in
    (
      ap (λ rest. take read_buffer_size (c ∷ input) ++ rest) whole
          ∙ take-drop read_buffer_size (c ∷ input),
      (length-take-le read_buffer_size (c ∷ input), fit),
    )

take_all : (n : ℕ) (xs : Bytes) → length xs ≤ n → take n xs ≡ xs
take_all zero [] h = refl
take_all zero (x ∷ xs) h = absurd (omega arith)
take_all (suc n) [] h = refl
take_all (suc n) (x ∷ xs) h = ap (◌∷◌ x) (take_all n xs (omega arith))

drop_all : (n : ℕ) (xs : Bytes) → length xs ≤ n → drop n xs ≡ []
drop_all zero [] h = refl
drop_all zero (x ∷ xs) h = absurd (omega arith)
drop_all (suc n) [] h = refl
drop_all (suc n) (x ∷ xs) h = drop_all n xs (omega arith)

-- The buffer is filled to the end of the input, if that leaves room.
read_from-fit :
    (fuel max_size : ℕ) (buffer input : Bytes)
    → length buffer + length input < max_size
    → length input < fuel
    → read_from fuel max_size buffer input ≡ some (buffer ++ input)
unfolding read_from
read_from-fit zero max_size buffer input h k = absurd (omega arith)
read_from-fit (suc fuel) max_size buffer [] h k =
    let room : (max_size - length buffer == 0) ≡ false = ground arith in
    rw (room, take_all (max_size - length buffer) [] (omega arith)) (rw append-nil refl)
read_from-fit (suc zero) max_size buffer (c ∷ input) h k = absurd (omega arith)
read_from-fit (suc (suc fuel)) max_size buffer (c ∷ input) h k =
    let room : (max_size - length buffer == 0) ≡ false = ground arith in
    let more : (max_size - length (buffer ++ c ∷ input) == 0) ≡ false =
      ground (arith, length-append buffer (c ∷ input)) in
    rw
      (
        room,
        take_all (max_size - length buffer) (c ∷ input) (omega arith),
        drop_all (max_size - length buffer) (c ∷ input) (omega arith),
      )
      (rw (more, take_all (max_size - length (buffer ++ c ∷ input)) [] (omega arith)) refl)

length-take : (n : ℕ) (xs : Bytes) → n ≤ length xs → length (take n xs) ≡ n
length-take zero xs h = refl
length-take (suc n) [] h = absurd (omega arith)
length-take (suc n) (x ∷ xs) h = omega (arith, length-take n xs)

read_from-no_room :
    (fuel max_size : ℕ) (buffer input : Bytes)
    → length buffer ≡ max_size
    → read_from fuel max_size buffer input ≡ none
unfolding read_from
read_from-no_room zero max_size buffer input h = refl
read_from-no_room (suc fuel) max_size buffer input h =
    let room : (max_size - length buffer == 0) ≡ true = ground arith in rw room refl

read_from-full :
    (fuel max_size : ℕ) (buffer input : Bytes)
    → length buffer ≤ max_size
    → max_size ≤ length buffer + length input
    → read_from fuel max_size buffer input ≡ none
unfolding read_from
read_from-full zero max_size buffer input h k = refl
read_from-full (suc fuel) max_size buffer input h k =
    let size = length-take (max_size - length buffer) input (omega arith) in
    let next =
      read_from-no_room fuel max_size (buffer ++ take (max_size - length buffer) input)
        (drop (max_size - length buffer) input)
        (omega (arith, length-append buffer (take (max_size - length buffer) input))) in
    elim (Bool-cases (max_size - length buffer == 0)) [
      | inl none_left ↦ rw none_left refl
      | inr some_left ↦
          rw (some_left, next)
            (not_nil (take (max_size - length buffer) input) buffer (ground (arith, size)))
    ]
  where
    not_nil :
        (got buffer : Bytes) → 0 < length got → (if is_nil got then some buffer else none) ≡ none
    not_nil [] buffer h = absurd (omega arith)
    not_nil (c ∷ got) buffer h = refl

-- A form of the type of a query string is decoded from the whole body exactly if that is shorter than
-- the buffer, so that the terminator that is written behind it has a place; if not, nothing is.
pub decode_urlencoded_lem :
    (web : Web) (max_size : ℕ) (input : Bytes)
    → decode_urlencoded web max_size input ≡ (
        if ltb (length input) max_size
        then elim (web.decode_query (some input)) [
          | none ↦ none
          | some query ↦ some (record (init web) { kind = Kind.query_string; query = some query })
        ]
        else none)
unfolding decode_urlencoded
decode_urlencoded_lem web max_size input = elim (Bool-cases (ltb (length input) max_size)) [
  | inl fits ↦
      let whole =
        read_from-fit (suc (length input)) max_size [] input (ground arith) (omega arith) in
      let room : leb max_size (length input) ≡ false = ground arith in
      rw (whole, decode_urlencoded) (rw (room, fits) refl)
  | inr full ↦
      let nothing =
        read_from-full (suc (length input)) max_size [] input (omega arith) (ground arith) in
      rw (nothing, decode_urlencoded) (rw full refl)
]
