-- ===== src/Quoted/Bounds.antt =====
-- `qsp_inplace_commandline` on a block that ends with the terminator.
use fcgijwtauth.Base.{
  ℕ, zero, suc, ◌+◌, ◌-◌, ◌≤◌, ◌<◌, ◌≡◌, ◌≢◌, refl, ap, sym, ◌∙◌, false, some, List, [], ◌∷◌, ◌++◌,
  ◌==◌, ltb, Bytes, length, drop, set, arith, All, Avoids, Bool-cases, Option-cases, inl, inr,
  length-append, length-drop,
}
use mathlib.Core.Path.{subst}
use fcgijwtauth.Cookies.{strchr}
use fcgijwtauth.Quoted.{
  closing, Split, split, past_the_end, out_of_fuel, pointer, Round, goes_on, commandline_quoted,
  to_space, commandline_plain, commandline_round, commandline_rounds, inplace_commandline,
}
use fcgijwtauth.Quoted.Moves.{
  strchr-terminated, closing-terminated, strchr_head, At, At-move, At-set, At-cut,
}

-- A split with `room` for pointers, all of them into a block of the length `size` and a terminator.
abbrev IsWithin : ℕ → ℕ → Split → Type 0
IsWithin size room (split block ps) =
    (length block ≡ size + 1) × All (λ p. p ≤ size) ps × (length ps ≤ room)
IsWithin size room past_the_end = ⊥
IsWithin size room out_of_fuel = ⊥

pointer-IsWithin :
    (size room p : ℕ) (s : Split)
    → p ≤ size
    → IsWithin size room s
    → IsWithin size (suc room) (pointer p s)
pointer-IsWithin size room p (split block ps) le (same, within, fits) =
    (same, (le, within), omega arith)
pointer-IsWithin size room p past_the_end le h = h
pointer-IsWithin size room p out_of_fuel le h = h

module _ (size max : ℕ) where
  -- What the rounds with this fuel do where there is text left and room for a pointer.
  abbrev Ready : ℕ → Round → Type 0
  Ready fuel later =
      (block : Bytes) (rover c : ℕ) (text : Bytes) (count : ℕ)
      → At size block rover (c ∷ text)
      → length (c ∷ text) ≤ fuel
      → count < max
      → IsWithin size (max - count) (later block rover count)

  module _ (fuel : ℕ) (later : Round) (ready : Ready fuel later) where
    goes_on-IsWithin :
        (block : Bytes) (rover : ℕ) (text : Bytes) (count : ℕ)
        → At size block rover text
        → length text ≤ fuel
        → IsWithin size (max - count) (goes_on max later block rover count)
    unfolding goes_on
    goes_on-IsWithin block rover [] count a le = rw (a.rest, goes_on) (a.whole, tt, omega arith)
    goes_on-IsWithin block rover (c ∷ text) count a le =
        let visible : (c == 0) ≡ false = let (n, _) = a.plain in ground arith in
        rw (a.rest, goes_on)
          (rw visible (elim (Bool-cases (ltb count max)) [
            | inl room ↦ rw room (ready block rover c text count a le (ground arith))
            | inr full ↦ rw full (a.whole, tt, omega arith)
          ]))

    stored :
        (p count : ℕ) (s : Split)
        → p ≤ size
        → count < max
        → IsWithin size (max - (count + 1)) s
        → IsWithin size (max - count) (pointer p s)
    stored p count s le room h =
        subst (λ room. IsWithin size room (pointer p s)) (omega arith)
          (pointer-IsWithin size (max - (count + 1)) p s le h)

    -- A pointer is stored, the byte behind the field is overwritten, and the loop goes on behind it.
    field-IsWithin :
        (block : Bytes) (rover : ℕ) (text : Bytes) (n count : ℕ)
        → At size block rover text
        → length text ≤ suc fuel
        → n < length text
        → count < max
        → IsWithin size (max - count) (
            pointer rover (goes_on max later (set block (rover + n) 0) (rover + n + 1) (count + 1)))
    field-IsWithin block rover text n count a le lt room =
        stored rover count _ (let p = a.place in omega arith) room (
          goes_on-IsWithin (set block (rover + n) 0) (rover + n + 1) (drop (n + 1) text) (count + 1)
            (At-cut size block rover text n a lt) (omega (arith, length-drop (n + 1) text)))

    to_space-IsWithin :
        (block : Bytes) (rover : ℕ) (text : Bytes) (count : ℕ)
        → At size block rover text
        → length text ≤ suc fuel
        → count < max
        → IsWithin size (max - count) (to_space max later block rover count)
    unfolding to_space
    to_space-IsWithin block rover text count a le room =
        elim (Option-cases (strchr b' ' (text ++ 0 ∷ []))) [
          | inl none_left ↦
              rw (a.rest, to_space)
                (rw none_left (a.whole, (let p = a.place in omega arith, tt), omega arith))
          | inr (n, found) ↦
              rw (a.rest, to_space)
                (rw found (
                  field-IsWithin block rover text n count a le
                    (strchr-terminated b' ' text n (omega arith) found) room))
        ]

    commandline_plain-IsWithin :
        (block : Bytes) (rover : ℕ) (text : Bytes) (count : ℕ)
        → At size block rover text
        → length text ≤ suc fuel
        → count < max
        → strchr b'"' (text ++ 0 ∷ []) ≢ some 0
        → IsWithin size (max - count) (commandline_plain max later block rover count)
    unfolding commandline_plain
    commandline_plain-IsWithin block rover text count a le room unquoted =
        let blank = to_space-IsWithin block rover text count a le room in
        elim (Option-cases (strchr b'"' (drop rover block))) [
          | inl no_quote ↦ rw (no_quote, commandline_plain) blank
          | inr (quote, found) ↦
              let at_quote = ap (strchr b'"') (sym a.rest) ∙ found in
              let before = strchr-terminated b'"' text quote (omega arith) at_quote in
              let moved : 1 ≤ quote = behind quote at_quote in
              let up_to_quote =
                stored rover count (goes_on max later block (rover + quote) (count + 1))
                  (let p = a.place in omega arith) room
                  (goes_on-IsWithin block (rover + quote) (drop quote text) (count + 1)
                    (At-move size block rover text quote a (omega arith))
                    (omega (arith, length-drop quote text))) in
              elim (Option-cases (strchr b' ' (drop rover block))) [
                | inl no_space ↦ rw (found, no_space, commandline_plain) up_to_quote
                | inr (space, spaced) ↦
                    rw (found, spaced, commandline_plain)
                      (elim (Bool-cases (ltb space quote)) [
                        | inl first ↦ rw first blank
                        | inr later_on ↦ rw later_on up_to_quote
                      ])
              ]
        ]
      where
        behind : (quote : ℕ) → strchr b'"' (text ++ 0 ∷ []) ≡ some quote → 1 ≤ quote
        behind zero e = absurd (unquoted e)
        behind (suc n) e = omega arith

    commandline_quoted-IsWithin :
        (block : Bytes) (rover c : ℕ) (text : Bytes) (count : ℕ)
        → At size block rover (c ∷ text)
        → length text ≤ fuel
        → count < max
        → IsWithin size (max - count) (commandline_quoted max later block rover count)
    unfolding commandline_quoted
    commandline_quoted-IsWithin block rover c text count a le room =
        let inside : At size (set block rover 0) (rover + 1) text =
          At-set size block (rover + 1) text rover
            (At-move size block rover (c ∷ text) 1 a (omega arith)) (omega arith) in
        elim (Option-cases (closing 0 (text ++ 0 ∷ []))) [
          | inl unclosed ↦
              rw (inside.rest, commandline_quoted)
                (rw unclosed (inside.whole, (let p = a.place in omega arith, tt), omega arith))
          | inr (n, closed) ↦
              rw (inside.rest, commandline_quoted)
                (rw closed (
                  let before = closing-terminated 0 text n closed in
                  stored (rover + 1) count _ (let p = a.place in omega arith) room (
                    goes_on-IsWithin (set (set block rover 0) (rover + 1 + n) 0) (rover + 1 + n + 1)
                      (drop (n + 1) text) (count + 1)
                      (At-cut size (set block rover 0) (rover + 1) text n inside before)
                      (omega (arith, length-drop (n + 1) text)))))
        ]

    commandline_round-IsWithin :
        (block : Bytes) (rover : ℕ) (text : Bytes) (count : ℕ)
        → At size block rover text
        → length text ≤ suc fuel
        → count < max
        → IsWithin size (max - count) (commandline_round max later block rover count)
    unfolding commandline_round
    commandline_round-IsWithin block rover [] count a le room =
        rw (a.rest, commandline_round)
          (commandline_plain-IsWithin block rover [] count a le room (strchr_head b'"' 0 [] refl))
    commandline_round-IsWithin block rover (c ∷ text) count a le room =
        rw (a.rest, commandline_round)
          (elim (Bool-cases (c == b'"')) [
            | inl quoted ↦
                rw quoted
                  (commandline_quoted-IsWithin block rover c text count a (omega arith) room)
            | inr unquoted ↦ rw unquoted (elim (Bool-cases (c == b' ')) [
              | inl blank ↦ rw blank (
                  goes_on-IsWithin block (rover + 1) text count
                    (At-move size block rover (c ∷ text) 1 a (omega arith)) (omega arith))
              | inr other ↦ rw other (
                  commandline_plain-IsWithin block rover (c ∷ text) count a le room
                    (strchr_head b'"' c (text ++ 0 ∷ []) unquoted))
            ])
          ])

  commandline_rounds-Ready : (fuel : ℕ) → Ready fuel (commandline_rounds fuel max)
  unfolding commandline_rounds
  commandline_rounds-Ready zero block rover c text count a le room = absurd (omega arith)
  commandline_rounds-Ready (suc fuel) block rover c text count a le room =
      commandline_round-IsWithin fuel (commandline_rounds fuel max) (commandline_rounds-Ready fuel)
        block rover (c ∷ text) count a le room

summed :
    (size room : ℕ) (s : Split)
    → IsWithin size room s
    → (block : Bytes) × (ps : List ℕ) × (s ≡ split block ps)
      × (length block ≡ size + 1)
      × All (λ p. p ≤ size) ps
      × (length ps ≤ room)
summed size room (split block ps) (same, within, fits) = (block, ps, refl, same, within, fits)
summed size room past_the_end h = absurd h
summed size room out_of_fuel h = absurd h

-- On a text without zeros, with its terminator behind it, the splitting comes to an end if `max` is not
-- 0: no round reads behind the terminator, the block keeps its length, and at most `max` pointers are
-- stored, each into the text or to its end.
pub inplace_commandline_bounds :
    (text : Bytes) (max : ℕ)
    → Avoids 0 text
    → 0 < max
    → (block : Bytes) × (ps : List ℕ) × (inplace_commandline (text ++ 0 ∷ []) max ≡ split block ps)
      × (length block ≡ length text + 1)
      × All (λ p. p ≤ length text) ps
      × (length ps ≤ max)
unfolding inplace_commandline commandline_rounds
inplace_commandline_bounds text max plain room =
    let size = length text in
    let start : At size (text ++ 0 ∷ []) 0 text = record {
      whole = length-append text (0 ∷ []);
      rest = refl;
      plain = plain;
      place = omega arith;
    } in
    let later = commandline_rounds size max in
    let (block, ps, s, same, within, fits) =
      summed size (max - 0) (commandline_round max later (text ++ 0 ∷ []) 0 0) (
        commandline_round-IsWithin size max size later (commandline_rounds-Ready size max size)
          (text ++ 0 ∷ []) 0 text 0 start (omega arith) room) in
    (
      block,
      ps,
      ap (λ fuel. commandline_rounds fuel max (text ++ 0 ∷ []) 0 0) enough ∙ s,
      same,
      within,
      omega arith,
    )
  where
    enough : length (text ++ 0 ∷ []) ≡ suc (length text)
    enough = omega (arith, length-append text (0 ∷ []))
