-- ===== src/Quoted/Followed.antt =====
-- The rounds of `qsp_inplace_commandline` on a line of fields.
use fcgijwtauth.Base.{
  ℕ, zero, suc, ◌+◌, ◌<◌, ◌≤◌, ◌≡◌, refl, ap, sym, ◌∙◌, List, [], ◌∷◌, ◌++◌, append_assoc, Bytes,
  length, take, arith, All, length-append,
}
use mathlib.Core.Path.{ap₂}
use fcgijwtauth.Quoted.{split, pointer, goes_on, commandline_rounds}
use fcgijwtauth.Quoted.Callback.{Field, plain, quoted}
use fcgijwtauth.Quoted.Commandline.{
  IsWord, line, zeroed, starts, line_head, goes_on_room, goes_on_full, goes_on_end,
  commandline_round_blank, commandline_round_quoted, commandline_plain-Avoids,
  commandline_plain_last, commandline_round_plain,
}

pub regroup :
    (front text rest : Bytes) (c : ℕ)
    → (front ++ (text ++ c ∷ [])) ++ rest ≡ front ++ (text ++ c ∷ rest)
regroup front text rest c =
    append_assoc front (text ++ c ∷ []) rest
    ∙ ap (λ (t : Bytes). front ++ t) (append_assoc text (c ∷ []) rest)

-- A quoted field whose quotes are cut, and the blank behind it.
pub regroup_quoted :
    (front text rest : Bytes)
    → (front ++ 0 ∷ (text ++ 0 ∷ b' ' ∷ [])) ++ rest ≡ front ++ 0 ∷ (text ++ 0 ∷ b' ' ∷ rest)
regroup_quoted front text rest =
    append_assoc front (0 ∷ (text ++ 0 ∷ b' ' ∷ [])) rest
    ∙ ap (λ (t : Bytes). front ++ 0 ∷ t) (append_assoc text (0 ∷ b' ' ∷ []) rest)

pub length_field :
    (front text : Bytes) (c rover : ℕ)
    → length front ≡ rover
    → length (front ++ (text ++ c ∷ [])) ≡ rover + length text + 1
length_field front text c rover here =
    omega (arith, length-append front (text ++ c ∷ []), length-append text (c ∷ []))

pub length_quoted :
    (front text : Bytes) (rover : ℕ)
    → length front ≡ rover
    → length (front ++ 0 ∷ (text ++ 0 ∷ b' ' ∷ [])) ≡ rover + length text + 3
length_quoted front text rover here =
    omega
      (arith, length-append front (0 ∷ (text ++ 0 ∷ b' ' ∷ [])), length-append text (0 ∷ b' ' ∷ []))

pub take_nil {ℓ} : {A : Type ℓ} (n : ℕ) → ◌≡◌ {A = List A} [] (take n [])
take_nil zero = refl
take_nil (suc n) = refl

module _ (max : ℕ) where
  -- The blank behind a quoted field takes a round of its own, if there is room for another field.
  blank_passed :
      (front rest : Bytes) (rover fuel count : ℕ)
      → length front ≡ rover
      → count < max
      → goes_on max (commandline_rounds (suc fuel) max) (front ++ b' ' ∷ rest) rover count
        ≡ goes_on max (commandline_rounds fuel max) (front ++ b' ' ∷ rest) (rover + 1) count
  unfolding commandline_rounds
  blank_passed front rest rover fuel count here lt =
      goes_on_room max front rover here (commandline_rounds (suc fuel) max) count (b' ' ∷ rest) b' '
        rest refl refl lt
      ∙ commandline_round_blank max front rover here (commandline_rounds fuel max) count rest

  -- Behind a quoted field, from the blank on.
  blank_followed :
      (front text : Bytes) (fs : List Field) (last : Field) (fuel room rover count : ℕ)
      → length front ≡ rover
      → count + room ≡ max
      → goes_on max
          (commandline_rounds fuel max)
          ((front ++ 0 ∷ (text ++ 0 ∷ b' ' ∷ [])) ++ line fs last)
          (rover + length text + 3)
          count
        ≡ split
            ((front ++ 0 ∷ (text ++ 0 ∷ b' ' ∷ [])) ++ zeroed room fs last)
            (starts room (rover + length text + 3) fs last)
      → goes_on max
          (commandline_rounds (suc fuel) max)
          (front ++ 0 ∷ (text ++ 0 ∷ b' ' ∷ line fs last))
          (rover + 1 + length text + 1)
          count
        ≡ split
            (front ++ 0 ∷ (text ++ 0 ∷ b' ' ∷ zeroed room fs last))
            (starts room (rover + length text + 3) fs last)
  unfolding zeroed starts
  blank_followed front text fs last fuel zero rover count here full h =
      rw (← regroup front (0 ∷ text) (b' ' ∷ line fs last) 0) (
        goes_on_full max (front ++ (0 ∷ text ++ 0 ∷ [])) (rover + 1 + length text + 1)
          (omega (arith, length_field front (0 ∷ text) 0 rover here))
          (commandline_rounds (suc fuel) max) count (b' ' ∷ line fs last) b' ' (line fs last) refl
          refl (omega arith))
  blank_followed front text fs last fuel (suc room) rover count here full h =
      let at : length (front ++ (0 ∷ text ++ 0 ∷ [])) ≡ rover + 1 + length text + 1 =
        omega (arith, length_field front (0 ∷ text) 0 rover here) in
      ap
        (λ (b : Bytes).
          goes_on max (commandline_rounds (suc fuel) max) b (rover + 1 + length text + 1) count)
        (sym (regroup front (0 ∷ text) (b' ' ∷ line fs last) 0))
      ∙ blank_passed (front ++ (0 ∷ text ++ 0 ∷ [])) (line fs last) (rover + 1 + length text + 1)
          fuel count at (omega arith)
      ∙ ap₂ (λ (b : Bytes) (r : ℕ). goes_on max (commandline_rounds fuel max) b r count)
          (regroup front (0 ∷ text) (b' ' ∷ line fs last) 0
            ∙ sym (regroup_quoted front text (line fs last)))
          (omega arith)
      ∙ h
      ∙ ap (λ (b : Bytes). split b (starts (suc room) (rover + length text + 3) fs last))
          (regroup_quoted front text (zeroed (suc room) fs last))

  -- From the beginning of a field on.
  pub line_followed :
      (fs : List Field) (last : Field) (fuel room : ℕ) (front : Bytes) (rover count : ℕ)
      → All IsWord fs
      → IsWord last
      → length front ≡ rover
      → count + room ≡ max
      → length (line fs last) ≤ fuel
      → goes_on max (commandline_rounds fuel max) (front ++ line fs last) rover count
        ≡ split (front ++ zeroed room fs last) (starts room rover fs last)
  unfolding commandline_rounds line zeroed starts
  line_followed fs last fuel zero front rover count ws w here full le =
      let (c, text, e, visible) = line_head fs last ws w in
      goes_on_full max front rover here (commandline_rounds fuel max) count (line fs last) c text e
        visible (omega arith)
  line_followed fs last zero (suc room) front rover count ws w here full le =
      let (c, text, e, visible) = line_head fs last ws w in absurd (omega (arith, ap length e))
  line_followed [] (plain text) (suc fuel) (suc room) front rover count ws w here full le =
      let (c, rest, e, visible) = line_head [] (plain text) ws w in
      let later = commandline_rounds fuel max in
      goes_on_room max front rover here (commandline_rounds (suc fuel) max) count (text ++ 0 ∷ []) c
        rest e visible (omega arith)
      ∙ commandline_round_plain max front rover here later count text (0 ∷ []) w
      ∙ commandline_plain_last max front rover here later count text w
  line_followed [] (quoted text) (suc fuel) (suc room) front rover count ws w here full le =
      let later = commandline_rounds fuel max in
      goes_on_room max front rover here (commandline_rounds (suc fuel) max) count
        (b'"' ∷ (text ++ b'"' ∷ 0 ∷ [])) b'"' (text ++ b'"' ∷ 0 ∷ []) refl refl (omega arith)
      ∙ commandline_round_quoted max front rover here later count text (0 ∷ []) w
      ∙ ap (pointer (rover + 1)) ended
    where
      ended :
          goes_on max
            (commandline_rounds fuel max)
            (front ++ 0 ∷ (text ++ 0 ∷ 0 ∷ []))
            (rover + 1 + length text + 1)
            (count + 1)
          ≡ split (front ++ 0 ∷ (text ++ 0 ∷ 0 ∷ [])) []
      ended = rw (← regroup front (0 ∷ text) (0 ∷ []) 0) (
          goes_on_end max (front ++ (0 ∷ text ++ 0 ∷ [])) (rover + 1 + length text + 1)
            (omega (arith, length_field front (0 ∷ text) 0 rover here))
            (commandline_rounds fuel max) (count + 1) [])
  line_followed (plain text ∷ fs) last (suc fuel) (suc room) front rover count (w, ws) l here full
        le =
      let (c, rest, e, visible) = line_head (plain text ∷ fs) last (w, ws) l in
      let later = commandline_rounds fuel max in
      let shorter : length (line fs last) ≤ fuel =
        omega (arith, length-append text (b' ' ∷ line fs last)) in
      let next : goes_on max later (front ++ (text ++ 0 ∷ line fs last)) (rover + length text + 1)
            (count + 1)
          ≡ split (front ++ (text ++ 0 ∷ zeroed room fs last))
              (starts room (rover + length text + 1) fs last) =
        rw (← regroup front text (line fs last) 0) (
          rw (← regroup front text (zeroed room fs last) 0) (
            line_followed fs last fuel room (front ++ (text ++ 0 ∷ [])) (rover + length text + 1)
              (count + 1) ws l (length_field front text 0 rover here) (omega arith) shorter)) in
      goes_on_room max front rover here (commandline_rounds (suc fuel) max) count
        (text ++ b' ' ∷ line fs last) c rest e visible (omega arith)
      ∙ commandline_round_plain max front rover here later count text (b' ' ∷ line fs last) w
      ∙ commandline_plain-Avoids max front rover here later count text (line fs last) w
      ∙ ap (pointer rover) next
  line_followed (quoted text ∷ fs) last (suc zero) (suc room) front rover count (w, ws) l here full
        le =
      absurd (omega (arith, length-append text (b'"' ∷ b' ' ∷ line fs last)))
  line_followed (quoted text ∷ fs) last (suc (suc fuel)) (suc room) front rover count (w, ws) l here
        full le =
      let later = commandline_rounds (suc fuel) max in
      goes_on_room max front rover here (commandline_rounds (suc (suc fuel)) max) count
        (b'"' ∷ (text ++ b'"' ∷ b' ' ∷ line fs last)) b'"' (text ++ b'"' ∷ b' ' ∷ line fs last) refl
        refl (omega arith)
      ∙ commandline_round_quoted max front rover here later count text (b' ' ∷ line fs last) w
      ∙ ap (pointer (rover + 1)) (
          blank_followed front text fs last fuel room rover (count + 1) here (omega arith) (
            line_followed fs last fuel room (front ++ 0 ∷ (text ++ 0 ∷ b' ' ∷ []))
              (rover + length text + 3) (count + 1) ws l (length_quoted front text rover here)
              (omega arith) (omega (arith, length-append text (b'"' ∷ b' ' ∷ line fs last)))))
