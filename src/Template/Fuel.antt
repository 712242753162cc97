-- ===== src/Template/Fuel.antt =====
-- The loop of `Render` ends, and without variables it copies the template.
use fcgijwtauth.Base.{
  ℕ, zero, suc, ◌+◌, ◌≤◌, ◌≡◌, refl, ap, ◌∙◌, sym, Bool, true, List, [], ◌∷◌, ◌++◌, Bytes, arith,
  length, take, drop, Option-cases, inl, inr, length-drop, take-drop, drop-drop, Bool-cases,
}
use fcgijwtauth.Jwks.Store.{find_key}
use fcgijwtauth.Template.{
  of_text, find_pair, replacement, render_from, render, is_valid_variable_name, trim,
}

-- Past the length of the text more rounds change nothing: the loop has ended by itself.
pub render_from-length :
    (leave_unknown : Bool) (variables : List (Bytes × Bytes)) (fuel more : ℕ) (text : Bytes)
    → length text ≤ fuel
    → length text ≤ more
    → render_from fuel leave_unknown variables text ≡ render_from more leave_unknown variables text
unfolding render_from
render_from-length leave_unknown variables fuel more [] le le' = refl
render_from-length leave_unknown variables zero more (c ∷ text) le le' = absurd (omega arith)
render_from-length leave_unknown variables (suc fuel) zero (c ∷ text) le le' = absurd (omega arith)
render_from-length leave_unknown variables (suc fuel) (suc more) (c ∷ text) le le' =
    elim (Option-cases (find_pair b'<' b'%' (c ∷ text))) [
      | inl h ↦ rw (h, render_from) refl
      | inr (start, h) ↦ elim (Option-cases (find_pair b'%' b'>' (drop (start + 2) (c ∷ text)))) [
        | inl k ↦ rw (h, k, render_from) refl
        | inr (count, k) ↦
            let rest = drop (count + 2) (drop (start + 2) (c ∷ text)) in
            let shorter : length rest + 1 ≤ suc (length text) =
              shorter_rest (c ∷ text) start count (omega arith) in
            let same =
              render_from-length leave_unknown variables fuel more rest (omega arith)
                (omega arith) in
            rw (h, k, render_from) (rw same refl)
      ]
    ]
  where
    shorter_rest :
        (text : Bytes) (start count : ℕ)
        → 1 ≤ length text
        → length (drop (count + 2) (drop (start + 2) text)) + 1 ≤ length text
    shorter_rest text start count le =
        omega (arith, length-drop (count + 2) (drop (start + 2) text), length-drop (start + 2) text)

replacement_unknown : (inner original : Bytes) → replacement true [] inner original ≡ original
unfolding replacement find_key
replacement_unknown inner original = elim (Bool-cases (is_valid_variable_name (trim inner))) [
  | inl e ↦ rw e refl
  | inr e ↦ rw e refl
]

render_from_unknown :
    (fuel : ℕ) (text : Bytes) → length text ≤ fuel → render_from fuel true [] text ≡ text
unfolding render_from
render_from_unknown fuel [] le = refl
render_from_unknown zero (c ∷ text) le = absurd (omega arith)
render_from_unknown (suc fuel) (c ∷ text) le =
    elim (Option-cases (find_pair b'<' b'%' (c ∷ text))) [
      | inl h ↦ rw (h, render_from) refl
      | inr (start, h) ↦ elim (Option-cases (find_pair b'%' b'>' (drop (start + 2) (c ∷ text)))) [
        | inl k ↦ rw (h, k, render_from) (take-drop start (c ∷ text))
        | inr (count, k) ↦
            let rest = drop (count + 2) (drop (start + 2) (c ∷ text)) in
            let inside = take count (drop (start + 2) (c ∷ text)) in
            let same : render_from fuel true [] rest ≡ rest = render_from_unknown fuel rest (
              omega (
                arith,
                length-drop (count + 2) (drop (start + 2) (c ∷ text)),
                length-drop (start + 2) (c ∷ text),
              )) in
            rw (h, k, render_from)
              (rw (same, replacement_unknown inside (take (count + 4) (drop start (c ∷ text))))
                (joined start count (c ∷ text)))
      ]
    ]
  where
    joined :
        (start count : ℕ) (text : Bytes)
        → take start text
            ++ (take (count + 4) (drop start text) ++ drop (count + 2) (drop (start + 2) text))
          ≡ text
    joined start count text =
        let behind : drop (count + 2) (drop (start + 2) text) ≡ drop (count + 4) (drop start text) =
          drop-drop (count + 2) (start + 2) text
          ∙ ap (λ n. drop n text) (omega arith)
          ∙ sym (drop-drop (count + 4) start text) in
        rw (behind, take-drop (count + 4) (drop start text)) (take-drop start text)

-- A template is rendered to itself where no variable is set and unknown ones are left: whatever is
-- in it, no byte is lost, added or moved.
pub render-of_text : (text : Bytes) → render true (of_text text) ≡ text
unfolding render
render-of_text text = render_from_unknown (length text) text (omega arith)
