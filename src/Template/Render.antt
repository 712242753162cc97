-- ===== src/Template/Render.antt =====
-- `Render` against the output that the pieces of a template stand for.
use fcgijwtauth.Base.{
  ℕ, zero, suc, ◌+◌, ◌≤◌, ◌≡◌, refl, ap, ◌∙◌, Bool, none, some, List, [], ◌∷◌, ◌++◌, Bytes, arith,
  length, take, drop, All, length-append, take-append, take-append_self, drop-append_self,
  drop-append,
}
use fcgijwtauth.Template.{Engine, find_pair, replacement, render_from, render}
use fcgijwtauth.Template.Pieces.{
  Piece, IsPiece, expression, template_of, output_of, find_pair-append,
}

parts :
    (p : Piece) (more text : Bytes)
    → text ≡ p.before ++ b'<' ∷ b'%' ∷ (p.inner ++ b'%' ∷ b'>' ∷ more)
    → length more + 4 ≤ length text
parts p more text e = omega (
  arith,
  ap (length {A = ℕ}) e,
  length-append p.before (b'<' ∷ b'%' ∷ (p.inner ++ b'%' ∷ b'>' ∷ more)),
  length-append p.inner (b'%' ∷ b'>' ∷ more),
)

module _ (leave_unknown : Bool) (variables : List (Bytes × Bytes)) where
  render_from_plain :
      (fuel : ℕ) (text : Bytes)
      → find_pair b'<' b'%' text ≡ none
      → length text ≤ fuel
      → render_from fuel leave_unknown variables text ≡ text
  unfolding render_from
  render_from_plain fuel [] h le = refl
  render_from_plain zero (c ∷ text) h le = absurd (omega arith)
  render_from_plain (suc fuel) (c ∷ text) h le = rw (h, render_from) refl

  -- One round, where both delimiters are found.
  render_from_found :
      (fuel c : ℕ) (text before inner more : Bytes)
      → c ∷ text ≡ before ++ b'<' ∷ b'%' ∷ (inner ++ b'%' ∷ b'>' ∷ more)
      → find_pair b'<' b'%' before ≡ none
      → find_pair b'%' b'>' inner ≡ none
      → render_from (suc fuel) leave_unknown variables (c ∷ text)
        ≡ before
          ++ (replacement leave_unknown variables inner (expression inner)
              ++ render_from fuel leave_unknown variables more)
  unfolding render_from
  render_from_found fuel c text before inner more e h k =
      let tail = b'<' ∷ b'%' ∷ (inner ++ b'%' ∷ b'>' ∷ more) in
      let start : find_pair b'<' b'%' (c ∷ text) ≡ some (length before) =
        ap (find_pair b'<' b'%') e
        ∙ find_pair-append b'<' b'%' before (inner ++ b'%' ∷ b'>' ∷ more) (omega arith) h in
      let inside : drop (length before + 2) (c ∷ text) ≡ inner ++ b'%' ∷ b'>' ∷ more =
        ap (drop (length before + 2)) e ∙ drop-append before tail 2 in
      let from_start : drop (length before) (c ∷ text) ≡ tail =
        ap (drop (length before)) e ∙ drop-append_self before tail in
      let head : take (length before) (c ∷ text) ≡ before =
        ap (take (length before)) e ∙ take-append_self before tail in
      let count : find_pair b'%' b'>' (inner ++ b'%' ∷ b'>' ∷ more) ≡ some (length inner) =
        find_pair-append b'%' b'>' inner more (omega arith) k in
      let regroup : length inner + 4 ≡ suc (suc (length inner)) + 2 = omega arith in
      let original : take (length inner + 4) (drop (length before) (c ∷ text)) ≡ expression inner =
        ap (take (length inner + 4)) from_start
        ∙ ap (λ n. take n tail) regroup
        ∙ take-append (b'<' ∷ b'%' ∷ inner) (b'%' ∷ b'>' ∷ more) 2 in
      simp (
        render_from,
        start,
        inside,
        count,
        head,
        original,
        take-append_self inner (b'%' ∷ b'>' ∷ more),
        drop-append inner (b'%' ∷ b'>' ∷ more) 2,
      )

  render_from_piece :
      (p : Piece) (more output : Bytes)
      → IsPiece p
      → ((fuel : ℕ) → length more ≤ fuel → render_from fuel leave_unknown variables more ≡ output)
      → (fuel : ℕ) (text : Bytes) → text ≡ p.before ++ b'<' ∷ b'%' ∷ (p.inner ++ b'%' ∷ b'>' ∷ more)
      → length text ≤ fuel
      → render_from fuel leave_unknown variables text
        ≡ p.before ++ (replacement leave_unknown variables p.inner (expression p.inner) ++ output)
  render_from_piece p more output v ih fuel [] e le = absurd (omega (arith, parts p more [] e))
  render_from_piece p more output v ih zero (c ∷ text) e le = absurd (omega arith)
  render_from_piece p more output v ih (suc fuel) (c ∷ text) e le =
      render_from_found fuel c text p.before p.inner more e v.closed v.open_inside
      ∙ ap
          (λ out.
            p.before ++ (replacement leave_unknown variables p.inner (expression p.inner) ++ out))
          (ih fuel (omega (arith, parts p more (c ∷ text) e)))

  render_from-template_of :
      (ps : List Piece) (rest : Bytes)
      → All IsPiece ps
      → find_pair b'<' b'%' rest ≡ none
      → (fuel : ℕ) → length (template_of ps rest) ≤ fuel
      → render_from fuel leave_unknown variables (template_of ps rest)
        ≡ output_of leave_unknown variables ps rest
  unfolding template_of output_of
  render_from-template_of [] rest v h fuel le = render_from_plain fuel rest h le
  render_from-template_of (p ∷ ps) rest (v, vs) h fuel le =
      render_from_piece p (template_of ps rest) (output_of leave_unknown variables ps rest) v
        (render_from-template_of ps rest vs h) fuel _ refl le

-- A template of expressions between texts, where no text holds "<%" and no expression "%>" inside,
-- is rendered to these texts, each expression replaced.
pub render-template_of :
    (leave_unknown : Bool) (e : Engine) (ps : List Piece) (rest : Bytes)
    → All IsPiece ps
    → find_pair b'<' b'%' rest ≡ none
    → e.template ≡ template_of ps rest
    → render leave_unknown e ≡ output_of leave_unknown e.variables ps rest
unfolding render
render-template_of leave_unknown e ps rest v h t =
    rw t (render_from-template_of leave_unknown e.variables ps rest v h _ (omega arith))
