-- ===== src/Template/Pieces.antt =====
-- Templates as texts and expressions, and how the delimiters are found in them.
use mathlib.Core.Option
use fcgijwtauth.Base.{
  ℕ, suc, ◌≡◌, ◌≢◌, ap, Bool, none, some, List, [], ◌∷◌, ◌++◌, Bytes, ◌==◌, arith, length,
  Bool-cases, inl, inr, ◌&&◌,
}
use fcgijwtauth.Template.{find_pair, replacement}

-- A text that holds no "<%", and the expression behind it, whose inner text holds no "%>".
pub record Piece : Type 0 where
  pub before : Bytes
  pub inner : Bytes

pub record IsPiece (p : Piece) : Type 0 where
  pub closed : find_pair b'<' b'%' p.before ≡ none
  pub open_inside : find_pair b'%' b'>' p.inner ≡ none

abbrev pub expression : Bytes → Bytes
expression inner = b'<' ∷ b'%' ∷ (inner ++ b'%' ∷ b'>' ∷ [])

unfoldable pub template_of : List Piece → Bytes → Bytes
template_of [] rest = rest
template_of (p ∷ ps) rest = p.before ++ b'<' ∷ b'%' ∷ (p.inner ++ b'%' ∷ b'>' ∷ template_of ps rest)

-- The output that the pieces stand for.
unfoldable pub output_of : Bool → List (Bytes × Bytes) → List Piece → Bytes → Bytes
output_of leave_unknown variables [] rest = rest
output_of leave_unknown variables (p ∷ ps) rest =
    p.before
    ++ (replacement leave_unknown variables p.inner (expression p.inner)
        ++ output_of leave_unknown variables ps rest)

-- A text without the pair is passed whole, up to the pair behind it.
pub find_pair-append :
    (a b : ℕ) (text rest : Bytes)
    → a ≢ b
    → find_pair a b text ≡ none
    → find_pair a b (text ++ a ∷ b ∷ rest) ≡ some (length text)
unfolding find_pair
find_pair-append a b [] rest n h = ground arith
find_pair-append a b (x ∷ []) rest n h = ground arith
find_pair-append a b (x ∷ y ∷ text) rest n h = elim (Bool-cases (x == a && y == b)) [
  | inl found ↦ cc (rw (found, find_pair) at h)
  | inr other ↦
      let later : find_pair a b (y ∷ text) ≡ none = ground (arith, h, other) in
      rw other (ap (Option.map suc) (find_pair-append a b (y ∷ text) rest n later))
]
