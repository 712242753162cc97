-- ===== src/Quoted/Moves.antt =====
-- Where `rover` stands in a block, and how it moves on.
use fcgijwtauth.Base.{
  ℕ, zero, suc, ◌+◌, ◌≤◌, ◌<◌, ◌≡◌, ◌≢◌, refl, ap, sym, ◌∙◌, false, none, some, List, [], ◌∷◌, ◌++◌,
  ◌==◌, Bytes, length, drop, set, arith, Avoids, Option-cases, inl, inr, drop-drop, drop-append_le,
  length-drop,
}
use mathlib.Core.Path.{subst}
use fcgijwtauth.Cookies.{strchr}
use fcgijwtauth.Quoted.{closing}

pub drop-set {ℓ} :
    {A : Type ℓ} (n i : ℕ) (v : A) (xs : List A) → i < n → drop n (set xs i v) ≡ drop n xs
drop-set n i v [] le = refl
drop-set zero i v (x ∷ xs) le = absurd (omega arith)
drop-set (suc n) zero v (x ∷ xs) le = refl
drop-set (suc n) (suc i) v (x ∷ xs) le = drop-set n i v xs (omega arith)

pub Avoids-drop : (c n : ℕ) (text : Bytes) → Avoids c text → Avoids c (drop n text)
Avoids-drop c zero text h = h
Avoids-drop c (suc n) [] h = h
Avoids-drop c (suc n) (x ∷ text) (_, h) = Avoids-drop c n text h

pub strchr_terminator :
    (c : ℕ) (text : Bytes) → Avoids c text → c ≢ 0 → strchr c (text ++ 0 ∷ []) ≡ none
unfolding strchr
strchr_terminator c [] h d = ground arith
strchr_terminator c (x ∷ text) (n, h) d = ground (arith, strchr_terminator c text h d)

-- What is found lies before the terminator.
pub strchr-terminated :
    (c : ℕ) (text : Bytes) (n : ℕ) → c ≢ 0 → strchr c (text ++ 0 ∷ []) ≡ some n → n < length text
unfolding strchr
strchr-terminated c [] n d e = ground arith
strchr-terminated c (x ∷ text) n d e = elim (Option-cases (strchr c (text ++ 0 ∷ []))) [
  | inl m ↦ ground (arith, m)
  | inr (k, m) ↦ ground (arith, m, strchr-terminated c text k d m)
]

pub closing-terminated :
    (before : ℕ) (text : Bytes) (n : ℕ) → closing before (text ++ 0 ∷ []) ≡ some n → n < length text
unfolding closing
closing-terminated before [] n e = ground arith
closing-terminated before (x ∷ text) n e = elim (Option-cases (closing x (text ++ 0 ∷ []))) [
  | inl m ↦ ground (arith, m)
  | inr (k, m) ↦ ground (arith, m, closing-terminated x text k m)
]

pub strchr_head : (d c : ℕ) (text : Bytes) → (c == d) ≡ false → strchr d (c ∷ text) ≢ some 0
unfolding strchr
strchr_head d c text other e = elim (Option-cases (strchr d text)) [
  | inl m ↦ ground (arith, m, other)
  | inr (k, m) ↦ ground (arith, m, other)
]

-- The text from `rover` on, before the terminator.
pub record At (size : ℕ) (block : Bytes) (rover : ℕ) (text : Bytes) : Type 0 where
  pub whole : length block ≡ size + 1
  pub rest : drop rover block ≡ text ++ 0 ∷ []
  pub plain : Avoids 0 text
  pub place : rover + length text ≡ size

length-set : (i v : ℕ) (xs : Bytes) → length (set xs i v) ≡ length xs
length-set i v [] = refl
length-set zero v (x ∷ xs) = refl
length-set (suc i) v (x ∷ xs) = ap suc (length-set i v xs)

pub At-move :
    (size : ℕ) (block : Bytes) (rover : ℕ) (text : Bytes) (n : ℕ)
    → At size block rover text
    → n ≤ length text
    → At size block (rover + n) (drop n text)
At-move size block rover text n a le = record {
  whole = a.whole;
  rest = sym (drop-drop n rover block) ∙ ap (drop n) a.rest ∙ drop-append_le n text (0 ∷ []) le;
  plain = Avoids-drop 0 n text a.plain;
  place = let p = a.place in omega (arith, length-drop n text);
}

-- A write behind `rover`.
pub At-set :
    (size : ℕ) (block : Bytes) (rover : ℕ) (text : Bytes) (i : ℕ)
    → At size block rover text
    → i < rover
    → At size (set block i 0) rover text
At-set size block rover text i a le = record {
  whole = length-set i 0 block ∙ a.whole;
  rest = drop-set rover i 0 block le ∙ a.rest;
  plain = a.plain;
  place = a.place;
}

-- The byte at `rover + n` is overwritten, and `rover` goes on behind it.
pub At-cut :
    (size : ℕ) (block : Bytes) (rover : ℕ) (text : Bytes) (n : ℕ)
    → At size block rover text
    → n < length text
    → At size (set block (rover + n) 0) (rover + n + 1) (drop (n + 1) text)
At-cut size block rover text n a le =
    At-set size block (rover + n + 1) (drop (n + 1) text) (rover + n)
      (subst (λ r. At size block r (drop (n + 1) text)) (omega arith)
        (At-move size block rover text (n + 1) a (omega arith)))
      (omega arith)
