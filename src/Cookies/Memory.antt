-- ===== src/Cookies/Memory.antt =====
-- The string functions on a block that is a prefix and the rest behind it.
use fcgijwtauth.Base.{
  ℕ, ◌<◌, ◌≡◌, refl, none, some, [], ◌∷◌, ◌++◌, Bytes, arith, length, Avoids, inl, inr,
  Option-cases,
}
use fcgijwtauth.Cookies.{c_string, strchr, strlen}

-- A piece is passed whole, up to the byte that is looked for.
pub strchr-Avoids :
    (c : ℕ) (piece rest : Bytes)
    → Avoids c piece
    → Avoids 0 piece
    → strchr c (piece ++ c ∷ rest) ≡ some (length piece)
unfolding strchr
strchr-Avoids c [] rest h k = ground arith
strchr-Avoids c (x ∷ piece) rest (n, h) (m, k) = ground (arith, strchr-Avoids c piece rest h k)

pub strchr-none : (c : ℕ) (piece : Bytes) → Avoids c piece → strchr c piece ≡ none
unfolding strchr
strchr-none c [] h = refl
strchr-none c (x ∷ piece) (n, h) = ground (arith, strchr-none c piece h)

pub strlen-Avoids : (piece : Bytes) → Avoids 0 piece → strlen piece ≡ length piece
unfolding strlen
strlen-Avoids [] h = refl
strlen-Avoids (x ∷ piece) (n, h) = ground (arith, strlen-Avoids piece h)

pub strlen-Avoids_zero :
    (piece rest : Bytes) → Avoids 0 piece → strlen (piece ++ 0 ∷ rest) ≡ length piece
unfolding strlen
strlen-Avoids_zero [] rest h = refl
strlen-Avoids_zero (x ∷ piece) rest (n, h) = ground (arith, strlen-Avoids_zero piece rest h)

pub c_string-Avoids : (piece : Bytes) → Avoids 0 piece → c_string piece ≡ piece
unfolding c_string
c_string-Avoids [] h = refl
c_string-Avoids (x ∷ piece) (n, h) = ground (arith, c_string-Avoids piece h)

pub c_string-Avoids_zero :
    (piece rest : Bytes) → Avoids 0 piece → c_string (piece ++ 0 ∷ rest) ≡ piece
unfolding c_string
c_string-Avoids_zero [] rest h = refl
c_string-Avoids_zero (x ∷ piece) rest (n, h) = ground (arith, c_string-Avoids_zero piece rest h)

pub strchr-lt : (c : ℕ) (text : Bytes) (n : ℕ) → strchr c text ≡ some n → n < length text
unfolding strchr
strchr-lt c [] n e = cc
strchr-lt c (x ∷ text) n e = elim (Option-cases (strchr c text)) [
  | inl m ↦ ground (arith, m)
  | inr (k, m) ↦ ground (arith, m, strchr-lt c text k m)
]
