-- ===== src/State/Dots.antt =====
-- The dots of a text, from its end.
use fcgijwtauth.Base.{
  ℕ, zero, suc, ◌+◌, ◌≤◌, ◌<◌, ◌≡◌, refl, ap, Bool, true, false, none, some, [], ◌∷◌, ◌++◌, ◌==◌,
  if◌then◌else◌, Bytes, arith, length, get_or, Avoids, get_or-append_self,
}
use fcgijwtauth.State.{strrchr, second_last_dot}

strrchr-none : (c : ℕ) (text : Bytes) → Avoids c text → strrchr c text ≡ none
unfolding strrchr
strrchr-none c [] h = refl
strrchr-none c (x ∷ text) (n, h) = rw (strrchr-none c text h) (ground arith)

-- Behind the last dot there is no other.
pub strrchr-Avoids :
    (c : ℕ) (text tail : Bytes) → Avoids c tail → strrchr c (text ++ c ∷ tail) ≡ some (length text)
unfolding strrchr
strrchr-Avoids c [] tail h = rw (strrchr-none c tail h) (ground arith)
strrchr-Avoids c (x ∷ text) tail h = rw (strrchr-Avoids c text tail h)

get_or-append_lt :
    (text rest : Bytes) (p : ℕ) → p < length text → get_or (text ++ rest) p 0 ≡ get_or text p 0
get_or-append_lt [] rest p h = absurd (omega arith)
get_or-append_lt (x ∷ text) rest zero h = refl
get_or-append_lt (x ∷ text) rest (suc p) h = get_or-append_lt text rest p (omega arith)

get_or-Avoids :
    (pre text : Bytes) (rest : Bytes) (p : ℕ)
    → Avoids b'.' text
    → length pre ≤ p
    → p < length pre + length text
    → (get_or (pre ++ (text ++ rest)) p 0 == b'.') ≡ false
get_or-Avoids [] [] rest p h lo hi = absurd (omega arith)
get_or-Avoids [] (x ∷ text) rest zero (n, h) lo hi = ground arith
get_or-Avoids [] (x ∷ text) rest (suc p) (n, h) lo hi =
    get_or-Avoids [] text rest p h (omega arith) (omega arith)
get_or-Avoids (c ∷ pre) text rest zero h lo hi = absurd (omega arith)
get_or-Avoids (c ∷ pre) text rest (suc p) h lo hi =
    get_or-Avoids pre text rest p h (omega arith) (omega arith)

-- The loop passes a piece without dots.
pub second_last_dot-Avoids :
    (pre text rest : Bytes) (found : Bool) (p n : ℕ)
    → Avoids b'.' text
    → p ≡ length pre + n
    → n ≤ length text
    → second_last_dot (pre ++ (text ++ rest)) found p
      ≡ second_last_dot (pre ++ (text ++ rest)) found (length pre)
unfolding second_last_dot
second_last_dot-Avoids pre text rest found p zero h e k =
    ap (second_last_dot (pre ++ (text ++ rest)) found) (omega arith)
second_last_dot-Avoids pre text rest found zero (suc n) h e k = absurd (omega arith)
second_last_dot-Avoids pre text rest found (suc p) (suc n) h e k =
    rw (get_or-Avoids pre text rest p h (omega arith) (omega arith))
      (second_last_dot-Avoids pre text rest found p n h (omega arith) (omega arith))

-- And it stops at a dot, or notes it.
pub second_last_dot_step :
    (pre rest : Bytes) (found : Bool)
    → second_last_dot (pre ++ b'.' ∷ rest) found (suc (length pre)) ≡ (
        if found then some (length pre) else second_last_dot (pre ++ b'.' ∷ rest) true (length pre))
unfolding second_last_dot
second_last_dot_step pre rest found = rw (get_or-append_self pre (b'.' ∷ rest) 0)
