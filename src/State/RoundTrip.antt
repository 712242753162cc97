-- ===== src/State/RoundTrip.antt =====
-- Making a state, verifying it and taking the return page out of it.
use mathlib.Core.Path.{ap₂}
use fcgijwtauth.Base.{
  ℕ, zero, suc, ◌+◌, ◌≡◌, refl, ap, ◌∙◌, sym, Bool, true, false, none, some, List, [], ◌∷◌, ◌++◌,
  ◌==◌, if◌then◌else◌, Bytes, arith, length, Avoids, All, inl, inr, Option-cases, length-append,
  take, drop, take-append_self, append_assoc, append-nil, bytes_eq, bytes_eq_iff, eq_of_some,
}
use fcgijwtauth.Sha256.{sha256_buf}
use fcgijwtauth.Sha256.Laws.{IsHex, sha256_buf-IsHex}
use fcgijwtauth.State.{
  create_verifyable_string, strrchr, verify_string, second_last_dot, truncate_at_second_last_dot,
}
use fcgijwtauth.State.Dots.{strrchr-Avoids, second_last_dot-Avoids, second_last_dot_step}

hash-Avoids_dot : (n : ℕ) (hash : Bytes) → All IsHex hash → Avoids b'.' (take n hash)
hash-Avoids_dot zero hash h = tt
hash-Avoids_dot (suc n) [] h = tt
hash-Avoids_dot (suc n) (x ∷ hash) ((hi, lo), h) = (omega arith, hash-Avoids_dot n hash h)

-- The signature of a payload.
abbrev pub signature : Bytes → Bytes → Bytes
signature secret payload = take 16 (sha256_buf (secret ++ payload))

signature-Avoids : (secret payload : Bytes) → Avoids b'.' (signature secret payload)
signature-Avoids secret payload = hash-Avoids_dot 16 _ (sha256_buf-IsHex (secret ++ payload)).1

take-take {ℓ} : {A : Type ℓ} (n : ℕ) (xs : List A) → take n (take n xs) ≡ take n xs
take-take zero xs = refl
take-take (suc n) [] = refl
take-take (suc n) (x ∷ xs) = ap (◌∷◌ x) (take-take n xs)

drop-suc_append :
    (text : Bytes) (c : ℕ) (tail : Bytes) → drop (suc (length text)) (text ++ c ∷ tail) ≡ tail
drop-suc_append [] c tail = refl
drop-suc_append (x ∷ text) c tail = drop-suc_append text c tail

verify_string-append :
    (secret payload tail : Bytes)
    → Avoids b'.' tail
    → verify_string secret (payload ++ b'.' ∷ tail)
      ≡ bytes_eq (take 16 tail) (signature secret payload)
unfolding verify_string
verify_string-append secret payload tail h = simp (
  verify_string,
  strrchr-Avoids b'.' payload tail h,
  take-append_self payload (b'.' ∷ tail),
  drop-suc_append payload b'.' tail,
)

-- What the server made with its secret, it verifies with that secret, whatever the payload.
pub verify_string-create_verifyable_string :
    (secret salt : Bytes) → verify_string secret (create_verifyable_string secret salt) ≡ true
unfolding create_verifyable_string
verify_string-create_verifyable_string secret salt =
    verify_string-append secret salt (signature secret salt) (signature-Avoids secret salt)
    ∙ (bytes_eq_iff _ _).1 (take-take 16 (sha256_buf (secret ++ salt)))

strrchr-none_sound : (c : ℕ) (text : Bytes) → strrchr c text ≡ none → Avoids c text
unfolding strrchr
strrchr-none_sound c [] e = tt
strrchr-none_sound c (x ∷ text) e = elim (Option-cases (strrchr c text)) [
  | inl m ↦ (ground (arith, m), strrchr-none_sound c text m)
  | inr (k, m) ↦ cc (rw (m, strrchr) at e)
]

strrchr_sound :
    (c : ℕ) (text : Bytes) (n : ℕ)
    → strrchr c text ≡ some n
    → (text ≡ take n text ++ c ∷ drop (suc n) text) × Avoids c (drop (suc n) text)
unfolding strrchr
strrchr_sound c [] n e = cc
strrchr_sound c (x ∷ text) n e = elim (Option-cases (strrchr c text)) [
  | inl m ↦ first c x text n (strrchr-none_sound c text m) (rw (m, strrchr) at e)
  | inr (k, m) ↦ later c x text n k (eq_of_some (rw (m, strrchr) at e)) (strrchr_sound c text k m)
]
  where
    first :
        (c x : ℕ) (text : Bytes) (n : ℕ)
        → Avoids c text
        → (if x == c then some 0 else none) ≡ some n
        → (x ∷ text ≡ take n (x ∷ text) ++ c ∷ drop (suc n) (x ∷ text))
          × Avoids c (drop (suc n) (x ∷ text))
    first c x text zero h e = (ground arith, h)
    first c x text (suc n) h e = absurd (ground arith)

    later :
        (c x : ℕ) (text : Bytes) (n k : ℕ)
        → suc k ≡ n
        → (text ≡ take k text ++ c ∷ drop (suc k) text) × Avoids c (drop (suc k) text)
        → (x ∷ text ≡ take n (x ∷ text) ++ c ∷ drop (suc n) (x ∷ text))
          × Avoids c (drop (suc n) (x ∷ text))
    later c x text n k e (split, last) = rw (← e) (ap (◌∷◌ x) split, last)

-- A string that is verified ends in a dot and a text without dots, of which the first sixteen
-- bytes are the signature of what stands before the dot.
pub verify_string_sound :
    (secret input : Bytes)
    → verify_string secret input ≡ true
    → (payload : Bytes) × (tail : Bytes) × (input ≡ payload ++ b'.' ∷ tail)
      × Avoids b'.' tail
      × (take 16 tail ≡ signature secret payload)
unfolding verify_string
verify_string_sound secret input e = elim (Option-cases (strrchr b'.' input)) [
  | inl m ↦ cc (rw (m, verify_string) at e)
  | inr (n, m) ↦
      let (split, last) = strrchr_sound b'.' input n m in
      (
        take n input,
        drop (suc n) input,
        split,
        last,
        (bytes_eq_iff _ _).0 (rw (m, verify_string) at e),
      )
]

-- From the end of a piece without dots down to the dot before it.
second_last_dot_piece :
    (pre text rest : Bytes) (found : Bool) (p : ℕ)
    → Avoids b'.' text
    → p ≡ length pre + 1 + length text
    → second_last_dot (pre ++ b'.' ∷ (text ++ rest)) found p ≡ (
        if found
        then some (length pre)
        else second_last_dot (pre ++ b'.' ∷ (text ++ rest)) true (length pre))
second_last_dot_piece pre text rest found p h e =
    let dotted = pre ++ b'.' ∷ [] in
    let regroup : pre ++ b'.' ∷ (text ++ rest) ≡ dotted ++ (text ++ rest) =
      sym (append_assoc pre (b'.' ∷ []) (text ++ rest)) in
    let size : length dotted ≡ suc (length pre) = omega (arith, length-append pre (b'.' ∷ [])) in
    ap (λ t. second_last_dot t found p) regroup
    ∙ second_last_dot-Avoids dotted text rest found p (length text) h (omega arith) (omega arith)
    ∙ ap₂ (λ t n. second_last_dot t found n) (sym regroup) size
    ∙ second_last_dot_step pre (text ++ rest) found

second_last_dot_lem :
    (page time hash : Bytes)
    → Avoids b'.' time
    → Avoids b'.' hash
    → second_last_dot
        (page ++ b'.' ∷ (time ++ b'.' ∷ hash))
        false
        (length (page ++ b'.' ∷ (time ++ b'.' ∷ hash)))
      ≡ some (length page)
second_last_dot_lem page time hash h k =
    let pre = page ++ b'.' ∷ time in
    let whole = page ++ b'.' ∷ (time ++ b'.' ∷ hash) in
    let regroup : whole ≡ pre ++ b'.' ∷ (hash ++ []) = simp (append_assoc, append-nil) in
    let size : length whole ≡ length pre + 1 + length hash = omega (
      arith,
      length-append page (b'.' ∷ (time ++ b'.' ∷ hash)),
      length-append time (b'.' ∷ hash),
      length-append page (b'.' ∷ time),
    ) in
    let shorter : length pre ≡ length page + 1 + length time =
      omega (arith, length-append page (b'.' ∷ time)) in
    ap (λ t. second_last_dot t false (length whole)) regroup
    ∙ second_last_dot_piece pre hash [] false (length whole) k size
    ∙ ap (λ t. second_last_dot t true (length pre)) (sym regroup)
    ∙ second_last_dot_piece page time (b'.' ∷ hash) true (length pre) h shorter

-- The page to return to is taken out of the state that was made for it, and cut off where it
-- ends, as long as the formatted time in between has no dot; the page itself may have any.
pub truncate_at_second_last_dot-create_verifyable_string :
    (secret page time : Bytes)
    → Avoids b'.' time
    → truncate_at_second_last_dot (create_verifyable_string secret (page ++ b'.' ∷ time))
      ≡ some (page, time ++ b'.' ∷ signature secret (page ++ b'.' ∷ time))
unfolding truncate_at_second_last_dot create_verifyable_string
truncate_at_second_last_dot-create_verifyable_string secret page time h =
    let hash = signature secret (page ++ b'.' ∷ time) in
    let regroup : (page ++ b'.' ∷ time) ++ b'.' ∷ hash ≡ page ++ b'.' ∷ (time ++ b'.' ∷ hash) =
      append_assoc page (b'.' ∷ time) (b'.' ∷ hash) in
    simp (
      truncate_at_second_last_dot,
      regroup,
      second_last_dot_lem page time hash h (signature-Avoids secret (page ++ b'.' ∷ time)),
      take-append_self page (b'.' ∷ (time ++ b'.' ∷ hash)),
      drop-suc_append page b'.' (time ++ b'.' ∷ hash),
    )
