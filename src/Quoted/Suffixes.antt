-- ===== src/Quoted/Suffixes.antt =====
-- What `qsp_inplace` makes of a field with nothing behind it.
use fcgijwtauth.Base.{
  ℕ, zero, suc, ◌+◌, ◌≤◌, ◌<◌, ◌≡◌, refl, ap, sym, ◌∙◌, false, none, List, [], ◌∷◌, ◌++◌, ◌==◌,
  Bytes, length, drop, arith, Avoids, drop-drop, length-append,
}
use fcgijwtauth.Cookies.{strchr}
use fcgijwtauth.Quoted.Moves.{strchr_terminator}
use fcgijwtauth.Quoted.{
  split, pointer, Round, goes_on, to_comma, inplace_plain, inplace_round, inplace_rounds, inplace,
}

-- A text without quotes, commas, blanks and zeros.
pub record IsPlain (text : Bytes) : Type 0 where
  pub no_quote : Avoids b'"' text
  pub no_comma : Avoids b',' text
  pub no_blank : Avoids b' ' text
  pub no_zero : Avoids 0 text

-- The numbers from `n` on, as many as the text is long.
abbrev pub numbers_from : ℕ → Bytes → List ℕ
numbers_from n [] = []
numbers_from n (c ∷ text) = n ∷ numbers_from (n + 1) text

rest-IsPlain : (c : ℕ) (text : Bytes) → IsPlain (c ∷ text) → IsPlain text
rest-IsPlain c text p = record {
  no_quote = p.no_quote.1;
  no_comma = p.no_comma.1;
  no_blank = p.no_blank.1;
  no_zero = p.no_zero.1;
}

drop_suc {ℓ} :
    {A : Type ℓ} (n : ℕ) (xs : List A) (y : A) (ys : List A)
    → drop n xs ≡ y ∷ ys
    → drop (n + 1) xs ≡ ys
drop_suc n xs y ys e = sym (drop-drop 1 n xs) ∙ ap (drop 1) e

module _ (max : ℕ) (block : Bytes) where
  to_comma_plain :
      (later : Round) (rover c : ℕ) (text : Bytes) (count : ℕ)
      → drop rover block ≡ c ∷ (text ++ 0 ∷ [])
      → IsPlain (c ∷ text)
      → inplace_plain max later block rover count
        ≡ pointer rover (goes_on max later block (rover + 1) (count + 1))
  unfolding inplace_plain to_comma
  to_comma_plain later rover c text count here p =
      let quotes : strchr b'"' (drop rover block) ≡ none =
        ap (strchr b'"') here ∙ strchr_terminator b'"' (c ∷ text) p.no_quote (omega arith) in
      let commas : strchr b',' (drop rover block) ≡ none =
        ap (strchr b',') here ∙ strchr_terminator b',' (c ∷ text) p.no_comma (omega arith) in
      rw (quotes, inplace_plain) (rw (commas, to_comma) refl)

  inplace_round_plain :
      (later : Round) (rover c : ℕ) (text : Bytes) (count : ℕ)
      → drop rover block ≡ c ∷ (text ++ 0 ∷ [])
      → IsPlain (c ∷ text)
      → inplace_round max later block rover count
        ≡ pointer rover (goes_on max later block (rover + 1) (count + 1))
  unfolding inplace_round
  inplace_round_plain later rover c text count here p =
      let (quote, _) = p.no_quote in
      let (comma, _) = p.no_comma in
      let (blank, _) = p.no_blank in
      let is_quote : (c == b'"') ≡ false = ground arith in
      let is_comma : (c == b',') ≡ false = ground arith in
      let is_blank : (c == b' ') ≡ false = ground arith in
      rw (here, inplace_round)
        (rw is_quote (rw is_blank (rw is_comma (to_comma_plain later rover c text count here p))))

  inplace_rounds_suffixes :
      (rover c : ℕ) (text : Bytes) (fuel count : ℕ)
      → drop rover block ≡ c ∷ (text ++ 0 ∷ [])
      → IsPlain (c ∷ text)
      → length text < fuel
      → count + length (c ∷ text) ≤ max
      → inplace_rounds fuel max block rover count ≡ split block (numbers_from rover (c ∷ text))
  unfolding inplace_rounds goes_on
  inplace_rounds_suffixes rover c text zero count here p le room = absurd (omega arith)
  inplace_rounds_suffixes rover c [] (suc fuel) count here p le room =
      inplace_round_plain (inplace_rounds fuel max) rover c [] count here p
      ∙ ap (pointer rover) ended
    where
      ended : goes_on max (inplace_rounds fuel max) block (rover + 1) (count + 1) ≡ split block []
      ended = rw (drop_suc rover block c (0 ∷ []) here, goes_on) refl
  inplace_rounds_suffixes rover c (d ∷ text) (suc fuel) count here p le room =
      let next = drop_suc rover block c (d ∷ (text ++ 0 ∷ [])) here in
      let (_, (visible, _)) = p.no_zero in
      let goes : goes_on max (inplace_rounds fuel max) block (rover + 1) (count + 1)
          ≡ inplace_rounds fuel max block (rover + 1) (count + 1) =
        rw (next, goes_on) (ground arith) in
      inplace_round_plain (inplace_rounds fuel max) rover c (d ∷ text) count here p
      ∙ ap (pointer rover) (
          goes
          ∙ inplace_rounds_suffixes (rover + 1) d text fuel (count + 1) next
              (rest-IsPlain c (d ∷ text) p) (omega arith) (omega arith))

-- A single field without quotes, commas, blanks and zeros is not given whole: with room for as many
-- pointers as it has bytes, each of its bytes is the start of a field of its own, and nothing in the
-- block is changed.
pub inplace_suffixes :
    (c : ℕ) (text : Bytes) (max : ℕ)
    → IsPlain (c ∷ text)
    → length (c ∷ text) ≤ max
    → inplace (c ∷ text ++ 0 ∷ []) max ≡ split (c ∷ text ++ 0 ∷ []) (numbers_from 0 (c ∷ text))
unfolding inplace
inplace_suffixes c text max p room =
    inplace_rounds_suffixes max (c ∷ text ++ 0 ∷ []) 0 c text (length (c ∷ text ++ 0 ∷ [])) 0 refl p
      (omega (arith, length-append text (0 ∷ []))) (omega arith)
