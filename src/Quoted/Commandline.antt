-- ===== src/Quoted/Commandline.antt =====
-- `qsp_inplace_commandline` on fields that are separated by blanks.
use fcgijwtauth.Base.{
  ℕ, zero, suc, ◌+◌, ◌<◌, ◌≡◌, ◌≢◌, ◌⊎◌, refl, ap, ◌∙◌, true, false, none, some, List, [], ◌∷◌,
  ◌++◌, ◌==◌, ltb, Bytes, length, drop, set, arith, All, Avoids, Bool-cases, Option-cases, inl, inr,
  drop-append, drop-append_self, set-append, set-append_self,
}
use fcgijwtauth.Cookies.{strchr}
use fcgijwtauth.Cookies.Memory.{strchr-Avoids}
use fcgijwtauth.Quoted.{
  split, pointer, Round, goes_on, commandline_quoted, to_space, commandline_plain,
  commandline_round,
}
use fcgijwtauth.Quoted.Moves.{strchr_terminator}
use fcgijwtauth.Quoted.Callback.{Field, plain, quoted, last_from, closing-Avoids}

-- A plain field is not empty and holds neither a quote nor a blank; a quoted one holds no quote and does
-- not end with a backslash.
abbrev pub IsWord : Field → Type 0
IsWord (plain []) = ⊥
IsWord (plain text) = Avoids b'"' text × Avoids b' ' text × Avoids 0 text
IsWord (quoted text) = Avoids b'"' text × Avoids 0 text × (last_from 0 text ≢ b'\\')

abbrev pub shown : Field → Bytes → Bytes
shown (plain text) rest = text ++ rest
shown (quoted text) rest = b'"' ∷ (text ++ b'"' ∷ rest)

-- The fields with a blank between each two, and the terminator.
unfoldable pub line : List Field → Field → Bytes
line [] last = shown last (0 ∷ [])
line (f ∷ fs) last = shown f (b' ' ∷ line fs last)

-- The same with as many fields cut as there is room for: by a 0 in place of the blank, or of both quotes.
unfoldable pub zeroed : ℕ → List Field → Field → Bytes
unfolding line
zeroed zero fs last = line fs last
zeroed (suc room) [] (plain text) = text ++ 0 ∷ []
zeroed (suc room) [] (quoted text) = 0 ∷ (text ++ 0 ∷ 0 ∷ [])
zeroed (suc room) (plain text ∷ fs) last = text ++ 0 ∷ zeroed room fs last
zeroed (suc room) (quoted text ∷ fs) last = 0 ∷ (text ++ 0 ∷ b' ' ∷ zeroed room fs last)

-- Where the contents of these fields begin, if the line stands at `n`.
unfoldable pub starts : ℕ → ℕ → List Field → Field → List ℕ
starts zero n fs last = []
starts (suc room) n [] (plain text) = n ∷ []
starts (suc room) n [] (quoted text) = (n + 1) ∷ []
starts (suc room) n (plain text ∷ fs) last = n ∷ starts room (n + length text + 1) fs last
starts (suc room) n (quoted text ∷ fs) last = (n + 1) ∷ starts room (n + length text + 3) fs last

pub line_head :
    (fs : List Field) (last : Field)
    → All IsWord fs
    → IsWord last
    → (c : ℕ) × (text : Bytes) × (line fs last ≡ c ∷ text) × ((c == 0) ≡ false)
unfolding line
line_head [] (plain []) i l = absurd l
line_head [] (plain (c ∷ text)) i (q, s, (n, z)) = (c, text ++ 0 ∷ [], refl, ground arith)
line_head [] (quoted text) i l = (b'"', text ++ b'"' ∷ 0 ∷ [], refl, refl)
line_head (plain [] ∷ fs) last (w, i) l = absurd w
line_head (plain (c ∷ text) ∷ fs) last ((q, s, (n, z)), i) l =
    (c, text ++ b' ' ∷ line fs last, refl, ground arith)
line_head (quoted text ∷ fs) last (w, i) l = (b'"', text ++ b'"' ∷ b' ' ∷ line fs last, refl, refl)

-- A quote behind a text without one is found behind it.
strchr_behind :
    (c : ℕ) (text rest : Bytes)
    → Avoids c text
    → c ≢ b' '
    → (strchr c (text ++ b' ' ∷ rest) ≡ none)
      ⊎ ((n : ℕ) × (strchr c (text ++ b' ' ∷ rest) ≡ some n) × (length text < n))
unfolding strchr
strchr_behind c [] rest h d = elim (Option-cases (strchr c rest)) [
  | inl m ↦ inl (ground (arith, m))
  | inr (k, m) ↦ inr (suc k, ground (arith, m), omega arith)
]
strchr_behind c (x ∷ text) rest (n, h) d = elim (strchr_behind c text rest h d) [
  | inl m ↦ inl (ground (arith, m))
  | inr (k, m, lt) ↦ elim (Bool-cases (x == 0)) [
    | inl ends ↦ inl (ground (arith, m, ends))
    | inr goes ↦ inr (suc k, ground (arith, m, goes), omega arith)
  ]
]

module _ (max : ℕ) (front : Bytes) (rover : ℕ) (here : length front ≡ rover) where
  drop_front : (rest : Bytes) → drop rover (front ++ rest) ≡ rest
  drop_front rest = rw (← here) (drop-append_self front rest)

  drop_front_add : (rest : Bytes) (n : ℕ) → drop (rover + n) (front ++ rest) ≡ drop n rest
  drop_front_add rest n = rw (← here) (drop-append front rest n)

  set_front : (rest : Bytes) (n : ℕ) → set (front ++ rest) (rover + n) 0 ≡ front ++ set rest n 0
  set_front rest n = rw (← here) (set-append front rest n 0)

  module _ (later : Round) (count : ℕ) where
    pub goes_on_room :
        (rest : Bytes) (c : ℕ) (text : Bytes)
        → rest ≡ c ∷ text
        → (c == 0) ≡ false
        → count < max
        → goes_on max later (front ++ rest) rover count ≡ later (front ++ rest) rover count
    unfolding goes_on
    goes_on_room rest c text e visible lt =
        let room : ltb count max ≡ true = ground arith in
        rw (drop_front rest ∙ e, goes_on) (rw visible (rw room refl))

    pub goes_on_full :
        (rest : Bytes) (c : ℕ) (text : Bytes)
        → rest ≡ c ∷ text
        → (c == 0) ≡ false
        → count ≡ max
        → goes_on max later (front ++ rest) rover count ≡ split (front ++ rest) []
    unfolding goes_on
    goes_on_full rest c text e visible full =
        let room : ltb count max ≡ false = ground arith in
        rw (drop_front rest ∙ e, goes_on) (rw visible (rw room refl))

    pub goes_on_end :
        (rest : Bytes)
        → goes_on max later (front ++ 0 ∷ rest) rover count ≡ split (front ++ 0 ∷ rest) []
    unfolding goes_on
    goes_on_end rest = rw (drop_front (0 ∷ rest), goes_on) refl

    pub commandline_round_blank :
        (rest : Bytes)
        → commandline_round max later (front ++ b' ' ∷ rest) rover count
          ≡ goes_on max later (front ++ b' ' ∷ rest) (rover + 1) count
    unfolding commandline_round
    commandline_round_blank rest = rw (drop_front (b' ' ∷ rest), commandline_round) refl

    pub commandline_round_quoted :
        (text rest : Bytes)
        → IsWord (quoted text)
        → commandline_round max later (front ++ b'"' ∷ (text ++ b'"' ∷ rest)) rover count
          ≡ pointer (rover + 1) (
              goes_on max later
                (front ++ 0 ∷ (text ++ 0 ∷ rest))
                (rover + 1 + length text + 1)
                (count + 1))
    unfolding commandline_round commandline_quoted
    commandline_round_quoted text rest (q, z, d) =
        let opened : set (front ++ b'"' ∷ (text ++ b'"' ∷ rest)) rover 0
            ≡ front ++ 0 ∷ (text ++ b'"' ∷ rest) =
          rw (← here) (set-append_self front b'"' (text ++ b'"' ∷ rest) 0) in
        let inside : drop (rover + 1) (front ++ 0 ∷ (text ++ b'"' ∷ rest)) ≡ text ++ b'"' ∷ rest =
          drop_front_add (0 ∷ (text ++ b'"' ∷ rest)) 1 in
        let closed : set (front ++ 0 ∷ (text ++ b'"' ∷ rest)) (rover + 1 + length text) 0
            ≡ front ++ 0 ∷ (text ++ 0 ∷ rest) =
          ap (λ (i : ℕ). set (front ++ 0 ∷ (text ++ b'"' ∷ rest)) i 0) (omega arith)
          ∙ set_front (0 ∷ (text ++ b'"' ∷ rest)) (suc (length text))
          ∙ ap (λ (t : Bytes). front ++ 0 ∷ t) (set-append_self text b'"' rest 0) in
        rw (drop_front (b'"' ∷ (text ++ b'"' ∷ rest)), commandline_round)
          (rw (opened, commandline_quoted)
            (rw (inside, commandline_quoted)
              (rw (closing-Avoids 0 text rest q z d, commandline_quoted)
                (rw (ap (λ (b : Bytes). set b (rover + 1 + length text) 0) opened ∙ closed) refl))))

    to_space-Avoids :
        (text rest : Bytes)
        → Avoids b' ' text
        → Avoids 0 text
        → to_space max later (front ++ (text ++ b' ' ∷ rest)) rover count
          ≡ pointer rover (
              goes_on max later (front ++ (text ++ 0 ∷ rest)) (rover + length text + 1) (count + 1))
    unfolding to_space
    to_space-Avoids text rest s z =
        let cut : set (front ++ (text ++ b' ' ∷ rest)) (rover + length text) 0
            ≡ front ++ (text ++ 0 ∷ rest) =
          set_front (text ++ b' ' ∷ rest) (length text)
          ∙ ap (λ (t : Bytes). front ++ t) (set-append_self text b' ' rest 0) in
        rw (drop_front (text ++ b' ' ∷ rest), to_space)
          (rw (strchr-Avoids b' ' text rest s z, to_space) (rw cut refl))

    pub commandline_plain-Avoids :
        (text rest : Bytes)
        → IsWord (plain text)
        → commandline_plain max later (front ++ (text ++ b' ' ∷ rest)) rover count
          ≡ pointer rover (
              goes_on max later (front ++ (text ++ 0 ∷ rest)) (rover + length text + 1) (count + 1))
    unfolding commandline_plain
    commandline_plain-Avoids [] rest w = absurd w
    commandline_plain-Avoids (c ∷ text) rest (q, s, z) =
        let blank = to_space-Avoids (c ∷ text) rest s z in
        let all = drop_front (c ∷ text ++ b' ' ∷ rest) in
        elim (strchr_behind b'"' (c ∷ text) rest q (omega arith)) [
          | inl m ↦ rw (ap (strchr b'"') all ∙ m, commandline_plain) blank
          | inr (n, m, lt) ↦
              let first : ltb (length (c ∷ text)) n ≡ true = ground arith in
              let space = ap (strchr b' ') all ∙ strchr-Avoids b' ' (c ∷ text) rest s z in
              rw (ap (strchr b'"') all ∙ m, space, commandline_plain) (rw first blank)
        ]

    pub commandline_plain_last :
        (text : Bytes)
        → IsWord (plain text)
        → commandline_plain max later (front ++ (text ++ 0 ∷ [])) rover count
          ≡ split (front ++ (text ++ 0 ∷ [])) (rover ∷ [])
    unfolding commandline_plain to_space
    commandline_plain_last [] w = absurd w
    commandline_plain_last (c ∷ text) (q, s, z) =
        let all = drop_front (c ∷ text ++ 0 ∷ []) in
        let quotes = ap (strchr b'"') all ∙ strchr_terminator b'"' (c ∷ text) q (omega arith) in
        let blanks = ap (strchr b' ') all ∙ strchr_terminator b' ' (c ∷ text) s (omega arith) in
        rw (quotes, commandline_plain) (rw (blanks, to_space) refl)

    -- A round on a plain field looks for its end.
    pub commandline_round_plain :
        (text rest : Bytes)
        → IsWord (plain text)
        → commandline_round max later (front ++ (text ++ rest)) rover count
          ≡ commandline_plain max later (front ++ (text ++ rest)) rover count
    unfolding commandline_round
    commandline_round_plain [] rest w = absurd w
    commandline_round_plain (c ∷ text) rest ((n, q), (m, s), z) =
        let is_quote : (c == b'"') ≡ false = ground arith in
        let is_blank : (c == b' ') ≡ false = ground arith in
        rw (drop_front (c ∷ text ++ rest), commandline_round) (rw is_quote (rw is_blank refl))
