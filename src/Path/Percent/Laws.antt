-- ===== src/Path/Percent/Laws.antt =====
-- What percent-decoding does: it appends, it shrinks, and it undoes every percent-encoding.
use Prim.Native.Nat.{bit_or}
use mathlib.Core.Bool.{false≢true}
use fcgijwtauth.Base.{
  ℕ, zero, suc, ◌+◌, ◌-◌, ◌*◌, ◌/◌, ◌%◌, ◌≤◌, ◌<◌, ◌≡◌, refl, sym, ap, ◌∙◌, ◌≢◌, Bool, true, ◌&&◌,
  some, [], ◌∷◌, ◌++◌, append_assoc, arith, ltb, ◌==◌, ==_iff, if◌then◌else◌, Bytes, All, IsByte,
  length, length-append, inl, inr, Bool-cases, Option-cases, append-nil,
}
use fcgijwtauth.Path.Percent.{hex_val, hex_pair, append_percent_decoded}

abbrev prefixed : Bytes → Bool × Bytes → Bool × Bytes
prefixed pre (done, out) = (done, pre ++ out)

append_percent_decoded-prefixed :
    (src pre dst : Bytes)
    → append_percent_decoded src (pre ++ dst) ≡ prefixed pre (append_percent_decoded src dst)
unfolding append_percent_decoded
append_percent_decoded-prefixed [] pre dst = refl
append_percent_decoded-prefixed (c ∷ []) pre dst = ground (arith, append_assoc pre dst (c ∷ []))
append_percent_decoded-prefixed (c ∷ d ∷ []) pre dst = ground (
  arith,
  append_assoc pre dst (c ∷ []),
  append_percent_decoded-prefixed (d ∷ []) pre (dst ++ c ∷ []),
)
append_percent_decoded-prefixed (c ∷ h ∷ l ∷ src) pre dst = elim (Bool-cases (c == b'%')) [
  | inl escape ↦ elim (Option-cases (hex_pair (hex_val h) (hex_val l))) [
    | inl bad ↦ rw (escape, bad)
    | inr (b, good) ↦
        rw (escape, good, append_assoc) (append_percent_decoded-prefixed src pre (dst ++ b ∷ []))
  ]
  | inr plain ↦
      rw (plain, append_assoc) (append_percent_decoded-prefixed (h ∷ l ∷ src) pre (dst ++ c ∷ []))
]

-- Decoding leaves what `dst` held, and adds the same bytes whatever that was.
pub append_percent_decoded-append :
    (src dst : Bytes)
    → append_percent_decoded src dst
      ≡ ((append_percent_decoded src []).0, dst ++ (append_percent_decoded src []).1)
append_percent_decoded-append src dst =
    rw (← append_percent_decoded-prefixed src dst []) (rw append-nil)

-- A byte is added for one byte or for three: the decoded text is no longer than the source.
pub length-append_percent_decoded :
    (src dst : Bytes) → length (append_percent_decoded src dst).1 ≤ length dst + length src
unfolding append_percent_decoded
length-append_percent_decoded [] dst = omega arith
length-append_percent_decoded (c ∷ []) dst = ground (arith, length-append dst (c ∷ []))
length-append_percent_decoded (c ∷ d ∷ []) dst =
    ground
      (arith, length-append dst (c ∷ []), length-append_percent_decoded (d ∷ []) (dst ++ c ∷ []))
length-append_percent_decoded (c ∷ h ∷ l ∷ src) dst =
    elim (Option-cases (hex_pair (hex_val h) (hex_val l))) [
      | inl bad ↦ ground (
        arith,
        bad,
        length-append dst (c ∷ []),
        length-append_percent_decoded (h ∷ l ∷ src) (dst ++ c ∷ []),
      )
      | inr (b, good) ↦ ground (
        arith,
        good,
        length-append dst (c ∷ []),
        length-append dst (b ∷ []),
        length-append_percent_decoded src (dst ++ b ∷ []),
        length-append_percent_decoded (h ∷ l ∷ src) (dst ++ c ∷ []),
      )
    ]

-- The digit of a number below 16.
abbrev pub hex_digit : ℕ → ℕ
hex_digit n = if ltb n 10 then n + b'0' else n - 10 + b'A'

hex_val-hex_digit : (n : ℕ) → n < 16 → hex_val (hex_digit n) ≡ some n
unfolding hex_val
hex_val-hex_digit n h = ground arith

-- Every byte is put together from its two digits, by evaluation on all of them.
nibbles_join : ℕ → Bool
nibbles_join zero = true
nibbles_join (suc c) = nibbles_join c && bit_or (c / 16 * 16) (c % 16) == c

nibbles_join_sound :
    (bound : ℕ)
    → nibbles_join bound ≡ true
    → (c : ℕ) → c < bound
    → bit_or (c / 16 * 16) (c % 16) ≡ c
unfolding nibbles_join
nibbles_join_sound zero e c below = absurd (omega arith)
nibbles_join_sound (suc bound) e c below =
    elim (Bool-cases (bit_or (bound / 16 * 16) (bound % 16) == bound)) [
      | inl joined ↦ elim (Bool-cases (c == bound)) [
        | inl last ↦ let same = (==_iff c bound).0 last in rw same ((==_iff _ bound).0 joined)
        | inr other ↦ nibbles_join_sound bound (ground (arith, e)) c (ground (arith, other))
      ]
      | inr apart ↦ absurd (ground (arith, e, apart))
    ]

every_nibble_joins : nibbles_join 256 ≡ true
unfolding nibbles_join
every_nibble_joins = refl

bit_or_nibbles : (x : ℕ) → x < 256 → bit_or (x / 16 * 16) (x % 16) ≡ x
bit_or_nibbles x below = nibbles_join_sound 256 every_nibble_joins x below

-- A percent-encoding with free choice of what to escape, but for '%' itself: the reference that
-- decoding inverts.
unfoldable pub percent_encoded : (ℕ → Bool) → Bytes → Bytes
percent_encoded escapes [] = []
percent_encoded escapes (c ∷ s) =
    if escapes c
    then b'%' ∷ hex_digit (c / 16) ∷ hex_digit (c % 16) ∷ percent_encoded escapes s
    else c ∷ percent_encoded escapes s

hex_pair-hex_digit :
    (x : ℕ)
    → x < 256
    → hex_pair (hex_val (hex_digit (x / 16))) (hex_val (hex_digit (x % 16))) ≡ some x
unfolding hex_pair
hex_pair-hex_digit x h =
    rw (hex_val-hex_digit (x / 16) (omega arith), hex_val-hex_digit (x % 16) (omega arith))
      (ap some (bit_or_nibbles x h))

append_percent_decoded_escape :
    (c : ℕ) (src dst : Bytes)
    → c < 256
    → append_percent_decoded (b'%' ∷ hex_digit (c / 16) ∷ hex_digit (c % 16) ∷ src) dst
      ≡ append_percent_decoded src (dst ++ c ∷ [])
unfolding append_percent_decoded
append_percent_decoded_escape c src dst h = rw (hex_pair-hex_digit c h)

append_percent_decoded_plain :
    (c : ℕ) (src dst : Bytes)
    → c ≢ b'%'
    → append_percent_decoded (c ∷ src) dst ≡ append_percent_decoded src (dst ++ c ∷ [])
unfolding append_percent_decoded
append_percent_decoded_plain c [] dst h = ground arith
append_percent_decoded_plain c (d ∷ []) dst h = ground arith
append_percent_decoded_plain c (d ∷ e ∷ src) dst h = ground arith

-- Decoding gives back every text from each of its encodings, whatever set of bytes was escaped,
-- as long as '%' was.
pub append_percent_decoded-percent_encoded :
    (escapes : ℕ → Bool) (text dst : Bytes)
    → escapes b'%' ≡ true
    → All IsByte text
    → append_percent_decoded (percent_encoded escapes text) dst ≡ (true, dst ++ text)
unfolding percent_encoded
append_percent_decoded-percent_encoded escapes [] dst e h =
    unfold append_percent_decoded in rw append-nil
append_percent_decoded-percent_encoded escapes (c ∷ text) dst e (b, h) =
    let rest = append_percent_decoded-percent_encoded escapes text (dst ++ c ∷ []) e h in
    elim (Bool-cases (escapes c)) [
      | inl escaped ↦ rw escaped (
          append_percent_decoded_escape c (percent_encoded escapes text) dst b
          ∙ rest
          ∙ rw append_assoc)
      | inr kept ↦ rw kept (
          append_percent_decoded_plain c (percent_encoded escapes text) dst
            (λ p. false≢true (sym kept ∙ ap escapes p ∙ e))
          ∙ rest
          ∙ rw append_assoc)
    ]
