-- ===== src/Path/Parse/RoundTrip.antt =====
-- Printing segments and parsing them back.
use mathlib.Core.Option
use mathlib.Core.Bool.{false≢true}
use fcgijwtauth.Base.{
  ℕ, ◌≡◌, refl, sym, ap, ◌∙◌, ◌≢◌, Bool, true, some, List, [], ◌∷◌, ◌++◌, map, append-nil, arith,
  Bool-cases, ◌>>=◌, Bytes, All, IsByte, Avoids, inl, inr,
}
use fcgijwtauth.Path.Percent.Laws.{percent_encoded, append_percent_decoded-percent_encoded}
use fcgijwtauth.Path.Parse.{parse_path, remove_trailing_slash}
use fcgijwtauth.Path.Parse.Segments.{split_slash}
use fcgijwtauth.Path.Parse.Valid.{decode, segments, decode_segments}
use fcgijwtauth.Path.Parse.Result.{expected_segments, parse_path-segments}

-- The path of a list of segments: each after a slash, percent-encoded.
unfoldable pub printed_path : (ℕ → Bool) → List Bytes → Bytes
printed_path escapes [] = []
printed_path escapes (seg ∷ segs) = b'/' ∷ percent_encoded escapes seg ++ printed_path escapes segs

-- A segment that a path can hold: bytes, and not none of them.
abbrev pub IsSegment : Bytes → Type 0
IsSegment seg = (seg ≢ []) × All IsByte seg

Avoids-percent_encoded :
    (escapes : ℕ → Bool) (text : Bytes)
    → escapes b'/' ≡ true
    → All IsByte text
    → Avoids b'/' (percent_encoded escapes text)
unfolding percent_encoded
Avoids-percent_encoded escapes [] e h = tt
Avoids-percent_encoded escapes (c ∷ text) e (b, h) =
    let rest = Avoids-percent_encoded escapes text e h in
    elim (Bool-cases (escapes c)) [
      | inl escaped ↦ rw escaped (omega arith, (ground arith, (ground arith, rest)))
      | inr kept ↦ rw kept ((λ p. false≢true (sym kept ∙ ap escapes p ∙ e)), rest)
    ]

split_slash-Avoids :
    (seg text : Bytes) → Avoids b'/' seg → split_slash (seg ++ b'/' ∷ text) ≡ seg ∷ split_slash text
unfolding split_slash
split_slash-Avoids [] text h = refl
split_slash-Avoids (c ∷ seg) text (n, h) = ground (arith, split_slash-Avoids seg text h)

split_slash-Avoids_end : (seg : Bytes) → Avoids b'/' seg → split_slash seg ≡ seg ∷ []
unfolding split_slash
split_slash-Avoids_end [] h = refl
split_slash-Avoids_end (c ∷ seg) (n, h) = ground (arith, split_slash-Avoids_end seg h)

percent_encoded-ne_nil :
    (escapes : ℕ → Bool) (text : Bytes) → text ≢ [] → percent_encoded escapes text ≢ []
unfolding percent_encoded
percent_encoded-ne_nil escapes [] h = h
percent_encoded-ne_nil escapes (c ∷ text) h = elim (Bool-cases (escapes c)) [
  | inl e ↦ rw e (λ p. cc)
  | inr e ↦ rw e (λ p. cc)
]

module _ (escapes : ℕ → Bool) (slash : escapes b'/' ≡ true) where
  split_slash-printed_path :
      (seg : Bytes) (segs : List Bytes)
      → IsSegment seg
      → All IsSegment segs
      → split_slash (percent_encoded escapes seg ++ printed_path escapes segs)
        ≡ percent_encoded escapes seg ∷ map (percent_encoded escapes) segs
  unfolding printed_path
  split_slash-printed_path seg [] (_, b) h = rw append-nil (
      split_slash-Avoids_end (percent_encoded escapes seg)
        (Avoids-percent_encoded escapes seg slash b))
  split_slash-printed_path seg (t ∷ ts) (_, b) (k, h) =
      split_slash-Avoids (percent_encoded escapes seg) _
        (Avoids-percent_encoded escapes seg slash b)
      ∙ ap (◌∷◌ (percent_encoded escapes seg)) (split_slash-printed_path t ts k h)

  remove_trailing_slash-append :
      (text more : Bytes)
      → more ≢ []
      → remove_trailing_slash (text ++ more) ≡ text ++ remove_trailing_slash more
  unfolding remove_trailing_slash
  remove_trailing_slash-append [] more h = refl
  remove_trailing_slash-append (c ∷ []) [] h = absurd (h refl)
  remove_trailing_slash-append (c ∷ []) (d ∷ more) h = refl
  remove_trailing_slash-append (c ∷ d ∷ text) more h =
      ap (◌∷◌ c) (remove_trailing_slash-append (d ∷ text) more h)

  remove_trailing_slash-Avoids :
      (text : Bytes) → Avoids b'/' text → remove_trailing_slash text ≡ text
  unfolding remove_trailing_slash
  remove_trailing_slash-Avoids [] h = refl
  remove_trailing_slash-Avoids (c ∷ []) h = ground arith
  remove_trailing_slash-Avoids (c ∷ d ∷ text) (n, h) =
      ap (◌∷◌ c) (remove_trailing_slash-Avoids (d ∷ text) h)

  remove_trailing_slash-printed_path :
      (segs : List Bytes)
      → All IsSegment segs
      → remove_trailing_slash (printed_path escapes segs) ≡ printed_path escapes segs
  unfolding printed_path
  remove_trailing_slash-printed_path [] h = unfold remove_trailing_slash in refl
  remove_trailing_slash-printed_path (seg ∷ []) ((n, b), _) = rw append-nil (
      remove_trailing_slash-append (b'/' ∷ []) (percent_encoded escapes seg)
        (percent_encoded-ne_nil escapes seg n)
      ∙ ap (◌∷◌ b'/') (remove_trailing_slash-Avoids _ (Avoids-percent_encoded escapes seg slash b)))
  remove_trailing_slash-printed_path (seg ∷ t ∷ ts) (_, h) =
      remove_trailing_slash-append (b'/' ∷ percent_encoded escapes seg) _ (λ p. cc)
      ∙ ap (λ x. b'/' ∷ percent_encoded escapes seg ++ x)
          (remove_trailing_slash-printed_path (t ∷ ts) h)

decode_segments-cons :
    (seg : Bytes) (segs : List Bytes)
    → seg ≢ []
    → decode_segments (seg ∷ segs)
      ≡ (decode seg >>= λ text. decode_segments segs >>= λ texts. some (text ∷ texts))
unfolding decode_segments
decode_segments-cons [] segs h = absurd (h refl)
decode_segments-cons (c ∷ seg) segs h = refl

decode-percent_encoded :
    (escapes : ℕ → Bool) (text : Bytes)
    → escapes b'%' ≡ true
    → All IsByte text
    → decode (percent_encoded escapes text) ≡ some text
unfolding decode
decode-percent_encoded escapes text e h =
    rw (append_percent_decoded-percent_encoded escapes text [] e h)

decode_segments-percent_encoded :
    (escapes : ℕ → Bool) (segs : List Bytes)
    → escapes b'%' ≡ true
    → All IsSegment segs
    → decode_segments (map (percent_encoded escapes) segs) ≡ some segs
decode_segments-percent_encoded escapes [] e h = unfold decode_segments in refl
decode_segments-percent_encoded escapes (seg ∷ segs) e ((n, b), h) =
    decode_segments-cons _ _ (percent_encoded-ne_nil escapes seg n)
    ∙ rw (decode-percent_encoded escapes seg e b, decode_segments-percent_encoded escapes segs e h)

-- Parsing the printed form of one or more segments, none empty, gives back these segments, whatever
-- further bytes than '%' and '/' are escaped.
pub parse_path-printed_path :
    (escapes : ℕ → Bool) (seg : Bytes) (segs : List Bytes)
    → escapes b'%' ≡ true
    → escapes b'/' ≡ true
    → All IsSegment (seg ∷ segs)
    → Option.map segments (parse_path (printed_path escapes (seg ∷ segs))) ≡ some (seg ∷ segs)
unfolding printed_path expected_segments split_slash
parse_path-printed_path escapes seg segs e slash (k, h) =
    parse_path-segments (printed_path escapes (seg ∷ segs))
    ∙ rw (remove_trailing_slash-printed_path escapes slash (seg ∷ segs) (k, h)) (
        rw (split_slash-printed_path escapes slash seg segs k h)
          (decode_segments-percent_encoded escapes (seg ∷ segs) e (k, h)))
