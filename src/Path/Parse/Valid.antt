-- ===== src/Path/Parse/Valid.antt =====
-- The ranges of a `ParsedPath` follow one another without a gap, none is empty, and they end where
-- the storage does: so every `get_idx` stays inside the storage.
use mathlib.Core.Option
use mathlib.Core.Path.{ap₂, subst}
use mathlib.Core.List.{map-append}
use fcgijwtauth.Base.{
  ℕ, ◌+◌, ◌-◌, ◌≤◌, ◌<◌, ◌≡◌, refl, sym, ap, ◌∙◌, Option, none, some, List, [], ◌∷◌, ◌++◌, map,
  arith, if◌then◌else◌, Bool-cases, Option-cases, ◌>>=◌, eq_of_some, Bytes, length, drop,
  length-append, length-drop, take-append_le, drop-append_le, drop-append_self, take-length, inl,
  inr, append_assoc, append-nil,
}
use fcgijwtauth.Path.Percent.{append_percent_decoded, hex_pair, hex_val}
use fcgijwtauth.Path.Percent.Laws.{append_percent_decoded-append, length-append_percent_decoded}
use fcgijwtauth.Path.Parse.{Range, ParsedPath, slice, push_segment}
use fcgijwtauth.Path.Parse.Segments.{push_all}

-- The ranges tile the positions from `at` up to `end`.
abbrev pub Tiles : ℕ → List Range → ℕ → Type 0
Tiles at [] end = at ≡ end
Tiles at (r ∷ rs) end = (r.offset ≡ at) × (0 < r.count) × Tiles (at + r.count) rs end

abbrev pub IsValid : ParsedPath → Type 0
IsValid p = Tiles 0 p.ranges (length p.storage)

Tiles-snoc :
    (at : ℕ) (rs : List Range) (end n : ℕ)
    → Tiles at rs end
    → 0 < n
    → Tiles at (rs ++ record { offset = end; count = n } ∷ []) (end + n)
Tiles-snoc at [] end n h k = (sym h, k, omega arith)
Tiles-snoc at (r ∷ rs) end n (o, c, h) k = (o, c, Tiles-snoc (at + r.count) rs end n h k)

pub Tiles-le : (at : ℕ) (rs : List Range) (end : ℕ) → Tiles at rs end → at ≤ end
Tiles-le at [] end h = omega arith
Tiles-le at (r ∷ rs) end (o, c, h) = omega (arith, Tiles-le (at + r.count) rs end h)

-- Decoding on its own: the bytes of a segment, or nothing.
unfoldable pub decode : Bytes → Option Bytes
decode seg =
    if (append_percent_decoded seg []).0 then some (append_percent_decoded seg []).1 else none

-- A path with one more segment.
abbrev pub extend : ParsedPath → Bytes → ParsedPath
extend p text = record {
  storage = p.storage ++ text;
  ranges = p.ranges ++ record { offset = length p.storage; count = length text } ∷ [];
}

pub push_segment-extend :
    (c : ℕ) (seg : Bytes) (out : ParsedPath)
    → push_segment (c ∷ seg) out ≡ Option.map (extend out) (decode (c ∷ seg))
unfolding push_segment decode
push_segment-extend c seg out =
    let grown : length (out.storage ++ (append_percent_decoded (c ∷ seg) []).1) - length out.storage
        ≡ length (append_percent_decoded (c ∷ seg) []).1 =
      omega (arith, length-append out.storage (append_percent_decoded (c ∷ seg) []).1) in
    rw (append_percent_decoded-append (c ∷ seg) out.storage, grown)
      (elim (Bool-cases (append_percent_decoded (c ∷ seg) []).0) [ inl e ↦ rw e | inr e ↦ rw e ])

length-le-append_percent_decoded :
    (src dst : Bytes) → length dst ≤ length (append_percent_decoded src dst).1
length-le-append_percent_decoded src dst =
    rw (append_percent_decoded-append src dst)
      (omega (arith, length-append dst (append_percent_decoded src []).1))

-- Decoding a segment that is not empty gives at least a byte.
decode-ne_nil : (c : ℕ) (seg text : Bytes) → decode (c ∷ seg) ≡ some text → 0 < length text
unfolding decode append_percent_decoded
decode-ne_nil c [] text e = ground arith
decode-ne_nil c (d ∷ []) text e = ground arith
decode-ne_nil c (h ∷ l ∷ src) text e = elim (Option-cases (hex_pair (hex_val h) (hex_val l))) [
  | inl bad ↦ ground (arith, bad, length-le-append_percent_decoded (h ∷ l ∷ src) (c ∷ []))
  | inr (b, good) ↦ ground (
    arith,
    good,
    length-le-append_percent_decoded src (b ∷ []),
    length-le-append_percent_decoded (h ∷ l ∷ src) (c ∷ []),
  )
]

pub length-decode : (seg text : Bytes) → decode seg ≡ some text → length text ≤ length seg
unfolding decode
length-decode seg text e = ground (arith, length-append_percent_decoded seg [])

extend-IsValid :
    (p : ParsedPath) (text : Bytes) → IsValid p → 0 < length text → IsValid (extend p text)
extend-IsValid p text v k =
    rw (length-append p.storage text) (Tiles-snoc 0 p.ranges (length p.storage) (length text) v k)

-- The segments that the ranges show.
abbrev pub segments : ParsedPath → List Bytes
segments p = map (slice p.storage) p.ranges

map-slice-append :
    (storage text : Bytes) (at : ℕ) (rs : List Range)
    → Tiles at rs (length storage)
    → map (slice (storage ++ text)) rs ≡ map (slice storage) rs
map-slice-append storage text at [] h = refl
map-slice-append storage text at (r ∷ rs) (o, c, h) =
    let inside : at + r.count ≤ length storage = Tiles-le (at + r.count) rs (length storage) h in
    ap₂ ◌∷◌
      (rw (drop-append_le r.offset storage text (omega arith)) (
        take-append_le r.count (drop r.offset storage) text
          (omega (arith, length-drop r.offset storage))))
      (map-slice-append storage text (at + r.count) rs h)

segments-extend :
    (p : ParsedPath) (text : Bytes) → IsValid p → segments (extend p text) ≡ segments p ++ text ∷ []
segments-extend p text v =
    simp (map-append, drop-append_self)
      (ap₂ ◌++◌ (map-slice-append p.storage text 0 p.ranges v)
        (ap (λ t. t ∷ []) (take-length text)))

-- The specification of `parse_path`: every segment that is not empty, decoded.
unfoldable pub decode_segments : List Bytes → Option (List Bytes)
decode_segments [] = some []
decode_segments ([] ∷ segs) = decode_segments segs
decode_segments ((c ∷ seg) ∷ segs) = do some ((← decode (c ∷ seg)) ∷ (← decode_segments segs))

push_all-cons :
    (c : ℕ) (seg : Bytes) (segs : List Bytes) (out : ParsedPath)
    → push_all ((c ∷ seg) ∷ segs) out
      ≡ (Option.map (extend out) (decode (c ∷ seg)) >>= push_all segs)
unfolding push_all
push_all-cons c seg segs out = rw (push_segment-extend c seg out)

map-snoc :
    (texts : List Bytes) (text : Bytes) (more : Option (List Bytes))
    → Option.map (λ ts. (texts ++ text ∷ []) ++ ts) more
      ≡ Option.map (λ ts. texts ++ ts) (more >>= λ ts. some (text ∷ ts))
map-snoc texts text none = refl
map-snoc texts text (some ts) = ap some (append_assoc texts (text ∷ []) ts)

pub push_all-segments :
    (segs : List Bytes) (out : ParsedPath)
    → IsValid out
    → Option.map segments (push_all segs out)
      ≡ Option.map (λ texts. segments out ++ texts) (decode_segments segs)
unfolding push_all push_segment decode_segments
push_all-segments [] out v = ap some (sym (append-nil (segments out)))
push_all-segments ([] ∷ segs) out v = push_all-segments segs out v
push_all-segments ((c ∷ seg) ∷ segs) out v =
    ap (Option.map segments) (push_all-cons c seg segs out)
    ∙ elim (Option-cases (decode (c ∷ seg))) [
      | inl bad ↦ rw (bad)
      | inr (text, good) ↦ rw (good) (
          push_all-segments segs (extend out text)
            (extend-IsValid out text v (decode-ne_nil c seg text good))
          ∙ rw (segments-extend out text v) (map-snoc (segments out) text (decode_segments segs)))
    ]

pub push_all-IsValid :
    (segs : List Bytes) (out p : ParsedPath) → IsValid out → push_all segs out ≡ some p → IsValid p
unfolding push_all
push_all-IsValid [] out p v e = subst IsValid (eq_of_some e) v
push_all-IsValid ([] ∷ segs) out p v e = push_all-IsValid segs out p v (unfold push_segment in e)
push_all-IsValid ((c ∷ seg) ∷ segs) out p v e = elim (Option-cases (decode (c ∷ seg))) [
  | inl bad ↦ cc (rw (push_segment-extend c seg out, bad) at e)
  | inr (text, good) ↦
      push_all-IsValid segs (extend out text) p
        (extend-IsValid out text v (decode-ne_nil c seg text good))
        (rw (push_segment-extend c seg out, good) at e)
]
