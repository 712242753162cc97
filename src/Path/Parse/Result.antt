-- ===== src/Path/Parse/Result.antt =====
-- What `parse_path` returns: its segments, the validity of its ranges, and `get_idx` on it.
use mathlib.Core.Option
use mathlib.Core.Path.{subst}
use fcgijwtauth.Base.{
  ℕ, zero, suc, ◌+◌, ◌≤◌, ◌<◌, ◌≡◌, refl, sym, ap, ◌∙◌, Option, none, some, List, [], ◌∷◌, ◌++◌,
  arith, Option-cases, eq_of_some, get_elem?, Bytes, length, take, drop, length-append, length-drop,
  inl, inr, ◌↔◌,
}
use fcgijwtauth.Path.Parse.{
  Range, ParsedPath, slice, get_idx, size, push_segment, parse_path, remove_trailing_slash,
  empty_path,
}
use fcgijwtauth.Path.Parse.Segments.{push_all, push_head, split_slash, parse_path-push_all}
use fcgijwtauth.Path.Parse.Valid.{
  Tiles, IsValid, Tiles-le, decode, extend, push_segment-extend, length-decode, segments,
  decode_segments, push_all-segments, push_all-IsValid,
}

-- The bytes of a list of segments.
abbrev pub total : List Bytes → ℕ
total [] = 0
total (seg ∷ segs) = length seg + total segs

push_all-length :
    (segs : List Bytes) (out p : ParsedPath)
    → push_all segs out ≡ some p
    → length p.storage ≤ length out.storage + total segs
unfolding push_all
push_all-length [] out p e =
    subst (λ q. length q.storage ≤ length out.storage + 0) (eq_of_some e) (omega arith)
push_all-length ([] ∷ segs) out p e =
    omega (arith, push_all-length segs out p (unfold push_segment in e))
push_all-length ((c ∷ seg) ∷ segs) out p e = elim (Option-cases (decode (c ∷ seg))) [
  | inl bad ↦ cc (rw (push_segment-extend c seg out, bad) at e)
  | inr (text, good) ↦ omega (
    arith,
    push_all-length segs (extend out text) p (rw (push_segment-extend c seg out, good) at e),
    length-append out.storage text,
    length-decode (c ∷ seg) text good,
  )
]

total-push_head : (c : ℕ) (segs : List Bytes) → total (push_head c segs) ≡ total segs + 1
total-push_head c [] = omega arith
total-push_head c (s ∷ segs) = omega arith

total-split_slash : (text : Bytes) → total (split_slash text) ≤ length text
unfolding split_slash
total-split_slash [] = omega arith
total-split_slash (c ∷ text) =
    ground (arith, total-split_slash text, total-push_head c (split_slash text))

length-remove_trailing_slash : (raw : Bytes) → length (remove_trailing_slash raw) ≤ length raw
unfolding remove_trailing_slash
length-remove_trailing_slash [] = omega arith
length-remove_trailing_slash (c ∷ []) = ground arith
length-remove_trailing_slash (c ∷ d ∷ raw) = omega (arith, length-remove_trailing_slash (d ∷ raw))

-- The segments of a text, without reference to the loop and its storage.
unfoldable pub expected_segments : Bytes → Option (List Bytes)
unfolding decode_segments
expected_segments [] = none
expected_segments (c ∷ raw) = decode_segments (split_slash (remove_trailing_slash (c ∷ raw)))

map-nil-append : (o : Option (List Bytes)) → Option.map (λ ts. [] ++ ts) o ≡ o
map-nil-append none = refl
map-nil-append (some ts) = refl

-- Of every text, `parse_path` gives the decoded segments between its slashes, without the empty
-- ones and without a trailing slash, or no path where one of them holds a malformed escape; of the
-- empty text it gives no path.
pub parse_path-segments :
    (raw : Bytes) → Option.map segments (parse_path raw) ≡ expected_segments raw
unfolding expected_segments parse_path
parse_path-segments [] = refl
parse_path-segments (c ∷ raw) =
    ap (Option.map segments) (parse_path-push_all c raw)
    ∙ push_all-segments _ empty_path refl
    ∙ map-nil-append _

-- Every path that `parse_path` returns is valid: its ranges tile its storage and none is empty. And
-- the storage is no longer than the text, so the space reserved for it is enough.
pub parse_path-IsValid :
    (raw : Bytes) (p : ParsedPath)
    → parse_path raw ≡ some p
    → IsValid p × (length p.storage ≤ length raw)
unfolding parse_path
parse_path-IsValid [] p e = cc
parse_path-IsValid (c ∷ raw) p e =
    let pushed = sym (parse_path-push_all c raw) ∙ e in
    (
      push_all-IsValid _ empty_path p refl pushed,
      omega (
        arith,
        push_all-length _ empty_path p pushed,
        total-split_slash (remove_trailing_slash (c ∷ raw)),
        length-remove_trailing_slash (c ∷ raw),
      ),
    )

take-pos : (n : ℕ) (text : Bytes) → 0 < n → n ≤ length text → 0 < length (take n text)
take-pos zero text h k = absurd (omega arith)
take-pos (suc n) [] h k = absurd (omega arith)
take-pos (suc n) (c ∷ text) h k = omega arith

Tiles-get_elem? :
    (at : ℕ) (rs : List Range) (storage : Bytes) (idx : ℕ) (r : Range)
    → Tiles at rs (length storage)
    → get_elem? rs idx ≡ some r
    → 0 < length (slice storage r)
Tiles-get_elem? at [] storage idx r h e = cc
Tiles-get_elem? at (q ∷ rs) storage zero r (o, c, h) e =
    let inside : at + q.count ≤ length storage = Tiles-le (at + q.count) rs (length storage) h in
    subst (λ (x : Range). 0 < length (slice storage x)) (eq_of_some e)
      (take-pos q.count (drop q.offset storage) c (omega (arith, length-drop q.offset storage)))
Tiles-get_elem? at (q ∷ rs) storage (suc idx) r (o, c, h) e =
    Tiles-get_elem? (at + q.count) rs storage idx r h e

get_elem?-lt {ℓ} :
    {A : Type ℓ} (xs : List A) (i : ℕ) (a : A) → get_elem? xs i ≡ some a → i < length xs
get_elem?-lt [] i a e = cc
get_elem?-lt (x ∷ xs) zero a e = omega arith
get_elem?-lt (x ∷ xs) (suc i) a e = omega (arith, get_elem?-lt xs i a e)

get_elem?-none {ℓ} : {A : Type ℓ} (xs : List A) (i : ℕ) → get_elem? xs i ≡ none → length xs ≤ i
get_elem?-none [] i e = omega arith
get_elem?-none (x ∷ xs) zero e = cc
get_elem?-none (x ∷ xs) (suc i) e = omega (arith, get_elem?-none xs i e)

-- In a valid path `get_idx` gives the empty text exactly past the end: a segment that is there is
-- never empty, and never read outside the storage.
get_idx-eq-nil_iff : (p : ParsedPath) (idx : ℕ) → IsValid p → (get_idx p idx ≡ []) ↔ (size p ≤ idx)
unfolding get_idx
get_idx-eq-nil_iff p idx v = elim (Option-cases (get_elem? p.ranges idx)) [
  | inl e ↦ (λ _. get_elem?-none p.ranges idx e, λ _. rw (e, get_idx))
  | inr (r, e) ↦
      let pos = Tiles-get_elem? 0 p.ranges p.storage idx r v e in
      let below = get_elem?-lt p.ranges idx r e in
      (
        λ q.
            let shown : slice p.storage r ≡ [] = rw (e, get_idx) at q in
            absurd (omega (arith, ap {B = ℕ} length shown)),
        λ q. absurd (omega arith),
      )
]
