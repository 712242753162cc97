-- ===== src/Path/Parse/Segments.antt =====
-- `parse_path` against its specification: split at '/', drop what is empty, decode each.
use mathlib.Core.Path.{fun_ext}
use native.Mathlib.Nat.{zero-add, suc-add}
use fcgijwtauth.Base.{
  ℕ, zero, suc, ◌+◌, ◌-◌, ◌≤◌, ◌<◌, ◌≡◌, refl, sym, ap, ◌∙◌, true, Option, none, some, List, [],
  ◌∷◌, arith, leb, ◌==◌, if◌then◌else◌, Option-cases, ◌>>=◌, Bytes, length, take, drop, length-drop,
  inl, inr,
}
use fcgijwtauth.Path.Parse.{
  ParsedPath, find, push_segment, parse_from, parse_path, remove_trailing_slash, empty_path,
}

abbrev pub push_head : ℕ → List Bytes → List Bytes
push_head c [] = (c ∷ []) ∷ []
push_head c (s ∷ ss) = (c ∷ s) ∷ ss

-- The texts between the slashes.
unfoldable pub split_slash : Bytes → List Bytes
split_slash [] = [] ∷ []
split_slash (c ∷ text) = if c == b'/' then [] ∷ split_slash text else push_head c (split_slash text)

split_slash-find-none : (text : Bytes) → find b'/' text ≡ none → split_slash text ≡ text ∷ []
unfolding split_slash find
split_slash-find-none [] h = refl
split_slash-find-none (c ∷ text) h = elim (Option-cases (find b'/' text)) [
  | inl e ↦ ground (arith, e, split_slash-find-none text e)
  | inr (n, e) ↦ ground (arith, e)
]

split_slash-find-some :
    (text : Bytes) (n : ℕ)
    → find b'/' text ≡ some n
    → split_slash text ≡ take n text ∷ split_slash (drop (suc n) text)
unfolding split_slash find
split_slash-find-some [] n h = cc
split_slash-find-some (c ∷ text) n h = elim (Option-cases (find b'/' text)) [
  | inl e ↦ ground (arith, e)
  | inr (m, e) ↦ ground (arith, e, split_slash-find-some text m e)
]

find-lt-length : (c : ℕ) (text : Bytes) (n : ℕ) → find c text ≡ some n → n < length text
unfolding find
find-lt-length c [] n h = cc
find-lt-length c (x ∷ text) n h = elim (Option-cases (find c text)) [
  | inl e ↦ ground (arith, e)
  | inr (m, e) ↦ ground (arith, e, find-lt-length c text m e)
]

unfoldable pub push_all : List Bytes → ParsedPath → Option ParsedPath
push_all [] out = some out
push_all (seg ∷ segs) out = push_segment seg out >>= push_all segs

drop-drop : (m n : ℕ) (text : Bytes) → drop n (drop m text) ≡ drop (m + n) text
drop-drop zero n text = rw zero-add
drop-drop (suc m) zero [] = rw suc-add
drop-drop (suc m) (suc n) [] = rw suc-add
drop-drop (suc m) n (x ∷ text) = rw suc-add (drop-drop m n text)

bind-some : (o : Option ParsedPath) → (o >>= some) ≡ o
bind-some none = refl
bind-some (some p) = refl

-- With enough fuel the loop handles the texts between the slashes one after the other.
parse_from-push_all :
    (fuel : ℕ) (raw : Bytes) (start : ℕ) (out : ParsedPath)
    → start ≤ length raw
    → length raw < fuel + start
    → parse_from fuel raw start out ≡ push_all (split_slash (drop start raw)) out
unfolding parse_from push_all
parse_from-push_all zero raw start out h k = absurd (omega arith)
parse_from-push_all (suc fuel) raw start out h k =
    let inside : leb start (length raw) ≡ true = ground arith in
    elim (Option-cases (find b'/' (drop start raw))) [
      | inl e ↦
          rw (inside, e, split_slash-find-none _ e)
            (sym (bind-some (push_segment (drop start raw) out)))
      | inr (n, e) ↦
          let within : start + n < length raw =
            omega (arith, find-lt-length b'/' (drop start raw) n e, length-drop start raw) in
          let same : start + n - start ≡ n = omega arith in
          let next_start : suc start + n ≡ start + n + 1 = omega arith in
          let next : (p : ParsedPath)
              → parse_from fuel raw (start + n + 1) p
                ≡ push_all (split_slash (drop (suc n) (drop start raw))) p =
            λ p.
              parse_from-push_all fuel raw (start + n + 1) p (omega arith) (omega arith)
              ∙ ap (λ t. push_all (split_slash t) p)
                  (ap (λ k. drop k raw) (omega arith) ∙ sym (drop-drop start (suc n) raw)) in
          rw (inside, e, same, split_slash-find-some _ n e, push_all)
            (ap (λ f. push_segment (take n (drop start raw)) out >>= f) (fun_ext next))
    ]

-- `parse_path` is that for the whole text; the fuel that it starts with is enough.
pub parse_path-push_all :
    (c : ℕ) (raw : Bytes)
    → parse_path (c ∷ raw) ≡ push_all (split_slash (remove_trailing_slash (c ∷ raw))) empty_path
unfolding parse_path
parse_path-push_all c raw =
    parse_from-push_all _ (remove_trailing_slash (c ∷ raw)) 0 empty_path (omega arith) (omega arith)
