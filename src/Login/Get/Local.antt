-- ===== src/Login/Get/Local.antt =====
-- Where the login page leads to.
use fcgijwtauth.Base.{
  ℕ, zero, suc, ◌+◌, ◌≡◌, refl, ◌≢◌, ◌⊎◌, inl, inr, ap, sym, ◌∙◌, true, Option, none, some, [], ◌∷◌,
  ◌++◌, Bytes, lit, bytes_eq, bytes_eq_iff, take, drop, get_or, arith, Bool-cases, take-drop,
}
use native.Mathlib.Nat.{zero-add, suc-add}
use fcgijwtauth.Login.Get.{is_local_return, return_to_of}

-- A path that begins with one slash, behind which there is no second.
abbrev pub IsLocal : Bytes → Type 0
IsLocal path = (get_or path 0 0 ≡ b'/') × (get_or path 1 0 ≢ b'/')

get_or-drop : (n i : ℕ) (text : Bytes) → get_or (drop n text) i 0 ≡ get_or text (n + i) 0
get_or-drop zero i text = rw zero-add refl
get_or-drop (suc n) i [] = refl
get_or-drop (suc n) i (x ∷ text) = rw suc-add (get_or-drop n i text)

is_local_return_sound :
    (query : Bytes)
    → is_local_return query ≡ true
    → (take 7 query ≡ lit "return=") × (get_or query 7 0 ≡ b'/') × (get_or query 8 0 ≢ b'/')
unfolding is_local_return
is_local_return_sound query good = elim (Bool-cases (bytes_eq (take 7 query) (lit "return="))) [
  | inr other ↦ absurd (ground (arith, good, other))
  | inl same ↦ ((bytes_eq_iff _ _).0 same, ground (arith, good), ground (arith, good))
]

slash-IsLocal : IsLocal (lit "/")
unfolding lit
slash-IsLocal = (refl, omega arith)

-- Whatever the query string is, the login page leads to a path that begins with a slash and goes on
-- with no second slash; and to another than "/" only if the query string is that path behind
-- "return=".
pub return_to_of-IsLocal :
    (query_string : Option Bytes)
    → IsLocal (return_to_of query_string)
      × ((return_to_of query_string ≡ lit "/")
          ⊎ (query_string ≡ some (lit "return=" ++ return_to_of query_string)))
unfolding return_to_of
return_to_of-IsLocal none = (slash-IsLocal, inl refl)
return_to_of-IsLocal (some query) = elim (Bool-cases (is_local_return query)) [
  | inr other ↦ rw (other, return_to_of) (slash-IsLocal, inl refl)
  | inl good ↦
      let (prefix, slash, no_slash) = is_local_return_sound query good in
      rw (good, return_to_of)
        (
          (get_or-drop 7 0 query ∙ slash, λ e. no_slash (sym (get_or-drop 7 1 query) ∙ e)),
          inr (ap some (sym (take-drop 7 query) ∙ ap (λ t. t ++ drop 7 query) prefix)),
        )
]
