-- ===== src/State.antt =====
-- The `state` parameter of the login: openidconnect.c signs it with a hash, and
-- `truncate_at_second_last_dot` of appauth.cpp takes the page to return to out of it. C strings are
-- the bytes before their terminator; the dynamic strings of the source only grow, and their
-- allocations are taken to succeed.
pub mod Dots
pub mod RoundTrip
use fcgijwtauth.Base.{
  ℕ, zero, suc, ◌+◌, Bool, true, false, Option, none, some, [], ◌∷◌, ◌++◌, ◌==◌, if◌then◌else◌,
  Bytes, take, drop, get_or, length, bytes_eq,
}
use fcgijwtauth.Sha256.{sha256_buf}

-- `openidconnect_create_verifyable_string`.
unfoldable pub create_verifyable_string : Bytes → Bytes → Bytes
create_verifyable_string secret salt =
    let hash = take 16 (sha256_buf (secret ++ salt)) in salt ++ b'.' ∷ hash

-- `strrchr`: the last index of a byte.
unfoldable pub strrchr : ℕ → Bytes → Option ℕ
strrchr c [] = none
strrchr c (x ∷ text) =
    let here = if x == c then some 0 else none in
    elim (strrchr c text) [ none ↦ here | some n ↦ some (suc n) ]

-- `openidconnect_verify_string`: whether it returns 0.
unfoldable pub verify_string : Bytes → Bytes → Bool
unfolding strrchr
verify_string secret input = elim (strrchr b'.' input) [
  | none ↦ false
  | some len ↦
      let hash = sha256_buf (secret ++ take len input) in
      bytes_eq (take 16 (drop (suc len) input)) (take 16 hash)
]

-- The loop of `truncate_at_second_last_dot`, from the index `p` down; `found` tells whether the last
-- dot was met.
unfoldable pub second_last_dot : Bytes → Bool → ℕ → Option ℕ
second_last_dot str found zero = none
second_last_dot str found (suc p) =
    let first = second_last_dot str true p in
    let on = second_last_dot str found p in
    if get_or str p 0 == b'.' then if found then some p else first else on

-- What the string is cut down to, and what the pointer that is returned shows; `none` is the null
-- pointer, where the string is left as it is.
unfoldable pub truncate_at_second_last_dot : Bytes → Option (Bytes × Bytes)
unfolding second_last_dot
truncate_at_second_last_dot str = elim (second_last_dot str false (length str)) [
  | none ↦ none
  | some p ↦ some (take p str, drop (suc p) str)
]
