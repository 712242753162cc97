-- ===== src/Cookies.antt =====
-- The cookie functions of HTTPUtils.cpp, and those of jwtinterface.cpp that look for the token. The
-- header is one block of memory that the parser writes into: `Bytes` are the bytes before its
-- terminator, a pointer is an index, and what is read at or past the end is the terminator 0.
-- Allocation is taken to succeed.
pub mod Memory
pub mod Fields
pub mod Parse
pub mod RoundTrip
pub mod Lookup
use mathlib.Core.Option
use fcgijwtauth.Base.{
  ℕ, zero, suc, ◌+◌, ◌-◌, Bool, true, false, ◌||◌, Option, none, some, List, [], ◌∷◌, ◌==◌,
  if◌then◌else◌, Bytes, bytes_eq, get_or, set, drop, lit, map,
}

-- The C string at the head of a block.
unfoldable pub c_string : Bytes → Bytes
c_string [] = []
c_string (c ∷ text) = if c == 0 then [] else c ∷ c_string text

-- `strchr(p, c)` for a byte `c` that is not 0, as a distance from `p`.
unfoldable pub strchr : ℕ → Bytes → Option ℕ
strchr c [] = none
strchr c (x ∷ text) =
    let later = Option.map suc (strchr c text) in
    if x == c then some 0 else if x == 0 then none else later

unfoldable pub strlen : Bytes → ℕ
strlen [] = 0
strlen (c ∷ text) = if c == 0 then 0 else suc (strlen text)

abbrev pub is_blank : ℕ → Bool
is_blank c = c == b' ' || c == b'\t' || c == b'\n' || c == b'\r'

-- The bytes that `while (*p is blank) ++p;` passes.
unfoldable pub blanks : Bytes → ℕ
blanks [] = 0
blanks (c ∷ text) = if is_blank c then suc (blanks text) else 0

-- The first pass: one more than the semicolons of the string.
unfoldable pub count_segments : Bytes → ℕ
count_segments [] = 1
count_segments (c ∷ text) =
    if c == b';' then suc (count_segments text) else if c == 0 then 1 else count_segments text

-- `cookie_t`: where the name and the value begin. The array ends where the list does, which the
-- source marks by an entry of two null pointers.
pub record Cookie : Type 0 where
  pub name : ℕ
  pub value : ℕ

pub record Jar : Type 0 where
  pub header : Bytes
  pub cookies : List Cookie

abbrev pub with_cookie : Cookie → Jar → Jar
with_cookie c jar = record jar { cookies = c ∷ jar.cookies }

-- The end of a value at `val`: the header with the semicolon overwritten, and where to go on.
unfoldable pub end_value : Bytes → ℕ → Bytes × ℕ
unfolding strchr strlen
end_value header val = elim (strchr b';' (drop val header)) [
  | none ↦ (header, val + strlen (drop val header))
  | some n ↦ (set header (val + n) 0, val + n + 1)
]

-- The second pass, with as many rounds left as `count - idx`.
unfoldable pub parse_rounds : ℕ → Bytes → ℕ → Jar
unfolding strchr blanks end_value
parse_rounds zero header p = record { header = header; cookies = [] }
parse_rounds (suc left) header p =
    let start = p + blanks (drop p header) in
    let split : Jar = elim (strchr b'=' (drop start header)) [
      | none ↦ record { header = header; cookies = [] }
      | some n ↦
          let val = start + n + 1 in
          let (header', p') = end_value (set header (start + n) 0) val in
          with_cookie (record { name = start; value = val }) (parse_rounds left header' p')
    ] in
    if get_or header p 0 == 0 then record { header = header; cookies = [] } else split

unfoldable pub parse_cookies : Option Bytes → Option Jar
unfolding count_segments parse_rounds
parse_cookies none = none
parse_cookies (some header) = some (parse_rounds (count_segments header) header 0)

-- The string that a pointer into the header shows.
abbrev pub string_at : Bytes → ℕ → Bytes
string_at header p = c_string (drop p header)

-- The loop of `HTTPUtils_get_cookie`: `continue` leaves `cookies` where it is.
unfoldable pub get_from : Bytes → Bytes → List Cookie → ℕ → Option Bytes
get_from header name [] idx = none
get_from header name (c ∷ cookies) zero =
    let next = get_from header name cookies zero in
    if bytes_eq (string_at header c.name) name then some (string_at header c.value) else next
get_from header name (c ∷ cookies) (suc idx) =
    let again = get_from header name (c ∷ cookies) idx in
    let next = get_from header name cookies (suc idx) in
    if bytes_eq (string_at header c.name) name then again else next

unfoldable pub get_cookie : Option Jar → Bytes → ℕ → Option Bytes
unfolding get_from
get_cookie none name idx = none
get_cookie (some jar) name idx = get_from jar.header name jar.cookies idx

-- `HTTPUtils_restore_cookies`; the `cookies` of a jar hold values that stand behind a byte.
unfoldable pub restore_from : Bytes → List Cookie → Bytes
unfolding strlen
restore_from header [] = header
restore_from header (c ∷ []) = set header (c.value - 1) b'='
restore_from header (c ∷ d ∷ cookies) =
    let header' = set header (c.value - 1) b'=' in
    restore_from (set header' (c.value + strlen (drop c.value header')) b';') (d ∷ cookies)

-- The loop of `jwtinterface_get_token_from_cookie`, which
-- `jwtinterface_get_token_from_cookie_or_authorization` repeats: the last "auth" is kept.
unfoldable pub token_from : Bytes → List Cookie → Bytes → Bytes
token_from header [] jwt_str = jwt_str
token_from header (c ∷ cookies) jwt_str =
    token_from header cookies (
      if bytes_eq (string_at header c.name) (lit "auth") then string_at header c.value else jwt_str)

unfoldable pub get_token_from_cookie : Option Jar → Bytes
unfolding token_from
get_token_from_cookie none = []
get_token_from_cookie (some jar) = token_from jar.header jar.cookies []

unfoldable pub get_token_from_cookie_or_authorization : Option Bytes → Option Bytes → Bytes
unfolding get_token_from_cookie parse_cookies
get_token_from_cookie_or_authorization cookies_str auth_str =
    get_token_from_cookie (parse_cookies cookies_str)
