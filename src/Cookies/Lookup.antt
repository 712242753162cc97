-- ===== src/Cookies/Lookup.antt =====
-- Which cookie the two look-ups take.
use fcgijwtauth.Base.{
  ℕ, zero, suc, ◌≡◌, refl, ap, ◌∙◌, sym, false, Option, none, some, List, [], ◌∷◌, Bytes, arith,
  if◌then◌else◌, bytes_eq, lit, Bool-cases, inl, inr, ◌⊎◌,
}
use fcgijwtauth.Cookies.{Cookie, Jar, get_from, get_cookie, token_from, get_token_from_cookie}
use fcgijwtauth.Cookies.RoundTrip.{pairs}

-- The first and the last value of a name.
unfoldable pub first_value : Bytes → List (Bytes × Bytes) → Option Bytes
first_value name [] = none
first_value name ((n, v) ∷ ps) =
    let next = first_value name ps in if bytes_eq n name then some v else next

unfoldable pub last_value : Bytes → Bytes → List (Bytes × Bytes) → Bytes
last_value name found [] = found
last_value name found ((n, v) ∷ ps) = last_value name (if bytes_eq n name then v else found) ps

get_from-first_value :
    (header name : Bytes) (cookies : List Cookie) (idx : ℕ)
    → get_from header name cookies idx
      ≡ first_value name (pairs (record { header = header; cookies = cookies }))
unfolding get_from first_value
get_from-first_value header name [] idx = refl
get_from-first_value header name (c ∷ cookies) zero =
    ground (arith, get_from-first_value header name cookies 0)
get_from-first_value header name (c ∷ cookies) (suc idx) = ground (
  arith,
  get_from-first_value header name (c ∷ cookies) idx,
  get_from-first_value header name cookies (suc idx),
)

-- `HTTPUtils_get_cookie` gives the value of the first cookie of that name, whatever the index that
-- it is asked for: it never gives a second one.
pub get_cookie-first_value :
    (jar : Jar) (name : Bytes) (idx : ℕ)
    → get_cookie (some jar) name idx ≡ first_value name (pairs jar)
unfolding get_cookie
get_cookie-first_value jar name idx = get_from-first_value jar.header name jar.cookies idx

token_from-last_value :
    (header : Bytes) (cookies : List Cookie) (found : Bytes)
    → token_from header cookies found
      ≡ last_value (lit "auth") found (pairs (record { header = header; cookies = cookies }))
unfolding token_from last_value
token_from-last_value header [] found = refl
token_from-last_value header (c ∷ cookies) found = token_from-last_value header cookies _

pub get_token_from_cookie-last_value :
    (jar : Jar) → get_token_from_cookie (some jar) ≡ last_value (lit "auth") [] (pairs jar)
unfolding get_token_from_cookie
get_token_from_cookie-last_value jar = token_from-last_value jar.header jar.cookies []

abbrev pub value_or_empty : Option Bytes → Bytes
value_or_empty none = []
value_or_empty (some v) = v

-- No two cookies have the name.
abbrev pub AtMostOnce : Bytes → List (Bytes × Bytes) → Type 0
AtMostOnce name [] = Unit
AtMostOnce name ((n, v) ∷ ps) =
    ((bytes_eq n name ≡ false) ⊎ (first_value name ps ≡ none)) × AtMostOnce name ps

last_value-none :
    (name found : Bytes) (ps : List (Bytes × Bytes))
    → first_value name ps ≡ none
    → last_value name found ps ≡ found
unfolding first_value last_value
last_value-none name found [] h = refl
last_value-none name found ((n, v) ∷ ps) h = elim (Bool-cases (bytes_eq n name)) [
  | inl e ↦ ground (arith, e)
  | inr e ↦ rw e (last_value-none name found ps (ground (arith, e)))
]

last_value-first_value :
    (name : Bytes) (ps : List (Bytes × Bytes))
    → AtMostOnce name ps
    → last_value name [] ps ≡ value_or_empty (first_value name ps)
unfolding first_value last_value
last_value-first_value name [] h = refl
last_value-first_value name ((n, v) ∷ ps) (once, h) = elim (Bool-cases (bytes_eq n name)) [
  | inl e ↦ elim once [
    | inl other ↦ cc
    | inr none_left ↦ rw e (last_value-none name v ps none_left)
  ]
  | inr e ↦ rw e (last_value-first_value name ps h)
]

-- Where "auth" names at most one cookie, the token that `jwtinterface_get_token_from_cookie` takes
-- (the last) is the one that `HTTPUtils_get_cookie` gives (the first), or empty for none.
get_token_from_cookie-get_cookie :
    (jar : Jar) (idx : ℕ)
    → AtMostOnce (lit "auth") (pairs jar)
    → get_token_from_cookie (some jar) ≡ value_or_empty (get_cookie (some jar) (lit "auth") idx)
get_token_from_cookie-get_cookie jar idx h =
    get_token_from_cookie-last_value jar
    ∙ last_value-first_value (lit "auth") (pairs jar) h
    ∙ ap value_or_empty (sym (get_cookie-first_value jar (lit "auth") idx))
