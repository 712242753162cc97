-- ===== src/Tests/Headers.antt =====
-- Cookie headers, hashes and signed states at concrete inputs.
use fcgijwtauth.Base.{
  ◌≡◌, refl, true, some, List, [], ◌∷◌, ◌++◌, Bytes, bytes_eq, lit, arith, All, inl, inr, Avoids,
  take,
}
use fcgijwtauth.Cookies.{c_string, Jar, parse_cookies, restore_from, get_cookie}
use fcgijwtauth.Cookies.Fields.{Field, IsField, printed, cookies_at}
use fcgijwtauth.Cookies.Parse.{parse_cookies-printed}
use fcgijwtauth.Cookies.RoundTrip.{pairs, restore_from-parse_cookies}
use fcgijwtauth.Cookies.Lookup.{first_value, AtMostOnce, get_cookie-first_value}
use fcgijwtauth.Sha256.{update, initial, sha256_buf}
use fcgijwtauth.Sha256.Laws.{update-append}
use fcgijwtauth.State.{create_verifyable_string, verify_string}
use fcgijwtauth.State.RoundTrip.{
  signature, verify_string-create_verifyable_string, verify_string_sound,
}

-- "auth=t; b="
abbrev pub fields : List Field
fields =
    record { blank = []; name = b'a' ∷ b'u' ∷ b't' ∷ b'h' ∷ []; value = b't' ∷ [] }
    ∷ record { blank = b' ' ∷ []; name = b'b' ∷ []; value = [] }
    ∷ []

pub fields-IsField : All IsField fields
fields-IsField = (
  record {
    blank_is = tt;
    name_starts = refl;
    name_eq = (omega arith, (omega arith, (omega arith, (omega arith, tt))));
    name_nul = (omega arith, (omega arith, (omega arith, (omega arith, tt))));
    value_semicolon = (omega arith, tt);
    value_nul = (omega arith, tt);
  },
  (
    record {
      blank_is = (refl, tt);
      name_starts = refl;
      name_eq = (omega arith, tt);
      name_nul = (omega arith, tt);
      value_semicolon = tt;
      value_nul = tt;
    },
    tt,
  ),
)

abbrev pub jar : Jar
jar = record { header = printed 0 0 fields; cookies = cookies_at 0 fields }

parse_cookies-printed_example : parse_cookies (some (printed b'=' b';' fields)) ≡ some jar
parse_cookies-printed_example = parse_cookies-printed fields fields-IsField

restore_from-parse_cookies_example : restore_from jar.header jar.cookies ≡ printed b'=' b';' fields
restore_from-parse_cookies_example =
    restore_from-parse_cookies fields fields-IsField (parse_cookies-printed fields fields-IsField)

get_cookie-first_value_example :
    get_cookie (some jar) (lit "auth") 1 ≡ first_value (lit "auth") (pairs jar)
get_cookie-first_value_example = get_cookie-first_value jar (lit "auth") 1

jar-AtMostOnce : AtMostOnce (lit "auth") (pairs jar)
unfolding printed cookies_at first_value lit bytes_eq c_string
jar-AtMostOnce = (inr refl, (inl refl, tt))

abc_hash :
    sha256_buf (lit "abc") ≡ lit "ba7816bf8f01cfea414140de5dae2223b00361a396177a9cb410ff61f20015ad"
unfolding sha256_buf lit
abc_hash = refl

update-append_example :
    update initial (lit "ab" ++ lit "c") ≡ update (update initial (lit "ab")) (lit "c")
update-append_example = update-append initial (lit "ab") (lit "c")

abbrev secret : Bytes
secret = b'k' ∷ []

-- "/p.h"
abbrev page : Bytes
page = b'/' ∷ b'p' ∷ b'.' ∷ b'h' ∷ []

abbrev time : Bytes
time = b'1' ∷ b'2' ∷ []

verify_string-create_verifyable_string_example :
    verify_string secret (create_verifyable_string secret page) ≡ true
verify_string-create_verifyable_string_example = verify_string-create_verifyable_string secret page

verify_string_sound_example :
    (payload : Bytes) × (tail : Bytes) × (create_verifyable_string secret page
      ≡ payload ++ b'.' ∷ tail)
    × Avoids b'.' tail
    × (take 16 tail ≡ signature secret payload)
verify_string_sound_example =
    verify_string_sound secret (create_verifyable_string secret page)
      (verify_string-create_verifyable_string secret page)
