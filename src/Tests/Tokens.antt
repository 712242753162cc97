-- ===== src/Tests/Tokens.antt =====
-- Key sets, tokens and requests at a concrete library, in which every token is taken to decode and
-- every key set has one RSA key, "k1".
use fcgijwtauth.Base.{
  ◌*◌, ◌≡◌, refl, ◌≢◌, ◌⊎◌, true, false, Option, none, some, List, [], ◌∷◌, Bytes, lit, bytes_eq,
}
use fcgijwtauth.Outcome.{ok}
use fcgijwtauth.Library.{Library, Download, FileRead}
use fcgijwtauth.Jwks.Store.{
  find_key, hour, leeway_seconds, Verifier, Store, Manager, find_verifier, refreshed, verify_jwt,
  is_file,
}
use fcgijwtauth.Jwks.Refresh.{find_verifier-keeps}
use fcgijwtauth.Jwks.Throttle.{look_ups, find_verifier-look_ups}
use fcgijwtauth.Jwks.Verify.{verify_jwt_sound}
use fcgijwtauth.Cookies.{c_string, Jar, get_cookie}
use fcgijwtauth.UserContext.{JwtUserContext, get_string, get_user_context}
use fcgijwtauth.UserContext.Laws.{get_user_context_sound}
use fcgijwtauth.Auth.{verify_jwks_authentication_jwt, or_empty}
use fcgijwtauth.Auth.Request.{process_verification_request, answered, authorised_page}
use fcgijwtauth.Auth.Laws.{
  verify_jwks_authentication_jwt_sound, process_verification_request-get_user_context,
}

pub data Json : Type 0 where
  word : Bytes → Json
  key_object key_list key_set : Json

abbrev word_of : Json → Option Bytes
word_of (word text) = some text
word_of _ = none

abbrev list_of : Json → Option (List Json)
list_of key_list = some (key_object ∷ [])
list_of _ = none

abbrev members_of : Json → Option (List (Bytes × Json))
members_of key_object = some (
    (lit "kid", word (lit "k1"))
    ∷ (lit "kty", word (lit "RSA"))
    ∷ (lit "n", word (lit "3"))
    ∷ (lit "e", word (lit "5"))
    ∷ [])
members_of key_set = some ((lit "keys", key_list) ∷ [])
members_of _ = none

abbrev pub lib : Library
lib = record {
  Value = Json;
  parse = λ text. key_set;
  as_string = word_of;
  as_array = list_of;
  as_object = members_of;
  from_string = word;
  from_object = λ members. key_object;
  serialize = λ value. [];
  Algorithm = Bytes;
  rsa_algorithm = λ n e. ok n;
  ec_algorithm = λ crv x y. ok x;
  Token = Bytes;
  decode_token = λ text. ok text;
  get_type = λ token. ok [];
  get_algorithm = λ token. ok [];
  get_key_id = λ token. ok (lit "k1");
  get_issuer = λ token. ok [];
  get_audience = λ token. none;
  get_issued_at = λ token. ok 0;
  get_expires_at = λ token. ok 0;
  payload =
      λ token. (lit "name", word (lit "N")) ∷ (lit "preferred_username", word (lit "n@x")) ∷ [];
  header = λ token. [];
  verify = λ algorithm leeway token. ok tt;
  read_file = λ name. FileRead.not_opened;
  download = λ url. Download.received 200 [];
  now = 100 * hour;
}

abbrev verifier : Verifier lib
verifier = record { algorithm = lit "3"; leeway = leeway_seconds }

abbrev empty_store : Store lib
empty_store = record {
  src_url = lit "https://x";
  backing_file = [];
  last_fetch_time = 0;
  verifiers = [];
}

abbrev store : Store lib
store = record empty_store { verifiers = (lit "k1", verifier) ∷ [] }

abbrev pub stores : Manager lib
stores = (lit "microsoft", store) ∷ []

abbrev token : Bytes
token = b't' ∷ []

store_holds : find_key (lit "k1") store.verifiers ≡ some verifier
unfolding find_key lit bytes_eq
store_holds = refl

find_verifier-keeps_example :
    find_key (lit "k1") (find_verifier lib (lit "k2") store).store.verifiers ≡ some verifier
find_verifier-keeps_example = find_verifier-keeps lib (lit "k2") (lit "k1") store store_holds

empty_store_fetches : (find_verifier lib (lit "k1") empty_store).result ≡ ok (some verifier)
unfolding find_verifier lit bytes_eq
empty_store_fetches = refl

from_url : is_file lib empty_store.src_url ≡ false
unfolding lit
from_url = refl

still_missing : find_key (lit "k2") (look_ups lib (lit "k2" ∷ []) empty_store).verifiers ≡ none
unfolding look_ups find_verifier lit bytes_eq
still_missing = refl

find_verifier-look_ups_example :
    find_verifier lib (lit "k2") (look_ups lib (lit "k2" ∷ []) empty_store)
    ≡ refreshed lib (look_ups lib (lit "k2" ∷ []) empty_store) (lit "k2") ([], none)
find_verifier-look_ups_example =
    find_verifier-look_ups lib (lit "k2" ∷ []) (lit "k2") empty_store from_url refl refl refl
      still_missing

token_verified : (verify_jwt lib (lit "microsoft") token stores).1 ≡ ok true
unfolding verify_jwt lit bytes_eq
token_verified = refl

verify_jwt_sound_example :
    (s : Store lib) × (t : lib.Token) × (kid : Bytes) × (v : Verifier lib) × (find_key
        (lit "microsoft")
        stores
      ≡ some s)
    × (lib.decode_token token ≡ ok t)
    × (lib.get_key_id t ≡ ok kid)
    × (find_key kid (find_verifier lib kid s).store.verifiers ≡ some v)
    × (lib.verify v.algorithm v.leeway t ≡ ok tt)
verify_jwt_sound_example = verify_jwt_sound lib (lit "microsoft") token stores token_verified

token_accepted : (verify_jwks_authentication_jwt lib stores token).1 ≡ ok 0
unfolding verify_jwks_authentication_jwt lit bytes_eq
token_accepted = refl

abbrev user : JwtUserContext
user = record {
  friendly_name = lit "N";
  email_address = lit "n@x";
  payload_json_str = [];
  payload_json_str_pretty = lit "{\n  : ,\n  : \n}";
  header_json_str = [];
  verified = 0;
}

token_names : get_user_context lib token ≡ ok (some user)
unfolding get_user_context lit bytes_eq
token_names = refl

get_user_context_sound_example :
    (t : lib.Token) × (token ≢ [])
    × (lib.decode_token token ≡ ok t)
    × (get_string lib (lib.payload t) (lit "name") ≡ some user.friendly_name)
    × ((get_string lib (lib.payload t) (lit "email") ≡ some user.email_address)
        ⊎ ((get_string lib (lib.payload t) (lit "email") ≡ none)
            × (get_string lib (lib.payload t) (lit "preferred_username")
                ≡ some user.email_address)))
    × (user.verified ≡ 0)
get_user_context_sound_example = get_user_context_sound lib token token_names

verify_jwks_authentication_jwt_sound_example :
    (s : Store lib) × (t : lib.Token) × (kid : Bytes) × (v : Verifier lib) × (ctx : JwtUserContext)
    × (find_key (lit "microsoft") stores ≡ some s)
    × (lib.decode_token token ≡ ok t)
    × (lib.get_key_id t ≡ ok kid)
    × (find_key kid (find_verifier lib kid s).store.verifiers ≡ some v)
    × (lib.verify v.algorithm v.leeway t ≡ ok tt)
    × (get_user_context lib token ≡ ok (some ctx))
verify_jwks_authentication_jwt_sound_example =
    verify_jwks_authentication_jwt_sound lib stores token token_accepted

-- "auth=t", behind the parser.
abbrev jar : Jar
jar = record {
  header = b'a' ∷ b'u' ∷ b't' ∷ b'h' ∷ 0 ∷ b't' ∷ [];
  cookies = record { name = 0; value = 5 } ∷ [];
}

-- No store: the verification fails with 2.
unverified :
    (verify_jwks_authentication_jwt lib [] (or_empty (get_cookie (some jar) (lit "auth") 0))).1
    ≡ ok 2
unfolding verify_jwks_authentication_jwt get_cookie lit bytes_eq
unverified = refl

cookie_names :
    get_user_context lib (or_empty (get_cookie (some jar) (lit "auth") 0)) ≡ ok (some user)
unfolding get_user_context get_cookie lit bytes_eq c_string
cookie_names = refl

process_verification_request-get_user_context_example :
    (process_verification_request lib none [] (some jar)).1 ≡ ok (answered authorised_page)
process_verification_request-get_user_context_example =
    process_verification_request-get_user_context lib [] jar unverified cookie_names
