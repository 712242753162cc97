-- ===== src/Library.antt =====
-- What the program uses of code that is not in the repository: picojson and jwt-cpp, the file system
-- and libcurl, the clock. Each is a function of the state of the world at the call.
use fcgijwtauth.Base.{ℕ, Option, Bytes, List}
use fcgijwtauth.Outcome.{Outcome}

-- The end of `curl_easy_perform`, with the HTTP status.
pub data Download : Type 0 where
  curl_failed : Download
  received : ℕ → Bytes → Download

-- Reading a whole file, and the modification time if `stat` gave one. A file that is opened but gives
-- no size is not considered.
pub data FileRead : Type 0 where
  not_opened : FileRead
  not_read : FileRead
  contents : Bytes → Option ℕ → FileRead

pub record Library : Type 1 where
  -- `picojson::value`; `parse` gives the null value for a text that is not JSON.
  pub Value : Type 0
  pub parse : Bytes → Value
  pub as_string : Value → Option Bytes
  pub as_array : Value → Option (List Value)
  -- The members of an object, in the order of its `std::map`.
  pub as_object : Value → Option (List (Bytes × Value))
  pub from_string : Bytes → Value
  pub from_object : List (Bytes × Value) → Value
  pub serialize : Value → Bytes
  -- The algorithms `rs256` and `es256` of a public key made from the components of a key.
  pub Algorithm : Type 0
  pub rsa_algorithm : Bytes → Bytes → Outcome Algorithm
  pub ec_algorithm : Bytes → Bytes → Bytes → Outcome Algorithm
  -- `jwt::decode` and what it gives access to.
  pub Token : Type 0
  pub decode_token : Bytes → Outcome Token
  pub get_type : Token → Outcome Bytes
  pub get_algorithm : Token → Outcome Bytes
  pub get_key_id : Token → Outcome Bytes
  pub get_issuer : Token → Outcome Bytes
  -- `has_payload_claim("aud")`, and then `get_audience()`.
  pub get_audience : Token → Option (Outcome (List Bytes))
  pub get_issued_at : Token → Outcome ℕ
  pub get_expires_at : Token → Outcome ℕ
  pub payload : Token → List (Bytes × Value)
  pub header : Token → List (Bytes × Value)
  -- `verifier.verify(token)` with an algorithm allowed and a leeway in seconds.
  pub verify : Algorithm → ℕ → Token → Outcome (Unit {0})
  pub read_file : Bytes → FileRead
  pub download : Bytes → Download
  -- `std::chrono::system_clock::now()` in nanoseconds since the epoch.
  pub now : ℕ
