-- ===== src/Web.antt =====
-- Further code that is not in the repository: the decoders of query strings and of MIME bodies, the
-- encoders of dynstringhtml, the clocks; and what a build of the program sets.
use fcgijwtauth.Base.{ℕ, Option, Bytes, List, Bool}

-- The macros of appspecific.h and the texts that they stand for.
pub record Config : Type 0 where
  pub client_id : Bytes
  pub client_secret : Bytes
  pub redirect_uri : Bytes
  pub welcome_to_company_name : Bytes
  pub application_name : Bytes
  pub privacy_policy_url : Bytes
  pub logo_light : Bytes
  pub logo_dark : Bytes

-- The end of `curl_easy_perform` for a POST: `CURLE_OK` with the content type, the status and the
-- pieces of the body in the order in which `write_callback` is given them.
pub record Performed : Type 0 where
  pub is_ok : Bool
  pub content_type : Option Bytes
  pub status : ℕ
  pub pieces : List Bytes

pub record Web : Type 1 where
  -- `querystring_decode_inplace` and `querystring_getbykey`.
  pub Query : Type 0
  pub decode_query : Option Bytes → Option Query
  pub get_by_key : Option Query → Bytes → Option Bytes
  -- `dynstringhtml_url_encode_appendz` and `dynstringhtml_htmlspecial_encode_appendz`.
  pub url_encode : Bytes → Bytes
  pub html_encode : Bytes → Bytes
  -- `strutils_countchar` with its last argument 0.
  pub count_char : Bytes → ℕ → ℕ
  -- `timefn_formattimefromunixtime_str(timefn_getcurrentunixtime())`
  pub current_time : Bytes
  -- `std::chrono::steady_clock::now()` in nanoseconds, and how much later it is when the request to the
  -- provider has been answered.
  pub steady_now : ℕ
  pub steady_passed : ℕ
  pub perform_post : Bytes → Bytes → Bytes → Performed
