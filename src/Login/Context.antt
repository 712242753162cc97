-- ===== src/Login/Context.antt =====
-- `RequestContext` (HTTPUtils.hpp) and `fcgx_prepare_request_context` (appauth.cpp).
use fcgijwtauth.Base.{ℕ, zero, suc, Option, none, some, [], ◌++◌, Bytes, lit}
use fcgijwtauth.Outcome.{Outcome, ok, undefined, ◌>>=◌}
use fcgijwtauth.Web.{Web}
use fcgijwtauth.Cookies.{Jar, parse_cookies}
use fcgijwtauth.Path.Parse.{ParsedPath, empty_path, parse_c_path}
use fcgijwtauth.Login.{Request}

pub record RequestContext (web : Web) : Type 0 where
  pub request_method : Bytes
  pub request_uri : Bytes
  pub script_name : Bytes
  pub path_info : Bytes
  pub document_root : Bytes
  pub base_loc : Bytes
  pub query_string : Option Bytes
  pub request_id : Option Bytes
  pub cookie : Option Bytes
  pub cookies : Option Jar
  pub authorisation : Option Bytes
  pub qs : Option web.Query
  pub parsed_path : ParsedPath

-- A parameter that is assigned to a `std::string`, which a null pointer cannot be.
abbrev pub required : Request → Bytes → Outcome Bytes
required req name = elim (req.get_param name) [ none ↦ undefined | some text ↦ ok text ]

-- The loop that composes `base_loc`.
unfoldable pub levels_up : ℕ → Bytes
unfolding lit
levels_up zero = []
levels_up (suc slashcount) = levels_up slashcount ++ lit "../"

abbrev pub path_or_empty : Option ParsedPath → ParsedPath
path_or_empty none = empty_path
path_or_empty (some path) = path

unfoldable pub fcgx_prepare_request_context : (web : Web) → Request → Outcome (RequestContext web)
unfolding levels_up parse_cookies parse_c_path lit
fcgx_prepare_request_context web req = do
  request_method ← required req (lit "REQUEST_METHOD")
  request_uri ← required req (lit "REQUEST_URI")
  script_name ← required req (lit "SCRIPT_NAME")
  path_info ← required req (lit "PATH_INFO")
  document_root ← required req (lit "DOCUMENT_ROOT")
  ok (record {
    request_method = request_method;
    request_uri = request_uri;
    script_name = script_name;
    path_info = path_info;
    document_root = document_root;
    base_loc = levels_up (web.count_char path_info b'/');
    query_string = req.get_param (lit "QUERY_STRING");
    request_id = req.get_param (lit "REQUEST_ID");
    cookie = req.get_param (lit "HTTP_COOKIE");
    cookies = parse_cookies (req.get_param (lit "HTTP_COOKIE"));
    authorisation = req.get_param (lit "HTTP_AUTHORIZATION");
    qs = web.decode_query (req.get_param (lit "QUERY_STRING"));
    parsed_path = path_or_empty (parse_c_path (some path_info));
  })
