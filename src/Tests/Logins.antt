-- ===== src/Tests/Logins.antt =====
-- A login at a concrete server, whose codes hold a token, and where each request goes.
use fcgijwtauth.Base.{
  List, ◌≡◌, refl, ◌⊎◌, ◌++◌, ◌*◌, ◌+◌, ◌^◌, ap, true, none, some, [], ◌∷◌, Bytes, lit, bytes_eq,
  arith, concat, map, All,
}
use fcgijwtauth.Outcome.{ok}
use fcgijwtauth.Web.{Config}
use fcgijwtauth.Jwks.Store.{find_key}
use fcgijwtauth.Auth.{or_empty, verify_jwks_authentication_jwt}
use fcgijwtauth.Form.Upload.{MimeDecoder}
use fcgijwtauth.Cookies.{c_string, get_cookie}
use fcgijwtauth.Cookies.Fields.{Field}
use fcgijwtauth.Login.{Codes, Server, Request}
use fcgijwtauth.Login.Context.{RequestContext}
use fcgijwtauth.Login.Tokens.{got, get_tokens_from_microsoft}
use fcgijwtauth.Login.Tokens.Again.{exchanges, get_tokens_from_microsoft-again}
use fcgijwtauth.Login.Tokens.Cached.{IsLive, get_tokens_from_microsoft-IsLive}
use fcgijwtauth.Login.Post.{state_for}
use fcgijwtauth.Login.Code.{jwt_content_of, code_decision}
use fcgijwtauth.Login.Decision.{authenticated}
use fcgijwtauth.Login.Code.Sound.{Rests, code_decision_sound}
use fcgijwtauth.Login.Code.RoundTrip.{code_decision-state_for}
use fcgijwtauth.Login.Get.{return_to_of}
use fcgijwtauth.Login.Get.Local.{IsLocal, return_to_of-IsLocal}
use fcgijwtauth.Login.Logout.{removal, removals}
use fcgijwtauth.Login.Logout.Removed.{removals-parse_cookies}
use fcgijwtauth.Jwks.Keys.{keys, Distinct}
use fcgijwtauth.Login.Pages.{template_init}
use fcgijwtauth.Login.Program.{start_up, Visit, serve}
use fcgijwtauth.Login.Program.Served.{serve-start_up}
use fcgijwtauth.Library.{Library, FileRead}
use fcgijwtauth.Web.{Web}
use fcgijwtauth.Jwks.Store.{leeway_seconds}
use fcgijwtauth.Login.Dispatch.{appauth_process_request}
use fcgijwtauth.Login.Dispatch.Handlers.{Settles}
use fcgijwtauth.Login.Dispatch.Finished.{appauth_process_request-Settles}
use fcgijwtauth.Path.Parse.{empty_path}
use fcgijwtauth.Template.{of_text}
use fcgijwtauth.Cookies.Parse.{parse_cookies-printed}
use fcgijwtauth.Tests.Headers.{fields, fields-IsField, jar}
use fcgijwtauth.Tests.Tokens.{lib, stores}
use fcgijwtauth.Tests.Templates.{web}

abbrev config : Config
config = record {
  client_id = b'i' ∷ [];
  client_secret = b's' ∷ [];
  redirect_uri = b'u' ∷ [];
  welcome_to_company_name = [];
  application_name = [];
  privacy_policy_url = [];
  logo_light = [];
  logo_dark = [];
}

-- The code "c" has the token "t", which expired long ago.
abbrev codes : Codes
codes = (b'c' ∷ [], record { value = b't' ∷ []; expires_at = 1 }) ∷ []

abbrev server : Server lib
server = record {
  store_man = stores;
  codes = codes;
  login_page = of_text [];
  logout_page = of_text [];
}

abbrev renewed : Codes
renewed = (b'c' ∷ [], record { value = b't' ∷ []; expires_at = 1000 + 30 * (10 ^ 9) }) ∷ []

first_exchange :
    get_tokens_from_microsoft lib web config (b'c' ∷ []) codes ≡ (renewed, ok (got (b't' ∷ [])))
unfolding get_tokens_from_microsoft bytes_eq c_string
first_exchange = refl

-- Ten seconds later another code is exchanged, which is not kept. Behind that the clock stands at a year.
abbrev ten_later : Web
ten_later = record web { steady_now = 1000 + 10 * (10 ^ 9) }

get_tokens_from_microsoft-again_example :
    (get_tokens_from_microsoft lib
      (record web { steady_now = 365 * 24 * 3600 * (10 ^ 9) })
      config
      (b'c' ∷ [])
      (exchanges lib config ((ten_later, b'd' ∷ []) ∷ []) renewed)).1
    ≡ ok (got (b't' ∷ []))
get_tokens_from_microsoft-again_example =
    get_tokens_from_microsoft-again lib web (record web { steady_now = 365 * 24 * 3600 * (10 ^ 9) })
      config (b'c' ∷ []) (b't' ∷ []) codes ((ten_later, b'd' ∷ []) ∷ []) first_exchange
      ((omega arith, omega arith), tt)

not_there : find_key (b'd' ∷ []) codes ≡ none
unfolding find_key bytes_eq
not_there = refl

get_tokens_from_microsoft-IsLive_example :
    All (IsLive 1000) (get_tokens_from_microsoft lib web config (b'd' ∷ []) codes).0
get_tokens_from_microsoft-IsLive_example =
    get_tokens_from_microsoft-IsLive lib web config (b'd' ∷ []) codes not_there

-- The request that comes back for the page "/a".
abbrev req_ctx : RequestContext web
req_ctx = record {
  request_method = lit "GET";
  request_uri = [];
  script_name = [];
  path_info = lit "microsoft";
  document_root = [];
  base_loc = [];
  query_string = none;
  request_id = none;
  cookie = none;
  cookies = none;
  authorisation = none;
  qs = some ((lit "code", b'c' ∷ []) ∷ (lit "state", state_for web config (b'/' ∷ b'a' ∷ [])) ∷ []);
  parsed_path = empty_path;
}

no_error : web.get_by_key req_ctx.qs (lit "error") ≡ none
unfolding find_key lit bytes_eq
no_error = refl

code_there : web.get_by_key req_ctx.qs (lit "code") ≡ some (b'c' ∷ [])
unfolding find_key lit bytes_eq
code_there = refl

state_there :
    web.get_by_key req_ctx.qs (lit "state") ≡ some (state_for web config (b'/' ∷ b'a' ∷ []))
unfolding find_key lit bytes_eq
state_there = refl

nothing_shown :
    jwt_content_of lib (or_empty (get_cookie req_ctx.cookies (lit "auth") 0))
    ≡ ok (lit "NO CONTENT: ERROR\r\n")
unfolding jwt_content_of get_cookie
nothing_shown = refl

exchanged :
    (get_tokens_from_microsoft lib web config (b'c' ∷ []) server.codes).1 ≡ ok (got (b't' ∷ []))
exchanged = ap (λ r. r.1) first_exchange

token_accepted : (verify_jwks_authentication_jwt lib server.store_man (b't' ∷ [])).1 ≡ ok 0
unfolding verify_jwks_authentication_jwt lit bytes_eq
token_accepted = refl

led_back :
    (code_decision lib web config req_ctx server).1
    ≡ ok (authenticated (b't' ∷ []) (b'/' ∷ b'a' ∷ []) (b'/' ∷ b'a' ∷ []))
led_back =
    code_decision-state_for lib web web config req_ctx server (b'/' ∷ b'a' ∷ [])
      (omega arith, (omega arith, tt))
      (omega arith, (omega arith, (omega arith, (omega arith, tt))))
      (omega arith, (omega arith, (omega arith, (omega arith, tt)))) no_error code_there state_there
      nothing_shown exchanged token_accepted

code_decision-state_for_example :
    (code_decision lib web config req_ctx server).1
    ≡ ok (authenticated (b't' ∷ []) (b'/' ∷ b'a' ∷ []) (b'/' ∷ b'a' ∷ []))
code_decision-state_for_example =
    code_decision-state_for lib web web config req_ctx server (b'/' ∷ b'a' ∷ [])
      (omega arith, (omega arith, tt))
      (omega arith, (omega arith, (omega arith, (omega arith, tt))))
      (omega arith, (omega arith, (omega arith, (omega arith, tt)))) no_error code_there state_there
      nothing_shown exchanged token_accepted

code_decision_sound_example :
    Rests lib web config
      (web.get_by_key req_ctx.qs (lit "error"))
      (web.get_by_key req_ctx.qs (lit "code"))
      (web.get_by_key req_ctx.qs (lit "state"))
      (b't' ∷ [])
      (b'/' ∷ b'a' ∷ [])
      (b'/' ∷ b'a' ∷ [])
      server
code_decision_sound_example = code_decision_sound lib web config req_ctx server led_back

-- "return=/a"
abbrev query : Bytes
query = b'r' ∷ b'e' ∷ b't' ∷ b'u' ∷ b'r' ∷ b'n' ∷ b'=' ∷ b'/' ∷ b'a' ∷ []

return_to_of-IsLocal_example :
    IsLocal (return_to_of (some query))
    × ((return_to_of (some query) ≡ lit "/")
        ⊎ (some query ≡ some (lit "return=" ++ return_to_of (some query))))
return_to_of-IsLocal_example = return_to_of-IsLocal (some query)

removals-parse_cookies_example :
    removals web (some jar) ≡ concat (map (λ (f : Field). removal web f.name) fields)
removals-parse_cookies_example =
    removals-parse_cookies web fields fields-IsField (parse_cookies-printed fields fields-IsField)

abbrev decoder : MimeDecoder web
decoder = λ callback max_size content_type pieces form. ok (form, true)

abbrev head : Request
head = record {
  get_param = λ name. find_key name (
      (lit "REQUEST_METHOD", lit "HEAD")
      ∷ (lit "REQUEST_URI", lit "/auth/verify")
      ∷ (lit "SCRIPT_NAME", lit "/auth/")
      ∷ (lit "PATH_INFO", lit "verify")
      ∷ (lit "DOCUMENT_ROOT", lit "/srv")
      ∷ []);
  input = [];
}

appauth_process_request-Settles_example :
    Settles lib web config none decoder head
      (appauth_process_request lib web config none decoder head server)
appauth_process_request-Settles_example =
    appauth_process_request-Settles lib web config none decoder head server

-- Every file is there, and empty.
abbrev files : Library
files = record lib { read_file = λ name. FileRead.contents [] none }

abbrev started : Server files
started = record {
  store_man =
      (
        lit "microsoft",
        record {
          src_url = lit "https://login.microsoftonline.com/common/discovery/v2.0/keys";
          backing_file = lit "./conf/microsoft.jwks.json";
          last_fetch_time = 0;
          verifiers = (lit "k1", record { algorithm = lit "3"; leeway = leeway_seconds }) ∷ [];
        },
      )
      ∷ [];
  codes = [];
  login_page = template_init config (of_text []);
  logout_page = template_init config (of_text []);
}

starts : start_up files config ≡ ok started
unfolding start_up lit bytes_eq
starts = refl

abbrev visits : List Visit
visits = record { web = web; decoder = decoder; request = head } ∷ []

serve-start_up_example :
    (keys (serve files config none visits started).0.store_man ≡ lit "microsoft" ∷ [])
    × ((serve files config none visits started).0.login_page ≡ started.login_page)
    × ((serve files config none visits started).0.logout_page ≡ started.logout_page)
    × Distinct (serve files config none visits started).0.codes
serve-start_up_example = serve-start_up files config none visits starts
