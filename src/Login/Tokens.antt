-- ===== src/Login/Tokens.antt =====
-- `get_tokens_from_microsoft` and the tokens that it keeps for the codes.
pub mod Cached
pub mod Entries
pub mod Again
use fcgijwtauth.Base.{
  ℕ, ◌+◌, ◌*◌, Bool, true, false, Option, none, some, List, [], ◌∷◌, leb, if◌then◌else◌, Bytes, lit,
  concat,
}
use fcgijwtauth.Outcome.{Outcome, ok, throws, undefined}
use fcgijwtauth.Library.{Library}
use fcgijwtauth.Web.{Web, Config}
use fcgijwtauth.HttpClient.{HttpResponse, http_post}
use fcgijwtauth.Jwks.Store.{find_key, try_emplace, update_key, second}
use fcgijwtauth.Cookies.{c_string}
use fcgijwtauth.Login.{TimedEntry, Codes}

unfoldable pub remove_expired : ℕ → Codes → Codes
remove_expired now [] = []
remove_expired now ((code, entry) ∷ codes) =
    let rest = remove_expired now codes in
    if leb entry.expires_at now then rest else (code, entry) ∷ rest

-- The return of 0, with the token behind `token_ptr`, of -1 and of -2.
pub data Retrieved : Type 0 where
  got : Bytes → Retrieved
  not_received : Retrieved
  no_token : Retrieved

abbrev pub lifetime : ℕ
lifetime = 30 * second

module _ (lib : Library) (web : Web) (config : Config) where
  open lib use {Value, parse, as_object, as_string}

  unfoldable pub post_data : Bytes → Bytes
  unfolding lit
  post_data code = concat (
      lit "client_id="
      ∷ config.client_id
      ∷ lit "&client_secret="
      ∷ config.client_secret
      ∷ lit "&scope=openid%20profile%20email&code="
      ∷ web.url_encode code
      ∷ lit "&redirect_uri="
      ∷ config.redirect_uri
      ∷ lit "&grant_type=authorization_code"
      ∷ [])

  -- The clock is read again behind the request.
  abbrev pub timed : Bytes → TimedEntry
  timed token = record { value = token; expires_at = web.steady_now + web.steady_passed + lifetime }

  -- A token that was received is kept, unless there is one for the code.
  unfoldable pub keep_token : Bytes → Codes → Value → Codes × Outcome Retrieved
  unfolding try_emplace
  keep_token code codes token_json_value = elim (as_string token_json_value) [
    | none ↦ (codes, ok Retrieved.no_token)
    | some token ↦
        let (codes', inserted) = try_emplace code (timed token) codes in
        (codes', ok (Retrieved.got (c_string token)))
  ]

  -- The `try` block, on the parsed answer. `obj.find("id_token")->second` where there is no such
  -- member is no defined read.
  unfoldable pub token_read : Bytes → Codes → Value → Codes × Outcome Retrieved
  unfolding keep_token find_key lit
  token_read code codes val = elim (as_object val) [
    | none ↦ (codes, ok Retrieved.no_token)
    | some obj ↦ elim (find_key (lit "id_token") obj) [
      | none ↦ (codes, undefined)
      | some token_json_value ↦ keep_token code codes token_json_value
    ]
  ]

  -- The request, behind a look-up that found nothing.
  unfoldable pub requested : Bytes → Codes → Codes × Outcome Retrieved
  unfolding post_data token_read http_post lit
  requested code codes =
      let response =
        http_post web (some (lit "https://login.microsoftonline.com/common/oauth2/v2.0/token"))
          (lit "application/x-www-form-urlencoded") (post_data code) in
      elim response [
        | none ↦ (codes, ok Retrieved.not_received)
        | some r ↦ token_read code codes (parse r.body)
      ]

  unfoldable pub get_tokens_from_microsoft : Bytes → Codes → Codes × Outcome Retrieved
  unfolding requested remove_expired find_key update_key
  get_tokens_from_microsoft code codes = elim (find_key code codes) [
    | none ↦ requested code (remove_expired web.steady_now codes)
    | some entry ↦ (
      update_key code (record entry { expires_at = web.steady_now + lifetime }) codes,
      ok (Retrieved.got (c_string entry.value)),
    )
  ]
