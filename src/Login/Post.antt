-- ===== src/Login/Post.antt =====
-- `process_login_page_post`: the choice of a provider, answered by a redirect to it.
use fcgijwtauth.Base.{
  ℕ, ◌*◌, Bool, false, ◌&&◌, Option, none, some, List, [], ◌∷◌, ◌++◌, ltb, ◌==◌, if◌then◌else◌,
  Bytes, lit, bytes_eq, take, concat,
}
use fcgijwtauth.Outcome.{Outcome, ok, ◌>>=◌}
use fcgijwtauth.Web.{Web, Config}
use fcgijwtauth.Cookies.{c_string}
use fcgijwtauth.State.{create_verifyable_string}
use fcgijwtauth.Form.{Form, get_field}
use fcgijwtauth.Form.Upload.{MimeDecoder, PostRequest, decode_request}
use fcgijwtauth.Fcgi.{Event}
use fcgijwtauth.Login.{Request}

-- The test of `res`, of the length and of the pointer, and `memcmp`.
unfoldable pub is_microsoft : Option (ℕ × Option Bytes) → Bool
unfolding lit bytes_eq
is_microsoft (some (provider_len, some provider)) =
    provider_len == 9 && bytes_eq (take 9 provider) (lit "microsoft")
is_microsoft _ = false

-- Where the login leads to: any text of more than four bytes that the form names.
unfoldable pub send_to_of : Option (ℕ × Option Bytes) → Bytes
unfolding lit
send_to_of (some (redirect_to_len, some redirect_to)) =
    if ltb 4 redirect_to_len then take redirect_to_len redirect_to else lit "/"
send_to_of _ = lit "/"

unfoldable pub bad_request_page : Bytes
unfolding lit
bad_request_page = concat (
    lit "Status: 400 Bad Request\r\nContent-Type: text/html; charset=utf-8\r\n\r\n"
    ∷ lit "<!DOCTYPE html>\r\n<html><head></head><body>\r\n<h1>400 Bad Request</h1>\r\n"
    ∷ lit "<p>Well, I don't know what that was supposed to be but I cannot process it.</p>\r\n"
    ∷ [])

-- The page that redirects to the provider at `redirect_uri`.
unfoldable pub redirect_page : Bytes → Bytes
unfolding lit
redirect_page redirect_uri = concat (
    lit "Status: 302\r\nContent-Type: text/html; charset=utf-8\r\nLocation: "
    ∷ redirect_uri
    ∷ lit "\r\n\r\n<!DOCTYPE html>\r\n<html>\r\n<head></head>\r\n<body>\r\n<p><a href=\""
    ∷ redirect_uri
    ∷ lit "\">Authenticate at Microsoft</a></p>\r\n<p>"
    ∷ redirect_uri
    ∷ lit "</p>\r\n</body>\r\n</html>\r\n"
    ∷ [])

-- What `formdecoder_decodefcgirequest` reads of a request.
unfoldable pub post_request : Request → PostRequest
unfolding lit
post_request req = record {
  request_method = req.get_param (lit "REQUEST_METHOD");
  content_type = req.get_param (lit "CONTENT_TYPE");
  input = req.input;
}

-- The calls behind each of the two pages.
abbrev pub finished : Bytes → List Event
finished text = Event.put text ∷ Event.finish ∷ []

module _ (web : Web) (config : Config) where
  -- The state that goes to the provider and comes back from it.
  unfoldable pub state_for : Bytes → Bytes
  unfolding create_verifyable_string c_string
  state_for send_to =
      create_verifyable_string config.client_secret (c_string (send_to ++ b'.' ∷ web.current_time))

  unfoldable pub authorize_url : Bytes → Bytes
  unfolding lit
  authorize_url verifyable_string = concat (
      lit "https://login.microsoftonline.com/common/oauth2/v2.0/authorize?client_id="
      ∷ config.client_id
      ∷ lit "&response_type=code&scope=openid%20profile%20email&redirect_uri="
      ∷ config.redirect_uri
      ∷ lit "&state="
      ∷ web.url_encode verifyable_string
      ∷ lit "&prompt=select_account"
      ∷ [])

  -- The answer to a form.
  unfoldable pub form_answer : Form web → List Event
  unfolding get_field is_microsoft send_to_of state_for authorize_url redirect_page bad_request_page
      lit
  form_answer form =
      if is_microsoft (get_field web form (lit "provider"))
      then finished (
          redirect_page
            (authorize_url (state_for (send_to_of (get_field web form (lit "redirect_to"))))))
      else finished bad_request_page

  -- A form that cannot be decoded is not answered at all.
  abbrev pub post_answer : Option (Form web) → List Event
  post_answer none = []
  post_answer (some form) = form_answer form

  unfoldable pub process_login_page_post : MimeDecoder web → Request → Outcome (List Event)
  unfolding decode_request form_answer post_request
  process_login_page_post decoder req =
      decode_request web decoder (1024 * 1024) (post_request req) >>= λ fd_ctx.
      ok (post_answer fd_ctx)
