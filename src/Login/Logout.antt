-- ===== src/Login/Logout.antt =====
-- `process_logout_request`.
pub mod Removed
use fcgijwtauth.Base.{
  Option, none, some, List, [], ◌∷◌, ◌++◌, Bool, true, false, if◌then◌else◌, Bytes, lit, bytes_eq,
  concat,
}
use fcgijwtauth.Library.{Library}
use fcgijwtauth.Web.{Web}
use fcgijwtauth.Template.{of_text, set_variable, render}
use fcgijwtauth.Cookies.{Cookie, Jar, string_at}
use fcgijwtauth.Fcgi.{Event}
use fcgijwtauth.Login.{Server}
use fcgijwtauth.Login.Context.{RequestContext}
use fcgijwtauth.Login.Pages.{logout_page_content}

module _ (web : Web) where
  -- The line that removes a cookie of this name.
  unfoldable pub removal : Bytes → Bytes
  unfolding lit bytes_eq
  removal name = concat (
      lit "Set-Cookie: "
      ∷ web.html_encode name
      ∷ lit "=; Path=/; Max-Age=0; Expires=Thu, 01 Jan 1970 00:00:00 GMT; "
      ∷ (if bytes_eq name (lit "auth") then lit "Secure; HttpOnly; SameSite=Lax" else [])
      ∷ lit "\r\n"
      ∷ [])

  unfoldable pub removals_from : Bytes → List Cookie → Bytes
  unfolding removal
  removals_from header [] = []
  removals_from header (c ∷ cookies) =
      removal (string_at header c.name) ++ removals_from header cookies

  unfoldable pub removals : Option Jar → Bytes
  unfolding removals_from
  removals none = []
  removals (some jar) = removals_from jar.header jar.cookies

  unfoldable pub header_content : Option Jar → Bytes
  unfolding removals lit
  header_content cookies =
      lit "Status: 200\r\n"
      ++ (removals cookies
          ++ lit "Cache-Control: no-cache\r\nContent-Type: text/html; charset=utf-8\r\n\r\n")

  unfoldable pub final_logout_page : {lib : Library} → Server lib → Bytes
  unfolding logout_page_content set_variable render lit
  final_logout_page server = render true (
      set_variable (lit "APPLICATION_SERVICEPROVIDER_LOGOUT_URL")
        (lit
          "https://login.microsoftonline.com/common/oauth2/v2.0/logout?post_logout_redirect_uri=https%3A%2F%2Fportal.stockval.co.uk%2Fauth%2Fmicrosoft%2Flogout")
        (of_text (logout_page_content server)))

  unfoldable pub process_logout_request :
      {lib : Library} → RequestContext web → Server lib → List Event
  unfolding header_content final_logout_page
  process_logout_request req_ctx server =
      Event.put (header_content req_ctx.cookies)
      ∷ Event.put (final_logout_page server)
      ∷ Event.close
      ∷ Event.finish
      ∷ []
