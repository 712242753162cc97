-- ===== src/Login/Dispatch.antt =====
-- `appauth_process_request`: which handler a request goes to.
pub mod Handlers
pub mod Finished
use fcgijwtauth.Base.{
  ℕ, Option, none, some, List, [], ◌∷◌, Bool, true, false, ◌&&◌, ◌||◌, if◌then◌else◌, Bytes, lit,
  bytes_eq,
}
use fcgijwtauth.Outcome.{Outcome, ok, throws, undefined, ◌>>=◌}
use fcgijwtauth.Library.{Library}
use fcgijwtauth.Web.{Web, Config}
use fcgijwtauth.Jwks.Store.{Manager}
use fcgijwtauth.UserContext.{JwtUserContext}
use fcgijwtauth.Auth.Request.{process_verification_request}
use fcgijwtauth.Form.Upload.{MimeDecoder}
use fcgijwtauth.Fcgi.{Event}
use fcgijwtauth.Login.{Server, Request, with_store}
use fcgijwtauth.Login.Context.{RequestContext, fcgx_prepare_request_context}
use fcgijwtauth.Login.Post.{process_login_page_post}
use fcgijwtauth.Login.Code.{process_code_response}
use fcgijwtauth.Login.Get.{
  process_login_page_get, process_direct_token_auth_request, process_debug_token_auth_request,
}
use fcgijwtauth.Login.Logout.{process_logout_request}

-- Where nothing matched, and the answer to HEAD.
unfoldable pub not_found : List Event
unfolding lit
not_found =
    Event.put (lit "Status: 404\r\nContent-Type: text/html; charset=utf-8\r\n\r\n")
    ∷ Event.finish
    ∷ []

unfoldable pub head_answer : List Event
unfolding lit
head_answer =
    Event.put (lit "Status: 403\r\nContent-Type: text/html; charset=utf-8\r\n\r\n")
    ∷ Event.finish
    ∷ []

module _ (lib : Library) (web : Web) (config : Config) (hook : Option (JwtUserContext → ℕ))
    (decoder : MimeDecoder web) where
  abbrev pub kept_store : Server lib → Option (Manager lib) → Server lib
  kept_store server none = server
  kept_store server (some store_man) = with_store store_man server

  abbrev pub verify_request : RequestContext web → Server lib → Server lib × Outcome (List Event)
  verify_request req_ctx server =
      let (store_man, events) =
        process_verification_request lib hook server.store_man req_ctx.cookies in
      (kept_store server store_man, events)

  unfoldable pub dispatch_post :
      Request → Bytes → RequestContext web → Server lib → Server lib × Outcome (List Event)
  unfolding process_login_page_post process_logout_request process_verification_request not_found
      lit bytes_eq
  dispatch_post req path_info req_ctx server =
      if bytes_eq path_info (lit "login")
      then (server, process_login_page_post web config decoder req)
      else if bytes_eq path_info (lit "microsoft/logout")
      then (server, ok (process_logout_request web req_ctx server))
      else if bytes_eq path_info (lit "verify")
      then verify_request req_ctx server
      else (server, ok not_found)

  unfoldable pub dispatch_get :
      Bytes → RequestContext web → Server lib → Server lib × Outcome (List Event)
  unfolding process_code_response process_logout_request process_verification_request
      process_direct_token_auth_request process_debug_token_auth_request not_found lit bytes_eq
  dispatch_get path_info req_ctx server =
      if bytes_eq path_info (lit "microsoft")
      then process_code_response lib web config req_ctx server
      else if bytes_eq path_info (lit "microsoft/logout")
      then (server, ok (process_logout_request web req_ctx server))
      else if bytes_eq path_info (lit "verify")
      then verify_request req_ctx server
      else if bytes_eq path_info (lit "direct")
      then process_direct_token_auth_request lib web req_ctx server
      else if bytes_eq path_info (lit "debug")
      then (server, process_debug_token_auth_request lib web req_ctx)
      else if bytes_eq path_info (lit "logout")
      then (server, ok (process_logout_request web req_ctx server))
      else (server, ok not_found)

  -- Behind the preparation of the context.
  unfoldable pub dispatch :
      Request → Bytes → Bytes → RequestContext web → Server lib → Server lib × Outcome (List Event)
  unfolding dispatch_post dispatch_get not_found head_answer lit bytes_eq
  dispatch req request_method path_info req_ctx server =
      if bytes_eq request_method (lit "POST")
      then dispatch_post req path_info req_ctx server
      else if bytes_eq request_method (lit "GET")
      then dispatch_get path_info req_ctx server
      else if bytes_eq request_method (lit "HEAD")
      then (server, ok head_answer)
      else (server, ok not_found)

  unfoldable pub prepared : Request → Bytes → Bytes → Server lib → Server lib × Outcome (List Event)
  unfolding fcgx_prepare_request_context dispatch
  prepared req request_method path_info server = elim (fcgx_prepare_request_context web req) [
    | ok req_ctx ↦ dispatch req request_method path_info req_ctx server
    | throws e ↦ (server, throws e)
    | undefined ↦ (server, undefined)
  ]

  -- `strcmp` of a null pointer is undefined. `path_info` is compared with "login" for a GET before
  -- the context is prepared, which a null `path_info` does not outlive.
  unfoldable pub routed :
      Request → Option Bytes → Option Bytes → Server lib → Server lib × Outcome (List Event)
  unfolding process_login_page_get prepared lit bytes_eq
  routed req (some request_method) (some path_info) server =
      if bytes_eq request_method (lit "GET") && bytes_eq path_info (lit "login")
      then process_login_page_get lib req (req.get_param (lit "QUERY_STRING")) server
      else prepared req request_method path_info server
  routed req _ _ server = (server, undefined)

  unfoldable pub appauth_process_request : Request → Server lib → Server lib × Outcome (List Event)
  unfolding routed lit
  appauth_process_request req server =
      routed req (req.get_param (lit "REQUEST_METHOD")) (req.get_param (lit "PATH_INFO")) server
