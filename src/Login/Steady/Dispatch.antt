-- ===== src/Login/Steady/Dispatch.antt =====
-- What the dispatch keeps, and with it a request.
use fcgijwtauth.Base.{ℕ, ◌&&◌, Option, none, some, List, Bytes, bytes_eq, lit, inl, inr}
use fcgijwtauth.Outcome.{Outcome, Outcome-cases}
use fcgijwtauth.Library.{Library}
use fcgijwtauth.Web.{Web, Config}
use fcgijwtauth.UserContext.{JwtUserContext}
use fcgijwtauth.Auth.{authenticated, application_verify_jwt_authentication, or_empty}
use fcgijwtauth.Auth.Request.{process_verification_request}
use fcgijwtauth.Cookies.{get_cookie}
use fcgijwtauth.Form.Upload.{MimeDecoder}
use fcgijwtauth.Fcgi.{Event}
use fcgijwtauth.Login.{Server, Request}
use fcgijwtauth.Login.Context.{RequestContext, fcgx_prepare_request_context}
use fcgijwtauth.Login.Code.{process_code_response}
use fcgijwtauth.Login.Get.{process_login_page_get}
use fcgijwtauth.Login.Dispatch.{
  verify_request, dispatch_post, dispatch_get, dispatch, prepared, routed, appauth_process_request,
}
use fcgijwtauth.Login.Dispatch.Handlers.{if_both}
use fcgijwtauth.Login.Steady.Handlers.{
  Steady, same, verified, already_authenticated-Steady, direct-Steady, code_decision-Steady,
}

module _ (lib : Library) where
  module _ (web : Web) (config : Config) where
    verify_request-Steady :
        (hook : Option (JwtUserContext → ℕ)) (decoder : MimeDecoder web)
        (req_ctx : RequestContext web) (server : Server lib)
        → Steady lib server (verify_request lib web config hook decoder req_ctx server).0
    unfolding process_verification_request application_verify_jwt_authentication authenticated
    verify_request-Steady hook decoder req_ctx server =
        verified lib server (or_empty (get_cookie req_ctx.cookies (lit "auth") 0))

    module _ (hook : Option (JwtUserContext → ℕ)) (decoder : MimeDecoder web) where
      -- The server behind a call is kept by it.
      abbrev Keeps : Server lib → Server lib × Outcome (List Event) → Type 0
      Keeps server call = Steady lib server call.0

      dispatch_post-Steady :
          (req : Request) (path_info : Bytes) (req_ctx : RequestContext web) (server : Server lib)
          → Keeps server (dispatch_post lib web config hook decoder req path_info req_ctx server)
      unfolding dispatch_post
      dispatch_post-Steady req path_info req_ctx server =
          if_both (Keeps server) (bytes_eq path_info (lit "login")) _ _ (same lib server) (
            if_both (Keeps server) (bytes_eq path_info (lit "microsoft/logout")) _ _
              (same lib server)
              (if_both (Keeps server) (bytes_eq path_info (lit "verify")) _ _
                (verify_request-Steady hook decoder req_ctx server) (same lib server)))

      dispatch_get-Steady :
          (path_info : Bytes) (req_ctx : RequestContext web) (server : Server lib)
          → Keeps server (dispatch_get lib web config hook decoder path_info req_ctx server)
      unfolding dispatch_get process_code_response
      dispatch_get-Steady path_info req_ctx server =
          if_both (Keeps server) (bytes_eq path_info (lit "microsoft")) _ _
            (code_decision-Steady lib web config req_ctx server)
            (if_both (Keeps server) (bytes_eq path_info (lit "microsoft/logout")) _ _
              (same lib server)
              (if_both (Keeps server) (bytes_eq path_info (lit "verify")) _ _
                (verify_request-Steady hook decoder req_ctx server)
                (if_both (Keeps server) (bytes_eq path_info (lit "direct")) _ _
                  (direct-Steady lib web config req_ctx server)
                  (if_both (Keeps server) (bytes_eq path_info (lit "debug")) _ _ (same lib server) (
                    if_both (Keeps server) (bytes_eq path_info (lit "logout")) _ _ (same lib server)
                      (same lib server))))))

      dispatch-Steady :
          (req : Request) (request_method path_info : Bytes) (req_ctx : RequestContext web)
          (server : Server lib)
          → Keeps server
              (dispatch lib web config hook decoder req request_method path_info req_ctx server)
      unfolding dispatch
      dispatch-Steady req request_method path_info req_ctx server =
          if_both (Keeps server) (bytes_eq request_method (lit "POST")) _ _
            (dispatch_post-Steady req path_info req_ctx server)
            (if_both (Keeps server) (bytes_eq request_method (lit "GET")) _ _
              (dispatch_get-Steady path_info req_ctx server)
              (if_both (Keeps server) (bytes_eq request_method (lit "HEAD")) _ _ (same lib server)
                (same lib server)))

      prepared-Steady :
          (req : Request) (request_method path_info : Bytes) (server : Server lib)
          → Keeps server (prepared lib web config hook decoder req request_method path_info server)
      unfolding prepared
      prepared-Steady req request_method path_info server =
          elim (Outcome-cases (fcgx_prepare_request_context web req)) [
            | inl (req_ctx, m) ↦
                rw (m, prepared) (dispatch-Steady req request_method path_info req_ctx server)
            | inr (inl (e, m)) ↦ rw (m, prepared) (same lib server)
            | inr (inr m) ↦ rw (m, prepared) (same lib server)
          ]

      routed-Steady :
          (req : Request) (request_method path_info : Option Bytes) (server : Server lib)
          → Keeps server (routed lib web config hook decoder req request_method path_info server)
      unfolding routed process_login_page_get
      routed-Steady req none path_info server = same lib server
      routed-Steady req (some request_method) none server = same lib server
      routed-Steady req (some request_method) (some path_info) server =
          if_both (Keeps server)
            (bytes_eq request_method (lit "GET") && bytes_eq path_info (lit "login")) _ _
            (already_authenticated-Steady lib (req.get_param (lit "HTTP_COOKIE"))
              (req.get_param (lit "HTTP_AUTHORIZATION")) server)
            (prepared-Steady req request_method path_info server)

      pub appauth_process_request-Steady :
          (req : Request) (server : Server lib)
          → Steady lib server (appauth_process_request lib web config hook decoder req server).0
      unfolding appauth_process_request
      appauth_process_request-Steady req server =
          routed-Steady req (req.get_param (lit "REQUEST_METHOD")) (req.get_param (lit "PATH_INFO"))
            server
