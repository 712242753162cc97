-- ===== src/Login/Dispatch/Finished.antt =====
-- How a request ends.
use fcgijwtauth.Base.{ℕ, refl, inl, inr, ◌&&◌, Option, none, some, Bytes, lit, bytes_eq}
use fcgijwtauth.Outcome.{Outcome-cases}
use fcgijwtauth.Library.{Library}
use fcgijwtauth.Web.{Web, Config}
use fcgijwtauth.UserContext.{JwtUserContext}
use fcgijwtauth.Form.Upload.{MimeDecoder}
use fcgijwtauth.Login.{Server, Request}
use fcgijwtauth.Login.Context.{RequestContext, fcgx_prepare_request_context}
use fcgijwtauth.Login.Dispatch.{
  dispatch_post, dispatch_get, dispatch, prepared, routed, appauth_process_request,
}
use fcgijwtauth.Login.Dispatch.Handlers.{
  ends_once, if_both, Settles, process_code_response-Ends, process_direct-Ends, process_debug-Ends,
  process_login_page_get-Ends, process_logout_request-ends_once, verify_request-Ends,
  process_login_page_post-Ends,
}

module _ (lib : Library) (web : Web) (config : Config) (hook : Option (JwtUserContext → ℕ))
    (decoder : MimeDecoder web) where
  dispatch_post-Settles :
      (req : Request) (path_info : Bytes) (req_ctx : RequestContext web) (server : Server lib)
      → Settles lib web config hook decoder req
          (dispatch_post lib web config hook decoder req path_info req_ctx server)
  unfolding dispatch_post ends_once
  dispatch_post-Settles req path_info req_ctx server =
      if_both (Settles lib web config hook decoder req) (bytes_eq path_info (lit "login")) _ _
        (process_login_page_post-Ends lib web config hook decoder req)
        (if_both (Settles lib web config hook decoder req)
          (bytes_eq path_info (lit "microsoft/logout")) _ _
          (inl (process_logout_request-ends_once lib web config req_ctx server))
          (if_both (Settles lib web config hook decoder req) (bytes_eq path_info (lit "verify")) _ _
            (inl (verify_request-Ends lib web config hook decoder req_ctx server)) (inl refl)))

  dispatch_get-Settles :
      (req : Request) (path_info : Bytes) (req_ctx : RequestContext web) (server : Server lib)
      → Settles lib web config hook decoder req
          (dispatch_get lib web config hook decoder path_info req_ctx server)
  unfolding dispatch_get ends_once
  dispatch_get-Settles req path_info req_ctx server =
      if_both (Settles lib web config hook decoder req) (bytes_eq path_info (lit "microsoft")) _ _
        (inl (process_code_response-Ends lib web config req_ctx server))
        (if_both (Settles lib web config hook decoder req)
          (bytes_eq path_info (lit "microsoft/logout")) _ _
          (inl (process_logout_request-ends_once lib web config req_ctx server))
          (if_both (Settles lib web config hook decoder req) (bytes_eq path_info (lit "verify")) _ _
            (inl (verify_request-Ends lib web config hook decoder req_ctx server))
            (if_both (Settles lib web config hook decoder req) (bytes_eq path_info (lit "direct")) _
              _ (inl (process_direct-Ends lib web config req_ctx server))
              (if_both (Settles lib web config hook decoder req) (bytes_eq path_info (lit "debug"))
                _ _ (inl (process_debug-Ends lib web config req_ctx))
                (if_both (Settles lib web config hook decoder req)
                  (bytes_eq path_info (lit "logout")) _ _
                  (inl (process_logout_request-ends_once lib web config req_ctx server))
                  (inl refl))))))

  dispatch-Settles :
      (req : Request) (request_method path_info : Bytes) (req_ctx : RequestContext web)
      (server : Server lib)
      → Settles lib web config hook decoder req
          (dispatch lib web config hook decoder req request_method path_info req_ctx server)
  unfolding dispatch ends_once
  dispatch-Settles req request_method path_info req_ctx server =
      if_both (Settles lib web config hook decoder req) (bytes_eq request_method (lit "POST")) _ _
        (dispatch_post-Settles req path_info req_ctx server)
        (if_both (Settles lib web config hook decoder req) (bytes_eq request_method (lit "GET")) _ _
          (dispatch_get-Settles req path_info req_ctx server)
          (if_both (Settles lib web config hook decoder req) (bytes_eq request_method (lit "HEAD"))
            _ _ (inl refl) (inl refl)))

  prepared-Settles :
      (req : Request) (request_method path_info : Bytes) (server : Server lib)
      → Settles lib web config hook decoder req
          (prepared lib web config hook decoder req request_method path_info server)
  unfolding prepared
  prepared-Settles req request_method path_info server =
      elim (Outcome-cases (fcgx_prepare_request_context web req)) [
        | inl (req_ctx, m) ↦
            rw (m, prepared) (dispatch-Settles req request_method path_info req_ctx server)
        | inr (inl (e, m)) ↦ rw (m, prepared) (inl tt)
        | inr (inr m) ↦ rw (m, prepared) (inl tt)
      ]

  routed-Settles :
      (req : Request) (request_method path_info : Option Bytes) (server : Server lib)
      → Settles lib web config hook decoder req
          (routed lib web config hook decoder req request_method path_info server)
  unfolding routed
  routed-Settles req none path_info server = inl tt
  routed-Settles req (some request_method) none server = inl tt
  routed-Settles req (some request_method) (some path_info) server =
      if_both (Settles lib web config hook decoder req)
        (bytes_eq request_method (lit "GET") && bytes_eq path_info (lit "login")) _ _
        (inl (
          process_login_page_get-Ends lib web config req (req.get_param (lit "QUERY_STRING"))
            server))
        (prepared-Settles req request_method path_info server)

  -- Whatever the request, its method, its path and the state of the server, a call that returns has
  -- ended the request with `finish` once, as the last thing that it did; except for a form posted
  -- that is not decoded, where it did nothing to the request.
  pub appauth_process_request-Settles :
      (req : Request) (server : Server lib)
      → Settles lib web config hook decoder req
          (appauth_process_request lib web config hook decoder req server)
  unfolding appauth_process_request
  appauth_process_request-Settles req server =
      routed-Settles req (req.get_param (lit "REQUEST_METHOD")) (req.get_param (lit "PATH_INFO"))
        server
