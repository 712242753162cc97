-- ===== src/Login/Dispatch/Handlers.antt =====
-- Each handler ends the request that it is called for.
use fcgijwtauth.Base.{
  ℕ, ◌*◌, ◌≡◌, refl, ◌⊎◌, inl, inr, Bool, true, false, Option, none, some, List, [], ◌∷◌,
  if◌then◌else◌, Bytes, lit, is_nil, Option-cases,
}
use fcgijwtauth.Outcome.{Outcome, ok, throws, undefined, ◌>>=◌, Outcome-cases}
use fcgijwtauth.Library.{Library}
use fcgijwtauth.Web.{Web, Config}
use fcgijwtauth.UserContext.{JwtUserContext}
use fcgijwtauth.Auth.{
  application_verify_jwt_authentication, verify_jwks_authentication_jwt, or_empty,
}
use fcgijwtauth.Auth.Request.{process_verification_request, verification_answer}
use fcgijwtauth.Cookies.{get_cookie}
use fcgijwtauth.Form.Upload.{MimeDecoder, decode_request}
use fcgijwtauth.Form.{Form, get_field}
use fcgijwtauth.Fcgi.{Event, put, flush, close, finish}
use fcgijwtauth.Login.{Server, Request}
use fcgijwtauth.Login.Context.{RequestContext}
use fcgijwtauth.Login.Post.{post_request, form_answer, is_microsoft, process_login_page_post}
use fcgijwtauth.Login.Code.{process_code_response, code_decision, jwt_content_of}
use fcgijwtauth.Login.Get.{
  already_authenticated, login_events, process_login_page_get, process_direct_token_auth_request,
  process_debug_token_auth_request,
}
use fcgijwtauth.Login.Logout.{process_logout_request}
use fcgijwtauth.Login.Dispatch.{verify_request}

-- One `finish`, and nothing behind it.
unfoldable pub ends_once : List Event → Bool
ends_once [] = false
ends_once (finish ∷ events) = is_nil events
ends_once (put text ∷ events) = ends_once events
ends_once (flush ∷ events) = ends_once events
ends_once (close ∷ events) = ends_once events

-- A call that returns has ended the request.
abbrev pub Ends : Outcome (List Event) → Type 0
Ends (ok events) = ends_once events ≡ true
Ends (throws e) = Unit
Ends undefined = Unit

pub Ends->>= {ℓ} :
    {A : Type ℓ} (events : A → List Event) (call : Outcome A)
    → ((a : A) → ends_once (events a) ≡ true)
    → Ends (call >>= λ a. ok (events a))
Ends->>= events (ok a) h = h a
Ends->>= events (throws e) h = tt
Ends->>= events undefined h = tt

pub if_both {ℓ κ} :
    {A : Type ℓ} (P : A → Type κ) (b : Bool) (x y : A) → P x → P y → P (if b then x else y)
if_both P true x y h k = h
if_both P false x y h k = k

module _ (lib : Library) (web : Web) (config : Config) where
  pub process_code_response-Ends :
      (req_ctx : RequestContext web) (server : Server lib)
      → Ends (process_code_response lib web config req_ctx server).1
  unfolding process_code_response ends_once
  process_code_response-Ends req_ctx server =
      Ends->>= _ (code_decision lib web config req_ctx server).1 (λ d. refl)

  pub process_direct-Ends :
      (req_ctx : RequestContext web) (server : Server lib)
      → Ends (process_direct_token_auth_request lib web req_ctx server).1
  unfolding process_direct_token_auth_request ends_once
  process_direct-Ends req_ctx server =
      elim (Option-cases (web.get_by_key req_ctx.qs (lit "token"))) [
        | inl m ↦ rw (m, process_direct_token_auth_request) refl
        | inr (jwtoken, m) ↦
            rw (m, process_direct_token_auth_request)
              (Ends->>= _ (verify_jwks_authentication_jwt lib server.store_man jwtoken).1
                (λ n. refl))
      ]

  pub process_debug-Ends :
      (req_ctx : RequestContext web) → Ends (process_debug_token_auth_request lib web req_ctx)
  unfolding process_debug_token_auth_request ends_once
  process_debug-Ends req_ctx =
      Ends->>= _ (jwt_content_of lib (or_empty (get_cookie req_ctx.cookies (lit "auth") 0)))
        (λ text. refl)

  login_events-ends_once :
      (first page : Bytes) (b : Bool) → ends_once (login_events first page b) ≡ true
  unfolding ends_once
  login_events-ends_once first page true = refl
  login_events-ends_once first page false = refl

  pub process_login_page_get-Ends :
      (req : Request) (query_string : Option Bytes) (server : Server lib)
      → Ends (process_login_page_get lib req query_string server).1
  unfolding process_login_page_get
  process_login_page_get-Ends req query_string server =
      Ends->>= _
        (already_authenticated lib (req.get_param (lit "HTTP_COOKIE"))
          (req.get_param (lit "HTTP_AUTHORIZATION")) server).1
        (λ b. login_events-ends_once _ _ b)

  pub process_logout_request-ends_once :
      (req_ctx : RequestContext web) (server : Server lib)
      → ends_once (process_logout_request web req_ctx server) ≡ true
  unfolding process_logout_request ends_once
  process_logout_request-ends_once req_ctx server = refl

  module _ (hook : Option (JwtUserContext → ℕ)) (decoder : MimeDecoder web) where
    verification_answer-ends_once :
        (hook : Option (JwtUserContext → ℕ)) (ctx : Option JwtUserContext)
        → ends_once (verification_answer hook ctx) ≡ true
    unfolding verification_answer ends_once
    verification_answer-ends_once hook none = refl
    verification_answer-ends_once none (some ctx) = refl
    verification_answer-ends_once (some h) (some ctx) = refl

    pub verify_request-Ends :
        (req_ctx : RequestContext web) (server : Server lib)
        → Ends (verify_request lib web config hook decoder req_ctx server).1
    unfolding process_verification_request
    verify_request-Ends req_ctx server =
        Ends->>= _
          (application_verify_jwt_authentication lib (some server.store_man) req_ctx.cookies).1
          (λ ctx. verification_answer-ends_once hook ctx)

    form_answer-ends_once : (form : Form web) → ends_once (form_answer web config form) ≡ true
    unfolding form_answer ends_once
    form_answer-ends_once form =
        if_both (λ events. ends_once events ≡ true)
          (is_microsoft (get_field web form (lit "provider"))) _ _ refl refl

    -- The one case in which a request is left open: a form that is not decoded.
    abbrev pub Unanswered : Request → Outcome (List Event) → Type 0
    Unanswered req call =
        (call ≡ ok []) × (decode_request web decoder (1024 * 1024) (post_request req) ≡ ok none)

    pub process_login_page_post-Ends :
        (req : Request)
        → Ends (process_login_page_post web config decoder req)
          ⊎ Unanswered req (process_login_page_post web config decoder req)
    unfolding process_login_page_post
    process_login_page_post-Ends req =
        elim (Outcome-cases (decode_request web decoder (1024 * 1024) (post_request req))) [
          | inl (none, m) ↦ rw (m, process_login_page_post) (inr (refl, refl))
          | inl (some form, m) ↦ rw (m, process_login_page_post) (inl (form_answer-ends_once form))
          | inr (inl (e, m)) ↦ rw (m, process_login_page_post) (inl tt)
          | inr (inr m) ↦ rw (m, process_login_page_post) (inl tt)
        ]

    -- A call that ends the request or leaves it open as above.
    abbrev pub Settles : Request → Server lib × Outcome (List Event) → Type 0
    Settles req call = Ends call.1 ⊎ Unanswered req call.1
