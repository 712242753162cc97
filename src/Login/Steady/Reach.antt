-- ===== src/Login/Steady/Reach.antt =====
-- Sequences of requests: each is answered by `appauth_process_request` in the state that the one before
-- has left, and finds the clock, the provider and the encoders as they are by then.

use fcgijwtauth.Base.{ℕ, ◌≡◌, refl, ◌∙◌, Option}
use fcgijwtauth.Library.{Library}
use fcgijwtauth.Web.{Web, Config}
use fcgijwtauth.UserContext.{JwtUserContext}
use fcgijwtauth.Form.Upload.{MimeDecoder}
use fcgijwtauth.Jwks.Keys.{keys, Distinct}
use fcgijwtauth.Login.{Server, Request}
use fcgijwtauth.Login.Dispatch.{appauth_process_request}
use fcgijwtauth.Login.Steady.Dispatch.{appauth_process_request-Steady}

pub data Reach (lib : Library) (config : Config) (hook : Option (JwtUserContext → ℕ))
    (start : Server lib) : Server lib → Type 1 where
  here : Reach lib config hook start start
  request :
      {server : Server lib} (web : Web) (decoder : MimeDecoder web) (req : Request)
      → Reach lib config hook start server
      → Reach lib config hook start
          (appauth_process_request lib web config hook decoder req server).0

-- However many requests have come, whatever they were and whatever the clock and the provider did
-- meanwhile, the server has the two templates and the stores of the issuers that it was started with,
-- and no code has two tokens if none had at the start.
pub Reach-Steady :
    (lib : Library) (config : Config) (hook : Option (JwtUserContext → ℕ))
    (start server : Server lib)
    → Reach lib config hook start server
    → Distinct start.codes
    → (server.login_page ≡ start.login_page)
      × (server.logout_page ≡ start.logout_page)
      × (keys server.store_man ≡ keys start.store_man)
      × Distinct server.codes
Reach-Steady lib config hook start server here h = (refl, refl, refl, h)
Reach-Steady lib config hook start server (request {server = before} web decoder req past) h =
    let (login, logout, issuers, distinct) = Reach-Steady lib config hook start before past h in
    let kept = appauth_process_request-Steady lib web config hook decoder req before in
    (
      kept.login_page ∙ login,
      kept.logout_page ∙ logout,
      kept.issuers ∙ issuers,
      kept.distinct distinct,
    )
