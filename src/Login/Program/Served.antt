-- ===== src/Login/Program/Served.antt =====
-- The server after any number of requests.
use fcgijwtauth.Base.{ℕ, ◌≡◌, ap, sym, ◌∙◌, Option, List, [], ◌∷◌, lit, inl, inr}
use fcgijwtauth.Outcome.{ok, >>=-eq-ok, Outcome-cases}
use fcgijwtauth.Library.{Library}
use fcgijwtauth.Web.{Config}
use fcgijwtauth.UserContext.{JwtUserContext}
use fcgijwtauth.Jwks.Store.{update_key, Store}
use fcgijwtauth.Jwks.Keys.{keys, Distinct, keys-update_key}
use fcgijwtauth.Jwks.Manager.{new_store, get_or_create_store}
use fcgijwtauth.Login.{Server, with_store}
use fcgijwtauth.Login.Pages.{page_from, new_server}
use fcgijwtauth.Login.Steady.Reach.{Reach, here, request, Reach-Steady}
use fcgijwtauth.Login.Dispatch.{appauth_process_request}
use fcgijwtauth.Login.Program.{microsoft_store, start_up, Visit, serve}

-- The loop makes steps of `Reach`.
serve-Reach :
    (lib : Library) (config : Config) (hook : Option (JwtUserContext → ℕ)) (visits : List Visit)
    (start server : Server lib)
    → Reach lib config hook start server
    → Reach lib config hook start (serve lib config hook visits server).0
unfolding serve
serve-Reach lib config hook [] start server h = h
serve-Reach lib config hook (visit ∷ visits) start server h =
    let next = request visit.web visit.decoder visit.request h in
    let answered =
      appauth_process_request lib visit.web config hook visit.decoder visit.request server in
    elim (Outcome-cases answered.1) [
      | inl (events, m) ↦ rw (m, serve) (serve-Reach lib config hook visits start answered.0 next)
      | inr (inl (e, m)) ↦ rw (m, serve) next
      | inr (inr m) ↦ rw (m, serve) next
    ]

eq_of_ok {ℓ} : {A : Type ℓ} {a b : A} → ok a ≡ ok b → a ≡ b
eq_of_ok e = cc e

new_server-empty :
    (lib : Library) (config : Config) {server : Server lib}
    → new_server lib config ≡ ok server
    → (server.store_man ≡ []) × (server.codes ≡ [])
unfolding new_server
new_server-empty lib config e =
    let (login_page, e', _) = >>=-eq-ok _ (page_from lib (lit "htdocs/login_template.html")) e in
    let (logout_page, e'', _) =
      >>=-eq-ok _ (page_from lib (lit "htdocs/logout_template.html")) e' in
    (cc e'', cc e'')

created_keys :
    (lib : Library) (store : Store lib)
    → keys (update_key (lit "microsoft") store (get_or_create_store lib (lit "microsoft") []))
      ≡ lit "microsoft" ∷ []
unfolding get_or_create_store
created_keys lib store =
    keys-update_key (lit "microsoft") store (get_or_create_store lib (lit "microsoft") [])

-- A server that has started has the one store, and no code yet.
start_up-keys :
    (lib : Library) (config : Config) {server : Server lib}
    → start_up lib config ≡ ok server
    → (keys server.store_man ≡ lit "microsoft" ∷ []) × (server.codes ≡ [])
unfolding start_up
start_up-keys lib config {server = server} e =
    let (fresh, e', made) = >>=-eq-ok _ (new_server lib config) e in
    let (store, e'', _) = >>=-eq-ok _ (microsoft_store lib (new_store lib)) e' in
    let (no_store, no_code) = new_server-empty lib config made in
    let same : server
        ≡ with_store
            (update_key (lit "microsoft") store
              (get_or_create_store lib (lit "microsoft") fresh.store_man))
            fresh =
      sym (eq_of_ok e'') in
    (
      ap (λ (s : Server lib). keys s.store_man) same
          ∙ ap
              (λ m.
                keys (
                  update_key (lit "microsoft") store (get_or_create_store lib (lit "microsoft") m)))
              no_store
          ∙ created_keys lib store,
      ap (λ (s : Server lib). s.codes) same ∙ no_code,
    )

-- However many requests a started program serves, whatever they are and whatever the steady clock
-- and the identity provider say meanwhile, it has the one store "microsoft", the two templates that
-- it started with, and no code with two tokens.
pub serve-start_up :
    (lib : Library) (config : Config) (hook : Option (JwtUserContext → ℕ)) (visits : List Visit)
    {server : Server lib}
    → start_up lib config ≡ ok server
    → (keys (serve lib config hook visits server).0.store_man ≡ lit "microsoft" ∷ [])
      × ((serve lib config hook visits server).0.login_page ≡ server.login_page)
      × ((serve lib config hook visits server).0.logout_page ≡ server.logout_page)
      × Distinct (serve lib config hook visits server).0.codes
serve-start_up lib config hook visits {server = server} e =
    let (issuers, no_code) = start_up-keys lib config e in
    let (login, logout, same_issuers, distinct) =
      Reach-Steady lib config hook server (serve lib config hook visits server).0
        (serve-Reach lib config hook visits server server here) (rw no_code tt) in
    (same_issuers ∙ issuers, login, logout, distinct)
