-- ===== src/Login/Pages.antt =====
-- application.cpp: the two pages that are made of templates.
use fcgijwtauth.Base.{true, none, some, [], Bytes, lit}
use fcgijwtauth.Outcome.{Outcome, ok, undefined, ◌>>=◌}
use fcgijwtauth.Library.{Library}
use fcgijwtauth.Web.{Config}
use fcgijwtauth.Template.{Engine, from_file, set_variable, render}
use fcgijwtauth.Login.{Server}

-- `*TemplateEngine::FromFile(name)`
abbrev pub page_from : Library → Bytes → Outcome Engine
page_from lib filename = elim (from_file lib filename) [ none ↦ undefined | some page ↦ ok page ]

-- The variables that `application_template_init` sets in each of the pages.
unfoldable pub template_init : Config → Engine → Engine
unfolding set_variable lit
template_init config page =
    set_variable (lit "APPLICATION_APPLICATION_LOGO_DARK") config.logo_dark (
      set_variable (lit "APPLICATION_APPLICATION_LOGO_LIGHT") config.logo_light (
        set_variable (lit "PRIVACY_POLICY_URL") config.privacy_policy_url (
          set_variable (lit "APPLICATION_NAME") config.application_name
            (set_variable (lit "WELCOME_TO_COMPANY_NAME") config.welcome_to_company_name page))))

-- The globals as they are set up: no store and no code.
unfoldable pub new_server : (lib : Library) → Config → Outcome (Server lib)
unfolding template_init from_file lit
new_server lib config = do
  login_page ← page_from lib (lit "htdocs/login_template.html")
  logout_page ← page_from lib (lit "htdocs/logout_template.html")
  ok (record {
    store_man = [];
    codes = [];
    login_page = template_init config login_page;
    logout_page = template_init config logout_page;
  })

unfoldable pub login_page_content : {lib : Library} → Server lib → Bytes
unfolding render
login_page_content server = render true server.login_page

unfoldable pub logout_page_content : {lib : Library} → Server lib → Bytes
unfolding render
logout_page_content server = render true server.logout_page
