-- ===== src/Login/Program.antt =====
-- auth.cpp: how the program starts, and the loop in which it serves requests. The database, which
-- nothing of the login reads, is left out.
pub mod Served
use fcgijwtauth.Base.{ℕ, ◌*◌, Option, none, some, List, [], ◌∷◌, Bytes, lit}
use fcgijwtauth.Outcome.{Outcome, ok, throws, undefined, ◌>>=◌}
use fcgijwtauth.Library.{Library}
use fcgijwtauth.Web.{Web, Config}
use fcgijwtauth.UserContext.{JwtUserContext}
use fcgijwtauth.Jwks.Store.{
  find_key, update_key, Store, Manager, second, or_zero, fetch_jwks_json,
  add_jwks_verifiers_from_string,
}
use fcgijwtauth.Jwks.Manager.{new_store, get_or_create_store}
use fcgijwtauth.Form.Upload.{MimeDecoder}
use fcgijwtauth.Fcgi.{Event}
use fcgijwtauth.Login.{Server, Request, with_store}
use fcgijwtauth.Login.Pages.{new_server}
use fcgijwtauth.Login.Dispatch.{appauth_process_request}

module _ (lib : Library) where
  -- The store with its file and its URL, before the file is read.
  unfoldable pub configured : Store lib → Store lib
  unfolding lit
  configured store = record store {
    backing_file = lit "./conf/microsoft.jwks.json";
    src_url = lit "https://login.microsoftonline.com/common/discovery/v2.0/keys";
  }

  -- Behind the reading of the file. Whether keys were added is not looked at; what is thrown ends the
  -- program.
  unfoldable pub filled : Store lib → Bytes × Option ℕ → Outcome (Store lib)
  unfolding add_jwks_verifiers_from_string
  filled store (jwks_string, last_time) =
      let (store', added) = add_jwks_verifiers_from_string lib jwks_string store in
      added >>= λ _. ok (record store' { last_fetch_time = or_zero lib last_time * second })

  unfoldable pub microsoft_store : Store lib → Outcome (Store lib)
  unfolding configured filled fetch_jwks_json lit
  microsoft_store store =
      fetch_jwks_json lib (lit "./conf/microsoft.jwks.json") >>= filled (configured store)

  -- The pointer that `get_or_create_store` returns shows the new store of a manager without stores.
  unfoldable pub start_up : Config → Outcome (Server lib)
  unfolding get_or_create_store microsoft_store new_server update_key lit
  start_up config = do
    server ← new_server lib config
    store ← microsoft_store (new_store lib)
    ok (
        with_store
          (update_key (lit "microsoft") store
            (get_or_create_store lib (lit "microsoft") server.store_man))
          server)

-- A request that is accepted, with what the identity provider, the steady clock and the decoder say by
-- then. The key sets, the files and the system clock are those of the start.
pub record Visit : Type 1 where
  pub web : Web
  pub decoder : MimeDecoder web
  pub request : Request

module _ (lib : Library) (config : Config) (hook : Option (JwtUserContext → ℕ)) where
  -- The loop, up to the last request that is accepted; what a handler throws ends the program.
  unfoldable pub serve : List Visit → Server lib → Server lib × Outcome (List (List Event))
  unfolding appauth_process_request
  serve [] server = (server, ok [])
  serve (visit ∷ visits) server =
      let (server', answered) =
        appauth_process_request lib visit.web config hook visit.decoder visit.request server in
      let (server'', rest) = serve visits server' in
      elim answered [
        | ok events ↦ (server'', rest >>= λ later. ok (events ∷ later))
        | throws e ↦ (server', throws e)
        | undefined ↦ (server', undefined)
      ]
