-- ===== src/Login.antt =====
-- What the handlers of appauth.cpp share: the globals of the program, and a request. What they write
-- to stderr is left out, `OPTION_NOREDIRECTS` and `DO_DEBUG_STUFF` are not defined, allocations are
-- taken to succeed, and the C string of an empty dynamic string is the empty one.
pub mod Tokens
pub mod Pages
pub mod Context
pub mod Post
pub mod Decision
pub mod Code
pub mod Get
pub mod Logout
pub mod Dispatch
pub mod Steady
pub mod Program
use fcgijwtauth.Base.{ℕ, Option, none, some, List, Bytes}
use fcgijwtauth.Outcome.{Outcome}
use fcgijwtauth.Library.{Library}
use fcgijwtauth.Jwks.Store.{Manager}
use fcgijwtauth.Template.{Engine}
use fcgijwtauth.Form.Upload.{PostRequest}

-- `TimedJWTEntry`, with the time in nanoseconds.
pub record TimedEntry : Type 0 where
  pub value : Bytes
  pub expires_at : ℕ

-- `g_codes_to_jwts`.
abbrev pub Codes : Type 0
Codes = List (Bytes × TimedEntry)

-- `g_store_man`, `g_codes_to_jwts`, `application_login_page` and `application_logout_page`.
pub record Server (lib : Library) : Type 0 where
  pub store_man : Manager lib
  pub codes : Codes
  pub login_page : Engine
  pub logout_page : Engine

abbrev pub with_store : {lib : Library} → Manager lib → Server lib → Server lib
with_store store_man server = record server { store_man = store_man }

-- `FCGX_GetParam` of the environment of a request, and what can be read of its input.
pub record Request : Type 0 where
  pub get_param : Bytes → Option Bytes
  pub input : Bytes
