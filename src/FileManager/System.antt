-- ===== src/FileManager/System.antt =====
-- What filemannospawn.cpp uses of the system, of libfcgi and of the SQLite wrapper, and how its `main`
-- ends.
use fcgijwtauth.Base.{ℕ, Bool, Option, List, Bytes}
use fcgijwtauth.Library.{Library}
use fcgijwtauth.Fcgi.{Event}
use fcgijwtauth.Login.{Request}
use fcgijwtauth.FileManager.{Data}

-- What `getopt_long` finds, one after the other; `unknown` is what it answers '?' to.
pub data Argument : Type 0 where
  user : Bytes → Argument
  group : Bytes → Argument
  no_drop : Argument
  unknown : Argument

-- The system, libfcgi and the SQLite wrapper. A call that fails, which the source sees by its result,
-- gives `false` or `none`; `State` is the state of the process and of the system around it.
pub record System : Type 1 where
  pub State : Type 0
  pub Db : Type 0
  -- The options of a command line, and what is left of it from `optind` on.
  pub getopt_long : List Bytes → List Argument × List Bytes
  pub geteuid : State → ℕ
  pub getegid : State → ℕ
  pub getpwnam : Bytes → State → Option ℕ
  pub getgrnam : Bytes → State → Option ℕ
  pub fcgx_init : State → Bool × State
  pub open_socket : Bytes → ℕ → State → Option ℕ × State
  pub chmod : Bytes → ℕ → State → Bool × State
  pub chown : Bytes → ℕ → ℕ → State → Bool × State
  pub initgroups : Bytes → ℕ → State → Bool × State
  pub setgid : ℕ → State → Bool × State
  pub setuid : ℕ → State → Bool × State
  pub close : ℕ → State → State
  pub file_exists : Bytes → State → Bool
  -- A connection, a statement that is executed, and the macro `INITDB_STATEMENTS`; where they throw,
  -- nothing catches it, and the program ends.
  pub connect : Bytes → State → Option (Db × State)
  pub execute : Db → Bytes → State → Option State
  pub initdb_statements : Db → State → Option State
  pub sigaction : Bytes → State → Bool × State
  pub init_request : ℕ → State → Bool × State
  -- `FCGX_Accept_r`, and whether a signal has come since it was last asked.
  pub accept : State → Option Request × State
  pub signalled : State → Bool × State
  -- What a request is served from, and the calls on the request.
  pub library : State → Library
  pub data_source : State → Data
  pub perform : List Event → State → State

-- How `main` ends. `running` stands for a run that was followed for some rounds of its loop only.
pub data Ending : Type 0 where
  exited : ℕ → Ending
  aborted undefined_behaviour running : Ending

abbrev pub exit_failure : ℕ
exit_failure = 1
