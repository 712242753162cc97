-- ===== src/FileManager/Setup.antt =====
-- filemannospawn.cpp up to its loop: the command line, the socket, the change of the user and the group,
-- the databases and the handlers. What it prints is left out.
pub mod Keeps
pub mod Ids
use fcgijwtauth.Base.{
  ℕ, Bool, true, false, Option, none, some, List, [], ◌∷◌, if◌then◌else◌, ◌==◌, ◌&&◌, not, Bytes,
  lit,
}
use fcgijwtauth.FileManager.System.{
  Argument, user, group, no_drop, unknown, System, Ending, exited, aborted, exit_failure,
}

-- The variables `username`, `groupname` and `drop_privileges`.
pub record Options : Type 0 where
  pub username : Option Bytes
  pub groupname : Option Bytes
  pub drop_privileges : Bool

-- The loop over the options; `none` is the return behind `usage`.
unfoldable pub read_options : List Argument → Options → Option Options
read_options [] options = some options
read_options (user name ∷ arguments) options =
    read_options arguments (record options { username = some name })
read_options (group name ∷ arguments) options =
    read_options arguments (record options { groupname = some name })
read_options (no_drop ∷ arguments) options =
    read_options arguments (record options { drop_privileges = false })
read_options (unknown ∷ arguments) options = none

-- Whom to run as: the caller still, or a user and a group.
pub data Target : Type 0 where
  caller : Target
  named : Bytes → Bytes → Target

-- The tests behind the loop.
unfoldable pub target_of : Options → Option Target
target_of options =
    if options.drop_privileges
    then (elim options.username [
      | none ↦ none
      | some username ↦ elim options.groupname [
        | none ↦ none
        | some groupname ↦ some (named username groupname)
      ]
    ])
    else some caller

-- The statements of `application_database_init`, and of `fileman_init`.
unfoldable pub missing_tables : List Bytes
unfolding lit
missing_tables =
    lit "DROP TABLE IF EXISTS users;"
    ∷ lit
        "CREATE TABLE IF NOT EXISTS users (username TEXT, groupid INT, PRIMARY KEY (username, groupid));"
    ∷ lit "DROP TABLE IF EXISTS groups;"
    ∷ lit "CREATE TABLE IF NOT EXISTS groups (groupid INT, groupname TEXT, PRIMARY KEY (groupid));"
    ∷ []

unfoldable pub new_tables : List Bytes
unfolding lit
new_tables =
    lit "DROP TABLE IF EXISTS users;"
    ∷ lit "CREATE TABLE users (username TEXT, groupid INT, PRIMARY KEY (username, groupid));"
    ∷ lit "DROP TABLE IF EXISTS groups;"
    ∷ lit "CREATE TABLE groups (groupid INT, groupname TEXT, PRIMARY KEY (groupid));"
    ∷ []

module _ (system : System) where
  open system use {
    State, Db, getopt_long, geteuid, getegid, getpwnam, getgrnam, fcgx_init, open_socket, chmod,
    chown, initgroups, setgid, setuid, close, file_exists, connect, execute, initdb_statements,
    sigaction, init_request, accept, signalled, library, data_source, perform,
  }

  -- The path that `argv[optind]` is and whom to run as, if the command line is right.
  unfoldable pub read_arguments : List Bytes → Option (Target × Bytes)
  unfolding read_options target_of
  read_arguments argv =
      let (arguments, rest) = getopt_long argv in
      let initial : Options = record {
        username = none;
        groupname = none;
        drop_privileges = true;
      } in
      elim (read_options arguments initial) [
        | none ↦ none
        | some options ↦ elim rest [
          | [] ↦ none
          | socket_path ∷ _ ↦ elim (target_of options) [
            | none ↦ none
            | some target ↦ some (target, socket_path)
          ]
        ]
      ]

  -- A part of `main`: it returns from `main` or goes on with a value.
  pub data Step (A : Type 0) : Type 0 where
    left : Ending → State → Step A
    went_on : A → State → Step A

  abbrev pub Part : Type 0 → Type 0
  Part A = State → Step A

  infixl 5 ◌>>=◌ ◌>>◌
  abbrev pub ◌>>=◌ : {A B : Type 0} → Part A → (A → Part B) → Part B
  ◌>>=◌ m f s = elim (m s) [ left ending t ↦ left ending t | went_on a t ↦ f a t ]

  abbrev pub ◌>>◌ : {B : Type 0} → Part (Unit {0}) → Part B → Part B
  m >> k = m >>= λ _. k

  abbrev pub pure : {A : Type 0} → A → Part A
  pure a s = went_on a s

  -- A call whose failure leads out of `main`, as it is, or behind `close(sock_fd)`.
  abbrev pub answer_of : {A : Type 0} → Option A × State → Step A
  answer_of (none, s) = left (exited exit_failure) s
  answer_of (some a, s) = went_on a s

  abbrev pub or_leave : Bool × State → Step (Unit {0})
  or_leave (true, s) = went_on tt s
  or_leave (false, s) = left (exited exit_failure) s

  abbrev pub or_close : ℕ → Bool × State → Step (Unit {0})
  or_close sock_fd (true, s) = went_on tt s
  or_close sock_fd (false, s) = left (exited exit_failure) (close sock_fd s)

  abbrev pub uncaught : {A : Type 0} → State → Option (A × State) → Step A
  uncaught s none = left aborted s
  uncaught s (some (a, t)) = went_on a t

  abbrev pub executed : Option State → Option (Unit {0} × State)
  executed none = none
  executed (some s) = some (tt, s)

  -- The target with its numbers.
  pub data Identity : Type 0 where
    same : Identity
    numbers : Bytes → ℕ → ℕ → Identity

  unfoldable pub look_up : Target → Part Identity
  look_up caller s = went_on same s
  look_up (named username groupname) s =
      let found : Step Identity = elim (getpwnam username s) [
        | none ↦ left (exited exit_failure) s
        | some target_uid ↦ elim (getgrnam groupname s) [
          | none ↦ left (exited exit_failure) s
          | some target_gid ↦ went_on (numbers username target_uid target_gid) s
        ]
      ] in
      if geteuid s == 0 then found else left (exited exit_failure) s

  -- `S_IRUSR | ... | S_IXOTH` is 0777.
  unfoldable pub opened : Bytes → Part ℕ
  opened socket_path = do
    λ s. or_leave (fcgx_init s)
    sock_fd ← λ s. answer_of (open_socket socket_path 32 s)
    λ s. or_leave (chmod socket_path 511 s)
    pure sock_fd

  -- The privileges are given up, and it is looked at whether they are.
  unfoldable pub drop_to : Bytes → ℕ → Identity → Part (Unit {0})
  drop_to socket_path sock_fd same = pure tt
  drop_to socket_path sock_fd (numbers username target_uid target_gid) = do
    λ s. or_close sock_fd (chown socket_path target_uid target_gid s)
    λ s. or_close sock_fd (initgroups username target_gid s)
    λ s. or_close sock_fd (setgid target_gid s)
    λ s. or_close sock_fd (setuid target_uid s)
    λ s. or_close sock_fd (geteuid s == target_uid && getegid s == target_gid, s)

  -- Statements one after the other.
  unfoldable pub execute_all : Db → List Bytes → Part (Unit {0})
  execute_all db [] = pure tt
  execute_all db (statement ∷ statements) =
      (λ s. uncaught s (executed (execute db statement s))) >> execute_all db statements

  unfoldable pub initialised : Bool → Db → Part (Unit {0})
  unfolding execute_all missing_tables
  initialised initialise_database db =
      let created : Part (Unit {0}) =
        execute_all db missing_tables >> λ s. uncaught s (executed (initdb_statements db s)) in
      if initialise_database then created else pure tt

  -- `application_database_init` (application.cpp).
  unfoldable pub application_database_init : Bytes → Part (Unit {0})
  unfolding initialised
  application_database_init db_filename s =
      let initialise_database = not (file_exists db_filename s) in
      ((λ t. uncaught t (connect db_filename t)) >>= initialised initialise_database) s

  -- `fileman_init` (appfileman.cpp).
  unfoldable pub fileman_init : Bytes → Part (Unit {0})
  unfolding execute_all new_tables
  fileman_init database_filename =
      (λ s. uncaught s (connect database_filename s)) >>= λ db. execute_all db new_tables

  unfoldable pub handlers_installed : ℕ → Part (Unit {0})
  unfolding lit
  handlers_installed sock_fd = do
    λ s. or_close sock_fd (sigaction (lit "SIGINT") s)
    λ s. or_close sock_fd (sigaction (lit "SIGTERM") s)
    λ s. or_close sock_fd (init_request sock_fd s)

  -- `main` from the opening of the databases on. It calls `fileman_init` without the file that its
  -- declaration asks for, which is a parameter here.
  unfoldable pub ready : Bytes → ℕ → Part (Unit {0})
  unfolding application_database_init fileman_init handlers_installed lit
  ready database_filename sock_fd = do
    application_database_init (lit "data/filemanager.db")
    fileman_init database_filename
    handlers_installed sock_fd

  -- What comes before the loop.
  unfoldable pub set_up : Bytes → Target → Bytes → Part ℕ
  unfolding look_up opened drop_to ready
  set_up database_filename target socket_path = do
    identity ← look_up target
    sock_fd ← opened socket_path
    drop_to socket_path sock_fd identity
    ready database_filename sock_fd
    pure sock_fd
