-- ===== src/FileManager/Setup/Keeps.antt =====
-- The parts of the setting up that keep the effective user and group.
use fcgijwtauth.Base.{
  ℕ, ◌≡◌, refl, ap, sym, ◌∙◌, Bool, true, false, Option, none, some, List, [], ◌∷◌, Bytes, lit, not,
}
use fcgijwtauth.Fcgi.{Event}
use fcgijwtauth.FileManager.System.{System}
use fcgijwtauth.FileManager.Setup.{
  Step, left, went_on, Part, ◌>>=◌, pure, answer_of, or_leave, or_close, uncaught, executed,
  missing_tables, new_tables, initialised, opened, execute_all, application_database_init,
  fileman_init, handlers_installed, ready,
}

module _ (system : System) where
  open system use {State, Db, geteuid, getegid}

  abbrev pub ids : State → ℕ × ℕ
  ids s = (geteuid s, getegid s)

  -- No call but those that are made for it changes the effective user or group.
  pub record KeepsIds : Type 0 where
    pub fcgx_init : (s : State) → ids (system.fcgx_init s).1 ≡ ids s
    pub open_socket :
        (path : Bytes) (backlog : ℕ) (s : State) → ids (system.open_socket path backlog s).1 ≡ ids s
    pub chmod : (path : Bytes) (mode : ℕ) (s : State) → ids (system.chmod path mode s).1 ≡ ids s
    pub close : (sock_fd : ℕ) (s : State) → ids (system.close sock_fd s) ≡ ids s
    pub connect :
        (path : Bytes) (s t : State) (db : Db)
        → system.connect path s ≡ some (db, t)
        → ids t ≡ ids s
    pub execute :
        (db : Db) (statement : Bytes) (s t : State)
        → system.execute db statement s ≡ some t
        → ids t ≡ ids s
    pub initdb_statements :
        (db : Db) (s t : State) → system.initdb_statements db s ≡ some t → ids t ≡ ids s
    pub sigaction : (signal : Bytes) (s : State) → ids (system.sigaction signal s).1 ≡ ids s
    pub init_request : (sock_fd : ℕ) (s : State) → ids (system.init_request sock_fd s).1 ≡ ids s
    pub accept : (s : State) → ids (system.accept s).1 ≡ ids s
    pub signalled : (s : State) → ids (system.signalled s).1 ≡ ids s
    pub perform : (events : List Event) (s : State) → ids (system.perform events s) ≡ ids s

  abbrev pub Keeps : {A : Type 0} → Part system A → Type 0
  Keeps {A} m = (a : A) (s t : State) → m s ≡ went_on a t → ids t ≡ ids s

  -- A part that went on went through both of its parts.
  pub >>=-eq-went_on :
      {A B : Type 0} (m : Step system A) (f : A → Part system B) (b : B) (t : State)
      → elim m [ left ending u ↦ left ending u | went_on a u ↦ f a u ] ≡ went_on b t
      → (a : A) × (u : State) × (m ≡ went_on a u) × (f a u ≡ went_on b t)
  >>=-eq-went_on (left ending u) f b t e = cc
  >>=-eq-went_on (went_on a u) f b t e = (a, u, refl, e)

  >>=-Keeps :
      {A B : Type 0} (m : Part system A) (f : A → Part system B)
      → Keeps m
      → ((a : A) → Keeps (f a))
      → Keeps (◌>>=◌ system m f)
  >>=-Keeps m f h k b s t e =
      let (a, u, first, second) = >>=-eq-went_on (m s) f b t e in k a b u t second ∙ h a s u first

  or_leave-eq :
      (r : Bool × State) (a : Unit {0}) (t : State) → or_leave system r ≡ went_on a t → r.1 ≡ t
  or_leave-eq (true, u) a t e = cc e
  or_leave-eq (false, u) a t e = cc e

  pub or_close-eq :
      (sock_fd : ℕ) (r : Bool × State) (a : Unit {0}) (t : State)
      → or_close system sock_fd r ≡ went_on a t
      → (r.0 ≡ true) × (r.1 ≡ t)
  or_close-eq sock_fd (true, u) a t e = (refl, cc e)
  or_close-eq sock_fd (false, u) a t e = cc e

  answer_of-eq :
      {A : Type 0} (r : Option A × State) (a : A) (t : State)
      → answer_of system r ≡ went_on a t
      → (r.0 ≡ some a) × (r.1 ≡ t)
  answer_of-eq (none, u) a t e = cc e
  answer_of-eq (some b, u) a t e = (cc e, cc e)

  uncaught-eq :
      {A : Type 0} (s : State) (r : Option (A × State)) (a : A) (t : State)
      → uncaught system s r ≡ went_on a t
      → r ≡ some (a, t)
  uncaught-eq s none a t e = cc e
  uncaught-eq s (some (b, u)) a t e = cc e

  executed-eq :
      (r : Option State) (a : Unit {0}) (t : State) → executed system r ≡ some (a, t) → r ≡ some t
  executed-eq none a t e = cc e
  executed-eq (some u) a t e = cc e

  pure-Keeps : {A : Type 0} (a : A) → Keeps (pure system a)
  pure-Keeps a b s t e =
      ap (λ (r : Step system _). elim r [ left ending u ↦ ids s | went_on c u ↦ ids u ]) (sym e)

  or_leave-Keeps :
      (call : State → Bool × State)
      → ((s : State) → ids (call s).1 ≡ ids s)
      → Keeps (λ s. or_leave system (call s))
  or_leave-Keeps call h a s t e = ap ids (sym (or_leave-eq (call s) a t e)) ∙ h s

  or_close-Keeps :
      (sock_fd : ℕ) (call : State → Bool × State)
      → ((s : State) → ids (call s).1 ≡ ids s)
      → Keeps (λ s. or_close system sock_fd (call s))
  or_close-Keeps sock_fd call h a s t e = ap ids (sym (or_close-eq sock_fd (call s) a t e).1) ∙ h s

  answer_of-Keeps :
      {A : Type 0} (call : State → Option A × State)
      → ((s : State) → ids (call s).1 ≡ ids s)
      → Keeps (λ s. answer_of system (call s))
  answer_of-Keeps call h a s t e = ap ids (sym (answer_of-eq (call s) a t e).1) ∙ h s

  module _ (keeps : KeepsIds) where
    pub opened-Keeps : (socket_path : Bytes) → Keeps (opened system socket_path)
    unfolding opened
    opened-Keeps socket_path = >>=-Keeps _ _ (or_leave-Keeps system.fcgx_init keeps.fcgx_init) λ _.
        >>=-Keeps _ _
          (answer_of-Keeps (system.open_socket socket_path 32) (keeps.open_socket socket_path 32))
          λ sock_fd.
            >>=-Keeps _ _
              (or_leave-Keeps (system.chmod socket_path 511) (keeps.chmod socket_path 511))
              λ _. pure-Keeps sock_fd

    execute-Keeps :
        (db : Db) (statement : Bytes)
        → Keeps (λ s. uncaught system s (executed system (system.execute db statement s)))
    execute-Keeps db statement a s t e =
        keeps.execute db statement s t
          (executed-eq (system.execute db statement s) a t (uncaught-eq s _ a t e))

    connect-Keeps : (path : Bytes) → Keeps (λ s. uncaught system s (system.connect path s))
    connect-Keeps path db s t e = keeps.connect path s t db (uncaught-eq s _ db t e)

    initdb-Keeps :
        (db : Db) → Keeps (λ s. uncaught system s (executed system (system.initdb_statements db s)))
    initdb-Keeps db a s t e =
        keeps.initdb_statements db s t
          (executed-eq (system.initdb_statements db s) a t (uncaught-eq s _ a t e))

    execute_all-Keeps :
        (db : Db) (statements : List Bytes) → Keeps (execute_all system db statements)
    unfolding execute_all
    execute_all-Keeps db [] = pure-Keeps tt
    execute_all-Keeps db (statement ∷ statements) =
        >>=-Keeps _ _ (execute-Keeps db statement) λ _. execute_all-Keeps db statements

    fileman_init-Keeps : (path : Bytes) → Keeps (fileman_init system path)
    unfolding fileman_init
    fileman_init-Keeps path =
        >>=-Keeps _ _ (connect-Keeps path) λ db. execute_all-Keeps db new_tables

    initialised-Keeps : (missing : Bool) (db : Db) → Keeps (initialised system missing db)
    unfolding initialised
    initialised-Keeps true db =
        >>=-Keeps _ _ (execute_all-Keeps db missing_tables) λ _. initdb-Keeps db
    initialised-Keeps false db = pure-Keeps tt

    application_database_init-Keeps : (path : Bytes) → Keeps (application_database_init system path)
    unfolding application_database_init
    application_database_init-Keeps path a s t e =
        >>=-Keeps _ _ (connect-Keeps path) (initialised-Keeps (not (system.file_exists path s))) a s
          t e

    handlers_installed-Keeps : (sock_fd : ℕ) → Keeps (handlers_installed system sock_fd)
    unfolding handlers_installed
    handlers_installed-Keeps sock_fd =
        >>=-Keeps _ _
          (or_close-Keeps sock_fd (system.sigaction (lit "SIGINT"))
            (keeps.sigaction (lit "SIGINT")))
          λ _.
            >>=-Keeps _ _
              (or_close-Keeps sock_fd (system.sigaction (lit "SIGTERM"))
                (keeps.sigaction (lit "SIGTERM")))
              λ _. or_close-Keeps sock_fd (system.init_request sock_fd) (keeps.init_request sock_fd)

    pub ready-Keeps :
        (database_filename : Bytes) (sock_fd : ℕ) → Keeps (ready system database_filename sock_fd)
    unfolding ready
    ready-Keeps database_filename sock_fd =
        >>=-Keeps _ _ (application_database_init-Keeps (lit "data/filemanager.db")) λ _.
          >>=-Keeps _ _ (fileman_init-Keeps database_filename) λ _. handlers_installed-Keeps sock_fd
