-- ===== src/FileManager/Launcher/Ends.antt =====
-- How the program may end, and how it ends before it serves.
use fcgijwtauth.Base.{
  ℕ, ◌≡◌, ◌≢◌, ◌⊎◌, if◌then◌else◌, bytes_eq, refl, Bool, true, false, Option, none, some, List, [],
  ◌∷◌, Bytes, lit, not, inl, inr,
}
use fcgijwtauth.Outcome.{Exception, ok, throws, undefined}
use fcgijwtauth.Library.{Library}
use fcgijwtauth.Login.{Request}
use fcgijwtauth.FileManager.{
  Data, Handled, answering_exceptions, non_null, route, fileman_process_request,
}
use fcgijwtauth.FileManager.System.{System, Ending, exited, aborted, undefined_behaviour, running}
use fcgijwtauth.FileManager.Setup.{
  Step, left, went_on, Part, ◌>>=◌, ◌>>◌, pure, or_close, uncaught, executed, Identity, same,
  numbers, missing_tables, new_tables, execute_all, initialised, application_database_init,
  fileman_init, handlers_installed, ready, drop_to,
}

-- A call on a database throws in this state.
abbrev pub Throws : (system : System) → system.State → Type 0
Throws system t =
    ((path : Bytes) × (system.connect path t ≡ none))
    ⊎ ((db : system.Db) × (statement : Bytes) × (system.execute db statement t ≡ none))
    ⊎ ((db : system.Db) × (system.initdb_statements db t ≡ none))

-- The serving of a request was undefined, and this state is behind what it did to the request.
abbrev pub Undefined : (system : System) → system.State → Type 0
Undefined system t =
    (u : system.State) × (req : Request) × ((fileman_process_request (system.library u)
        (system.data_source u) req).1
      ≡ undefined)
    × (t
        ≡ system.perform (fileman_process_request (system.library u) (system.data_source u) req).0
            u)

-- An exit is behind the closing of the socket; only a call on a database ends the program by an
-- exception, and only a request does in an undefined way.
abbrev pub Ends : (system : System) → ℕ → Ending → system.State → Type 0
Ends system sock_fd (exited n) t = (u : system.State) × (t ≡ system.close sock_fd u)
Ends system sock_fd aborted t = Throws system t
Ends system sock_fd undefined_behaviour t = Undefined system t
Ends system sock_fd running t = Unit

pub fileman_process_request_catches :
    (lib : Library) (data_source : Data) (req : Request) (e : Exception)
    → (fileman_process_request lib data_source req).1 ≢ throws e
fileman_process_request_catches lib data_source req e h =
    unfold fileman_process_request in
    go (req.get_param (lit "REQUEST_METHOD")) (req.get_param (lit "PATH_INFO")) h
  where
    caught : (h : Handled) → (answering_exceptions h).1 ≢ throws e
    caught (events, ok u) t = cc t
    caught (events, throws x) t = cc t
    caught (events, undefined) t = cc t

    tested :
        (b : Bool) (path : Bytes)
        → (if b then answering_exceptions (route lib data_source req path) else ([], ok tt)).1
          ≢ throws e
    tested true path t = caught (route lib data_source req path) t
    tested false path t = cc t

    go :
        (method path : Option Bytes)
        → (non_null method λ request_method. non_null path λ path_info.
            if bytes_eq request_method (lit "GET")
            then answering_exceptions (route lib data_source req path_info)
            else ([], ok tt)).1
          ≢ throws e
    go none path t = cc t
    go (some method) none t = cc t
    go (some method) (some path) t = tested (bytes_eq method (lit "GET")) path t

executed-none : (system : System) (r : Option system.State) → executed system r ≡ none → r ≡ none
executed-none system none e = refl
executed-none system (some t) e = cc

module _ (system : System) (sock_fd : ℕ) where
  open system use {State, Db, close}

  abbrev pub Closes : {A : Type 0} → (A → Type 0) → Step system A → Type 0
  Closes Q (left ending t) = Ends system sock_fd ending t
  Closes Q (went_on a t) = Q a

  or_close-Closes : (r : Bool × State) → Closes (λ _. Unit) (or_close system sock_fd r)
  or_close-Closes (true, t) = tt
  or_close-Closes (false, t) = (t, refl)

  uncaught-Closes :
      {A : Type 0} (s : State) (r : Option (A × State))
      → (r ≡ none → Throws system s)
      → Closes (λ _. Unit) (uncaught system s r)
  uncaught-Closes s none h = h refl
  uncaught-Closes s (some (a, t)) h = tt

  connect-Closes :
      (path : Bytes) (s : State) → Closes (λ _. Unit) (uncaught system s (system.connect path s))
  connect-Closes path s = uncaught-Closes s (system.connect path s) λ e. inl (path, e)

  >>=-Closes :
      {A B : Type 0} (Q : B → Type 0) (m : Part system A) (f : A → Part system B) (s : State)
      → Closes (λ _. Unit) (m s)
      → ((a : A) (t : State) → Closes Q (f a t))
      → Closes Q (◌>>=◌ system m f s)
  >>=-Closes {A} {B} Q m f s h k = go (m s) h
    where
      go :
          (r : Step system A)
          → Closes (λ _. Unit) r
          → Closes Q (elim r [ left ending t ↦ left ending t | went_on a t ↦ f a t ])
      go (left ending t) h = h
      go (went_on a t) h = k a t

  execute_all-Closes :
      (db : Db) (statements : List Bytes) (s : State)
      → Closes (λ _. Unit) (execute_all system db statements s)
  unfolding execute_all
  execute_all-Closes db [] s = tt
  execute_all-Closes db (statement ∷ statements) s =
      >>=-Closes _ (λ t. uncaught system t (executed system (system.execute db statement t))) _ s
        (uncaught-Closes s (executed system (system.execute db statement s))
          λ e. inr (inl (db, statement, executed-none system (system.execute db statement s) e)))
        (λ _ t. execute_all-Closes db statements t)

  initialised-Closes :
      (missing : Bool) (db : Db) (s : State) → Closes (λ _. Unit) (initialised system missing db s)
  unfolding initialised
  initialised-Closes true db s =
      >>=-Closes _ (execute_all system db missing_tables) _ s
        (execute_all-Closes db missing_tables s)
        λ _ t.
          uncaught-Closes t (executed system (system.initdb_statements db t))
            λ e. inr (inr (db, executed-none system (system.initdb_statements db t) e))
  initialised-Closes false db s = tt

  application_database_init-Closes :
      (path : Bytes) (s : State) → Closes (λ _. Unit) (application_database_init system path s)
  unfolding application_database_init
  application_database_init-Closes path s =
      >>=-Closes _ (λ t. uncaught system t (system.connect path t)) _ s (connect-Closes path s)
        (initialised-Closes (not (system.file_exists path s)))

  fileman_init-Closes : (path : Bytes) (s : State) → Closes (λ _. Unit) (fileman_init system path s)
  unfolding fileman_init
  fileman_init-Closes path s =
      >>=-Closes _ (λ t. uncaught system t (system.connect path t)) _ s (connect-Closes path s)
        (λ db t. execute_all-Closes db new_tables t)

  handlers_installed-Closes : (s : State) → Closes (λ _. Unit) (handlers_installed system sock_fd s)
  unfolding handlers_installed
  handlers_installed-Closes s =
      >>=-Closes _ (λ t. or_close system sock_fd (system.sigaction (lit "SIGINT") t)) _ s
        (or_close-Closes (system.sigaction (lit "SIGINT") s))
        λ _ t.
          >>=-Closes _ (λ u. or_close system sock_fd (system.sigaction (lit "SIGTERM") u)) _ t
            (or_close-Closes (system.sigaction (lit "SIGTERM") t))
            λ _ u. or_close-Closes (system.init_request sock_fd u)

  ready-Closes : (path : Bytes) (s : State) → Closes (λ _. Unit) (ready system path sock_fd s)
  unfolding ready
  ready-Closes path s =
      >>=-Closes _ (application_database_init system (lit "data/filemanager.db")) _ s
        (application_database_init-Closes (lit "data/filemanager.db") s)
        λ _ t.
          >>=-Closes _ (fileman_init system path) _ t (fileman_init-Closes path t)
            λ _ u. handlers_installed-Closes u

  drop_to-Closes :
      (socket_path : Bytes) (identity : Identity system) (s : State)
      → Closes (λ _. Unit) (drop_to system socket_path sock_fd identity s)
  unfolding drop_to
  drop_to-Closes socket_path same s = tt
  drop_to-Closes socket_path (numbers username uid gid) s =
      >>=-Closes _ (λ t. or_close system sock_fd (system.chown socket_path uid gid t)) _ s
        (or_close-Closes (system.chown socket_path uid gid s))
        λ _ t.
          >>=-Closes _ (λ u. or_close system sock_fd (system.initgroups username gid u)) _ t
            (or_close-Closes (system.initgroups username gid t))
            λ _ u.
              >>=-Closes _ (λ v. or_close system sock_fd (system.setgid gid v)) _ u
                (or_close-Closes (system.setgid gid u))
                λ _ v.
                  >>=-Closes _ (λ w. or_close system sock_fd (system.setuid uid w)) _ v
                    (or_close-Closes (system.setuid uid v)) λ _ w. or_close-Closes _

  -- What comes behind the opening of the socket.
  abbrev pub behind : Bytes → Bytes → Identity system → Part system ℕ
  behind path socket_path identity =
      ◌>>◌ system (drop_to system socket_path sock_fd identity)
        (◌>>◌ system (ready system path sock_fd) (pure system sock_fd))

  pub behind-Closes :
      (path socket_path : Bytes) (identity : Identity system) (s : State)
      → Closes (λ fd. fd ≡ sock_fd) (behind path socket_path identity s)
  behind-Closes path socket_path identity s =
      >>=-Closes _ (drop_to system socket_path sock_fd identity) _ s
        (drop_to-Closes socket_path identity s)
        λ _ t. >>=-Closes _ (ready system path sock_fd) _ t (ready-Closes path t) λ _ u. refl
