-- ===== src/Tests/Launches.antt =====
-- The file manager and its start at concrete inputs.
use fcgijwtauth.Base.{
  ℕ, Option, Bool, ap, ◌∙◌, ◌≡◌, refl, true, false, none, some, [], ◌∷◌, ◌+◌, Bytes, lit, bytes_eq,
  All, ◌⊎◌, inr, ◌≢◌, if◌then◌else◌, pos,
}
use fcgijwtauth.Outcome.{Outcome, ok, undefined}
use fcgijwtauth.UserContext.{JwtUserContext}
use fcgijwtauth.Cookies.{c_string}
use fcgijwtauth.Login.{Request}
use fcgijwtauth.Tests.Tokens.{lib}
use fcgijwtauth.FileManager.{Rows, Data, user_of, route, fileman_process_request}
use fcgijwtauth.FileManager.Finished.{Caught, Returns, fileman_process_request-finish}
use fcgijwtauth.FileManager.System.{System, Argument, exited}
use fcgijwtauth.FileManager.Setup.{
  Target, read_arguments, Identity, numbers, went_on, look_up, opened,
}
use fcgijwtauth.FileManager.Setup.Keeps.{KeepsIds}
use fcgijwtauth.FileManager.Setup.Ids.{RunsAs}
use fcgijwtauth.FileManager.Launcher.{main}
use fcgijwtauth.FileManager.Launcher.Ends.{Ends}
use fcgijwtauth.FileManager.Launcher.Closed.{main-Ends}
use fcgijwtauth.FileManager.Launcher.Ids.{main-RunsAs}

-- One group for every user.
abbrev groups_found : Rows
groups_found = record { group_ids = pos 7 ∷ []; broken = none }

abbrev groups : Data
groups = record {
  select_groups = ok (λ user. ok groups_found);
  list_files = λ location. [];
  print_number = λ n. b'7' ∷ [];
}

-- A POST, which is left without an answer.
abbrev post : Request
post = record {
  get_param = λ name.
      if bytes_eq name (lit "REQUEST_METHOD") then some (lit "POST") else some (lit "index");
  input = [];
}

-- The effective user and group are the whole state. Every name has the number 33, and a request always
-- waits.
abbrev machine : System
machine = record {
  State = ℕ × ℕ;
  Db = Unit {0};
  getopt_long = λ argv.
      (Argument.user (lit "www") ∷ Argument.group (lit "www") ∷ [], lit "/run/fileman.sock" ∷ []);
  geteuid = λ s. s.0;
  getegid = λ s. s.1;
  getpwnam = λ name s. some 33;
  getgrnam = λ name s. some 33;
  fcgx_init = λ s. (true, s);
  open_socket = λ path backlog s. (some 3, s);
  chmod = λ path mode s. (true, s);
  chown = λ path uid gid s. (true, s);
  initgroups = λ name gid s. (true, s);
  setgid = λ gid s. (true, (s.0, gid));
  setuid = λ uid s. (true, (uid, s.1));
  close = λ sock_fd s. s;
  file_exists = λ path s. true;
  connect = λ path s. some (tt, s);
  execute = λ db statement s. some s;
  initdb_statements = λ db s. some s;
  sigaction = λ signal s. (true, s);
  init_request = λ sock_fd s. (true, s);
  accept = λ s. (some post, s);
  signalled = λ s. (false, s);
  library = λ s. lib;
  data_source = λ s. groups;
  perform = λ events s. s;
}

machine-KeepsIds : KeepsIds machine
machine-KeepsIds = record {
  fcgx_init = λ s. refl;
  open_socket = λ path backlog s. refl;
  chmod = λ path mode s. refl;
  close = λ sock_fd s. refl;
  connect = λ path s t db e. cc e;
  execute = λ db statement s t e. cc e;
  initdb_statements = λ db s t e. cc e;
  sigaction = λ signal s. refl;
  init_request = λ sock_fd s. refl;
  accept = λ s. refl;
  signalled = λ s. refl;
  perform = λ events s. refl;
}

abbrev www : Target
www = Target.named (lit "www") (lit "www")

arguments_read : read_arguments machine [] ≡ some (www, lit "/run/fileman.sock")
unfolding read_arguments
arguments_read = refl

main-RunsAs_example : All (RunsAs machine www (0, 0)) (main machine 2 [] [] (0, 0)).served
main-RunsAs_example =
    main-RunsAs machine machine-KeepsIds 2 [] [] (0, 0) www (lit "/run/fileman.sock") arguments_read

-- Two requests are served in the state with both numbers.
main_served : (main machine 2 [] [] (0, 0)).served ≡ (33, 33) ∷ (33, 33) ∷ []
unfolding main bytes_eq
main_served = refl

-- A GET of "list" with a token.
abbrev listing : Request
listing = record {
  get_param = λ name.
      if bytes_eq name (lit "REQUEST_METHOD")
      then some (lit "GET")
      else if bytes_eq name (lit "PATH_INFO")
      then some (lit "list")
      else if bytes_eq name (lit "HTTP_COOKIE")
      then some (lit "auth=t")
      else none;
  input = [];
}

groups-Returns : Returns groups
groups-Returns = record {
  prepared = λ e. cc e;
  bound = λ bound e user d.
      let at_user : Outcome (Bytes → Outcome Rows) → Outcome Rows =
        λ m. elim m [ ok f ↦ f user | _ ↦ undefined ] in
      cc (ap at_user e ∙ d);
}

abbrev is_returned : Outcome (Option JwtUserContext) → Bool
is_returned (ok _) = true
is_returned _ = false

token_read : user_of lib groups listing ≢ undefined
unfolding user_of bytes_eq c_string
token_read e = let apart : true ≡ false = ap is_returned e in cc apart

is_get : listing.get_param (lit "REQUEST_METHOD") ≡ some (lit "GET")
unfolding lit bytes_eq
is_get = refl

is_list : listing.get_param (lit "PATH_INFO") ≡ some (lit "list")
unfolding lit bytes_eq
is_list = refl

fileman_process_request-finish_example :
    ((user_of lib groups listing ≡ ok none)
      × (fileman_process_request lib groups listing ≡ ([], undefined)))
    ⊎ Caught (route lib groups listing (lit "list")) (fileman_process_request lib groups listing)
fileman_process_request-finish_example =
    fileman_process_request-finish lib groups groups-Returns listing (lit "list") token_read is_get
      is_list (inr refl)

listing_answered : (fileman_process_request lib groups listing).1 ≡ ok tt
unfolding fileman_process_request bytes_eq
listing_answered = refl

-- The same machine, to which a signal has come. The closing of a descriptor is left in its state as the
-- number of a user, which no other call here makes of it.
abbrev stopping : System
stopping = record machine { signalled = λ s. (true, s); close = λ sock_fd s. (sock_fd + 1000, s.1) }

abbrev as_www : Identity stopping
as_www = numbers (lit "www") 33 33

stopping_read : read_arguments stopping [] ≡ some (www, lit "/run/fileman.sock")
unfolding read_arguments
stopping_read = refl

www_found : look_up stopping www (0, 0) ≡ went_on as_www (0, 0)
unfolding look_up
www_found = refl

socket_opened : opened stopping (lit "/run/fileman.sock") (0, 0) ≡ went_on 3 (0, 0)
unfolding opened
socket_opened = refl

main-Ends_example :
    Ends stopping 3 (main stopping 1 [] [] (0, 0)).ending (main stopping 1 [] [] (0, 0)).final
main-Ends_example =
    main-Ends stopping 3 1 [] [] (0, 0) www (lit "/run/fileman.sock") as_www (0, 0) (0, 0)
      stopping_read www_found socket_opened

-- It exits, and the socket is closed twice: by the handler of the signal, and behind the loop.
stopped_at_once : (main stopping 1 [] [] (0, 0)).ending ≡ exited 1
unfolding main
stopped_at_once = refl

closed_last : (main stopping 1 [] [] (0, 0)).final ≡ (1003, 33)
unfolding main
closed_last = refl
