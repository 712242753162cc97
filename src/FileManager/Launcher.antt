-- ===== src/FileManager/Launcher.antt =====
-- `main` of filemannospawn.cpp: behind the setting up, requests are served until a signal comes.
pub mod Ids
pub mod Ends
pub mod Closed
use fcgijwtauth.Base.{
  ℕ, zero, suc, Bool, true, false, none, some, List, [], ◌∷◌, if◌then◌else◌, Bytes,
}
use fcgijwtauth.Outcome.{ok, throws, undefined}
use fcgijwtauth.Login.{Request}
use fcgijwtauth.FileManager.{fileman_process_request}
use fcgijwtauth.FileManager.System.{
  System, Ending, exited, aborted, undefined_behaviour, running, exit_failure,
}
use fcgijwtauth.FileManager.Setup.{read_arguments, Step, left, went_on, set_up}

module _ (system : System) where
  open system use {State, close, accept, signalled, library, data_source, perform}

  -- The states in which `fileman_process_request` was called, and how the run ended.
  pub record Run : Type 0 where
    pub served : List State
    pub ending : Ending
    pub final : State

  -- `handle_shutdown`, if a signal has come.
  unfoldable pub handle_shutdown : ℕ → Bool × State → Bool × State
  handle_shutdown sock_fd (shutdown_requested, s) =
      let (came, t) = signalled s in
      if came then (true, close sock_fd t) else (shutdown_requested, t)

  abbrev pub stopped : ℕ → State → Run
  stopped sock_fd s = record { served = []; ending = exited exit_failure; final = close sock_fd s }

  -- A request is served, and the loop goes on as `later` says.
  unfoldable pub serve_one : Request → State → (State → Run) → Run
  unfolding fileman_process_request
  serve_one req s later =
      let (events, ended) = fileman_process_request (library s) (data_source s) req in
      let t = perform events s in
      elim ended [
        | ok _ ↦ let rest = later t in record rest { served = s ∷ rest.served }
        | throws _ ↦ record { served = s ∷ []; ending = aborted; final = t }
        | undefined ↦ record { served = s ∷ []; ending = undefined_behaviour; final = t }
      ]

  -- The loop, for as many rounds as there is fuel: it only ends by a signal or a failure.
  unfoldable pub serve_loop : ℕ → ℕ → Bool → State → Run
  unfolding handle_shutdown serve_one
  serve_loop zero sock_fd shutdown_requested s = record { served = []; ending = running; final = s }
  serve_loop (suc fuel) sock_fd shutdown_requested s =
      let (requested, t) = handle_shutdown sock_fd (shutdown_requested, s) in
      let (accepted, u) = accept t in
      let (requested', v) = handle_shutdown sock_fd (requested, u) in
      let round : Run = elim accepted [
        | none ↦ stopped sock_fd v
        | some req ↦ serve_one req v (serve_loop fuel sock_fd requested')
      ] in
      if requested then stopped sock_fd t else round

  -- What follows the setting up.
  abbrev pub then_served : ℕ → Step system ℕ → Run
  then_served fuel (left ending t) = record { served = []; ending = ending; final = t }
  then_served fuel (went_on sock_fd t) = serve_loop fuel sock_fd false t

  unfoldable pub main : ℕ → Bytes → List Bytes → State → Run
  unfolding read_arguments set_up serve_loop
  main fuel database_filename argv s = elim (read_arguments system argv) [
    | none ↦ record { served = []; ending = exited exit_failure; final = s }
    | some (target, socket_path) ↦
        then_served fuel (set_up system database_filename target socket_path s)
  ]
