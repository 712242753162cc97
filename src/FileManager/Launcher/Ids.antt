-- ===== src/FileManager/Launcher/Ids.antt =====
-- As whom the requests are served.
use fcgijwtauth.Base.{
  ℕ, zero, suc, ◌≡◌, refl, ◌∙◌, ◌⊎◌, Bool, false, some, List, [], ◌∷◌, Bytes, All, Bool-cases,
  Option-cases, inl, inr,
}
use fcgijwtauth.Outcome.{Outcome-cases}
use fcgijwtauth.Login.{Request}
use fcgijwtauth.FileManager.{fileman_process_request}
use fcgijwtauth.FileManager.System.{System, Ending}
use fcgijwtauth.FileManager.Setup.{Target, Step, left, went_on, set_up, read_arguments}
use fcgijwtauth.FileManager.Setup.Keeps.{ids, KeepsIds}
use fcgijwtauth.FileManager.Setup.Ids.{RunsAs, RunsAs-ids, set_up-RunsAs}
use fcgijwtauth.FileManager.Launcher.{Run, handle_shutdown, serve_one, serve_loop, main}

module _ (system : System) (keeps : KeepsIds system) where
  open system use {State}

  abbrev ids_of : State → ℕ × ℕ
  ids_of = ids system

  Step-cases :
      {A : Type 0} (m : Step system A)
      → ((ending : Ending) × (t : State) × (m ≡ left ending t))
        ⊎ ((a : A) × (t : State) × (m ≡ went_on a t))
  Step-cases (left ending t) = inl (ending, t, refl)
  Step-cases (went_on a t) = inr (a, t, refl)

  handle_shutdown-ids :
      (sock_fd : ℕ) (p : Bool × State) → ids_of (handle_shutdown system sock_fd p).1 ≡ ids_of p.1
  unfolding handle_shutdown
  handle_shutdown-ids sock_fd (requested, s) = elim (Bool-cases (system.signalled s).0) [
    | inl came ↦ rw (came, handle_shutdown) (keeps.close sock_fd _ ∙ keeps.signalled s)
    | inr none_came ↦ rw (none_came, handle_shutdown) (keeps.signalled s)
  ]

  All-weaken :
      {P Q : State → Type 0} (us : List State) → ((u : State) → P u → Q u) → All P us → All Q us
  All-weaken [] h a = tt
  All-weaken (u ∷ us) h (p, a) = (h u p, All-weaken us h a)

  serve_one-ids :
      (req : Request) (s : State) (later : State → Run system)
      → ((t : State) → All (λ u. ids_of u ≡ ids_of t) (later t).served)
      → All (λ u. ids_of u ≡ ids_of s) (serve_one system req s later).served
  unfolding serve_one
  serve_one-ids req s later h =
      let handled = fileman_process_request (system.library s) (system.data_source s) req in
      let t = system.perform handled.0 s in
      let rest : All (λ u. ids_of u ≡ ids_of s) (later t).served =
        All-weaken (later t).served (λ u e. e ∙ keeps.perform handled.0 s) (h t) in
      elim (Outcome-cases handled.1) [
        | inl (_, e) ↦ rw (e, serve_one) (refl, rest)
        | inr (inl (_, e)) ↦ rw (e, serve_one) (refl, tt)
        | inr (inr e) ↦ rw (e, serve_one) (refl, tt)
      ]

  serve_loop-ids :
      (fuel sock_fd : ℕ) (requested : Bool) (s : State)
      → All (λ u. ids_of u ≡ ids_of s) (serve_loop system fuel sock_fd requested s).served
  unfolding serve_loop
  serve_loop-ids zero sock_fd requested s = tt
  serve_loop-ids (suc fuel) sock_fd requested s =
      let asked = handle_shutdown system sock_fd (requested, s) in
      let accepted = system.accept asked.1 in
      let asked' = handle_shutdown system sock_fd (asked.0, accepted.1) in
      let as_before : ids_of asked'.1 ≡ ids_of s =
        handle_shutdown-ids sock_fd (asked.0, accepted.1)
        ∙ keeps.accept asked.1
        ∙ handle_shutdown-ids sock_fd (requested, s) in
      elim (Bool-cases asked.0) [
        | inl stop ↦ rw (stop, serve_loop) tt
        | inr go ↦ elim (Option-cases accepted.0) [
          | inl none_came ↦ rw (go, none_came, serve_loop) tt
          | inr (req, came) ↦
              rw (go, came, serve_loop)
                (All-weaken _ (λ u e. e ∙ as_before)
                  (serve_one-ids req asked'.1 (serve_loop system fuel sock_fd asked'.0)
                    (serve_loop-ids fuel sock_fd asked'.0)))
        ]
      ]

  -- Where no call but those that are made for it changes the effective user and group, every request is
  -- served with those that the command line asks for: the numbers of the named user and group, and then
  -- the caller was root, or those of the caller.
  pub main-RunsAs :
      (fuel : ℕ) (database_filename : Bytes) (argv : List Bytes) (s : State) (target : Target)
      (socket_path : Bytes)
      → read_arguments system argv ≡ some (target, socket_path)
      → All (RunsAs system target s) (main system fuel database_filename argv s).served
  unfolding main
  main-RunsAs fuel database_filename argv s target socket_path read =
      elim (Step-cases (set_up system database_filename target socket_path s)) [
        | inl (ending, t, e) ↦ rw (read, e, main) tt
        | inr (sock_fd, t, e) ↦
            rw (read, e, main)
              (All-weaken _
                (λ u same_ids.
                  RunsAs-ids system keeps target s t u
                    (set_up-RunsAs system keeps database_filename target socket_path sock_fd s t e)
                    same_ids)
                (serve_loop-ids fuel sock_fd false t))
      ]
