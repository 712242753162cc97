-- ===== src/FileManager/Launcher/Closed.antt =====
-- What becomes of the socket when the program ends.
use fcgijwtauth.Base.{
  ℕ, zero, suc, ◌≡◌, refl, ap, ◌∙◌, Bool, false, some, List, Bytes, Bool-cases, Option-cases, inl,
  inr,
}
use fcgijwtauth.Outcome.{Outcome-cases}
use fcgijwtauth.Login.{Request}
use fcgijwtauth.FileManager.{fileman_process_request}
use fcgijwtauth.FileManager.System.{System}
use fcgijwtauth.FileManager.Setup.{
  Target, Step, left, went_on, Part, ◌>>=◌, ◌>>◌, pure, Identity, ready, look_up, opened, drop_to,
  set_up, read_arguments,
}
use fcgijwtauth.FileManager.Launcher.{
  Run, handle_shutdown, serve_one, serve_loop, then_served, main,
}
use fcgijwtauth.FileManager.Launcher.Ends.{
  Ends, fileman_process_request_catches, Closes, behind, behind-Closes,
}

module _ (system : System) (sock_fd : ℕ) where
  open system use {State}

  serve_one-Ends :
      (req : Request) (s : State) (later : State → Run system)
      → ((t : State) → Ends system sock_fd (later t).ending (later t).final)
      → Ends system sock_fd
          (serve_one system req s later).ending
          (serve_one system req s later).final
  unfolding serve_one
  serve_one-Ends req s later h =
      let handled = fileman_process_request (system.library s) (system.data_source s) req in
      elim (Outcome-cases handled.1) [
        | inl (_, e) ↦ rw (e, serve_one) (h (system.perform handled.0 s))
        | inr (inl (x, e)) ↦
            absurd
              (fileman_process_request_catches (system.library s) (system.data_source s) req x e)
        | inr (inr e) ↦ rw (e, serve_one) (s, req, e, refl)
      ]

  serve_loop-Ends :
      (fuel : ℕ) (requested : Bool) (s : State)
      → Ends system sock_fd
          (serve_loop system fuel sock_fd requested s).ending
          (serve_loop system fuel sock_fd requested s).final
  unfolding serve_loop
  serve_loop-Ends zero requested s = tt
  serve_loop-Ends (suc fuel) requested s =
      let asked = handle_shutdown system sock_fd (requested, s) in
      let accepted = system.accept asked.1 in
      let asked' = handle_shutdown system sock_fd (asked.0, accepted.1) in
      elim (Bool-cases asked.0) [
        | inl stop ↦ rw (stop, serve_loop) (_, refl)
        | inr go ↦ elim (Option-cases accepted.0) [
          | inl none_came ↦ rw (go, none_came, serve_loop) (_, refl)
          | inr (req, came) ↦
              rw (go, came, serve_loop)
                (serve_one-Ends req asked'.1 (serve_loop system fuel sock_fd asked'.0)
                  (serve_loop-Ends fuel asked'.0))
        ]
      ]

  >>=-eq :
      {A B : Type 0} (m : Part system A) (f : A → Part system B) (s t : State) (a : A)
      → m s ≡ went_on a t
      → ◌>>=◌ system m f s ≡ f a t
  >>=-eq {A} {B} m f s t a e =
      ap {B = Step system B}
        (λ (r : Step system A). elim r [ left ending u ↦ left ending u | went_on b u ↦ f b u ]) e

  set_up-behind :
      (path : Bytes) (target : Target) (socket_path : Bytes) (identity : Identity system)
      (s s1 s2 : State)
      → look_up system target s ≡ went_on identity s1
      → opened system socket_path s1 ≡ went_on sock_fd s2
      → set_up system path target socket_path s ≡ behind system sock_fd path socket_path identity s2
  unfolding set_up
  set_up-behind path target socket_path identity s s1 s2 looked opening =
      >>=-eq (look_up system target)
        (λ who. ◌>>=◌ system (opened system socket_path) λ fd.
          ◌>>◌ system (drop_to system socket_path fd who)
            (◌>>◌ system (ready system path fd) (pure system fd)))
        s s1 identity looked
      ∙ >>=-eq (opened system socket_path)
          (λ fd.
            ◌>>◌ system (drop_to system socket_path fd identity)
              (◌>>◌ system (ready system path fd) (pure system fd)))
          s1 s2 sock_fd opening

  -- Once the socket is open and its mode is set, for a command line that is right and a target that was
  -- looked up, every exit, from the failure of a later call or from the loop, is in a state that the
  -- closing of the socket left. Where the program ends otherwise, a call on one of the databases throws
  -- in its last state, which nothing catches, or the serving of a request was undefined and led to this
  -- state; or the run was not followed to its end.
  pub main-Ends :
      (fuel : ℕ) (path : Bytes) (argv : List Bytes) (s : State) (target : Target)
      (socket_path : Bytes) (identity : Identity system) (s1 s2 : State)
      → read_arguments system argv ≡ some (target, socket_path)
      → look_up system target s ≡ went_on identity s1
      → opened system socket_path s1 ≡ went_on sock_fd s2
      → Ends system sock_fd
          (main system fuel path argv s).ending
          (main system fuel path argv s).final
  unfolding main
  main-Ends fuel path argv s target socket_path identity s1 s2 read looked opening =
      rw (read, main)
        (rw (set_up-behind path target socket_path identity s s1 s2 looked opening) (
          ended (behind system sock_fd path socket_path identity s2)
            (behind-Closes system sock_fd path socket_path identity s2)))
    where
      ended :
          (r : Step system ℕ)
          → Closes system sock_fd (λ fd. fd ≡ sock_fd) r
          → Ends system sock_fd (then_served system fuel r).ending (then_served system fuel r).final
      ended (left ending t) h = h
      ended (went_on fd t) h = rw h (serve_loop-Ends fuel false t)
