-- ===== src/FileManager/Setup/Ids.antt =====
-- As whom the process runs once it is set up.
use fcgijwtauth.Base.{
  ℕ, ◌≡◌, ap, sym, ◌∙◌, some, ◌==◌, ◌&&◌, Bytes, arith, Bool-cases, Option-cases, inl, inr,
}
use fcgijwtauth.FileManager.System.{System}
use fcgijwtauth.FileManager.Setup.{
  Target, caller, named, Step, went_on, Part, ◌>>=◌, ◌>>◌, pure, or_close, Identity, same, numbers,
  look_up, opened, drop_to, ready, set_up,
}
use fcgijwtauth.FileManager.Setup.Keeps.{
  ids, KeepsIds, >>=-eq-went_on, or_close-eq, opened-Keeps, ready-Keeps,
}

module _ (system : System) where
  open system use {State}

  -- As the target says: the caller still, or the user and the group of these names, for a caller that
  -- was root.
  abbrev pub RunsAs : Target → State → State → Type 0
  RunsAs caller s t = ids system t ≡ ids system s
  RunsAs (named username groupname) s t =
      (uid : ℕ) × (gid : ℕ) × (system.geteuid s ≡ 0)
      × (system.getpwnam username s ≡ some uid)
      × (system.getgrnam groupname s ≡ some gid)
      × (ids system t ≡ (uid, gid))

module _ (system : System) (keeps : KeepsIds system) where
  open system use {State, geteuid, getegid}

  abbrev ids_of : State → ℕ × ℕ
  ids_of = ids system

  -- The numbers that were looked up, for a caller that was root.
  abbrev Identifies : Target → State → Identity system → Type 0
  Identifies caller s identity = identity ≡ same
  Identifies (named username groupname) s identity =
      (uid : ℕ) × (gid : ℕ) × (geteuid s ≡ 0)
      × (system.getpwnam username s ≡ some uid)
      × (system.getgrnam groupname s ≡ some gid)
      × (identity ≡ numbers username uid gid)

  pure-eq : {A : Type 0} (a b : A) (s t : State) → pure system a s ≡ went_on b t → (a ≡ b) × (s ≡ t)
  pure-eq a b s t e = (cc e, cc e)

  look_up-Identifies :
      (target : Target) (identity : Identity system) (s t : State)
      → look_up system target s ≡ went_on identity t
      → Identifies target s identity × (s ≡ t)
  unfolding look_up
  look_up-Identifies caller identity s t e = (cc e, cc e)
  look_up-Identifies (named username groupname) identity s t e =
      elim (Bool-cases (geteuid s == 0)) [
        | inr other ↦ cc (rw (other, look_up) at e)
        | inl root ↦ elim (Option-cases (system.getpwnam username s)) [
          | inl no_user ↦ cc (rw (root, no_user, look_up) at e)
          | inr (uid, user_is) ↦ elim (Option-cases (system.getgrnam groupname s)) [
            | inl no_group ↦ cc (rw (root, user_is, no_group, look_up) at e)
            | inr (gid, group_is) ↦
                let found : Step.went_on (numbers username uid gid) s ≡ went_on identity t =
                  rw (root, user_is, group_is, look_up) at e in
                ((uid, gid, ground arith, user_is, group_is, cc found), cc found)
          ]
        ]
      ]

  -- The part behind another one says all that is known of its end.
  behind :
      {A B : Type 0} (P : State → Type 0) (m : Part system A) (f : A → Part system B)
      → ((a : A) (b : B) (s t : State) → f a s ≡ went_on b t → P t)
      → (b : B) (s t : State) → ◌>>=◌ system m f s ≡ went_on b t
      → P t
  behind P m f h b s t e =
      let (a, u, first, second) = >>=-eq-went_on system (m s) f b t e in h a b u t second

  looked_at :
      (sock_fd uid gid : ℕ) (a : Unit {0}) (s t : State)
      → or_close system sock_fd (geteuid s == uid && getegid s == gid, s) ≡ went_on a t
      → ids_of t ≡ (uid, gid)
  looked_at sock_fd uid gid a s t e =
      let (passed, here) = or_close-eq system sock_fd _ a t e in
      ap ids_of (sym here) ∙ ground (arith, passed)

  drop_to-ids :
      (socket_path : Bytes) (sock_fd : ℕ) (username : Bytes) (uid gid : ℕ) (a : Unit {0})
      (s t : State)
      → drop_to system socket_path sock_fd (numbers username uid gid) s ≡ went_on a t
      → ids_of t ≡ (uid, gid)
  unfolding drop_to
  drop_to-ids socket_path sock_fd username uid gid =
      let P : State → Type 0 = λ t. ids_of t ≡ (uid, gid) in
      behind P (λ u. or_close system sock_fd (system.chown socket_path uid gid u)) _
        λ _.
          behind P (λ u. or_close system sock_fd (system.initgroups username gid u)) _
            λ _.
              behind P (λ u. or_close system sock_fd (system.setgid gid u)) _
                λ _.
                  behind P (λ u. or_close system sock_fd (system.setuid uid u)) _
                    λ _. looked_at sock_fd uid gid

  -- The four parts before the loop, with the states between them.
  four_parts :
      {A B : Type 0} (m1 : Part system A) (m2 : Part system B) (m3 : A → B → Part system (Unit {0}))
      (m4 : B → Part system (Unit {0})) (c : B) (s t : State)
      → (◌>>=◌ system m1
            λ a. ◌>>=◌ system m2 λ b. ◌>>◌ system (m3 a b) (◌>>◌ system (m4 b) (pure system b)))
          s
        ≡ went_on c t
      → (a : A) × (b : B) × (s1 : State) × (s2 : State) × (s3 : State) × (m1 s ≡ went_on a s1)
        × (m2 s1 ≡ went_on b s2)
        × (m3 a b s2 ≡ went_on tt s3)
        × (m4 b s3 ≡ went_on tt t)
  four_parts {A} {B} m1 m2 m3 m4 c s t e =
      let last : B → Part system B = λ b. ◌>>◌ system (m4 b) (pure system b) in
      let third : A → B → Part system B = λ a b. ◌>>◌ system (m3 a b) (last b) in
      let second : A → Part system B = λ a. ◌>>=◌ system m2 (third a) in
      let (a, s1, went1, e1) = >>=-eq-went_on system (m1 s) second c t e in
      let (b, s2, went2, e2) = >>=-eq-went_on system (m2 s1) (third a) c t e1 in
      let (_, s3, went3, e3) = >>=-eq-went_on system (m3 a b s2) (λ _. last b) c t e2 in
      let (_, s4, went4, e4) = >>=-eq-went_on system (m4 b s3) (λ _. pure system b) c t e3 in
      (a, b, s1, s2, s3, went1, went2, went3, went4 ∙ ap (went_on tt) (pure-eq b c s4 t e4).1)

  run_as :
      (target : Target) (identity : Identity system) (socket_path : Bytes) (sock_fd : ℕ)
      (s s1 s2 : State)
      → Identifies target s identity
      → ids_of s1 ≡ ids_of s
      → drop_to system socket_path sock_fd identity s1 ≡ went_on tt s2
      → RunsAs system target s s2
  unfolding drop_to
  run_as caller identity socket_path sock_fd s s1 s2 i same_ids e =
      let here : s1 ≡ s2 =
        (pure-eq tt tt s1 s2
          (ap (λ identity. drop_to system socket_path sock_fd identity s1) (sym i) ∙ e)).1 in
      ap ids_of (sym here) ∙ same_ids
  run_as (named username groupname) identity socket_path sock_fd s s1 s2
        (uid, gid, root, user_is, group_is, i) same_ids e =
      (
        uid,
        gid,
        root,
        user_is,
        group_is,
        drop_to-ids socket_path sock_fd username uid gid tt s1 s2
            (ap (λ identity. drop_to system socket_path sock_fd identity s1) (sym i) ∙ e),
      )

  pub RunsAs-ids :
      (target : Target) (s t u : State)
      → RunsAs system target s t
      → ids_of u ≡ ids_of t
      → RunsAs system target s u
  RunsAs-ids caller s t u r e = e ∙ r
  RunsAs-ids (named username groupname) s t u (uid, gid, root, user_is, group_is, r) e =
      (uid, gid, root, user_is, group_is, e ∙ r)

  pub set_up-RunsAs :
      (database_filename : Bytes) (target : Target) (socket_path : Bytes) (sock_fd : ℕ)
      (s t : State)
      → set_up system database_filename target socket_path s ≡ went_on sock_fd t
      → RunsAs system target s t
  unfolding set_up
  set_up-RunsAs database_filename target socket_path sock_fd s t e =
      let (identity, fd, s1, s2, s3, looked, opening, dropped, rest) =
        four_parts (look_up system target) (opened system socket_path)
          (λ identity fd. drop_to system socket_path fd identity) (ready system database_filename)
          sock_fd s t e in
      let (identifies, here) = look_up-Identifies target identity s s1 looked in
      let opened_as : ids_of s2 ≡ ids_of s =
        opened-Keeps system keeps socket_path fd s1 s2 opening ∙ ap ids_of (sym here) in
      RunsAs-ids target s s3 t
        (run_as target identity socket_path fd s s2 s3 identifies opened_as dropped)
        (ready-Keeps system keeps database_filename fd tt s3 t rest)
