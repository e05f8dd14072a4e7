-- ===== src/Sessions/Answers.antt =====
-- What `is_revoked` of sessions.py answers over time, over restarts, and after a sign-out.
use spark_controlplane.Prelude.{
  ℕ, ◌≤◌, ◌≡◌, refl, String, true, false, not, ◌&&◌, ◌||◌, some, List, [], ◌∷◌, All, arith, ltb,
  ◌==◌, nat_eq, string_eq, eq_iff,
}
use spark_controlplane.Sessions.{
  SessionRevocation, Store, global_subject, expired, load, is_known, is_revoked, write, jti_row,
  revoke_jti, cutoff, epoch_row, revoke_user,
}
use spark_controlplane.Sessions.Views.{
  epoch_of, killed, has, RowsExpire, epoch_of-sweep, killed-sweep, epoch_of-commit, killed-commit,
}
use spark_controlplane.Sessions.Restart.{
  Agrees, Event, restart, logout, start, step, run, Spares, start-Agrees, write-Agrees, step-Agrees,
  step-killed, epoch_of-step,
}

module _ (id : String) (exp : ℕ) where
  pub run-Agrees :
      (es : List Event) (s : Store)
      → Agrees id exp s
      → All (Spares id exp) es
      → Agrees id exp (run es s)
  unfolding run
  run-Agrees [] s a h = a
  run-Agrees (e ∷ es) s a (h, hs) = run-Agrees es (step e s) (step-Agrees id exp e s a h) hs

  -- What `is_revoked` answers, by the rows alone.
  pub is_revoked-Agrees :
      (s : Store) (user : String) (issued_at : ℕ)
      → Agrees id exp s
      → is_revoked s.memory user (some id) issued_at ≡ (
          not (id == "") && killed id s.db
          || ltb issued_at (epoch_of global_subject s.db)
          || ltb issued_at (epoch_of user s.db))
  unfolding is_revoked is_known has
  is_revoked-Agrees s user issued_at a =
      ground (arith, a.id_agrees, a.is_loaded, a.epochs_agree user, a.epochs_agree global_subject)

  pub is_revoked-step :
      (e : Event) (s : Store) (user : String) (issued_at : ℕ)
      → Agrees id exp s
      → Spares id exp e
      → is_revoked s.memory user (some id) issued_at ≡ true
      → is_revoked (step e s).memory user (some id) issued_at ≡ true
  is_revoked-step e s user issued_at a h dead = ground (
    arith,
    is_revoked-Agrees s user issued_at a,
    is_revoked-Agrees (step e s) user issued_at (step-Agrees id exp e s a h),
    step-killed id exp e s a.rows_expire h,
    epoch_of-step user e s,
    epoch_of-step global_subject e s,
  )

  -- A session that is revoked in a loaded portal whose memory agrees with its rows stays revoked
  -- through logouts, sign-outs, failed commits, restarts and crashes between a commit and the
  -- update of the memory, while the clock has not reached its expiry and every row for its id
  -- names that expiry.
  pub is_revoked-run :
      (es : List Event) (s : Store) (user : String) (issued_at : ℕ)
      → Agrees id exp s
      → All (Spares id exp) es
      → is_revoked s.memory user (some id) issued_at ≡ true
      → is_revoked (run es s).memory user (some id) issued_at ≡ true
  unfolding run
  is_revoked-run [] s user issued_at a h dead = dead
  is_revoked-run (e ∷ es) s user issued_at a (h, hs) dead =
      is_revoked-run es (step e s) user issued_at (step-Agrees id exp e s a h) hs
        (is_revoked-step e s user issued_at a h dead)

  -- A restart keeps the rows of a session that has not expired, and every epoch.
  restart-killed :
      (now : ℕ) (s : Store)
      → RowsExpire id exp s.db
      → expired exp now ≡ false
      → killed id (step (restart now) s).db ≡ killed id s.db
  unfolding step start load
  restart-killed now s h live = ground (arith, killed-sweep id exp now s.db h)

  restart-epoch_of :
      (user : String) (now : ℕ) (s : Store)
      → epoch_of user (step (restart now) s).db ≡ epoch_of user s.db
  unfolding step start load
  restart-epoch_of user now s = ground (arith, epoch_of-sweep user now s.db)

  -- Whatever happened since the portal was started, a restart changes no answer of `is_revoked`
  -- about a session that has not expired, if every row for its id names that expiry.
  pub is_revoked-restart :
      (started now : ℕ) (db : List SessionRevocation) (es : List Event) (user : String)
      (issued_at : ℕ)
      → RowsExpire id exp db
      → All (Spares id exp) es
      → expired exp now ≡ false
      → is_revoked
          (run (restart now ∷ []) (run es (start started db))).memory
          user
          (some id)
          issued_at
        ≡ is_revoked (run es (start started db)).memory user (some id) issued_at
  unfolding run
  is_revoked-restart started now db es user issued_at rows h live =
      let a : Agrees id exp (run es (start started db)) =
        run-Agrees es (start started db) (start-Agrees id exp started db rows) h in
      let s = run es (start started db) in
      ground (
        arith,
        is_revoked-Agrees s user issued_at a,
        is_revoked-Agrees (step (restart now) s) user issued_at
            (step-Agrees id exp (restart now) s a live),
        restart-killed now s a.rows_expire live,
        restart-epoch_of user now s,
        restart-epoch_of global_subject now s,
      )

  -- If its commit succeeds, `revoke_user` returns a cutoff that is not before now, and revokes,
  -- of the sessions that have not expired, exactly those of the user (or of all users, for the
  -- empty name) that were issued before the cutoff, besides those that were revoked already.
  pub is_revoked-revoke_user :
      (now later : ℕ) (who reason : String) (s : Store) (user : String) (issued_at : ℕ)
      → Agrees id exp s
      → expired exp later ≡ false
      → ((revoke_user true now later who reason s).0 ≡ some (cutoff now who s.memory))
        × (is_revoked (revoke_user true now later who reason s).1.memory user (some id) issued_at
            ≡ (is_revoked s.memory user (some id) issued_at
                || ((who == user) || (who == global_subject))
                  && ltb issued_at (cutoff now who s.memory)))
        × (now ≤ cutoff now who s.memory)
  unfolding revoke_user write cutoff
  is_revoked-revoke_user now later who reason s user issued_at a live =
      let row = epoch_row who (cutoff now who s.memory) reason now in
      let a' : Agrees id exp (write true later (row ∷ []) s).1 =
        write-Agrees id exp true later (row ∷ []) s a (λ h. ground arith, tt) in
      ground (
        arith,
        is_revoked-Agrees s user issued_at a,
        is_revoked-Agrees (write true later (row ∷ []) s).1 user issued_at a',
        killed-commit id exp later (row ∷ []) s.db (λ h. ground arith, tt) a.rows_expire,
        epoch_of-commit user later (row ∷ []) s.db,
        epoch_of-commit global_subject later (row ∷ []) s.db,
      )

  -- A logout that is committed before the session expires revokes it.
  pub is_revoked-logout :
      (now later : ℕ) (reason : String) (s : Store) (user : String) (issued_at : ℕ)
      → Agrees id exp s
      → expired exp later ≡ false
      → (id == "") ≡ false
      → is_revoked (step (logout true now later id exp reason) s).memory user (some id) issued_at
        ≡ true
  unfolding step revoke_jti write
  is_revoked-logout now later reason s user issued_at a live named =
      let row = jti_row id exp reason now in
      let a' : Agrees id exp (step (logout true now later id exp reason) s) =
        step-Agrees id exp (logout true now later id exp reason) s a (live, λ same. refl) in
      ground (
        arith,
        is_revoked-Agrees (step (logout true now later id exp reason) s) user issued_at a',
        killed-commit id exp later (row ∷ []) s.db (λ h. refl, tt) a.rows_expire,
        eq_iff id id,
      )
