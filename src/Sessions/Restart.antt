-- ===== src/Sessions/Restart.antt =====
-- Revocations over time and over restarts of the process of sessions.py.
use spark_controlplane.Prelude.{
  ℕ, ◌≤◌, ◌≡◌, refl, ◌∙◌, String, Bool, true, false, List, [], ◌∷◌, ◌++◌, arith, nat_eq, string_eq,
  eq_iff,
}
use spark_controlplane.Dict.{get, get_or}
use spark_controlplane.Sessions.{
  SessionRevocation, Store, fresh, expired, sweep, learn_all, load, commit, remember, write,
  jti_row, revoke_jti, cutoff, epoch_row, revoke_user,
}
use spark_controlplane.Sessions.Views.{
  epoch_of, killed, has, RowsExpire, EntriesExpire, epoch_of-append, killed-append, epoch_of-sweep,
  killed-sweep, RowsExpire-sweep, RowsExpire-append, get_or-learn_all, has-learn_all,
  EntriesExpire-learn_all, EntriesExpire-forget, has-forget, epoch_of-commit, RowsExpire-commit,
  killed-commit, loaded-learn_all,
}

-- The memory says of every user and of the session `id`, which expires at `exp`, what the rows say.
pub record Agrees (id : String) (exp : ℕ) (s : Store) : Type 0 where
  pub is_loaded : s.memory.loaded ≡ true
  pub epochs_agree : (user : String) → get_or user 0 s.memory.epochs ≡ epoch_of user s.db
  pub id_agrees : has id s.memory.revoked ≡ killed id s.db
  pub rows_expire : RowsExpire id exp s.db
  pub entries_expire : EntriesExpire id exp s.memory.revoked

-- What happens to the store: a logout, a sign-out everywhere, a restart, and a process that dies
-- between the commit of a sign-out or logout and the update of its memory, and is started again.
pub data Event : Type 0 where
  logout :
      (committed : Bool) (now later : ℕ) (id : String) (expires_at : ℕ) (reason : String) → Event
  sign_out : (committed : Bool) (now later : ℕ) (user reason : String) → Event
  restart : (now : ℕ) → Event
  crash : (now : ℕ) (row : SessionRevocation) (later : ℕ) → Event

unfoldable pub start : ℕ → List SessionRevocation → Store
unfolding load
start now db = (load now (record { db = db; memory = fresh })).1

unfoldable pub step : Event → Store → Store
unfolding revoke_jti revoke_user start commit
step (logout committed now later id expires_at reason) s =
    (revoke_jti committed now later id expires_at reason s).1
step (sign_out committed now later user reason) s =
    (revoke_user committed now later user reason s).1
step (restart now) s = start now s.db
step (crash now row later) s = start later (commit now (row ∷ []) s.db)

unfoldable pub run : List Event → Store → Store
unfolding step
run [] s = s
run (e ∷ es) s = run es (step e s)

-- The session `id`, of expiry `exp`, has not expired at the event, and a logout of it names `exp`.
abbrev pub Spares : String → ℕ → Event → Type 0
Spares id exp (logout committed now later j e reason) =
    (expired exp later ≡ false) × (j ≡ id → e ≡ exp)
Spares id exp (sign_out committed now later user reason) = expired exp later ≡ false
Spares id exp (restart now) = expired exp now ≡ false
Spares id exp (crash now row later) =
    (expired exp now ≡ false) × (expired exp later ≡ false) × RowsExpire id exp (row ∷ [])

module _ (id : String) (exp : ℕ) where
  pub start-Agrees :
      (now : ℕ) (db : List SessionRevocation) → RowsExpire id exp db → Agrees id exp (start now db)
  unfolding start load get_or get has
  start-Agrees now db h = record {
    is_loaded = refl;
    epochs_agree = λ user. ground (
      arith,
      get_or-learn_all user (record { epochs = []; revoked = []; loaded = false }) (sweep now db),
    );
    id_agrees = ground (
      arith,
      has-learn_all id (record { epochs = []; revoked = []; loaded = false }) (sweep now db),
    );
    rows_expire = RowsExpire-sweep id exp now db h;
    entries_expire =
        EntriesExpire-learn_all id exp (record { epochs = []; revoked = []; loaded = false })
          (sweep now db) tt (RowsExpire-sweep id exp now db h);
  }

  pub write-Agrees :
      (committed : Bool) (now : ℕ) (rows : List SessionRevocation) (s : Store)
      → Agrees id exp s
      → RowsExpire id exp rows
      → Agrees id exp (write committed now rows s).1
  unfolding write commit remember
  write-Agrees false now rows s a h = a
  write-Agrees true now rows s a h =
      let all_rows : RowsExpire id exp (s.db ++ rows) =
        RowsExpire-append id exp s.db rows a.rows_expire h in
      let m = learn_all s.memory rows in
      let entries : EntriesExpire id exp m.revoked =
        EntriesExpire-learn_all id exp s.memory rows a.entries_expire h in
      record {
        is_loaded = loaded-learn_all s.memory rows ∙ a.is_loaded;
        epochs_agree = λ user. ground (
          arith,
          get_or-learn_all user s.memory rows,
          epoch_of-sweep user now (s.db ++ rows),
          epoch_of-append user s.db rows,
          a.epochs_agree user,
        );
        id_agrees = ground (
          arith,
          has-forget id exp now m.revoked m.revoked entries,
          has-learn_all id s.memory rows,
          killed-sweep id exp now (s.db ++ rows) all_rows,
          killed-append id s.db rows,
          a.id_agrees,
        );
        rows_expire = RowsExpire-sweep id exp now (s.db ++ rows) all_rows;
        entries_expire = EntriesExpire-forget id exp now m.revoked m.revoked entries;
      }

  -- A logout of the empty id writes nothing; any other writes a row that expires as it says.
  pub step-Agrees :
      (e : Event) (s : Store) → Agrees id exp s → Spares id exp e → Agrees id exp (step e s)
  unfolding step revoke_jti revoke_user
  step-Agrees (logout committed now later j e reason) s a (live, same) =
      let written : Agrees id exp (write committed later (jti_row j e reason now ∷ []) s).1 =
        write-Agrees committed later (jti_row j e reason now ∷ []) s a
          (λ h. same ((eq_iff j id).0 h), tt) in
      ground arith
  step-Agrees (sign_out committed now later user reason) s a live =
      write-Agrees committed later (epoch_row user (cutoff now user s.memory) reason now ∷ []) s a
        (λ h. ground arith, tt)
  step-Agrees (restart now) s a live = start-Agrees now s.db a.rows_expire
  step-Agrees (crash now row later) s a (live, live', h) =
      start-Agrees later (commit now (row ∷ []) s.db)
        (RowsExpire-commit id exp now (row ∷ []) s.db h a.rows_expire)

  -- No event takes the rows of the session id away.
  pub step-killed :
      (e : Event) (s : Store)
      → RowsExpire id exp s.db
      → Spares id exp e
      → killed id s.db ≡ true
      → killed id (step e s).db ≡ true
  unfolding step revoke_jti revoke_user start load write
  step-killed (logout committed now later j e reason) s a (live, same) h = ground (
    arith,
    killed-commit id exp later (jti_row j e reason now ∷ []) s.db
        (λ h. same ((eq_iff j id).0 h), tt) a,
  )
  step-killed (sign_out committed now later user reason) s a live h = ground (
    arith,
    killed-commit id exp later (epoch_row user (cutoff now user s.memory) reason now ∷ []) s.db
        (λ h. ground arith, tt) a,
  )
  step-killed (restart now) s a live h = ground (arith, killed-sweep id exp now s.db a)
  step-killed (crash now row later) s a (live, live', k) h = ground (
    arith,
    killed-commit id exp now (row ∷ []) s.db k a,
    killed-sweep id exp later (commit now (row ∷ []) s.db)
        (RowsExpire-commit id exp now (row ∷ []) s.db k a),
  )

-- No event moves an epoch back.
pub epoch_of-step :
    (user : String) (e : Event) (s : Store) → epoch_of user s.db ≤ epoch_of user (step e s).db
unfolding step revoke_jti revoke_user start load write
epoch_of-step user (logout committed now later j e reason) s =
    ground (arith, epoch_of-commit user later (jti_row j e reason now ∷ []) s.db)
epoch_of-step user (sign_out committed now later u reason) s =
    ground
      (arith, epoch_of-commit user later (epoch_row u (cutoff now u s.memory) reason now ∷ []) s.db)
epoch_of-step user (restart now) s = ground (arith, epoch_of-sweep user now s.db)
epoch_of-step user (crash now row later) s = ground (
  arith,
  epoch_of-commit user now (row ∷ []) s.db,
  epoch_of-sweep user later (commit now (row ∷ []) s.db),
)
