-- ===== src/Sessions.antt =====
-- backend/app/services/sessions.py: the revocation of sessions, with the SessionRevocation rows of
-- backend/app/models.py. Times are whole microseconds since the epoch. The database and the
-- memory of the process are one `Store`, since a restart loses the second and keeps the first.
pub mod Views
pub mod Restart
pub mod Answers
mod Tests
use spark_controlplane.Prelude.{
  ℕ, max, String, Bool, true, false, not, ◌&&◌, Option, none, some, List, [], ◌∷◌, ◌++◌, length,
  keep_if, ltb, leb, ◌==◌, nat_eq, string_eq, if◌then◌else◌,
}
use spark_controlplane.Dict.{Dict, get, set, pop, get_or}

-- The two values of the column `kind`.
pub data Kind : Type 0 where
  jti : Kind
  epoch : Kind

pub record SessionRevocation : Type 0 where
  pub kind : Kind
  pub subject : String
  pub not_before : ℕ
  pub expires_at : ℕ
  pub reason : String
  pub created_at : ℕ

-- `_EPOCHS`, `_REVOKED` and `_loaded`
pub record Memory : Type 0 where
  pub epochs : Dict String ℕ
  pub revoked : Dict String ℕ
  pub loaded : Bool

pub record Store : Type 0 where
  pub db : List SessionRevocation
  pub memory : Memory

abbrev pub global_subject : String
global_subject = ""

-- The module as it is imported, and reset_for_tests.
abbrev pub fresh : Memory
fresh = record { epochs = []; revoked = []; loaded = false }

-- `0 < exp <= now`
abbrev pub expired : ℕ → ℕ → Bool
expired exp now = ltb 0 exp && leb exp now

abbrev pub is_swept : ℕ → SessionRevocation → Bool
is_swept now r = elim r.kind [ jti ↦ expired r.expires_at now | epoch ↦ false ]

-- The `delete` statement.
unfoldable pub sweep : ℕ → List SessionRevocation → List SessionRevocation
sweep now rows = keep_if (λ r. not (is_swept now r)) rows

unfoldable pub learn : Memory → SessionRevocation → Memory
learn m r = elim r.kind [
  | epoch ↦ record m {
    epochs = set r.subject (max (get_or r.subject 0 m.epochs) r.not_before) m.epochs;
  }
  | jti ↦ record m { revoked = set r.subject r.expires_at m.revoked }
]

unfoldable pub learn_all : Memory → List SessionRevocation → Memory
unfolding learn
learn_all m [] = m
learn_all m (r ∷ rows) = learn_all (learn m r) rows

-- `load` returns the number of rows.
unfoldable pub load : ℕ → Store → ℕ × Store
unfolding sweep learn_all
load now s =
    let rows = sweep now s.db in
    let m = learn_all (record s.memory { epochs = []; revoked = [] }) rows in
    (length rows, record { db = rows; memory = record m { loaded = true } })

-- `if jti and jti in _REVOKED`: None and the empty text are false.
unfoldable pub is_known : Option String → Dict String ℕ → Bool
unfolding get
is_known none revoked = false
is_known (some id) revoked =
    not (id == "") && elim (get id revoked) [ none ↦ false | some e ↦ true ]

unfoldable pub is_revoked : Memory → String → Option String → ℕ → Bool
unfolding is_known get_or
is_revoked m user id issued_at =
    if not m.loaded
    then true
    else if is_known id m.revoked
    then true
    else if ltb issued_at (get_or global_subject 0 m.epochs)
    then true
    else ltb issued_at (get_or user 0 m.epochs)

unfoldable pub epoch_for : Memory → String → ℕ
unfolding get_or
epoch_for m user = max (get_or user 0 m.epochs) (get_or global_subject 0 m.epochs)

-- The loop at the end of `_write`, over a copy of the entries.
unfoldable pub forget : ℕ → Dict String ℕ → Dict String ℕ → Dict String ℕ
unfolding pop
forget now [] revoked = revoked
forget now ((id, exp) ∷ items) revoked =
    forget now items (if expired exp now then pop id revoked else revoked)

-- The transaction of `_write`.
unfoldable pub commit : ℕ → List SessionRevocation → List SessionRevocation → List SessionRevocation
unfolding sweep
commit now rows db = sweep now (db ++ rows)

-- What `_write` does to the memory after it.
unfoldable pub remember : ℕ → List SessionRevocation → Memory → Memory
unfolding learn_all forget
remember now rows m =
    let m' = learn_all m rows in record m' { revoked = forget now m'.revoked m'.revoked }

-- `_write`: `committed` says whether the commit succeeds; if not, it raises, and false is returned.
unfoldable pub write : Bool → ℕ → List SessionRevocation → Store → Bool × Store
unfolding commit remember
write committed now rows s =
    if committed
    then (true, record { db = commit now rows s.db; memory = remember now rows s.memory })
    else (false, s)

abbrev pub jti_row : String → ℕ → String → ℕ → SessionRevocation
jti_row id expires_at reason now = record {
  kind = jti;
  subject = id;
  not_before = 0;
  expires_at = expires_at;
  reason = reason;
  created_at = now;
}

-- `now` is the clock when it is first read, and `later` when `_write` reads it.
unfoldable pub revoke_jti : Bool → ℕ → ℕ → String → ℕ → String → Store → Bool × Store
unfolding write
revoke_jti committed now later id expires_at reason s =
    if id == "" then (true, s) else write committed later (jti_row id expires_at reason now ∷ []) s

-- The cutoff: an epoch never moves back.
unfoldable pub cutoff : ℕ → String → Memory → ℕ
unfolding get_or
cutoff now user m = max now (get_or user 0 m.epochs)

abbrev pub epoch_row : String → ℕ → String → ℕ → SessionRevocation
epoch_row user not_before reason now = record {
  kind = epoch;
  subject = user;
  not_before = not_before;
  expires_at = 0;
  reason = reason;
  created_at = now;
}

-- It returns the cutoff, or raises what `_write` raises.
unfoldable pub revoke_user : Bool → ℕ → ℕ → String → String → Store → Option ℕ × Store
unfolding write cutoff
revoke_user committed now later user reason s =
    let not_before = cutoff now user s.memory in
    let (done, s') = write committed later (epoch_row user not_before reason now ∷ []) s in
    (if done then some not_before else none, s')

unfoldable pub revoke_everyone : Bool → ℕ → ℕ → String → Store → Option ℕ × Store
unfolding revoke_user
revoke_everyone committed now later reason s =
    revoke_user committed now later global_subject reason s
