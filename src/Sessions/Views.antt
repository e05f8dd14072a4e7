-- ===== src/Sessions/Views.antt =====
-- What the rows and the memory of sessions.py say of one user and of one session id.
use spark_controlplane.Prelude.{
  ℕ, max, ◌≡◌, refl, ◌∙◌, String, Bool, true, false, not, ◌&&◌, ◌||◌, none, some, List, [], ◌∷◌,
  ◌++◌, All, arith, ◌==◌, nat_eq, string_eq, if◌then◌else◌, eq_iff,
}
use spark_controlplane.Dict.{Dict, get, set, pop, get_or}
use spark_controlplane.Dict.Laws.{get-set, get_or-set, get-pop}
use spark_controlplane.Sessions.{
  jti, epoch, SessionRevocation, Memory, expired, sweep, learn, learn_all, forget, commit,
}

-- The latest epoch that the rows hold for a user; 0 if there is none.
abbrev pub epoch_of : String → List SessionRevocation → ℕ
epoch_of user [] = 0
epoch_of user (r ∷ rows) = elim r.kind [
  | jti ↦ epoch_of user rows
  | epoch ↦ if r.subject == user then max r.not_before (epoch_of user rows) else epoch_of user rows
]

abbrev pub is_row_of : String → SessionRevocation → Bool
is_row_of id r = elim r.kind [ jti ↦ r.subject == id | epoch ↦ false ]

-- Whether a row kills the session with this id.
abbrev pub killed : String → List SessionRevocation → Bool
killed id [] = false
killed id (r ∷ rows) = is_row_of id r || killed id rows

unfoldable pub has : String → Dict String ℕ → Bool
unfolding get
has id d = elim (get id d) [ none ↦ false | some e ↦ true ]

-- Every row and every entry for the session id gives it the same expiry.
abbrev pub RowsExpire : String → ℕ → List SessionRevocation → Type 0
RowsExpire id exp rows = All (λ r. is_row_of id r ≡ true → r.expires_at ≡ exp) rows

abbrev pub EntriesExpire : String → ℕ → Dict String ℕ → Type 0
EntriesExpire id exp d = All (λ entry. entry.0 ≡ id → entry.1 ≡ exp) d

pub epoch_of-append :
    (user : String) (rows more : List SessionRevocation)
    → epoch_of user (rows ++ more) ≡ max (epoch_of user rows) (epoch_of user more)
epoch_of-append user [] more = ground arith
epoch_of-append user (r ∷ rows) more = ground (arith, epoch_of-append user rows more)

pub killed-append :
    (id : String) (rows more : List SessionRevocation)
    → killed id (rows ++ more) ≡ (killed id rows || killed id more)
killed-append id [] more = refl
killed-append id (r ∷ rows) more = ground (arith, killed-append id rows more)

pub epoch_of-sweep :
    (user : String) (now : ℕ) (rows : List SessionRevocation)
    → epoch_of user (sweep now rows) ≡ epoch_of user rows
unfolding sweep
epoch_of-sweep user now [] = refl
epoch_of-sweep user now (r ∷ rows) = ground (arith, epoch_of-sweep user now rows)

pub killed-sweep :
    (id : String) (exp now : ℕ) (rows : List SessionRevocation)
    → RowsExpire id exp rows
    → killed id (sweep now rows) ≡ (killed id rows && not (expired exp now))
unfolding sweep
killed-sweep id exp now [] h = refl
killed-sweep id exp now (r ∷ rows) (h, hs) = ground (arith, killed-sweep id exp now rows hs)

pub RowsExpire-sweep :
    (id : String) (exp now : ℕ) (rows : List SessionRevocation)
    → RowsExpire id exp rows
    → RowsExpire id exp (sweep now rows)
unfolding sweep
RowsExpire-sweep id exp now [] h = h
RowsExpire-sweep id exp now (r ∷ rows) (h, hs) = ground (arith, RowsExpire-sweep id exp now rows hs)

pub RowsExpire-append :
    (id : String) (exp : ℕ) (rows more : List SessionRevocation)
    → RowsExpire id exp rows
    → RowsExpire id exp more
    → RowsExpire id exp (rows ++ more)
RowsExpire-append id exp [] more h k = k
RowsExpire-append id exp (r ∷ rows) more (h, hs) k = (h, RowsExpire-append id exp rows more hs k)

pub get_or-learn_all :
    (user : String) (m : Memory) (rows : List SessionRevocation)
    → get_or user 0 (learn_all m rows).epochs ≡ max (get_or user 0 m.epochs) (epoch_of user rows)
unfolding learn learn_all
get_or-learn_all user m [] = ground arith
get_or-learn_all user m (r ∷ rows) = ground (
  arith,
  get_or-learn_all user (learn m r) rows,
  get_or-set r.subject user (max (get_or r.subject 0 m.epochs) r.not_before) 0 m.epochs,
  eq_iff r.subject user,
)

pub has-learn_all :
    (id : String) (m : Memory) (rows : List SessionRevocation)
    → has id (learn_all m rows).revoked ≡ (has id m.revoked || killed id rows)
unfolding learn learn_all has
has-learn_all id m [] = ground arith
has-learn_all id m (r ∷ rows) =
    ground (arith, has-learn_all id (learn m r) rows, get-set r.subject id r.expires_at m.revoked)

pub EntriesExpire-set :
    (id j : String) (exp e : ℕ) (d : Dict String ℕ)
    → EntriesExpire id exp d
    → (j ≡ id → e ≡ exp)
    → EntriesExpire id exp (set j e d)
unfolding set
EntriesExpire-set id j exp e [] h k = ground arith
EntriesExpire-set id j exp e ((i, w) ∷ d) (h, hs) k =
    ground (arith, EntriesExpire-set id j exp e d hs k, eq_iff i j)

pub EntriesExpire-pop :
    (id j : String) (exp : ℕ) (d : Dict String ℕ)
    → EntriesExpire id exp d
    → EntriesExpire id exp (pop j d)
unfolding pop
EntriesExpire-pop id j exp [] h = h
EntriesExpire-pop id j exp ((i, w) ∷ d) (h, hs) = ground (arith, EntriesExpire-pop id j exp d hs)

pub EntriesExpire-learn_all :
    (id : String) (exp : ℕ) (m : Memory) (rows : List SessionRevocation)
    → EntriesExpire id exp m.revoked
    → RowsExpire id exp rows
    → EntriesExpire id exp (learn_all m rows).revoked
unfolding learn learn_all
EntriesExpire-learn_all id exp m [] h k = h
EntriesExpire-learn_all id exp m (r ∷ rows) h (k, ks) =
    EntriesExpire-learn_all id exp (learn m r) rows
      (ground
        (arith, EntriesExpire-set id r.subject exp r.expires_at m.revoked h, eq_iff r.subject id))
      ks

pub EntriesExpire-forget :
    (id : String) (exp now : ℕ) (items d : Dict String ℕ)
    → EntriesExpire id exp d
    → EntriesExpire id exp (forget now items d)
unfolding forget
EntriesExpire-forget id exp now [] d h = h
EntriesExpire-forget id exp now ((j, e) ∷ items) d h =
    EntriesExpire-forget id exp now items (if expired e now then pop j d else d)
      (ground (arith, EntriesExpire-pop id j exp d h))

-- What is popped is gone for good.
pub has-forget :
    (id : String) (exp now : ℕ) (items d : Dict String ℕ)
    → EntriesExpire id exp items
    → has id (forget now items d) ≡ (has id d && not (has id items && expired exp now))
unfolding forget has get
has-forget id exp now [] d h = ground arith
has-forget id exp now ((j, e) ∷ items) d (h, hs) = ground (
  arith,
  has-forget id exp now items (if expired e now then pop j d else d) hs,
  get-pop j id d,
  eq_iff j id,
)

pub loaded-learn_all :
    (m : Memory) (rows : List SessionRevocation) → (learn_all m rows).loaded ≡ m.loaded
unfolding learn learn_all
loaded-learn_all m [] = refl
loaded-learn_all m (r ∷ rows) = ground (arith, loaded-learn_all (learn m r) rows)

pub epoch_of-commit :
    (user : String) (now : ℕ) (rows db : List SessionRevocation)
    → epoch_of user (commit now rows db) ≡ max (epoch_of user db) (epoch_of user rows)
unfolding commit
epoch_of-commit user now rows db =
    epoch_of-sweep user now (db ++ rows) ∙ epoch_of-append user db rows

module _ (id : String) (exp now : ℕ) (rows db : List SessionRevocation)
    (known : RowsExpire id exp rows) (stored : RowsExpire id exp db) where
  pub RowsExpire-commit : RowsExpire id exp (commit now rows db)
  unfolding commit
  RowsExpire-commit =
      RowsExpire-sweep id exp now (db ++ rows) (RowsExpire-append id exp db rows stored known)

  pub killed-commit :
      killed id (commit now rows db) ≡ ((killed id db || killed id rows) && not (expired exp now))
  unfolding commit
  killed-commit = ground (
    arith,
    killed-sweep id exp now (db ++ rows) (RowsExpire-append id exp db rows stored known),
    killed-append id db rows,
  )
