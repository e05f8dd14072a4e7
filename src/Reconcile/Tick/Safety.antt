-- ===== src/Reconcile/Tick/Safety.antt =====
-- What a pass of the observer may do to the rows, and to whom it yields.
use spark_controlplane.Prelude.{
  ℕ, ◌≡◌, refl, ◌⊎◌, inl, inr, true, false, ◌&&◌, Option, none, some, List, [], ◌∷◌, any, arith,
  ◌==◌, nat_eq, Bool-cases, Option-cases, keep_if,
}
use mathlib.Core.Path.{subst}
use spark_controlplane.Dict.{Dict, get, set, get_or, setdefault}
use spark_controlplane.Models.{
  InstStatus, starting, running, error, Instance, status_eq, Reason, reconciled,
}
use spark_controlplane.InstState.{in_flight}
use spark_controlplane.Reconcile.{Observation, Verdict, Pending, no_pending, decide}
use spark_controlplane.Reconcile.Edges.{IsSound, decide-IsSound}
use spark_controlplane.Reconcile.Tick.{
  Probe, Db, World, observe, matches, write, apply, Pass, settle, examine, visit, visit_all, tick,
  probes_of, is_probed,
}

abbrev pub Pairs : (Instance → Instance → Type 0) → Db → Db → Type 0
Pairs R [] [] = Unit
Pairs R (x ∷ xs) (y ∷ ys) = R x y × Pairs R xs ys
Pairs R _ _ = ⊥

-- A verdict promotes a starting or failed instance, or demotes a starting or running one.
abbrev IsEdge : Verdict → Type 0
IsEdge v =
    (v.to_status ≡ running)
      × (v.healthy_now ≡ true)
      × ((v.from_status ≡ starting) ⊎ (v.from_status ≡ error))
    ⊎ (v.to_status ≡ error)
      × (v.healthy_now ≡ false)
      × ((v.from_status ≡ starting) ⊎ (v.from_status ≡ running))

IsSound-IsEdge : (obs : Observation) (v : Verdict) → IsSound obs v → IsEdge v
IsSound-IsEdge obs v h = ground (arith, h.same_status, h.evidence)

module _ (w : World) (probes : Dict ℕ Probe) where
  -- /health was seen green: the row is running, with the time of the pass and no error.
  abbrev pub Promoted : Instance → Instance → Type 0
  Promoted old new =
      ((old.status ≡ starting) ⊎ (old.status ≡ error))
      × (new ≡ record old { status = running; last_healthy_at = some w.utcnow; last_error = none })

  -- The row is failed, for a reason; the time when it was healthy last stays.
  abbrev pub Demoted : Instance → Instance → Type 0
  Demoted old new =
      ((old.status ≡ starting) ⊎ (old.status ≡ running))
      × (reason : Reason) × (new
          ≡ record old { status = error; last_error = some (reconciled error reason) })

  -- The observer wrote the row: the instance is probed and no job owns it.
  pub record Changed (old new : Instance) : Type 0 where
    pub idle : in_flight old.id (w.registry old.id) ≡ none
    pub probed : is_probed probes old.id ≡ true
    pub wrote : Promoted old new ⊎ Demoted old new

  -- No write, or one after another.
  pub data Moved : Instance → Instance → Type 0 where
    kept : {old new : Instance} → new ≡ old → Moved old new
    then :
        {old new : Instance} (next : Instance) → Changed old next → Moved next new → Moved old new

  Moved-trans : (x y z : Instance) → Moved x y → Moved y z → Moved x z
  Moved-trans x y z (kept e) q = subst (λ t. Moved t z) e q
  Moved-trans x y z (then next c p) q = then next c (Moved-trans next y z p q)

  Pairs-refl : (db : Db) → Pairs Moved db db
  Pairs-refl [] = tt
  Pairs-refl (x ∷ db) = (kept refl, Pairs-refl db)

  Pairs-trans : (a b c : Db) → Pairs Moved a b → Pairs Moved b c → Pairs Moved a c
  Pairs-trans [] [] [] p q = tt
  Pairs-trans (x ∷ a) (y ∷ b) (z ∷ c) p q = (Moved-trans x y z p.0 q.0, Pairs-trans a b c p.1 q.1)
  Pairs-trans [] (y ∷ b) c p q = elim p [ ]
  Pairs-trans (x ∷ a) [] c p q = elim p [ ]
  Pairs-trans [] [] (z ∷ c) p q = elim q [ ]
  Pairs-trans (x ∷ a) (y ∷ b) [] p q = elim q [ ]

  module _ (v : Verdict) (edge : IsEdge v)
      (idle : in_flight v.instance_id (w.registry v.instance_id) ≡ none)
      (probed : is_probed probes v.instance_id ≡ true) where
    write-Changed : (x : Instance) → matches v x ≡ true → Changed x (write v w.utcnow x)
    unfolding write
    write-Changed x m =
        let same : x.id ≡ v.instance_id = ground arith in
        let from : x.status ≡ v.from_status = ground arith in
        record {
          idle = rw same idle;
          probed = rw same probed;
          wrote = elim edge [
            | inl (to, green, was) ↦ inl (rw from was, rw (green, to, write) refl)
            | inr (to, red, was) ↦ inr (rw from was, v.reason, rw (red, to, write) refl)
          ];
        }

    apply-Pairs : (db : Db) → Pairs Moved db (apply v w.utcnow db).1
    unfolding apply
    apply-Pairs [] = tt
    apply-Pairs (x ∷ db) = elim (Bool-cases (matches v x)) [
      | inl hit ↦ rw hit (then _ (write-Changed x hit) (kept refl), apply-Pairs db)
      | inr miss ↦ rw miss (kept refl, apply-Pairs db)
    ]

  -- No other task writes to the rows during the pass.
  abbrev pub Alone : Type 0
  Alone = (id : ℕ) (db : Db) → w.others id db ≡ db

  module _ (alone : Alone) where
    settle-Pairs :
        (id : ℕ) (verdict : Option Verdict) (s : Pass)
        → ((v : Verdict) → verdict ≡ some v → IsEdge v × (v.instance_id ≡ id))
        → in_flight id (w.registry id) ≡ none
        → is_probed probes id ≡ true
        → Pairs Moved s.db (settle w id verdict s).db
    unfolding settle
    settle-Pairs id none s sound idle probed = Pairs-refl s.db
    settle-Pairs id (some v) s sound idle probed =
        let (edge, same) = sound v refl in
        let moved = apply-Pairs v edge (rw same idle) (rw same probed) s.db in
        elim (Bool-cases (apply v w.utcnow s.db).0) [
          | inl written ↦ rw (alone id s.db, written) moved
          | inr lost ↦ rw (alone id s.db, lost) moved
        ]

    examine-Pairs :
        (probe : Probe) (inst : Instance) (s : Pass)
        → in_flight inst.id (w.registry inst.id) ≡ none
        → is_probed probes inst.id ≡ true
        → Pairs Moved s.db (examine w probe inst s).db
    unfolding examine
    examine-Pairs probe inst s idle probed =
        let obs = observe w probe inst in
        let timers = setdefault inst.id no_pending s.pending in
        let p = get_or inst.id no_pending timers in
        let (verdict, p') = decide w.settings obs p w.now in
        settle-Pairs inst.id verdict (record s { pending = set inst.id p' timers })
          (λ v e.
            let sound = decide-IsSound w.settings obs p w.now v e in
            (IsSound-IsEdge obs v sound, sound.same_instance))
          idle probed

    visit-Pairs : (inst : Instance) (s : Pass) → Pairs Moved s.db (visit w probes inst s).db
    unfolding visit is_probed
    visit-Pairs inst s = elim (Option-cases (get inst.id probes)) [
      | inl absent ↦ rw (absent, visit) (Pairs-refl s.db)
      | inr (probe, found) ↦ elim (Option-cases (in_flight inst.id (w.registry inst.id))) [
        | inl idle ↦
            rw (found, idle, visit) (examine-Pairs probe inst s idle (rw (is_probed, found)))
        | inr (job, owned) ↦ rw (found, owned, visit) (Pairs-refl s.db)
      ]
    ]

    visit_all-Pairs :
        (rows : List Instance) (s : Pass) → Pairs Moved s.db (visit_all w probes rows s).db
    unfolding visit_all
    visit_all-Pairs [] s = Pairs-refl s.db
    visit_all-Pairs (inst ∷ rows) s =
        Pairs-trans s.db (visit w probes inst s).db _ (visit-Pairs inst s)
          (visit_all-Pairs rows (visit w probes inst s))

-- A pass of the observer during which no other task writes changes only rows whose instance is
-- probed and owned by no job, by writes each of which either takes a starting or failed one to
-- running, with the time of the pass as its last healthy time and no error, or a starting or
-- running one to failed, with the reason as its error and its last healthy time kept. Every other
-- column and every other row stay as they were.
pub tick-Pairs :
    (w : World) (ps : List Probe) (pending : Dict ℕ Pending) (db : Db)
    → Alone w (probes_of [] ps)
    → Pairs (Moved w (probes_of [] ps)) db (tick w (some ps) pending db).db
unfolding tick
tick-Pairs w ps pending db alone =
    let probes = probes_of [] ps in
    visit_all-Pairs w probes alone (keep_if (λ (inst : Instance). is_probed probes inst.id) db)
      (record { pending = pending; db = db; applied = [] })

apply_unmatched :
    (v : Verdict) (utcnow : ℕ) (db : Db)
    → any (matches v) db ≡ false
    → apply v utcnow db ≡ (false, db)
unfolding apply
apply_unmatched v utcnow [] miss = refl
apply_unmatched v utcnow (x ∷ db) miss = ground (arith, apply_unmatched v utcnow db)

-- No row has the id together with the status.
abbrev pub Gone : ℕ → InstStatus → Db → Type 0
Gone id status db = any (λ (row : Instance). (row.id == id) && (row.status == status)) db ≡ false

settle_race :
    (w : World) (id : ℕ) (status : InstStatus) (verdict : Option Verdict) (s : Pass)
    → ((v : Verdict) → verdict ≡ some v → (v.instance_id ≡ id) × (v.from_status ≡ status))
    → Gone id status (w.others id s.db)
    → ((settle w id verdict s).applied ≡ s.applied)
      × (((settle w id verdict s).db ≡ s.db) ⊎ ((settle w id verdict s).db ≡ w.others id s.db))
unfolding settle
settle_race w id status none s named gone = (refl, inl refl)
settle_race w id status (some v) s named gone =
    let (same, before) = named v refl in
    let miss = apply_unmatched v w.utcnow (w.others id s.db) (rw (same, before) gone) in
    rw miss (refl, inr refl)

-- A job that moved the row after it was read wins: if at the write no row has the instance's id
-- together with the status that was read, no verdict counts as applied, and the database is as it
-- was, or as the other tasks left it.
pub examine_race :
    (w : World) (probe : Probe) (inst : Instance) (s : Pass)
    → Gone inst.id inst.status (w.others inst.id s.db)
    → ((examine w probe inst s).applied ≡ s.applied)
      × (((examine w probe inst s).db ≡ s.db)
          ⊎ ((examine w probe inst s).db ≡ w.others inst.id s.db))
unfolding examine
examine_race w probe inst s gone =
    let obs = observe w probe inst in
    let timers = setdefault inst.id no_pending s.pending in
    let p = get_or inst.id no_pending timers in
    let (verdict, p') = decide w.settings obs p w.now in
    settle_race w inst.id inst.status verdict (record s { pending = set inst.id p' timers })
      (λ v e.
        let sound = decide-IsSound w.settings obs p w.now v e in
        (sound.same_instance, sound.same_status))
      gone
