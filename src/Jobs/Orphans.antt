-- ===== src/Jobs/Orphans.antt =====
-- The sweep of orphaned jobs after a restart, in jobs.py.
use spark_controlplane.Prelude.{
  ℕ, ◌+◌, ◌≡◌, refl, true, false, List, [], ◌∷◌, All, All-map, length, map, keep_if, contains,
  arith, nat_eq, nat_beq_iff, if◌then◌else◌,
}
use spark_controlplane.Jobs.{
  Job, EvalRun, is_live, is_orphan, interrupt, ids, sweep_eval_runs, reconcile_orphans,
}

module _ (tasks : List ℕ) where
  abbrev orphans : List Job → List ℕ
  orphans jobs = ids (keep_if (λ j. is_orphan tasks j) jobs)

  abbrev Listed : List ℕ → Job → Type 0
  Listed o j = is_orphan tasks j ≡ true → contains j.id o ≡ true

  orphan-Listed : (jobs : List Job) → All (Listed (orphans jobs)) jobs
  orphan-Listed [] = tt
  orphan-Listed (j ∷ jobs) = (
    λ h. ground (arith, nat_beq_iff j.id j.id),
    All-map (Listed (orphans jobs)) (Listed (orphans (j ∷ jobs))) jobs
        (λ k f h. ground (arith, f h)) (orphan-Listed jobs),
  )

  task-no_orphan :
      (n : ℕ) (jobs : List Job) → contains n tasks ≡ true → contains n (orphans jobs) ≡ false
  task-no_orphan n [] h = refl
  task-no_orphan n (j ∷ jobs) h = ground (arith, task-no_orphan n jobs h, nat_beq_iff j.id n)

  -- A row after the sweep, if the ids of the orphans are in `o`.
  abbrev swept : List ℕ → ℕ → Job → Job
  swept o now j = if contains j.id o then interrupt now j else j

  live-swept :
      (o : List ℕ) (now : ℕ) (jobs : List Job)
      → All (Listed o) jobs
      → All (λ j. is_live j.status ≡ true → contains j.id tasks ≡ true) (map (swept o now) jobs)
  live-swept o now [] h = tt
  live-swept o now (j ∷ jobs) (h, hs) = (λ k. ground arith, live-swept o now jobs hs)

  driven-swept :
      (o : List ℕ) (now : ℕ) (jobs : List Job)
      → ((n : ℕ) → contains n tasks ≡ true → contains n o ≡ false)
      → keep_if (λ j. contains j.id tasks) (map (swept o now) jobs)
        ≡ keep_if (λ j. contains j.id tasks) jobs
  driven-swept o now [] h = refl
  driven-swept o now (j ∷ jobs) h = ground (arith, driven-swept o now jobs h, h j.id)

length-ids : (jobs : List Job) → length (ids jobs) ≡ length jobs
length-ids [] = refl
length-ids (j ∷ jobs) = omega (arith, length-ids jobs)

runs-swept :
    (now : ℕ) (runs : List EvalRun)
    → All (λ r. is_live r.status ≡ false) (sweep_eval_runs now runs).1
unfolding sweep_eval_runs
runs-swept now [] = tt
runs-swept now (r ∷ runs) = (ground arith, runs-swept now runs)

-- After the sweep of orphans, a job whose row says pending or running has a task in this process
-- and no evaluation run says so; the rows of jobs that have a task are untouched, and the number
-- returned is that of the live jobs without a task and of the live evaluation runs.
pub reconcile_orphans-settles :
    (tasks : List ℕ) (now : ℕ) (jobs : List Job) (runs : List EvalRun)
    → let (count, jobs', runs') = reconcile_orphans tasks now jobs runs in
      All (λ j. is_live j.status ≡ true → contains j.id tasks ≡ true) jobs'
      × All (λ r. is_live r.status ≡ false) runs'
      × (keep_if (λ j. contains j.id tasks) jobs' ≡ keep_if (λ j. contains j.id tasks) jobs)
      × (count
          ≡ length (keep_if (λ j. is_orphan tasks j) jobs)
            + length (keep_if (λ r. is_live r.status) runs))
unfolding reconcile_orphans sweep_eval_runs
reconcile_orphans-settles tasks now jobs runs = (
  live-swept tasks (orphans tasks jobs) now jobs (orphan-Listed tasks jobs),
  runs-swept now runs,
  driven-swept tasks (orphans tasks jobs) now jobs (λ n. task-no_orphan tasks n jobs),
  ground (arith, length-ids (keep_if (λ j. is_orphan tasks j) jobs)),
)
