-- ===== src/Jobs/Tests.antt =====
-- jobs.py at concrete inputs.
use spark_controlplane.Prelude.{
  ℕ, ◌+◌, ◌≤◌, ◌≡◌, refl, true, false, none, some, List, [], ◌∷◌, All, length, keep_if, contains,
  leb, leb→le, if◌then◌else◌, nat_eq,
}
use spark_controlplane.Jobs.{
  JobStatus, pending, running, success, error, Job, EvalRun, is_live, is_orphan, reconcile_orphans,
  run, raised, db_write, WriteAttempt, committed, locked, Event, status_is, log_line, end, finished,
}
use spark_controlplane.Jobs.Orphans.{reconcile_orphans-settles}
use spark_controlplane.Jobs.Queues.{EndsWith, finished-EndsWith}

abbrev job : Job
job = record {
  id = 1;
  status = running;
  exit_code = none;
  summary = none;
  progress = none;
  started_at = some 5;
  finished_at = none;
}

abbrev jobs : List Job
jobs = job ∷ record job { id = 2; status = pending } ∷ record job { id = 3; status = success } ∷ []

abbrev evals : List EvalRun
evals = record { id = 9; status = running; finished_at = none } ∷ []

-- The write of a status that meets a locked database twice.
abbrev busy : ℕ → WriteAttempt
busy n = if leb 2 n then committed else locked

db_write_test : db_write busy true ≡ true
unfolding db_write
db_write_test = refl

abbrev statuses : List Job → List JobStatus
statuses [] = []
statuses (j ∷ js) = j.status ∷ statuses js

run_test : statuses (run true true 2 raised 6 7 jobs).1 ≡ running ∷ error ∷ success ∷ []
unfolding run
run_test = refl

reconcile_orphans-settles_example :
    (let (count, jobs', runs') = reconcile_orphans (2 ∷ []) 30 jobs evals in
      All (λ j. is_live j.status ≡ true → contains j.id (2 ∷ []) ≡ true) jobs'
      × All (λ r. is_live r.status ≡ false) runs'
      × (keep_if (λ j. contains j.id (2 ∷ [])) jobs' ≡ keep_if (λ j. contains j.id (2 ∷ [])) jobs)
      × (count
          ≡ length (keep_if (λ j. is_orphan (2 ∷ []) j) jobs)
            + length (keep_if (λ r. is_live r.status) evals)))
reconcile_orphans-settles_example = reconcile_orphans-settles (2 ∷ []) 30 jobs evals

-- A full queue of two, and an empty one.
abbrev queues : List (List Event)
queues = (log_line 1 ∷ log_line 2 ∷ []) ∷ [] ∷ []

finished-EndsWith_test :
    All (λ q. (length q ≤ 2) × EndsWith (status_is success) end q) (finished 2 success queues)
finished-EndsWith_test =
    finished-EndsWith 2 success queues (leb→le 2 2 refl) (leb→le 2 2 refl, (leb→le 0 2 refl, tt))
