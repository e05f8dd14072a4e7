-- ===== src/Jobs.antt =====
-- backend/app/services/jobs.py: the rows of jobs, the writes that may fail, the sweep of orphans, and
-- the bounded queues of the subscribers. A summary is text, so only its kind is kept; a progress is
-- in thousandths.
pub mod Orphans
pub mod Queues
mod Tests
use spark_controlplane.Prelude.{
  ℕ, zero, suc, ◌+◌, ◌≡◌, ◌↔◌, Bool, true, false, not, ◌&&◌, ◌||◌, Option, none, some, List, [],
  ◌∷◌, ◌++◌, length, map, keep_if, contains, leb, ◌==◌, nat_eq, if◌then◌else◌, Comparable, arith,
}

-- JOB_PENDING … JOB_CANCELLED
pub data JobStatus : Type 0 where
  pending running success error cancelled : JobStatus

pub data Summary : Type 0 where
  result : Summary
  was_cancelled : Summary
  exception : Summary
  interrupted : Summary

pub record Job : Type 0 where
  pub id : ℕ
  pub status : JobStatus
  pub exit_code : Option ℕ
  pub summary : Option Summary
  pub progress : Option ℕ
  pub started_at : Option ℕ
  pub finished_at : Option ℕ

-- The columns of an EvalRun that are read and written.
pub record EvalRun : Type 0 where
  pub id : ℕ
  pub status : JobStatus
  pub finished_at : Option ℕ

-- `status.in_((JOB_RUNNING, JOB_PENDING))`
abbrev pub is_live : JobStatus → Bool
is_live pending = true
is_live running = true
is_live _ = false

-- What one attempt to write meets.
pub data WriteAttempt : Type 0 where
  committed locked failed : WriteAttempt

-- The loop of `_db_write`, for that many attempts: true if the write was committed.
unfoldable pub db_write_from : (ℕ → WriteAttempt) → ℕ → ℕ → Bool
db_write_from meets attempt zero = false
db_write_from meets attempt (suc n) =
    let rest = db_write_from meets (attempt + 1) n in
    elim (meets attempt) [ committed ↦ true | locked ↦ rest | failed ↦ false ]

unfoldable pub db_write : (ℕ → WriteAttempt) → Bool → Bool
unfolding db_write_from
db_write meets critical = db_write_from meets 0 (if critical then 20 else 8)

abbrev pub with_id : ℕ → (Job → Job) → List Job → List Job
with_id id f jobs = map (λ j. if j.id == id then f j else j) jobs

-- `_set_status` and `_set_progress`, each for a write that succeeds or is dropped
unfoldable pub set_status : Bool → ℕ → JobStatus → Bool → ℕ → List Job → List Job
set_status written id status started now jobs =
    if written
    then with_id id
        (λ j. record j { status = status; started_at = if started then some now else j.started_at })
        jobs
    else jobs

unfoldable pub set_progress : Bool → ℕ → Option ℕ → List Job → List Job
set_progress written id progress jobs =
    if written then with_id id (λ j. record j { progress = progress }) jobs else jobs

abbrev pub completed : JobStatus → Option ℕ → Option ℕ
completed success none = some 1000
completed _ progress = progress

abbrev pub close : JobStatus → Option ℕ → Option Summary → ℕ → Job → Job
close status exit_code summary now j = record j {
  status = status;
  exit_code = exit_code;
  summary = summary;
  finished_at = some now;
  progress = completed status j.progress;
}

-- `_finish`: the row; what it publishes is `Queues.finished`.
unfoldable pub finish : Bool → ℕ → JobStatus → Option ℕ → Option Summary → ℕ → List Job → List Job
finish written id status exit_code summary now jobs =
    if written then with_id id (close status exit_code summary now) jobs else jobs

-- How the coroutine of a job ends.
pub data Ending : Type 0 where
  returned : (is_text : Bool) → Ending
  was_stopped : Ending
  raised : Ending

-- `_run`, for the writes at its begin and its end; false if the cancellation is raised on.
unfoldable pub run : Bool → Bool → ℕ → Ending → ℕ → ℕ → List Job → Bool × List Job
unfolding set_status finish
run begun ended id (returned is_text) now later jobs = (
  true,
  finish ended id success (some 0) (if is_text then some result else none) later
      (set_status begun id running true now jobs),
)
run begun ended id was_stopped now later jobs = (
  false,
  finish ended id cancelled (some 130) (some was_cancelled) later
      (set_status begun id running true now jobs),
)
run begun ended id raised now later jobs = (
  true,
  finish ended id error (some 1) (some exception) later (set_status begun id running true now jobs),
)

-- An orphan: the row is live, and no task of this process runs it.
abbrev pub is_orphan : List ℕ → Job → Bool
is_orphan tasks j = is_live j.status && not (contains j.id tasks)

abbrev pub interrupt : ℕ → Job → Job
interrupt now j = record j {
  status = error;
  exit_code = none;
  finished_at = some now;
  summary = some interrupted;
}

abbrev pub ids : List Job → List ℕ
ids [] = []
ids (j ∷ jobs) = j.id ∷ ids jobs

-- `_sweep_eval_runs`
unfoldable pub sweep_eval_runs : ℕ → List EvalRun → ℕ × List EvalRun
sweep_eval_runs now runs = (
  length (keep_if (λ r. is_live r.status) runs),
  map (λ r. if is_live r.status then record r { status = error; finished_at = some now } else r)
      runs,
)

-- reconcile_orphans: the number of swept rows, and both tables
unfoldable pub reconcile_orphans :
    List ℕ → ℕ → List Job → List EvalRun → ℕ × List Job × List EvalRun
unfolding sweep_eval_runs
reconcile_orphans tasks now jobs runs =
    let orphans = ids (keep_if (λ j. is_orphan tasks j) jobs) in
    let (swept, runs') = sweep_eval_runs now runs in
    (
      length orphans + swept,
      map (λ j. if contains j.id orphans then interrupt now j else j) jobs,
      runs',
    )

-- What the subscribers are sent.
pub data Event : Type 0 where
  status_is : (status : JobStatus) → Event
  progress_is : (progress : Option ℕ) → Event
  log_line : (seq : ℕ) → Event
  end : Event

abbrev pub is_terminal : Event → Bool
is_terminal (status_is status) = true
is_terminal (progress_is progress) = false
is_terminal (log_line seq) = false
is_terminal end = true

-- `get_nowait`, for a queue that has something
abbrev pub rest_of : List Event → List Event
rest_of [] = []
rest_of (e ∷ q) = q

-- One queue of `_publish`: a full one drops an event, but gives up its oldest for a terminal one.
unfoldable pub offer : ℕ → Event → List Event → List Event
offer maxsize e q =
    if not (leb maxsize (length q))
    then q ++ e ∷ []
    else if is_terminal e && not (leb maxsize (length (rest_of q)))
    then rest_of q ++ e ∷ []
    else if is_terminal e
    then rest_of q
    else q

unfoldable pub publish : ℕ → Event → List (List Event) → List (List Event)
unfolding offer
publish maxsize e queues = map (offer maxsize e) queues

-- What `_finish` publishes.
unfoldable pub finished : ℕ → JobStatus → List (List Event) → List (List Event)
unfolding publish
finished maxsize status queues = publish maxsize end (publish maxsize (status_is status) queues)
