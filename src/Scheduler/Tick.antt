-- ===== src/Scheduler/Tick.antt =====
-- The `Scheduler` of backend/app/services/scheduler.py: what one tick does to its two dictionaries,
-- and the actions that it issues. The settings' RETRY_SECONDS and the clock are arguments; a tick
-- reads the clock once here.
pub mod Retries
use spark_controlplane.Prelude.{
  ℕ, zero, suc, ◌+◌, Bool, true, false, not, ◌&&◌, ◌||◌, Option, none, some, List, [], ◌∷◌, ◌++◌,
  leb, ltb, ◌==◌, nat_eq, contains, if◌then◌else◌,
}
use spark_controlplane.Dict.{Dict, get, set, pop, get_or, keys}
use spark_controlplane.Models.{InstStatus, Instance, stopped, starting, running, error, status_eq}
use spark_controlplane.Scheduler.{DateTime, InstanceSchedule, desired_state}

pub data Action : Type 0 where
  start stop : Action

abbrev pub is_start : Action → Bool
is_start start = true
is_start stop = false

-- (action, last_attempt_ts, attempts)
pub record Attempt : Type 0 where
  pub action : Action
  pub at : ℕ
  pub attempts : ℕ

abbrev pub max_attempts : ℕ
max_attempts = 5

pub record Scheduler : Type 0 where
  pub last_desired : Dict ℕ Bool
  pub pending : Dict ℕ Attempt

-- `prev is None or desired != prev`
abbrev pub is_edge : Option Bool → Bool → Bool
is_edge none desired = true
is_edge (some true) desired = not desired
is_edge (some false) desired = desired

abbrev pub startable : InstStatus → Bool
startable status = (status == stopped) || (status == error)

unfoldable pub decide : Option Bool → Bool → InstStatus → Option Action
decide prev desired status =
    if is_edge prev desired
    then if desired && startable status
      then some start
      else if not desired && ((status == running) || (status == starting))
      then some stop
      else none
    else none

abbrev pub reached : Action → InstStatus → Bool
reached start status = status == running
reached stop status = status == stopped

-- No job is in flight that would do the action.
abbrev pub possible : Action → InstStatus → Bool
possible start status = startable status
possible stop status = (status == running) || (status == starting) || (status == error)

-- What _retry_action does with a pending attempt: the action, and the attempt that stays.
unfoldable pub retry_attempt : ℕ → ℕ → Bool → InstStatus → Attempt → Option Action × Option Attempt
retry_attempt retry time desired status a =
    if reached a.action status || not (if is_start a.action then desired else not desired)
    then (none, none)
    else if ltb time (a.at + retry)
    then (none, some a)
    else if leb max_attempts a.attempts
    then (none, none)
    else if possible a.action status
    then (some a.action, some (record a { at = time; attempts = a.attempts + 1 }))
    else (none, some a)

unfoldable pub store : ℕ → Option Attempt → Dict ℕ Attempt → Dict ℕ Attempt
store iid none d = pop iid d
store iid (some a) d = set iid a d

unfoldable pub retry_action :
    ℕ → ℕ → ℕ → Bool → InstStatus → Dict ℕ Attempt → Option Action × Dict ℕ Attempt
unfolding retry_attempt store
retry_action retry time iid desired status pending = elim (get iid pending) [
  | none ↦ (none, pending)
  | some a ↦
      let (action, kept) = retry_attempt retry time desired status a in
      (action, store iid kept pending)
]

-- An action on an edge is the first attempt; where there is none, an earlier one may be retried.
unfoldable pub act :
    Option Action → ℕ → ℕ → ℕ → Bool → InstStatus → Dict ℕ Attempt → Option Action × Dict ℕ Attempt
unfolding retry_action
act (some action) retry time iid desired status pending =
    (some action, set iid (record { action = action; at = time; attempts = 1 }) pending)
act none retry time iid desired status pending = retry_action retry time iid desired status pending

-- The body of the loop over the instances, once the desired state is known.
unfoldable pub visit : ℕ → ℕ → ℕ → Bool → InstStatus → Scheduler → Option Action × Scheduler
unfolding decide act
visit retry time iid desired status s =
    let last = set iid desired s.last_desired in
    let (action, pending) =
      act (decide (get iid s.last_desired) desired status) retry time iid desired status
        s.pending in
    (action, record { last_desired = last; pending = pending })

-- A schedule with the instance that it is loaded with.
pub record Row : Type 0 where
  pub schedule : InstanceSchedule
  pub instance : Option Instance

pub record Group : Type 0 where
  pub instance : Instance
  pub schedules : List InstanceSchedule

-- `by_instance`: the schedules of each instance, and the instance of the first.
unfoldable pub group_rows : Dict ℕ Group → List Row → Dict ℕ Group
group_rows by [] = by
group_rows by (r ∷ rows) =
    let iid = r.schedule.instance_id in
    group_rows
      (elim r.instance [
        | none ↦ by
        | some inst ↦ elim (get iid by) [
          | none ↦ set iid (record { instance = inst; schedules = r.schedule ∷ [] }) by
          | some g ↦ set iid (record g { schedules = g.schedules ++ r.schedule ∷ [] }) by
        ]
      ])
      rows

-- `for gone in set(self._last_desired) - by_instance.keys()`
unfoldable pub forget : List ℕ → List ℕ → Scheduler → Scheduler
forget known [] s = s
forget known (iid ∷ ids) s = forget known ids (
    if contains iid known
    then s
    else record { last_desired = pop iid s.last_desired; pending = pop iid s.pending })

-- What a tick leaves: a ValueError of a schedule's text ends it, with what was done so far.
pub record Result : Type 0 where
  pub scheduler : Scheduler
  pub actions : List (ℕ × Action)
  pub raised : Bool

unfoldable pub visit_all : ℕ → ℕ → DateTime → Dict ℕ Group → Scheduler → List (ℕ × Action) → Result
unfolding visit desired_state
visit_all retry time now [] s actions = record { scheduler = s; actions = actions; raised = false }
visit_all retry time now ((iid, g) ∷ groups) s actions = elim (desired_state g.schedules now) [
  | none ↦ record { scheduler = s; actions = actions; raised = true }
  | some desired ↦
      let (action, s') = visit retry time iid desired g.instance.status s in
      visit_all retry time now groups s'
        (elim action [ none ↦ actions | some a ↦ actions ++ (iid, a) ∷ [] ])
]

unfoldable pub tick : ℕ → ℕ → DateTime → List Row → Scheduler → Result
unfolding visit_all group_rows forget
tick retry time now rows s =
    let by = group_rows [] rows in
    visit_all retry time now by (forget (keys by) (keys s.last_desired) s) []
