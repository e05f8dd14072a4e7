-- ===== src/Reconcile.antt =====
-- backend/app/services/reconcile.py: the observer that confirms what the start and stop jobs propose.
-- The settings are natural numbers of microseconds, and a count of restarts.
pub mod Edges
pub mod Sustain
pub mod Progress
pub mod Tick
mod Tests
use spark_controlplane.Prelude.{
  ℕ, zero, suc, ◌+◌, ◌-◌, ◌*◌, ◌/◌, String, Bool, true, false, ◌&&◌, ◌||◌, Option, none, some, List,
  [], ◌∷◌, leb, ◌==◌, nat_eq, if◌then◌else◌, contains,
}
use spark_controlplane.Dict.{Dict, get, set, pop, get_or, setdefault, keys}
use spark_controlplane.Models.{
  InstStatus, starting, running, error, Instance, Reason, health_green, unit_not_running,
  crash_loop, never_healthy, stopped_responding, reconciled, status_eq,
}
use spark_controlplane.InstState.{Registry, in_flight}

pub record Observation : Type 0 where
  pub instance_id : ℕ
  pub name : String
  pub status : InstStatus
  pub systemd_active : Option Bool
  pub health_ok : Option Bool
  pub n_restarts : Option ℕ
  pub node_reachable : Option Bool
  pub started_at : Option ℕ
  pub last_healthy_at : Option ℕ

pub record Verdict : Type 0 where
  pub instance_id : ℕ
  pub from_status : InstStatus
  pub to_status : InstStatus
  pub reason : Reason
  pub healthy_now : Bool

-- `_Pending`
pub record Pending : Type 0 where
  pub unit_dead_since : Option ℕ
  pub unhealthy_since : Option ℕ
  pub first_seen : Option ℕ
  pub restarts_at_start : Option ℕ

abbrev pub no_pending : Pending
no_pending = record {
  unit_dead_since = none;
  unhealthy_since = none;
  first_seen = none;
  restarts_at_start = none;
}

pub record Settings : Type 0 where
  pub start_deadline : ℕ
  pub unhealthy_after : ℕ
  pub unit_dead_after : ℕ
  pub crashloop_restarts : ℕ

abbrev pub minute : ℕ
minute = 60_000_000

-- `since or now`: None and 0.0 are false.
abbrev pub or_now : Option ℕ → ℕ → ℕ
or_now none now = now
or_now (some zero) now = now
or_now (some (suc t)) now = suc t

-- `b is True` and `b is False`
abbrev pub is_true : Option Bool → Bool
is_true (some true) = true
is_true _ = false

abbrev pub is_false : Option Bool → Bool
is_false (some false) = true
is_false _ = false

abbrev pub demote : Observation → Reason → Option Verdict
demote obs reason = some (record {
  instance_id = obs.instance_id;
  from_status = obs.status;
  to_status = error;
  reason = reason;
  healthy_now = false;
})

-- The sustain timers after a probe that is not green.
unfoldable pub sustain : Observation → Pending → ℕ → Pending
sustain obs p now = record p {
  unit_dead_since =
      if is_false obs.systemd_active then some (or_now p.unit_dead_since now) else none;
  unhealthy_since =
      if obs.status == running then some (or_now p.unhealthy_since now) else p.unhealthy_since;
}

-- 4. Was healthy, now is not, for long enough.
unfoldable pub judge_health : Settings → Observation → Pending → ℕ → Option Verdict
judge_health s obs p now =
    if (obs.status == running) && leb (or_now p.unhealthy_since now + s.unhealthy_after) now
    then demote obs stopped_responding
    else none

-- 3. Never healthy, past the start deadline.
unfoldable pub judge_deadline : Settings → Observation → Pending → ℕ → Option Verdict
judge_deadline s obs p now =
    let since = λ (anchor : ℕ).
      if leb (anchor + s.start_deadline) now
      then demote obs (never_healthy ((now - anchor) / minute))
      else none in
    elim obs.started_at [
      | some (suc t) ↦ since (suc t)
      | _ ↦ elim p.first_seen [ some t ↦ since t | none ↦ none ]
    ]

-- 2. Restarts climbing while it has never once served: the count at the first sight is kept.
unfoldable pub judge_restarts : Settings → Observation → Pending → ℕ → ℕ → Option Verdict × Pending
unfolding judge_deadline
judge_restarts s obs p n now =
    let base : ℕ = elim p.restarts_at_start [ none ↦ n | some b ↦ b ] in
    let p' = record p { restarts_at_start = some base } in
    if leb (base + s.crashloop_restarts) n
    then (demote obs (crash_loop (n - base)), p')
    else (judge_deadline s obs p' now, p')

unfoldable pub judge_never_healthy : Settings → Observation → Pending → ℕ → Option Verdict × Pending
unfolding judge_restarts
judge_never_healthy s obs p now = elim obs.n_restarts [
  | none ↦ (judge_deadline s obs p now, p)
  | some n ↦ judge_restarts s obs p n now
]

abbrev pub unit_overdue : Settings → Option ℕ → ℕ → Bool
unit_overdue s none now = false
unit_overdue s (some t) now = leb (t + s.unit_dead_after) now

-- The four signals, in their order.
unfoldable pub judge : Settings → Observation → Pending → ℕ → Option Verdict × Pending
unfolding judge_never_healthy judge_health
judge s obs p now =
    if unit_overdue s p.unit_dead_since now
    then (demote obs unit_not_running, p)
    else elim obs.last_healthy_at [
      | none ↦ judge_never_healthy s obs p now
      | some t ↦ (judge_health s obs p now, p)
    ]

abbrev pub promote : Observation → Option Verdict
promote obs =
    if (obs.status == starting) || (obs.status == error)
    then some (record {
      instance_id = obs.instance_id;
      from_status = obs.status;
      to_status = running;
      reason = health_green;
      healthy_now = true;
    })
    else none

abbrev pub cleared : Pending → Pending
cleared p = record p { unit_dead_since = none; unhealthy_since = none }

abbrev pub seen : Pending → ℕ → Pending
seen p now = record p { first_seen = some (elim p.first_seen [ none ↦ now | some t ↦ t ]) }

unfoldable pub decide : Settings → Observation → Pending → ℕ → Option Verdict × Pending
unfolding sustain judge
decide s obs pending now =
    let p = seen pending now in
    if is_false obs.node_reachable
    then (none, cleared p)
    else if is_true obs.health_ok
    then (promote obs, cleared p)
    else let p' = sustain obs p now in
      if (obs.status == starting) || (obs.status == running) then judge s obs p' now else (none, p')
