-- ===== src/Reconcile/Progress.antt =====
-- The observer of reconcile.py acts: failures that last are found, and green instances promoted.
use spark_controlplane.Prelude.{
  ℕ, suc, ◌+◌, ◌≤◌, ◌<◌, ◌≡◌, ◌≢◌, refl, ◌⊎◌, inl, inr, true, false, Option, none, some, [], ◌∷◌,
  arith, Bool-cases,
}
use spark_controlplane.Models.{
  starting, running, error, status_eq, Reason, health_green, unit_not_running,
}
use spark_controlplane.Reconcile.{
  Observation, Verdict, Pending, Settings, judge, sustain, decide, seen, or_now, demote, is_true,
}
use spark_controlplane.Reconcile.Sustain.{History, watch, UnitDead, judge-timers}

-- Every observation up to the last found the unit down, and the first of them was made at `t`.
abbrev pub DeadFrom : ℕ → History → Type 0
DeadFrom t [] = ⊥
DeadFrom t ((u, obs) ∷ []) = UnitDead obs × (u ≡ t)
DeadFrom t ((u, obs) ∷ h) = UnitDead obs × DeadFrom t h

decide-dead :
    (s : Settings) (obs : Observation) (p : Pending) (now : ℕ)
    → UnitDead obs
    → (decide s obs p now).1.unit_dead_since ≡ some (or_now p.unit_dead_since now)
unfolding decide sustain
decide-dead s obs p now bad = ground (arith, judge-timers s obs (sustain obs (seen p now) now) now)

watch-DeadFrom :
    (s : Settings) (t : ℕ) (h : History)
    → 0 < t
    → DeadFrom t h
    → (watch s h).unit_dead_since ≡ some t
unfolding watch
watch-DeadFrom s t [] pos d = elim d [ ]
watch-DeadFrom s t ((u, obs) ∷ []) pos d = ground (arith, decide-dead s obs (watch s []) u)
watch-DeadFrom s t ((u, obs) ∷ x ∷ h) pos d =
    ground (arith, decide-dead s obs (watch s (x ∷ h)) u, watch-DeadFrom s t (x ∷ h))

DeadFrom-head :
    (t u : ℕ) (obs : Observation) (h : History) → DeadFrom t ((u, obs) ∷ h) → UnitDead obs
DeadFrom-head t u obs [] d = d.0
DeadFrom-head t u obs (x ∷ h) d = d.0

judge-overdue :
    (s : Settings) (obs : Observation) (p : Pending) (t now : ℕ)
    → p.unit_dead_since ≡ some t
    → t + s.unit_dead_after ≤ now
    → (judge s obs p now).0 ≡ demote obs unit_not_running
unfolding judge
judge-overdue s obs p t now since long = ground arith

-- Once the observations since `t` have all found the unit of a starting or running instance down,
-- with the node not unreachable and /health not green, and `unit_dead_after` has passed, the
-- observer fails the instance.
pub decide-dead_unit :
    (s : Settings) (h : History) (t now : ℕ) (obs : Observation)
    → 0 < t
    → DeadFrom t ((now, obs) ∷ h)
    → t + s.unit_dead_after ≤ now
    → ((obs.status ≡ starting) ⊎ (obs.status ≡ running))
    → (decide s obs (watch s h) now).0 ≡ demote obs unit_not_running
unfolding decide watch
decide-dead_unit s h t now obs pos d long st =
    let p = sustain obs (seen (watch s h) now) now in
    ground (
      arith,
      DeadFrom-head t now obs h d,
      watch-DeadFrom s t ((now, obs) ∷ h) pos d,
      judge-timers s obs p now,
      judge-overdue s obs p t now,
    )

abbrev reason_of : Option Verdict → Reason
reason_of none = health_green
reason_of (some v) = v.reason

judge-late :
    (s : Settings) (obs : Observation) (p : Pending) (now started : ℕ)
    → obs.last_healthy_at ≡ none
    → obs.started_at ≡ some (suc started)
    → suc started + s.start_deadline ≤ now
    → (judge s obs p now).0 ≡ demote obs (reason_of (judge s obs p now).0)
unfolding judge
judge-late s obs p now started never since long = ground arith

-- Whatever the timers and the other signals, an observation of a starting instance that was never
-- healthy, on a node that is not unreachable, when the start deadline has passed, promotes it if
-- /health is green and fails it if not.
pub decide-start_ends :
    (s : Settings) (obs : Observation) (p : Pending) (now started : ℕ)
    → obs.status ≡ starting
    → obs.node_reachable ≢ some false
    → obs.last_healthy_at ≡ none
    → obs.started_at ≡ some (suc started)
    → suc started + s.start_deadline ≤ now
    → (v : Verdict) × ((decide s obs p now).0 ≡ some v)
      × ((obs.health_ok ≡ some true) × (v.to_status ≡ running)
          ⊎ (obs.health_ok ≢ some true) × (v.to_status ≡ error))
unfolding decide
decide-start_ends s obs p now started st reach never since long =
    let p' = sustain obs (seen p now) now in
    let late = judge-late s obs p' now started never since long in
    let promoted : Verdict = record {
      instance_id = obs.instance_id;
      from_status = obs.status;
      to_status = running;
      reason = health_green;
      healthy_now = true;
    } in
    let failed : Verdict = record {
      instance_id = obs.instance_id;
      from_status = obs.status;
      to_status = error;
      reason = reason_of (judge s obs p' now).0;
      healthy_now = false;
    } in
    elim (Bool-cases (is_true obs.health_ok)) [
      | inl green ↦ (promoted, ground arith, inl (ground arith, refl))
      | inr bad ↦ (failed, ground (arith, late), inr (ground arith, refl))
    ]
