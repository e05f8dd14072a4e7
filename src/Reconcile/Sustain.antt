-- ===== src/Reconcile/Sustain.antt =====
-- The sustain timers of reconcile.py over a series of observations of one instance.
use spark_controlplane.Prelude.{
  ℕ, ◌+◌, ◌≤◌, ◌≡◌, ◌≢◌, ◌⊎◌, true, false, Option, none, some, List, [], ◌∷◌, arith,
}
use spark_controlplane.Models.{
  running, status_eq, health_green, unit_not_running, stopped_responding,
}
use spark_controlplane.Reconcile.{
  Observation, Verdict, Pending, Settings, no_pending, judge, sustain, decide, seen, or_now,
}

-- The observations of one instance with their times, the last one first.
abbrev pub History : Type 0
History = List (ℕ × Observation)

-- The timers that they leave.
unfoldable pub watch : Settings → History → Pending
watch s [] = no_pending
watch s ((now, obs) ∷ h) = (decide s obs (watch s h) now).1

-- The node was reached, and /health was not green.
abbrev pub NotGreen : Observation → Type 0
NotGreen obs = (obs.node_reachable ≢ some false) × (obs.health_ok ≢ some true)

-- … and systemd reports the unit as down.
abbrev pub UnitDead : Observation → Type 0
UnitDead obs =
    (obs.node_reachable ≢ some false)
    × (obs.health_ok ≢ some true)
    × (obs.systemd_active ≡ some false)

-- Every observation from the one at `t` up to the last one is bad, and there is one at `t`.
abbrev pub HeldSince : (Observation → Type 0) → ℕ → History → Type 0
HeldSince Bad t [] = ⊥
HeldSince Bad t ((u, obs) ∷ h) = Bad obs × ((u ≡ t) ⊎ HeldSince Bad t h)

-- The timers are right: each started at an observation since which all were bad.
record Timed (p : Pending) (h : History) : Type 0 where
  dead : (t : ℕ) → p.unit_dead_since ≡ some t → HeldSince UnitDead t h
  unhealthy : (t : ℕ) → p.unhealthy_since ≡ some t → HeldSince NotGreen t h

or_now_cases : (o : Option ℕ) (now : ℕ) → (or_now o now ≡ now) ⊎ (o ≡ some (or_now o now))
or_now_cases o now = ground arith

pub judge-timers :
    (s : Settings) (obs : Observation) (p : Pending) (now : ℕ)
    → ((judge s obs p now).1.unit_dead_since ≡ p.unit_dead_since)
      × ((judge s obs p now).1.unhealthy_since ≡ p.unhealthy_since)
unfolding judge
judge-timers s obs p now = (ground arith, ground arith)

module _ (s : Settings) (obs : Observation) (now : ℕ) (h : History) (p : Pending)
    (timed : Timed p h) where
  abbrev sustained : Pending
  sustained = sustain obs (seen p now) now

  sustained-dead :
      (t : ℕ)
      → NotGreen obs
      → sustained.unit_dead_since ≡ some t
      → HeldSince UnitDead t ((now, obs) ∷ h)
  unfolding sustain
  sustained-dead t bad e = ground (arith, or_now_cases p.unit_dead_since now, timed.dead t)

  sustained-unhealthy :
      (t : ℕ)
      → NotGreen obs
      → sustained.unhealthy_since ≡ some t
      → HeldSince NotGreen t ((now, obs) ∷ h)
  unfolding sustain
  sustained-unhealthy t bad e =
      ground (arith, or_now_cases p.unhealthy_since now, timed.unhealthy t)

  decide-Timed : Timed (decide s obs p now).1 ((now, obs) ∷ h)
  unfolding decide
  decide-Timed = record {
    dead = λ t e. ground (arith, sustained-dead t, judge-timers s obs sustained now);
    unhealthy = λ t e. ground (arith, sustained-unhealthy t, judge-timers s obs sustained now);
  }

watch-Timed : (s : Settings) (h : History) → Timed (watch s h) h
unfolding watch
watch-Timed s [] = record { dead = λ t e. cc; unhealthy = λ t e. cc }
watch-Timed s ((now, obs) ∷ h) = decide-Timed s obs now h (watch s h) (watch-Timed s h)

abbrev time_of : Option ℕ → ℕ
time_of none = 0
time_of (some t) = t

judge-unit :
    (s : Settings) (obs : Observation) (p : Pending) (now : ℕ) (v : Verdict)
    → (judge s obs p now).0 ≡ some v
    → v.reason ≡ unit_not_running
    → (p.unit_dead_since ≡ some (time_of p.unit_dead_since))
      × (time_of p.unit_dead_since + s.unit_dead_after ≤ now)
unfolding judge
judge-unit s obs p now v e why = ground arith

judge-responding :
    (s : Settings) (obs : Observation) (p : Pending) (now : ℕ) (v : Verdict)
    → (judge s obs p now).0 ≡ some v
    → v.reason ≡ stopped_responding
    → (obs.status ≡ running) × (time_of p.unhealthy_since + s.unhealthy_after ≤ now)
unfolding judge
judge-responding s obs p now v e why = ground arith

sustain-unhealthy :
    (obs : Observation) (p : Pending) (now : ℕ)
    → obs.status ≡ running
    → (sustain obs p now).unhealthy_since ≡ some (time_of (sustain obs p now).unhealthy_since)
unfolding sustain
sustain-unhealthy obs p now e = ground arith

-- A demotion is the judgement on the timers as this observation leaves them.
decide-judge :
    (s : Settings) (obs : Observation) (p : Pending) (now : ℕ) (v : Verdict)
    → (decide s obs p now).0 ≡ some v
    → v.reason ≢ health_green
    → NotGreen obs × ((judge s obs (sustain obs (seen p now) now) now).0 ≡ some v)
unfolding decide
decide-judge s obs p now v e why = ground arith

module _ (s : Settings) (h : History) (now : ℕ) (obs : Observation) (v : Verdict)
    (e : (decide s obs (watch s h) now).0 ≡ some v) where
  -- An instance is failed because its unit is not running only if every observation over at least
  -- `unit_dead_after` found the unit down, the node not unreachable and /health not green.
  pub decide-unit_sustained :
      v.reason ≡ unit_not_running
      → (t : ℕ) × HeldSince UnitDead t ((now, obs) ∷ h) × (t + s.unit_dead_after ≤ now)
  decide-unit_sustained why =
      let p = watch s h in
      let p' = sustain obs (seen p now) now in
      let (bad, judged) = decide-judge s obs p now v e (λ green. cc) in
      let (since, long) = judge-unit s obs p' now v judged why in
      (time_of p'.unit_dead_since, sustained-dead s obs now h p (watch-Timed s h) _ bad since, long)

  -- An instance is failed because it stopped responding only if it was running and every
  -- observation over at least `unhealthy_after` found the node not unreachable and /health not
  -- green.
  pub decide-unhealthy_sustained :
      v.reason ≡ stopped_responding
      → (obs.status ≡ running)
        × ((t : ℕ) × HeldSince NotGreen t ((now, obs) ∷ h) × (t + s.unhealthy_after ≤ now))
  decide-unhealthy_sustained why =
      let p = watch s h in
      let p' = sustain obs (seen p now) now in
      let (bad, judged) = decide-judge s obs p now v e (λ green. cc) in
      let (runs, long) = judge-responding s obs p' now v judged why in
      let since = sustain-unhealthy obs (seen p now) now runs in
      (
        runs,
        (
          time_of p'.unhealthy_since,
          sustained-unhealthy s obs now h p (watch-Timed s h) _ bad since,
          long,
        ),
      )
