-- ===== src/Reconcile/Edges.antt =====
-- Which status changes the observer of reconcile.py proposes, and on what evidence.
use spark_controlplane.Prelude.{ℕ, ◌≡◌, ◌≢◌, ◌⊎◌, true, false, some, arith}
use spark_controlplane.Models.{starting, running, error, status_eq}
use spark_controlplane.Reconcile.{
  Observation, Verdict, Pending, Settings, judge, sustain, decide, seen,
}

-- What a verdict says of the observation that it was made from.
pub record IsSound (obs : Observation) (v : Verdict) : Type 0 where
  pub same_instance : v.instance_id ≡ obs.instance_id
  pub same_status : v.from_status ≡ obs.status
  pub reachable : obs.node_reachable ≢ some false
  pub evidence :
      (v.to_status ≡ running)
        × (v.healthy_now ≡ true)
        × (obs.health_ok ≡ some true)
        × ((obs.status ≡ starting) ⊎ (obs.status ≡ error))
      ⊎ (v.to_status ≡ error)
        × (v.healthy_now ≡ false)
        × (obs.health_ok ≢ some true)
        × ((obs.status ≡ starting) ⊎ (obs.status ≡ running))

judge-demotes :
    (s : Settings) (obs : Observation) (p : Pending) (now : ℕ) (v : Verdict)
    → (judge s obs p now).0 ≡ some v
    → (v.instance_id ≡ obs.instance_id)
      × (v.from_status ≡ obs.status)
      × (v.to_status ≡ error)
      × (v.healthy_now ≡ false)
unfolding judge
judge-demotes s obs p now v e = ground arith

-- A verdict of the observer names the observed instance and status, is never made on an
-- unreachable node, and is either a promotion to running, of a starting or failed instance, on a
-- green /health, or a demotion to error, of a starting or running instance, whose /health is not
-- green; so a stopped or stopping instance is left alone.
pub decide-IsSound :
    (s : Settings) (obs : Observation) (p : Pending) (now : ℕ) (v : Verdict)
    → (decide s obs p now).0 ≡ some v
    → IsSound obs v
unfolding decide
decide-IsSound s obs p now v e =
    ground (arith, judge-demotes s obs (sustain obs (seen p now) now) now v)
