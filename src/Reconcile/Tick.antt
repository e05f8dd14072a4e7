-- ===== src/Reconcile/Tick.antt =====
-- The `Reconciler` of backend/app/services/reconcile.py: one pass over the probed instances.
-- The database is the list of its instance rows, in the order of a SELECT.
pub mod Safety
use spark_controlplane.Prelude.{
  ℕ, suc, String, Bool, true, false, ◌&&◌, Option, none, some, List, [], ◌∷◌, ◌++◌, map, any,
  keep_if, ◌==◌, nat_eq, if◌then◌else◌,
}
use spark_controlplane.Dict.{Dict, get, set, pop, get_or, setdefault}
use spark_controlplane.Models.{InstStatus, Instance, reconciled, status_eq}
use spark_controlplane.InstState.{Registry, in_flight}
use spark_controlplane.Reconcile.{Observation, Verdict, Pending, no_pending, Settings, decide}

-- The fields of a telemetry probe (schemas.InstanceStatus) that the pass reads.
pub record Probe : Type 0 where
  pub instance_id : ℕ
  pub systemd_active : Option Bool
  pub health_ok : Option Bool
  pub n_restarts : Option ℕ
  pub node_id : Option ℕ

abbrev pub Db : Type 0
Db = List Instance

-- What the pass meets: the settings, the clock, the reachability of the nodes, the registry of
-- jobs when it comes to an instance, and what other tasks commit before its write for it.
pub record World : Type 0 where
  pub settings : Settings
  pub now : ℕ
  pub utcnow : ℕ
  pub node_reachable : ℕ → Option Bool
  pub registry : ℕ → Registry
  pub others : ℕ → Db → Db

-- `{p.instance_id: p for p in slow.instances}`
unfoldable pub probes_of : Dict ℕ Probe → List Probe → Dict ℕ Probe
probes_of d [] = d
probes_of d (p ∷ ps) = probes_of (set p.instance_id p d) ps

unfoldable pub observe : World → Probe → Instance → Observation
observe w probe inst = record {
  instance_id = inst.id;
  name = inst.name;
  status = inst.status;
  systemd_active = probe.systemd_active;
  health_ok = probe.health_ok;
  n_restarts = probe.n_restarts;
  node_reachable = elim probe.node_id [ none ↦ none | some n ↦ w.node_reachable n ];
  started_at = inst.started_at;
  last_healthy_at = inst.last_healthy_at;
}

-- `where(Instance.id == …, Instance.status == …)`
abbrev pub matches : Verdict → Instance → Bool
matches v inst = (inst.id == v.instance_id) && (inst.status == v.from_status)

-- `.values(**values)`
unfoldable pub write : Verdict → ℕ → Instance → Instance
write v utcnow inst =
    if v.healthy_now
    then record inst { status = v.to_status; last_healthy_at = some utcnow; last_error = none }
    else record inst { status = v.to_status; last_error = some (reconciled v.to_status v.reason) }

-- Reconciler._apply: the rows that match are written; true if there is one.
unfoldable pub apply : Verdict → ℕ → Db → Bool × Db
unfolding write
apply v utcnow db =
    (any (matches v) db, map (λ inst. if matches v inst then write v utcnow inst else inst) db)

-- What the pass changes: the timers, the database, and the verdicts applied.
pub record Pass : Type 0 where
  pub pending : Dict ℕ Pending
  pub db : Db
  pub applied : List Verdict

unfoldable pub settle : World → ℕ → Option Verdict → Pass → Pass
settle w id none s = s
settle w id (some v) s =
    let (written, db) = apply v w.utcnow (w.others id s.db) in
    if written
    then record { pending = pop id s.pending; db = db; applied = s.applied ++ v ∷ [] }
    else record s { db = db }

-- The body of the loop, for a row that no job owns.
unfoldable pub examine : World → Probe → Instance → Pass → Pass
unfolding observe settle
examine w probe inst s =
    let timers = setdefault inst.id no_pending s.pending in
    let (verdict, p) =
      decide w.settings (observe w probe inst) (get_or inst.id no_pending timers) w.now in
    settle w inst.id verdict (record s { pending = set inst.id p timers })

unfoldable pub visit : World → Dict ℕ Probe → Instance → Pass → Pass
unfolding examine
visit w probes inst s = elim (get inst.id probes) [
  | none ↦ s
  | some probe ↦ elim (in_flight inst.id (w.registry inst.id)) [
    | some job ↦ record s { pending = pop inst.id s.pending }
    | none ↦ examine w probe inst s
  ]
]

unfoldable pub visit_all : World → Dict ℕ Probe → List Instance → Pass → Pass
unfolding visit
visit_all w probes [] s = s
visit_all w probes (inst ∷ rows) s = visit_all w probes rows (visit w probes inst s)

unfoldable pub is_probed : Dict ℕ Probe → ℕ → Bool
unfolding get
is_probed probes id = elim (get id probes) [ none ↦ false | some p ↦ true ]

-- Reconciler.tick: `slow` is the telemetry's last slow tick, if there was one.
unfoldable pub tick : World → Option (List Probe) → Dict ℕ Pending → Db → Pass
unfolding visit_all probes_of is_probed
tick w none pending db = record { pending = pending; db = db; applied = [] }
tick w (some ps) pending db =
    let probes = probes_of [] ps in
    visit_all w probes (keep_if (λ inst. is_probed probes inst.id) db)
      (record { pending = pending; db = db; applied = [] })
