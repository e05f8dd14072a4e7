-- ===== src/Reconcile/Tests.antt =====
-- Runs of the observer of reconcile.py, and its theorems at concrete inputs.
use spark_controlplane.Prelude.{
  ℕ, ◌+◌, ◌≤◌, ◌≡◌, ◌≢◌, ◌⊎◌, inl, refl, Bool, true, false, none, some, [], ◌∷◌, arith, nat_eq,
}
use spark_controlplane.Dict.{get, set, pop, get_or, setdefault}
use spark_controlplane.Models.{
  InstStatus, starting, running, stopped, stopping, error, Instance, cluster, health_green,
  unit_not_running, crash_loop, never_healthy, stopped_responding, status_eq,
}
use spark_controlplane.InstState.{in_flight}
use spark_controlplane.Reconcile.{Observation, Verdict, no_pending, Settings, decide, demote}
use spark_controlplane.Reconcile.Edges.{IsSound, decide-IsSound}
use spark_controlplane.Reconcile.Sustain.{
  History, watch, HeldSince, UnitDead, NotGreen, decide-unit_sustained, decide-unhealthy_sustained,
}
use spark_controlplane.Reconcile.Progress.{DeadFrom, decide-dead_unit, decide-start_ends}
use spark_controlplane.Reconcile.Tick.{Probe, World, Pass, apply, probes_of, examine, tick}
use spark_controlplane.Reconcile.Tick.Safety.{Pairs, Moved, tick-Pairs, examine_race}

abbrev settings : Settings
settings = record {
  start_deadline = 1800;
  unhealthy_after = 120;
  unit_dead_after = 45;
  crashloop_restarts = 3;
}

abbrev loading : Observation
loading = record {
  instance_id = 7;
  name = "llama";
  status = starting;
  systemd_active = some true;
  health_ok = some false;
  n_restarts = some 1;
  node_reachable = some true;
  started_at = some 100;
  last_healthy_at = none;
}

abbrev dead : Observation
dead = record loading { systemd_active = some false }

abbrev serving : Observation
serving = record loading { status = running; last_healthy_at = some 150 }

abbrev dead_log : History
dead_log = (230, dead) ∷ (210, dead) ∷ []

-- A load that takes long is left alone, a crash loop and a passed deadline are not, and a green
-- /health promotes even if systemd says otherwise.
decide_cases :
    ((decide settings loading no_pending 500).0 ≡ none)
    × ((decide settings
          (record loading { n_restarts = some 5 })
          (decide settings loading no_pending 500).1
          510).0
        ≡ demote loading (crash_loop 4))
    × ((decide settings loading no_pending 1900_000_100).0 ≡ demote loading (never_healthy 31))
    × ((decide settings (record dead { health_ok = some true }) no_pending 500).0
        ≡ some (record {
          instance_id = 7;
          from_status = starting;
          to_status = running;
          reason = health_green;
          healthy_now = true;
        }))
    × ((decide settings (record dead { status = stopped; health_ok = some true }) no_pending 500).0
        ≡ none)
unfolding decide
decide_cases = (refl, refl, refl, refl, refl)

decide-IsSound_example :
    IsSound
      (record loading { health_ok = some true })
      (record {
        instance_id = 7;
        from_status = starting;
        to_status = running;
        reason = health_green;
        healthy_now = true;
      })
unfolding decide
decide-IsSound_example =
    decide-IsSound settings (record loading { health_ok = some true }) no_pending 500
      (record {
        instance_id = 7;
        from_status = starting;
        to_status = running;
        reason = health_green;
        healthy_now = true;
      })
      refl

decide-unit_sustained_example :
    (t : ℕ) × HeldSince UnitDead t ((260, dead) ∷ dead_log) × (t + 45 ≤ 260)
unfolding decide watch
decide-unit_sustained_example =
    decide-unit_sustained settings dead_log 260 dead
      (record {
        instance_id = 7;
        from_status = starting;
        to_status = error;
        reason = unit_not_running;
        healthy_now = false;
      })
      refl refl

decide-unhealthy_sustained_test :
    (running ≡ running)
    × ((t : ℕ) × HeldSince NotGreen t ((340, serving) ∷ (210, serving) ∷ []) × (t + 120 ≤ 340))
unfolding decide watch
decide-unhealthy_sustained_test =
    decide-unhealthy_sustained settings ((210, serving) ∷ []) 340 serving
      (record {
        instance_id = 7;
        from_status = running;
        to_status = error;
        reason = stopped_responding;
        healthy_now = false;
      })
      refl refl

dead-DeadFrom : DeadFrom 210 ((260, dead) ∷ dead_log)
dead-DeadFrom = ground arith

decide-dead_unit_test :
    (decide settings dead (watch settings dead_log) 260).0 ≡ demote dead unit_not_running
decide-dead_unit_test =
    decide-dead_unit settings dead_log 210 260 dead (omega arith) dead-DeadFrom (omega arith)
      (inl refl)

decide-start_ends_example :
    (v : Verdict) × ((decide settings loading no_pending 1900).0 ≡ some v)
    × ((some false ≡ some true) × (v.to_status ≡ running)
        ⊎ (some false ≢ some true) × (v.to_status ≡ error))
decide-start_ends_example =
    decide-start_ends settings loading no_pending 1900 99 refl (λ e. cc) refl refl (omega arith)

abbrev row : ℕ → InstStatus → Instance
row id status = record {
  id = id;
  name = "llama";
  topology = cluster;
  node_id = none;
  port = 8000;
  master_port = 29500;
  endpoint_id = none;
  endpoint = none;
  tls_enabled = false;
  tls_port = 443;
  tls_cert_enc = none;
  tls_key_enc = none;
  status = status;
  last_error = none;
  started_at = some 100;
  last_healthy_at = none;
}

abbrev probe : ℕ → Bool → Probe
probe id green = record {
  instance_id = id;
  systemd_active = some true;
  health_ok = some green;
  n_restarts = some 0;
  node_id = none;
}

abbrev world : World
world = record {
  settings = settings;
  now = 500;
  utcnow = 501;
  node_reachable = λ n. none;
  registry = λ id. (8, ("stop", 3)) ∷ [];
  others = λ id db. db;
}

-- The pass promotes the green instance, leaves the one that a job owns, and drops its timers.
tick_run :
    (tick world
      (some (probe 7 true ∷ probe 8 true ∷ []))
      ((8, no_pending) ∷ [])
      (row 7 starting ∷ row 8 starting ∷ row 9 running ∷ []))
    ≡ record {
      pending = [];
      db =
          record (row 7 running) { last_healthy_at = some 501 }
          ∷ row 8 starting
          ∷ row 9 running
          ∷ [];
      applied =
          record {
            instance_id = 7;
            from_status = starting;
            to_status = running;
            reason = health_green;
            healthy_now = true;
          }
          ∷ [];
    }
unfolding tick apply decide get set pop get_or setdefault in_flight
tick_run = refl

tick-Pairs_example :
    Pairs
      (Moved world (probes_of [] (probe 7 true ∷ [])))
      (row 7 starting ∷ row 9 running ∷ [])
      (tick world (some (probe 7 true ∷ [])) [] (row 7 starting ∷ row 9 running ∷ [])).db
tick-Pairs_example =
    tick-Pairs world (probe 7 true ∷ []) [] (row 7 starting ∷ row 9 running ∷ []) (λ id db. refl)

-- A stop job takes the row between the observer's read and its write.
abbrev raced : World
raced = record world { registry = λ id. []; others = λ id db. row 7 stopping ∷ [] }

abbrev before_race : Pass
before_race = record { pending = []; db = row 7 starting ∷ []; applied = [] }

examine_race_test :
    ((examine raced (probe 7 true) (row 7 starting) before_race).applied ≡ [])
    × (((examine raced (probe 7 true) (row 7 starting) before_race).db ≡ row 7 starting ∷ [])
        ⊎ ((examine raced (probe 7 true) (row 7 starting) before_race).db ≡ row 7 stopping ∷ []))
examine_race_test = examine_race raced (probe 7 true) (row 7 starting) before_race refl
