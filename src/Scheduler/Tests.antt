-- ===== src/Scheduler/Tests.antt =====
-- Runs of the scheduler of scheduler.py, and its theorems at concrete inputs.
use spark_controlplane.Prelude.{
  ℕ, ◌+◌, ◌*◌, ◌≤◌, ◌≡◌, ◌⊎◌, refl, true, false, none, some, List, [], ◌∷◌, arith, any, nat_eq,
}
use spark_controlplane.Dict.{get, set, pop}
use spark_controlplane.Models.{InstStatus, Instance, cluster, starting, running, stopped, error}
use spark_controlplane.Text.{codes}
use spark_controlplane.Scheduler.{
  DateTime, minute, InstanceSchedule, parse_days, desired_state, minutes,
}
use spark_controlplane.Scheduler.Desired.{live_at, desired_state-eq-live, IsValid}
use spark_controlplane.Scheduler.Tick.{start, stop, Scheduler, Row, visit, tick}
use spark_controlplane.Scheduler.Tick.Retries.{
  Visit, Steady, issued, issued-le-allowance, visit_sound, cell, step, visit-step,
}

abbrev at : ℕ → ℕ → ℕ → DateTime
at day hour min = record { day = day; time = (hour * 60 + min) * minute }

abbrev night : InstanceSchedule
night = record {
  instance_id = 7;
  days = codes "4, 6,6,9,x";
  start_time = codes "22:30";
  end_time = codes "06:00";
  enabled = true;
}

days : parse_days night.days ≡ 4 ∷ 6 ∷ []
unfolding parse_days
days = refl

-- Sunday's window is live until 6:00 on Monday, and not from then on; a bad time raises.
windows :
    (desired_state (night ∷ []) (at 6 23 0) ≡ some true)
    × (desired_state (night ∷ []) (at 7 5 59) ≡ some true)
    × (desired_state (night ∷ []) (at 7 6 0) ≡ some false)
    × (desired_state (record night { end_time = codes "late" } ∷ []) (at 7 6 0) ≡ none)
unfolding desired_state
windows = (refl, refl, refl, refl)

night-IsValid : IsValid night
unfolding minutes
night-IsValid = ((refl, omega arith), (refl, omega arith))

desired_state-eq-live_example :
    desired_state (night ∷ []) (at 7 5 59) ≡ some (any (live_at (at 7 5 59)) (night ∷ []))
desired_state-eq-live_example =
    desired_state-eq-live (night ∷ []) (at 7 5 59) (night-IsValid, tt) (omega arith)

abbrev llama : InstStatus → Instance
llama status = record {
  id = 7;
  name = "llama";
  topology = cluster;
  node_id = none;
  port = 8000;
  master_port = 29500;
  endpoint_id = none;
  endpoint = none;
  tls_enabled = false;
  tls_port = 443;
  tls_cert_enc = none;
  tls_key_enc = none;
  status = status;
  last_error = none;
  started_at = none;
  last_healthy_at = none;
}

abbrev rows : InstStatus → List Row
rows status =
    record { schedule = night; instance = some (llama status) }
    ∷ record { schedule = record night { instance_id = 9 }; instance = none }
    ∷ []

-- The window opens: the stopped instance is started, and an instance without schedules forgotten.
tick_run :
    tick 120 1000 (at 6 23 0) (rows stopped) (record {
      last_desired = (7, false) ∷ (8, true) ∷ [];
      pending = (8, record { action = start; at = 1; attempts = 1 }) ∷ [];
    })
    ≡ record {
      scheduler = record {
        last_desired = (7, true) ∷ [];
        pending = (7, record { action = start; at = 1000; attempts = 1 }) ∷ [];
      };
      actions = (7, start) ∷ [];
      raised = false;
    }
unfolding tick get set pop
tick_run = refl

abbrev opened : Scheduler
opened = record { last_desired = (7, false) ∷ []; pending = [] }

-- A visit of the instance whose window opened, and one of another.
abbrev own : ℕ → InstStatus → Visit
own time status = record { time = time; iid = 7; desired = true; status = status }

abbrev foreign : ℕ → Visit
foreign time = record { time = time; iid = 8; desired = false; status = running }

abbrev failing : List Visit
failing =
    own 1000 stopped
    ∷ foreign 1000
    ∷ own 1010 starting
    ∷ own 1130 error
    ∷ own 1260 error
    ∷ foreign 1260
    ∷ own 1390 error
    ∷ own 1520 error
    ∷ own 1650 error
    ∷ own 1780 error
    ∷ []

-- A start that keeps failing is tried five times.
five_starts : issued 120 7 opened failing ≡ 5
unfolding issued visit get set pop
five_starts = refl

foreign_ne : ◌≡◌ {A = ℕ} 8 7 → false ≡ true
foreign_ne e = absurd (omega arith)

failing-Steady : Steady 7 true failing
failing-Steady = (
  λ e. refl,
  (
    foreign_ne,
    (
      λ e. refl,
      (
        λ e. refl,
        (λ e. refl, (foreign_ne, (λ e. refl, (λ e. refl, (λ e. refl, (λ e. refl, tt)))))),
      ),
    ),
  ),
)

issued-le-allowance_example : issued 120 7 opened failing ≤ 5
unfolding get
issued-le-allowance_example = issued-le-allowance 120 7 true opened failing failing-Steady

abbrev idle : Scheduler
idle = record { last_desired = []; pending = [] }

visit_sound_example :
    (start ≡ start) × (true ≡ true) × ((stopped ≡ stopped) ⊎ (stopped ≡ error))
    ⊎ (start ≡ stop)
      × (true ≡ false)
      × ((stopped ≡ running) ⊎ (stopped ≡ starting) ⊎ (stopped ≡ error))
unfolding visit get
visit_sound_example = visit_sound 120 1000 7 true stopped idle start refl

visit-step_test :
    ((visit 120 1000 7 true stopped idle).0 ≡ (step 120 1000 true stopped (cell 7 idle)).0)
    × (cell 8 (visit 120 1000 7 true stopped idle).1 ≡ cell 8 idle)
visit-step_test = visit-step 120 1000 7 8 true stopped idle
