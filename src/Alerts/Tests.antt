-- ===== src/Alerts/Tests.antt =====
-- Runs of the alert manager of alerts.py, and its theorems at concrete inputs.
use spark_controlplane.Prelude.{
  ℕ, ◌+◌, ◌≤◌, ◌≡◌, refl, Bool, true, false, [], ◌∷◌, string_eq, pair_eq,
}
use spark_controlplane.Dict.{get, set, get_or, setdefault}
use spark_controlplane.Alerts.{Fact, fired, resolved, States, observe, evaluate}
use spark_controlplane.Alerts.Machines.{
  Reach, start, fact, logged, ActiveSince, observe-fired_sustained, evaluate-Reach,
}

abbrev hot : Bool → Fact
hot on = record {
  rule = "gpu_temp";
  subject = "spark1/gpu0";
  active = on;
  sustain = 120;
  severity = "warn";
  message = "hot";
}

abbrev first : States
first = (evaluate (hot true ∷ []) 1000 []).1

-- The alert fires at the second look, once, and resolves; a vanished subject is forgotten.
evaluate_run :
    ((evaluate (hot true ∷ []) 1000 []).0 ≡ [])
    × ((evaluate (hot true ∷ []) 1120 first).0 ≡ record { event = fired; fact = hot true } ∷ [])
    × ((evaluate (hot true ∷ []) 1200 (evaluate (hot true ∷ []) 1120 first).1).0 ≡ [])
    × ((evaluate (hot false ∷ []) 1200 (evaluate (hot true ∷ []) 1120 first).1).0
        ≡ record { event = resolved; fact = hot false } ∷ [])
    × (evaluate [] 1200 first ≡ ([], []))
unfolding evaluate get set get_or setdefault
evaluate_run = (refl, refl, refl, refl, refl)

abbrev seen : States
seen = (observe 1000 (hot true) []).1

abbrev seen-Reach : Reach seen ((1000, hot true) ∷ [])
seen-Reach = fact 1000 (hot true) start

observe-fired_sustained_example :
    (t : ℕ) × ActiveSince ("gpu_temp", "spark1/gpu0") t ((1120, hot true) ∷ (1000, hot true) ∷ [])
    × (t + 120 ≤ 1120)
unfolding observe get set get_or setdefault
observe-fired_sustained_example = observe-fired_sustained 1120 (hot true) seen-Reach refl

evaluate-Reach_test :
    Reach
      (evaluate (hot true ∷ []) 1120 seen).1
      (logged 1120 (hot true ∷ []) ((1000, hot true) ∷ []))
evaluate-Reach_test = evaluate-Reach 1120 (hot true ∷ []) seen ((1000, hot true) ∷ []) seen-Reach
