-- ===== src/InstState/Tests.antt =====
-- The registry of inst_state.py at a concrete input.
use spark_controlplane.Prelude.{◌≡◌, [], ◌∷◌}
use spark_controlplane.InstState.{
  Registry, register, release, in_flight, in_flight-register-release,
}

abbrev jobs : Registry
jobs = (3, ("stop", 11)) ∷ []

in_flight-register-release_test :
    (in_flight 3 (register 5 "start" 12 jobs) ≡ in_flight 3 jobs)
    × (in_flight 3 (release 5 (register 5 "start" 12 jobs)) ≡ in_flight 3 jobs)
in_flight-register-release_test = in_flight-register-release 5 3 "start" 12 jobs
