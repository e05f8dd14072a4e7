-- ===== src/InstState.antt =====
-- backend/app/services/inst_state.py: which start or stop job owns an instance's row.
-- The registry of the process is the state that each function takes and returns.
mod Tests
use spark_controlplane.Prelude.{
  ℕ, ◌≡◌, String, Option, some, none, [], arith, ◌==◌, nat_eq, if◌then◌else◌,
}
use spark_controlplane.Dict.{Dict, get, set, pop}
use spark_controlplane.Dict.Laws.{get-set, get-pop, get-set_self, get-pop_self}

-- instance_id -> (action, job_id)
abbrev pub Registry : Type 0
Registry = Dict ℕ (String × ℕ)

pub register : ℕ → String → ℕ → Registry → Registry
register instance_id action job_id r = set instance_id (action, job_id) r

pub release : ℕ → Registry → Registry
release instance_id r = pop instance_id r

unfoldable pub in_flight : ℕ → Registry → Option (String × ℕ)
in_flight instance_id r = get instance_id r

pub clear_all : Registry → Registry
clear_all r = []

-- A registered job owns its instance and no other, until the release; the release frees that
-- instance alone.
pub in_flight-register-release :
    (i j : ℕ) (action : String) (job_id : ℕ) (r : Registry)
    → (in_flight j (register i action job_id r)
        ≡ (if i == j then some (action, job_id) else in_flight j r))
      × (in_flight j (release i (register i action job_id r))
          ≡ (if i == j then none else in_flight j r))
unfolding in_flight register release
in_flight-register-release i j action job_id r = (
  get-set i j (action, job_id) r,
  ground (arith, get-pop i j (set i (action, job_id) r), get-set i j (action, job_id) r),
)
