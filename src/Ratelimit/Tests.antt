-- ===== src/Ratelimit/Tests.antt =====
-- Runs of the limiter of ratelimit.py, and its theorems at concrete inputs.
use spark_controlplane.Prelude.{
  ℕ, ◌+◌, ◌*◌, ◌≤◌, ◌≡◌, refl, true, false, Option, none, some, List, [], ◌∷◌, arith, length,
  keep_if, nat_eq, string_eq, pair_eq,
}
use spark_controlplane.Dict.{get, set, pop, get_or, setdefault}
use spark_controlplane.Ratelimit.{
  Key, Limiter, passed, empty, second, held, inflight, snapshot, check_rate, acquire, release,
}
use spark_controlplane.Ratelimit.Concurrency.{
  allows, Event, begin, end, run, step, WithinCaps, run-WithinCaps, release-acquire, granted, ended,
  IsPaired, held-run, acquire_lem,
}
use spark_controlplane.Ratelimit.Views.{get_or-snapshot}
use spark_controlplane.Ratelimit.Rate.{admitted, admitted_spec, admitted-eq-spec}
use spark_controlplane.Ratelimit.Bound.{within, admitted-bounded, retry_suffices, again}

abbrev chat : Key
chat = ("agent", 1)

abbrev two_each : Key → Option ℕ
two_each key = some 2

abbrev busy : Limiter
busy = record { inflight = (chat, 2) ∷ (("agent", 2), 1) ∷ []; recent = [] }

-- At the cap a third request is refused; after a release it is granted.
acquire_at_cap :
    ((acquire busy chat (some 2)).0 ≡ false)
    × ((acquire (release busy chat) chat (some 2)).0 ≡ true)
    × ((acquire busy chat none).0 ≡ true)
    × (inflight busy "agent" ≡ 3)
    × (snapshot busy ≡ ("agent", 3) ∷ [])
unfolding acquire release inflight snapshot get set pop get_or setdefault
acquire_at_cap = (refl, refl, refl, refl, refl)

-- The last release deletes the entry, and one more changes nothing.
release_twice :
    (release (record { inflight = (chat, 1) ∷ []; recent = [] }) chat ≡ empty)
    × (release empty chat ≡ empty)
unfolding release get set pop
release_twice = (refl, refl)

abbrev trace : List Event
trace = begin chat ∷ begin chat ∷ begin chat ∷ end chat ∷ []

acquire_lem_test :
    ((acquire busy chat (some 2)).0 ≡ allows (some 2) (held busy chat))
    × (held (acquire busy chat (some 2)).1 chat ≡ held busy chat)
unfolding acquire get set get_or setdefault
acquire_lem_test = acquire_lem busy chat chat (some 2)

release-acquire_test :
    held (release (acquire empty chat (some 2)).1 chat) ("agent", 2) ≡ held empty ("agent", 2)
unfolding acquire get_or get setdefault set
release-acquire_test = release-acquire empty chat ("agent", 2) (some 2) refl

run-WithinCaps_example : WithinCaps two_each (run two_each empty trace)
unfolding get_or get
run-WithinCaps_example = run-WithinCaps two_each empty trace (λ key cap e. omega arith)

held-run_test :
    held (run two_each empty trace) chat + ended two_each chat trace
    ≡ held empty chat + granted two_each chat empty trace
unfolding IsPaired run step acquire release get set get_or setdefault
held-run_test = held-run two_each chat empty trace ((λ e. omega arith, tt))

abbrev burst : List ℕ
burst = 1 * second ∷ 2 * second ∷ 3 * second ∷ 62 * second ∷ []

admitted-burst : admitted 1 "agent" empty burst ≡ 1 * second ∷ 2 * second ∷ 62 * second ∷ []
unfolding admitted check_rate get set get_or
admitted-burst = refl

admitted-eq-spec_example : admitted 1 "agent" empty burst ≡ admitted_spec 1 "agent" [] burst
unfolding get get_or
admitted-eq-spec_example = admitted-eq-spec 1 "agent" empty burst refl (omega arith)

admitted-bounded_example :
    length (keep_if (within (60 * second)) (admitted 1 "agent" empty burst)) ≤ 2
unfolding get get_or
admitted-bounded_example = admitted-bounded 1 "agent" (60 * second) empty burst refl (omega arith)

abbrev waiting : Limiter
waiting = record { inflight = []; recent = ("agent", 10 * second ∷ 20 * second ∷ []) ∷ [] }

retry_suffices_test :
    again 1 "agent"
      (check_rate waiting "agent" (some 2) (30 * second)).1
      (30 * second + 41 * second)
    ≡ passed
unfolding check_rate get get_or
retry_suffices_test = retry_suffices 1 "agent" waiting (30 * second) 41 (omega arith) refl

get_or-snapshot_test : get_or "agent" 0 (snapshot busy) ≡ inflight busy "agent"
get_or-snapshot_test = get_or-snapshot busy "agent"
