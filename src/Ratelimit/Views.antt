-- ===== src/Ratelimit/Views.antt =====
-- What the portal reads of the limiter: `inflight` of a client, and the `snapshot` of all.
use spark_controlplane.Prelude.{
  ℕ, ◌+◌, ◌≡◌, String, [], ◌∷◌, arith, ◌==◌, nat_eq, string_eq, eq_iff, if◌then◌else◌,
}
use spark_controlplane.Dict.{Dict, set, get_or}
use spark_controlplane.Dict.Laws.{get_or-set}
use spark_controlplane.Ratelimit.{Key, Limiter, add_of, inflight, snapshot_from, snapshot}

get_or-snapshot_from :
    (client : String) (out : Dict String ℕ) (d : Dict Key ℕ)
    → get_or client 0 (snapshot_from out d) ≡ get_or client 0 out + add_of client d
unfolding snapshot_from add_of
get_or-snapshot_from client out [] = omega arith
get_or-snapshot_from client out (((c, i), n) ∷ d) = ground (
  arith,
  get_or-snapshot_from client (if n == 0 then out else set c (get_or c 0 out + n) out) d,
  get_or-set c client (get_or c 0 out + n) 0 out,
  eq_iff c client,
)

-- The snapshot has, for every client, the number that `inflight` computes for it alone; a client
-- that it leaves out has no request in flight.
pub get_or-snapshot :
    (l : Limiter) (client : String) → get_or client 0 (snapshot l) ≡ inflight l client
unfolding snapshot inflight get_or
get_or-snapshot l client = omega (arith, get_or-snapshot_from client [] l.inflight)
