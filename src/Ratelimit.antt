-- ===== src/Ratelimit.antt =====
-- backend/app/services/ratelimit.py: the gateway's limits on each client.
-- Times are whole microseconds since the epoch; a limit is a natural number, as the schemas want.
pub mod Concurrency
pub mod Views
pub mod Rate
pub mod Bound
mod Tests
use spark_controlplane.Prelude.{
  ℕ, zero, suc, ◌+◌, ◌-◌, ◌*◌, ◌/◌, max, String, Bool, true, false, Option, none, some, List, [],
  ◌∷◌, ◌++◌, length, ltb, leb, ◌==◌, nat_eq, string_eq, pair_eq, if◌then◌else◌,
}
use spark_controlplane.Dict.{Dict, get, set, pop, get_or, setdefault}

abbrev pub Key : Type 0
Key = String × ℕ

pub record Limiter : Type 0 where
  pub inflight : Dict Key ℕ
  pub recent : Dict String (List ℕ)

-- `None`, or a `LimitError` with what its message says and when to come back.
pub data Outcome : Type 0 where
  passed : Outcome
  limit_error : (max_rpm : ℕ) (client : String) (retry_after : ℕ) → Outcome

abbrev pub empty : Limiter
empty = record { inflight = []; recent = [] }

abbrev pub second : ℕ
second = 1_000_000

-- `self._inflight[key]`
abbrev pub held : Limiter → Key → ℕ
held l k = get_or k 0 l.inflight

unfoldable pub add_of : String → Dict Key ℕ → ℕ
add_of client [] = 0
add_of client (((c, i), n) ∷ d) = if c == client then n + add_of client d else add_of client d

-- Limiter.inflight
unfoldable pub inflight : Limiter → String → ℕ
unfolding add_of
inflight l client = add_of client l.inflight

unfoldable pub snapshot_from : Dict String ℕ → Dict Key ℕ → Dict String ℕ
snapshot_from out [] = out
snapshot_from out (((client, i), n) ∷ d) =
    snapshot_from (if n == 0 then out else set client (get_or client 0 out + n) out) d

unfoldable pub snapshot : Limiter → Dict String ℕ
unfolding snapshot_from
snapshot l = snapshot_from [] l.inflight

pub reset : Limiter → Limiter
reset l = record { inflight = []; recent = [] }

-- The `while` loop: `window[0] < now - 60.0` is `window[0] + 60.0 < now`.
unfoldable pub prune : ℕ → List ℕ → List ℕ
prune now [] = []
prune now (t ∷ window) = if ltb (t + 60 * second) now then prune now window else t ∷ window

-- `retry_after` for the oldest request of the window.
unfoldable pub retry : ℕ → List ℕ → ℕ
retry now [] = 1
retry now (oldest ∷ window) = max 1 ((oldest + 60 * second - now) / second + 1)

-- The window and the outcome behind the guard on `max_rpm`.
unfoldable pub admit : ℕ → String → ℕ → List ℕ → Outcome × List ℕ
unfolding prune retry
admit max_rpm client now window =
    let recent = prune now window in
    if leb max_rpm (length recent)
    then (limit_error max_rpm client (retry now recent), recent)
    else (passed, recent ++ now ∷ [])

unfoldable pub check_rate : Limiter → String → Option ℕ → ℕ → Outcome × Limiter
unfolding admit
check_rate l client none now = (passed, l)
check_rate l client (some zero) now = (passed, l)
check_rate l client (some (suc n)) now =
    let (outcome, window) = admit (suc n) client now (get_or client [] l.recent) in
    (outcome, record l { recent = set client window l.recent })

unfoldable pub acquire : Limiter → Key → Option ℕ → Bool × Limiter
acquire l key none = (true, record l { inflight = set key (held l key + 1) l.inflight })
acquire l key (some zero) = (true, record l { inflight = set key (held l key + 1) l.inflight })
acquire l key (some (suc n)) =
    let read = setdefault key 0 l.inflight in
    if leb (suc n) (get_or key 0 read)
    then (false, record l { inflight = read })
    else (true, record l { inflight = set key (get_or key 0 read + 1) read })

-- `del self._inflight[key]` once the count is zero.
unfoldable pub free : Key → Option ℕ → Dict Key ℕ → Dict Key ℕ
free key none d = d
free key (some zero) d = d
free key (some (suc n)) d = let less = set key n d in if n == 0 then pop key less else less

unfoldable pub release : Limiter → Key → Limiter
unfolding free
release l key = record l { inflight = free key (get key l.inflight) l.inflight }
