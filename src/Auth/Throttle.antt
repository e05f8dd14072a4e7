-- ===== src/Auth/Throttle.antt =====
-- The throttle of auth.py against the history of the attempts to log in.
use spark_controlplane.Prelude.{
  ℕ, ◌+◌, ◌-◌, ◌≡◌, refl, String, Bool, true, false, List, [], ◌∷◌, arith, leb, ◌==◌, string_eq,
  if◌then◌else◌, eq_iff,
}
use spark_controlplane.Dict.{get, get_or}
use spark_controlplane.Dict.Laws.{get_or-set, get_or-pop}
use spark_controlplane.Auth.Logins.{Fails, check_throttle, record_attempt, max_fails, lockout}

-- An attempt that was recorded: the address, whether it succeeded, and when.
abbrev pub Recorded : Type 0
Recorded = String × Bool × ℕ

unfoldable pub record_all : List Recorded → Fails → Fails
record_all [] d = d
record_all ((ip, ok, now) ∷ history) d = record_all history (record_attempt ip ok now d)

-- The failures of an address since its last success, and the time of the last; `p` has
-- those before the history.
abbrev pub straight_fails : String → List Recorded → ℕ × ℕ → ℕ × ℕ
straight_fails ip [] p = p
straight_fails ip ((a, ok, now) ∷ history) p =
    straight_fails ip history (if a == ip then (if ok then (0, 0) else (p.0 + 1, now)) else p)

-- The entry of an address with that many straight failures and the time of the last.
abbrev pub entry_of : ℕ × ℕ → ℕ × ℕ
entry_of p = (p.0, (if leb max_fails p.0 then p.1 + lockout else 0))

record_attempt-entry :
    (ip : String) (a : String) (ok : Bool) (now : ℕ) (p : ℕ × ℕ) (d : Fails)
    → get_or ip (0, 0) d ≡ entry_of p
    → get_or ip (0, 0) (record_attempt a ok now d)
      ≡ entry_of (if a == ip then (if ok then (0, 0) else (p.0 + 1, now)) else p)
unfolding record_attempt
record_attempt-entry ip a true now p d h = ground (arith, get_or-pop a ip (0, 0) d)
record_attempt-entry ip a false now p d h =
    let fails = (get_or a (0, 0) d).0 + 1 in
    ground (
      arith,
      eq_iff a ip,
      get_or-set a ip (fails, (if leb max_fails fails then now + lockout else 0)) (0, 0) d,
    )

record_all-entry :
    (ip : String) (history : List Recorded) (p : ℕ × ℕ) (d : Fails)
    → get_or ip (0, 0) d ≡ entry_of p
    → get_or ip (0, 0) (record_all history d) ≡ entry_of (straight_fails ip history p)
unfolding record_all
record_all-entry ip [] p d h = h
record_all-entry ip ((a, ok, now) ∷ history) p d h =
    record_all-entry ip history (if a == ip then (if ok then (0, 0) else (p.0 + 1, now)) else p)
      (record_attempt a ok now d) (record_attempt-entry ip a ok now p d h)

-- From no failures, an address waits exactly if its last five recorded attempts, or more, failed
-- with no success between, and then until 30 seconds after the last of them.
pub check_throttle-record_all :
    (ip : String) (history : List Recorded) (now : ℕ)
    → check_throttle ip now (record_all history []) ≡ (
        let (n, t) = straight_fails ip history (0, 0) in
        if leb max_fails n then t + lockout - now else 0)
unfolding check_throttle get_or get
check_throttle-record_all ip history now =
    ground (arith, record_all-entry ip history (0, 0) [] refl)
