-- ===== src/Auth/Logins.antt =====
-- The throttle of logins of backend/app/services/auth.py, and the handler login of
-- backend/app/routers/auth.py.
use spark_controlplane.Prelude.{
  ℕ, zero, suc, ◌+◌, ◌-◌, ◌*◌, String, Bool, true, false, Option, none, some, leb, ◌==◌, nat_eq,
  string_eq, if◌then◌else◌,
}
use spark_controlplane.Dict.{Dict, set, pop, get_or}
use spark_controlplane.Sessions.{Memory}
use spark_controlplane.Auth.{second, Crypto, Settings, create_session}

abbrev pub max_fails : ℕ
max_fails = 5

abbrev pub lockout : ℕ
lockout = 30 * second

-- `_FAILS`: the count of failures and the end of the lockout, for each address.
abbrev pub Fails : Type 0
Fails = Dict String (ℕ × ℕ)

unfoldable pub check_throttle : String → ℕ → Fails → ℕ
unfolding get_or
check_throttle ip now d =
    let (fails, until) = get_or ip (0, 0) d in if leb max_fails fails then until - now else 0

unfoldable pub record_attempt : String → Bool → ℕ → Fails → Fails
unfolding get_or
record_attempt ip true now d = pop ip d
record_attempt ip false now d =
    let fails = (get_or ip (0, 0) d).0 + 1 in
    set ip (fails, (if leb max_fails fails then now + lockout else 0)) d

pub data LoginAnswer (T : Type 0) : Type 0 where
  open_portal : LoginAnswer T
  too_many : (wait : ℕ) → LoginAnswer T
  unauthorized : LoginAnswer T
  signed_in : (user : String) (token : T) → LoginAnswer T

-- What a login meets: the address, the clock before and after `verify_login`, what that says of the
-- credentials, and the session id that is drawn.
pub record Attempt : Type 0 where
  pub ip : String
  pub now : ℕ
  pub later : ℕ
  pub verified : Option String
  pub jti : String

-- routers/auth.py's login. A refused address is not asked for its credentials, nor recorded.
unfoldable pub login :
    {T : Type 0} → Crypto T → Settings → Memory → Attempt → Fails → LoginAnswer T × Fails
unfolding check_throttle record_attempt create_session
login k s memory a d =
    if s.effective_auth_mode == "none"
    then (open_portal, d)
    else elim (check_throttle a.ip a.now d) [
      | suc wait ↦ (too_many (suc wait), d)
      | zero ↦ elim a.verified [
        | none ↦ (unauthorized, record_attempt a.ip false a.later d)
        | some user ↦ (
          signed_in user (create_session k s memory a.later user none a.jti),
          record_attempt a.ip true a.later d,
        )
      ]
    ]
