-- ===== src/Auth.antt =====
-- backend/app/services/auth.py with the handlers of backend/app/routers/auth.py that use it: the
-- tokens of sessions (Auth/Logins: the throttle and the login). Times are whole microseconds, lifetimes whole
-- hours.
pub mod Tokens
pub mod Logins
pub mod Throttle
pub mod Revocation
mod Tests
pub mod Samples
use spark_controlplane.Prelude.{
  ℕ, zero, suc, ◌+◌, ◌-◌, ◌*◌, min, max, String, Bool, true, false, not, ◌&&◌, ◌||◌, Option, none,
  some, List, [], ◌∷◌, ltb, leb, ◌==◌, nat_eq, string_eq, if◌then◌else◌,
}
use spark_controlplane.Dict.{Dict, get, set, pop, get_or}
use spark_controlplane.Sessions.{Memory, Store, is_revoked, epoch_for, revoke_jti}

abbrev pub second : ℕ
second = 1_000_000

abbrev pub session_type : String
session_type = "session"

abbrev pub session_version : ℕ
session_version = 3

pub record Settings : Type 0 where
  pub effective_auth_mode : String
  pub admin_user : String
  pub admin_password : Option String
  pub ldap_url : Option String
  pub ldap_group_required : Option String
  pub oidc_issuer : Option String
  pub oidc_client_id : Option String
  pub oidc_group_required : Option String
  pub auth_session_hours : ℕ
  pub oidc_max_session_hours : ℕ

-- The decoded token, with what `data.get` returns for each key: a missing `exp` or `iat` is 0.
pub record Claims : Type 0 where
  pub t : Option String
  pub v : Option ℕ
  pub m : Option String
  pub u : Option String
  pub iat : ℕ
  pub jti : Option String
  pub c : Option String
  pub exp : ℕ

-- Fernet, JSON and sha256, over the texts `T` of cookies: `encrypt(json.dumps(…))`; `decrypt_cookie`
-- and `json.loads`, which return nothing for a text that is no token of this key or no JSON object;
-- the test for the empty text; and the digest of the joined material.
pub record Crypto (T : Type 0) : Type 0 where
  pub encrypt : Claims → T
  pub decrypt : T → Option Claims
  pub is_empty : T → Bool
  pub digest : List String → String

abbrev pub or_empty : Option String → String
or_empty none = ""
or_empty (some s) = s

unfoldable pub config_fingerprint : {T : Type 0} → Crypto T → Settings → String
config_fingerprint k s = k.digest (
    s.effective_auth_mode
    ∷ s.admin_user
    ∷ or_empty s.admin_password
    ∷ or_empty s.ldap_url
    ∷ or_empty s.ldap_group_required
    ∷ or_empty s.oidc_issuer
    ∷ or_empty s.oidc_client_id
    ∷ or_empty s.oidc_group_required
    ∷ [])

unfoldable pub session_seconds : Settings → ℕ
session_seconds s =
    let hours =
      if s.effective_auth_mode == "oidc"
      then min s.auth_session_hours s.oidc_max_session_hours
      else s.auth_session_hours in
    hours * 3600 * second

-- `mode or settings.effective_auth_mode`
abbrev pub or_mode : Option String → String → String
or_mode none effective = effective
or_mode (some m) effective = if m == "" then effective else m

-- The payload of create_session; `jti` is what `new_jti` draws.
unfoldable pub claims_for :
    {T : Type 0} → Crypto T → Settings → Memory → ℕ → String → Option String → String → Claims
unfolding config_fingerprint session_seconds epoch_for
claims_for k s memory now user mode jti =
    let issued_at = max now (epoch_for memory user + second) in
    record {
      t = some session_type;
      v = some session_version;
      m = some (or_mode mode s.effective_auth_mode);
      u = some user;
      iat = issued_at;
      jti = some jti;
      c = some (config_fingerprint k s);
      exp = issued_at + session_seconds s;
    }

unfoldable pub create_session :
    {T : Type 0} → Crypto T → Settings → Memory → ℕ → String → Option String → String → T
unfolding claims_for
create_session k s memory now user mode jti = k.encrypt (claims_for k s memory now user mode jti)

-- `claims.get("m") and data["m"] != mode`
abbrev pub is_other_mode : Option String → String → Bool
is_other_mode none mode = false
is_other_mode (some m) mode = not (m == "") && not (m == mode)

abbrev pub is_text : Option String → String → Bool
is_text none b = false
is_text (some a) b = a == b

abbrev pub is_number : Option ℕ → ℕ → Bool
is_number none b = false
is_number (some a) b = a == b

-- The checks of session_claims behind the decoding, for a claimed user.
unfoldable pub check_claims :
    {T : Type 0} → Crypto T → Settings → Memory → ℕ → String → Claims → Option Claims
unfolding config_fingerprint is_revoked
check_claims k s memory now user claims =
    if ltb claims.exp now
    then none
    else if user == ""
    then none
    else if not (is_text claims.t session_type)
    then none
    else if is_other_mode claims.m s.effective_auth_mode
    then none
    else if not (is_number claims.v session_version)
    then none
    else if not (is_text claims.c (config_fingerprint k s))
    then none
    else if is_revoked memory user claims.jti claims.iat
    then none
    else some claims

unfoldable pub session_claims :
    {T : Type 0} → Crypto T → Settings → Memory → ℕ → Option T → Option Claims
unfolding check_claims
session_claims k s memory now none = none
session_claims k s memory now (some token) =
    if k.is_empty token then none else elim (k.decrypt token) [
      | none ↦ none
      | some claims ↦ elim claims.u [
        | none ↦ none
        | some user ↦ check_claims k s memory now user claims
      ]
    ]

unfoldable pub parse_session :
    {T : Type 0} → Crypto T → Settings → Memory → ℕ → Option T → Option String
unfolding session_claims
parse_session k s memory now token = elim (session_claims k s memory now token) [
  | none ↦ none
  | some claims ↦ claims.u
]

-- ws_session_valid
unfoldable pub ws_session_valid : {T : Type 0} → Crypto T → Settings → Memory → ℕ → Option T → Bool
unfolding parse_session
ws_session_valid k s memory now cookie =
    if s.effective_auth_mode == "none"
    then true
    else elim (parse_session k s memory now cookie) [ none ↦ false | some user ↦ true ]

-- What routers/auth.py's logout does to the revocations; false if it raises.
unfoldable pub logout :
    {T : Type 0} → Crypto T → Settings → Bool → ℕ → ℕ → Option T → Store → Bool × Store
unfolding session_claims revoke_jti
logout k s committed now later cookie store = elim (session_claims k s store.memory now cookie) [
  | none ↦ (true, store)
  | some claims ↦ elim claims.jti [
    | none ↦ (true, store)
    | some id ↦ revoke_jti committed now later id claims.exp "logout" store
  ]
]
