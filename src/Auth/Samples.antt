-- ===== src/Auth/Samples.antt =====
-- A concrete cipher, a portal and a session, for the tests.
use spark_controlplane.Prelude.{
  String, Bool, true, false, none, some, List, [], ◌∷◌, arith, string_eq, Option,
}
use spark_controlplane.Sessions.{Store, epoch_row}
use spark_controlplane.Sessions.Restart.{Agrees, Event, sign_out, restart, start, start-Agrees}
use spark_controlplane.Auth.{Settings, Claims, Crypto}

abbrev pub settings : Settings
settings = record {
  effective_auth_mode = "password";
  admin_user = "admin";
  admin_password = some "secret";
  ldap_url = none;
  ldap_group_required = none;
  oidc_issuer = none;
  oidc_client_id = none;
  oidc_group_required = none;
  auth_session_hours = 24;
  oidc_max_session_hours = 8;
}

abbrev pub Cookie : Type 0
Cookie = Option Claims

abbrev pub is_blank : Cookie → Bool
is_blank none = true
is_blank (some claims) = false

abbrev pub first : List String → String
first [] = ""
first (s ∷ ss) = s

abbrev pub crypto : Crypto Cookie
crypto = record {
  encrypt = λ c. some c;
  decrypt = λ cookie. cookie;
  is_empty = is_blank;
  digest = first;
}

-- Bob was signed out everywhere at 100 seconds; then the clock went back to 40 seconds.
abbrev pub portal : Store
portal = start 40_000_000 (epoch_row "bob" 100_000_000 "leak" 100_000_000 ∷ [])

abbrev pub minted : Claims
minted = record {
  t = some "session";
  v = some 3;
  m = some "password";
  u = some "bob";
  iat = 101_000_000;
  jti = some "j1";
  c = some "password";
  exp = 86_501_000_000;
}

pub portal-Agrees : Agrees "j1" 86_501_000_000 portal
portal-Agrees =
    start-Agrees "j1" 86_501_000_000 40_000_000
      (epoch_row "bob" 100_000_000 "leak" 100_000_000 ∷ []) (λ h. ground arith, tt)

abbrev pub events : List Event
events = restart 300_000_000 ∷ sign_out false 301_000_000 302_000_000 "ann" "left" ∷ []
