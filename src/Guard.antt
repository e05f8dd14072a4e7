-- ===== src/Guard.antt =====
-- backend/app/middleware.py: which requests `AuthMiddleware` passes on. The cookie header is parsed
-- by the standard library: `token` is the value of the session's cookie, if there is one.
pub mod Paths
pub mod Passage
mod Tests
use spark_controlplane.Prelude.{
  ℕ, String, Bool, true, false, not, ◌&&◌, ◌||◌, Option, none, some, List, [], ◌∷◌, length, ◌==◌,
  nat_eq, string_eq, if◌then◌else◌,
}
use spark_controlplane.Text.{Text, codes, startswith, text_beq}
use spark_controlplane.Sessions.{Memory}
use spark_controlplane.Auth.{Settings, Crypto, parse_session}
use spark_controlplane.Apikeys.{utf8, wire_bytes}
use spark_controlplane.Gateway.{bearer}

pub data ScopeType : Type 0 where
  http websocket lifespan : ScopeType

pub record Scope (T : Type 0) : Type 0 where
  pub type : ScopeType
  pub path : Text
  pub authorization : Text
  pub token : Option T

-- `_OPEN_PREFIXES` and `_OPEN_PATHS`
abbrev pub is_open : Text → Bool
is_open path =
    text_beq path (codes "/api/health")
    || text_beq path (codes "/api/auth")
    || startswith (codes "/api/auth/") path
    || startswith (codes "/mcp") path

-- `token and supplied and hmac.compare_digest(…)`; a header that is not a bearer's gives no token.
abbrev pub is_metrics_token : Option Text → Text → Bool
is_metrics_token none supplied = false
is_metrics_token (some token) supplied =
    not (length token == 0)
    && not (length supplied == 0)
    && text_beq (wire_bytes supplied) (utf8 token)

-- What the application gets, or what the client is told.
pub data Verdict : Type 0 where
  passed_on : Verdict
  unauthorized : Verdict
  closed_4401 : Verdict

-- `_deny`
abbrev pub deny : ScopeType → Verdict
deny websocket = closed_4401
deny _ = unauthorized

abbrev pub is_guarded : ScopeType → Bool
is_guarded lifespan = false
is_guarded _ = true

-- A user of no letters is false.
abbrev pub is_user : Option String → Bool
is_user none = false
is_user (some user) = not (user == "")

module _ {T : Type 0} (k : Crypto T) (s : Settings) (metrics_token : Option Text) where
  -- `_session_user`
  unfoldable pub session_user : Memory → ℕ → Scope T → Option String
  unfolding parse_session
  session_user memory now scope = parse_session k s memory now scope.token

  -- `AuthMiddleware.__call__`
  unfoldable pub guard : Memory → ℕ → Scope T → Verdict
  unfolding session_user bearer
  guard memory now scope =
      if not (is_guarded scope.type)
      then passed_on
      else if s.effective_auth_mode == "none"
      then passed_on
      else if is_open scope.path
      then passed_on
      else if text_beq scope.path (codes "/metrics")
      then (if is_metrics_token metrics_token (bearer scope.authorization)
          then passed_on
          else if is_user (session_user memory now scope)
          then passed_on
          else deny scope.type)
      else if not (startswith (codes "/api") scope.path)
      then passed_on
      else if is_user (session_user memory now scope)
      then passed_on
      else deny scope.type
