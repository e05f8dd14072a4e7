-- ===== src/Guard/Passage.antt =====
-- What a request needs to reach the API.
use mathlib.Core.Path.{subst}
use spark_controlplane.Guard.Paths.{IsOpenPath, is_open_iff, HasToken, is_metrics_token_iff}
use spark_controlplane.Prelude.{
  eq_of_some, ap, ℕ, ◌<◌, ◌≡◌, ◌≢◌, ◌↔◌, ◌⊎◌, ◌++◌, none, not, ◌&&◌, Bool, false, or_iff, and_iff,
  not_iff, String, true, false, ◌||◌, some, Option, List, All, arith, sym, ◌∙◌, if◌then◌else◌, ◌==◌,
  nat_eq, string_eq, refl,
}
use spark_controlplane.Text.{Text, codes, startswith, text_beq}
use spark_controlplane.Sessions.{Memory, Store, cutoff, expired, revoke_user}
use spark_controlplane.Sessions.Restart.{Agrees, Event, run, Spares}
use spark_controlplane.Auth.{Settings, Claims, Crypto, parse_session}
use spark_controlplane.Auth.Revocation.{parse_session-revoke_user}
use spark_controlplane.Text.Laws.{text_beq_iff, startswith-iff-append}
use spark_controlplane.Gateway.{bearer}
use spark_controlplane.Guard.{
  ScopeType, http, websocket, lifespan, Scope, is_open, is_metrics_token, Verdict, passed_on, deny,
  is_guarded, is_user, session_user, guard,
}

metrics_no_api :
    (path : Text) → startswith (codes "/api") path ≡ true → text_beq path (codes "/metrics") ≡ false
unfolding startswith
metrics_no_api path h = ground arith

-- A request or a socket for a path of the API that is not open.
pub record IsPrivate {T : Type 0} (scope : Scope T) : Type 0 where
  pub guarded : scope.type ≢ lifespan
  pub is_api : (rest : Text) × (scope.path ≡ codes "/api" ++ rest)
  pub not_open : IsOpenPath scope.path → ⊥

deny-ne : (t : ScopeType) → deny t ≢ passed_on
deny-ne http e = cc
deny-ne websocket e = cc
deny-ne lifespan e = cc

-- The cascade of the guard, as one test.
passed_iff :
    (guarded unlocked opened metrics token api user : Bool) (d : Verdict)
    → d ≢ passed_on
    → ((if not guarded
          then passed_on
          else if unlocked
          then passed_on
          else if opened
          then passed_on
          else if metrics
          then (if token then passed_on else if user then passed_on else d)
          else if not api
          then passed_on
          else if user
          then passed_on
          else d)
        ≡ passed_on)
      ↔ ((not guarded
            || unlocked
            || opened
            || (not metrics && not api)
            || (metrics && token)
            || user)
          ≡ true)
passed_iff false unlocked opened metrics token api user d n = (λ h. refl, λ h. refl)
passed_iff true true opened metrics token api user d n = (λ h. refl, λ h. refl)
passed_iff true false true metrics token api user d n = (λ h. refl, λ h. refl)
passed_iff true false false true token api user d n = (λ h. ground arith, λ h. ground arith)
passed_iff true false false false token api user d n = (λ h. ground arith, λ h. ground arith)

fails : {P : Type 0} (b : Bool) → ((b ≡ true) ↔ P) → (P → ⊥) → b ≡ false
fails true f n = elim (n (f.0 refl)) [ ]
fails false f n = refl

module _ {T : Type 0} (k : Crypto T) (s : Settings) (metrics_token : Option Text) where
  -- The cookie is the valid session of a named user.
  abbrev pub HasSession : Memory → ℕ → Option T → Type 0
  HasSession memory now token =
      (user : String) × (parse_session k s memory now token ≡ some user) × (user ≢ "")

  -- What lets a request or a socket pass: it is none; nobody has to log in; its path is open; it
  -- is no path of the API, and not the metrics; it is a scrape with the token; or it has a session.
  abbrev pub Passes : Memory → ℕ → Scope T → Type 0
  Passes memory now scope =
      (((((scope.type ≡ lifespan) ⊎ (s.effective_auth_mode ≡ "none")) ⊎ IsOpenPath scope.path)
          ⊎ ((scope.path ≢ codes "/metrics")
              × (((rest : Text) × (scope.path ≡ codes "/api" ++ rest)) → ⊥)))
        ⊎ ((scope.path ≡ codes "/metrics") × HasToken metrics_token (bearer scope.authorization)))
      ⊎ HasSession memory now scope.token

  is_user_iff :
      (found : Option String)
      → (is_user found ≡ true) ↔ ((user : String) × (found ≡ some user) × (user ≢ ""))
  is_user_iff none = (λ h. ground arith, λ (user, e, n). ground arith)
  is_user_iff (some name) =
      let test = not_iff (name == "") (string_eq.same_iff name "") in
      (
        λ h. (name, refl, test.0 h),
        λ (user, e, n). test.1 (subst (λ t. t ≢ "") (sym (eq_of_some e)) n),
      )

  is_lifespan_iff : (t : ScopeType) → (not (is_guarded t) ≡ true) ↔ (t ≡ lifespan)
  is_lifespan_iff http = (λ h. ground arith, λ e. ground arith)
  is_lifespan_iff websocket = (λ h. ground arith, λ e. ground arith)
  is_lifespan_iff lifespan = (λ h. refl, λ e. refl)

  guard-iff-tests :
      (memory : Memory) (now : ℕ) (scope : Scope T)
      → (guard k s metrics_token memory now scope ≡ passed_on) ↔ (
          (not (is_guarded scope.type)
            || (s.effective_auth_mode == "none")
            || is_open scope.path
            || (not (text_beq scope.path (codes "/metrics"))
                && not (startswith (codes "/api") scope.path))
            || (text_beq scope.path (codes "/metrics")
                && is_metrics_token metrics_token (bearer scope.authorization))
            || is_user (parse_session k s memory now scope.token))
          ≡ true)
  unfolding guard session_user
  guard-iff-tests memory now scope =
      passed_iff (is_guarded scope.type) (s.effective_auth_mode == "none") (is_open scope.path)
        (text_beq scope.path (codes "/metrics"))
        (is_metrics_token metrics_token (bearer scope.authorization))
        (startswith (codes "/api") scope.path) (is_user (parse_session k s memory now scope.token))
        (deny scope.type) (deny-ne scope.type)

  -- The guard passes a message on exactly if it is neither a request nor a socket, or nobody has
  -- to log in, or its path is open (/api/health, /api/auth and below it, or one that begins with
  -- /mcp), or its path neither is /metrics nor begins with /api, or it is /metrics with the token
  -- of the metrics, or its cookie is a valid session of a named user.
  pub guard-iff-Passes :
      (memory : Memory) (now : ℕ) (scope : Scope T)
      → (guard k s metrics_token memory now scope ≡ passed_on) ↔ Passes memory now scope
  guard-iff-Passes memory now scope =
      let metrics = text_beq_iff scope.path (codes "/metrics") in
      let tests =
        or_iff _ _
          (or_iff _ _
            (or_iff _ _
              (or_iff _ _
                (or_iff _ _ (is_lifespan_iff scope.type)
                  (string_eq.same_iff s.effective_auth_mode "none"))
                (is_open_iff scope.path))
              (and_iff _ _ (not_iff _ metrics)
                (not_iff _ (startswith-iff-append (codes "/api") scope.path))))
            (and_iff _ _ metrics (is_metrics_token_iff metrics_token (bearer scope.authorization))))
          (is_user_iff (parse_session k s memory now scope.token)) in
      let run = guard-iff-tests memory now scope in (λ h. tests.0 (run.0 h), λ h. run.1 (tests.1 h))

  guard_private :
      (memory : Memory) (now : ℕ) (scope : Scope T)
      → IsPrivate scope
      → (s.effective_auth_mode == "none") ≡ false
      → is_user (parse_session k s memory now scope.token) ≡ false
      → guard k s metrics_token memory now scope ≡ deny scope.type
  unfolding guard session_user
  guard_private memory now scope private locked nobody =
      let guarded = fails _ (is_lifespan_iff scope.type) private.guarded in
      let closed = fails _ (is_open_iff scope.path) private.not_open in
      let api = (startswith-iff-append (codes "/api") scope.path).1 private.is_api in
      let no_metrics = metrics_no_api scope.path api in
      rw (guarded, locked, closed, no_metrics, api, nobody) refl

-- Once a user is signed out everywhere, no request with a cookie issued to the user before the
-- cutoff reaches a private path, at any time and after any events, restarts and crashes included,
-- that come before the cookie's expiry.
pub guard-revoke_user :
    {T : Type 0} (k : Crypto T) (s : Settings) (metrics_token : Option Text) (scope : Scope T)
    (store : Store) (token : T) (user id : String) (claims : Claims) (now later : ℕ)
    (reason : String) (es : List Event) (asked : ℕ)
    → IsPrivate scope
    → (s.effective_auth_mode == "none") ≡ false
    → scope.token ≡ some token
    → k.decrypt token ≡ some claims
    → claims.u ≡ some user
    → claims.jti ≡ some id
    → Agrees id claims.exp store
    → claims.iat < cutoff now user store.memory
    → expired claims.exp later ≡ false
    → All (Spares id claims.exp) es
    → guard k s metrics_token
        (run es (revoke_user true now later user reason store).1).memory
        asked
        scope
      ≡ deny scope.type
guard-revoke_user k s metrics_token scope store token user id claims now later reason es asked
      private locked has_token decrypted claimed jti agrees before live spares =
    let memory = (run es (revoke_user true now later user reason store).1).memory in
    guard_private k s metrics_token memory asked scope private locked (
      ap is_user (
        ap (parse_session k s memory asked) has_token
        ∙ parse_session-revoke_user k s store token user id claims now later reason es asked
            decrypted claimed jti agrees before live spares))
