-- ===== src/Auth/Revocation.antt =====
-- Sessions of auth.py after a logout, or after signing out everywhere.
use spark_controlplane.Prelude.{
  ℕ, ◌<◌, ◌≡◌, refl, String, true, false, none, some, List, All, arith, eq_of_some, sym, ap, ◌∙◌,
  Option-cases, inl, inr, ◌==◌, nat_eq, string_eq, eq_iff,
}
use spark_controlplane.Sessions.{Memory, Store, is_revoked, cutoff, expired, revoke_user}
use spark_controlplane.Sessions.Restart.{Agrees, Event, run, Spares, step, sign_out, step-Agrees}
use spark_controlplane.Sessions.Answers.{is_revoked-run, is_revoked-revoke_user, is_revoked-logout}
use spark_controlplane.Auth.{Settings, Claims, Crypto, session_claims, parse_session, logout}
use spark_controlplane.Auth.Tokens.{parse_session_sound}

revoked_none :
    {T : Type 0} (k : Crypto T) (s : Settings) (memory : Memory) (now : ℕ) (token : T)
    (user id : String) (claims : Claims)
    → k.decrypt token ≡ some claims
    → claims.u ≡ some user
    → claims.jti ≡ some id
    → is_revoked memory user (some id) claims.iat ≡ true
    → parse_session k s memory now (some token) ≡ none
revoked_none k s memory now token user id claims decrypted claimed jti dead =
    elim (Option-cases (parse_session k s memory now (some token))) [
      | inl e ↦ e
      | inr (w, e) ↦
          let (found, decrypted', claimed', valid) = parse_session_sound k s memory now token w e in
          let same : found ≡ claims = eq_of_some (sym decrypted' ∙ decrypted) in
          let user' : w ≡ user =
            eq_of_some (sym claimed' ∙ ap (λ (c : Claims). c.u) same ∙ claimed) in
          ground (arith, valid.unrevoked, same, user', jti, dead)
    ]

-- Once a user is signed out everywhere, a session of the user that was issued before the cutoff
-- is refused at any time and after any events, restarts and crashes included, that come before
-- its expiry.
pub parse_session-revoke_user :
    {T : Type 0} (k : Crypto T) (s : Settings) (store : Store) (token : T) (user id : String)
    (claims : Claims) (now later : ℕ) (reason : String) (es : List Event) (asked : ℕ)
    → k.decrypt token ≡ some claims
    → claims.u ≡ some user
    → claims.jti ≡ some id
    → Agrees id claims.exp store
    → claims.iat < cutoff now user store.memory
    → expired claims.exp later ≡ false
    → All (Spares id claims.exp) es
    → parse_session k s
        (run es (revoke_user true now later user reason store).1).memory
        asked
        (some token)
      ≡ none
unfolding revoke_user step
parse_session-revoke_user k s store token user id claims now later reason es asked decrypted claimed
      jti agrees before live spares =
    let s' = (revoke_user true now later user reason store).1 in
    let (returned, answer, later_than) =
      is_revoked-revoke_user id claims.exp now later user reason store user claims.iat agrees
        live in
    let dead : is_revoked s'.memory user (some id) claims.iat ≡ true =
      ground (arith, eq_iff user user) in
    revoked_none k s (run es s').memory asked token user id claims decrypted claimed jti (
      is_revoked-run id claims.exp es s' user claims.iat
        (step-Agrees id claims.exp (sign_out true now later user reason) store agrees live) spares
        dead)

-- Once a valid session is logged out and the commit succeeded before its expiry, its cookie is
-- refused at any time and after any events, restarts and crashes included, that come before its
-- expiry.
pub parse_session-logout :
    {T : Type 0} (k : Crypto T) (s : Settings) (store : Store) (token : T) (user id : String)
    (claims : Claims) (now later : ℕ) (es : List Event) (asked : ℕ)
    → k.decrypt token ≡ some claims
    → claims.u ≡ some user
    → claims.jti ≡ some id
    → (id == "") ≡ false
    → session_claims k s store.memory now (some token) ≡ some claims
    → Agrees id claims.exp store
    → expired claims.exp later ≡ false
    → All (Spares id claims.exp) es
    → parse_session k s
        (run es (logout k s true now later (some token) store).1).memory
        asked
        (some token)
      ≡ none
unfolding logout step
parse_session-logout k s store token user id claims now later es asked decrypted claimed jti named
      valid agrees live spares =
    let event = Event.logout true now later id claims.exp "logout" in
    let reached : (logout k s true now later (some token) store).1 ≡ step event store =
      ground (arith, valid, jti) in
    let dead : is_revoked (run es (step event store)).memory user (some id) claims.iat ≡ true =
      is_revoked-run id claims.exp es (step event store) user claims.iat
        (step-Agrees id claims.exp event store agrees (live, λ same. refl)) spares
        (is_revoked-logout id claims.exp now later "logout" store user claims.iat agrees live
          named) in
    rw reached (
      revoked_none k s (run es (step event store)).memory asked token user id claims decrypted
        claimed jti dead)
