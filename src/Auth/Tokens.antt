-- ===== src/Auth/Tokens.antt =====
-- The tokens of sessions of auth.py, from their creation to their revocation.
use spark_controlplane.Prelude.{
  ℕ, ◌+◌, max, ◌≤◌, ◌<◌, ◌≡◌, ◌≢◌, refl, String, true, false, Option, none, some, arith, eq_of_some,
  sym, ◌∙◌, Option-cases, inl, inr, nat_eq, string_eq, eq_iff,
}
use mathlib.Core.Path.{subst}
use spark_controlplane.Sessions.{Memory, is_known, is_revoked, epoch_for}
use spark_controlplane.Auth.{
  Settings, Claims, Crypto, second, session_type, session_version, config_fingerprint,
  session_seconds, claims_for, create_session, check_claims, session_claims, parse_session, is_text,
  is_other_mode,
}

-- A token that was just made is never one that an epoch kills, wherever the clock stands.
pub claims_for-outlives :
    {T : Type 0} (k : Crypto T) (s : Settings) (memory : Memory) (now : ℕ) (user : String)
    (mode : Option String) (jti : String)
    → epoch_for memory user < (claims_for k s memory now user mode jti).iat
unfolding claims_for
claims_for-outlives k s memory now user mode jti = ground arith

-- What session_claims asks of a decoded token.
pub record IsValid {T : Type 0} (k : Crypto T) (s : Settings) (memory : Memory) (now : ℕ)
    (user : String) (claims : Claims) : Type 0 where
  pub unexpired : now ≤ claims.exp
  pub named : user ≢ ""
  pub typed : claims.t ≡ some session_type
  pub of_mode : is_other_mode claims.m s.effective_auth_mode ≡ false
  pub versioned : claims.v ≡ some session_version
  pub of_config : claims.c ≡ some (config_fingerprint k s)
  pub unrevoked : is_revoked memory user claims.jti claims.iat ≡ false

is_text_sound : (o : Option String) (b : String) → is_text o b ≡ true → o ≡ some b
is_text_sound none b h = ground arith
is_text_sound (some a) b h = ground (arith, eq_iff a b)

check_claims-valid :
    {T : Type 0} (k : Crypto T) (s : Settings) (memory : Memory) (now : ℕ) (user : String)
    (claims : Claims)
    → IsValid k s memory now user claims
    → check_claims k s memory now user claims ≡ some claims
unfolding check_claims
check_claims-valid k s memory now user claims v = ground (
  arith,
  v.unexpired,
  v.named,
  v.typed,
  v.of_mode,
  v.versioned,
  v.of_config,
  v.unrevoked,
  eq_iff user "",
  eq_iff session_type session_type,
  eq_iff (config_fingerprint k s) (config_fingerprint k s),
)

check_claims_sound :
    {T : Type 0} (k : Crypto T) (s : Settings) (memory : Memory) (now : ℕ) (user : String)
    (claims got : Claims)
    → check_claims k s memory now user claims ≡ some got
    → (got ≡ claims) × IsValid k s memory now user claims
unfolding check_claims
check_claims_sound k s memory now user claims got h = (
  ground arith,
  record {
    unexpired = ground arith;
    named = ground (arith, eq_iff user "");
    typed = ground (arith, is_text_sound claims.t session_type);
    of_mode = ground arith;
    versioned = ground arith;
    of_config = ground (arith, is_text_sound claims.c (config_fingerprint k s));
    unrevoked = ground arith;
  },
)

claimed_user :
    {T : Type 0} (k : Crypto T) (s : Settings) (memory : Memory) (now : ℕ) (user : String)
    (mode : Option String) (jti : String)
    → (claims_for k s memory now user mode jti).u ≡ some user
unfolding claims_for
claimed_user k s memory now user mode jti = refl

fresh-IsValid :
    {T : Type 0} (k : Crypto T) (s : Settings) (memory : Memory) (now : ℕ) (user jti : String)
    (later : ℕ)
    → memory.loaded ≡ true
    → user ≢ ""
    → is_known (some jti) memory.revoked ≡ false
    → later ≤ max now (epoch_for memory user + second) + session_seconds s
    → IsValid k s memory later user (claims_for k s memory now user none jti)
unfolding claims_for is_revoked epoch_for
fresh-IsValid k s memory now user jti later loaded named unknown live = record {
  unexpired = live;
  named = named;
  typed = refl;
  of_mode = ground (arith, eq_iff s.effective_auth_mode s.effective_auth_mode);
  versioned = refl;
  of_config = refl;
  unrevoked = ground arith;
}

-- A login works: with a cipher that decrypts what it encrypted and a loaded revocation list, a
-- token just made for a user is the user's session until its lifetime is over, whatever epochs
-- were revoked and wherever the clock stands, if its id is not a revoked one.
pub parse_session-create_session :
    {T : Type 0} (k : Crypto T) (s : Settings) (memory : Memory) (now : ℕ) (user jti : String)
    (later : ℕ)
    → ((c : Claims) → k.decrypt (k.encrypt c) ≡ some c)
    → ((c : Claims) → k.is_empty (k.encrypt c) ≡ false)
    → memory.loaded ≡ true
    → user ≢ ""
    → is_known (some jti) memory.revoked ≡ false
    → later ≤ max now (epoch_for memory user + second) + session_seconds s
    → parse_session k s memory later (some (create_session k s memory now user none jti))
      ≡ some user
unfolding parse_session session_claims create_session
parse_session-create_session k s memory now user jti later decrypts sealed loaded named unknown
      live =
    let claims = claims_for k s memory now user none jti in
    let checked : check_claims k s memory later user claims ≡ some claims =
      check_claims-valid k s memory later user claims
        (fresh-IsValid k s memory now user jti later loaded named unknown live) in
    ground
      (arith, decrypts claims, sealed claims, checked, claimed_user k s memory now user none jti)

parse_session_of :
    {T : Type 0} (k : Crypto T) (s : Settings) (memory : Memory) (now : ℕ) (token : T)
    (user : String) (claims : Claims)
    → k.decrypt token ≡ some claims
    → parse_session k s memory now (some token) ≡ some user
    → (claims : Claims) × (k.decrypt token ≡ some claims)
      × (claims.u ≡ some user)
      × IsValid k s memory now user claims
unfolding parse_session session_claims
parse_session_of k s memory now token user claims e h = elim (Option-cases claims.u) [
  | inl f ↦ ground arith
  | inr (w, f) ↦ elim (Option-cases (check_claims k s memory now w claims)) [
    | inl g ↦ ground arith
    | inr (got, g) ↦
        let (same, valid) = check_claims_sound k s memory now w claims got g in
        let found : claims.u ≡ some user = ground arith in
        (
          claims,
          e,
          found,
          subst (λ x. IsValid k s memory now x claims) (eq_of_some (sym f ∙ found)) valid,
        )
  ]
]

-- `parse_session` names a user only for a text that decrypts to unexpired claims of that user, of
-- this type, version, mode and credential configuration, that no revocation kills.
pub parse_session_sound :
    {T : Type 0} (k : Crypto T) (s : Settings) (memory : Memory) (now : ℕ) (token : T)
    (user : String)
    → parse_session k s memory now (some token) ≡ some user
    → (claims : Claims) × (k.decrypt token ≡ some claims)
      × (claims.u ≡ some user)
      × IsValid k s memory now user claims
unfolding parse_session session_claims
parse_session_sound k s memory now token user h = elim (Option-cases (k.decrypt token)) [
  | inl e ↦ ground arith
  | inr (claims, e) ↦ parse_session_of k s memory now token user claims e h
]
