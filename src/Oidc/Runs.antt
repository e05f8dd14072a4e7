-- ===== src/Oidc/Runs.antt =====
-- The requests that backend/app/services/oidc.py sends while sign-ins begin and end.
use mathlib.Core.Path.{subst}
use spark_controlplane.Prelude.{
  ◌≡◌, ◌≢◌, ◌⊎◌, inl, inr, refl, sym, ◌∙◌, ap, Bool, true, false, not, Option, none, some, [], ◌∷◌,
  Bool-cases, Option-cases, if◌then◌else◌, ◌==◌, string_eq,
}
use spark_controlplane.Text.{Text, codes, text_beq}
use spark_controlplane.Oidc.{Settings, is_set, ConfigError, oidc_config_error}
use spark_controlplane.Oidc.Provider.{Site, World, Result, ok, err, crash}
use spark_controlplane.Oidc.Caches.{discovery}
use spark_controlplane.Oidc.Safe.{Good, Any, >>=-Safe, pure-Safe}
use spark_controlplane.Oidc.Pinned.{IsPinned}
use spark_controlplane.Oidc.Fetches.{discovery-Safe}
use spark_controlplane.Oidc.Admission.{compare_digest-eq}
use spark_controlplane.Oidc.Gates.{Identified, identify-Safe}
use spark_controlplane.Oidc.Callback.{
  Tx, Callback, Answer, not_enabled, misconfigured, not_completed, incomplete, expired, unreadable,
  compare_digest, identify, finish, check_state, open_cookie, resume, callback_enabled,
  oidc_callback, oidc_login, begin, login_url, redirected, bad_gateway, internal_error,
}

Good-kept :
    {A : Type 0} (P : Site → Type 0) (Q : A → Type 0) (r : Result A) (q : Site) → Good P Q r q → P q
Good-kept P Q (ok a) q (x, h) = h
Good-kept P Q (err e) q h = h

abbrev state_of : Answer × Site → Site
state_of z = z.1

module _ (s : Settings) (w : World) where
  login_url-IsPinned :
      (p : Site) → IsPinned s w.outside p → IsPinned s w.outside (login_url s w p).1
  unfolding login_url
  login_url-IsPinned p h =
      Good-kept (IsPinned s w.outside) Any (login_url s w p).0 (login_url s w p).1
        ((>>=-Safe _ (discovery s w) _ (discovery-Safe s w) (λ doc x. pure-Safe _ tt)).safe p h)

  answered_state :
      (r : Result Text) (q : Site)
      → state_of (elim r [
        | ok url ↦ (redirected url, q)
        | err crash ↦ (internal_error, q)
        | err e ↦ (bad_gateway e, q)
      ])
        ≡ q
  answered_state (ok url) q = refl
  answered_state (err crash) q = refl
  answered_state (err e) q = refl

  begin-IsPinned : (p : Site) → IsPinned s w.outside p → IsPinned s w.outside (begin s w p).1
  unfolding begin
  begin-IsPinned p h =
      subst (IsPinned s w.outside) (sym (answered_state (login_url s w p).0 (login_url s w p).1))
        (login_url-IsPinned p h)

  configured_login :
      (found : Option ConfigError) (p : Site)
      → IsPinned s w.outside p
      → IsPinned s w.outside
          (state_of (elim found [ some reason ↦ (misconfigured reason, p) | none ↦ begin s w p ]))
  configured_login none p h = begin-IsPinned p h
  configured_login (some reason) p h = h

  enabled_login :
      (b : Bool) (p : Site) (z : Answer × Site)
      → IsPinned s w.outside p
      → IsPinned s w.outside z.1
      → IsPinned s w.outside (if not b then (not_enabled, p) else z).1
  enabled_login true p z h k = k
  enabled_login false p z h k = h

  pub oidc_login-IsPinned :
      (p : Site) → IsPinned s w.outside p → IsPinned s w.outside (oidc_login s w p).1
  unfolding oidc_login
  oidc_login-IsPinned p h =
      enabled_login (s.effective_auth_mode == "oidc") p _ h
        (configured_login (oidc_config_error s) p h)

  identify-IsPinned :
      (code : Text) (tx : Tx) (p : Site)
      → IsPinned s w.outside p
      → IsPinned s w.outside (identify s w code tx p).1
  identify-IsPinned code tx p h =
      Good-kept (IsPinned s w.outside) (Identified s w code tx) (identify s w code tx p).0
        (identify s w code tx p).1 ((identify-Safe s w code tx).safe p h)

  -- The state that is left is the old one, or that of an identification for a cookie's content, of
  -- which `G` holds and which holds the given state.
  abbrev Left : (Text → Tx → Type 0) → Site → Site → Type 0
  Left G p q =
      (q ≡ p)
      ⊎ ((state : Text) × (code : Text) × (tx : Tx) × G state tx
          × (tx.s ≡ state)
          × (q ≡ (identify s w code tx p).1))

  Left-IsPinned :
      (G : Text → Tx → Type 0) (p q : Site)
      → Left G p q
      → IsPinned s w.outside p
      → IsPinned s w.outside q
  Left-IsPinned G p q (inl same) h = rw same h
  Left-IsPinned G p q (inr (state, code, tx, g, agreed, same)) h =
      rw same (identify-IsPinned code tx p h)

  check_state-Left :
      (G : Text → Tx → Type 0) (code state : Text) (tx : Tx) (p : Site)
      → G state tx
      → Left G p (check_state s w code state tx p).1
  unfolding check_state finish
  check_state-Left G code state tx p g = elim (Bool-cases (text_beq tx.t (codes "oidc_tx"))) [
    | inr e ↦ rw e (inl refl)
    | inl e ↦ elim (Option-cases (compare_digest tx.s state)) [
      | inl none_found ↦ rw (e, none_found) (inl refl)
      | inr (true, found) ↦
          rw (e, found) (inr (state, code, tx, g, compare_digest-eq tx.s state found, refl))
      | inr (false, found) ↦ rw (e, found) (inl refl)
    ]
  ]

  if-Left :
      (G : Text → Tx → Type 0) (b : Bool) (a : Answer) (z : Answer × Site) (p : Site)
      → Left G p z.1
      → Left G p (if b then (a, p) else z).1
  if-Left G true a z p h = inl refl
  if-Left G false a z p h = h

  config-Left :
      (G : Text → Tx → Type 0) (found : Option ConfigError) (z : Answer × Site) (p : Site)
      → Left G p z.1
      → Left G p (state_of (elim found [ some reason ↦ (misconfigured reason, p) | none ↦ z ]))
  config-Left G none z p h = h
  config-Left G (some reason) z p h = inl refl

  module _ (decrypt_cookie : Text → Option Text) (loads : Text → Option Tx) where
    loaded-Left :
        (G : Text → Tx → Type 0) (code state : Text) (found : Option Tx) (p : Site)
        → ((tx : Tx) → found ≡ some tx → G state tx)
        → Left G p (
            state_of
              (elim found [ none ↦ (unreadable, p) | some tx ↦ check_state s w code state tx p ]))
    loaded-Left G code state none p g = inl refl
    loaded-Left G code state (some tx) p g = check_state-Left G code state tx p (g tx refl)

    -- The cookie holds a sign-in.
    pub record Holds (cookie : Option Text) (tx : Tx) : Type 0 where
      pub raw_tx : Text
      pub opened : open_cookie s w decrypt_cookie loads cookie ≡ some raw_tx
      pub loaded : loads raw_tx ≡ some tx

    opened-Left :
        (G : Text → Tx → Type 0) (code state : Text) (found : Option Text) (p : Site)
        → ((raw : Text) (tx : Tx) → found ≡ some raw → loads raw ≡ some tx → G state tx)
        → Left G p (
            state_of (elim found [
              | none ↦ (expired, p)
              | some raw_tx ↦ elim (loads raw_tx) [
                | none ↦ (unreadable, p)
                | some tx ↦ check_state s w code state tx p
              ]
            ]))
    opened-Left G code state none p g = inl refl
    opened-Left G code state (some raw) p g =
        loaded-Left G code state (loads raw) p (λ tx e. g raw tx refl e)

    resume-Left :
        (G : Text → Tx → Type 0) (code state : Text) (cookie : Option Text) (p : Site)
        → ((tx : Tx) → Holds cookie tx → G state tx)
        → Left G p (resume s w decrypt_cookie loads code state cookie p).1
    unfolding resume
    resume-Left G code state cookie p g =
        opened-Left G code state (open_cookie s w decrypt_cookie loads cookie) p
          (λ raw tx o l. g tx (record { raw_tx = raw; opened = o; loaded = l }))

    queried-Left :
        (G : Text → Tx → Type 0) (code state cookie : Option Text) (p : Site)
        → ((st : Text) (tx : Tx) → state ≡ some st → Holds cookie tx → G st tx)
        → Left G p (
            state_of (elim code [
              | some (c ∷ cs) ↦ elim state [
                | some (d ∷ ds) ↦ resume s w decrypt_cookie loads (c ∷ cs) (d ∷ ds) cookie p
                | _ ↦ (incomplete, p)
              ]
              | _ ↦ (incomplete, p)
            ]))
    queried-Left G none state cookie p g = inl refl
    queried-Left G (some []) state cookie p g = inl refl
    queried-Left G (some (c ∷ cs)) none cookie p g = inl refl
    queried-Left G (some (c ∷ cs)) (some []) cookie p g = inl refl
    queried-Left G (some (c ∷ cs)) (some (d ∷ ds)) cookie p g =
        resume-Left G (c ∷ cs) (d ∷ ds) cookie p (λ tx h. g (d ∷ ds) tx refl h)

    -- The sign-in of a request: its cookie's, with the state that it names.
    abbrev Own : Callback → Text → Tx → Type 0
    Own request state tx = (request.state ≡ some state) × Holds request.cookie tx

    oidc_callback-Left :
        (request : Callback) (p : Site)
        → Left (Own request) p (oidc_callback s w decrypt_cookie loads request p).1
    unfolding oidc_callback callback_enabled
    oidc_callback-Left request p =
        if-Left (Own request) (not (s.effective_auth_mode == "oidc")) not_enabled _ p (
          config-Left (Own request) (oidc_config_error s) _ p (
            if-Left (Own request) (is_set request.error) not_completed _ p (
              queried-Left (Own request) request.code request.state request.cookie p
                (λ st tx e h. (e, h)))))

    pub oidc_callback-IsPinned :
        (request : Callback) (p : Site)
        → IsPinned s w.outside p
        → IsPinned s w.outside (oidc_callback s w decrypt_cookie loads request p).1
    oidc_callback-IsPinned request p h =
        Left-IsPinned (Own request) p _ (oidc_callback-Left request p) h

    foreign :
        (request : Callback) (p q : Site)
        → ((tx : Tx) → Holds request.cookie tx → request.state ≢ some tx.s)
        → Left (Own request) p q
        → q ≡ p
    foreign request p q other (inl same) = same
    foreign request p q other (inr (state, code, tx, (named, held), agreed, same)) =
        elim (other tx held (named ∙ ap some (sym agreed))) [ ]

    -- A callback whose state is not that of a sign-in in its cookie sends no request and changes
    -- no cache.
    pub oidc_callback-forged :
        (request : Callback) (p : Site)
        → ((tx : Tx) → Holds request.cookie tx → request.state ≢ some tx.s)
        → (oidc_callback s w decrypt_cookie loads request p).1 ≡ p
    oidc_callback-forged request p other = foreign request p _ other (oidc_callback-Left request p)
