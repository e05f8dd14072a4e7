-- ===== src/Oidc/History.antt =====
-- Sign-ins that begin and end at `oidc_login` and `oidc_callback` of backend/app/routers/auth.py, in
-- any order and at any times.
use spark_controlplane.Prelude.{ℕ, ◌≡◌, Option, none, List, [], ◌∷◌, All}
use spark_controlplane.Text.{Text}
use spark_controlplane.Oidc.{Settings}
use spark_controlplane.Oidc.Provider.{Request, Site, World}
use spark_controlplane.Oidc.Pinned.{Reaches, IsPinned}
use spark_controlplane.Oidc.Callback.{Tx, Callback, signed_in, oidc_login, oidc_callback}
use spark_controlplane.Oidc.Admission.{SignedIn, oidc_callback-SignedIn}
use spark_controlplane.Oidc.Runs.{oidc_login-IsPinned, oidc_callback-IsPinned}

-- A sign-in that begins, and one that returns, each with the time after the requests sent so far.
pub data Event : Type 0 where
  begins : (now : List Request → ℕ) → Event
  returns : (now : List Request → ℕ) (request : Callback) → Event

-- The caches after `reset_caches`, or when the portal was started.
abbrev pub start : Site
start = record { discovery = none; jwks = none; sent = [] }

module _ (s : Settings) (w : World) (decrypt_cookie : Text → Option Text)
    (loads : Text → Option Tx) where
  abbrev pub step : Event → Site → Site
  step (begins now) p = (oidc_login s (record w { now = now }) p).1
  step (returns now request) p =
      (oidc_callback s (record w { now = now }) decrypt_cookie loads request p).1

  unfoldable pub run : List Event → Site → Site
  run [] p = p
  run (e ∷ es) p = run es (step e p)

  start-IsPinned : IsPinned s w.outside start
  start-IsPinned = record { reaches = tt; cached_doc = tt; cached_keys = tt }

  step-IsPinned : (e : Event) (p : Site) → IsPinned s w.outside p → IsPinned s w.outside (step e p)
  step-IsPinned (begins now) p h = oidc_login-IsPinned s (record w { now = now }) p h
  step-IsPinned (returns now request) p h =
      oidc_callback-IsPinned s (record w { now = now }) decrypt_cookie loads request p h

  run-IsPinned :
      (es : List Event) (p : Site) → IsPinned s w.outside p → IsPinned s w.outside (run es p)
  unfolding run
  run-IsPinned [] p h = h
  run-IsPinned (e ∷ es) p h = run-IsPinned es (step e p) (step-IsPinned e p h)

  -- Whatever sign-ins begin and end, at whatever times and whatever the provider answers, every
  -- request goes to the issuer's configuration or to a URL of the issuer's own origin, and a code
  -- only to the latter.
  pub run-Reaches : (es : List Event) → All (Reaches s w.outside) (run es start).sent
  run-Reaches es = (run-IsPinned es start start-IsPinned).reaches

  -- Whatever sign-ins began and ended before, `oidc_callback` signs a user in only for a cookie
  -- whose sign-in has the state of the query, with claims decoded from the token that was
  -- exchanged for the code, with a key that a URL of the issuer's origin published and an allowed
  -- algorithm, whose nonce is the cookie's, whose groups `authorized` allows, and under the name
  -- that they give.
  pub run-SignedIn :
      (es : List Event) (request : Callback) (user : Text)
      → (oidc_callback s w decrypt_cookie loads request (run es start)).0 ≡ signed_in user
      → SignedIn s w decrypt_cookie loads request user
  run-SignedIn es request user e =
      oidc_callback-SignedIn s w decrypt_cookie loads request (run es start) user
        (run-IsPinned es start start-IsPinned) e
