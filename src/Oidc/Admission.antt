-- ===== src/Oidc/Admission.antt =====
-- Whom `oidc_callback` of backend/app/routers/auth.py signs in, and what a forged callback costs.
use spark_controlplane.Prelude.{
  ◌≡◌, refl, Bool, true, false, not, Option, none, some, [], ◌∷◌, arith, if◌then◌else◌, ◌==◌,
  string_eq,
}
use spark_controlplane.Text.{Text, codes, text_beq}
use spark_controlplane.Text.Laws.{text_beq_iff}
use spark_controlplane.Oidc.{
  Fields, Settings, is_set, ConfigError, oidc_config_error, Verdict, allowed, authorized,
  username_from_claims,
}
use spark_controlplane.Oidc.Provider.{Site, World, Result, ok, err, crash}
use spark_controlplane.Oidc.Safe.{Good}
use spark_controlplane.Oidc.Pinned.{IsPinned}
use spark_controlplane.Oidc.Gates.{Identified, identify-Safe}
use spark_controlplane.Oidc.Callback.{
  Tx, Callback, Answer, not_enabled, misconfigured, not_completed, incomplete, expired, unreadable,
  state_mismatch, signed_in, denied, internal_error, compare_digest, identify, conclude, finish,
  check_state, open_cookie, resume, callback_enabled, oidc_callback,
}

abbrev answer_of : Answer × Site → Answer
answer_of z = z.0

pub compare_digest-eq : (a b : Text) → compare_digest a b ≡ some true → a ≡ b
unfolding compare_digest
compare_digest-eq a b e = ground (arith, (text_beq_iff a b).0)

module _ (s : Settings) (w : World) where
  -- The claims for which a user is signed in.
  pub record Passed (code : Text) (tx : Tx) (user : Text) : Type 0 where
    pub claims : Fields
    pub identified : Identified s w code tx claims
    pub member : authorized s claims ≡ allowed
    pub named : user ≡ username_from_claims s claims

  conclude_ok :
      (v : Verdict) (claims : Fields) (user : Text)
      → (elim v [ allowed ↦ signed_in (username_from_claims s claims) | why ↦ denied why ])
        ≡ signed_in user
      → (v ≡ allowed) × (user ≡ username_from_claims s claims)
  conclude_ok allowed claims user e = (refl, ground arith)
  conclude_ok why claims user e = ground arith

  conclude-Passed :
      (code : Text) (tx : Tx) (user : Text) (r : Result Fields) (q : Site)
      → Good (IsPinned s w.outside) (Identified s w code tx) r q
      → conclude s w r ≡ signed_in user
      → Passed code tx user
  unfolding conclude
  conclude-Passed code tx user (ok claims) q (x, h) e =
      let (member, named) = conclude_ok (authorized s claims) claims user e in
      record { claims = claims; identified = x; member = member; named = named }
  conclude-Passed code tx user (err crash) q h e = ground arith
  conclude-Passed code tx user (err why) q h e = ground arith

  finish-Passed :
      (code : Text) (tx : Tx) (user : Text) (p : Site)
      → IsPinned s w.outside p
      → (finish s w code tx p).0 ≡ signed_in user
      → Passed code tx user
  unfolding finish
  finish-Passed code tx user p h e =
      conclude-Passed code tx user (identify s w code tx p).0 (identify s w code tx p).1
        ((identify-Safe s w code tx).safe p h) e

  compared :
      (m : Option Bool) (p : Site) (z : Answer × Site) (user : Text)
      → answer_of
          (elim m [ none ↦ (internal_error, p) | some false ↦ (state_mismatch, p) | some true ↦ z ])
        ≡ signed_in user
      → (m ≡ some true) × (z.0 ≡ signed_in user)
  compared none p z user e = ground arith
  compared (some false) p z user e = ground arith
  compared (some true) p z user e = (refl, e)

  tagged :
      (b : Bool) (p : Site) (z : Answer × Site) (user : Text)
      → (if not b then (unreadable, p) else z).0 ≡ signed_in user
      → (b ≡ true) × (z.0 ≡ signed_in user)
  tagged false p z user e = ground arith
  tagged true p z user e = (refl, e)

  -- What the content of the cookie and the query agree on.
  pub record Resumed (code state : Text) (tx : Tx) (user : Text) : Type 0 where
    pub is_tx : tx.t ≡ codes "oidc_tx"
    pub same_state : tx.s ≡ state
    pub passed : Passed code tx user

  check_state-Resumed :
      (code state : Text) (tx : Tx) (user : Text) (p : Site)
      → IsPinned s w.outside p
      → (check_state s w code state tx p).0 ≡ signed_in user
      → Resumed code state tx user
  unfolding check_state
  check_state-Resumed code state tx user p h e =
      let (tag, e') = tagged (text_beq tx.t (codes "oidc_tx")) p _ user e in
      let (same, e'') = compared (compare_digest tx.s state) p (finish s w code tx p) user e' in
      record {
        is_tx = (text_beq_iff tx.t (codes "oidc_tx")).0 tag;
        same_state = compare_digest-eq tx.s state same;
        passed = finish-Passed code tx user p h e'';
      }

  module _ (decrypt_cookie : Text → Option Text) (loads : Text → Option Tx) where
    pub record SignedIn (request : Callback) (user : Text) : Type 0 where
      pub code : Text
      pub state : Text
      pub raw_tx : Text
      pub tx : Tx
      pub has_code : request.code ≡ some code
      pub has_state : request.state ≡ some state
      pub opened : open_cookie s w decrypt_cookie loads request.cookie ≡ some raw_tx
      pub loaded : loads raw_tx ≡ some tx
      pub resumed : Resumed code state tx user

    -- A cookie holds a sign-in that leads to the user.
    abbrev Held : Text → Text → Option Text → Text → Type 0
    Held code state cookie user =
        (raw_tx : Text) × (tx : Tx) × (open_cookie s w decrypt_cookie loads cookie ≡ some raw_tx)
        × (loads raw_tx ≡ some tx)
        × Resumed code state tx user

    loaded-Held :
        (code state raw : Text) (found : Option Tx) (user : Text) (p : Site)
        → IsPinned s w.outside p
        → answer_of
            (elim found [ none ↦ (unreadable, p) | some tx ↦ check_state s w code state tx p ])
          ≡ signed_in user
        → (tx : Tx) × (found ≡ some tx) × Resumed code state tx user
    loaded-Held code state raw none user p h e = ground arith
    loaded-Held code state raw (some tx) user p h e =
        (tx, refl, check_state-Resumed code state tx user p h e)

    opened-Held :
        (code state : Text) (found : Option Text) (user : Text) (p : Site)
        → IsPinned s w.outside p
        → answer_of (elim found [
          | none ↦ (expired, p)
          | some raw_tx ↦ elim (loads raw_tx) [
            | none ↦ (unreadable, p)
            | some tx ↦ check_state s w code state tx p
          ]
        ])
          ≡ signed_in user
        → (raw_tx : Text) × (tx : Tx) × (found ≡ some raw_tx)
          × (loads raw_tx ≡ some tx)
          × Resumed code state tx user
    opened-Held code state none user p h e = ground arith
    opened-Held code state (some raw) user p h e =
        let (tx, x, y) = loaded-Held code state raw (loads raw) user p h e in (raw, tx, refl, x, y)

    resume-Held :
        (code state : Text) (cookie : Option Text) (user : Text) (p : Site)
        → IsPinned s w.outside p
        → (resume s w decrypt_cookie loads code state cookie p).0 ≡ signed_in user
        → Held code state cookie user
    unfolding resume
    resume-Held code state cookie user p h e =
        opened-Held code state (open_cookie s w decrypt_cookie loads cookie) user p h e

    queried :
        (code state cookie : Option Text) (user : Text) (p : Site)
        → IsPinned s w.outside p
        → answer_of (elim code [
          | some (c ∷ cs) ↦ elim state [
            | some (d ∷ ds) ↦ resume s w decrypt_cookie loads (c ∷ cs) (d ∷ ds) cookie p
            | _ ↦ (incomplete, p)
          ]
          | _ ↦ (incomplete, p)
        ])
          ≡ signed_in user
        → (c : Text) × (d : Text) × (code ≡ some c) × (state ≡ some d) × Held c d cookie user
    queried none state cookie user p h e = ground arith
    queried (some []) state cookie user p h e = ground arith
    queried (some (c ∷ cs)) none cookie user p h e = ground arith
    queried (some (c ∷ cs)) (some []) cookie user p h e = ground arith
    queried (some (c ∷ cs)) (some (d ∷ ds)) cookie user p h e =
        (c ∷ cs, d ∷ ds, refl, refl, resume-Held (c ∷ cs) (d ∷ ds) cookie user p h e)

    completed :
        (b : Bool) (p : Site) (z : Answer × Site) (user : Text)
        → (if b then (not_completed, p) else z).0 ≡ signed_in user
        → z.0 ≡ signed_in user
    completed true p z user e = ground arith
    completed false p z user e = e

    configured :
        (found : Option ConfigError) (p : Site) (z : Answer × Site) (user : Text)
        → answer_of (elim found [ some reason ↦ (misconfigured reason, p) | none ↦ z ])
          ≡ signed_in user
        → z.0 ≡ signed_in user
    configured none p z user e = e
    configured (some reason) p z user e = ground arith

    enabled :
        (b : Bool) (p : Site) (z : Answer × Site) (user : Text)
        → (if not b then (not_enabled, p) else z).0 ≡ signed_in user
        → z.0 ≡ signed_in user
    enabled false p z user e = ground arith
    enabled true p z user e = e

    callback_enabled-SignedIn :
        (request : Callback) (p : Site) (user : Text)
        → IsPinned s w.outside p
        → (callback_enabled s w decrypt_cookie loads request p).0 ≡ signed_in user
        → SignedIn request user
    unfolding callback_enabled
    callback_enabled-SignedIn request p user h e =
        let (code, state, x, y, (raw, tx, o, l, r)) =
          queried request.code request.state request.cookie user p h
            (completed (is_set request.error) p _ user e) in
        record {
          code = code;
          state = state;
          raw_tx = raw;
          tx = tx;
          has_code = x;
          has_state = y;
          opened = o;
          loaded = l;
          resumed = r;
        }

    pub oidc_callback-SignedIn :
        (request : Callback) (p : Site) (user : Text)
        → IsPinned s w.outside p
        → (oidc_callback s w decrypt_cookie loads request p).0 ≡ signed_in user
        → SignedIn request user
    unfolding oidc_callback
    oidc_callback-SignedIn request p user h e = callback_enabled-SignedIn request p user h (
        configured (oidc_config_error s) p _ user
          (enabled (s.effective_auth_mode == "oidc") p _ user e))
