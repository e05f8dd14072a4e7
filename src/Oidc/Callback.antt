-- ===== src/Oidc/Callback.antt =====
-- backend/app/services/oidc.py: `exchange_code` and `validate_id_token`; and the handlers
-- `oidc_login` and `oidc_callback` of backend/app/routers/auth.py.
use spark_controlplane.Prelude.{
  Bool, true, false, not, ◌&&◌, Option, none, some, [], ◌∷◌, all, ltb, length, contains, ◌==◌,
  nat_eq, string_eq, if◌then◌else◌,
}
use spark_controlplane.Text.{Text, codes, words_from, text_beq}
use spark_controlplane.Text.Laws.{text_eq}
use spark_controlplane.Oidc.{
  Value, str, list, shown_as, is_truthy, is_str, is_null, Fields, field, Settings, or_blank, is_set,
  ConfigError, oidc_config_error, Verdict, allowed, authorized, username_from_claims,
}
use spark_controlplane.Oidc.Provider.{
  Http, no_answer, response, post_code, Failure, unreachable, rejected, malformed_response,
  no_id_token, malformed_token, bad_algorithm, invalid_token, no_azp, other_application,
  other_nonce, crash, Site, Header, Check, World, Result, ok, err, Action, pure, gets, or_raise,
  ◌>>=◌, ◌>>◌, Done, raise_if,
}
use spark_controlplane.Oidc.Caches.{issuer_of, send, discovery, signing_key}

-- What the cookie of a sign-in holds; the portal wrote it, and a missing text reads as the empty one.
pub record Tx : Type 0 where
  pub t : Text
  pub s : Text
  pub n : Text
  pub v : Text

-- The query and the cookie of a callback.
pub record Callback : Type 0 where
  pub error : Option Text
  pub code : Option Text
  pub state : Option Text
  pub cookie : Option Text

pub data Answer : Type 0 where
  not_enabled : Answer
  misconfigured : (reason : ConfigError) → Answer
  not_completed : Answer
  incomplete : Answer
  expired : Answer
  unreadable : Answer
  state_mismatch : Answer
  failed : (reason : Failure) → Answer
  denied : (reason : Verdict) → Answer
  signed_in : (user : Text) → Answer
  internal_error : Answer
  redirected : (endpoint : Text) → Answer
  bad_gateway : (reason : Failure) → Answer

-- What is read of the answer to a code.
unfoldable pub read_token : Http → Result Text
unfolding field
read_token no_answer = err unreachable
read_token (response status size body) = if not (status == 200) then err rejected else elim body [
  | none ↦ err malformed_response
  | some none ↦ err crash
  | some (some doc) ↦ elim (field "id_token" doc.fields) [
    | str (c ∷ cs) ↦ ok (c ∷ cs)
    | _ ↦ err no_id_token
  ]
]

-- len(aud_list) > 1; PyJWT refuses an audience of another shape before.
abbrev pub has_several : Value → Bool
has_several (list items shown) = ltb 1 (length items)
has_several _ = false

-- `nonce` of the claims is the given one, which is not empty.
abbrev pub is_nonce : Text → Fields → Bool
is_nonce [] claims = false
is_nonce (c ∷ cs) claims = is_str (field "nonce" claims) (c ∷ cs)

-- hmac.compare_digest of two texts, which raises TypeError for a text that is not ASCII.
abbrev pub is_ascii : Text → Bool
is_ascii text = all (λ c. ltb c 128) text

unfoldable pub compare_digest : Text → Text → Option Bool
compare_digest a b = if is_ascii a && is_ascii b then some (text_beq a b) else none

module _ (s : Settings) (w : World) where
  unfoldable pub exchange_code : Text → Text → Action Text
  unfolding discovery send read_token field
  exchange_code code verifier = do
    doc ← discovery s w
    answer ← send s w (post_code (shown_as (field "token_endpoint" doc)) code verifier)
    λ p. (read_token answer, p)

  abbrev pub check_for : Text → Check
  check_for alg = record {
    alg = alg;
    audience = or_blank s.oidc_client_id;
    issuer = issuer_of s;
    leeway = s.oidc_clock_skew;
  }

  -- `alg`, if the settings allow it
  unfoldable pub allowed_alg : Header → Option Text
  unfolding words_from
  allowed_alg header = elim header.alg [
    | none ↦ none
    | some alg ↦ (if contains alg (words_from [] s.oidc_algorithms) then some alg else none)
  ]

  -- The checks of the claims that follow `jwt.decode`
  unfoldable pub check_claims : Text → Fields → Action Done
  unfolding field raise_if
  check_claims nonce claims = do
    raise_if (has_several (field "aud" claims) && not (is_truthy (field "azp" claims))) no_azp
    raise_if
        (not (is_null (field "azp" claims))
          && not (is_str (field "azp" claims) (or_blank s.oidc_client_id)))
        other_application
    raise_if (not (is_nonce nonce claims)) other_nonce

  -- From the signing key on
  unfoldable pub verify : Text → Text → Header → Text → Action Fields
  unfolding signing_key check_claims
  verify raw nonce header alg = do
    key ← signing_key s w header.kid alg
    now ← gets (λ p. w.now p.sent)
    claims ← or_raise (w.decode raw key (check_for alg) now) invalid_token
    check_claims nonce claims
    pure claims

  unfoldable pub validate_id_token : Text → Text → Action Fields
  unfolding allowed_alg verify
  validate_id_token raw nonce = do
    header ← or_raise (w.header raw) malformed_token
    alg ← or_raise (allowed_alg header) bad_algorithm
    verify raw nonce header alg

  -- The body of the `try` of `oidc_callback`
  unfoldable pub identify : Text → Tx → Action Fields
  unfolding exchange_code validate_id_token
  identify code tx = do id_token ← exchange_code code tx.v; validate_id_token id_token tx.n

  -- Its handler, and what follows
  unfoldable pub conclude : Result Fields → Answer
  unfolding authorized username_from_claims
  conclude (err crash) = internal_error
  conclude (err e) = failed e
  conclude (ok claims) = elim (authorized s claims) [
    | allowed ↦ signed_in (username_from_claims s claims)
    | why ↦ denied why
  ]

  unfoldable pub finish : Text → Tx → Site → Answer × Site
  unfolding identify conclude
  finish code tx p = let (r, q) = identify code tx p in (conclude r, q)

  -- From the cookie's content on
  unfoldable pub check_state : Text → Text → Tx → Site → Answer × Site
  unfolding compare_digest finish
  check_state code state tx p =
      if not (text_beq tx.t (codes "oidc_tx"))
      then (unreadable, p)
      else elim (compare_digest tx.s state) [
        | none ↦ (internal_error, p)
        | some false ↦ (state_mismatch, p)
        | some true ↦ finish code tx p
      ]

  -- `decrypt_cookie` with its ttl, and `json.loads`
  module _ (decrypt_cookie : Text → Option Text) (loads : Text → Option Tx) where
    abbrev pub open_cookie : Option Text → Option Text
    open_cookie none = none
    open_cookie (some c) = elim (decrypt_cookie c) [ some (d ∷ ds) ↦ some (d ∷ ds) | _ ↦ none ]

    unfoldable pub resume : Text → Text → Option Text → Site → Answer × Site
    unfolding check_state
    resume code state cookie p = elim (open_cookie cookie) [
      | none ↦ (expired, p)
      | some raw_tx ↦ elim (loads raw_tx) [
        | none ↦ (unreadable, p)
        | some tx ↦ check_state code state tx p
      ]
    ]

    unfoldable pub callback_enabled : Callback → Site → Answer × Site
    unfolding resume
    callback_enabled request p =
        if is_set request.error then (not_completed, p) else elim request.code [
          | some (c ∷ cs) ↦ elim request.state [
            | some (d ∷ ds) ↦ resume (c ∷ cs) (d ∷ ds) request.cookie p
            | _ ↦ (incomplete, p)
          ]
          | _ ↦ (incomplete, p)
        ]

    -- `oidc_callback`; the session of `signed_in` is that of `Auth.create_session`.
    unfoldable pub oidc_callback : Callback → Site → Answer × Site
    unfolding oidc_config_error callback_enabled
    oidc_callback request p =
        if not (s.effective_auth_mode == "oidc")
        then (not_enabled, p)
        else elim (oidc_config_error s) [
          | some reason ↦ (misconfigured reason, p)
          | none ↦ callback_enabled request p
        ]

  -- The authorization endpoint that the browser is sent to
  unfoldable pub login_url : Action Text
  unfolding discovery field
  login_url = do doc ← discovery s w; pure (shown_as (field "authorization_endpoint" doc))

  unfoldable pub begin : Site → Answer × Site
  unfolding login_url
  begin p =
      let (r, q) = login_url p in
      elim r [
        | ok url ↦ (redirected url, q)
        | err crash ↦ (internal_error, q)
        | err e ↦ (bad_gateway e, q)
      ]

  unfoldable pub oidc_login : Site → Answer × Site
  unfolding oidc_config_error begin
  oidc_login p =
      if not (s.effective_auth_mode == "oidc")
      then (not_enabled, p)
      else elim (oidc_config_error s) [ some reason ↦ (misconfigured reason, p) | none ↦ begin p ]
