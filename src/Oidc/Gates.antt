-- ===== src/Oidc/Gates.antt =====
-- What `oidc_callback` of backend/app/routers/auth.py has checked when it signs a user in.
use spark_controlplane.Prelude.{
  ℕ, ◌≡◌, ◌≢◌, inl, inr, sym, ◌∙◌, ap, Bool, true, false, not, ◌&&◌, none, some, List, [], ◌∷◌,
  contains, arith, Bool-cases, Option-cases, eq_of_some, if◌then◌else◌, string_eq,
}
use spark_controlplane.Text.{Text, words_from}
use spark_controlplane.Text.Laws.{text_eq}
use spark_controlplane.Oidc.{
  shown_as, is_truthy, is_str, is_null, Fields, field, Settings, or_blank,
}
use spark_controlplane.Oidc.Provider.{
  Jwk, Http, Request, post_code, Header, World, ok, malformed_token, bad_algorithm, invalid_token,
}
use spark_controlplane.Oidc.Caches.{lift}
use spark_controlplane.Oidc.Safe.{
  Any, >>=-Safe, >>-Safe, pure-Safe, gets-Safe, or_raise-Safe, lift-Safe, raise_if-Safe,
  Safe-weaken,
}
use spark_controlplane.Oidc.Pinned.{Published, is_pinned-IsOurs}
use spark_controlplane.Oidc.Fetches.{Fetch, send-Safe, discovery-Safe}
use spark_controlplane.Oidc.Keys.{signing_key-Safe}
use spark_controlplane.Oidc.Callback.{
  Tx, read_token, has_several, is_nonce, exchange_code, check_for, allowed_alg, check_claims,
  verify, validate_id_token, identify,
}

module _ (s : Settings) (w : World) where
  -- The token came as the answer to this code.
  pub record Exchanged (code verifier token : Text) : Type 0 where
    pub url : Text
    pub before : List Request
    pub read : read_token (w.outside.answer before (post_code url code verifier)) ≡ ok token

  -- The claims are those of a token with a good signature by a published key, for this portal.
  pub record Verified (raw nonce : Text) (claims : Fields) : Type 0 where
    pub alg : Text
    pub is_allowed : contains alg (words_from [] s.oidc_algorithms) ≡ true
    pub jwk : Jwk
    pub published : Published s w.outside jwk
    pub key : w.Key
    pub built : w.build_key jwk alg ≡ some key
    pub now : ℕ
    pub decoded : w.decode raw key (check_for s w alg) now ≡ some claims
    pub one_audience :
        (has_several (field "aud" claims) && not (is_truthy (field "azp" claims))) ≡ false
    pub ours :
        (not (is_null (field "azp" claims))
          && not (is_str (field "azp" claims) (or_blank s.oidc_client_id)))
        ≡ false
    pub has_nonce : is_str (field "nonce" claims) nonce ≡ true
    pub set_nonce : nonce ≢ []

  read_token-Exchanged :
      (url code verifier token : Text) (before : List Request) (a : Http)
      → a ≡ w.outside.answer before (post_code url code verifier)
      → read_token a ≡ ok token
      → Exchanged code verifier token
  read_token-Exchanged url code verifier token before a e h = record {
    url = url;
    before = before;
    read = ap read_token (sym e) ∙ h;
  }

  exchange_code-Safe :
      (code verifier : Text) → Fetch s w (Exchanged code verifier) (exchange_code s w code verifier)
  unfolding exchange_code
  exchange_code-Safe code verifier = >>=-Safe _ _ _ (discovery-Safe s w) (λ doc ends.
      >>=-Safe _ _ _
        (send-Safe s w (post_code (shown_as (field "token_endpoint" doc)) code verifier)
          (is_pinned-IsOurs s w.outside (field "token_endpoint" doc) ends.token))
        (λ a (before, e).
          Safe-weaken (λ token. read_token a ≡ ok token) (lift (read_token a))
            (λ token h. read_token-Exchanged _ code verifier token before a e h)
            (lift-Safe (read_token a))))

  -- What `check_claims` lets pass
  abbrev Checked : Text → Fields → Type 0
  Checked nonce claims =
      ((has_several (field "aud" claims) && not (is_truthy (field "azp" claims))) ≡ false)
      × ((not (is_null (field "azp" claims))
            && not (is_str (field "azp" claims) (or_blank s.oidc_client_id)))
          ≡ false)
      × (is_nonce nonce claims ≡ true)

  of_not : (b : Bool) → not b ≡ false → b ≡ true
  of_not b h = ground arith

  check_claims-Safe :
      (nonce : Text) (claims : Fields)
      → Fetch s w (λ u. Checked nonce claims) (check_claims s w nonce claims)
  unfolding check_claims
  check_claims-Safe nonce claims = >>-Safe _ _ (raise_if-Safe _ _) (λ u a.
      >>-Safe _ _ (raise_if-Safe _ _)
        (λ u b. Safe-weaken _ _ (λ u c. (a, b, of_not _ c)) (raise_if-Safe _ _)))

  nonce_held :
      (nonce : Text) (claims : Fields)
      → is_nonce nonce claims ≡ true
      → (is_str (field "nonce" claims) nonce ≡ true) × (nonce ≢ [])
  nonce_held [] claims h = ground arith
  nonce_held (c ∷ cs) claims h = (h, λ e. ground arith)

  verify-Safe :
      (raw nonce : Text) (header : Header) (alg : Text)
      → contains alg (words_from [] s.oidc_algorithms) ≡ true
      → Fetch s w (Verified raw nonce) (verify s w raw nonce header alg)
  unfolding verify
  verify-Safe raw nonce header alg h =
      >>=-Safe _ _ _ (signing_key-Safe s w header.kid alg) (λ key (jwk, x, built).
        >>=-Safe Any _ _ (gets-Safe _ (λ p y. tt)) (λ now u.
          >>=-Safe _ _ _ (or_raise-Safe _ invalid_token) (λ claims e.
            >>-Safe _ _ (check_claims-Safe nonce claims) (λ u (a, b, c). pure-Safe claims (record {
              alg = alg;
              is_allowed = h;
              jwk = jwk;
              published = x;
              key = key;
              built = built;
              now = now;
              decoded = e;
              one_audience = a;
              ours = b;
              has_nonce = (nonce_held nonce claims c).0;
              set_nonce = (nonce_held nonce claims c).1;
            })))))

  absurd_none :
      (alg : Text) → none ≡ some alg → contains alg (words_from [] s.oidc_algorithms) ≡ true
  absurd_none alg e = ground arith

  if_contains :
      (a alg : Text)
      → (if contains a (words_from [] s.oidc_algorithms) then some a else none) ≡ some alg
      → contains alg (words_from [] s.oidc_algorithms) ≡ true
  if_contains a alg e = elim (Bool-cases (contains a (words_from [] s.oidc_algorithms))) [
    | inl y ↦ rw (sym (eq_of_some (rw y at e))) y
    | inr y ↦ absurd_none alg (rw y at e)
  ]

  allowed_alg-contains :
      (header : Header) (alg : Text)
      → allowed_alg s w header ≡ some alg
      → contains alg (words_from [] s.oidc_algorithms) ≡ true
  unfolding allowed_alg
  allowed_alg-contains header alg e = elim (Option-cases header.alg) [
    | inl absent ↦ absurd_none alg (rw absent at e)
    | inr (a, found) ↦ if_contains a alg (rw found at e)
  ]

  validate_id_token-Safe :
      (raw nonce : Text) → Fetch s w (Verified raw nonce) (validate_id_token s w raw nonce)
  unfolding validate_id_token
  validate_id_token-Safe raw nonce = >>=-Safe _ _ _ (or_raise-Safe _ malformed_token) (λ header x.
      >>=-Safe _ _ _ (or_raise-Safe _ bad_algorithm)
        (λ alg e. verify-Safe raw nonce header alg (allowed_alg-contains header alg e)))

  -- The claims are of a token for the code, with the sign-in's verifier and nonce.
  pub record Identified (code : Text) (tx : Tx) (claims : Fields) : Type 0 where
    pub token : Text
    pub exchanged : Exchanged code tx.v token
    pub verified : Verified token tx.n claims

  pub identify-Safe :
      (code : Text) (tx : Tx) → Fetch s w (Identified code tx) (identify s w code tx)
  unfolding identify
  identify-Safe code tx = >>=-Safe _ _ _ (exchange_code-Safe code tx.v) (λ token x.
      Safe-weaken _ _ (λ claims y. record { token = token; exchanged = x; verified = y })
        (validate_id_token-Safe token tx.n))
