-- ===== src/Oidc/Fetches.antt =====
-- `_get_json` and `discovery` of backend/app/services/oidc.py keep to the issuer's origin.
use spark_controlplane.Prelude.{
  ℕ, ◌≡◌, inl, inr, refl, sym, ◌∙◌, Bool, true, false, not, ◌||◌, Option, none, some, List, String,
  arith, Bool-cases, if◌then◌else◌, ◌==◌, nat_eq,
}
use spark_controlplane.Text.{Text, codes}
use spark_controlplane.Text.Laws.{text_eq}
use spark_controlplane.Dict.{pop}
use spark_controlplane.Dict.Laws.{get_or-pop}
use spark_controlplane.Oidc.{null, Fields, field, Settings, is_null}
use spark_controlplane.Oidc.Provider.{
  Document, Http, response, Request, get_from, Discovery, World, ok, Action, pure,
}
use spark_controlplane.Oidc.Caches.{
  lift, discovery_url, read_json, keep_fresh, send, get_json, is_pinned, without_foreign_end,
  check_doc, fetch_discovery, discovery,
}
use spark_controlplane.Oidc.Safe.{
  Safe, >>=-Safe, >>-Safe, pure-Safe, gets-Safe, lift-Safe, raise_if-Safe, modify-Safe, Safe-weaken,
}
use spark_controlplane.Oidc.Pinned.{read_json-ok, Reaches, Endpoints, CachedDoc, IsPinned}

module _ (s : Settings) (w : World) where
  -- An action that keeps to the issuer's origin.
  abbrev pub Fetch : {A : Type 0} → (A → Type 0) → Action A → Type 0
  Fetch Q m = Safe (IsPinned s w.outside) Q m

  pub send-Safe :
      (r : Request)
      → Reaches s w.outside r
      → Fetch (λ a. (before : List Request) × (a ≡ w.outside.answer before r)) (send s w r)
  unfolding send
  send-Safe r h = record {
    safe = λ p x. (
      (p.sent, refl),
      record { reaches = (h, x.reaches); cached_doc = x.cached_doc; cached_keys = x.cached_keys },
    );
  }

  -- A document comes from an answer to the request.
  abbrev pub Answered : Text → Document → Type 0
  Answered url doc =
      (before : List Request) × (size : ℕ) × (w.outside.answer before (get_from url)
        ≡ response 200 size (some (some doc)))

  answered :
      (url : Text) (before : List Request) (a : Http) (doc : Document)
      → a ≡ w.outside.answer before (get_from url)
      → read_json a ≡ ok doc
      → Answered url doc
  answered url before a doc e h =
      let (size, shape) = read_json-ok a doc h in (before, size, sym e ∙ shape)

  pub get_json-Safe :
      (url : Text) → Reaches s w.outside (get_from url) → Fetch (Answered url) (get_json s w url)
  unfolding get_json
  get_json-Safe url h = >>=-Safe _ _ _ (send-Safe (get_from url) h) (λ a (before, e).
      Safe-weaken (λ doc. read_json a ≡ ok doc) (lift (read_json a))
        (λ doc x. answered url before a doc e x) (lift-Safe (read_json a)))

  of_not : (b : Bool) → not b ≡ false → b ≡ true
  of_not b h = ground arith

  check_doc-Safe : (doc : Fields) → Fetch (λ u. Endpoints s w.outside doc) (check_doc s w doc)
  unfolding check_doc
  check_doc-Safe doc = >>-Safe _ _ (raise_if-Safe _ _) (λ u same.
      >>-Safe _ _ (raise_if-Safe _ _) (λ u a. >>-Safe _ _ (raise_if-Safe _ _) (λ u t.
        Safe-weaken _ _
          (λ u j. record { authorization = of_not _ a; token = of_not _ t; jwks = of_not _ j })
          (raise_if-Safe _ _))))

  field-pop :
      (name : String) (doc : Fields)
      → (codes "end_session_endpoint" == codes name) ≡ false
      → field name (pop (codes "end_session_endpoint") doc) ≡ field name doc
  unfolding field
  field-pop name doc h =
      get_or-pop (codes "end_session_endpoint") (codes name) null doc ∙ (rw h refl)

  without_foreign_end-Endpoints :
      (doc : Fields)
      → Endpoints s w.outside doc
      → Endpoints s w.outside (without_foreign_end s w doc)
  unfolding without_foreign_end
  without_foreign_end-Endpoints doc h =
      let test =
        is_null (field "end_session_endpoint" doc)
        || is_pinned s w.outside (field "end_session_endpoint" doc) in
      elim (Bool-cases test) [
        | inl e ↦ rw e h
        | inr e ↦ rw e (record {
          authorization = rw (field-pop "authorization_endpoint" doc refl) h.authorization;
          token = rw (field-pop "token_endpoint" doc refl) h.token;
          jwks = rw (field-pop "jwks_uri" doc refl) h.jwks;
        })
      ]

  fetch_discovery-Safe : Fetch (Endpoints s w.outside) (fetch_discovery s w)
  unfolding fetch_discovery
  fetch_discovery-Safe = >>=-Safe _ _ _ (get_json-Safe (discovery_url s) (inl refl)) (λ answer a.
      >>-Safe _ _ (check_doc-Safe answer.fields) (λ u ends.
        >>-Safe _ _
          (modify-Safe _ (λ p x. record {
            reaches = x.reaches;
            cached_doc = without_foreign_end-Endpoints answer.fields ends;
            cached_keys = x.cached_keys;
          }))
          (λ u v. pure-Safe _ (without_foreign_end-Endpoints answer.fields ends))))

  -- The document of the cache, if it is served
  abbrev Served : Option Fields → Type 0
  Served none = Unit
  Served (some doc) = Endpoints s w.outside doc

  if-Served :
      (b : Bool) (doc : Fields) → Endpoints s w.outside doc → Served (if b then some doc else none)
  if-Served true doc h = h
  if-Served false doc h = tt

  keep_fresh-Served :
      (now : ℕ) (d : Option Discovery) → CachedDoc s w.outside d → Served (keep_fresh s now d)
  keep_fresh-Served now none h = tt
  keep_fresh-Served now (some d) h = if-Served _ d.doc h

  doc_choice-Safe :
      (cached : Option Fields)
      → Served cached
      → Fetch
          (Endpoints s w.outside)
          (elim cached [ some doc ↦ pure doc | none ↦ fetch_discovery s w ])
  doc_choice-Safe none h = fetch_discovery-Safe
  doc_choice-Safe (some doc) h = pure-Safe doc h

  pub discovery-Safe : Fetch (Endpoints s w.outside) (discovery s w)
  unfolding discovery
  discovery-Safe =
      >>=-Safe Served _ _
        (gets-Safe _ (λ p x. keep_fresh-Served (w.now p.sent) p.discovery x.cached_doc))
        doc_choice-Safe
