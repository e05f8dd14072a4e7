-- ===== src/Oidc/Ceiling.antt =====
-- The age of the keys that `_jwks_keys` of backend/app/services/oidc.py returns.
use spark_controlplane.Prelude.{
  ℕ, ◌+◌, ◌<◌, ◌≤◌, ◌≡◌, refl, ◌∙◌, ap, Bool, true, false, Option, none, some, List, ◌∷◌, arith,
  ltb, lt→ltb,
}
use spark_controlplane.Dict.{Dict}
use spark_controlplane.Text.{Text}
use spark_controlplane.Oidc.{Fields, Settings, field, shown_as}
use spark_controlplane.Oidc.Provider.{
  Jwk, no_answer, Request, get_from, Jwks, Discovery, Site, World, Result, ok, err, keys_too_old,
  pure, gets, raise_if, modify, catch, ◌>>=◌, ◌>>◌, Action, unreachable, Failure, crash,
}
use spark_controlplane.Oidc.Caches.{
  jwks_min_refresh, jwks_keys, served, refresh, discovery, keep_fresh, fetch_discovery, fetch_keys,
  serve_stale, get_json, read_json, note_attempt,
}

not_below : (a b : ℕ) → b ≤ a → ltb a b ≡ false
not_below a b h = ground arith

module _ {A B : Type 0} where
  abbrev after : (A → Action B) → Result A × Site → Result B × Site
  after f z = elim z.0 [ ok a ↦ f a z.1 | err e ↦ (err e, z.1) ]

  >>=-ok :
      (m : Action A) (f : A → Action B) (a : A) (p q : Site) → m p ≡ (ok a, q) → (m >>= f) p ≡ f a q
  unfolding ◌>>=◌
  >>=-ok m f a p q h = ap (after f) h

  >>=-err :
      (m : Action A) (f : A → Action B) (e : Failure) (p q : Site)
      → m p ≡ (err e, q)
      → (m >>= f) p ≡ (err e, q)
  unfolding ◌>>=◌
  >>=-err m f e p q h = ap (after f) h

abbrev rescued : {A : Type 0} → (Failure → Action A) → Result A × Site → Result A × Site
rescued handler z = elim z.0 [
  | ok a ↦ (ok a, z.1)
  | err crash ↦ (err crash, z.1)
  | err e ↦ handler e z.1
]

catch-unreachable :
    {A : Type 0} (m : Action A) (handler : Failure → Action A) (p q : Site)
    → m p ≡ (err unreachable, q)
    → catch m handler p ≡ handler unreachable q
unfolding catch
catch-unreachable m handler p q h = ap (rescued handler) h

raise_if-true : (b : Bool) (e : Failure) (p : Site) → b ≡ true → raise_if b e p ≡ (err e, p)
unfolding raise_if
raise_if-true b e p h = rw h refl

module _ (s : Settings) (w : World) where
  -- The portal has asked for the keys before and knows where they are, but its copy is past every
  -- limit, the last attempt a minute old, and the key set does not answer.
  pub record IsCutOff (d : Discovery) (c : Jwks) (sent : List Request) : Type 0 where
    pub known : w.now sent < d.fetched_at + s.oidc_jwks_ttl
    pub stale : c.fetched_at + s.oidc_jwks_ttl ≤ w.now sent
    pub too_old : c.fetched_at + s.oidc_jwks_max_stale < w.now sent
    pub rested : c.last_attempt + jwks_min_refresh ≤ w.now sent
    pub unanswered :
        w.outside.answer sent (get_from (shown_as (field "jwks_uri" d.doc))) ≡ no_answer

  abbrev pub kept : Discovery → Jwks → List Request → Site
  kept d c sent = record { discovery = some d; jwks = some c; sent = sent }

  abbrev pub tried : Discovery → Jwks → List Request → Site
  tried d c sent =
      kept d (record c { last_attempt = w.now sent })
        (get_from (shown_as (field "jwks_uri" d.doc)) ∷ sent)

  abbrev choice : ℕ → Jwks → Option (Dict Text Jwk) → Action (Dict Text Jwk)
  choice now c found = elim found [ some keys ↦ pure keys | none ↦ refresh s w now (some c) ]

  jwks_keys-choice :
      (d : Discovery) (c : Jwks) (sent : List Request)
      → jwks_keys s w false (kept d c sent)
        ≡ choice (w.now sent) c (served s (w.now sent) false (some c)) (kept d c sent)
  unfolding jwks_keys ◌>>=◌ gets
  jwks_keys-choice d c sent = refl

  unserved :
      (c : Jwks) (now : ℕ)
      → c.fetched_at + s.oidc_jwks_ttl ≤ now
      → c.last_attempt + jwks_min_refresh ≤ now
      → served s now false (some c) ≡ none
  unserved c now h k = ground arith

  served_soon :
      (c : Jwks) (now : ℕ)
      → now < c.last_attempt + jwks_min_refresh
      → served s now false (some c) ≡ some c.keys
  served_soon c now h = ground arith

  abbrev doc_choice : Option Fields → Action Fields
  doc_choice cached = elim cached [ some doc ↦ pure doc | none ↦ fetch_discovery s w ]

  fresh_doc :
      (d : Discovery) (now : ℕ)
      → now < d.fetched_at + s.oidc_jwks_ttl
      → keep_fresh s now (some d) ≡ some d.doc
  fresh_doc d now h = ground arith

  known_doc :
      (d : Discovery) (c : Jwks) (sent : List Request)
      → w.now sent < d.fetched_at + s.oidc_jwks_ttl
      → discovery s w (kept d c sent) ≡ (ok d.doc, kept d c sent)
  unfolding discovery ◌>>=◌ gets pure
  known_doc d c sent h =
      ap (λ cached. doc_choice cached (kept d c sent)) (fresh_doc d (w.now sent) h)

  unanswered :
      (url : Text) (p : Site)
      → w.outside.answer p.sent (get_from url) ≡ no_answer
      → get_json s w url p ≡ (err unreachable, record p { sent = get_from url ∷ p.sent })
  unfolding get_json ◌>>=◌
  unanswered url p h = ap (λ a. (read_json a, record p { sent = get_from url ∷ p.sent })) h

  unanswered_keys :
      (d : Discovery) (c : Jwks) (sent : List Request)
      → w.outside.answer sent (get_from (shown_as (field "jwks_uri" d.doc))) ≡ no_answer
      → fetch_keys s w (w.now sent) d.doc (kept d c sent)
        ≡ (err unreachable, kept d c (get_from (shown_as (field "jwks_uri" d.doc)) ∷ sent))
  unfolding fetch_keys
  unanswered_keys d c sent h = >>=-err _ _ unreachable _ _ (unanswered _ (kept d c sent) h)

  stale_refused :
      (d : Discovery) (c : Jwks) (now : ℕ) (sent : List Request)
      → c.fetched_at + s.oidc_jwks_max_stale < now
      → serve_stale s w now (some c) unreachable (kept d c sent)
        ≡ (err keys_too_old, kept d (record c { last_attempt = now }) sent)
  unfolding serve_stale modify ◌>>◌
  stale_refused d c now sent h =
      let noted = kept d (record c { last_attempt = now }) sent in
      let too_old = raise_if (ltb (c.fetched_at + s.oidc_jwks_max_stale) now) keys_too_old in
      >>=-ok (modify (note_attempt c now)) (λ u. too_old >> pure c.keys) tt (kept d c sent) noted
        refl
      ∙ >>=-err too_old (λ u. pure c.keys) keys_too_old noted noted
          (raise_if-true _ keys_too_old noted (lt→ltb _ _ h))

  refused_refresh :
      (d : Discovery) (c : Jwks) (sent : List Request)
      → IsCutOff d c sent
      → refresh s w (w.now sent) (some c) (kept d c sent) ≡ (err keys_too_old, tried d c sent)
  unfolding refresh
  refused_refresh d c sent h =
      >>=-ok _ _ d.doc _ (kept d c sent) (known_doc d c sent h.known)
      ∙ catch-unreachable (fetch_keys s w (w.now sent) d.doc)
          (serve_stale s w (w.now sent) (some c)) (kept d c sent) _
          (unanswered_keys d c sent h.unanswered)
      ∙ stale_refused d c (w.now sent) _ h.too_old

  refused_once :
      (d : Discovery) (c : Jwks) (sent : List Request)
      → IsCutOff d c sent
      → jwks_keys s w false (kept d c sent) ≡ (err keys_too_old, tried d c sent)
  refused_once d c sent h =
      jwks_keys-choice d c sent
      ∙ ap (λ found. choice (w.now sent) c found (kept d c sent))
          (unserved c (w.now sent) h.stale h.rested)
      ∙ refused_refresh d c sent h

  served_next :
      (d : Discovery) (c : Jwks) (sent : List Request)
      → w.now (get_from (shown_as (field "jwks_uri" d.doc)) ∷ sent) < w.now sent + jwks_min_refresh
      → (jwks_keys s w false (tried d c sent)).0 ≡ ok c.keys
  unfolding pure
  served_next d c sent soon =
      let c' = record c { last_attempt = w.now sent } in
      let sent' = get_from (shown_as (field "jwks_uri" d.doc)) ∷ sent in
      ap (λ z. z.0) (jwks_keys-choice d c' sent')
      ∙ ap (λ found. (choice (w.now sent') c' found (kept d c' sent')).0)
          (served_soon c' (w.now sent') soon)

  -- When the cached keys are past the ceiling of their age, the last attempt is a minute old and
  -- the key set does not answer while its URL is known, the refresh is refused as too old, but a
  -- call within the next minute serves those keys.
  pub jwks_keys-past_ceiling :
      (d : Discovery) (c : Jwks) (sent : List Request)
      → IsCutOff d c sent
      → w.now (get_from (shown_as (field "jwks_uri" d.doc)) ∷ sent) < w.now sent + jwks_min_refresh
      → let (first, p) = jwks_keys s w false (kept d c sent) in
        (first ≡ err keys_too_old) × ((jwks_keys s w false p).0 ≡ ok c.keys)
  jwks_keys-past_ceiling d c sent h soon =
      rw (refused_once d c sent h) (refl, served_next d c sent soon)
