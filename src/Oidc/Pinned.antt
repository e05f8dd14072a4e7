-- ===== src/Oidc/Pinned.antt =====
-- Where the requests of backend/app/services/oidc.py go, and where its keys come from.
use spark_controlplane.Prelude.{
  ℕ, ◌≡◌, ◌⊎◌, inl, inr, refl, sym, true, Option, none, some, List, [], ◌∷◌, All, arith, Bool-cases,
  Option-cases, nat_beq_iff, eq_of_some, ◌==◌, nat_eq,
}
use spark_controlplane.Text.{Text}
use spark_controlplane.Text.Laws.{text_eq}
use spark_controlplane.Dict.{Dict, get, set}
use spark_controlplane.Oidc.{Value, null, str, list, other, shown_as, Fields, field, Settings}
use spark_controlplane.Oidc.Origin.{same_origin}
use spark_controlplane.Oidc.Provider.{
  Jwk, Document, Http, no_answer, response, Request, get_from, post_code, Jwks, Discovery, Site, ok,
  Outside,
}
use spark_controlplane.Oidc.Caches.{
  issuer_of, discovery_url, read_json, is_sig, signing_keys, is_pinned,
}

-- One of the published keys
abbrev pub Among : Jwk → List (Option Jwk) → Type 0
Among jwk [] = ⊥
Among jwk (none ∷ rest) = Among jwk rest
Among jwk (some k ∷ rest) = (jwk ≡ k) ⊎ Among jwk rest

pub read_json-ok :
    (answer : Http) (doc : Document)
    → read_json answer ≡ ok doc
    → (size : ℕ) × (answer ≡ response 200 size (some (some doc)))
unfolding read_json
read_json-ok no_answer doc e = ground arith
read_json-ok (response status size none) doc e = ground arith
read_json-ok (response status size (some none)) doc e = ground arith
read_json-ok (response status size (some (some d))) doc e =
    (size, ground (arith, nat_beq_iff status 200))

module _ (s : Settings) (o : Outside) where
  abbrev pub IsOurs : Text → Type 0
  IsOurs url = same_origin o.is_bracketed_address url (issuer_of s) ≡ true

  -- A request goes to the issuer's configuration or to a URL of the issuer's origin; a code, and the
  -- secret with it, only to the latter.
  abbrev pub Reaches : Request → Type 0
  Reaches (get_from url) = (url ≡ discovery_url s) ⊎ IsOurs url
  Reaches (post_code url code verifier) = IsOurs url

  -- A key of a key set that a URL of the issuer's origin answered with.
  pub record Published (jwk : Jwk) : Type 0 where
    pub url : Text
    pub before : List Request
    pub size : ℕ
    pub doc : Document
    pub ours : IsOurs url
    pub answered : o.answer before (get_from url) ≡ response 200 size (some (some doc))
    pub keys : List (Option Jwk)
    pub listed : doc.keys ≡ some keys
    pub among : Among jwk keys

  pub record Endpoints (doc : Fields) : Type 0 where
    pub authorization : is_pinned s o (field "authorization_endpoint" doc) ≡ true
    pub token : is_pinned s o (field "token_endpoint" doc) ≡ true
    pub jwks : is_pinned s o (field "jwks_uri" doc) ≡ true

  abbrev pub CachedDoc : Option Discovery → Type 0
  CachedDoc none = Unit
  CachedDoc (some d) = Endpoints d.doc

  abbrev pub AllPublished : Dict Text Jwk → Type 0
  AllPublished keys = All (λ k. Published k.1) keys

  abbrev pub CachedKeys : Option Jwks → Type 0
  CachedKeys none = Unit
  CachedKeys (some c) = AllPublished c.keys

  pub record IsPinned (p : Site) : Type 0 where
    pub reaches : All Reaches p.sent
    pub cached_doc : CachedDoc p.discovery
    pub cached_keys : CachedKeys p.jwks

  pub is_pinned-IsOurs : (v : Value) → is_pinned s o v ≡ true → IsOurs (shown_as v)
  is_pinned-IsOurs null h = ground arith
  is_pinned-IsOurs (str url) h = h
  is_pinned-IsOurs (list items shown) h = ground arith
  is_pinned-IsOurs (other truth shown) h = ground arith

  pub AllPublished-set :
      (kid : Text) (jwk : Jwk) (keys : Dict Text Jwk)
      → Published jwk
      → AllPublished keys
      → AllPublished (set kid jwk keys)
  unfolding set
  AllPublished-set kid jwk [] x h = (x, tt)
  AllPublished-set kid jwk ((j, k) ∷ keys) x (h, hs) = elim (Bool-cases (j == kid)) [
    | inl e ↦ rw e (x, hs)
    | inr e ↦ rw e (h, AllPublished-set kid jwk keys x hs)
  ]

  pub AllPublished-get :
      (kid : Text) (jwk : Jwk) (keys : Dict Text Jwk)
      → AllPublished keys
      → get kid keys ≡ some jwk
      → Published jwk
  unfolding get
  AllPublished-get kid jwk [] h e = ground arith
  AllPublished-get kid jwk ((j, k) ∷ keys) (h, hs) e = elim (Bool-cases (j == kid)) [
    | inl y ↦ rw (sym (eq_of_some (rw y at e))) h
    | inr y ↦ AllPublished-get kid jwk keys hs (rw y at e)
  ]

  pub signing_keys-AllPublished :
      (found : Dict Text Jwk) (ks : List (Option Jwk))
      → AllPublished found
      → ((jwk : Jwk) → Among jwk ks → Published jwk)
      → AllPublished (signing_keys found ks)
  unfolding signing_keys
  signing_keys-AllPublished found [] h k = h
  signing_keys-AllPublished found (none ∷ rest) h k = signing_keys-AllPublished found rest h k
  signing_keys-AllPublished found (some jwk ∷ rest) h k = elim (Option-cases jwk.kid) [
    | inl e ↦ rw e (signing_keys-AllPublished found rest h (λ j m. k j (inr m)))
    | inr (kid, e) ↦ elim (Bool-cases (is_sig jwk.use_for)) [
      | inl y ↦
          rw (e, y)
            (signing_keys-AllPublished (set kid jwk found) rest
              (AllPublished-set kid jwk found (k jwk (inl refl)) h) (λ j m. k j (inr m)))
      | inr y ↦ rw (e, y) (signing_keys-AllPublished found rest h (λ j m. k j (inr m)))
    ]
  ]
