-- ===== src/Oidc/Caches.antt =====
-- backend/app/services/oidc.py: `_get_json`, `discovery`, `_jwks_keys` and `_signing_key`, with their
-- caches. A call runs without another between its parts.
use spark_controlplane.Prelude.{
  ℕ, ◌+◌, ◌*◌, ◌++◌, Bool, true, false, not, ◌&&◌, ◌||◌, Option, none, some, List, [], ◌∷◌, ltb,
  ◌==◌, nat_eq, if◌then◌else◌,
}
use spark_controlplane.Text.{Text, codes, text_beq}
use spark_controlplane.Text.Laws.{text_eq}
use spark_controlplane.Dict.{Dict, get, get_or, set, pop}
use spark_controlplane.Oidc.{
  Value, str, shown_as, is_str, is_null, Fields, field, Settings, or_blank,
}
use spark_controlplane.Oidc.Origin.{same_origin}
use spark_controlplane.Oidc.Provider.{
  Jwk, Document, Http, no_answer, response, Request, get_from, Failure, unreachable, bad_status,
  too_large, not_json, bad_shape, other_issuer, off_origin, no_keys, keys_too_old, several_keys,
  unknown_key, crash, Jwks, Discovery, Site, Outside, World, Result, ok, err, Action, pure, raise,
  gets, or_raise, ◌>>=◌, ◌>>◌, Done, raise_if, modify, catch,
}

abbrev pub second : ℕ
second = 1_000_000

abbrev pub max_doc_bytes : ℕ
max_doc_bytes = 256 * 1024

abbrev pub jwks_min_refresh : ℕ
jwks_min_refresh = 60 * second

-- text.rstrip("/")
unfoldable pub rstrip_slash : Text → Text
rstrip_slash [] = []
rstrip_slash (c ∷ cs) =
    let rest = rstrip_slash cs in
    elim rest [ [] ↦ (if c == b'/' then [] else c ∷ []) | d ∷ ds ↦ c ∷ d ∷ ds ]

unfoldable pub issuer_of : Settings → Text
unfolding rstrip_slash
issuer_of s = rstrip_slash (or_blank s.oidc_issuer)

abbrev pub discovery_url : Settings → Text
discovery_url s = issuer_of s ++ codes "/.well-known/openid-configuration"

-- What `_get_json` makes of an answer.
unfoldable pub read_json : Http → Result Document
read_json no_answer = err unreachable
read_json (response status size body) =
    if not (status == 200)
    then err (bad_status status)
    else if ltb max_doc_bytes size
    then err too_large
    else elim body [ none ↦ err not_json | some none ↦ err bad_shape | some (some doc) ↦ ok doc ]

-- The dict comprehension over the published keys: a later key of one `kid` replaces an earlier.
abbrev pub is_sig : Option Value → Bool
is_sig none = true
is_sig (some v) = is_str v (codes "sig")

unfoldable pub signing_keys : Dict Text Jwk → List (Option Jwk) → Dict Text Jwk
unfolding set
signing_keys found [] = found
signing_keys found (none ∷ rest) = signing_keys found rest
signing_keys found (some jwk ∷ rest) = elim jwk.kid [
  | none ↦ signing_keys found rest
  | some kid ↦ signing_keys (if is_sig jwk.use_for then set kid jwk found else found) rest
]

abbrev pub keep_fresh : Settings → ℕ → Option Discovery → Option Fields
keep_fresh s now none = none
keep_fresh s now (some d) = if ltb now (d.fetched_at + s.oidc_jwks_ttl) then some d.doc else none

abbrev pub is_fresh : Settings → ℕ → Jwks → Bool
is_fresh s now c = ltb now (c.fetched_at + s.oidc_jwks_ttl)

-- The copy that is served without asking: it is fresh and no refresh is forced, or the last attempt
-- is less than a minute ago.
abbrev pub served : Settings → ℕ → Bool → Option Jwks → Option (Dict Text Jwk)
served s now force none = none
served s now force (some c) =
    if (is_fresh s now c && not force) || ltb now (c.last_attempt + jwks_min_refresh)
    then some c.keys
    else none

abbrev pub is_empty : Dict Text Jwk → Bool
is_empty [] = true
is_empty (k ∷ ks) = false

abbrev pub keep_keys : Dict Text Jwk → ℕ → Site → Site
keep_keys keys now p = record p {
  jwks = some (record { keys = keys; fetched_at = now; last_attempt = now });
}

abbrev pub note_attempt : Jwks → ℕ → Site → Site
note_attempt c now p = record p { jwks = some (record c { last_attempt = now }) }

-- The choice among the keys without a `kid`
abbrev pub only_key : Dict Text Jwk → Result Jwk
only_key ((kid, jwk) ∷ []) = ok jwk
only_key _ = err several_keys

abbrev pub lift : {A : Type 0} → Result A → Action A
lift r p = (r, p)

module _ (s : Settings) (o : Outside) where
  -- `isinstance(url, str) and _same_origin(url, issuer)`
  abbrev pub is_pinned : Value → Bool
  is_pinned (str url) = same_origin o.is_bracketed_address url (issuer_of s)
  is_pinned _ = false

module _ (s : Settings) (w : World) where
  unfoldable pub send : Request → Action Http
  send r p = (ok (w.outside.answer p.sent r), record p { sent = r ∷ p.sent })

  unfoldable pub get_json : Text → Action Document
  unfolding send read_json
  get_json url = send (get_from url) >>= λ a p. (read_json a, p)

  -- The document without an end of session elsewhere
  unfoldable pub without_foreign_end : Fields → Fields
  unfolding get pop field
  without_foreign_end doc =
      if is_null (field "end_session_endpoint" doc)
        || is_pinned s w.outside (field "end_session_endpoint" doc)
      then doc
      else pop (codes "end_session_endpoint") doc

  unfoldable pub check_doc : Fields → Action Done
  unfolding field get_or raise_if
  check_doc doc = do
    raise_if
        (not
          (text_beq (rstrip_slash (shown_as (get_or (codes "issuer") (str []) doc))) (issuer_of s)))
        other_issuer
    raise_if (not (is_pinned s w.outside (field "authorization_endpoint" doc))) off_origin
    raise_if (not (is_pinned s w.outside (field "token_endpoint" doc))) off_origin
    raise_if (not (is_pinned s w.outside (field "jwks_uri" doc))) off_origin

  unfoldable pub fetch_discovery : Action Fields
  unfolding get_json check_doc without_foreign_end
  fetch_discovery = do
    answer ← get_json (discovery_url s)
    check_doc answer.fields
    modify (λ p. record p {
      discovery =
          some (record { doc = without_foreign_end answer.fields; fetched_at = w.now p.sent });
    })
    pure (without_foreign_end answer.fields)

  unfoldable pub discovery : Action Fields
  unfolding fetch_discovery
  discovery = do
    cached ← gets (λ p. keep_fresh s (w.now p.sent) p.discovery)
    elim cached [ some doc ↦ pure doc | none ↦ fetch_discovery ]

  -- The body of the `try` of `_jwks_keys`
  unfoldable pub fetch_keys : ℕ → Fields → Action (Dict Text Jwk)
  unfolding get_json signing_keys field
  fetch_keys now doc = do
    raw ← get_json (shown_as (field "jwks_uri" doc))
    published ← or_raise raw.keys crash
    let keys = signing_keys [] published
    raise_if (is_empty keys) no_keys
    modify (keep_keys keys now)
    pure keys

  -- Its handler
  unfoldable pub serve_stale : ℕ → Option Jwks → Failure → Action (Dict Text Jwk)
  serve_stale now none e = raise e
  serve_stale now (some c) e = do
    modify (note_attempt c now)
    raise_if (ltb (c.fetched_at + s.oidc_jwks_max_stale) now) keys_too_old
    pure c.keys

  unfoldable pub refresh : ℕ → Option Jwks → Action (Dict Text Jwk)
  unfolding discovery fetch_keys serve_stale catch
  refresh now cached = do doc ← discovery; catch (fetch_keys now doc) (serve_stale now cached)

  unfoldable pub jwks_keys : Bool → Action (Dict Text Jwk)
  unfolding refresh
  jwks_keys force = do
    now ← gets (λ p. w.now p.sent)
    cached ← gets (λ p. p.jwks)
    elim (served s now force cached) [ some keys ↦ pure keys | none ↦ refresh now cached ]

  -- `keys.get(kid)`, and if it has none, once more after a refresh
  unfoldable pub find_key : Option Text → Action Jwk
  unfolding jwks_keys get
  find_key none = do keys ← jwks_keys false; lift (only_key keys)
  find_key (some kid) = do
    keys ← jwks_keys false
    elim (get kid keys) [
      | some jwk ↦ pure jwk
      | none ↦ (do keys' ← jwks_keys true; or_raise (get kid keys') unknown_key)
    ]

  unfoldable pub signing_key : Option Text → Text → Action w.Key
  unfolding find_key
  signing_key kid alg = do jwk ← find_key kid; or_raise (w.build_key jwk alg) crash
