-- ===== src/Apikeys/Lookup.antt =====
-- Whom a token names after the keys changed, in apikeys.py.
use spark_controlplane.Prelude.{
  ℕ, ◌≡◌, ◌≢◌, refl, String, true, false, not, Option, none, some, List, [], ◌∷◌, ◌++◌, All, map,
  keep_if, length, arith, ◌==◌, nat_eq, string_eq, if◌then◌else◌, eq_iff, nat_beq_iff,
}
use spark_controlplane.Dict.{get, set}
use spark_controlplane.Dict.Laws.{get-set}
use spark_controlplane.Text.{Text, codes}
use spark_controlplane.Apikeys.{
  ApiKey, Principal, Cache, principal, update, refresh_cache, utf8, digest, digest_wire, lookup,
  new_key, issue, generate_token, ApiKeyUpdate, set_fields, update_api_key, delete_api_key, has_key,
}
use spark_controlplane.Apikeys.Wire.{IsText, digest_wire-utf8}

-- A key of another digest changes nothing about this one.
get-update_disabled :
    (d : String) (id : ℕ) (u : ApiKeyUpdate) (rows : List ApiKey) (cache : Cache)
    → u.enabled ≡ some false
    → All (λ r. (r.token_sha256 == d) ≡ true → r.id ≡ id) rows
    → get d (
        update
          (keep_if (λ r. r.enabled) (map (λ r. if r.id == id then set_fields u r else r) rows))
          cache)
      ≡ get d cache
unfolding update
get-update_disabled d id u [] cache off h = refl
get-update_disabled d id u (r ∷ rows) cache off (h, hs) = ground (
  arith,
  get-update_disabled d id u rows cache off hs,
  get-update_disabled d id u rows (set r.token_sha256 (principal r) cache) off hs,
  get-set r.token_sha256 d (principal r) cache,
  nat_beq_iff r.id id,
)

get-update_deleted :
    (d : String) (id : ℕ) (rows : List ApiKey) (cache : Cache)
    → All (λ r. (r.token_sha256 == d) ≡ true → r.id ≡ id) rows
    → get d (update (keep_if (λ r. r.enabled) (keep_if (λ r. not (r.id == id)) rows)) cache)
      ≡ get d cache
unfolding update
get-update_deleted d id [] cache h = refl
get-update_deleted d id (r ∷ rows) cache (h, hs) = ground (
  arith,
  get-update_deleted d id rows cache hs,
  get-update_deleted d id rows (set r.token_sha256 (principal r) cache) hs,
  get-set r.token_sha256 d (principal r) cache,
  nat_beq_iff r.id id,
)

module _ (sha256 : Text → String) where
  lookup_gone :
      (header : Text) (cache : Cache)
      → get (digest_wire sha256 header) cache ≡ none
      → lookup sha256 header cache ≡ none
  unfolding lookup
  lookup_gone [] cache h = refl
  lookup_gone (c ∷ cs) cache h = h

  -- If no other key has the token's digest, a token is refused as soon as its key is disabled or
  -- deleted: both handlers succeed for a key that exists, and `lookup` then names nobody.
  pub lookup-revoked :
      (header : Text) (id : ℕ) (u : ApiKeyUpdate) (rows : List ApiKey)
      → u.enabled ≡ some false
      → has_key id rows ≡ true
      → All (λ r. (r.token_sha256 == digest_wire sha256 header) ≡ true → r.id ≡ id) rows
      → ((after : List ApiKey × Cache) × (update_api_key id u rows ≡ some after)
          × (lookup sha256 header after.1 ≡ none))
        × ((after : List ApiKey × Cache) × (delete_api_key id rows ≡ some after)
            × (lookup sha256 header after.1 ≡ none))
  unfolding update_api_key delete_api_key refresh_cache get
  lookup-revoked header id u rows off known only =
      let d = digest_wire sha256 header in
      let changed = map (λ (r : ApiKey). if r.id == id then set_fields u r else r) rows in
      let left = keep_if (λ (r : ApiKey). not (r.id == id)) rows in
      (
        (
          (changed, (refresh_cache changed).1),
          ground arith,
          lookup_gone header (refresh_cache changed).1
              (get-update_disabled d id u rows [] off only),
        ),
        (
          (left, (refresh_cache left).1),
          ground arith,
          lookup_gone header (refresh_cache left).1 (get-update_deleted d id rows [] only),
        ),
      )

get-update_last :
    (d : String) (rows : List ApiKey) (row : ApiKey) (cache : Cache)
    → row.enabled ≡ true
    → get d (update (keep_if (λ r. r.enabled) (rows ++ row ∷ [])) cache) ≡ (
        if row.token_sha256 == d
        then some (principal row)
        else get d (update (keep_if (λ r. r.enabled) rows) cache))
unfolding update
get-update_last d [] row cache on = ground (arith, get-set row.token_sha256 d (principal row) cache)
get-update_last d (r ∷ rows) row cache on = ground (
  arith,
  get-update_last d rows row cache on,
  get-update_last d rows row (set r.token_sha256 (principal r) cache) on,
)

IsText-append : (a b : Text) → IsText a → IsText b → IsText (a ++ b)
IsText-append [] b h k = k
IsText-append (c ∷ a) b (h, hs) k = (h, IsText-append a b hs k)

IsText-generate_token :
    (key_id secret : Text) → IsText key_id → IsText secret → IsText (generate_token key_id secret).0
unfolding generate_token
IsText-generate_token key_id secret h k =
    IsText-append (codes "sk-spark-" ++ key_id ++ codes "-") secret
      (IsText-append (codes "sk-spark-" ++ key_id) (codes "-")
        (IsText-append (codes "sk-spark-") key_id (ground arith) h) (ground arith))
      k

module _ (sha256 : Text → String) where
  lookup-get :
      (header : Text) (cache : Cache) (p : Principal)
      → (length header == 0) ≡ false
      → get (digest_wire sha256 header) cache ≡ some p
      → lookup sha256 header cache ≡ some p
  unfolding lookup
  lookup-get [] cache p h found = ground arith
  lookup-get (c ∷ cs) cache p h found = found

  lookup_same :
      (header : Text) (cache cache' : Cache)
      → get (digest_wire sha256 header) cache ≡ get (digest_wire sha256 header) cache'
      → lookup sha256 header cache ≡ lookup sha256 header cache'
  unfolding lookup
  lookup_same [] cache cache' h = refl
  lookup_same (c ∷ cs) cache cache' h = h

  -- If its random parts are texts of Unicode, a token just issued, sent as its UTF-8 bytes, names
  -- its own key with its limits; and every token of another digest names whom it did.
  pub lookup-issue :
      (id : ℕ) (key_id secret : Text) (label : String) (max_concurrent max_rpm : Option ℕ)
      (rows : List ApiKey)
      → IsText key_id
      → IsText secret
      → let (token, rows', cache) =
          issue sha256 id key_id secret label max_concurrent max_rpm rows in
        (lookup sha256 (utf8 token) cache
          ≡ some (principal (new_key sha256 id key_id secret label max_concurrent max_rpm)))
        × ((header : Text)
            → digest_wire sha256 header ≢ digest sha256 token
            → lookup sha256 header cache ≡ lookup sha256 header (refresh_cache rows).1)
  unfolding issue refresh_cache
  lookup-issue id key_id secret label max_concurrent max_rpm rows h k =
      let row = new_key sha256 id key_id secret label max_concurrent max_rpm in
      let token = (generate_token key_id secret).0 in
      let wire = digest_wire-utf8 sha256 token (IsText-generate_token key_id secret h k) in
      (
        lookup-get (utf8 token) (refresh_cache (rows ++ row ∷ [])).1 (principal row) (ground arith)
            (ground (
              arith,
              wire,
              get-update_last (digest_wire sha256 (utf8 token)) rows row [] refl,
              eq_iff row.token_sha256 (digest_wire sha256 (utf8 token)),
            )),
        λ header other.
            lookup_same header (refresh_cache (rows ++ row ∷ [])).1 (refresh_cache rows).1 (
              ground (
                arith,
                other,
                get-update_last (digest_wire sha256 header) rows row [] refl,
                eq_iff row.token_sha256 (digest_wire sha256 header),
              )),
      )
