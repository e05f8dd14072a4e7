-- ===== src/Apikeys/Tests.antt =====
-- apikeys.py at concrete inputs.
use spark_controlplane.Prelude.{
  ◌≡◌, ◌≢◌, refl, String, true, false, none, some, List, [], ◌∷◌, length, ◌==◌, nat_eq, arith,
  if◌then◌else◌,
}
use spark_controlplane.Dict.{set}
use spark_controlplane.Text.{Text, codes}
use spark_controlplane.Apikeys.{
  ApiKey, Cache, ApiKeyUpdate, principal, utf8, digest, digest_wire, lookup, new_key, issue,
  refresh_cache, update_api_key, delete_api_key, touch, persist_last_used, key_prefix, wire_bytes,
}
use spark_controlplane.Apikeys.Wire.{digest_wire-utf8}
use spark_controlplane.Apikeys.Lookup.{lookup-revoked, lookup-issue}

-- A digest that tells tokens of three bytes from others.
abbrev sha : Text → String
sha t = if length t == 3 then "three" else "other"

abbrev ann : ApiKey
ann = record {
  id = 1;
  label = "ann";
  prefix = key_prefix;
  token_sha256 = "three";
  enabled = true;
  max_concurrent = none;
  max_rpm = some 60;
  last_used_at = none;
}

abbrev bob : ApiKey
bob = record ann { id = 2; label = "bob"; token_sha256 = "bobs" }

abbrev rows : List ApiKey
rows = ann ∷ bob ∷ []

abbrev off : ApiKeyUpdate
off = record { label = none; enabled = some false; max_concurrent = none; max_rpm = none }

lookup_test : lookup sha (codes "abc") (refresh_cache rows).1 ≡ some (principal ann)
unfolding lookup refresh_cache set
lookup_test = refl

-- A token of U+00F8 as a server that decodes latin-1 hands it on.
wire_test : wire_bytes (195 ∷ 184 ∷ []) ≡ utf8 (248 ∷ [])
unfolding wire_bytes utf8
wire_test = refl

digest_wire-utf8_test : digest_wire sha (utf8 (248 ∷ 8364 ∷ [])) ≡ digest sha (248 ∷ 8364 ∷ [])
digest_wire-utf8_test = digest_wire-utf8 sha (248 ∷ 8364 ∷ []) (ground arith, (ground arith, tt))

lookup-revoked_test :
    ((after : List ApiKey × Cache) × (update_api_key 1 off rows ≡ some after)
      × (lookup sha (codes "abc") after.1 ≡ none))
    × ((after : List ApiKey × Cache) × (delete_api_key 1 rows ≡ some after)
        × (lookup sha (codes "abc") after.1 ≡ none))
unfolding digest_wire wire_bytes
lookup-revoked_test =
    lookup-revoked sha (codes "abc") 1 off rows refl refl (λ h. refl, (λ h. ground arith, tt))

lookup-issue_example :
    (let (token, rows', cache) = issue sha 3 (codes "id") (codes "x") "cat" none none rows in
      (lookup sha (utf8 token) cache
        ≡ some (principal (new_key sha 3 (codes "id") (codes "x") "cat" none none)))
      × ((header : Text)
          → digest_wire sha header ≢ digest sha token
          → lookup sha header cache ≡ lookup sha header (refresh_cache rows).1))
lookup-issue_example =
    lookup-issue sha 3 (codes "id") (codes "x") "cat" none none rows (ground arith) (ground arith)

touch_test :
    persist_last_used (touch (some 2) 77 []) rows
    ≡ (1, [], ann ∷ record bob { last_used_at = some 77 } ∷ [])
unfolding persist_last_used touch set
touch_test = refl
