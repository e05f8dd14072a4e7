-- ===== src/Apikeys.antt =====
-- backend/app/services/apikeys.py, with the handlers of the keys and the authorisation of
-- backend/app/routers/gateway.py. A token is a text of code points, its form on the wire the bytes.
pub mod Wire
pub mod Lookup
mod Tests
use spark_controlplane.Prelude.{
  ℕ, zero, suc, ◌+◌, ◌*◌, ◌/◌, ◌%◌, String, Bool, true, false, not, ◌&&◌, Option, none, some, List,
  [], ◌∷◌, ◌++◌, length, map, all, keep_if, ltb, ◌==◌, nat_eq, string_eq, if◌then◌else◌,
}
use spark_controlplane.Dict.{Dict, get, set}
use spark_controlplane.Text.{Text, codes, startswith}

abbrev pub legacy_client : String
legacy_client = "shared token"

abbrev pub session_client : String
session_client = "portal session"

abbrev pub key_prefix : Text
key_prefix = codes "sk-spark-"

pub record ApiKey : Type 0 where
  pub id : ℕ
  pub label : String
  pub prefix : Text
  pub token_sha256 : String
  pub enabled : Bool
  pub max_concurrent : Option ℕ
  pub max_rpm : Option ℕ
  pub last_used_at : Option ℕ

pub record Principal : Type 0 where
  pub client : String
  pub key_id : Option ℕ
  pub max_concurrent : Option ℕ
  pub max_rpm : Option ℕ

abbrev pub named : String → Principal
named client = record { client = client; key_id = none; max_concurrent = none; max_rpm = none }

-- str.encode("utf-8") of one code point and of a text
unfoldable pub utf8_of : ℕ → Text
utf8_of c =
    if ltb c 128
    then c ∷ []
    else if ltb c 2048
    then (192 + c / 64) ∷ (128 + c % 64) ∷ []
    else if ltb c 65536
    then (224 + c / 4096) ∷ (128 + c / 64 % 64) ∷ (128 + c % 64) ∷ []
    else (240 + c / 262144) ∷ (128 + c / 4096 % 64) ∷ (128 + c / 64 % 64) ∷ (128 + c % 64) ∷ []

unfoldable pub utf8 : Text → Text
unfolding utf8_of
utf8 [] = []
utf8 (c ∷ cs) = utf8_of c ++ utf8 cs

-- latin-1 encodes the code points below 256 as themselves.
unfoldable pub wire_bytes : Text → Text
unfolding utf8
wire_bytes header = if all (λ c. ltb c 256) header then header else utf8 header

-- generate_token, for the two random parts: the token and its prefix
unfoldable pub generate_token : Text → Text → Text × Text
generate_token key_id secret =
    let prefix = key_prefix ++ key_id in (prefix ++ codes "-" ++ secret, prefix)

-- `_principal`
abbrev pub principal : ApiKey → Principal
principal row = record {
  client = row.label;
  key_id = some row.id;
  max_concurrent = row.max_concurrent;
  max_rpm = row.max_rpm;
}

abbrev pub Cache : Type 0
Cache = Dict String Principal

unfoldable pub update : List ApiKey → Cache → Cache
update [] cache = cache
update (row ∷ rows) cache = update rows (set row.token_sha256 (principal row) cache)

-- refresh_cache: the number of the live keys and the new map
unfoldable pub refresh_cache : List ApiKey → ℕ × Cache
unfolding update
refresh_cache rows = let live = keep_if (λ r. r.enabled) rows in (length live, update live [])

-- SHA-256, in hexadecimal, of a list of bytes
module _ (sha256 : Text → String) where
  unfoldable pub digest : Text → String
  unfolding utf8
  digest token = sha256 (utf8 token)

  unfoldable pub digest_wire : Text → String
  unfolding wire_bytes
  digest_wire header = sha256 (wire_bytes header)

  unfoldable pub lookup : Text → Cache → Option Principal
  unfolding digest_wire get
  lookup [] cache = none
  lookup (c ∷ cs) cache = get (digest_wire (c ∷ cs)) cache

  abbrev pub new_key : ℕ → Text → Text → String → Option ℕ → Option ℕ → ApiKey
  new_key id key_id secret label max_concurrent max_rpm = record {
    id = id;
    label = label;
    prefix = (generate_token key_id secret).1;
    token_sha256 = digest (generate_token key_id secret).0;
    enabled = true;
    max_concurrent = max_concurrent;
    max_rpm = max_rpm;
    last_used_at = none;
  }

  -- issue: the token, the rows and the cache. `id` is what the database gives the row.
  unfoldable pub issue :
      ℕ → Text → Text → String → Option ℕ → Option ℕ → List ApiKey → Text × List ApiKey × Cache
  unfolding generate_token digest refresh_cache
  issue id key_id secret label max_concurrent max_rpm rows =
      let rows' = rows ++ new_key id key_id secret label max_concurrent max_rpm ∷ [] in
      ((generate_token key_id secret).0, rows', (refresh_cache rows').1)

-- The fields that the request sets.
pub record ApiKeyUpdate : Type 0 where
  pub label : Option String
  pub enabled : Option Bool
  pub max_concurrent : Option (Option ℕ)
  pub max_rpm : Option (Option ℕ)

abbrev pub or_old {ℓ} : {A : Type ℓ} → Option A → A → A
or_old none old = old
or_old (some new) old = new

abbrev pub set_fields : ApiKeyUpdate → ApiKey → ApiKey
set_fields u row = record row {
  label = or_old u.label row.label;
  enabled = or_old u.enabled row.enabled;
  max_concurrent = or_old u.max_concurrent row.max_concurrent;
  max_rpm = or_old u.max_rpm row.max_rpm;
}

abbrev pub has_key : ℕ → List ApiKey → Bool
has_key id [] = false
has_key id (row ∷ rows) = if row.id == id then true else has_key id rows

-- update_api_key and delete_api_key: `none` is the 404.
unfoldable pub update_api_key : ℕ → ApiKeyUpdate → List ApiKey → Option (List ApiKey × Cache)
unfolding refresh_cache
update_api_key id u rows =
    let rows' = map (λ r. if r.id == id then set_fields u r else r) rows in
    if has_key id rows then some (rows', (refresh_cache rows').1) else none

unfoldable pub delete_api_key : ℕ → List ApiKey → Option (List ApiKey × Cache)
unfolding refresh_cache
delete_api_key id rows =
    let rows' = keep_if (λ r. not (r.id == id)) rows in
    if has_key id rows then some (rows', (refresh_cache rows').1) else none

-- `_LAST_USED`
unfoldable pub touch : Option ℕ → ℕ → Dict ℕ ℕ → Dict ℕ ℕ
touch none now used = used
touch (some id) now used = set id now used

unfoldable pub stamp : Dict ℕ ℕ → List ApiKey → List ApiKey
stamp [] rows = rows
stamp ((id, ts) ∷ pending) rows =
    stamp pending (map (λ r. if r.id == id then record r { last_used_at = some ts } else r) rows)

-- persist_last_used: the count, what is left to write, and the rows
unfoldable pub persist_last_used : Dict ℕ ℕ → List ApiKey → ℕ × Dict ℕ ℕ × List ApiKey
unfolding stamp
persist_last_used used rows = (length used, [], stamp used rows)
