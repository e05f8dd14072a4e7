-- ===== src/Oidc.antt =====
-- backend/app/services/oidc.py: what a claim may hold, who is let in, and the settings that it reads
-- (backend/app/config.py). Origin compares the origins of URLs, Provider and Caches ask the identity
-- provider, Callback signs in.
pub mod Origin
pub mod Provider
pub mod Caches
pub mod Callback
pub mod Safe
pub mod Pinned
pub mod Fetches
pub mod Keys
pub mod Gates
pub mod Admission
pub mod Runs
pub mod History
pub mod Ceiling
mod Tests
use spark_controlplane.Prelude.{
  ℕ, ◌+◌, Bool, true, false, not, ◌&&◌, ◌||◌, Option, none, some, List, [], ◌∷◌, ◌++◌, map, any,
  contains, keep_if, ◌==◌, nat_eq, string_eq, if◌then◌else◌, String,
}
use spark_controlplane.Text.{Text, codes, is_space, strip, lower, startswith, words_from, text_beq}
use spark_controlplane.Text.Laws.{text_eq}
use spark_controlplane.Dict.{Dict, get, get_or}

-- A value of JSON: a list with its items, of which one that is no text is nothing, and its `str()`;
-- another value (a number, a truth value, an object) with its truth and its `str()`.
pub data Value : Type 0 where
  null : Value
  str : (text : Text) → Value
  list : (items : List (Option Text)) (shown : Text) → Value
  other : (truth : Bool) (shown : Text) → Value

-- str(v)
abbrev pub shown_as : Value → Text
shown_as null = codes "None"
shown_as (str t) = t
shown_as (list items shown) = shown
shown_as (other truth shown) = shown

-- bool(v)
abbrev pub is_truthy : Value → Bool
is_truthy null = false
is_truthy (str []) = false
is_truthy (str (c ∷ cs)) = true
is_truthy (list [] shown) = false
is_truthy (list (i ∷ is) shown) = true
is_truthy (other truth shown) = truth

-- `v == text`
abbrev pub is_str : Value → Text → Bool
is_str (str t) text = t == text
is_str _ text = false

abbrev pub is_null : Value → Bool
is_null null = true
is_null _ = false

abbrev pub Fields : Type 0
Fields = Dict Text Value

-- d.get(name)
unfoldable pub field : String → Fields → Value
unfolding get_or
field name d = get_or (codes name) null d

unfoldable pub named : Text → Fields → Value
unfolding get_or
named name d = get_or name null d

abbrev pub has_key : String → Fields → Bool
has_key name d = elim (get (codes name) d) [ none ↦ false | some v ↦ true ]

-- The settings; lifetimes in microseconds.
pub record Settings : Type 0 where
  pub effective_auth_mode : String
  pub oidc_issuer : Option Text
  pub oidc_client_id : Option Text
  pub oidc_client_secret : Option Text
  pub oidc_redirect_url : Option Text
  pub oidc_groups_claim : Text
  pub oidc_group_required : Option Text
  pub oidc_username_claim : Text
  pub oidc_algorithms : Text
  pub oidc_clock_skew : ℕ
  pub oidc_jwks_ttl : ℕ
  pub oidc_jwks_max_stale : ℕ

-- `text or ""`
abbrev pub or_blank : Option Text → Text
or_blank none = []
or_blank (some t) = t

abbrev pub is_set : Option Text → Bool
is_set none = false
is_set (some []) = false
is_set (some (c ∷ cs)) = true

pub data ConfigError : Type 0 where
  unset : ConfigError
  issuer_not_https : ConfigError
  redirect_not_https : ConfigError

unfoldable pub oidc_config_error : Settings → Option ConfigError
unfolding startswith
oidc_config_error s =
    if not (s.effective_auth_mode == "oidc")
    then none
    else if not (
        is_set s.oidc_issuer
        && is_set s.oidc_client_id
        && is_set s.oidc_client_secret
        && is_set s.oidc_redirect_url
        && is_set s.oidc_group_required)
    then some unset
    else if not (startswith (codes "https://") (or_blank s.oidc_issuer))
    then some issuer_not_https
    else if not (
        startswith (codes "https://") (or_blank s.oidc_redirect_url)
        || startswith (codes "http://localhost") (or_blank s.oidc_redirect_url))
    then some redirect_not_https
    else none

-- re.split(r"[,\s]+", text): whether a separator was read last, and the part read so far.
abbrev pub is_separator : ℕ → Bool
is_separator c = (c == b',') || is_space c

unfoldable pub parts_from : Bool → Text → Text → List Text
parts_from behind part [] = part ∷ []
parts_from behind part (c ∷ cs) =
    let next = parts_from true [] cs in
    let longer = parts_from false (part ++ c ∷ []) cs in
    if is_separator c then (if behind then next else part ∷ next) else longer

abbrev pub texts_of : List (Option Text) → List Text
texts_of [] = []
texts_of (none ∷ is) = texts_of is
texts_of (some t ∷ is) = t ∷ texts_of is

-- `values`; nothing for an unexpected shape
unfoldable pub values_of : Value → Option (List Text)
unfolding parts_from
values_of null = none
values_of (str t) = some (parts_from false [] t)
values_of (list items shown) = some (texts_of items)
values_of (other truth shown) = none

abbrev pub is_blank : Text → Bool
is_blank [] = true
is_blank (c ∷ cs) = false

-- `normalized`, as a list
unfoldable pub normalized : List Text → List Text
unfolding strip lower
normalized values =
    map (λ v. lower (strip v)) (keep_if (λ v. not (is_blank v) && not (is_blank (strip v))) values)

pub data Verdict : Type 0 where
  allowed : Verdict
  no_group_required : Verdict
  too_many_groups : Verdict
  no_claim : Verdict
  unexpected_shape : Verdict
  empty_claim : Verdict
  not_a_member : Verdict

-- `required`
unfoldable pub required_group : Settings → Text
unfolding strip lower
required_group s = lower (strip (or_blank s.oidc_group_required))

unfoldable pub judge : Text → List Text → Verdict
judge required [] = empty_claim
judge required (g ∷ gs) = if contains required (g ∷ gs) then allowed else not_a_member

unfoldable pub authorized : Settings → Fields → Verdict
unfolding required_group named values_of judge normalized get
authorized s claims =
    if is_blank (required_group s)
    then no_group_required
    else if is_null (named s.oidc_groups_claim claims)
    then (if has_key "_claim_names" claims || has_key "_claim_sources" claims
        then too_many_groups
        else no_claim)
    else elim (values_of (named s.oidc_groups_claim claims)) [
      | none ↦ unexpected_shape
      | some values ↦ judge (required_group s) (normalized values)
    ]

-- The first claim of the list that is a text with more than spaces.
unfoldable pub first_named : List Text → Fields → Option Text
unfolding named strip
first_named [] claims = none
first_named (name ∷ names) claims =
    let rest = first_named names claims in
    elim (named name claims) [
      | str t ↦ (if is_blank (strip t) then rest else some (strip t))
      | _ ↦ rest
    ]

unfoldable pub username_from_claims : Settings → Fields → Text
unfolding first_named words_from get_or
username_from_claims s claims = elim (first_named (words_from [] s.oidc_username_claim) claims) [
  | some user ↦ user
  | none ↦ shown_as (get_or (codes "sub") (str (codes "unknown")) claims)
]
