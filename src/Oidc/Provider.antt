-- ===== src/Oidc/Provider.antt =====
-- backend/app/services/oidc.py: the identity provider, as the portal sees it, its errors, and the state
-- and the results of the calls.
use spark_controlplane.Prelude.{ℕ, Bool, Option, none, some, List, nat_eq, if◌then◌else◌}
use spark_controlplane.Text.{Text}
use spark_controlplane.Text.Laws.{text_eq}
use spark_controlplane.Dict.{Dict}
use spark_controlplane.Oidc.{Value, Fields}

-- An entry of a key set; `kid` is nothing if it is missing or false, `use` if it is missing.
pub record Jwk : Type 0 where
  pub kid : Option Text
  pub use_for : Option Value
  pub material : Text

-- A JSON object, and the items of its "keys", of which one that is no object is nothing: none if it
-- has no "keys", and nothing if they are a value that has no items.
pub record Document : Type 0 where
  pub fields : Fields
  pub keys : Option (List (Option Jwk))

-- The answer to a request; the body is nothing if it is no JSON, and then nothing if no object.
pub data Http : Type 0 where
  no_answer : Http
  response : (status size : ℕ) (body : Option (Option Document)) → Http

pub data Request : Type 0 where
  get_from : (url : Text) → Request
  post_code : (url code verifier : Text) → Request

-- `OidcError` by its messages; `crash` is any other exception.
pub data Failure : Type 0 where
  unreachable : Failure
  bad_status : (status : ℕ) → Failure
  too_large : Failure
  not_json : Failure
  bad_shape : Failure
  other_issuer : Failure
  off_origin : Failure
  no_keys : Failure
  keys_too_old : Failure
  several_keys : Failure
  unknown_key : Failure
  rejected : Failure
  malformed_response : Failure
  no_id_token : Failure
  malformed_token : Failure
  bad_algorithm : Failure
  invalid_token : Failure
  no_azp : Failure
  other_application : Failure
  other_nonce : Failure
  crash : Failure

pub record Jwks : Type 0 where
  pub keys : Dict Text Jwk
  pub fetched_at : ℕ
  pub last_attempt : ℕ

pub record Discovery : Type 0 where
  pub doc : Fields
  pub fetched_at : ℕ

-- The caches, and the requests sent so far, the latest first.
pub record Site : Type 0 where
  pub discovery : Option Discovery
  pub jwks : Option Jwks
  pub sent : List Request

pub record Header : Type 0 where
  pub alg : Option Text
  pub kid : Option Text

-- What `jwt.decode` is told to check besides the signature.
pub record Check : Type 0 where
  pub alg : Text
  pub audience : Text
  pub issuer : Text
  pub leeway : ℕ

-- The provider's answers, which may depend on all that was sent before, and urllib's test of an
-- address in brackets.
pub record Outside : Type 0 where
  pub answer : List Request → Request → Http
  pub is_bracketed_address : Text → Bool

-- The outside; the time; and PyJWT: the unverified header, a key built for an algorithm, and the
-- claims of a token that passes.
pub record World : Type 1 where
  pub Key : Type 0
  pub outside : Outside
  pub now : List Request → ℕ
  pub header : Text → Option Header
  pub build_key : Jwk → Text → Option Key
  pub decode : Text → Key → Check → ℕ → Option Fields

pub data Result (A : Type 0) : Type 0 where
  ok : A → Result A
  err : Failure → Result A

abbrev pub Action : Type 0 → Type 0
Action A = Site → Result A × Site

module _ {A : Type 0} where
  unfoldable pub pure : A → Action A
  pure a p = (ok a, p)

  unfoldable pub raise : Failure → Action A
  raise e p = (err e, p)

  unfoldable pub gets : (Site → A) → Action A
  gets f p = (ok (f p), p)

  unfoldable pub or_raise : Option A → Failure → Action A
  unfolding pure raise
  or_raise none e = raise e
  or_raise (some a) e = pure a

infixl 5 ◌>>=◌ ◌>>◌
unfoldable pub ◌>>=◌ : {A B : Type 0} → Action A → (A → Action B) → Action B
◌>>=◌ m f p = let (r, q) = m p in elim r [ ok a ↦ f a q | err e ↦ (err e, q) ]

unfoldable pub ◌>>◌ : {A B : Type 0} → Action A → Action B → Action B
unfolding ◌>>=◌
m >> k = m >>= λ _. k

abbrev pub Done : Type 0
Done = Unit {0}

unfoldable pub raise_if : Bool → Failure → Action Done
raise_if c e p = (if c then err e else ok tt, p)

unfoldable pub modify : (Site → Site) → Action Done
modify f p = (ok tt, f p)

-- `try: m` with `except OidcError: handler`
unfoldable pub catch : {A : Type 0} → Action A → (Failure → Action A) → Action A
catch m handler p =
    let (r, q) = m p in
    elim r [ ok a ↦ (ok a, q) | err crash ↦ (err crash, q) | err e ↦ handler e q ]
