-- ===== src/Portal.antt =====
-- What the jobs of backend/app/services/instances.py and endpoints.py work on: the tables that they
-- read and write, the commands that they run on nodes, and how a job raises. A row is written when
-- it is changed, since every change is committed before the next command.
pub mod Samples
use spark_controlplane.Prelude.{
  ℕ, String, Bool, true, false, Option, none, some, List, [], ◌∷◌, ◌==◌, nat_eq, if◌then◌else◌,
}
use spark_controlplane.Dict.{Dict}
use spark_controlplane.Text.{Text}
use spark_controlplane.Models.{Instance, Endpoint}
use spark_controlplane.InstState.{Registry}

-- The roles are "head" and "worker".
pub record Node : Type 0 where
  pub id : ℕ
  pub is_head : Bool
  pub lan_ip : String
  pub qsfp_ip : Option String

-- The states of a model on nodes; `usable` is `present` together with the status `MS_PRESENT`.
pub record ModelNodeState : Type 0 where
  pub model_id : ℕ
  pub node_id : ℕ
  pub usable : Bool

-- An instance with the columns that only its jobs read.
pub record Managed : Type 0 where
  pub inst : Instance
  pub model_id : ℕ
  pub repo_id : Text
  pub tensor_parallel_size : Option ℕ
  pub enable_tool_choice : Bool
  pub tool_parser : Option String
  pub served_model_names : Option Text
  pub api_key_enc : Option String
  pub systemd_unit : Option Text
  pub last_load_seconds : Option ℕ

-- PROMO_PENDING … PROMO_FAILED
pub data PromoStatus : Type 0 where
  pending active superseded failed : PromoStatus

-- A row of `endpoint_promotions`; the ids grow, and so do the times at which the rows start.
pub record EndpointPromotion : Type 0 where
  pub id : ℕ
  pub endpoint_id : ℕ
  pub to_instance_id : Option ℕ
  pub from_instance_id : Option ℕ
  pub status : PromoStatus
  pub reason : Option String
  pub aliases_snapshot : List Text
  pub job_id : ℕ
  pub started_at : ℕ
  pub finished_at : Option ℕ

-- The public metadata of a certificate: `CertInfo` of endpoints.py, and the columns that hold it.
pub record CertInfo : Type 0 where
  pub subject : Option Text
  pub issuer : Option Text
  pub sans : List Text
  pub fingerprint_sha256 : Option Text
  pub not_before : Option ℕ
  pub not_after : Option ℕ
  pub error : Option String

-- A row of `endpoints`; `cert` holds the columns that an upload fills.
pub record EndpointRow : Type 0 where
  pub base : Endpoint
  pub name : String
  pub hostname : Text
  pub port : ℕ
  pub cert : Option CertInfo
  pub current_instance_id : Option ℕ
  pub promoted_at : Option ℕ

-- A row of `endpoint_aliases`; those of an endpoint stand in the order of their positions.
pub record EndpointAlias : Type 0 where
  pub endpoint_id : ℕ
  pub alias : Text
  pub position : ℕ

-- A call that reaches a node: a connection, a file, a systemd unit, or a command in a container.
pub data Command : Type 0 where
  connect : (node : ℕ) → Command
  install_file : (node : ℕ) (file : Text) → Command
  install_unit : (node : ℕ) (unit_name : Text) → Command
  stop_unit : (node : ℕ) (unit_name : Text) → Command
  remove_unit : (node : ℕ) (unit_name : Text) → Command
  reload_proxy : (node : ℕ) (name : String) → Command
  remove_dir : (node : ℕ) (name : String) → Command

-- What a job raises.
pub data Failure : Type 0 where
  not_found : Failure
  no_head : Failure
  no_workers : Failure
  no_node : Failure
  model_absent : (node : ℕ) → Failure
  cert_unset : Failure
  tls_disabled : Failure
  bad_secret : Failure
  command_failed : (text : String) → Failure
  endpoint_not_found : Failure
  target_not_found : Failure
  not_a_member : Failure
  target_busy : Failure
  previous_busy : Failure
  no_certificate : Failure
  already_current : Failure
  restored : (cause : Failure) → Failure
  down : (cause restore : Failure) → Failure
  not_served : (cause : Failure) → Failure

pub record Portal : Type 0 where
  pub rows : List Managed
  pub nodes : List Node
  pub model_states : List ModelNodeState
  pub registry : Registry
  pub endpoints : List EndpointRow
  pub aliases : List EndpointAlias
  pub promotions : List EndpointPromotion
  pub done : List Command

pub data Result (A : Type 0) : Type 0 where
  ok : A → Result A
  err : Failure → Result A

-- The world outside the portal, whose answers may depend on all the commands run before, the latest
-- first: the error of a command, the answers of /health every five seconds until the journal ends,
-- the time, the secrets, and the text of an exception.
pub record World : Type 0 where
  pub outcome : List Command → Command → Option String
  pub health : List Command → List Bool
  pub now : List Command → ℕ
  pub decrypt : Option String → Result (Option String)
  pub encrypt : String → Option String
  pub text : Failure → String

abbrev pub Action : Type 0 → Type 0
Action A = Portal → Result A × Portal

module _ {A : Type 0} where
  unfoldable pub pure : A → Action A
  pure a p = (ok a, p)

  unfoldable pub raise : Failure → Action A
  raise e p = (err e, p)

  unfoldable pub gets : (Portal → A) → Action A
  gets f p = (ok (f p), p)

  unfoldable pub lift : Result A → Action A
  lift r p = (r, p)

  unfoldable pub or_raise : Option A → Failure → Action A
  unfolding pure raise
  or_raise none e = raise e
  or_raise (some a) e = pure a

infixl 5 ◌>>=◌ ◌>>◌
unfoldable pub ◌>>=◌ : {A B : Type 0} → Action A → (A → Action B) → Action B
unfolding raise
◌>>=◌ m f p = let (r, q) = m p in elim r [ ok a ↦ f a q | err e ↦ raise e q ]

unfoldable pub ◌>>◌ : {A B : Type 0} → Action A → Action B → Action B
unfolding ◌>>=◌
m >> k = m >>= λ _. k

abbrev pub Done : Type 0
Done = Unit {0}

unfoldable pub raise_if : Bool → Failure → Action Done
raise_if c e p = (if c then err e else ok tt, p)

unfoldable pub modify : (Portal → Portal) → Action Done
modify f p = (ok tt, f p)

-- `try: m` with `except Exception as exc: handler exc`
unfoldable pub attempt : {A : Type 0} → Action A → (Failure → Action A) → Action A
attempt m handler p = let (r, q) = m p in elim r [ ok a ↦ (ok a, q) | err e ↦ handler e q ]

-- `try: m` with `finally: f`
unfoldable pub finally : {A : Type 0} → Action A → (Portal → Portal) → Action A
finally m f p = let (r, q) = m p in (r, f q)

-- Runs a command on a node, and raises what it raises.
unfoldable pub run : World → Command → Action Done
run w c p =
    let q = record p { done = c ∷ p.done } in
    elim (w.outcome p.done c) [ none ↦ (ok tt, q) | some text ↦ (err (command_failed text), q) ]

unfoldable pub find_row : ℕ → List Managed → Option Managed
find_row i [] = none
find_row i (m ∷ ms) = if m.inst.id == i then some m else find_row i ms

unfoldable pub change : ℕ → (Managed → Managed) → List Managed → List Managed
change i f [] = []
change i f (m ∷ ms) = (if m.inst.id == i then f m else m) ∷ change i f ms

-- An assignment to columns of a loaded instance, and the commit.
unfoldable pub change_row : ℕ → (Managed → Managed) → Action Done
change_row i f p = (ok tt, record p { rows = change i f p.rows })
