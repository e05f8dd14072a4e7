-- ===== src/Models.antt =====
-- backend/app/models.py: the rows that the services read and write, with the columns that they use.
-- Times are whole microseconds since the epoch. A text column is a `String`.
use spark_controlplane.Prelude.{ℕ, ◌≡◌, ◌↔◌, String, Bool, true, false, Option, arith, Comparable}

-- INST_STOPPED … INST_ERROR
pub data InstStatus : Type 0 where
  stopped starting running stopping error : InstStatus

-- TOPO_CLUSTER, TOPO_SINGLE, TOPO_DISTRIBUTED
pub data Topology : Type 0 where
  cluster single distributed : Topology

-- "onbox" and TERM_K8S
pub data Termination : Type 0 where
  onbox k8s : Termination

abbrev pub status_beq : InstStatus → InstStatus → Bool
status_beq stopped stopped = true
status_beq starting starting = true
status_beq running running = true
status_beq stopping stopping = true
status_beq error error = true
status_beq _ _ = false

pub status_beq_iff : (a b : InstStatus) → (status_beq a b ≡ true) ↔ (a ≡ b)
status_beq_iff a b = (λ h. ground arith, λ h. ground arith)

instance abbrev pub status_eq : Comparable InstStatus
status_eq = record { same = status_beq; same_iff = status_beq_iff }

abbrev pub topology_beq : Topology → Topology → Bool
topology_beq cluster cluster = true
topology_beq single single = true
topology_beq distributed distributed = true
topology_beq _ _ = false

pub topology_beq_iff : (a b : Topology) → (topology_beq a b ≡ true) ↔ (a ≡ b)
topology_beq_iff a b = (λ h. ground arith, λ h. ground arith)

instance abbrev pub topology_eq : Comparable Topology
topology_eq = record { same = topology_beq; same_iff = topology_beq_iff }

-- The texts of the reconciler's verdicts, with the numbers that they carry.
pub data Reason : Type 0 where
  health_green : Reason
  unit_not_running : Reason
  crash_loop : (restarts : ℕ) → Reason
  never_healthy : (minutes : ℕ) → Reason
  stopped_responding : Reason

-- What `last_error` holds: the reconciler's text, or any other.
pub data ErrorText : Type 0 where
  reconciled : (to_status : InstStatus) (reason : Reason) → ErrorText
  other_text : String → ErrorText

pub record Endpoint : Type 0 where
  pub id : ℕ
  pub termination : Termination
  pub upstream_port : Option ℕ
  pub tls_cert_enc : Option String
  pub tls_key_enc : Option String

pub record Instance : Type 0 where
  pub id : ℕ
  pub name : String
  pub topology : Topology
  pub node_id : Option ℕ
  pub port : ℕ
  pub master_port : ℕ
  pub endpoint_id : Option ℕ
  pub endpoint : Option Endpoint
  pub tls_enabled : Bool
  pub tls_port : ℕ
  pub tls_cert_enc : Option String
  pub tls_key_enc : Option String
  pub status : InstStatus
  pub last_error : Option ErrorText
  pub started_at : Option ℕ
  pub last_healthy_at : Option ℕ
