-- ===== src/Ports.antt =====
-- backend/app/services/ports.py: the allocation of ports, and the conflicts of chosen ones.
-- `instances` are the rows of a SELECT; `head` is the id of the node with the role "head", if any.
pub mod Allocation
mod Tests
use spark_controlplane.Prelude.{
  ℕ, zero, suc, ◌+◌, String, Bool, true, false, not, ◌&&◌, ◌||◌, Option, none, some, List, [], ◌∷◌,
  ◌++◌, ◌==◌, nat_eq, contains, if◌then◌else◌,
}
use spark_controlplane.Models.{Instance, Topology, single, distributed, topology_eq}
use spark_controlplane.Binding.{effective_port}

abbrev pub api_port_start : ℕ
api_port_start = 8000

abbrev pub master_port_start : ℕ
master_port_start = 29500

abbrev pub reserved : List ℕ
reserved = 6379 ∷ 8080 ∷ 8265 ∷ []

-- The ports that the rows take, added to a set.
unfoldable pub api_taken : List ℕ → List Instance → List ℕ
unfolding effective_port
api_taken taken [] = taken
api_taken taken (inst ∷ rows) =
    let added = taken ++ inst.port ∷ effective_port inst ∷ [] in
    api_taken (if inst.tls_enabled then added ++ inst.tls_port ∷ [] else added) rows

-- `while port in taken: port += 1`; `none` means that the fuel ran out.
unfoldable pub first_free : ℕ → ℕ → List ℕ → Option ℕ
first_free zero port taken = none
first_free (suc fuel) port taken = elim (contains port taken) [
  | true ↦ first_free fuel (port + 1) taken
  | false ↦ some port
]

abbrev pub size : List ℕ → ℕ
size [] = 0
size (p ∷ ps) = suc (size ps)

unfoldable pub allocate_api_port : List Instance → Option ℕ
unfolding api_taken first_free
allocate_api_port rows =
    let taken = api_taken reserved rows in first_free (suc (size taken)) api_port_start taken

unfoldable pub master_taken : List Instance → List ℕ
master_taken [] = []
master_taken (inst ∷ rows) =
    if inst.topology == distributed then inst.master_port ∷ master_taken rows else master_taken rows

unfoldable pub allocate_master_port : List Instance → Option ℕ
unfolding master_taken first_free
allocate_master_port rows =
    let taken = master_taken rows in first_free (suc (size taken)) master_port_start taken

-- _serving_node_id: `none` is the -1 of a head that is not configured.
unfoldable pub serving_node_id : Option ℕ → Topology → Option ℕ → Option ℕ
serving_node_id head topology node_id = if topology == single then node_id else head

-- `scope != other_scope and -1 not in (scope, other_scope)`
abbrev pub apart : Option ℕ → Option ℕ → Bool
apart (some a) (some b) = not (a == b)
apart _ _ = false

pub data Conflict : Type 0 where
  used_by : (port : ℕ) (name : String) → Conflict
  tls_of : (port : ℕ) (name : String) → Conflict
  reserved_port : (port : ℕ) → Conflict

abbrev pub is_id : Option ℕ → ℕ → Bool
is_id none id = false
is_id (some i) id = i == id

unfoldable pub find_instance : ℕ → List Instance → Option Instance
find_instance id [] = none
find_instance id (inst ∷ rows) = if inst.id == id then some inst else find_instance id rows

-- The endpoint of the candidate: the caller's, or on an edit the row's.
unfoldable pub my_endpoint : Option ℕ → Option ℕ → List Instance → Option ℕ
unfolding find_instance
my_endpoint (some e) exclude_id rows = some e
my_endpoint none (some (suc id)) rows = elim (find_instance (suc id) rows) [
  | none ↦ none
  | some mine ↦ mine.endpoint_id
]
my_endpoint none _ rows = none

-- The two members are of one endpoint.
abbrev pub fellow : Option ℕ → Option ℕ → Bool
fellow (some a) (some b) = a == b
fellow _ _ = false

-- The rows that the loop passes over.
abbrev pub skipped : Option ℕ → Option ℕ → Option ℕ → Option ℕ → Instance → Bool
skipped head scope exclude_id mine other =
    is_id exclude_id other.id
    || fellow mine other.endpoint_id
    || apart scope (serving_node_id head other.topology other.node_id)

unfoldable pub scan :
    Option ℕ → Option ℕ → Option ℕ → Option ℕ → ℕ → List Instance → Option Conflict
unfolding serving_node_id effective_port
scan head scope exclude_id mine port [] =
    if contains port reserved then some (reserved_port port) else none
scan head scope exclude_id mine port (other ∷ rows) =
    let rest = scan head scope exclude_id mine port rows in
    if skipped head scope exclude_id mine other
    then rest
    else if effective_port other == port
    then some (used_by port other.name)
    else if other.tls_enabled && (other.tls_port == port)
    then some (tls_of port other.name)
    else rest

unfoldable pub port_conflict :
    Option ℕ → List Instance → ℕ → Topology → Option ℕ → Option ℕ → Option ℕ → Option Conflict
unfolding scan my_endpoint
port_conflict head rows port topology node_id exclude_id endpoint_id =
    scan head (serving_node_id head topology node_id) exclude_id
      (my_endpoint endpoint_id exclude_id rows) port rows
