-- ===== src/Plan.antt =====
-- backend/app/services/plan.py: the settings that are derived for an instance. The numbers of GiB,
-- floats in the source, are exact here: amounts of memory are whole hundredths of a byte, and a
-- fraction of the memory is a whole number of percent. The sentences of `reasons` and `summary`
-- are left out, and a warning keeps the numbers that it is about.
pub mod Choice
pub mod Whole
pub mod Fit
pub mod Placement
pub mod Promises
pub mod Committed
mod Tests
use spark_controlplane.Prelude.{
  ℕ, zero, suc, ◌+◌, ◌-◌, ◌*◌, ◌/◌, ◌%◌, min, max, String, Bool, true, false, not, ◌&&◌, ◌||◌,
  Option, none, some, List, [], ◌∷◌, length, all, keep_if, contains, ltb, leb, ◌==◌, nat_eq,
  if◌then◌else◌,
}
use spark_controlplane.Text.{Text, codes, lower, startswith}
use spark_controlplane.Dict.{Dict, get, set}

abbrev pub gib : ℕ
gib = 107_374_182_400

abbrev pub os_reserve : ℕ
os_reserve = 10 * gib

abbrev pub max_memory_fraction : ℕ
max_memory_fraction = 90

abbrev pub min_memory_fraction : ℕ
min_memory_fraction = 10

-- WEIGHT_OVERHEAD, in hundredths
abbrev pub weight_overhead : ℕ
weight_overhead = 115

abbrev pub min_useful_context : ℕ
min_useful_context = 4096

abbrev pub context_ladder : List ℕ
context_ladder = 262144 ∷ 131072 ∷ 65536 ∷ 32768 ∷ 16384 ∷ 8192 ∷ 4096 ∷ []

abbrev pub default_max_num_seqs : ℕ
default_max_num_seqs = 8

pub record ModelFacts : Type 0 where
  pub size_bytes : Option ℕ
  pub tool_parser : Option String
  pub context_len : Option ℕ
  pub num_layers : Option ℕ
  pub num_kv_heads : Option ℕ
  pub head_dim : Option ℕ
  pub torch_dtype : Option Text
  pub present_node_ids : List ℕ

pub record NodeFacts : Type 0 where
  pub node_id : ℕ
  pub name : String
  pub reachable : Bool
  pub has_qsfp : Bool
  pub committed_gib : ℕ

pub record ClusterFacts : Type 0 where
  pub nodes : List NodeFacts
  pub node_memory_gib : ℕ

-- ClusterFacts.usable
unfoldable pub usable : ClusterFacts → List NodeFacts
usable cluster = keep_if (λ n. n.reachable) cluster.nodes

-- ModelFacts.weights_gib, in bytes
unfoldable pub weights : ModelFacts → Option ℕ
weights model = elim model.size_bytes [
  | none ↦ none
  | some zero ↦ none
  | some (suc n) ↦ some (suc n)
]

unfoldable pub element_bytes : Option Text → ℕ
unfolding lower startswith
element_bytes none = 2
element_bytes (some dtype) =
    let t = lower dtype in
    if startswith (codes "float8") t || startswith (codes "fp8") t || startswith (codes "int8") t
    then 1
    else 2

-- `isinstance(v, int) and v > 0`
abbrev pub positive : Option ℕ → Bool
positive none = false
positive (some n) = ltb 0 n

abbrev pub or_zero : Option ℕ → ℕ
or_zero none = 0
or_zero (some n) = n

unfoldable pub kv_bytes_per_token : ModelFacts → Option ℕ
unfolding element_bytes
kv_bytes_per_token model =
    if positive model.num_layers && positive model.num_kv_heads && positive model.head_dim
    then some (
        2
        * or_zero model.num_layers
        * or_zero model.num_kv_heads
        * or_zero model.head_dim
        * element_bytes model.torch_dtype)
    else none

-- _min_kv_gib: bytes over 0.8 are 125 hundredths for each.
unfoldable pub min_kv : ModelFacts → ℕ
unfolding kv_bytes_per_token
min_kv model = elim (kv_bytes_per_token model) [
  | none ↦ 8 * gib
  | some zero ↦ 8 * gib
  | some (suc n) ↦ suc n * min_useful_context * default_max_num_seqs * 125
]

-- `free[n.node_id]`, for nodes whose ids differ
unfoldable pub free : ℕ → NodeFacts → ℕ
free per_node n = per_node - os_reserve - n.committed_gib

unfoldable pub need : ModelFacts → Option ℕ
unfolding weights
need model = elim (weights model) [ none ↦ none | some w ↦ some (w * weight_overhead) ]

abbrev pub is_present : ModelFacts → NodeFacts → Bool
is_present model n =
    (length model.present_node_ids == 0) || contains n.node_id model.present_node_ids

-- `multi_nodes`, and the candidates before the warning
unfoldable pub holders : ModelFacts → List NodeFacts → List NodeFacts
holders model nodes = keep_if (λ n. is_present model n) nodes

-- The nodes to choose from: all, if there are ids and no reachable node has one of them.
unfoldable pub candidates : ModelFacts → List NodeFacts → List NodeFacts
unfolding holders
candidates model nodes =
    let found = holders model nodes in
    if not (length model.present_node_ids == 0) && (length found == 0) then nodes else found

-- sort(key=free, reverse=True): it is stable.
unfoldable pub insert : ℕ → NodeFacts → List NodeFacts → List NodeFacts
unfolding free
insert per_node n [] = n ∷ []
insert per_node n (m ∷ ms) =
    if leb (free per_node m) (free per_node n) then n ∷ m ∷ ms else m ∷ insert per_node n ms

unfoldable pub sort : ℕ → List NodeFacts → List NodeFacts
unfolding insert
sort per_node [] = []
sort per_node (n ∷ ns) = insert per_node n (sort per_node ns)

abbrev pub head : List NodeFacts → Option NodeFacts
head [] = none
head (n ∷ ns) = some n

-- max(…, key=free): the first of those with the most; a ValueError for no nodes.
unfoldable pub roomiest : ℕ → List NodeFacts → Option NodeFacts
unfolding free
roomiest per_node [] = none
roomiest per_node (n ∷ ns) = elim (roomiest per_node ns) [
  | none ↦ some n
  | some m ↦ some (if leb (free per_node m) (free per_node n) then n else m)
]

-- min(free[n.node_id] for n in span): a ValueError for no nodes.
unfoldable pub least_free : ℕ → List NodeFacts → Option ℕ
unfolding free
least_free per_node [] = none
least_free per_node (n ∷ ns) = elim (least_free per_node ns) [
  | none ↦ some (free per_node n)
  | some m ↦ some (min (free per_node n) m)
]
