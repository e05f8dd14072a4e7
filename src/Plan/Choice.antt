-- ===== src/Plan/Choice.antt =====
-- The topology that plan_instance of plan.py picks.
use spark_controlplane.Prelude.{
  ℕ, ◌+◌, Bool, true, false, not, ◌&&◌, Option, none, some, List, [], ◌∷◌, ◌++◌, length, all,
  keep_if, ltb, leb, ◌==◌, nat_eq, if◌then◌else◌,
}
use spark_controlplane.Dict.{Dict, get, set}
use spark_controlplane.Models.{Topology, cluster, single, distributed}
use spark_controlplane.Plan.{
  ModelFacts, NodeFacts, free, need, min_kv, holders, candidates, sort, head, roomiest,
}

-- The warnings, with the numbers that they print.
pub data Warning : Type 0 where
  no_node_reachable : Warning
  weights_absent : Warning
  no_qsfp_for_request : Warning
  only_one_node : (n : ℕ) → Warning
  no_qsfp : Warning
  too_large : (need free committed : ℕ) → Warning
  nothing_free : (free : ℕ) → Warning
  context_too_short : (per_seq seqs : ℕ) → Warning
  context_unverified : (weights_fill_budget : Bool) → Warning

pub record Choice : Type 0 where
  pub topology : Topology
  pub span : List NodeFacts
  pub node_id : Option ℕ
  pub warnings : List Warning
  pub feasible : Bool

-- The one node that holds the weights and a useful cache, with the most free memory; or, for a
-- model of unknown size, the only one there is.
unfoldable pub derived_target : ModelFacts → ℕ → List NodeFacts → Option NodeFacts
unfolding sort free
derived_target model per_node nodes = elim (need model) [
  | some n ↦ head (sort per_node (keep_if (λ m. leb (n + min_kv model) (free per_node m)) nodes))
  | none ↦ if length nodes == 1 then head nodes else none
]

unfoldable pub by_id : Dict ℕ NodeFacts → List NodeFacts → Dict ℕ NodeFacts
by_id d [] = d
by_id d (n ∷ ns) = by_id (set n.node_id n d) ns

-- by_id.get(force_node_id) or max(candidates, …)
unfoldable pub pinned_target : Option ℕ → ℕ → List NodeFacts → List NodeFacts → Option NodeFacts
unfolding by_id get roomiest
pinned_target none per_node nodes found = roomiest per_node found
pinned_target (some id) per_node nodes found = elim (get id (by_id [] nodes)) [
  | some n ↦ some n
  | none ↦ roomiest per_node found
]

abbrev pub all_qsfp : List NodeFacts → Bool
all_qsfp nodes = all (λ n. n.has_qsfp) nodes

abbrev pub is_multi : Option Topology → Bool
is_multi none = false
is_multi (some single) = false
is_multi (some cluster) = true
is_multi (some distributed) = true

-- `single_target`; `none` in the first place is the ValueError of `max`.
unfoldable pub target :
    ModelFacts → Option Topology → Option ℕ → ℕ → List NodeFacts → Option (Option NodeFacts)
unfolding derived_target pinned_target candidates
target model none force_node_id per_node nodes =
    some (derived_target model per_node (candidates model nodes))
target model (some single) force_node_id per_node nodes =
    elim (pinned_target force_node_id per_node nodes (candidates model nodes)) [
      | none ↦ none
      | some n ↦ some (some n)
    ]
target model (some cluster) force_node_id per_node nodes = some none
target model (some distributed) force_node_id per_node nodes = some none

unfoldable pub multi_ok : ModelFacts → Option Topology → List NodeFacts → Bool
unfolding holders
multi_ok model none nodes = leb 2 (length (holders model nodes)) && all_qsfp (holders model nodes)
multi_ok model (some single) nodes = false
multi_ok model (some cluster) nodes = leb 2 (length (holders model nodes))
multi_ok model (some distributed) nodes = leb 2 (length (holders model nodes))

abbrev pub or_distributed : Option Topology → Topology
or_distributed (some cluster) = cluster
or_distributed _ = distributed

abbrev pub one_node : NodeFacts → List Warning → Bool → Choice
one_node n warnings feasible = record {
  topology = single;
  span = n ∷ [];
  node_id = some n.node_id;
  warnings = warnings;
  feasible = feasible;
}

unfoldable pub total_committed : List NodeFacts → ℕ
total_committed [] = 0
total_committed (n ∷ ns) = n.committed_gib + total_committed ns

abbrev pub is_over : Option ℕ → ℕ → Bool
is_over none limit = false
is_over (some n) limit = ltb limit n

abbrev pub when : Bool → Warning → List Warning
when test w = if test then w ∷ [] else []

abbrev pub or_nothing : Option ℕ → ℕ
or_nothing none = 0
or_nothing (some n) = n

-- The last branch: several nodes cannot be used, so it has to be one of the candidates.
unfoldable pub fall_back : ModelFacts → Option Topology → ℕ → List NodeFacts → NodeFacts → Choice
unfolding holders free total_committed
fall_back model force per_node nodes n =
    let over = is_over (need model) (free per_node n) in
    one_node n
      (when (is_multi force) (only_one_node (length nodes))
        ++ when (leb 2 (length nodes) && not (all_qsfp (holders model nodes))) no_qsfp
        ++ when over
            (too_large (or_nothing (need model)) (free per_node n) (total_committed nodes)))
      (not over)

-- `nodes` are the reachable ones. `none` is the ValueError of `max` for no candidates.
unfoldable pub choose : ModelFacts → Option Topology → Option ℕ → ℕ → List NodeFacts → Option Choice
unfolding target multi_ok fall_back roomiest candidates
choose model force force_node_id per_node nodes =
    elim (target model force force_node_id per_node nodes) [
      | none ↦ none
      | some (some n) ↦ some (one_node n [] true)
      | some none ↦
          if multi_ok model force nodes
          then some (record {
            topology = or_distributed force;
            span = holders model nodes;
            node_id = none;
            warnings =
                when (is_multi force && not (all_qsfp (holders model nodes))) no_qsfp_for_request;
            feasible = true;
          })
          else elim (roomiest per_node (candidates model nodes)) [
            | none ↦ none
            | some n ↦ some (fall_back model force per_node nodes n)
          ]
    ]
