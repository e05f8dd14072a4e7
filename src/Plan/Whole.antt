-- ===== src/Plan/Whole.antt =====
-- plan_instance of plan.py as a whole, and committed_gib_by_node.
use spark_controlplane.Prelude.{
  ℕ, zero, suc, ◌+◌, ◌-◌, ◌*◌, ◌/◌, ◌%◌, min, max, Bool, true, false, not, ◌&&◌, Option, none, some,
  List, [], ◌∷◌, ◌++◌, length, ltb, leb, ◌==◌, nat_eq, if◌then◌else◌,
}
use spark_controlplane.Models.{Topology}
use spark_controlplane.Plan.{
  ModelFacts, NodeFacts, ClusterFacts, usable, holders, need, kv_bytes_per_token, least_free,
  min_memory_fraction, max_memory_fraction, min_useful_context, default_max_num_seqs,
  context_ladder,
}
use spark_controlplane.Plan.Choice.{
  Warning, no_node_reachable, weights_absent, nothing_free, context_too_short, context_unverified,
  Choice, choose, when, or_nothing,
}

-- round(a / b): to the nearest, and to the even one of two.
unfoldable pub round_div : ℕ → ℕ → ℕ
round_div a b =
    let q = a / b in
    let r = a % b in
    if ltb (2 * r) b then q else if ltb b (2 * r) then q + 1 else if q % 2 == 0 then q else q + 1

-- `frac`, in percent
unfoldable pub fraction : ℕ → ℕ → ℕ
unfolding round_div
fraction span_free per_node =
    round_div
      (min (max_memory_fraction * per_node)
        (max (min_memory_fraction * per_node) (100 * span_free)))
      per_node

abbrev pub within : Option ℕ → ℕ → Bool
within none n = true
within (some trained) n = leb n trained

-- The first rung that fits.
unfoldable pub first_rung : List ℕ → ℕ → Option ℕ → Option ℕ
first_rung [] per_seq trained = none
first_rung (rung ∷ ladder) per_seq trained =
    if leb rung per_seq && within trained rung then some rung else first_rung ladder per_seq trained

-- `chosen`, before the floor
unfoldable pub longest : ℕ → Option ℕ → Option ℕ
unfolding first_rung
longest per_seq trained = elim (first_rung context_ladder per_seq trained) [
  | some rung ↦ some rung
  | none ↦ elim trained [ none ↦ none | some t ↦ if ltb 0 t && leb t per_seq then some t else none ]
]

-- `usable // kv_per_token`, four fifths of a budget in percents of hundredths of a byte
unfoldable pub max_tokens : ℕ → ℕ → ℕ
max_tokens budget kv = budget * 8 / (100_000 * kv)

-- `max_num_seqs or DEFAULT_MAX_NUM_SEQS`
abbrev pub or_default : Option ℕ → ℕ
or_default none = default_max_num_seqs
or_default (some zero) = default_max_num_seqs
or_default (some (suc n)) = suc n

-- All but `tool_parser`, which is none or absent.
pub record Settings : Type 0 where
  pub topology : Topology
  pub tensor_parallel_size : ℕ
  pub node_id : Option ℕ
  pub gpu_memory_utilization : ℕ
  pub max_model_len : Option ℕ
  pub max_num_seqs : ℕ
  pub enable_tool_choice : Bool
  pub autostart : Bool
  pub port : Option ℕ
  pub master_port : Option ℕ
  pub tls_enabled : Bool

-- `settings` is empty, that is `none`, if nothing is reachable.
pub record PlanResult : Type 0 where
  pub settings : Option Settings
  pub warnings : List Warning
  pub feasible : Bool

-- What the context section sets: the length, the warnings, and whether it is feasible.
pub record Context : Type 0 where
  pub max_model_len : Option ℕ
  pub warnings : List Warning
  pub feasible : Bool

unfoldable pub sized_context : ℕ → ℕ → ℕ → Option ℕ → Context
unfolding longest max_tokens
sized_context budget kv seqs trained =
    let per_seq = max_tokens budget kv / seqs in
    elim (longest per_seq trained) [
      | some n ↦ record { max_model_len = some n; warnings = []; feasible = true }
      | none ↦ record {
        max_model_len = some min_useful_context;
        warnings = context_too_short per_seq seqs ∷ [];
        feasible = false;
      }
    ]

-- `whole` is the fraction of all memory and `needed` the weights' part of it, in percents.
unfoldable pub context : Option ℕ → ℕ → ℕ → ℕ → Option ℕ → Context
unfolding sized_context
context none whole needed seqs trained = record {
  max_model_len = none;
  warnings = context_unverified (leb whole needed) ∷ [];
  feasible = true;
}
context (some kv) whole needed seqs trained =
    if ltb 0 kv && ltb needed whole
    then sized_context (whole - needed) kv seqs trained
    else record {
      max_model_len = none;
      warnings = context_unverified (leb whole needed) ∷ [];
      feasible = true;
    }

-- Everything behind the choice of the nodes.
unfoldable pub fill_in : ModelFacts → ℕ → Option ℕ → List Warning → Choice → ℕ → PlanResult
unfolding fraction context kv_bytes_per_token
fill_in model per_node max_num_seqs warnings c span_free =
    let tp = length c.span in
    let frac = fraction span_free per_node in
    let seqs = or_default max_num_seqs in
    let small = ltb (100 * span_free) (min_memory_fraction * per_node) in
    let ctx =
      context (kv_bytes_per_token model) (frac * per_node * tp) (100 * or_nothing (need model)) seqs
        model.context_len in
    record {
      settings = some (record {
        topology = c.topology;
        tensor_parallel_size = tp;
        node_id = c.node_id;
        gpu_memory_utilization = frac;
        max_model_len = ctx.max_model_len;
        max_num_seqs = seqs;
        enable_tool_choice = true;
        autostart = true;
        port = none;
        master_port = none;
        tls_enabled = false;
      });
      warnings = warnings ++ c.warnings ++ when small (nothing_free span_free) ++ ctx.warnings;
      feasible = c.feasible && not small && ctx.feasible;
    }

-- What is missing: the weights on every reachable node.
abbrev pub absent : ModelFacts → List NodeFacts → List Warning
absent model nodes =
    when (not (length model.present_node_ids == 0) && (length (holders model nodes) == 0))
      weights_absent

-- `none` is an exception: a ValueError of `min` or `max`, or a division by no memory.
unfoldable pub plan_instance :
    ModelFacts → ClusterFacts → Option Topology → Option ℕ → Option ℕ → Option PlanResult
unfolding choose usable least_free fill_in
plan_instance model cluster force_topology force_node_id max_num_seqs =
    let nodes = usable cluster in
    let per_node = cluster.node_memory_gib in
    if length nodes == 0
    then some (record { settings = none; warnings = no_node_reachable ∷ []; feasible = false })
    else elim (choose model force_topology force_node_id per_node nodes) [
      | none ↦ none
      | some c ↦ elim (least_free per_node c.span) [
        | none ↦ none
        | some span_free ↦
            if per_node == 0
            then none
            else some (fill_in model per_node max_num_seqs (absent model nodes) c span_free)
      ]
    ]
