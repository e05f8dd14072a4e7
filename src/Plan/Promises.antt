-- ===== src/Plan/Promises.antt =====
-- What plan_instance of plan.py promises about a plan as a whole.
use spark_controlplane.Prelude.{
  ℕ, ◌+◌, ◌*◌, ◌≤◌, ◌<◌, ◌≡◌, sym, ap, ◌∙◌, true, false, ◌≢◌, Option, none, some, List, [], ◌∷◌,
  All, All-map, length, arith, Option-cases, Bool-cases, inl, inr, ◌==◌, nat_eq, ◌⊎◌,
}
use spark_controlplane.Models.{Topology}
use spark_controlplane.Plan.{
  ModelFacts, ClusterFacts, usable, free, need, kv_bytes_per_token, least_free,
}
use spark_controlplane.Plan.Choice.{Warning, no_node_reachable, Choice, choose, or_nothing}
use spark_controlplane.Plan.Whole.{
  fraction, within, or_default, Settings, PlanResult, fill_in, absent, plan_instance,
}
use spark_controlplane.Plan.Placement.{IsPlaced, choose-IsPlaced, choose-some, placed-least}
use spark_controlplane.Plan.Fit.{fraction-bounds, least_free-All, context_sound}

-- A plan with settings comes from a choice of nodes.
record Origin (model : ModelFacts) (cluster : ClusterFacts) (force : Option Topology)
    (pin seqs : Option ℕ) (r : PlanResult) : Type 0 where
  choice : Choice
  span_free : ℕ
  chosen : choose model force pin cluster.node_memory_gib (usable cluster) ≡ some choice
  least : least_free cluster.node_memory_gib choice.span ≡ some span_free
  memory : 0 < cluster.node_memory_gib
  filled :
      r
      ≡ fill_in model cluster.node_memory_gib seqs (absent model (usable cluster)) choice span_free

plan_instance-Origin :
    (model : ModelFacts) (cluster : ClusterFacts) (force : Option Topology) (pin seqs : Option ℕ)
    (r : PlanResult) (s : Settings)
    → plan_instance model cluster force pin seqs ≡ some r
    → r.settings ≡ some s
    → Origin model cluster force pin seqs r
unfolding plan_instance
plan_instance-Origin model cluster force pin seqs r s h hs =
    let per_node = cluster.node_memory_gib in
    elim (Bool-cases (length (usable cluster) == 0)) [
      | inl e ↦ ground arith
      | inr some_node ↦ elim (Option-cases (choose model force pin per_node (usable cluster))) [
        | inl e ↦ ground arith
        | inr (c, e) ↦ elim (Option-cases (least_free per_node c.span)) [
          | inl f ↦ ground arith
          | inr (m, f) ↦ record {
            choice = c;
            span_free = m;
            chosen = e;
            least = f;
            memory = ground arith;
            filled = ground arith;
          }
        ]
      ]
    ]

fill_in-cache_fits :
    (model : ModelFacts) (per_node : ℕ) (seqs : Option ℕ) (ws : List Warning) (c : Choice)
    (span_free : ℕ) (s : Settings) (kv n : ℕ)
    → (fill_in model per_node seqs ws c span_free).settings ≡ some s
    → (fill_in model per_node seqs ws c span_free).feasible ≡ true
    → kv_bytes_per_token model ≡ some kv
    → s.max_model_len ≡ some n
    → (100 * or_nothing (need model) + 12_500 * (kv * (n * s.max_num_seqs))
        ≤ s.gpu_memory_utilization * per_node * s.tensor_parallel_size)
      × (within model.context_len n ≡ true)
      × ((4096 ≤ n) ⊎ (model.context_len ≡ some n))
unfolding fill_in
fill_in-cache_fits model per_node seqs ws c span_free s kv n hs ok hk hn =
    let whole = fraction span_free per_node * per_node * length c.span in
    let needed = 100 * or_nothing (need model) in
    ground (arith, context_sound kv whole needed (or_default seqs) model.context_len n)

-- In a feasible plan for a model of known geometry that sets a context length, the weights with
-- their overhead and five quarters of the cache of all concurrent requests at that length stay
-- within the fraction of memory taken on all nodes of the span; the length is within the model's
-- own, and no shorter than 4096 unless it is the model's own.
pub plan_instance-cache_fits :
    (model : ModelFacts) (cluster : ClusterFacts) (force : Option Topology) (pin seqs : Option ℕ)
    (r : PlanResult) (s : Settings) (kv n : ℕ)
    → plan_instance model cluster force pin seqs ≡ some r
    → r.settings ≡ some s
    → r.feasible ≡ true
    → kv_bytes_per_token model ≡ some kv
    → s.max_model_len ≡ some n
    → (100 * or_nothing (need model) + 12_500 * (kv * (n * s.max_num_seqs))
        ≤ s.gpu_memory_utilization * cluster.node_memory_gib * s.tensor_parallel_size)
      × (within model.context_len n ≡ true)
      × ((4096 ≤ n) ⊎ (model.context_len ≡ some n))
plan_instance-cache_fits model cluster force pin seqs r s kv n h hs ok hk hn =
    let o = plan_instance-Origin model cluster force pin seqs r s h hs in
    fill_in-cache_fits model cluster.node_memory_gib seqs (absent model (usable cluster)) o.choice
      o.span_free s kv n (ap (λ (x : PlanResult). x.settings) (sym o.filled) ∙ hs)
      (ap (λ (x : PlanResult). x.feasible) (sym o.filled) ∙ ok) hk hn

filled-settings :
    (model : ModelFacts) (per_node : ℕ) (seqs : Option ℕ) (ws : List Warning) (c : Choice)
    (span_free : ℕ)
    → (fill_in model per_node seqs ws c span_free).settings ≢ none
unfolding fill_in
filled-settings model per_node seqs ws c span_free h = ground arith

-- If the nodes have memory, planning raises nothing, whatever is pinned, and sets values if a
-- node is reachable.
pub plan_instance-total :
    (model : ModelFacts) (cluster : ClusterFacts) (force : Option Topology) (pin seqs : Option ℕ)
    → 0 < cluster.node_memory_gib
    → (r : PlanResult) × (plan_instance model cluster force pin seqs ≡ some r)
      × (((length (usable cluster) == 0) ≡ false) → r.settings ≢ none)
unfolding plan_instance
plan_instance-total model cluster force pin seqs h =
    let per_node = cluster.node_memory_gib in
    elim (Bool-cases (length (usable cluster) == 0)) [
      | inl e ↦ (
        record { settings = none; warnings = no_node_reachable ∷ []; feasible = false },
        ground arith,
        λ k. ground arith,
      )
      | inr e ↦ elim (Option-cases (choose model force pin per_node (usable cluster))) [
        | inl f ↦ elim (choose-some model force pin per_node (usable cluster) e f) [ ]
        | inr (c, f) ↦
            let placed = choose-IsPlaced model force pin per_node (usable cluster) c f in
            elim (Option-cases (least_free per_node c.span)) [
              | inl g ↦ elim (placed-least model per_node (usable cluster) c placed g) [ ]
              | inr (m, g) ↦ (
                fill_in model per_node seqs (absent model (usable cluster)) c m,
                ground arith,
                λ k s. filled-settings model per_node seqs (absent model (usable cluster)) c m s,
              )
            ]
      ]
    ]

filled-share :
    (model : ModelFacts) (per_node : ℕ) (seqs : Option ℕ) (ws : List Warning) (c : Choice)
    (span_free : ℕ) (s : Settings)
    → 0 < per_node
    → (fill_in model per_node seqs ws c span_free).settings ≡ some s
    → (fill_in model per_node seqs ws c span_free).feasible ≡ true
    → 2 * (per_node * s.gpu_memory_utilization) ≤ 200 * span_free + per_node
unfolding fill_in
filled-share model per_node seqs ws c span_free s h hs ok =
    let enough : 10 * per_node ≤ 100 * span_free = ground arith in
    let same : s.gpu_memory_utilization ≡ fraction span_free per_node = ground arith in
    rw same ((fraction-bounds span_free per_node h).2 enough)

-- A planned fraction is of 10 to 90 percent; the plan is for one named reachable node, or for all
-- reachable nodes that hold the weights, two at least; and if it is feasible, the fraction is at
-- most half a percent of a node above what is free on every node of the span besides the reserve
-- and the running instances.
pub plan_instance-share :
    (model : ModelFacts) (cluster : ClusterFacts) (force : Option Topology) (pin seqs : Option ℕ)
    (r : PlanResult) (s : Settings)
    → plan_instance model cluster force pin seqs ≡ some r
    → r.settings ≡ some s
    → (10 ≤ s.gpu_memory_utilization)
      × (s.gpu_memory_utilization ≤ 90)
      × ((c : Choice) × IsPlaced model (usable cluster) c
          × (s.topology ≡ c.topology)
          × (s.node_id ≡ c.node_id)
          × (s.tensor_parallel_size ≡ length c.span)
          × (r.feasible ≡ true
              → All
                  (λ n.
                    2 * (cluster.node_memory_gib * s.gpu_memory_utilization)
                    ≤ 200 * free cluster.node_memory_gib n + cluster.node_memory_gib)
                  c.span))
unfolding fill_in
plan_instance-share model cluster force pin seqs r s h hs =
    let o = plan_instance-Origin model cluster force pin seqs r s h hs in
    let per_node = cluster.node_memory_gib in
    let bounds = fraction-bounds o.span_free per_node o.memory in
    let filled : (fill_in model per_node seqs (absent model (usable cluster)) o.choice
          o.span_free).settings
        ≡ some s =
      ap (λ (x : PlanResult). x.settings) (sym o.filled) ∙ hs in
    let free_all =
      least_free-All per_node o.choice.span o.span_free o.span_free o.least (omega arith) in
    (
      ground (arith, bounds.0),
      ground (arith, bounds.1),
      (
        o.choice,
        choose-IsPlaced model force pin per_node (usable cluster) o.choice o.chosen,
        ground arith,
        ground arith,
        ground arith,
        λ ok.
            All-map (λ n. o.span_free ≤ free per_node n)
              (λ n. 2 * (per_node * s.gpu_memory_utilization) ≤ 200 * free per_node n + per_node)
              o.choice.span
              (λ n k. omega (
                arith,
                k,
                filled-share model per_node seqs (absent model (usable cluster)) o.choice
                    o.span_free s o.memory filled
                    (ap (λ (x : PlanResult). x.feasible) (sym o.filled) ∙ ok),
              ))
              free_all,
      ),
    )
