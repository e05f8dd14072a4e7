-- ===== src/Plan/Tests.antt =====
-- plan.py at concrete inputs: two nodes of 119 GiB and a model of 20 GB.
use spark_controlplane.Prelude.{
  ◌+◌, ◌*◌, ◌≤◌, ◌≡◌, ◌≢◌, refl, Bool, true, false, Option, none, some, List, [], ◌∷◌, ◌⊎◌, All,
  length, ltb→lt, nat_eq, ◌==◌,
}
use spark_controlplane.Dict.{get}
use spark_controlplane.Models.{running, stopped, single, cluster}
use spark_controlplane.Text.{codes}
use spark_controlplane.Plan.{
  ModelFacts, NodeFacts, ClusterFacts, gib, usable, free, need, min_kv, kv_bytes_per_token,
}
use spark_controlplane.Plan.Choice.{Choice, derived_target, or_nothing}
use spark_controlplane.Plan.Whole.{Settings, PlanResult, within, plan_instance}
use spark_controlplane.Plan.Placement.{IsPlaced, fits, derived_target-best}
use spark_controlplane.Plan.Promises.{
  plan_instance-cache_fits, plan_instance-total, plan_instance-share,
}
use spark_controlplane.Plan.Committed.{
  Claim, committed_gib_by_node, share_of, committed_gib_by_node_lem,
}

abbrev model : ModelFacts
model = record {
  size_bytes = some 20_000_000_000;
  tool_parser = none;
  context_len = some 131072;
  num_layers = some 48;
  num_kv_heads = some 4;
  head_dim = some 128;
  torch_dtype = some (codes "bfloat16");
  present_node_ids = [];
}

abbrev spark : NodeFacts
spark = record { node_id = 1; name = "spark"; reachable = true; has_qsfp = true; committed_gib = 0 }

abbrev busy : NodeFacts
busy = record {
  node_id = 2;
  name = "busy";
  reachable = true;
  has_qsfp = true;
  committed_gib = 60 * gib;
}

abbrev pair : ClusterFacts
pair = record { nodes = spark ∷ busy ∷ []; node_memory_gib = 119 * gib }

abbrev settings : Settings
settings = record {
  topology = single;
  tensor_parallel_size = 1;
  node_id = some 1;
  gpu_memory_utilization = 90;
  max_model_len = some 65536;
  max_num_seqs = 8;
  enable_tool_choice = true;
  autostart = true;
  port = none;
  master_port = none;
  tls_enabled = false;
}

abbrev planned : PlanResult
planned = record { settings = some settings; warnings = []; feasible = true }

plan_test : plan_instance model pair none none none ≡ some planned
unfolding plan_instance need min_kv
plan_test = refl

-- Weights of 400 GB do not fit both nodes, and the plan says that they do.
abbrev huge : ModelFacts
huge = record model { size_bytes = some 400_000_000_000 }

abbrev is_feasible : Option PlanResult → Bool
is_feasible none = false
is_feasible (some r) = r.feasible

huge_test : is_feasible (plan_instance huge pair none none none) ≡ true
unfolding plan_instance need min_kv
huge_test = refl

plan_instance-cache_fits_example :
    (100 * or_nothing (need model) + 12_500 * (98304 * (65536 * 8)) ≤ 90 * (119 * gib) * 1)
    × (within (some 131072) 65536 ≡ true)
    × ((4096 ≤ 65536) ⊎ (model.context_len ≡ some 65536))
unfolding kv_bytes_per_token plan_instance need min_kv
plan_instance-cache_fits_example =
    plan_instance-cache_fits model pair none none none planned settings 98304 65536 refl refl refl
      refl refl

plan_instance-total_example :
    (r : PlanResult) × (plan_instance model pair none none none ≡ some r)
    × (((length (usable pair) == 0) ≡ false) → r.settings ≢ none)
plan_instance-total_example =
    plan_instance-total model pair none none none (ltb→lt 0 (119 * gib) refl)

plan_instance-share_test :
    (10 ≤ 90)
    × (90 ≤ 90)
    × ((c : Choice) × IsPlaced model (usable pair) c
        × (single ≡ c.topology)
        × (some 1 ≡ c.node_id)
        × (1 ≡ length c.span)
        × (planned.feasible ≡ true
            → All (λ n. 2 * (119 * gib * 90) ≤ 200 * free (119 * gib) n + 119 * gib) c.span))
unfolding plan_instance need min_kv
plan_instance-share_test = plan_instance-share model pair none none none planned settings refl refl

derived_target-best_test :
    (fits (119 * gib) model 2_300_000_000_000 spark ≡ true)
    × All
        (λ m.
          fits (119 * gib) model 2_300_000_000_000 m ≡ true
          → free (119 * gib) m ≤ free (119 * gib) spark)
        (busy ∷ spark ∷ [])
unfolding need derived_target min_kv
derived_target-best_test =
    derived_target-best model (119 * gib) 2_300_000_000_000 (busy ∷ spark ∷ []) spark refl refl

abbrev claims : List Claim
claims =
    record {
      status = running;
      gpu_memory_utilization = some 40;
      topology = cluster;
      node_id = none;
    }
    ∷ record {
      status = stopped;
      gpu_memory_utilization = some 90;
      topology = single;
      node_id = some 1;
    }
    ∷ record {
      status = running;
      gpu_memory_utilization = none;
      topology = single;
      node_id = some 1;
    }
    ∷ record {
      status = running;
      gpu_memory_utilization = some 30;
      topology = single;
      node_id = some 1;
    }
    ∷ []

committed_gib_by_node_lem_test :
    get 1 (committed_gib_by_node claims (1 ∷ 2 ∷ []) 119) ≡ some (share_of 1 119 claims)
committed_gib_by_node_lem_test =
    committed_gib_by_node_lem claims (1 ∷ 2 ∷ []) 119 1 (refl, (refl, tt)) refl

share_test : share_of 1 119 claims ≡ 70 * 119
share_test = refl
