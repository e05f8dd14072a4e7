-- ===== src/Instances.antt =====
-- backend/app/services/instances.py: the jobs that start, stop and delete an instance and rotate its
-- certificate. A rendered file or unit is its name; the log, the environment and the RoCE probe,
-- which never raises, are left out.
pub mod Lifecycle
pub mod Frames
pub mod Endings
pub mod Rows
pub mod Start
pub mod Outcome
pub mod Halt
pub mod Removal
mod Tests
use spark_controlplane.Prelude.{
  ℕ, zero, suc, ◌+◌, ◌-◌, ◌/◌, String, Bool, true, false, not, ◌&&◌, ◌||◌, Option, none, some, List,
  [], ◌∷◌, ◌++◌, map, ltb, length, keep_if, ◌==◌, nat_eq, string_eq, if◌then◌else◌,
}
use spark_controlplane.Text.{Text, codes}
use spark_controlplane.Models.{
  Instance, InstStatus, stopped, starting, running, error, Topology, single, cluster, distributed,
  topology_eq, other_text,
}
use spark_controlplane.InstState.{register, release}
use spark_controlplane.Binding.{effective_tls, Tls, is_set}
use spark_controlplane.Parsers.{tool_parser_for}
use spark_controlplane.Portal.{
  Node, ModelNodeState, Managed, PromoStatus, EndpointPromotion, EndpointRow, Command, Failure,
  Portal, Result, World, Action, pure, raise, gets, lift, or_raise, ◌>>=◌, ◌>>◌, Done, raise_if,
  modify, attempt, finally, run, find_row, change, change_row, connect, install_file, install_unit,
  stop_unit, remove_unit, reload_proxy, remove_dir, not_found, no_head, no_workers, no_node,
  model_absent, cert_unset, tls_disabled, bad_secret, command_failed, endpoint_not_found,
  target_not_found, not_a_member, target_busy, previous_busy, no_certificate, restored, down,
  not_served, pending, active, superseded, failed, ok, err,
}

-- templates.py: the names of the units of an instance
abbrev pub instance_unit_name : String → Text
instance_unit_name name = codes "spark-vllm-" ++ codes name ++ codes ".service"

abbrev pub distributed_worker_unit_name : String → Text
distributed_worker_unit_name name = codes "spark-vllm-" ++ codes name ++ codes "-worker.service"

abbrev pub tls_unit_name : String → Text
tls_unit_name name = codes "spark-vllm-" ++ codes name ++ codes "-tls.service"

-- `get_node_by_role(session, "head")`, and the other nodes; the nodes stand in the order of their ids.
abbrev pub first_head : List Node → Option Node
first_head [] = none
first_head (n ∷ ns) = if n.is_head then some n else first_head ns

-- `_head_node`
unfoldable pub head_node : Action Node
head_node = do or_raise (first_head (← gets (λ p. p.nodes))) no_head

-- `_worker_nodes`
unfoldable pub worker_nodes : Node → Action (List Node)
worker_nodes head = gets (λ p. keep_if (λ n. not (n.id == head.id)) p.nodes)

abbrev pub find_node : Option ℕ → List Node → Option Node
find_node none ns = none
find_node (some i) [] = none
find_node (some i) (n ∷ ns) = if n.id == i then some n else find_node (some i) ns

-- `_instance_node`
unfoldable pub instance_node : Managed → Action Node
unfolding head_node
instance_node m =
    if m.inst.topology == single
    then (do or_raise (find_node m.inst.node_id (← gets (λ p. p.nodes))) no_node)
    else head_node

-- `inst.tensor_parallel_size or (nnodes or 2)`
abbrev pub or_size : Option ℕ → Option ℕ → ℕ
or_size (some (suc n)) nnodes = suc n
or_size (some zero) (some (suc n)) = suc n
or_size none (some (suc n)) = suc n
or_size _ _ = 2

unfoldable pub resolve_defaults : Option ℕ → Managed → Managed
unfolding tool_parser_for
resolve_defaults nnodes m = record m {
  tensor_parallel_size =
      if m.inst.topology == single then some 1 else some (or_size m.tensor_parallel_size nnodes);
  tool_parser =
      if m.enable_tool_choice && not (is_set m.tool_parser)
      then tool_parser_for m.repo_id
      else m.tool_parser;
}

abbrev pub is_present : ℕ → ℕ → List ModelNodeState → Bool
is_present model node [] = false
is_present model node (s ∷ ss) =
    if (s.model_id == model) && (s.node_id == node) then s.usable else is_present model node ss

-- `_ensure_model_present`
unfoldable pub ensure_model_present : Managed → List Node → Action Done
ensure_model_present m [] = pure tt
ensure_model_present m (n ∷ ns) = do
  states ← gets (λ p. p.model_states)
  raise_if (not (is_present m.model_id n.id states)) (model_absent n.id)
  ensure_model_present m ns

-- `_stream_startup_logs`: the answers of /health are asked while fewer than 900 seconds are over
-- and the journal goes on.
unfoldable pub stream_startup_logs : ℕ → List Bool → Bool
stream_startup_logs waited [] = false
stream_startup_logs waited (answer ∷ answers) =
    let later = stream_startup_logs (waited + 5) answers in ltb waited 900 && (answer || later)

unfoldable pub members_of : Managed → Action (Option (Node × List Node))
unfolding head_node worker_nodes
members_of m =
    if m.inst.topology == single
    then pure none
    else (do head ← head_node; workers ← worker_nodes head; pure (some (head, workers)))

abbrev pub count : Option (Node × List Node) → Option ℕ
count none = none
count (some (head, workers)) = some (1 + length workers)

module _ (w : World) where
  -- `_deploy_tls_proxy`
  unfoldable pub deploy_tls_proxy : Managed → Node → Action Done
  unfolding run effective_tls
  deploy_tls_proxy m node = do
    run w (connect node.id)
    if not (effective_tls m.inst).enabled
        then run w (remove_unit node.id (tls_unit_name m.inst.name))
        else (do
          cert ← lift (w.decrypt (effective_tls m.inst).cert)
          key ← lift (w.decrypt (effective_tls m.inst).key)
          raise_if (not (is_set cert && is_set key)) cert_unset
          run w (install_file node.id (codes "cert"))
          run w (install_file node.id (codes "key"))
          run w (install_file node.id (codes "conf"))
          run w (install_file node.id (codes "script"))
          run w (install_unit node.id (tls_unit_name m.inst.name)))

  -- The loop over the workers in `_start_distributed`
  unfoldable pub start_workers : Managed → List Node → Action Done
  unfolding run
  start_workers m [] = pure tt
  start_workers m (n ∷ ns) = do
    run w (connect n.id)
    run w (install_file n.id (codes "script"))
    run w (install_unit n.id (distributed_worker_unit_name m.inst.name))
    start_workers m ns

  -- A unit with its script, on the node that serves the API.
  unfoldable pub start_scripted : Managed → Node → Action Done
  unfolding run
  start_scripted m n = do
    run w (connect n.id)
    run w (install_file n.id (codes "script"))
    run w (install_unit n.id (instance_unit_name m.inst.name))

  -- `_start_distributed`
  unfoldable pub start_distributed : Managed → Node → List Node → Action Done
  unfolding ensure_model_present start_workers start_scripted
  start_distributed m head workers = do
    raise_if (length workers == 0) no_workers
    ensure_model_present m (head ∷ workers)
    start_workers m workers
    start_scripted m head

  -- The start of the units, by the topology; the members of a cluster are its head and its workers.
  unfoldable pub launch : Managed → Option (Node × List Node) → Action Done
  unfolding run ensure_model_present start_distributed start_scripted
  launch m (some (head, workers)) =
      if m.inst.topology == distributed then start_distributed m head workers else (do
        ensure_model_present m (head ∷ workers)
        run w (connect head.id)
        run w (install_unit head.id (instance_unit_name m.inst.name)))
  launch m none = do
    node ← or_raise (find_node m.inst.node_id (← gets (λ p. p.nodes))) no_node
    ensure_model_present m (node ∷ [])
    start_scripted m node

  unfoldable pub stop_workers : String → List Node → Action Done
  unfolding run
  stop_workers name [] = pure tt
  stop_workers name (n ∷ ns) = do
    run w (connect n.id)
    run w (stop_unit n.id (distributed_worker_unit_name name))
    stop_workers name ns

  -- The two stops on the node that serves the API.
  unfoldable pub stop_served : Managed → Text → Node → Action Done
  unfolding run
  stop_served m unit_name n = do
    run w (connect n.id)
    if m.inst.tls_enabled then run w (stop_unit n.id (tls_unit_name m.inst.name)) else pure tt
    run w (stop_unit n.id unit_name)
