-- ===== src/Instances/Lifecycle.antt =====
-- backend/app/services/instances.py: `start_instance`, `stop_instance`, `delete_instance` and
-- `rotate_tls_cert`.
use spark_controlplane.Prelude.{
  ℕ, ◌-◌, ◌/◌, String, Bool, true, false, not, Option, none, some, List, [], ◌∷◌, map, keep_if,
  ◌==◌, nat_eq, string_eq, if◌then◌else◌,
}
use spark_controlplane.Text.{Text, codes}
use spark_controlplane.Models.{
  stopped, starting, running, error, distributed, topology_eq, other_text,
}
use spark_controlplane.InstState.{register, release}
use spark_controlplane.Portal.{
  Node, Managed, EndpointPromotion, EndpointRow, Failure, Portal, World, Action, pure, raise, gets,
  lift, or_raise, ◌>>=◌, ◌>>◌, Done, raise_if, modify, attempt, finally, run, find_row, change,
  change_row, connect, install_file, remove_unit, reload_proxy, remove_dir, not_found, tls_disabled,
}
use spark_controlplane.Instances.{
  head_node, worker_nodes, instance_node, resolve_defaults, deploy_tls_proxy, launch, stop_workers,
  stop_served, members_of, count, stream_startup_logs, instance_unit_name, tls_unit_name,
  distributed_worker_unit_name,
}

-- What a start writes before the launch, and once /health is green.
abbrev pub claimed : ℕ → Option ℕ → Managed → Managed
claimed t nnodes m = record (resolve_defaults nnodes m) {
  inst = record m.inst {
    status = starting;
    last_error = none;
    started_at = some t;
    last_healthy_at = none;
  };
}

abbrev pub load_seconds : Option ℕ → ℕ → Option ℕ → Option ℕ
load_seconds none t last = last
load_seconds (some start) t last = some ((t - start) / 1000000)

abbrev pub confirmed : ℕ → Managed → Managed
confirmed t m = record m {
  inst = record m.inst { status = running; last_healthy_at = some t };
  last_load_seconds = load_seconds m.inst.started_at t m.last_load_seconds;
}

abbrev pub owned : ℕ → String → ℕ → Portal → Portal
owned i action job p = record p { registry = register i action job p.registry }

abbrev pub freed : ℕ → Portal → Portal
freed i p = record p { registry = release i p.registry }

abbrev pub halted : Managed → Managed
halted m = record m { inst = record m.inst { status = stopped; started_at = none } }

-- `inst.systemd_unit or templates.instance_unit_name(inst.name)`
abbrev pub unit_of : Managed → Text
unit_of m = elim m.systemd_unit [ some (c ∷ cs) ↦ c ∷ cs | _ ↦ instance_unit_name m.inst.name ]

module _ (w : World) where
  abbrev pub failing : Failure → Managed → Managed
  failing e m = record m {
    inst = record m.inst { status = error; last_error = some (other_text (w.text e)) };
  }

  -- The answers of /health, and what is written once one of them is good.
  unfoldable pub await_health : ℕ → Action Bool
  unfolding change stream_startup_logs
  await_health i = do
    done ← gets (λ p. p.done)
    if stream_startup_logs 0 (w.health done)
        then (change_row i (confirmed (w.now done)) >> pure true)
        else pure false

  -- The body of the `try` of `_start_instance` for the instance `i`; the answer says whether health was confirmed.
  unfoldable pub serve : ℕ → Managed → Option (Node × List Node) → Action Bool
  unfolding launch instance_node deploy_tls_proxy run await_health
  serve i m members = do
    launch w m members
    change_row i (λ r. record r { systemd_unit = some (instance_unit_name m.inst.name) })
    api_node ← instance_node m
    deploy_tls_proxy w m api_node
    run w (connect api_node.id)
    await_health i

  -- The claim of the row, and the `try` with its handler.
  unfoldable pub start_claimed :
      ℕ → (Managed → Managed) → Managed → Option (Node × List Node) → Action Bool
  unfolding change serve
  start_claimed i claim m members = do
    change_row i claim
    attempt (serve i (claim m) members) (λ e. change_row i (failing e) >> raise e)

  unfoldable pub start_found : ℕ → Managed → Action Bool
  unfolding members_of resolve_defaults start_claimed
  start_found i m = do
    lift (w.decrypt m.api_key_enc)
    members ← members_of m
    t ← gets (λ p. w.now p.done)
    start_claimed i (claimed t (count members)) m members

  -- `_start_instance`
  unfoldable pub start_owned : ℕ → Action Bool
  unfolding find_row start_found
  start_owned i = do m ← or_raise (find_row i (← gets (λ p. p.rows))) not_found; start_found i m

  unfoldable pub start_instance : ℕ → ℕ → Action Bool
  unfolding start_owned
  start_instance job i p = finally (start_owned i) (freed i) (owned i "start" job p)

  -- The units that a stop stops.
  unfoldable pub stop_units : Managed → Action Done
  unfolding head_node worker_nodes instance_node stop_served stop_workers
  stop_units m =
      if m.inst.topology == distributed
      then (do
        head ← head_node
        workers ← worker_nodes head
        stop_served w m (instance_unit_name m.inst.name) head
        stop_workers w m.inst.name workers)
      else (do node ← instance_node m; stop_served w m (unit_of m) node)

  -- `_stop_instance`
  unfoldable pub stop_owned : ℕ → Action Done
  unfolding find_row change stop_units
  stop_owned i = do
    m ← or_raise (find_row i (← gets (λ p. p.rows))) not_found
    stop_units m
    change_row i halted

  unfoldable pub stop_instance : ℕ → ℕ → Action Done
  unfolding stop_owned
  stop_instance job i p = finally (stop_owned i) (freed i) (owned i "stop" job p)

-- `ON DELETE SET NULL` of the two columns that point at an instance.
abbrev pub unlink : ℕ → Option ℕ → Option ℕ
unlink i none = none
unlink i (some j) = if j == i then none else some j

abbrev pub without_row : ℕ → List Managed → List Managed
without_row i ms = keep_if (λ m. not (m.inst.id == i)) ms

abbrev pub unlink_endpoint : ℕ → EndpointRow → EndpointRow
unlink_endpoint i e = record e { current_instance_id = unlink i e.current_instance_id }

abbrev pub unlink_promotion : ℕ → EndpointPromotion → EndpointPromotion
unlink_promotion i r = record r {
  to_instance_id = unlink i r.to_instance_id;
  from_instance_id = unlink i r.from_instance_id;
}

-- The delete of the row, with what the database does to the rows that point at it.
abbrev pub deleted : ℕ → Portal → Portal
deleted i p = record p {
  rows = without_row i p.rows;
  endpoints = map (unlink_endpoint i) p.endpoints;
  promotions = map (unlink_promotion i) p.promotions;
}

module _ (w : World) where
  unfoldable pub remove_workers : String → List Node → Action Done
  unfolding run
  remove_workers name [] = pure tt
  remove_workers name (n ∷ ns) = do
    run w (connect n.id)
    run w (remove_unit n.id (distributed_worker_unit_name name))
    remove_workers name ns

  -- The body of the `try` of `delete_instance`
  unfoldable pub clean_up : Managed → Action Done
  unfolding run head_node worker_nodes instance_node remove_workers
  clean_up m =
      if m.inst.topology == distributed
      then (do
        head ← head_node
        workers ← worker_nodes head
        run w (connect head.id)
        run w (remove_unit head.id (tls_unit_name m.inst.name))
        run w (remove_unit head.id (instance_unit_name m.inst.name))
        run w (remove_dir head.id m.inst.name)
        remove_workers m.inst.name workers)
      else (do
        node ← instance_node m
        run w (connect node.id)
        run w (remove_unit node.id (tls_unit_name m.inst.name))
        run w (remove_unit node.id (unit_of m))
        run w (remove_dir node.id m.inst.name))

  unfoldable pub delete_instance : ℕ → Action Done
  unfolding find_row clean_up
  delete_instance i = do
    m ← or_raise (find_row i (← gets (λ p. p.rows))) not_found
    attempt (clean_up m) (λ e. pure tt)
    modify (deleted i)

  unfoldable pub rotate_tls_cert : ℕ → String → String → Action Done
  unfolding find_row change instance_node run
  rotate_tls_cert i cert key = do
    m ← or_raise (find_row i (← gets (λ p. p.rows))) not_found
    raise_if (not m.inst.tls_enabled) tls_disabled
    change_row i (λ r. record r {
      inst = record r.inst { tls_cert_enc = w.encrypt cert; tls_key_enc = w.encrypt key };
    })
    node ← instance_node m
    run w (connect node.id)
    run w (install_file node.id (codes "cert"))
    run w (install_file node.id (codes "key"))
    run w (reload_proxy node.id m.inst.name)
