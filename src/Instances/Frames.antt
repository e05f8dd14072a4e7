-- ===== src/Instances/Frames.antt =====
-- What the commands of a job leave as it is: `Keeps P m` says that `m` keeps `P`, however it ends.
use spark_controlplane.Prelude.{
  String, inl, inr, Bool, true, false, Option, none, some, List, [], ◌∷◌, Option-cases, nat_eq,
  if◌then◌else◌,
}
use spark_controlplane.Portal.{
  Node, Managed, Command, Failure, Portal, Result, World, Action, pure, raise, gets, lift, or_raise,
  ◌>>=◌, ◌>>◌, raise_if, run, ok, err,
}
use spark_controlplane.Text.{Text}
use spark_controlplane.Instances.{
  head_node, worker_nodes, instance_node, ensure_model_present, deploy_tls_proxy, start_workers,
  start_scripted, start_distributed, launch, members_of, stop_workers, stop_served,
}

pub record Keeps {A : Type 0} (P : Portal → Type 0) (m : Action A) : Type 0 where
  pub kept : (p : Portal) → P p → P (m p).1

module _ {P : Portal → Type 0} {A : Type 0} where
  pub pure-Keeps : (a : A) → Keeps P (pure a)
  unfolding pure
  pure-Keeps a = record { kept = λ p h. h }

  pub raise-Keeps : (e : Failure) → Keeps {A = A} P (raise e)
  unfolding raise
  raise-Keeps e = record { kept = λ p h. h }

  pub gets-Keeps : (f : Portal → A) → Keeps P (gets f)
  unfolding gets
  gets-Keeps f = record { kept = λ p h. h }

  pub lift-Keeps : (r : Result A) → Keeps P (lift r)
  unfolding lift
  lift-Keeps r = record { kept = λ p h. h }

  pub or_raise-Keeps : (o : Option A) (e : Failure) → Keeps P (or_raise o e)
  unfolding or_raise
  or_raise-Keeps none e = raise-Keeps e
  or_raise-Keeps (some a) e = pure-Keeps a

  pub if-Keeps : (b : Bool) {m k : Action A} → Keeps P m → Keeps P k → Keeps P (if b then m else k)
  if-Keeps true h k = h
  if-Keeps false h k = k

pub raise_if-Keeps : {P : Portal → Type 0} (b : Bool) (e : Failure) → Keeps P (raise_if b e)
unfolding raise_if
raise_if-Keeps b e = record { kept = λ p h. h }

module _ {P : Portal → Type 0} {A B : Type 0} where
  bind_result :
      (r : Result A) (q : Portal) (f : A → Action B)
      → P q
      → ((a : A) → Keeps P (f a))
      → P ((lift r >>= f) q).1
  unfolding lift ◌>>=◌ raise
  bind_result (ok a) q f h k = (k a).kept q h
  bind_result (err e) q f h k = h

  pub >>=-Keeps :
      {m : Action A} {f : A → Action B} → Keeps P m → ((a : A) → Keeps P (f a)) → Keeps P (m >>= f)
  unfolding ◌>>=◌ lift
  >>=-Keeps {m = m} {f = f} h k = record {
    kept = λ p x. bind_result (m p).0 (m p).1 f (h.kept p x) k;
  }

pub >>-Keeps :
    {P : Portal → Type 0} {A B : Type 0} {m : Action A} {k : Action B}
    → Keeps P m
    → Keeps P k
    → Keeps P (m >> k)
unfolding ◌>>◌
>>-Keeps h k = >>=-Keeps h λ _. k

pub ruleset keeps = (
  pure-Keeps, raise-Keeps, gets-Keeps, lift-Keeps, or_raise-Keeps, if-Keeps, raise_if-Keeps,
  >>=-Keeps, >>-Keeps,
)

module _ (P : Portal → Type 0) where
  pub head_node-Keeps : Keeps P head_node
  unfolding head_node
  head_node-Keeps = search keeps

  pub instance_node-Keeps : (m : Managed) → Keeps P (instance_node m)
  unfolding instance_node
  instance_node-Keeps m = search (keeps, head_node-Keeps)

  pub ensure_model_present-Keeps :
      (m : Managed) (ns : List Node) → Keeps P (ensure_model_present m ns)
  unfolding ensure_model_present
  ensure_model_present-Keeps m [] = search keeps
  ensure_model_present-Keeps m (n ∷ ns) =
      >>=-Keeps (gets-Keeps _)
        λ states. >>-Keeps (raise_if-Keeps _ _) (ensure_model_present-Keeps m ns)

-- A property that no command touches.
module _ (w : World) (P : Portal → Type 0)
    (blind : (c : Command) (p : Portal) → P p → P (record p { done = c ∷ p.done })) where
  pub run-Keeps : (c : Command) → Keeps P (run w c)
  unfolding run
  run-Keeps c = record {
    kept = λ p h. elim (Option-cases (w.outcome p.done c)) [
      | inl fine ↦ rw (run, fine) (blind c p h)
      | inr (text, raised) ↦ rw (run, raised) (blind c p h)
    ];
  }

  pub start_scripted-Keeps : (m : Managed) (n : Node) → Keeps P (start_scripted w m n)
  unfolding start_scripted
  start_scripted-Keeps m n = search (keeps, run-Keeps)

  pub start_workers-Keeps : (m : Managed) (ns : List Node) → Keeps P (start_workers w m ns)
  unfolding start_workers
  start_workers-Keeps m [] = search keeps
  start_workers-Keeps m (n ∷ ns) =
      >>-Keeps (run-Keeps _)
        (>>-Keeps (run-Keeps _) (>>-Keeps (run-Keeps _) (start_workers-Keeps m ns)))

  pub deploy_tls_proxy-Keeps : (m : Managed) (n : Node) → Keeps P (deploy_tls_proxy w m n)
  unfolding deploy_tls_proxy
  deploy_tls_proxy-Keeps m n = search (keeps, run-Keeps) depth 30

  pub start_distributed-Keeps :
      (m : Managed) (head : Node) (workers : List Node)
      → Keeps P (start_distributed w m head workers)
  unfolding start_distributed
  start_distributed-Keeps m head workers =
      search (keeps, ensure_model_present-Keeps, start_workers-Keeps, start_scripted-Keeps) depth 30

  pub launch-Keeps :
      (m : Managed) (members : Option (Node × List Node)) → Keeps P (launch w m members)
  unfolding launch
  launch-Keeps m (some (head, workers)) = if-Keeps _ (start_distributed-Keeps m head workers) (
      >>-Keeps (ensure_model_present-Keeps P m (head ∷ workers))
        (>>-Keeps (run-Keeps _) (run-Keeps _)))
  launch-Keeps m none = >>=-Keeps (gets-Keeps _) λ nodes.
      >>=-Keeps (or_raise-Keeps _ _)
        λ node. >>-Keeps (ensure_model_present-Keeps P m (node ∷ [])) (start_scripted-Keeps m node)

  pub stop_workers-Keeps : (name : String) (ns : List Node) → Keeps P (stop_workers w name ns)
  unfolding stop_workers
  stop_workers-Keeps name [] = search keeps
  stop_workers-Keeps name (n ∷ ns) =
      >>-Keeps (run-Keeps _) (>>-Keeps (run-Keeps _) (stop_workers-Keeps name ns))

  pub stop_served-Keeps :
      (m : Managed) (unit_name : Text) (n : Node) → Keeps P (stop_served w m unit_name n)
  unfolding stop_served
  stop_served-Keeps m unit_name n = search (keeps, run-Keeps) depth 30

module _ (P : Portal → Type 0) where
  pub worker_nodes-Keeps : (head : Node) → Keeps P (worker_nodes head)
  unfolding worker_nodes
  worker_nodes-Keeps head = search keeps

  pub members_of-Keeps : (m : Managed) → Keeps P (members_of m)
  unfolding members_of
  members_of-Keeps m = search (keeps, head_node-Keeps) depth 30
