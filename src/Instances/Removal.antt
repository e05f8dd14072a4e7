-- ===== src/Instances/Removal.antt =====
-- What a delete leaves behind.
use spark_controlplane.Prelude.{
  ℕ, ◌≡◌, ◌≢◌, refl, inl, inr, String, Option, none, some, List, [], ◌∷◌, arith, All, Option-cases,
  nat_beq_iff, nat_eq, map,
}
use spark_controlplane.Portal.{
  Node, Managed, EndpointRow, Command, Portal, Result, World, pure, gets, or_raise, ◌>>=◌, ◌>>◌,
  Done, modify, attempt, find_row, ok, err,
}
use spark_controlplane.Instances.Lifecycle.{
  delete_instance, clean_up, deleted, remove_workers, without_row, unlink_endpoint, unlink,
}
use spark_controlplane.Instances.Frames.{
  Keeps, keeps, >>-Keeps, run-Keeps, head_node-Keeps, instance_node-Keeps,
}

find_row-without_row : (i : ℕ) (ms : List Managed) → find_row i (without_row i ms) ≡ none
unfolding find_row
find_row-without_row i [] = refl
find_row-without_row i (m ∷ ms) = ground (arith, find_row-without_row i ms)

find_row-without_row_other :
    (i j : ℕ) (ms : List Managed) → j ≢ i → find_row j (without_row i ms) ≡ find_row j ms
unfolding find_row
find_row-without_row_other i j [] ne = refl
find_row-without_row_other i j (m ∷ ms) ne =
    ground (
      arith,
      find_row-without_row_other i j ms ne,
      nat_beq_iff m.inst.id i,
      nat_beq_iff m.inst.id j,
    )

unlink-ne : (i : ℕ) (o : Option ℕ) → unlink i o ≢ some i
unlink-ne i none e = cc
unlink-ne i (some j) e = ground (arith, nat_beq_iff j i)

All-unlink_endpoint :
    (i : ℕ) (es : List EndpointRow)
    → All (λ e. e.current_instance_id ≢ some i) (map (unlink_endpoint i) es)
All-unlink_endpoint i [] = tt
All-unlink_endpoint i (e ∷ es) = (unlink-ne i e.current_instance_id, All-unlink_endpoint i es)

module _ (w : World) (P : Portal → Type 0)
    (blind : (c : Command) (p : Portal) → P p → P (record p { done = c ∷ p.done })) where
  remove_workers-Keeps : (name : String) (ns : List Node) → Keeps P (remove_workers w name ns)
  unfolding remove_workers
  remove_workers-Keeps name [] = search keeps
  remove_workers-Keeps name (n ∷ ns) =
      >>-Keeps (run-Keeps w P blind _)
        (>>-Keeps (run-Keeps w P blind _) (remove_workers-Keeps name ns))

  clean_up-Keeps : (m : Managed) → Keeps P (clean_up w m)
  unfolding clean_up
  clean_up-Keeps m =
      search
        (keeps, run-Keeps w P blind, head_node-Keeps, instance_node-Keeps, remove_workers-Keeps)
        depth 40

-- The rows without the instance's, with no endpoint served by it.
pub record Removed (i : ℕ) (p q : Portal) : Type 0 where
  pub is_gone : find_row i q.rows ≡ none
  pub other_rows : (j : ℕ) → j ≢ i → find_row j q.rows ≡ find_row j p.rows
  pub not_current : All (λ e. e.current_instance_id ≢ some i) q.endpoints

deleted-Removed : (i : ℕ) (p q : Portal) → q.rows ≡ p.rows → Removed i p (deleted i q)
deleted-Removed i p q same = record {
  is_gone = find_row-without_row i q.rows;
  other_rows = λ j ne. rw (find_row-without_row_other i j q.rows ne, same) refl;
  not_current = All-unlink_endpoint i q.endpoints;
}

-- A failed clean-up is only logged.
go_on :
    (i : ℕ) (p : Portal) (r : Result Done) (q : Portal)
    → (attempt (λ _. (r, q)) (λ e. pure tt) >> modify (deleted i)) p ≡ (ok tt, deleted i q)
unfolding attempt pure modify ◌>>◌ ◌>>=◌
go_on i p (ok u) q = refl
go_on i p (err e) q = refl

-- A delete of a known instance succeeds whatever its clean-up raises: the row is gone, every
-- other row is as it was, and no endpoint is served by the instance.
pub delete_instance-Removed :
    (w : World) (i : ℕ) (p : Portal)
    → find_row i p.rows ≢ none
    → ((delete_instance w i p).0 ≡ ok tt) × Removed i p (delete_instance w i p).1
unfolding delete_instance gets or_raise pure ◌>>=◌ ◌>>◌ attempt modify
delete_instance-Removed w i p known = elim (Option-cases (find_row i p.rows)) [
  | inl absent ↦ elim (known absent) [ ]
  | inr (m, found) ↦
      let end = clean_up w m p in
      let same : end.1.rows ≡ p.rows =
        (clean_up-Keeps w (λ q. q.rows ≡ p.rows) (λ c q h. h) m).kept p refl in
      rw (found, go_on i p end.0 end.1) (refl, deleted-Removed i p end.1 same)
]
