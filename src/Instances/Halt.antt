-- ===== src/Instances/Halt.antt =====
-- What a stop and a delete leave behind, however they end.
use spark_controlplane.Prelude.{ℕ, ◌≡◌, refl, ◌⊎◌, inl, inr, none, some, ◌∷◌, Option-cases, nat_eq}
use spark_controlplane.Portal.{
  Managed, Command, Failure, Portal, Result, World, pure, raise, gets, or_raise, ◌>>=◌, ◌>>◌, Done,
  finally, find_row, change_row, ok, err,
}
use spark_controlplane.Models.{stopped}
use spark_controlplane.Instances.Lifecycle.{owned, halted, stop_units, stop_owned, stop_instance}
use spark_controlplane.Instances.Endings.{Ends, >>=-Ends}
use spark_controlplane.Instances.Frames.{
  Keeps, >>=-Keeps, >>-Keeps, head_node-Keeps, worker_nodes-Keeps, instance_node-Keeps, if-Keeps,
  stop_served-Keeps, stop_workers-Keeps,
}
use spark_controlplane.Instances.Rows.{
  Others, change-Others, find_row-change, same-Others, run-Others,
}
use spark_controlplane.Instances.Outcome.{Untouched, freed-Untouched}

abbrev Same : ℕ → Portal → Portal → Type 0
Same i p q = (q.rows ≡ p.rows) × Others i p q

abbrev Halted : ℕ → Portal → Result Done → Portal → Type 0
Halted i p (ok u) q =
    ((r : Managed) × (find_row i q.rows ≡ some r)
      × (r.inst.status ≡ stopped)
      × (r.inst.started_at ≡ none))
    × Others i p q
Halted i p (err e) q = Same i p q

module _ (w : World) (i : ℕ) (p : Portal) where
  Same-blind : (c : Command) (q : Portal) → Same i p q → Same i p (record q { done = c ∷ q.done })
  Same-blind c q (same, o) = (same, run-Others i p c q o)

  stop_units-Keeps : (m : Managed) → Keeps (Same i p) (stop_units w m)
  unfolding stop_units
  stop_units-Keeps m =
      if-Keeps _
        (>>=-Keeps (head_node-Keeps (Same i p)) λ head.
          >>=-Keeps (worker_nodes-Keeps (Same i p) head) λ workers.
            >>-Keeps (stop_served-Keeps w (Same i p) Same-blind m _ head)
              (stop_workers-Keeps w (Same i p) Same-blind _ workers))
        (>>=-Keeps (instance_node-Keeps (Same i p) m)
          λ node. stop_served-Keeps w (Same i p) Same-blind m _ node)

  halt-Ends :
      (m : Managed)
      → find_row i p.rows ≡ some m
      → Ends (Same i p) (Halted i p) (change_row i halted)
  unfolding change_row
  halt-Ends m found = record {
    ends = λ q (same, o). (
      (halted m, find_row-change i halted q.rows {m = m} (λ r. refl) (rw same found), refl, refl),
      change-Others i halted p q (λ r. refl) o,
    );
  }

  stop_owned-Halted : Halted i p (stop_owned w i p).0 (stop_owned w i p).1
  unfolding stop_owned gets or_raise raise pure ◌>>=◌ ◌>>◌
  stop_owned-Halted = elim (Option-cases (find_row i p.rows)) [
    | inl absent ↦ rw absent (refl, same-Others i p)
    | inr (m, found) ↦ rw found (
        (>>=-Ends (stop_units w m) _ (stop_units-Keeps m) (λ _. halt-Ends m found)
            (λ e q s. s)).ends
          p (refl, same-Others i p))
  ]

freed-Halted :
    (i : ℕ) (p : Portal) (r : Result Done) (q : Portal)
    → Halted i p r q
    → ((e : Failure) × (r ≡ err e) × (q.rows ≡ p.rows))
      ⊎ ((r ≡ ok tt)
          × (m : Managed) × (find_row i q.rows ≡ some m)
          × (m.inst.status ≡ stopped)
          × (m.inst.started_at ≡ none))
freed-Halted i p (ok u) q h = let (m, found, halt, start) = h.0 in inr (refl, m, found, halt, start)
freed-Halted i p (err e) q h = inl (e, refl, h.0)

Halted-Others : (i : ℕ) (p : Portal) (r : Result Done) (q : Portal) → Halted i p r q → Others i p q
Halted-Others i p (ok u) q h = h.1
Halted-Others i p (err e) q h = h.1

-- Whatever the world answers, a stop job ends with its instance free and every other instance,
-- endpoint and promotion as it was: either it succeeds and the row is stopped without a start
-- time, or it raises and all rows are as they were.
pub stop_instance-Ended :
    (w : World) (i job : ℕ) (p : Portal)
    → let end = stop_instance w job i p in
      Untouched i p end.1
      × (((e : Failure) × (end.0 ≡ err e) × (end.1.rows ≡ p.rows))
          ⊎ ((end.0 ≡ ok tt)
              × (m : Managed) × (find_row i end.1.rows ≡ some m)
              × (m.inst.status ≡ stopped)
              × (m.inst.started_at ≡ none)))
unfolding stop_instance finally
stop_instance-Ended w i job p =
    let end = stop_owned w i (owned i "stop" job p) in
    let h = stop_owned-Halted w i (owned i "stop" job p) in
    (
      freed-Untouched i job "stop" p end.1 (Halted-Others i (owned i "stop" job p) end.0 end.1 h),
      freed-Halted i (owned i "stop" job p) end.0 end.1 h,
    )
