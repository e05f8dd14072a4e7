-- ===== src/Instances/Start.antt =====
-- How a start job ends.
use spark_controlplane.Prelude.{
  ℕ, ◌≡◌, refl, inl, inr, Bool, true, false, Option, none, some, List, ◌∷◌, arith, Bool-cases,
  nat_eq,
}
use spark_controlplane.Portal.{
  Node, Managed, Command, Failure, Portal, Result, World, pure, raise, gets, ◌>>=◌, ◌>>◌, attempt,
  find_row, change, change_row, connect, ok, err,
}
use spark_controlplane.Models.{Instance, starting, running, error, other_text}
use spark_controlplane.Text.{Text}
use spark_controlplane.Instances.{instance_unit_name, stream_startup_logs}
use spark_controlplane.Instances.Lifecycle.{
  claimed, confirmed, failing, await_health, serve, start_claimed,
}
use spark_controlplane.Instances.Endings.{Ends, >>=-Ends}
use spark_controlplane.Instances.Frames.{
  Keeps, run-Keeps, launch-Keeps, deploy_tls_proxy-Keeps, instance_node-Keeps,
}
use spark_controlplane.Instances.Rows.{
  Others, Stands, change-Others, change-Stands, find_row-change, run-Others, same-Others,
}

-- The row once /health is green: running, with the time of the answer, else as claimed.
pub record Serving (w : World) (i : ℕ) (x : Instance) (p q : Portal) : Type 0 where
  pub row : Managed
  pub found : find_row i q.rows ≡ some row
  pub is_running : row.inst.status ≡ running
  pub same_start : row.inst.started_at ≡ x.started_at
  pub same_error : row.inst.last_error ≡ x.last_error
  pub was_healthy : row.inst.last_healthy_at ≡ some (w.now q.done)
  pub others : Others i p q

abbrev Served : World → ℕ → Instance → Portal → Result Bool → Portal → Type 0
Served w i x p (ok true) q = Serving w i x p q
Served w i x p (ok false) q = Stands i x p q
Served w i x p (err e) q = Stands i x p q

Stands-blind :
    (i : ℕ) (x : Instance) (p : Portal) (c : Command) (q : Portal)
    → Stands i x p q
    → Stands i x p (record q { done = c ∷ q.done })
Stands-blind i x p c q s = record {
  row = s.row;
  found = s.found;
  same_inst = s.same_inst;
  others = run-Others i p c q s.others;
}

confirm-Serving :
    (w : World) (i : ℕ) (x : Instance) (p q : Portal)
    → Stands i x p q
    → Serving w i x p (record q { rows = change i (confirmed (w.now q.done)) q.rows })
confirm-Serving w i x p q s =
    let t = w.now q.done in
    record {
      row = confirmed t s.row;
      found = find_row-change i (confirmed t) q.rows (λ m. refl) s.found;
      is_running = refl;
      same_start = ground (arith, s.same_inst);
      same_error = ground (arith, s.same_inst);
      was_healthy = refl;
      others = change-Others i (confirmed t) p q (λ m. refl) s.others;
    }

module _ (w : World) (i : ℕ) (x : Instance) (p : Portal) where
  await_health-Ends : Ends (Stands i x p) (Served w i x p) (await_health w i)
  unfolding await_health ◌>>=◌ ◌>>◌ gets change_row pure
  await_health-Ends = record {
    ends = λ q s. elim (Bool-cases (stream_startup_logs 0 (w.health q.done))) [
      | inl healthy ↦ rw healthy (confirm-Serving w i x p q s)
      | inr waiting ↦ rw waiting s
    ];
  }

  stays : (e : Failure) (q : Portal) → Stands i x p q → Served w i x p (err e) q
  stays e q s = s

  unit-Keeps :
      (name : Text)
      → Keeps (Stands i x p) (change_row i (λ r. record r { systemd_unit = some name }))
  unfolding change_row
  unit-Keeps name = record {
    kept = λ q s. change-Stands i (λ r. record r { systemd_unit = some name }) x p q (λ r. refl) s;
  }

  -- Every part but the last keeps the row and all other tables.
  serve-Ends :
      (m : Managed) (members : Option (Node × List Node))
      → Ends (Stands i x p) (Served w i x p) (serve w i m members)
  unfolding serve ◌>>◌
  serve-Ends m members =
      >>=-Ends _ _ (launch-Keeps w (Stands i x p) (Stands-blind i x p) m members)
        (λ _.
          >>=-Ends _ _ (unit-Keeps (instance_unit_name m.inst.name))
            (λ _.
              >>=-Ends _ _ (instance_node-Keeps (Stands i x p) m)
                (λ n.
                  >>=-Ends _ _ (deploy_tls_proxy-Keeps w (Stands i x p) (Stands-blind i x p) m n)
                    (λ _.
                      >>=-Ends _ _ (run-Keeps w (Stands i x p) (Stands-blind i x p) (connect n.id))
                        (λ _. await_health-Ends) stays)
                    stays)
                stays)
            stays)
        stays

-- The row in which a job ends that claimed it.
abbrev pub Claimed : World → ℕ → Result Bool → Portal → Type 0
Claimed w i (ok true) q =
    (r : Managed) × (find_row i q.rows ≡ some r)
    × (r.inst.status ≡ running)
    × (r.inst.last_error ≡ none)
    × (r.inst.last_healthy_at ≡ some (w.now q.done))
Claimed w i (ok false) q =
    (r : Managed) × (find_row i q.rows ≡ some r)
    × (r.inst.status ≡ starting)
    × (r.inst.last_error ≡ none)
    × (r.inst.last_healthy_at ≡ none)
Claimed w i (err e) q =
    (r : Managed) × (find_row i q.rows ≡ some r)
    × (r.inst.status ≡ error)
    × (r.inst.last_error ≡ some (other_text (w.text e)))

abbrev pub Settled : World → ℕ → Portal → Result Bool → Portal → Type 0
Settled w i p r q = Claimed w i r q × Others i p q

module _ (w : World) (i : ℕ) where
  handle :
      (t : ℕ) (n : Option ℕ) (m : Managed) (p : Portal) (r : Result Bool) (q : Portal)
      → Served w i (claimed t n m).inst p r q
      → let end = attempt (λ _. (r, q)) (λ e. change_row i (failing w e) >> raise e) q in
        Settled w i p end.0 end.1
  unfolding attempt ◌>>=◌ ◌>>◌ change_row raise
  handle t n m p (ok true) q s =
      ((s.row, s.found, s.is_running, s.same_error, s.was_healthy), s.others)
  handle t n m p (ok false) q s = (
    (
      s.row,
      s.found,
      ground (arith, s.same_inst),
      ground (arith, s.same_inst),
      ground (arith, s.same_inst),
    ),
    s.others,
  )
  handle t n m p (err e) q s = (
    (failing w e s.row, find_row-change i (failing w e) q.rows (λ x. refl) s.found, refl, refl),
    change-Others i (failing w e) p q (λ x. refl) s.others,
  )

  pub start_claimed-Settled :
      (t : ℕ) (n : Option ℕ) (m : Managed) (members : Option (Node × List Node)) (p : Portal)
      → find_row i p.rows ≡ some m
      → let end = start_claimed w i (claimed t n) m members p in Settled w i p end.0 end.1
  unfolding start_claimed ◌>>◌ ◌>>=◌ change_row attempt
  start_claimed-Settled t n m members p found =
      let claim : Stands i (claimed t n m).inst p
          (record p { rows = change i (claimed t n) p.rows }) =
        record {
          row = claimed t n m;
          found = find_row-change i (claimed t n) p.rows (λ x. refl) found;
          same_inst = refl;
          others = change-Others i (claimed t n) p p (λ x. refl) (same-Others i p);
        } in
      let end =
        serve w i (claimed t n m) members (record p { rows = change i (claimed t n) p.rows }) in
      handle t n m p end.0 end.1
        ((serve-Ends w i (claimed t n m).inst p (claimed t n m) members).ends _ claim)
