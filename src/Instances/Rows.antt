-- ===== src/Instances/Rows.antt =====
-- What a job says of the rows: that of its own instance, and all others.
use spark_controlplane.Prelude.{
  ℕ, ◌≡◌, ◌≢◌, refl, inl, inr, some, List, [], ◌∷◌, arith, Bool-cases, nat_beq_iff, ◌==◌, nat_eq,
}
use spark_controlplane.Portal.{Managed, Command, Portal, find_row, change}
use spark_controlplane.Models.{Instance}

-- A change that keeps the id.
abbrev pub KeepsId : (Managed → Managed) → Type 0
KeepsId f = (m : Managed) → (f m).inst.id ≡ m.inst.id

pub find_row-change :
    (i : ℕ) (f : Managed → Managed) (ms : List Managed) {m : Managed}
    → KeepsId f
    → find_row i ms ≡ some m
    → find_row i (change i f ms) ≡ some (f m)
unfolding find_row change
find_row-change i f [] h e = cc
find_row-change i f (x ∷ ms) {m = m} h e = elim (Bool-cases (x.inst.id == i)) [
  | inl same ↦ ground (arith, h x, nat_beq_iff x.inst.id i, nat_beq_iff (f x).inst.id i)
  | inr other ↦ ground (arith, find_row-change i f ms {m = m} h)
]

pub find_row-change_other :
    (i j : ℕ) (f : Managed → Managed) (ms : List Managed)
    → KeepsId f
    → j ≢ i
    → find_row j (change i f ms) ≡ find_row j ms
unfolding find_row change
find_row-change_other i j f [] h e = refl
find_row-change_other i j f (x ∷ ms) h e = elim (Bool-cases (x.inst.id == i)) [
  | inl same ↦ ground (
    arith,
    h x,
    nat_beq_iff x.inst.id i,
    nat_beq_iff x.inst.id j,
    find_row-change_other i j f ms h e,
  )
  | inr other ↦ ground (arith, find_row-change_other i j f ms h e)
]

-- The tables, but for the row of one instance.
pub record Others (i : ℕ) (p q : Portal) : Type 0 where
  pub other_rows : (j : ℕ) → j ≢ i → find_row j q.rows ≡ find_row j p.rows
  pub same_nodes : q.nodes ≡ p.nodes
  pub same_models : q.model_states ≡ p.model_states
  pub same_registry : q.registry ≡ p.registry
  pub same_endpoints : q.endpoints ≡ p.endpoints
  pub same_promotions : q.promotions ≡ p.promotions

-- The row of the instance, and the tables otherwise as in `p`.
pub record Stands (i : ℕ) (x : Instance) (p q : Portal) : Type 0 where
  pub row : Managed
  pub found : find_row i q.rows ≡ some row
  pub same_inst : row.inst ≡ x
  pub others : Others i p q

pub change-Others :
    (i : ℕ) (f : Managed → Managed) (p q : Portal)
    → KeepsId f
    → Others i p q
    → Others i p (record q { rows = change i f q.rows })
change-Others i f p q h o = record {
  other_rows = λ j ne. ground (arith, find_row-change_other i j f q.rows h ne, o.other_rows j ne);
  same_nodes = o.same_nodes;
  same_models = o.same_models;
  same_registry = o.same_registry;
  same_endpoints = o.same_endpoints;
  same_promotions = o.same_promotions;
}

pub change-Stands :
    (i : ℕ) (f : Managed → Managed) (x : Instance) (p q : Portal)
    → ((m : Managed) → (f m).inst ≡ m.inst)
    → Stands i x p q
    → Stands i x p (record q { rows = change i f q.rows })
change-Stands i f x p q h s = record {
  row = f s.row;
  found = find_row-change i f q.rows (λ m. ground (arith, h m)) s.found;
  same_inst = ground (arith, h s.row, s.same_inst);
  others = change-Others i f p q (λ m. ground (arith, h m)) s.others;
}

pub same-Others : (i : ℕ) (p : Portal) → Others i p p
same-Others i p = record {
  other_rows = λ j ne. refl;
  same_nodes = refl;
  same_models = refl;
  same_registry = refl;
  same_endpoints = refl;
  same_promotions = refl;
}

pub run-Others :
    (i : ℕ) (p : Portal) (c : Command) (q : Portal)
    → Others i p q
    → Others i p (record q { done = c ∷ q.done })
run-Others i p c q o = record {
  other_rows = o.other_rows;
  same_nodes = o.same_nodes;
  same_models = o.same_models;
  same_registry = o.same_registry;
  same_endpoints = o.same_endpoints;
  same_promotions = o.same_promotions;
}
