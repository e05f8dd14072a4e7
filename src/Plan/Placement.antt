-- ===== src/Plan/Placement.antt =====
-- Where plan_instance of plan.py places a model.
use spark_controlplane.Prelude.{
  ℕ, ◌+◌, ◌≤◌, ◌≡◌, ◌≢◌, refl, sym, ap, ◌∙◌, Bool, true, false, Option, none, some, List, [], ◌∷◌,
  ◌⊎◌, inl, inr, All, All-keep_if, length, keep_if, arith, Option-cases, Bool-cases, leb, ◌==◌,
  nat_eq, if◌then◌else◌,
}
use spark_controlplane.Models.{Topology, cluster, single, distributed}
use spark_controlplane.Plan.{
  ModelFacts, NodeFacts, free, need, min_kv, holders, candidates, insert, sort, head, roomiest,
  least_free,
}
use spark_controlplane.Plan.Choice.{
  Choice, derived_target, pinned_target, target, multi_ok, fall_back, choose,
}

-- The nodes of a choice: one, which is named, or all that hold the weights, two at least.
pub IsPlaced : ModelFacts → List NodeFacts → Choice → Type 0
IsPlaced model nodes c =
    ((n : NodeFacts) × (c.topology ≡ single) × (c.span ≡ n ∷ []) × (c.node_id ≡ some n.node_id))
    ⊎ ((c.topology ≢ single)
        × (c.span ≡ holders model nodes)
        × (2 ≤ length c.span)
        × (c.node_id ≡ none))

multi_ok-two :
    (model : ModelFacts) (force : Option Topology) (nodes : List NodeFacts)
    → multi_ok model force nodes ≡ true
    → 2 ≤ length (holders model nodes)
unfolding multi_ok
multi_ok-two model none nodes h = ground arith
multi_ok-two model (some single) nodes h = ground arith
multi_ok-two model (some cluster) nodes h = ground arith
multi_ok-two model (some distributed) nodes h = ground arith

pub choose-IsPlaced :
    (model : ModelFacts) (force : Option Topology) (pin : Option ℕ) (per_node : ℕ)
    (nodes : List NodeFacts) (c : Choice)
    → choose model force pin per_node nodes ≡ some c
    → IsPlaced model nodes c
unfolding choose IsPlaced fall_back
choose-IsPlaced model force pin per_node nodes c h =
    elim (Option-cases (target model force pin per_node nodes)) [
      | inl e ↦ ground arith
      | inr (none, e) ↦ elim (Bool-cases (multi_ok model force nodes)) [
        | inl ok ↦ inr (ground (arith, multi_ok-two model force nodes ok))
        | inr few ↦ elim (Option-cases (roomiest per_node (candidates model nodes))) [
          | inl f ↦ ground arith
          | inr (n, f) ↦ inl (n, ground arith, ground arith, ground arith)
        ]
      ]
      | inr (some n, e) ↦ inl (n, ground arith, ground arith, ground arith)
    ]

roomiest-some :
    (per_node : ℕ) (ns : List NodeFacts) → (length ns == 0) ≡ false → roomiest per_node ns ≢ none
unfolding roomiest
roomiest-some per_node [] h = ground arith
roomiest-some per_node (n ∷ ns) h = elim (Option-cases (roomiest per_node ns)) [
  | inl e ↦ ground arith
  | inr (m, e) ↦ ground arith
]

candidates-some :
    (model : ModelFacts) (nodes : List NodeFacts)
    → (length nodes == 0) ≡ false
    → (length (candidates model nodes) == 0) ≡ false
unfolding candidates holders
candidates-some model [] h = ground arith
candidates-some model (n ∷ ns) h = ground arith

least_free-some :
    (per_node : ℕ) (ns : List NodeFacts) → (length ns == 0) ≡ false → least_free per_node ns ≢ none
unfolding least_free
least_free-some per_node [] h = ground arith
least_free-some per_node (n ∷ ns) h = elim (Option-cases (least_free per_node ns)) [
  | inl e ↦ ground arith
  | inr (m, e) ↦ ground arith
]

target-some :
    (model : ModelFacts) (force : Option Topology) (pin : Option ℕ) (per_node : ℕ)
    (nodes : List NodeFacts)
    → (length nodes == 0) ≡ false
    → target model force pin per_node nodes ≢ none
unfolding target pinned_target
target-some model none pin per_node nodes h = ground arith
target-some model (some single) none per_node nodes h =
    ground (arith, roomiest-some per_node (candidates model nodes), candidates-some model nodes h)
target-some model (some single) (some id) per_node nodes h =
    ground (arith, roomiest-some per_node (candidates model nodes), candidates-some model nodes h)
target-some model (some cluster) pin per_node nodes h = ground arith
target-some model (some distributed) pin per_node nodes h = ground arith

pub choose-some :
    (model : ModelFacts) (force : Option Topology) (pin : Option ℕ) (per_node : ℕ)
    (nodes : List NodeFacts)
    → (length nodes == 0) ≡ false
    → choose model force pin per_node nodes ≢ none
unfolding choose
choose-some model force pin per_node nodes h =
    elim (Option-cases (target model force pin per_node nodes)) [
      | inl e ↦ ground (arith, target-some model force pin per_node nodes h)
      | inr (none, e) ↦
          ground
            (arith, roomiest-some per_node (candidates model nodes), candidates-some model nodes h)
      | inr (some n, e) ↦ ground arith
    ]

pub placed-least :
    (model : ModelFacts) (per_node : ℕ) (nodes : List NodeFacts) (c : Choice)
    → IsPlaced model nodes c
    → least_free per_node c.span ≢ none
unfolding IsPlaced
placed-least model per_node nodes c (inl (n, t, span, id)) =
    least_free-some per_node c.span (rw span refl)
placed-least model per_node nodes c (inr (t, span, two, id)) =
    least_free-some per_node c.span (ground arith)

-- The size of a node's room that the model needs: the weights and a useful cache.
abbrev pub fits : ℕ → ModelFacts → ℕ → NodeFacts → Bool
fits per_node model n m = leb (n + min_kv model) (free per_node m)

head-insert :
    (per_node : ℕ) (n : NodeFacts) (ns : List NodeFacts)
    → head (insert per_node n ns) ≡ elim (head ns) [
      | none ↦ some n
      | some m ↦ some (if leb (free per_node m) (free per_node n) then n else m)
    ]
unfolding insert
head-insert per_node n [] = refl
head-insert per_node n (m ∷ ms) = ground arith

head-sort : (per_node : ℕ) (ns : List NodeFacts) → head (sort per_node ns) ≡ roomiest per_node ns
unfolding sort roomiest
head-sort per_node [] = refl
head-sort per_node (n ∷ ns) =
    rw (head-insert per_node n (sort per_node ns), head-sort per_node ns) refl

roomiest-none :
    (per_node bound : ℕ) (ns : List NodeFacts)
    → roomiest per_node ns ≡ none
    → All (λ m. free per_node m ≤ bound) ns
unfolding roomiest
roomiest-none per_node bound [] h = tt
roomiest-none per_node bound (n ∷ ns) h = elim (Option-cases (roomiest per_node ns)) [
  | inl e ↦ ground arith
  | inr (m, e) ↦ ground arith
]

roomiest-best :
    (per_node bound : ℕ) (ns : List NodeFacts) (t : NodeFacts)
    → roomiest per_node ns ≡ some t
    → free per_node t ≤ bound
    → All (λ m. free per_node m ≤ bound) ns
unfolding roomiest
roomiest-best per_node bound [] t h le = tt
roomiest-best per_node bound (n ∷ ns) t h le = elim (Option-cases (roomiest per_node ns)) [
  | inl e ↦ (ground arith, roomiest-none per_node bound ns e)
  | inr (m, e) ↦ (ground arith, roomiest-best per_node bound ns m e (ground arith))
]

roomiest_first :
    (per_node : ℕ) (n : NodeFacts) (ns : List NodeFacts) (t : NodeFacts)
    → roomiest per_node (n ∷ ns) ≡ some t
    → (n ≡ t) ⊎ (roomiest per_node ns ≡ some t)
unfolding roomiest
roomiest_first per_node n ns t h = elim (Option-cases (roomiest per_node ns)) [
  | inl e ↦ ground arith
  | inr (m, e) ↦ ground arith
]

roomiest-satisfies :
    (per_node : ℕ) (p : NodeFacts → Bool) (ns : List NodeFacts) (t : NodeFacts)
    → roomiest per_node (keep_if p ns) ≡ some t
    → p t ≡ true
unfolding roomiest
roomiest-satisfies per_node p [] t h = ground arith
roomiest-satisfies per_node p (n ∷ ns) t h = elim (Bool-cases (p n)) [
  | inl e ↦ elim (roomiest_first per_node n (keep_if p ns) t (ground arith)) [
    | inl same ↦ ap p (sym same) ∙ e
    | inr later ↦ roomiest-satisfies per_node p ns t later
  ]
  | inr e ↦ roomiest-satisfies per_node p ns t (ground arith)
]

-- The node that the planner itself picks for a model of known size has room for the weights and a
-- useful cache, and no other candidate with that room has more free memory.
pub derived_target-best :
    (model : ModelFacts) (per_node n : ℕ) (nodes : List NodeFacts) (t : NodeFacts)
    → need model ≡ some n
    → derived_target model per_node nodes ≡ some t
    → (fits per_node model n t ≡ true)
      × All (λ m. fits per_node model n m ≡ true → free per_node m ≤ free per_node t) nodes
unfolding derived_target
derived_target-best model per_node n nodes t size h =
    let found : roomiest per_node (keep_if (fits per_node model n) nodes) ≡ some t =
      sym (head-sort per_node (keep_if (fits per_node model n) nodes)) ∙ ground (arith, size) in
    (
      roomiest-satisfies per_node (fits per_node model n) nodes t found,
      All-keep_if (λ m. free per_node m ≤ free per_node t) (fits per_node model n) nodes
          (roomiest-best per_node (free per_node t) (keep_if (fits per_node model n) nodes) t found
            (omega arith)),
    )
