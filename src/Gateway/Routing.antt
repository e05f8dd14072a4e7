-- ===== src/Gateway/Routing.antt =====
-- Which instance the gateway routes to, in gateway.py.
use spark_controlplane.Prelude.{
  ◌≡◌, ◌≢◌, String, Bool, true, false, Option, some, List, [], ◌∷◌, inl, inr, ◌⊎◌, any, All,
  All-keep_if, All-map, keep_if, arith, Option-cases, Bool-cases, ◌==◌, nat_eq, if◌then◌else◌,
}
use mathlib.Core.Path.{subst}
use spark_controlplane.Gateway.Names.{launched-served_names}
use spark_controlplane.Text.{Text, text_beq}
use spark_controlplane.Models.{
  InstStatus, stopped, starting, running, stopping, error, status_eq, status_beq_iff,
}
use spark_controlplane.Gateway.{
  Served, serves, has_own_names, before, insert, order, running_instances, first_serving,
  instance_base_url, BaseUrl, routed, resolve, launched_names, not_serving,
}

-- An instance that does not come before another one that serves the model.
abbrev pub Yields : Text → Served → Served → Type 0
Yields model i j = serves model j ≡ true → before j i ≡ false

-- Before is a strict order of rows whose ids differ; between equal ones it decides nothing.
before_trans : (a b c : Served) → before a b ≡ true → before b c ≡ true → before a c ≡ true
before_trans a b c h k = ground arith

before_or : (a b c : Served) → before a b ≡ false → before b c ≡ false → before a c ≡ false
before_or a b c h k = ground arith

before_asym : (a b : Served) → before a b ≡ true → before b a ≡ false
before_asym a b h = ground arith

before_irrefl : (a : Served) → before a a ≡ false
before_irrefl a = ground arith

abbrev IsOrdered : List Served → Type 0
IsOrdered [] = Unit
IsOrdered (i ∷ is) = All (λ j. before j i ≡ false) is × IsOrdered is

module _ (P : Served → Type 0) where
  insert-All : (i : Served) (js : List Served) → P i → All P js → All P (insert i js)
  unfolding insert
  insert-All i [] p h = (p, tt)
  insert-All i (j ∷ js) p (h, hs) =
      let later : All P (insert i js) = insert-All i js p hs in
      elim (Bool-cases (before j i)) [ inl e ↦ rw e (h, later) | inr e ↦ rw e (p, (h, hs)) ]

  place-All :
      (b : Bool) (i j : Served) (js rest : List Served)
      → All P (if b then j ∷ rest else i ∷ j ∷ js)
      → (All P rest → P i × All P js)
      → P i × All P (j ∷ js)
  place-All true i j js rest (h, hs) f = let (p, k) = f hs in (p, (h, k))
  place-All false i j js rest h f = h

  All-insert : (i : Served) (js : List Served) → All P (insert i js) → P i × All P js
  unfolding insert
  All-insert i [] (p, h) = (p, tt)
  All-insert i (j ∷ js) h = place-All (before j i) i j js (insert i js) h (λ k. All-insert i js k)

  order-All : (is : List Served) → All P is → All P (order is)
  unfolding order
  order-All [] h = tt
  order-All (i ∷ is) (h, hs) = insert-All i (order is) h (order-All is hs)

  All-order : (is : List Served) → All P (order is) → All P is
  unfolding order
  All-order [] h = tt
  All-order (i ∷ is) h = let (p, rest) = All-insert i (order is) h in (p, All-order is rest)

  first_serving-All :
      (model : Text) (is : List Served) (i : Served)
      → first_serving model is ≡ some i
      → All P is
      → P i
  first_serving-All model [] i h k = ground arith
  first_serving-All model (j ∷ js) i h (p, k) = elim (Bool-cases (serves model j)) [
    | inl e ↦ let same : j ≡ i = ground arith in subst P same p
    | inr e ↦ first_serving-All model js i (ground arith) k
  ]

insert-IsOrdered : (i : Served) (js : List Served) → IsOrdered js → IsOrdered (insert i js)
unfolding insert
insert-IsOrdered i [] h = (tt, tt)
insert-IsOrdered i (j ∷ js) (h, hs) = elim (Bool-cases (before j i)) [
  | inl e ↦
      rw e
        (insert-All (λ k. before k j ≡ false) i js (before_asym j i e) h, insert-IsOrdered i js hs)
  | inr e ↦ rw e (
    (
      e,
      All-map (λ k. before k j ≡ false) (λ k. before k i ≡ false) js (λ k f. before_or k j i f e) h,
    ),
    (h, hs),
  )
]

order-IsOrdered : (is : List Served) → IsOrdered (order is)
unfolding order
order-IsOrdered [] = tt
order-IsOrdered (i ∷ is) = insert-IsOrdered i (order is) (order-IsOrdered is)

first_serving-best :
    (model : Text) (is : List Served) (i : Served)
    → IsOrdered is
    → first_serving model is ≡ some i
    → (serves model i ≡ true) × All (Yields model i) is
first_serving-best model [] i o h = ground arith
first_serving-best model (j ∷ js) i (o, os) h = elim (Bool-cases (serves model j)) [
  | inl e ↦
      let same : j ≡ i = ground arith in
      subst (λ x. (serves model x ≡ true) × All (Yields model x) (j ∷ js)) same
        (
          e,
          (
            (λ k. before_irrefl j),
            All-map (λ k. before k j ≡ false) (Yields model j) js (λ k f g. f) o,
          ),
        )
  | inr e ↦
      let (s, rest) = first_serving-best model js i os (ground arith) in
      (s, ((λ k. ground arith), rest))
]

keep_if-All : (p : Served → Bool) (is : List Served) → All (λ i. p i ≡ true) (keep_if p is)
keep_if-All p [] = tt
keep_if-All p (i ∷ is) = elim (Bool-cases (p i)) [
  | inl e ↦ rw e (e, keep_if-All p is)
  | inr e ↦ rw e (keep_if-All p is)
]

not_serving_elsewhere :
    (j i : Served) (status : InstStatus) (url : BaseUrl) → not_serving j status ≢ routed i url
not_serving_elsewhere j i stopped url h = ground arith
not_serving_elsewhere j i starting url h = ground arith
not_serving_elsewhere j i running url h = ground arith
not_serving_elsewhere j i stopping url h = ground arith
not_serving_elsewhere j i error url h = ground arith

first_serving-routed :
    (model : Text) (head : Option String) (rows : List Served) (i : Served) (url : BaseUrl)
    → resolve model head rows ≡ routed i url
    → (first_serving model (running_instances rows) ≡ some i)
      × (instance_base_url i head ≡ some url)
unfolding resolve
first_serving-routed model head rows i url h =
    elim (Option-cases (first_serving model (running_instances rows))) [
      | inl e ↦ elim (Option-cases (first_serving model rows)) [
        | inl f ↦ ground arith
        | inr (k, f) ↦ ground (arith, not_serving_elsewhere k i k.inst.status url)
      ]
      | inr (j, e) ↦ elim (Option-cases (instance_base_url j head)) [
        | inl f ↦ ground arith
        | inr (u, f) ↦ ground arith
      ]
    ]

-- A request is routed only to a running instance whose own names (or the name of its model) hold
-- the model's name, at its own address; its unit is launched with that name, unless the instance
-- is a member of an endpoint with aliases, its extra arguments have a --served-model-name, or the
-- name is empty; and no other running instance that serves the name comes before it: none started
-- later, and none of the same start has a larger id.
pub resolve-newest :
    (model : Text) (head : Option String) (rows : List Served) (i : Served) (url : BaseUrl)
    → resolve model head rows ≡ routed i url
    → (i.inst.status ≡ running)
      × (serves model i ≡ true)
      × ((any (λ n. text_beq n model) (launched_names i) ≡ true)
          ⊎ (i.endpoint_aliases ≢ [])
          ⊎ (has_own_names i.extra_args ≡ true)
          ⊎ (model ≡ []))
      × (instance_base_url i head ≡ some url)
      × All
          (λ j. (j.inst.status == running) ≡ true → serves model j ≡ true → before j i ≡ false)
          rows
unfolding running_instances
resolve-newest model head rows i url h =
    let (found, reached) = first_serving-routed model head rows i url h in
    let is_running = λ (j : Served). j.inst.status == running in
    let live = keep_if is_running rows in
    let (s, best) = first_serving-best model (order live) i (order-IsOrdered live) found in
    let up : (is_running i) ≡ true =
      first_serving-All (λ j. is_running j ≡ true) model (order live) i found
        (order-All (λ j. is_running j ≡ true) live (keep_if-All is_running rows)) in
    (
      (status_beq_iff i.inst.status running).0 up,
      s,
      launched-served_names model i s,
      reached,
      All-keep_if (Yields model i) is_running rows (All-order (Yields model i) live best),
    )
