-- ===== src/Promotion/History.antt =====
-- What the history of an endpoint says after a promotion: one active row, and where a rollback aims.
use spark_controlplane.Prelude.{
  ℕ, ◌≡◌, ◌≤◌, ◌+◌, refl, ◌∙◌, inl, inr, String, false, ◌&&◌, Option, some, List, [], ◌∷◌, ◌++◌,
  arith, Bool-cases, nat_beq_iff, beq_eq, ◌==◌, nat_eq, if◌then◌else◌, map,
}
use spark_controlplane.Portal.{
  EndpointPromotion, EndpointRow, Portal, Result, World, active, ok, err,
}
use spark_controlplane.Promotion.{
  Answer, already_serves, promoted, find_endpoint, current_of, id_of, Handoff, promote, supersede,
  is_active,
}
use spark_controlplane.Promotion.Rollback.{last_active, previous_holder}
use spark_controlplane.Promotion.Ended.{Handed, promote-Ended}

-- The number of active rows of an endpoint.
unfoldable pub actives : ℕ → List EndpointPromotion → ℕ
actives i [] = 0
actives i (r ∷ rs) = (if (r.endpoint_id == i) && is_active r.status then 1 else 0) + actives i rs

abbrev pub IsSingle : List EndpointPromotion → Type 0
IsSingle rs = (i : ℕ) → actives i rs ≤ 1

actives-append :
    (i : ℕ) (rs : List EndpointPromotion) (r : EndpointPromotion)
    → actives i (rs ++ r ∷ []) ≡ actives i rs + actives i (r ∷ [])
unfolding actives
actives-append i [] r = omega arith
actives-append i (x ∷ rs) r = omega (arith, actives-append i rs r)

actives-supersede_self :
    (i : ℕ) (rs : List EndpointPromotion) → actives i (map (supersede i) rs) ≡ 0
unfolding actives
actives-supersede_self i [] = refl
actives-supersede_self i (r ∷ rs) = ground (arith, actives-supersede_self i rs)

actives-supersede_le :
    (i j : ℕ) (rs : List EndpointPromotion) → actives j (map (supersede i) rs) ≤ actives j rs
unfolding actives
actives-supersede_le i j [] = omega arith
actives-supersede_le i j (r ∷ rs) = ground (arith, actives-supersede_le i j rs)

actives-inactive :
    (i : ℕ) (r : EndpointPromotion) → is_active r.status ≡ false → actives i (r ∷ []) ≡ 0
unfolding actives
actives-inactive i r e = ground arith

actives-one_le : (i : ℕ) (r : EndpointPromotion) → actives i (r ∷ []) ≤ 1
unfolding actives
actives-one_le i r = ground arith

actives-other :
    (i : ℕ) (r : EndpointPromotion) → (r.endpoint_id == i) ≡ false → actives i (r ∷ []) ≡ 0
unfolding actives
actives-other i r e = ground arith

IsSingle-after :
    (i : ℕ) (rs : List EndpointPromotion) (r : EndpointPromotion)
    → r.endpoint_id ≡ i
    → IsSingle rs
    → IsSingle (map (supersede i) rs ++ r ∷ [])
IsSingle-after i rs r own single j =
    let split = actives-append j (map (supersede i) rs) r in
    elim (Bool-cases (r.endpoint_id == j)) [
      | inl same ↦
          let none_left : actives j (map (supersede i) rs) ≡ 0 =
            rw⁻¹ (beq_eq r.endpoint_id j same) (rw own (actives-supersede_self i rs)) in
          omega (arith, split, none_left, actives-one_le j r)
      | inr other ↦
          omega (arith, split, actives-other j r other, actives-supersede_le i j rs, single j)
    ]

Handed-IsSingle :
    (h : Handoff) (p : Portal) (r : Result Answer) (q : Portal)
    → Handed h p r q
    → IsSingle p.promotions
    → IsSingle q.promotions
Handed-IsSingle h p (ok already_serves) q handed single = elim handed [ ]
Handed-IsSingle h p (ok promoted) q (t, r, es, rs, act, own, to_it, origin, clear) single =
    rw rs (IsSingle-after h.endpoint.base.id p.promotions r own single)
Handed-IsSingle h p (err e) q (n, es, inl same) single = rw same single
Handed-IsSingle h p (err e) q (n, es, inr (r, rs, inactive)) single =
    rw rs
      (λ j. omega (arith, actives-append j p.promotions r, actives-inactive j r inactive, single j))

-- However a promotion ends, every endpoint has at most one active row if it was so before.
pub promote-IsSingle :
    (w : World) (job endpoint_id instance_id : ℕ) (reason : Option String) (p : Portal)
    → IsSingle p.promotions
    → IsSingle (promote w job endpoint_id instance_id reason p).1.promotions
promote-IsSingle w job endpoint_id instance_id reason p single =
    let end = promote w job endpoint_id instance_id reason p in
    elim (promote-Ended w job endpoint_id instance_id reason p) [
      | inl (h, found, inl (serves, told, same)) ↦ rw same single
      | inl (h, found, inr (other, handed)) ↦ Handed-IsSingle h p end.0 end.1 handed single
      | inr (e, raised, same, n) ↦ rw same single
    ]

last_active-append :
    (i : ℕ) (rs : List EndpointPromotion) (r : EndpointPromotion)
    → r.endpoint_id ≡ i
    → r.status ≡ active
    → last_active i (rs ++ r ∷ []) ≡ some r
unfolding last_active
last_active-append i [] r own act = ground (arith, nat_beq_iff r.endpoint_id i)
last_active-append i (x ∷ rs) r own act = rw (last_active-append i rs r own act) refl

find_endpoint_id :
    (i : ℕ) (es : List EndpointRow) (e : EndpointRow) → find_endpoint i es ≡ some e → e.base.id ≡ i
unfolding find_endpoint
find_endpoint_id i [] e h = cc
find_endpoint_id i (x ∷ es) e h = elim (Bool-cases (x.base.id == i)) [
  | inl same ↦ ground (arith, nat_beq_iff x.base.id i)
  | inr other ↦ ground (arith, find_endpoint_id i es e)
]

holder_after :
    (h : Handoff) (i : ℕ) (p q : Portal)
    → h.endpoint.base.id ≡ i
    → Handed h p (ok promoted) q
    → previous_holder i q.promotions ≡ id_of h.previous
unfolding previous_holder
holder_after h i p q is_it (t, r, es, rs, act, own, to_it, origin, clear) =
    rw
      (
        rs,
        previous_holder,
        last_active-append i (map (supersede h.endpoint.base.id) p.promotions) r (own ∙ is_it) act,
      )
      origin

-- After a successful promotion, the first one included, a rollback aims at the instance that
-- served the endpoint before: the one its pointer named, if that still exists, and else at
-- nothing.
pub previous_holder-promote :
    (w : World) (job endpoint_id instance_id : ℕ) (reason : Option String) (p : Portal)
    → (e : EndpointRow) → find_endpoint endpoint_id p.endpoints ≡ some e
    → (promote w job endpoint_id instance_id reason p).0 ≡ ok promoted
    → previous_holder endpoint_id (promote w job endpoint_id instance_id reason p).1.promotions
      ≡ id_of (current_of e p.rows)
previous_holder-promote w job endpoint_id instance_id reason p e known fine =
    let q = (promote w job endpoint_id instance_id reason p).1 in
    elim (promote-Ended w job endpoint_id instance_id reason p) [
      | inl (h, found, inl (serves, told, unchanged)) ↦ cc
      | inl (h, found, inr (other, handed)) ↦
          let same : h.endpoint ≡ e = ground (arith, found.endpoint_found) in
          let done : Handed h p (ok promoted) q = rw fine at handed in
          holder_after h endpoint_id p q
            (find_endpoint_id endpoint_id p.endpoints h.endpoint found.endpoint_found) done
          ∙ rw (found.previous_found, same) refl
      | inr (d, raised, same, n) ↦ cc
    ]
