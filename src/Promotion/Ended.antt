-- ===== src/Promotion/Ended.antt =====
-- How a promotion ends.
use spark_controlplane.Prelude.{
  ℕ, ◌≡◌, ◌≢◌, refl, ap, ◌⊎◌, inl, inr, String, true, false, ◌↔◌, nat_beq_iff, Option, none, some,
  [], ◌∷◌, ◌++◌, arith, Bool-cases, Option-cases, nat_eq, map,
}
use spark_controlplane.Models.{running, status_beq_iff, status_eq}
use spark_controlplane.Portal.{
  Managed, EndpointPromotion, EndpointRow, Failure, Portal, Result, World, pure, raise, gets, lift,
  or_raise, ◌>>=◌, ◌>>◌, Done, raise_if, modify, attempt, find_row, endpoint_not_found,
  target_not_found, restored, active, failed, ok, err,
}
use spark_controlplane.Promotion.{
  Answer, already_serves, promoted, find_endpoint, current_of, id_of, Handoff, swap, recover,
  complete, hand_over, check, promote_found, is_serving, promote, add_promotion, next_id, supersede,
  is_active, is_id, is_taken, point, closed,
}
use spark_controlplane.Promotion.Rows.{set_promotion-supersede}
use spark_controlplane.Promotion.Swap.{Tables, Swapped, try-Ends, row}
use spark_controlplane.Instances.Endings.{Ends, between-Ends}

-- From the guards on, a handoff ends with the endpoint pointing at the target, all earlier active rows of the endpoint
-- superseded and the new row active; or it raises, no endpoint has changed, and there is no row or
-- one that is not active more. The message that the previous instance was restored is never raised.
abbrev pub Handed : Handoff → Portal → Result Answer → Portal → Type 0
Handed h p (ok already_serves) q = ⊥
Handed h p (ok promoted) q =
    (t : ℕ) × (r : EndpointPromotion) × (q.endpoints
      ≡ map (point h.endpoint.base.id h.target.inst.id t) p.endpoints)
    × (q.promotions ≡ map (supersede h.endpoint.base.id) p.promotions ++ r ∷ [])
    × (r.status ≡ active)
    × (r.endpoint_id ≡ h.endpoint.base.id)
    × (r.to_instance_id ≡ some h.target.inst.id)
    × (r.from_instance_id ≡ id_of h.previous)
    × (is_taken h.endpoint.base.id h.target.inst.id p.endpoints ≡ false)
Handed h p (err e) q =
    ((c : Failure) → e ≢ restored c)
    × (q.endpoints ≡ p.endpoints)
    × ((q.promotions ≡ p.promotions)
        ⊎ ((r : EndpointPromotion) × (q.promotions ≡ p.promotions ++ r ∷ [])
            × (is_active r.status ≡ false)))

module _ (w : World) (job : ℕ) (h : Handoff) (reason : Option String) (p : Portal) where
  complete-Ends :
      Ends
        (Tables p.endpoints (p.promotions ++ row w job h reason p ∷ []))
        (Handed h p)
        (complete w job h (next_id p.promotions))
  unfolding complete gets raise_if modify pure ◌>>=◌ ◌>>◌ raise
  complete-Ends = record {
    ends = λ q (he, hp).
        elim (Bool-cases (is_taken h.endpoint.base.id h.target.inst.id p.endpoints)) [
          | inl taken ↦ rw (he, taken) (λ c x. cc, refl, inr (row w job h reason p, hp, refl))
          | inr clear ↦
              rw (he, clear)
                (
                  w.now q.done,
                  closed active (w.now q.done) (row w job h reason p),
                  refl,
                  rw hp (
                      set_promotion-supersede (closed active (w.now q.done)) h.endpoint.base.id
                        p.promotions (row w job h reason p) refl refl),
                  refl,
                  refl,
                  refl,
                  refl,
                  clear,
                )
        ];
  }

  failed_swap :
      (e : Failure) (q : Portal) → Swapped w job h reason p (err e) q → Handed h p (err e) q
  failed_swap e q (no_restore, t, (he, hp)) =
      (no_restore, he, inr (closed failed t (row w job h reason p), hp, refl))

  hand_over-Handed : Handed h p (hand_over w job h reason p).0 (hand_over w job h reason p).1
  unfolding hand_over gets modify ◌>>=◌ ◌>>◌
  hand_over-Handed =
      (between-Ends (Swapped w job h reason p)
          (attempt (swap w job h) (recover w job h (next_id p.promotions)))
          (λ _. complete w job h (next_id p.promotions)) (try-Ends w job h reason p)
          (λ _. complete-Ends) failed_swap).ends
        (add_promotion (row w job h reason p) p) (refl, refl)

  -- The guards change nothing, so what they raise is raised with production still up.
  check-same : (check w job h p).1 ≡ p
  unfolding check gets raise_if ◌>>=◌ ◌>>◌ raise
  check-same = ground arith

  check_no_restore : (c : Failure) → (check w job h p).0 ≢ err (restored c)
  unfolding check gets raise_if ◌>>=◌ ◌>>◌ raise
  check_no_restore c e = ground arith

  after_check :
      (r : Result Done) (q : Portal)
      → q ≡ p
      → ((c : Failure) → r ≢ err (restored c))
      → let end = (lift r >> hand_over w job h reason) q in Handed h p end.0 end.1
  unfolding lift ◌>>=◌ ◌>>◌ raise
  after_check (ok u) q same n = rw same hand_over-Handed
  after_check (err e) q same n = (λ c x. n c (ap err x), rw same refl, inl (rw same refl))

  check-hand_over-Handed :
      let end = (check w job h >> hand_over w job h reason) p in Handed h p end.0 end.1
  unfolding lift ◌>>=◌ ◌>>◌
  check-hand_over-Handed =
      after_check (check w job h p).0 (check w job h p).1 check-same check_no_restore

-- What the first queries find.
pub record Found (endpoint_id instance_id : ℕ) (p : Portal) (h : Handoff) : Type 0 where
  pub endpoint_found : find_endpoint endpoint_id p.endpoints ≡ some h.endpoint
  pub target_found : find_row instance_id p.rows ≡ some h.target
  pub previous_found : h.previous ≡ current_of h.endpoint p.rows

-- The endpoint points at the target, which is running.
abbrev pub Serves : Handoff → Type 0
Serves h =
    (h.endpoint.current_instance_id ≡ some h.target.inst.id) × (h.target.inst.status ≡ running)

-- A target that serves already is told so, with nothing changed; any other is handed over.
abbrev pub Finished : Handoff → Portal → Result Answer → Portal → Type 0
Finished h p r q = Serves h × (r ≡ ok already_serves) × (q ≡ p) ⊎ ((Serves h → ⊥) × Handed h p r q)

abbrev pub Ended : ℕ → ℕ → Portal → Result Answer → Portal → Type 0
Ended endpoint_id instance_id p r q =
    ((h : Handoff) × Found endpoint_id instance_id p h × Finished h p r q)
    ⊎ ((e : Failure) × (r ≡ err e) × (q ≡ p) × ((c : Failure) → e ≢ restored c))

module _ (w : World) (job endpoint_id instance_id : ℕ) (reason : Option String) (p : Portal) where
  no_endpoint :
      find_endpoint endpoint_id p.endpoints ≡ none
      → promote w job endpoint_id instance_id reason p ≡ (err endpoint_not_found, p)
  unfolding promote gets or_raise raise pure ◌>>=◌
  no_endpoint e = ground arith

  no_target :
      (x : EndpointRow)
      → find_endpoint endpoint_id p.endpoints ≡ some x
      → find_row instance_id p.rows ≡ none
      → promote w job endpoint_id instance_id reason p ≡ (err target_not_found, p)
  unfolding promote gets or_raise raise pure ◌>>=◌
  no_target x e f = ground arith

  both_found :
      (x : EndpointRow) (m : Managed)
      → find_endpoint endpoint_id p.endpoints ≡ some x
      → find_row instance_id p.rows ≡ some m
      → promote w job endpoint_id instance_id reason p
        ≡ promote_found w job
            (record { endpoint = x; target = m; previous = current_of x p.rows })
            reason
            p
  unfolding promote gets or_raise raise pure ◌>>=◌
  both_found x m e f = rw (e, f) (rw f refl)

is_id_iff : (found : Option ℕ) (i : ℕ) → (is_id found i ≡ true) ↔ (found ≡ some i)
is_id_iff none i = (λ e. ground arith, λ e. ground arith)
is_id_iff (some j) i = (λ e. ground (arith, nat_beq_iff j i), λ e. ground (arith, nat_beq_iff j i))

module _ (w : World) (job : ℕ) (h : Handoff) where
  is_serving-Serves : is_serving w job h ≡ true → Serves h
  is_serving-Serves e =
      let id_test = is_id_iff h.endpoint.current_instance_id h.target.inst.id in
      let up_test = status_beq_iff h.target.inst.status running in
      ground (arith, id_test.0, up_test.0)

  not_serving : is_serving w job h ≡ false → Serves h → ⊥
  not_serving e (current, up) =
      let id_test = is_id_iff h.endpoint.current_instance_id h.target.inst.id in
      let up_test = status_beq_iff h.target.inst.status running in
      ground (arith, id_test.1, up_test.1)

  promote_found-Finished :
      (reason : Option String) (p : Portal)
      → let end = promote_found w job h reason p in Finished h p end.0 end.1
  unfolding promote_found pure
  promote_found-Finished reason p = elim (Bool-cases (is_serving w job h)) [
    | inl serving ↦ rw serving (inl (is_serving-Serves serving, refl, refl))
    | inr other ↦ rw other (inr (not_serving other, check-hand_over-Handed w job h reason p))
  ]

-- A promotion says that it is done only if the endpoint then points at the target, which no other
-- endpoint points at, with every earlier active row of the endpoint superseded and a new active
-- row from the previous instance to the target. If it raises, no endpoint has changed, and at
-- most one row is new, which is not active. It never raises the message that the previous
-- instance was restored. If the endpoint already points at the target and it is running, it says
-- so and nothing changes, and only then.
pub promote-Ended :
    (w : World) (job endpoint_id instance_id : ℕ) (reason : Option String) (p : Portal)
    → let end = promote w job endpoint_id instance_id reason p in
      Ended endpoint_id instance_id p end.0 end.1
promote-Ended w job endpoint_id instance_id reason p =
    elim (Option-cases (find_endpoint endpoint_id p.endpoints)) [
      | inl absent ↦
          rw (no_endpoint w job endpoint_id instance_id reason p absent)
            (inr (endpoint_not_found, refl, refl, λ c x. cc))
      | inr (e, found) ↦ elim (Option-cases (find_row instance_id p.rows)) [
        | inl absent ↦
            rw (no_target w job endpoint_id instance_id reason p e found absent)
              (inr (target_not_found, refl, refl, λ c x. cc))
        | inr (m, row_found) ↦
            let h : Handoff = record { endpoint = e; target = m; previous = current_of e p.rows } in
            rw (both_found w job endpoint_id instance_id reason p e m found row_found) (
              inl (
                h,
                record { endpoint_found = found; target_found = row_found; previous_found = refl },
                promote_found-Finished w job h reason p,
              ))
      ]
    ]
