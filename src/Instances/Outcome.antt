-- ===== src/Instances/Outcome.antt =====
-- What a start and a stop job leave behind, however they end.
use spark_controlplane.Prelude.{
  ℕ, ◌≡◌, ◌≢◌, refl, ◌⊎◌, inl, inr, String, Bool, true, false, Option, none, some, List, arith,
  Option-cases, nat_beq_iff, nat_eq,
}
use spark_controlplane.Portal.{
  Node, Managed, Failure, Portal, Result, World, pure, raise, gets, or_raise, ◌>>=◌, ◌>>◌, finally,
  find_row, not_found, ok, err,
}
use spark_controlplane.InstState.{in_flight, in_flight-register-release}
use spark_controlplane.Instances.{count}
use spark_controlplane.Instances.Lifecycle.{
  claimed, start_claimed, start_found, start_owned, owned, freed, start_instance,
}
use spark_controlplane.Instances.Endings.{Ends, >>=-Ends}
use spark_controlplane.Instances.Frames.{lift-Keeps, members_of-Keeps}
use spark_controlplane.Instances.Rows.{Others, same-Others}
use spark_controlplane.Instances.Start.{Settled, Claimed, start_claimed-Settled}

-- A start that raised before its claim left the portal as it was.
abbrev pub Ended : World → ℕ → Portal → Result Bool → Portal → Type 0
Ended w i p r q = ((e : Failure) × (r ≡ err e) × (q ≡ p)) ⊎ Settled w i p r q

module _ (w : World) (i : ℕ) (p : Portal) where
  early : (e : Failure) (q : Portal) → q ≡ p → Ended w i p (err e) q
  early e q same = inl (e, refl, same)

  claim-Ends :
      (m : Managed) (members : Option (Node × List Node))
      → find_row i p.rows ≡ some m
      → Ends
          (λ q. q ≡ p)
          (Ended w i p)
          (gets (λ q. w.now q.done) >>= λ t.
            start_claimed w i (claimed t (count members)) m members)
  unfolding ◌>>=◌ gets
  claim-Ends m members found = record {
    ends = λ q same.
        rw same (inr (start_claimed-Settled w i (w.now p.done) (count members) m members p found));
  }

  start_found-Ends :
      (m : Managed)
      → find_row i p.rows ≡ some m
      → Ends (λ q. q ≡ p) (Ended w i p) (start_found w i m)
  unfolding start_found ◌>>=◌ ◌>>◌
  start_found-Ends m found =
      >>=-Ends _ _ (lift-Keeps _)
        (λ _.
          >>=-Ends _ _ (members_of-Keeps (λ q. q ≡ p) m) (λ members. claim-Ends m members found)
            early)
        early

  start_owned-Ended : Ended w i p (start_owned w i p).0 (start_owned w i p).1
  unfolding start_owned ◌>>=◌ gets or_raise raise pure
  start_owned-Ended = elim (Option-cases (find_row i p.rows)) [
    | inl absent ↦ rw absent (inl (not_found, refl, refl))
    | inr (m, found) ↦ rw found ((start_found-Ends m found).ends p refl)
  ]

-- The instance is free again, and every other instance and all endpoints are as they were.
pub record Untouched (i : ℕ) (p q : Portal) : Type 0 where
  pub is_free : in_flight i q.registry ≡ none
  pub other_flights : (j : ℕ) → j ≢ i → in_flight j q.registry ≡ in_flight j p.registry
  pub other_rows : (j : ℕ) → j ≢ i → find_row j q.rows ≡ find_row j p.rows
  pub same_endpoints : q.endpoints ≡ p.endpoints
  pub same_promotions : q.promotions ≡ p.promotions

pub freed-Untouched :
    (i job : ℕ) (action : String) (p q : Portal)
    → Others i (owned i action job p) q
    → Untouched i p (freed i q)
freed-Untouched i job action p q o = record {
  is_free =
      rw o.same_registry
        (ground (arith, in_flight-register-release i i action job p.registry, nat_beq_iff i i));
  other_flights = λ j ne.
      rw o.same_registry
        (ground (arith, in_flight-register-release i j action job p.registry, nat_beq_iff i j));
  other_rows = o.other_rows;
  same_endpoints = o.same_endpoints;
  same_promotions = o.same_promotions;
}

freed-Claimed :
    (w : World) (i : ℕ) (r : Result Bool) (q : Portal) → Claimed w i r q → Claimed w i r (freed i q)
freed-Claimed w i (ok true) q c = c
freed-Claimed w i (ok false) q c = c
freed-Claimed w i (err e) q c = c

-- Whatever the world answers, a start job ends with its instance free and every other instance,
-- endpoint and promotion as it was. It says that /health is green only if the row is running,
-- without an error and with the time at which /health answered, on the clock after the job's
-- commands, as its last healthy time; that it is not yet, only if the row is starting and was
-- never healthy. If it raises, the row is failed and holds the text of what it raises, unless it
-- raised before the claim, when all rows are as they were.
pub start_instance-Ended :
    (w : World) (i job : ℕ) (p : Portal)
    → let end = start_instance w job i p in
      Untouched i p end.1
      × (((e : Failure) × (end.0 ≡ err e) × (end.1.rows ≡ p.rows)) ⊎ Claimed w i end.0 end.1)
unfolding start_instance finally
start_instance-Ended w i job p = elim (start_owned-Ended w i (owned i "start" job p)) [
  | inl (e, raised, same) ↦ (
    freed-Untouched i job "start" p (start_owned w i (owned i "start" job p)).1
        (rw same (same-Others i (owned i "start" job p))),
    inl (e, raised, rw same refl),
  )
  | inr (c, o) ↦ (
    freed-Untouched i job "start" p (start_owned w i (owned i "start" job p)).1 o,
    inr (
        freed-Claimed w i (start_owned w i (owned i "start" job p)).0
          (start_owned w i (owned i "start" job p)).1 c),
  )
]
