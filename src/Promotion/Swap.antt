-- ===== src/Promotion/Swap.antt =====
-- How a handoff ends.
use spark_controlplane.Prelude.{
  ℕ, ◌≡◌, ◌≢◌, refl, ◌∙◌, String, Option, none, some, List, [], ◌∷◌, ◌++◌, nat_eq,
}
use spark_controlplane.Portal.{
  Managed, EndpointPromotion, EndpointRow, Failure, Portal, Result, World, raise, ◌>>=◌, ◌>>◌, Done,
  modify, attempt, restored, down, not_served, failed, ok, err,
}
use spark_controlplane.Promotion.{
  Handoff, swap, stop_previous, put_back, recover, new_promotion, set_promotion, next_id, closed,
}
use spark_controlplane.Promotion.Rows.{set_promotion-next_id}
use spark_controlplane.Instances.Lifecycle.{start_instance, stop_instance}
use spark_controlplane.Instances.Outcome.{start_instance-Ended}
use spark_controlplane.Instances.Halt.{stop_instance-Ended}
use spark_controlplane.Instances.Frames.{Keeps, keeps, pure-Keeps, if-Keeps}
use spark_controlplane.Instances.Endings.{Ends, >>=-Ends, attempt-Ends, Keeps-Ends}

-- The tables of endpoints and promotions.
abbrev pub Tables : List EndpointRow → List EndpointPromotion → Portal → Type 0
Tables es rs q = (q.endpoints ≡ es) × (q.promotions ≡ rs)

module _ (w : World) (job : ℕ) (es : List EndpointRow) (rs : List EndpointPromotion) where
  start_instance-Keeps : (i : ℕ) → Keeps (Tables es rs) (start_instance w job i)
  start_instance-Keeps i = record {
    kept = λ p (h, k).
        let u = (start_instance-Ended w i job p).0 in (u.same_endpoints ∙ h, u.same_promotions ∙ k);
  }

  stop_instance-Keeps : (i : ℕ) → Keeps (Tables es rs) (stop_instance w job i)
  stop_instance-Keeps i = record {
    kept = λ p (h, k).
        let u = (stop_instance-Ended w i job p).0 in (u.same_endpoints ∙ h, u.same_promotions ∙ k);
  }

  stop_previous-Keeps : (m : Option Managed) → Keeps (Tables es rs) (stop_previous w job m)
  unfolding stop_previous
  stop_previous-Keeps none = pure-Keeps tt
  stop_previous-Keeps (some m) = if-Keeps _ (stop_instance-Keeps m.inst.id) (pure-Keeps tt)

  swap-Keeps : (h : Handoff) → Keeps (Tables es rs) (swap w job h)
  unfolding swap
  swap-Keeps h = search (keeps, stop_previous-Keeps, start_instance-Keeps) depth 20

  -- Every way out of the handler raises, and never that the previous instance serves again.
  abbrev Raised : Result Done → Portal → Type 0
  Raised (ok u) q = ¬ Unit {0}
  Raised (err e) q = ((c : Failure) → e ≢ restored c) × Tables es rs q

  abbrev Lost : Result Done → Portal → Type 0
  Lost (ok u) q = ¬ Unit {0}
  Lost (err e) q = Tables es rs q

  raise-Ends : (e : Failure) → Ends (Tables es rs) Lost (raise e)
  unfolding raise
  raise-Ends e = record { ends = λ q h. h }

  not_served-Ends : (e : Failure) → Ends (Tables es rs) Raised (raise (not_served e))
  unfolding raise
  not_served-Ends e = record { ends = λ q h. (λ c x. cc, h) }

  down-Ends : (e d : Failure) → Ends (Tables es rs) Raised (raise (down e d))
  unfolding raise
  down-Ends e d = record { ends = λ q h. (λ c x. cc, h) }

  lose-Ends :
      (e : Failure) (i : ℕ)
      → Ends (Tables es rs) Lost (start_instance w job i >> raise (restored e))
  unfolding ◌>>◌
  lose-Ends e i =
      >>=-Ends (start_instance w job i) (λ _. raise (restored e)) (start_instance-Keeps i)
        (λ _. raise-Ends (restored e)) (λ d q h. h)

  put_back-Ends :
      (e : Failure) (m : Option Managed) → Ends (Tables es rs) Raised (put_back w job e m)
  unfolding put_back
  put_back-Ends e none = not_served-Ends e
  put_back-Ends e (some m) =
      attempt-Ends Lost (start_instance w job m.inst.id >> raise (restored e))
        (λ restore. raise (down e restore)) (lose-Ends e m.inst.id) (λ a q h. elim (h tt) [ ])
        (λ d. down-Ends e d)

module _ (w : World) (job : ℕ) (h : Handoff) (reason : Option String) (p : Portal) where
  abbrev pub row : EndpointPromotion
  row = new_promotion w job h reason p

  -- Between the `try` and the last commit.
  abbrev pub Swapped : Result Done → Portal → Type 0
  Swapped (ok u) q = Tables p.endpoints (p.promotions ++ row ∷ []) q
  Swapped (err e) q =
      ((c : Failure) → e ≢ restored c)
      × (t : ℕ) × Tables p.endpoints (p.promotions ++ closed failed t row ∷ []) q

  put_back_result :
      (t : ℕ) (r : Result Done) (q : Portal)
      → Raised w job p.endpoints (p.promotions ++ closed failed t row ∷ []) r q
      → Swapped r q
  put_back_result t (ok u) q x = elim (x tt) [ ]
  put_back_result t (err e) q (no_restore, x) = (no_restore, t, x)

  recover-Ends :
      (e : Failure)
      → Ends
          (Tables p.endpoints (p.promotions ++ row ∷ []))
          Swapped
          (recover w job h (next_id p.promotions) e)
  unfolding recover modify ◌>>◌ ◌>>=◌
  recover-Ends e = record {
    ends = λ q (he, hp).
        let q' : Portal = record q {
          promotions =
              set_promotion (next_id p.promotions) (closed failed (w.now q.done)) q.promotions;
        } in
        let end = put_back w job e h.previous q' in
        put_back_result (w.now q.done) end.0 end.1 (
          (put_back-Ends w job p.endpoints (p.promotions ++ closed failed (w.now q.done) row ∷ []) e
              h.previous).ends
            q'
            (
              he,
              rw hp (set_promotion-next_id (closed failed (w.now q.done)) p.promotions row refl),
            ));
  }

  pub try-Ends :
      Ends
        (Tables p.endpoints (p.promotions ++ row ∷ []))
        Swapped
        (attempt (swap w job h) (recover w job h (next_id p.promotions)))
  try-Ends =
      attempt-Ends (λ r q. Tables p.endpoints (p.promotions ++ row ∷ []) q) (swap w job h)
        (recover w job h (next_id p.promotions))
        (Keeps-Ends (swap w job h) (swap-Keeps w job p.endpoints (p.promotions ++ row ∷ []) h))
        (λ a q x. x) (λ e. recover-Ends e)
