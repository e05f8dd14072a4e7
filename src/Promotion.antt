-- ===== src/Promotion.antt =====
-- backend/app/services/endpoints.py: `promote`, which hands an endpoint from one instance to
-- another.
pub mod Rollback
pub mod Rows
pub mod Swap
pub mod Ended
pub mod History
mod Tests
use spark_controlplane.Prelude.{
  ℕ, zero, suc, ◌+◌, max, ◌≡◌, String, Bool, true, false, not, ◌&&◌, ◌||◌, Option, none, some, List,
  [], ◌∷◌, ◌++◌, map, ltb, any, keep_if, ◌==◌, nat_eq, string_eq, if◌then◌else◌,
}
use spark_controlplane.Text.{Text}
use spark_controlplane.Models.{InstStatus, running, status_eq, Termination, k8s}
use spark_controlplane.InstState.{in_flight}
use spark_controlplane.Binding.{is_set, is_k8s}
use spark_controlplane.Portal.{
  Node, ModelNodeState, Managed, PromoStatus, EndpointPromotion, EndpointRow, EndpointAlias,
  Command, Failure, Portal, Result, World, Action, pure, raise, gets, lift, or_raise, ◌>>=◌, ◌>>◌,
  Done, raise_if, modify, attempt, finally, run, find_row, change, change_row, connect,
  install_file, install_unit, stop_unit, remove_unit, reload_proxy, remove_dir, not_found, no_head,
  no_workers, no_node, model_absent, cert_unset, tls_disabled, bad_secret, command_failed,
  endpoint_not_found, target_not_found, not_a_member, target_busy, previous_busy, no_certificate,
  already_current, restored, down, not_served, pending, active, superseded, failed, ok, err,
}
use spark_controlplane.Instances.Lifecycle.{start_instance, stop_instance}

-- The two texts that `promote` returns.
pub data Answer : Type 0 where
  already_serves promoted : Answer

unfoldable pub find_endpoint : ℕ → List EndpointRow → Option EndpointRow
find_endpoint i [] = none
find_endpoint i (e ∷ es) = if e.base.id == i then some e else find_endpoint i es

-- `[a.alias for a in endpoint.aliases]`
abbrev pub aliases_of : ℕ → List EndpointAlias → List Text
aliases_of i [] = []
aliases_of i (a ∷ rest) =
    if a.endpoint_id == i then a.alias ∷ aliases_of i rest else aliases_of i rest

-- `if previous_id`: an id of 0 is false.
abbrev pub true_id : Option ℕ → Option ℕ
true_id none = none
true_id (some zero) = none
true_id (some (suc i)) = some (suc i)

abbrev pub is_some {ℓ} : {A : Type ℓ} → Option A → Bool
is_some none = false
is_some (some x) = true

abbrev pub is_id : Option ℕ → ℕ → Bool
is_id none j = false
is_id (some i) j = i == j

abbrev pub is_active : PromoStatus → Bool
is_active active = true
is_active _ = false

-- The id of a new row, one more than the largest.
abbrev pub next_id : List EndpointPromotion → ℕ
next_id [] = 1
next_id (r ∷ rs) = max (r.id + 1) (next_id rs)

unfoldable pub set_promotion :
    ℕ → (EndpointPromotion → EndpointPromotion) → List EndpointPromotion → List EndpointPromotion
set_promotion i f [] = []
set_promotion i f (r ∷ rs) = (if r.id == i then f r else r) ∷ set_promotion i f rs

abbrev pub add_promotion : EndpointPromotion → Portal → Portal
add_promotion r p = record p { promotions = p.promotions ++ r ∷ [] }

-- The last commit: the other active rows are superseded, the endpoint points at the target, and the
-- new row is active.
abbrev pub supersede : ℕ → EndpointPromotion → EndpointPromotion
supersede endpoint_id r =
    if (r.endpoint_id == endpoint_id) && is_active r.status
    then record r { status = superseded }
    else r

abbrev pub point : ℕ → ℕ → ℕ → EndpointRow → EndpointRow
point endpoint_id instance_id t e =
    if e.base.id == endpoint_id
    then record e { current_instance_id = some instance_id; promoted_at = some t }
    else e

abbrev pub closed : PromoStatus → ℕ → EndpointPromotion → EndpointPromotion
closed s t r = record r { status = s; finished_at = some t }

abbrev pub flip : ℕ → ℕ → ℕ → ℕ → Portal → Portal
flip endpoint_id instance_id promo t p = record p {
  endpoints = map (point endpoint_id instance_id t) p.endpoints;
  promotions = set_promotion promo (closed active t) (map (supersede endpoint_id) p.promotions);
}

-- `previous`: what `session.get` finds of the current instance.
abbrev pub current_of : EndpointRow → List Managed → Option Managed
current_of e rows = elim (true_id e.current_instance_id) [ some i ↦ find_row i rows | none ↦ none ]

abbrev pub id_of : Option Managed → Option ℕ
id_of none = none
id_of (some m) = some m.inst.id

-- What `promote` found in its first queries.
pub record Handoff : Type 0 where
  pub endpoint : EndpointRow
  pub target : Managed
  pub previous : Option Managed

-- `current_instance_id` is UNIQUE: the last commit fails if another endpoint points at the target.
abbrev pub is_taken : ℕ → ℕ → List EndpointRow → Bool
is_taken endpoint_id instance_id es =
    any (λ e. not (e.base.id == endpoint_id) && is_id e.current_instance_id instance_id) es

module _ (w : World) (job : ℕ) where
  unfoldable pub stop_previous : Option Managed → Action Done
  unfolding stop_instance
  stop_previous none = pure tt
  stop_previous (some m) =
      if m.inst.status == running then stop_instance w job m.inst.id else pure tt

  -- The body of the `try`
  unfoldable pub swap : Handoff → Action Done
  unfolding stop_previous start_instance
  swap h = do stop_previous h.previous; start_instance w job h.target.inst.id; pure tt

  -- The exception that tells of the restored instance is raised inside the inner `try`.
  unfoldable pub put_back : Failure → Option Managed → Action Done
  unfolding start_instance
  put_back e none = raise (not_served e)
  put_back e (some m) =
      attempt (start_instance w job m.inst.id >> raise (restored e))
        (λ restore. raise (down e restore))

  -- The handler of the `try`
  unfoldable pub recover : Handoff → ℕ → Failure → Action Done
  unfolding set_promotion put_back
  recover h promo e = do
    modify (λ p. record p {
      promotions = set_promotion promo (closed failed (w.now p.done)) p.promotions;
    })
    put_back e h.previous

  -- What follows the `try`
  unfoldable pub complete : Handoff → ℕ → Action Answer
  unfolding set_promotion
  complete h promo = do
    endpoints ← gets (λ p. p.endpoints)
    raise_if (is_taken h.endpoint.base.id h.target.inst.id endpoints) already_current
    finished ← gets (λ p. w.now p.done)
    modify (flip h.endpoint.base.id h.target.inst.id promo finished)
    pure promoted

  -- The new row of `endpoint_promotions`
  abbrev pub new_promotion : Handoff → Option String → Portal → EndpointPromotion
  new_promotion h reason p = record {
    id = next_id p.promotions;
    endpoint_id = h.endpoint.base.id;
    to_instance_id = some h.target.inst.id;
    from_instance_id = id_of h.previous;
    status = pending;
    reason = reason;
    aliases_snapshot = aliases_of h.endpoint.base.id p.aliases;
    job_id = job;
    started_at = w.now p.done;
    finished_at = none;
  }

  -- From the new row on, when nothing is refused any more.
  unfoldable pub hand_over : Handoff → Option String → Action Answer
  unfolding swap recover complete
  hand_over h reason = do
    promo ← gets (λ p. next_id p.promotions)
    modify (λ p. add_promotion (new_promotion h reason p) p)
    attempt (swap h) (recover h promo)
    complete h promo

  -- The guards: each would otherwise be discovered with production already stopped.
  unfoldable pub check : Handoff → Action Done
  unfolding in_flight
  check h = do
    raise_if (not (is_id h.target.inst.endpoint_id h.endpoint.base.id)) not_a_member
    flights ← gets (λ p. p.registry)
    raise_if (is_some (in_flight h.target.inst.id flights)) target_busy
    raise_if
        (elim (true_id h.endpoint.current_instance_id) [
          | some i ↦ is_some (in_flight i flights)
          | none ↦ false
        ])
        previous_busy
    raise_if
        (not (is_k8s h.endpoint.base.termination)
          && not (is_set h.endpoint.base.tls_cert_enc)
          && (h.endpoint.port == 443))
        no_certificate

  -- `previous_id == instance_id and target.status == INST_RUNNING`
  abbrev pub is_serving : Handoff → Bool
  is_serving h =
      is_id h.endpoint.current_instance_id h.target.inst.id && (h.target.inst.status == running)

  unfoldable pub promote_found : Handoff → Option String → Action Answer
  unfolding check hand_over
  promote_found h reason =
      if is_serving h then pure already_serves else (check h >> hand_over h reason)

  unfoldable pub promote : ℕ → ℕ → Option String → Action Answer
  unfolding find_endpoint find_row promote_found
  promote endpoint_id instance_id reason = do
    endpoint ← or_raise (find_endpoint endpoint_id (← gets (λ p. p.endpoints))) endpoint_not_found
    rows ← gets (λ p. p.rows)
    target ← or_raise (find_row instance_id rows) target_not_found
    promote_found
        (record { endpoint = endpoint; target = target; previous = current_of endpoint rows })
        reason
