-- ===== src/Promotion/Rollback.antt =====
-- backend/app/services/endpoints.py: `previous_holder`; backend/app/routers/endpoints.py: where
-- `rollback_endpoint` aims.
use spark_controlplane.Prelude.{
  ℕ, ◌&&◌, Option, none, some, List, [], ◌∷◌, ◌==◌, nat_eq, string_eq, if◌then◌else◌,
}
use spark_controlplane.Portal.{EndpointPromotion, Portal, find_row}
use spark_controlplane.Promotion.{is_active}

-- `previous_holder`: the newest active row; the rows stand in the order of their start times.
unfoldable pub last_active : ℕ → List EndpointPromotion → Option EndpointPromotion
last_active endpoint_id [] = none
last_active endpoint_id (r ∷ rs) = elim (last_active endpoint_id rs) [
  | some later ↦ some later
  | none ↦ if (r.endpoint_id == endpoint_id) && is_active r.status then some r else none
]

unfoldable pub previous_holder : ℕ → List EndpointPromotion → Option ℕ
unfolding last_active
previous_holder endpoint_id rs = elim (last_active endpoint_id rs) [
  | some r ↦ r.from_instance_id
  | none ↦ none
]

-- routers/endpoints.py: where `rollback_endpoint` aims, or the 409 that it raises.
pub data Rollback : Type 0 where
  nothing_to_roll_back : Rollback
  was_deleted : Rollback
  promote_to : (instance_id : ℕ) → Rollback

unfoldable pub rollback_endpoint : ℕ → Portal → Rollback
unfolding previous_holder find_row
rollback_endpoint endpoint_id p = elim (previous_holder endpoint_id p.promotions) [
  | none ↦ nothing_to_roll_back
  | some i ↦ elim (find_row i p.rows) [ none ↦ was_deleted | some m ↦ promote_to i ]
]
