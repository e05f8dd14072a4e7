-- ===== src/Promotion/Tests.antt =====
-- Runs of a promotion, and its theorems at concrete inputs.
use spark_controlplane.Prelude.{ℕ, ◌≡◌, refl, String, Option, some, List, [], ◌∷◌, arith, map}
use spark_controlplane.Portal.{
  Portal, gets, lift, or_raise, ◌>>=◌, ◌>>◌, raise_if, modify, attempt, finally, change_row,
  command_failed, restored, down, ok, err,
}
use spark_controlplane.Models.{InstStatus, stopped, starting, running, error}
use spark_controlplane.Portal.Samples.{portal, front, fine, red, broken, green_broken}
use spark_controlplane.Dict.{get}
use spark_controlplane.Promotion.{promoted, promote, find_endpoint, id_of, current_of}
use spark_controlplane.Promotion.Rollback.{previous_holder, rollback_endpoint, promote_to}
use spark_controlplane.Promotion.Ended.{Ended, promote-Ended}
use spark_controlplane.Promotion.History.{
  actives, IsSingle, promote-IsSingle, previous_holder-promote,
}

abbrev statuses : Portal → List InstStatus
statuses p = map (λ m. m.inst.status) p.rows

abbrev pointer : Portal → List (Option ℕ)
pointer p = map (λ e. e.current_instance_id) p.endpoints

abbrev why : Option String
why = some "upgrade"

-- A handoff from the blue instance to the green one.
green_serves :
    let end = promote fine 7 5 2 why portal in
    (end.0 ≡ ok promoted)
    × (statuses end.1 ≡ stopped ∷ running ∷ [])
    × (pointer end.1 ≡ some 2 ∷ [])
    × (rollback_endpoint 5 end.1 ≡ promote_to 1)
unfolding promote ◌>>=◌ gets or_raise ◌>>◌ raise_if get modify attempt finally change_row lift
    rollback_endpoint
green_serves = (refl, refl, refl, refl)

-- The pointer moves although /health never was green.
unhealthy_serves :
    let end = promote red 7 5 2 why portal in
    (end.0 ≡ ok promoted)
    × (statuses end.1 ≡ stopped ∷ starting ∷ [])
    × (pointer end.1 ≡ some 2 ∷ [])
unfolding promote ◌>>=◌ gets or_raise ◌>>◌ raise_if get modify attempt finally change_row lift
unhealthy_serves = (refl, refl, refl)

-- Nothing can be installed: the pointer stays.
nothing_starts :
    let end = promote broken 7 5 2 why portal in
    (end.0 ≡ err (down (command_failed "disk full") (command_failed "disk full")))
    × (statuses end.1 ≡ error ∷ error ∷ [])
    × (pointer end.1 ≡ some 1 ∷ [])
unfolding promote ◌>>=◌ gets or_raise ◌>>◌ raise_if get modify attempt finally change_row lift
nothing_starts = (refl, refl, refl)

-- The previous instance serves again, and the endpoint is said to be down.
blue_is_back :
    let end = promote green_broken 7 5 2 why portal in
    (end.0 ≡ err (down (command_failed "disk full") (restored (command_failed "disk full"))))
    × (statuses end.1 ≡ running ∷ error ∷ [])
    × (pointer end.1 ≡ some 1 ∷ [])
unfolding promote ◌>>=◌ gets or_raise ◌>>◌ raise_if get modify attempt finally change_row lift
blue_is_back = (refl, refl, refl)

green_promoted : (promote fine 7 5 2 why portal).0 ≡ ok promoted
unfolding promote ◌>>=◌ gets or_raise ◌>>◌ raise_if get modify attempt finally change_row lift
green_promoted = refl

prod_known : find_endpoint 5 portal.endpoints ≡ some front
unfolding find_endpoint
prod_known = refl

no_history : IsSingle portal.promotions
unfolding actives
no_history i = omega arith

promote-Ended_example :
    Ended 5 2 portal (promote broken 7 5 2 why portal).0 (promote broken 7 5 2 why portal).1
promote-Ended_example = promote-Ended broken 7 5 2 why portal

promote-IsSingle_example : IsSingle (promote fine 7 5 2 why portal).1.promotions
promote-IsSingle_example = promote-IsSingle fine 7 5 2 why portal no_history

previous_holder-promote_example :
    previous_holder 5 (promote fine 7 5 2 why portal).1.promotions
    ≡ id_of (current_of front portal.rows)
previous_holder-promote_example =
    previous_holder-promote fine 7 5 2 why portal front prod_known green_promoted
