-- ===== src/Scheduler/Tick/Retries.antt =====
-- What the scheduler does to one instance, tick by tick.
use spark_controlplane.Prelude.{
  ℕ, ◌+◌, ◌-◌, ◌≤◌, ◌≡◌, refl, sym, ap, ◌∙◌, ◌⊎◌, inl, inr, Bool, true, false, Option, none, some,
  List, [], ◌∷◌, arith, ◌==◌, nat_eq, nat_beq_iff, Option-cases, Bool-cases, beq_eq, All,
  if◌then◌else◌,
}
use spark_controlplane.Dict.{Dict, get}
use spark_controlplane.Dict.Laws.{get-set, get-pop}
use spark_controlplane.Models.{InstStatus, stopped, starting, running, error, status_eq}
use spark_controlplane.Scheduler.Tick.{
  Action, start, stop, Attempt, Scheduler, is_edge, decide, retry_attempt, retry_action, act, store,
  visit, max_attempts,
}

-- What the scheduler holds of one instance.
pub record Cell : Type 0 where
  pub last : Option Bool
  pub pending : Option Attempt

abbrev pub cell : ℕ → Scheduler → Cell
cell iid s = record { last = get iid s.last_desired; pending = get iid s.pending }

-- The same for an action on an edge, and the attempt that is pending.
abbrev pub act_cell :
    Option Action → ℕ → ℕ → Bool → InstStatus → Option Attempt → Option Action × Option Attempt
act_cell (some action) retry time desired status pending =
    (some action, some (record { action = action; at = time; attempts = 1 }))
act_cell none retry time desired status none = (none, none)
act_cell none retry time desired status (some a) = retry_attempt retry time desired status a

unfoldable pub step : ℕ → ℕ → Bool → InstStatus → Cell → Option Action × Cell
unfolding retry_attempt decide
step retry time desired status c =
    let (action, pending) =
      act_cell (decide c.last desired status) retry time desired status c.pending in
    (action, record { last = some desired; pending = pending })

get-store :
    (iid other : ℕ) (kept : Option Attempt) (d : Dict ℕ Attempt)
    → get other (store iid kept d) ≡ (if iid == other then kept else get other d)
unfolding store
get-store iid other none d = get-pop iid other d
get-store iid other (some a) d = get-set iid other a d

module _ (retry time iid other : ℕ) (desired : Bool) (status : InstStatus) where
  act-act_cell :
      (edge : Option Action) (d : Dict ℕ Attempt)
      → ((act edge retry time iid desired status d).0
          ≡ (act_cell edge retry time desired status (get iid d)).0)
        × (get other (act edge retry time iid desired status d).1 ≡ (
            if iid == other
            then (act_cell edge retry time desired status (get iid d)).1
            else get other d))
  unfolding act retry_action
  act-act_cell (some action) d =
      (refl, get-set iid other (record { action = action; at = time; attempts = 1 }) d)
  act-act_cell none d = elim (Option-cases (get iid d)) [
    | inl absent ↦ ground (arith, nat_beq_iff iid other)
    | inr (a, found) ↦
        rw (found, retry_action)
          (refl, get-store iid other (retry_attempt retry time desired status a).1 d)
  ]

  -- A visit of the scheduler acts on its instance alone, and on nothing but the desired state and
  -- the pending attempt that it holds of it.
  pub visit-step :
      (s : Scheduler)
      → ((visit retry time iid desired status s).0
          ≡ (step retry time desired status (cell iid s)).0)
        × (cell other (visit retry time iid desired status s).1 ≡ (
            if iid == other then (step retry time desired status (cell iid s)).1 else cell other s))
  unfolding visit step
  visit-step s =
      let acted = act-act_cell (decide (get iid s.last_desired) desired status) s.pending in
      (acted.0, ground (arith, acted.1, get-set iid other desired s.last_desired))

-- How many actions the scheduler may still issue for the instance while `desired` stays.
abbrev pub allowance : Bool → Cell → ℕ
allowance desired c =
    if is_edge c.last desired
    then max_attempts
    else elim c.pending [ none ↦ 0 | some a ↦ max_attempts - a.attempts ]

abbrev pub count : Option Action → ℕ
count none = 0
count (some a) = 1

step-allowance :
    (retry time : ℕ) (desired : Bool) (status : InstStatus) (c : Cell)
    → count (step retry time desired status c).0
        + allowance desired (step retry time desired status c).1
      ≤ allowance desired c
unfolding step
step-allowance retry time desired status c = ground arith

steady_step :
    (retry time : ℕ) (d desired : Bool) (status : InstStatus) (c : Cell)
    → d ≡ desired
    → count (step retry time d status c).0 + allowance desired (step retry time d status c).1
      ≤ allowance desired c
steady_step retry time d desired status c e = rw e (step-allowance retry time desired status c)

-- A visit of a tick: the time, the instance, its desired state and its status.
pub record Visit : Type 0 where
  pub time : ℕ
  pub iid : ℕ
  pub desired : Bool
  pub status : InstStatus

-- How many actions visits of all instances issue for the instance `iid`.
unfoldable pub issued : ℕ → ℕ → Scheduler → List Visit → ℕ
issued retry iid s [] = 0
issued retry iid s (v ∷ vs) =
    let (action, s') = visit retry v.time v.iid v.desired v.status s in
    (if v.iid == iid then count action else 0) + issued retry iid s' vs

-- The desired state of the instance stays.
abbrev pub Steady : ℕ → Bool → List Visit → Type 0
Steady iid desired vs = All (λ (v : Visit). v.iid ≡ iid → v.desired ≡ desired) vs

visit-allowance :
    (retry iid : ℕ) (desired : Bool) (v : Visit) (s : Scheduler)
    → (v.iid ≡ iid → v.desired ≡ desired)
    → let (action, s') = visit retry v.time v.iid v.desired v.status s in
      (if v.iid == iid then count action else 0) + allowance desired (cell iid s')
      ≤ allowance desired (cell iid s)
visit-allowance retry iid desired v s steady =
    let seen = visit-step retry v.time v.iid iid v.desired v.status s in
    let after = (visit retry v.time v.iid v.desired v.status s).1 in
    let stepped = step retry v.time v.desired v.status (cell v.iid s) in
    elim (Bool-cases (v.iid == iid)) [
      | inl own ↦
          let same = beq_eq v.iid iid own in
          let moved : cell iid after ≡ stepped.1 = rw own at seen.1 in
          rw own (
            omega (
              arith,
              ap count seen.0,
              ap (allowance desired) moved,
              ap (λ j. allowance desired (cell j s)) same,
              steady_step retry v.time v.desired desired v.status (cell v.iid s) (steady same),
            ))
      | inr other ↦
          let stays : cell iid after ≡ cell iid s = rw other at seen.1 in
          rw other (omega (arith, ap (allowance desired) stays))
    ]

-- Whatever visits of all instances come, while the desired state of an instance stays, the
-- scheduler issues at most MAX_ATTEMPTS actions for it, and none at all if no action is pending
-- and the state did not just flip: whatever the operator then does to the instance, it is not
-- fought.
pub issued-le-allowance :
    (retry iid : ℕ) (desired : Bool) (s : Scheduler) (vs : List Visit)
    → Steady iid desired vs
    → issued retry iid s vs ≤ allowance desired (cell iid s)
unfolding issued
issued-le-allowance retry iid desired s [] h = omega arith
issued-le-allowance retry iid desired s (v ∷ vs) (h, hs) =
    let (action, s') = visit retry v.time v.iid v.desired v.status s in
    omega (
      arith,
      visit-allowance retry iid desired v s h,
      issued-le-allowance retry iid desired s' vs hs,
    )

step_sound :
    (retry time : ℕ) (desired : Bool) (status : InstStatus) (c : Cell) (action : Action)
    → (step retry time desired status c).0 ≡ some action
    → (action ≡ start) × (desired ≡ true) × ((status ≡ stopped) ⊎ (status ≡ error))
      ⊎ (action ≡ stop)
        × (desired ≡ false)
        × ((status ≡ running) ⊎ (status ≡ starting) ⊎ (status ≡ error))
unfolding step
step_sound retry time desired status c action e = ground arith

-- Whatever is pending, a visit starts an instance only if a window of it is live and it is
-- stopped or failed, and stops one only if no window is live and it is running, starting or
-- failed.
pub visit_sound :
    (retry time iid : ℕ) (desired : Bool) (status : InstStatus) (s : Scheduler) (action : Action)
    → (visit retry time iid desired status s).0 ≡ some action
    → (action ≡ start) × (desired ≡ true) × ((status ≡ stopped) ⊎ (status ≡ error))
      ⊎ (action ≡ stop)
        × (desired ≡ false)
        × ((status ≡ running) ⊎ (status ≡ starting) ⊎ (status ≡ error))
visit_sound retry time iid desired status s action e =
    step_sound retry time desired status (cell iid s) action
      (sym (visit-step retry time iid iid desired status s).0 ∙ e)
