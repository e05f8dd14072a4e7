-- ===== src/Alerts/Machines.antt =====
-- The alert machines of alerts.py as steps, and what a fired alert shows of the past.
use spark_controlplane.Prelude.{
  ℕ, ◌+◌, ◌≤◌, ◌≡◌, ◌≢◌, sym, ap, ◌∙◌, ◌⊎◌, inl, inr, true, Option, none, some, List, [], ◌∷◌,
  arith, ◌==◌, string_eq, pair_eq, pair_beq_iff, contains, if◌then◌else◌, Bool-cases, Option-cases,
  beq_eq, beq_ne, beq_refl, eq_of_some,
}
use spark_controlplane.Dict.{get, get_or}
use spark_controlplane.Dict.Laws.{get-set-setdefault}
use spark_controlplane.Alerts.{
  Fact, AlertState, new_state, fired, Transition, Key, key, States, since_or, advance, observe,
  observe_all, purge, keys_of, evaluate,
}

-- The facts seen so far with their times, the last one first.
abbrev pub Log : Type 0
Log = List (ℕ × Fact)

-- The states that a series of observed facts, and of purges of any keys, can lead to.
pub data Reach : States → Log → Type 0 where
  start : Reach [] []
  fact :
      {s : States} {log : Log} (now : ℕ) (f : Fact)
      → Reach s log
      → Reach (observe now f s).1 ((now, f) ∷ log)
  vanish : {s : States} {log : Log} (seen : List Key) → Reach s log → Reach (purge seen s) log

-- The facts of one evaluation, added to the log.
unfoldable pub logged : ℕ → List Fact → Log → Log
logged now [] log = log
logged now (f ∷ facts) log = logged now facts ((now, f) ∷ log)

observe_all-Reach :
    (now : ℕ) (facts : List Fact) (out : List Transition) (s : States) (log : Log)
    → Reach s log
    → Reach (observe_all now facts out s).1 (logged now facts log)
unfolding observe_all logged
observe_all-Reach now [] out s log r = r
observe_all-Reach now (f ∷ facts) out s log r =
    observe_all-Reach now facts _ (observe now f s).1 ((now, f) ∷ log) (fact now f r)

-- An evaluation of the alerts is a series of single observed facts, in their order, and one
-- purge.
pub evaluate-Reach :
    (now : ℕ) (facts : List Fact) (s : States) (log : Log)
    → Reach s log
    → Reach (evaluate facts now s).1 (logged now facts log)
unfolding evaluate
evaluate-Reach now facts s log r = vanish (keys_of facts) (observe_all-Reach now facts [] s log r)

-- Every fact of the key from the one at `t` up to the last one is active.
abbrev pub ActiveSince : Key → ℕ → Log → Type 0
ActiveSince k t [] = ⊥
ActiveSince k t ((u, f) ∷ log) =
    (key f ≡ k) × (f.active ≡ true) × ((u ≡ t) ⊎ ActiveSince k t log)
    ⊎ (key f ≢ k) × ActiveSince k t log

abbrev Timed : Key → Option AlertState → Log → Type 0
Timed k o log = (st : AlertState) (t : ℕ) → o ≡ some st → st.since ≡ some t → ActiveSince k t log

new_since : (t : ℕ) → none ≡ some t → ⊥
new_since t e = cc

module _ (k : Key) (now : ℕ) (f : Fact) (s : States) (log : Log) where
  advance-since :
      (st : AlertState) (t : ℕ)
      → (advance now f st).0.since ≡ some t
      → (f.active ≡ true) × ((t ≡ now) ⊎ (st.since ≡ some t))
  unfolding advance
  advance-since st t e = ground arith

  get-observe :
      get k (observe now f s).1
      ≡ (if key f == k then some (advance now f (get_or (key f) new_state s)).0 else get k s)
  unfolding observe
  get-observe =
      get-set-setdefault (key f) k (advance now f (get_or (key f) new_state s)).0 new_state s

  since-get_or :
      (t : ℕ)
      → (get_or k new_state s).since ≡ some t
      → (st : AlertState) × (get k s ≡ some st) × (st.since ≡ some t)
  unfolding get_or
  since-get_or t e = elim (Option-cases (get k s)) [
    | inl absent ↦ absurd (new_since t (rw (absent, get_or) at e))
    | inr (st, found) ↦ (st, found, rw (found, get_or) at e)
  ]

  observe-Timed : Timed k (get k s) log → Timed k (get k (observe now f s).1) ((now, f) ∷ log)
  observe-Timed timed st t found since = elim (Bool-cases (key f == k)) [
    | inr other ↦
        inr (beq_ne (key f) k other, timed st t (sym (rw other at get-observe) ∙ found) since)
    | inl same ↦
        let e = beq_eq (key f) k same in
        let was = get_or (key f) new_state s in
        let set_to = eq_of_some (sym (rw same at get-observe) ∙ found) in
        let (active, before) =
          advance-since was t (ap (λ (x : AlertState). x.since) set_to ∙ since) in
        elim before [
          | inl here ↦ inl (e, active, inl (sym here))
          | inr held ↦
              let (st₀, found₀, since₀) =
                since-get_or t (ap (λ (j : Key). (get_or j new_state s).since) (sym e) ∙ held) in
              inl (e, active, inr (timed st₀ t found₀ since₀))
        ]
  ]

get-purge :
    (seen : List Key) (k : Key) (s : States)
    → get k (purge seen s) ≡ (if contains k seen then get k s else none)
unfolding purge get
get-purge seen k [] = ground arith
get-purge seen k ((j, x) ∷ s) = ground (arith, get-purge seen k s, pair_beq_iff j k)

Reach-Timed : (k : Key) {s : States} {log : Log} → Reach s log → Timed k (get k s) log
unfolding get
Reach-Timed k start = λ st t found since. cc
Reach-Timed k (fact {s} {log} now f r) = observe-Timed k now f s log (Reach-Timed k r)
Reach-Timed k (vanish {s} {log} seen r) =
    λ st t found since. Reach-Timed k r st t (ground (arith, get-purge seen k s)) since

-- The machine of a fact fires only on the fact's own key, and at the fact's time.
advance-fired :
    (now : ℕ) (f : Fact) (st : AlertState)
    → (advance now f st).1 ≡ some fired
    → ((advance now f st).0.since ≡ some (since_or st.since now))
      × (since_or st.since now + f.sustain ≤ now)
unfolding advance
advance-fired now f st e = ground arith

-- In every state that facts and vanished subjects can lead to, an alert fires only if every fact
-- of its rule and subject, from one at some time `t` up to the one that fires it, was active, and
-- the rule's `sustain` has passed since `t`.
pub observe-fired_sustained :
    {s : States} {log : Log} (now : ℕ) (f : Fact)
    → Reach s log
    → (observe now f s).0 ≡ some fired
    → (t : ℕ) × ActiveSince (key f) t ((now, f) ∷ log) × (t + f.sustain ≤ now)
unfolding observe
observe-fired_sustained {s} {log} now f r e =
    let k = key f in
    let st = get_or k new_state s in
    let (since, long) = advance-fired now f st e in
    let found = get-observe k now f s log in
    (
      since_or st.since now,
      observe-Timed k now f s log (Reach-Timed k r) (advance now f st).0 _
          (rw (beq_refl k) at found) since,
      long,
    )
