-- ===== src/Alerts.antt =====
-- backend/app/services/alerts.py: the state machines of the alerts, one for each rule and subject.
-- Times and the `sustain` durations are whole microseconds.
pub mod Machines
mod Tests
use spark_controlplane.Prelude.{
  ℕ, zero, suc, ◌+◌, String, Bool, true, false, not, ◌&&◌, Option, none, some, List, [], ◌∷◌, ◌++◌,
  leb, ltb, ◌==◌, string_eq, pair_eq, contains, if◌then◌else◌,
}
use spark_controlplane.Dict.{Dict, get, get_or, set, setdefault, keys, pop}

pub record Fact : Type 0 where
  pub rule : String
  pub subject : String
  pub active : Bool
  pub sustain : ℕ
  pub severity : String
  pub message : String

-- `_State`
pub record AlertState : Type 0 where
  pub since : Option ℕ
  pub fired : Bool
  pub alert_id : Option ℕ
  pub message : String
  pub severity : String

abbrev pub new_state : AlertState
new_state = record { since = none; fired = false; alert_id = none; message = ""; severity = "warn" }

pub data Event : Type 0 where
  fired resolved : Event

pub record Transition : Type 0 where
  pub event : Event
  pub fact : Fact

abbrev pub Key : Type 0
Key = String × String

abbrev pub key : Fact → Key
key f = (f.rule, f.subject)

abbrev pub States : Type 0
States = Dict Key AlertState

-- `st.since`, once it is set
abbrev pub since_or : Option ℕ → ℕ → ℕ
since_or none now = now
since_or (some t) now = t

-- What one fact does to the state of its key: the new state, and the event.
unfoldable pub advance : ℕ → Fact → AlertState → AlertState × Option Event
advance now f st =
    let since = since_or st.since now in
    let held = record st { since = some since } in
    if not f.active
    then (new_state, if st.fired then some resolved else none)
    else if not st.fired && leb (since + f.sustain) now
    then (record held { fired = true; message = f.message; severity = f.severity }, some fired)
    else (held, none)

-- The body of the loop over the facts.
unfoldable pub observe : ℕ → Fact → States → Option Event × States
unfolding advance
observe now f states =
    let (st, event) = advance now f (get_or (key f) new_state states) in
    (event, set (key f) st (setdefault (key f) new_state states))

unfoldable pub observe_all : ℕ → List Fact → List Transition → States → List Transition × States
unfolding observe
observe_all now [] out states = (out, states)
observe_all now (f ∷ facts) out states =
    let (event, states') = observe now f states in
    observe_all now facts
      (elim event [ none ↦ out | some e ↦ out ++ record { event = e; fact = f } ∷ [] ]) states'

-- `for key in list(self._states.keys() - seen): del self._states[key]`
unfoldable pub purge : List Key → States → States
purge seen [] = []
purge seen ((k, st) ∷ states) =
    if contains k seen then (k, st) ∷ purge seen states else purge seen states

abbrev pub keys_of : List Fact → List Key
keys_of [] = []
keys_of (f ∷ facts) = key f ∷ keys_of facts

-- AlertManager.evaluate
unfoldable pub evaluate : List Fact → ℕ → States → List Transition × States
unfolding observe_all purge
evaluate facts now states =
    let (out, states') = observe_all now facts [] states in (out, purge (keys_of facts) states')

-- An entry of AlertManager.active.
pub record Banner : Type 0 where
  pub rule : String
  pub subject : String
  pub message : String
  pub severity : String
  pub since : Option ℕ
  pub alert_id : Option ℕ

abbrev pub sort_key : Banner → ℕ
sort_key b = since_or b.since 0

-- `sorted(out, key=lambda a: a["since"] or 0)`, which keeps the order of equals.
unfoldable pub insert : Banner → List Banner → List Banner
insert b [] = b ∷ []
insert b (c ∷ cs) = if ltb (sort_key b) (sort_key c) then b ∷ c ∷ cs else c ∷ insert b cs

unfoldable pub banners : States → List Banner
banners [] = []
banners (((rule, subject), st) ∷ states) =
    if st.fired
    then record {
      rule = rule;
      subject = subject;
      message = st.message;
      severity = st.severity;
      since = st.since;
      alert_id = st.alert_id;
    }
      ∷ banners states
    else banners states

unfoldable pub sort_from : List Banner → List Banner → List Banner
unfolding insert
sort_from out [] = out
sort_from out (b ∷ bs) = sort_from (insert b out) bs

-- AlertManager.active
unfoldable pub active : States → List Banner
unfolding banners sort_from
active states = sort_from [] (banners states)
