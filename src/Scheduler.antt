-- ===== src/Scheduler.antt =====
-- backend/app/services/scheduler.py: weekly live-windows of the instances.
-- A `datetime` is its day, counted from a Monday, and the microseconds since that day's midnight,
-- on the wall clock of the schedule's time zone.
pub mod Windows
pub mod Desired
pub mod Tick
mod Tests
use spark_controlplane.Prelude.{
  ℕ, zero, suc, ◌+◌, ◌-◌, ◌*◌, ◌/◌, ◌%◌, Bool, true, false, ◌&&◌, ◌||◌, Option, none, some, List,
  [], ◌∷◌, ◌++◌, leb, ltb, ◌==◌, nat_eq, contains, if◌then◌else◌,
}
use spark_controlplane.Text.{Text, split, partition, strip, isdigit, digits_value, to_int}

pub record DateTime : Type 0 where
  pub day : ℕ
  pub time : ℕ

abbrev pub minute : ℕ
minute = 60_000_000

abbrev pub weekday : DateTime → ℕ
weekday t = t.day % 7

-- now.hour * 60 + now.minute
abbrev pub minute_of_day : DateTime → ℕ
minute_of_day t = t.time / minute

-- The row of a live-window.
pub record InstanceSchedule : Type 0 where
  pub instance_id : ℕ
  pub days : Text
  pub start_time : Text
  pub end_time : Text
  pub enabled : Bool

-- A set of numbers, as the list of those that were added.
unfoldable pub parse_parts : List ℕ → List Text → List ℕ
parse_parts out [] = out
parse_parts out (p ∷ ps) =
    let part = strip p in
    let n = digits_value 0 part in
    let more = if contains n out then out else out ++ n ∷ [] in
    parse_parts (if isdigit part && leb n 6 then more else out) ps

unfoldable pub parse_days : Text → List ℕ
unfolding parse_parts split strip isdigit digits_value
parse_days csv = parse_parts [] (split b',' csv)

infixl 5 ◌>>=◌
abbrev pub ◌>>=◌ {ℓ κ} : {A : Type ℓ} {B : Type κ} → Option A → (A → Option B) → Option B
none >>= f = none
some a >>= f = f a

-- `none` is a ValueError; a time is HH:MM, which `_TIME_RE` of routers/schedules.py sees to.
unfoldable pub minutes : Text → Option ℕ
unfolding partition to_int
minutes hhmm = do
  let (h, m) = partition b':' hhmm
  hours ← to_int h
  mins ← to_int m
  some (hours * 60 + mins)

-- The window of `s` to `e`, minutes of the day.
unfoldable pub window_live : List ℕ → ℕ → ℕ → DateTime → Bool
window_live days s e now =
    let cur = minute_of_day now in
    let today = weekday now in
    let yesterday = (weekday now + 7 - 1) % 7 in
    if ltb s e
    then contains today days && (leb s cur && ltb cur e)
    else if contains today days && leb s cur
    then true
    else contains yesterday days && ltb cur e

unfoldable pub window_active : List ℕ → Text → Text → DateTime → Option Bool
unfolding minutes window_live
window_active days start end now = do
  s ← minutes start
  e ← minutes end
  some (window_live days s e now)

-- `any` stops at the first live window.
unfoldable pub desired_state : List InstanceSchedule → DateTime → Option Bool
unfolding window_active parse_days
desired_state [] now = some false
desired_state (s ∷ schedules) now =
    let rest = desired_state schedules now in
    if s.enabled
    then (do
      live ← window_active (parse_days s.days) s.start_time s.end_time now
      if live then some true else rest)
    else rest
