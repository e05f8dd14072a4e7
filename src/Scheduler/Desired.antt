-- ===== src/Scheduler/Desired.antt =====
-- `desired_state` of scheduler.py, from the texts of the rows to the weekly periods.
use spark_controlplane.Prelude.{
  ℕ, ◌+◌, ◌*◌, ◌<◌, ◌≡◌, refl, ap, ◌∙◌, inl, inr, Bool-cases, Bool, ◌&&◌, none, some, List, [], ◌∷◌,
  ◌++◌, arith, All, any, leb, nat_eq, contains,
}
use spark_controlplane.Text.{Text, split, strip, isdigit, digits_value}
use spark_controlplane.Scheduler.{
  DateTime, InstanceSchedule, minute_of_day, parse_parts, parse_days, minutes, window_live,
  window_active, desired_state,
}
use spark_controlplane.Scheduler.Windows.{covers, window_live-eq-covers}

-- Two digits, a colon and two digits are read as a time of the day.
minutes_of_clock :
    (a b c d : ℕ)
    → a < 10
    → b < 10
    → c < 10
    → d < 10
    → minutes ((b'0' + a) ∷ (b'0' + b) ∷ b':' ∷ (b'0' + c) ∷ (b'0' + d) ∷ [])
      ≡ some ((a * 10 + b) * 60 + (c * 10 + d))
unfolding minutes
minutes_of_clock a b c d ha hb hc hd = ground arith

All-snoc : (n k : ℕ) (xs : List ℕ) → All (λ x. x < k) xs → n < k → All (λ x. x < k) (xs ++ n ∷ [])
All-snoc n k [] h lt = (lt, tt)
All-snoc n k (x ∷ xs) h lt = (h.0, All-snoc n k xs h.1 lt)

parse_parts-lt :
    (out : List ℕ) (parts : List Text)
    → All (λ x. x < 7) out
    → All (λ x. x < 7) (parse_parts out parts)
unfolding parse_parts
parse_parts-lt out [] h = h
parse_parts-lt out (p ∷ ps) h =
    let part = strip p in
    let n = digits_value 0 part in
    elim (Bool-cases (isdigit part && leb n 6)) [
      | inr skip ↦ rw skip (parse_parts-lt out ps h)
      | inl good ↦ elim (Bool-cases (contains n out)) [
        | inl old ↦ rw (good, old) (parse_parts-lt out ps h)
        | inr new ↦
            rw (good, new) (parse_parts-lt (out ++ n ∷ []) ps (All-snoc n 7 out h (ground arith)))
      ]
    ]

-- Whatever the text, only weekdays come out of it.
parse_days-lt : (csv : Text) → All (λ x. x < 7) (parse_days csv)
unfolding parse_days
parse_days-lt csv = parse_parts-lt [] (split b',' csv) tt

abbrev pub time_of : Text → ℕ
time_of text = elim (minutes text) [ none ↦ 0 | some m ↦ m ]

-- The text is a time of the day.
abbrev pub IsClock : Text → Type 0
IsClock text = (minutes text ≡ some (time_of text)) × (time_of text < 1440)

abbrev pub IsValid : InstanceSchedule → Type 0
IsValid s = IsClock s.start_time × IsClock s.end_time

abbrev pub live_at : DateTime → InstanceSchedule → Bool
live_at now s =
    s.enabled && any (covers (time_of s.start_time) (time_of s.end_time) now) (parse_days s.days)

window_active-some :
    (days : List ℕ) (start end : Text) (s e : ℕ) (now : DateTime)
    → minutes start ≡ some s
    → minutes end ≡ some e
    → window_active days start end now ≡ some (window_live days s e now)
unfolding window_active
window_active-some days start end s e now hs he = rw (hs, he)

window_active-eq-covers :
    (s : InstanceSchedule) (now : DateTime)
    → IsValid s
    → minute_of_day now < 1440
    → window_active (parse_days s.days) s.start_time s.end_time now
      ≡ some (any (covers (time_of s.start_time) (time_of s.end_time) now) (parse_days s.days))
window_active-eq-covers s now (opens, closes) ht =
    window_active-some (parse_days s.days) s.start_time s.end_time _ _ now opens.0 closes.0
    ∙ ap some (
        window_live-eq-covers (parse_days s.days) _ _ now opens.1 closes.1 ht
          (parse_days-lt s.days))

-- For rows whose texts are times of the day, `desired_state` raises nothing, and says exactly
-- whether some enabled row has a window, of any of its days, that is live: a period of the week
-- that may run past midnight and past Sunday.
pub desired_state-eq-live :
    (schedules : List InstanceSchedule) (now : DateTime)
    → All IsValid schedules
    → minute_of_day now < 1440
    → desired_state schedules now ≡ some (any (live_at now) schedules)
unfolding desired_state
desired_state-eq-live [] now valid ht = refl
desired_state-eq-live (s ∷ schedules) now valid ht =
    let rest = desired_state-eq-live schedules now valid.1 ht in
    let first = window_active-eq-covers s now valid.0 ht in ground (arith, rest, first)
