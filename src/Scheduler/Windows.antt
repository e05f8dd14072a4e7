-- ===== src/Scheduler/Windows.antt =====
-- The live-windows of scheduler.py, as periods of the week.
use spark_controlplane.Prelude.{
  ℕ, ◌+◌, ◌-◌, ◌*◌, ◌%◌, ◌<◌, ◌≡◌, refl, sym, ◌∙◌, inl, inr, Bool-cases, Bool, true, false, ◌&&◌,
  ◌||◌, List, [], ◌∷◌, arith, All, any, leb, ltb, ◌==◌, nat_eq, contains, if◌then◌else◌,
}
use spark_controlplane.Scheduler.{DateTime, weekday, minute_of_day, window_live}

abbrev week : ℕ
week = 7 * 1440

-- A window opens at minute `s` of day `d`, for the minutes up to the next `e` on the clock: a whole
-- day if `e` is `s`. It is live if fewer minutes than that have passed since it opened last.
abbrev pub duration : ℕ → ℕ → ℕ
duration s e = if ltb s e then e - s else e + 1440 - s

abbrev pub covers : ℕ → ℕ → DateTime → ℕ → Bool
covers s e now d =
    ltb ((weekday now * 1440 + minute_of_day now + week - (d * 1440 + s)) % week) (duration s e)

-- What the code tests of one day, for a window within the day or one past midnight.
abbrev day_test : Bool → ℕ → ℕ → DateTime → ℕ → Bool
day_test true s e now d =
    (d == weekday now) && (leb s (minute_of_day now) && ltb (minute_of_day now) e)
day_test false s e now d =
    ((d == weekday now) && leb s (minute_of_day now))
    || ((d == (weekday now + 7 - 1) % 7) && ltb (minute_of_day now) e)

abbrev day_live : ℕ → ℕ → DateTime → ℕ → Bool
day_live s e = day_test (ltb s e) s e

day_live-eq-covers :
    (s e : ℕ) (now : DateTime) (d : ℕ)
    → s < 1440
    → e < 1440
    → minute_of_day now < 1440
    → d < 7
    → day_live s e now d ≡ covers s e now d
day_live-eq-covers s e now d hs he ht hd = ground arith

same_day :
    (t : ℕ) (q : Bool) (days : List ℕ) → any (λ d. (d == t) && q) days ≡ (contains t days && q)
same_day t q [] = refl
same_day t q (d ∷ days) = ground (arith, same_day t q days)

tail_or_spill :
    (t y : ℕ) (p q : Bool) (days : List ℕ)
    → any (λ d. ((d == t) && p) || ((d == y) && q)) days
      ≡ (if contains t days && p then true else (contains y days && q))
tail_or_spill t y p q [] = refl
tail_or_spill t y p q (d ∷ days) = ground (arith, tail_or_spill t y p q days)

window_live-eq-any :
    (days : List ℕ) (s e : ℕ) (now : DateTime)
    → window_live days s e now ≡ any (day_live s e now) days
unfolding window_live
window_live-eq-any days s e now =
    let cur = minute_of_day now in
    let today = weekday now in
    let yesterday = (weekday now + 7 - 1) % 7 in
    elim (Bool-cases (ltb s e)) [
      | inl day ↦ rw day (sym (same_day today (leb s cur && ltb cur e) days))
      | inr night ↦ rw night (sym (tail_or_spill today yesterday (leb s cur) (ltb cur e) days))
    ]

any-covers :
    (s e : ℕ) (now : DateTime) (days : List ℕ)
    → s < 1440
    → e < 1440
    → minute_of_day now < 1440
    → All (λ d. d < 7) days
    → any (day_live s e now) days ≡ any (covers s e now) days
any-covers s e now [] hs he ht hd = refl
any-covers s e now (d ∷ days) hs he ht hd =
    rw (day_live-eq-covers s e now d hs he ht hd.0, any-covers s e now days hs he ht hd.1)

-- The test of the hours of today and of the rest of yesterday's window says exactly whether one of
-- the days' windows, seen as a period of the week that may run past midnight and past Sunday, is
-- live; for times of the day and days of the week.
pub window_live-eq-covers :
    (days : List ℕ) (s e : ℕ) (now : DateTime)
    → s < 1440
    → e < 1440
    → minute_of_day now < 1440
    → All (λ d. d < 7) days
    → window_live days s e now ≡ any (covers s e now) days
window_live-eq-covers days s e now hs he ht hd =
    window_live-eq-any days s e now ∙ any-covers s e now days hs he ht hd
