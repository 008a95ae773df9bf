-- ===== src/Expressions/Weekend.antt =====
-- What the ranges of days are.
use weather_agent.Prelude.{ℕ, ◌+◌, ◌*◌, ◌≤◌, ◌<◌, ◌≡◌, refl, arith}
use weather_agent.Retention.{day}
use weather_agent.Expressions.Ranges.{weekend, saturday_of, weekday, date_of, start_of_day, second}

saturday_is : (date : ℕ) → 6 ≤ date → weekday (saturday_of date) ≡ 5
saturday_is date h = ground arith

saturday_near :
    (date : ℕ) → 6 ≤ date → (date ≤ saturday_of date + 1) × (saturday_of date ≤ date + 5)
saturday_near date h = ground arith

date_of-start_of_day : (date : ℕ) → date_of (start_of_day date) ≡ date
date_of-start_of_day date = omega arith

-- From the seventh of January 1970 on, the weekend starts with a Saturday, lasts until the last second
-- of the Sunday behind it, is not over, and starts within five days.
pub weekend_lem :
    (now : ℕ)
    → 6 * day ≤ now
    → let range = weekend now in
      (weekday (date_of range.start) ≡ 5)
      × (range.start ≡ start_of_day (date_of range.start))
      × (range.end' + second ≡ range.start + 2 * day)
      × (now < range.end' + second)
      × (range.start ≤ now + 5 * day)
unfolding weekend
weekend_lem now h =
    let date = date_of now in
    let enough : 6 ≤ date = omega arith in
    let same = date_of-start_of_day (saturday_of date) in
    let (lower, upper) = saturday_near date enough in
    (
      rw same (saturday_is date enough),
      rw same refl,
      omega arith,
      omega (arith, lower),
      omega (arith, upper),
    )
