-- ===== src/Expressions/Ranges.antt =====
-- domain/rule_expression/evaluator.py: the time ranges. Every datetime there is in the zone of Warsaw,
-- and datetimes of one zone compare and add as wall clocks do, so a moment is a wall-clock reading of
-- Warsaw, in microseconds since the start of 1970. An isoformat text stands for its reading.
use Prim.Native.Nat.{◌/◌, ◌%◌}
use weather_agent.Prelude.{
  ℕ, zero, suc, ◌+◌, ◌-◌, ◌*◌, ◌&&◌, Option, none, some, String, Result, ok, raise, value_error,
  ◌==◌, ltb, if◌then◌else◌,
}
use weather_agent.Prelude.Decimal.{ℤ, parse_int}
use weather_agent.Notifications.Dedupe.{minute}
use weather_agent.Retention.{day}
use weather_agent.Time.{DateTime, naive, aware}
use weather_agent.Toolbox.{take_text}

-- `_TimeRangeDict`
pub record TimeRange : Type 0 where
  pub start : ℕ
  pub end' : ℕ

-- `datetime.fromisoformat`, and the reading of Warsaw's clocks at an instant.
pub record Clock : Type 0 where
  pub fromisoformat : String → Option DateTime
  pub local : ℕ → ℕ

abbrev pub second : ℕ
second = 1_000_000

abbrev pub hour : ℕ
hour = 60 * minute

-- `datetime.combine(date, time.min)` and `datetime.combine(date, time.max.replace(microsecond=0))`
abbrev pub start_of_day : ℕ → ℕ
start_of_day date = date * day

abbrev pub end_of_day : ℕ → ℕ
end_of_day date = date * day + (day - second)

-- `now.date()`, and `date.weekday()`, which is 0 on Mondays: the first of January 1970 was a Thursday.
abbrev pub date_of : ℕ → ℕ
date_of wall = wall / day

abbrev pub weekday : ℕ → ℕ
weekday date = (date + 3) % 7

abbrev pub now_range : ℕ → TimeRange
now_range now = record { start = now; end' = now }

abbrev pub today : ℕ → TimeRange
today now = record { start = start_of_day (date_of now); end' = end_of_day (date_of now) }

abbrev pub tomorrow : ℕ → TimeRange
tomorrow now =
    let date = date_of (now + day) in record { start = start_of_day date; end' = end_of_day date }

abbrev pub saturday_of : ℕ → ℕ
saturday_of date =
    if weekday date == 6
    then date - 1
    else if weekday date == 5
    then date
    else date + (5 - weekday date)

unfoldable pub weekend : ℕ → TimeRange
weekend now =
    let saturday = saturday_of (date_of now) in
    record { start = start_of_day saturday; end' = end_of_day (saturday + 1) }

-- `moment + timedelta`
abbrev pub shift : ℕ → ℤ → ℕ
shift moment (ℤ.pos n) = moment + n
shift moment (ℤ.negsuc n) = moment - suc n

-- The argument is `timedelta(hours=float(n))`.
abbrev pub next_hours : ℕ → ℤ → TimeRange
next_hours now delta = record { start = now; end' = shift now delta }

-- `parse_datetime(text, _WARSAW)`, or `ensure_aware` of a datetime.
abbrev pub in_warsaw : Clock → DateTime → ℕ
in_warsaw clock (naive wall) = wall
in_warsaw clock (aware instant) = clock.local instant

abbrev pub parsed : Clock → Option DateTime → Result ℕ
parsed clock none = raise value_error
parsed clock (some t) = ok (in_warsaw clock t)

abbrev pub parse_wall : Clock → String → Result ℕ
parse_wall clock text = parsed clock (clock.fromisoformat text)

abbrev pub range_of : Result ℕ → Result ℕ → Result TimeRange
range_of (raise e) b = raise e
range_of (ok a) (raise e) = raise e
range_of (ok a) (ok b) = ok (record { start = a; end' = b })

unfoldable pub date_range : Clock → String → String → Result TimeRange
date_range clock start_iso end_iso =
    range_of (parse_wall clock start_iso) (parse_wall clock end_iso)

-- `text[n:m]`
abbrev pub slice_text : ℕ → ℕ → String → String
slice_text zero m text = take_text m text
slice_text (suc n) zero text = String.[]
slice_text (suc n) (suc m) String.[] = String.[]
slice_text (suc n) (suc m) (String.◌∷◌ c text) = slice_text n m text

-- `moment.replace(hour=h, minute=m)`, which raises unless they are those of a day.
abbrev pub replaced : ℕ → Option ℤ → Option ℤ → Result ℕ
replaced moment (some (ℤ.pos h)) (some (ℤ.pos m)) =
    if ltb h 24 && ltb m 60
    then ok (start_of_day (date_of moment) + h * hour + m * minute + moment % minute)
    else raise value_error
replaced moment h m = raise value_error

abbrev pub at_hhmm : ℕ → String → Result ℕ
unfolding parse_int
at_hhmm moment hhmm =
    replaced moment (parse_int (slice_text 0 2 hhmm)) (parse_int (slice_text 2 4 hhmm))

unfoldable pub between : TimeRange → String → String → Result TimeRange
unfolding parse_int
between range start_hhmm end_hhmm =
    range_of (at_hhmm range.start start_hhmm) (at_hhmm range.start end_hhmm)
