-- ===== src/Time.antt =====
-- domain/time.py: naive and aware datetimes, and their conversions.
use weather_agent.Prelude.{ℕ, Option, none, some, String}

-- A datetime as it is given: a naive one is a wall-clock reading, an aware one an instant; its own
-- zone does not matter, since it is converted before it is compared. Both count microseconds.
pub data DateTime : Type 0 where
  naive : ℕ → DateTime
  aware : ℕ → DateTime

-- What `value.replace(tzinfo=zone)` of a naive value stands for: its instant.
abbrev pub Zone : Type 0
Zone = ℕ → ℕ

abbrev pub utc : Zone
utc wall = wall

-- A zone with its clocks: the instant of a reading, and the reading at an instant; it has none where
-- `astimezone` raises `OverflowError`, at the ends of the calendar.
pub record ZoneInfo : Type 0 where
  pub instant_of : Zone
  pub wall_of : ℕ → Option ℕ

-- A datetime that is aware of a zone. Two of the same zone compare by their readings, also in the hour
-- that the clocks repeat; two of different zones compare by their instants.
pub record Zoned : Type 0 where
  pub wall : ℕ
  pub instant : ℕ

abbrev pub located : ℕ → Option ℕ → Option Zoned
located instant none = none
located instant (some wall) = some (record { wall = wall; instant = instant })

-- None where `astimezone` raises.
unfoldable pub ensure_aware : ZoneInfo → DateTime → Option Zoned
ensure_aware default_tz (naive wall) =
    some (record { wall = wall; instant = default_tz.instant_of wall })
ensure_aware default_tz (aware instant) = located instant (default_tz.wall_of instant)

unfoldable pub ensure_utc : Zone → DateTime → ℕ
ensure_utc naive_tz (naive wall) = naive_tz wall
ensure_utc naive_tz (aware instant) = instant

-- What parsing a text ends with: a datetime, `ValueError` or `OverflowError`.
pub data Parsed : Type 0 where
  moment : Zoned → Parsed
  not_a_date out_of_range : Parsed

abbrev pub parsed_as : Option Zoned → Parsed
parsed_as none = out_of_range
parsed_as (some t) = moment t

-- `datetime.fromisoformat` returns a value or raises `ValueError`.
unfoldable pub parse_datetime : (String → Option DateTime) → ZoneInfo → String → Parsed
unfolding ensure_aware
parse_datetime fromisoformat default_tz value = elim (fromisoformat value) [
  | none ↦ not_a_date
  | some parsed ↦ parsed_as (ensure_aware default_tz parsed)
]

unfoldable pub parse_datetime_as_utc : (String → Option DateTime) → Zone → String → Option ℕ
parse_datetime_as_utc fromisoformat naive_tz value = elim (fromisoformat value) [
  | none ↦ none
  | some parsed ↦ some (ensure_utc naive_tz parsed)
]
