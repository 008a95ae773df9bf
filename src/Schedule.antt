-- ===== src/Schedule.antt =====
-- domain/rules/schedule.py. What the module takes from croniter and from `datetime` is the record
-- `Calendar`.
pub mod Due
use Prim.Native.String.{◌++◌}
use weather_agent.Prelude.{
  ℕ, ◌+◌, Bool, true, false, Option, none, some, String, Result, ok, raise, value_error,
  overflow_error, leb, if◌then◌else◌, is_empty, strip, starts_with, drop_text,
}
use weather_agent.Time.{
  DateTime, aware, ZoneInfo, Zoned, Parsed, moment, not_a_date, out_of_range, ensure_aware,
  parse_datetime,
}

-- `croniter.is_valid`, `croniter(expr, now).get_prev(datetime)`, `datetime.fromisoformat` and the
-- zone Europe/Warsaw.
pub record Calendar : Type 0 where
  pub fromisoformat : String → Option DateTime
  pub warsaw : ZoneInfo
  pub is_valid : String → Bool
  pub get_prev : String → ℕ → DateTime

pub data ScheduleKind : Type 0 where
  always once cron : ScheduleKind

pub record ScheduleParseResult : Type 0 where
  pub kind : ScheduleKind
  pub error : Option String
  pub raw : String

abbrev pub valid : ScheduleParseResult → Bool
valid r = elim r.error [ none ↦ true | some _ ↦ false ]

module _ (c : Calendar) where
  abbrev pub parse_iso : String → Parsed
  unfolding parse_datetime
  parse_iso = parse_datetime c.fromisoformat c.warsaw

  -- `ValueError` is caught, `OverflowError` is not.
  abbrev pub parse_once : String → Parsed → Result ScheduleParseResult
  parse_once schedule (moment t) = ok (record { kind = once; error = none; raw = schedule })
  parse_once schedule not_a_date = ok (record {
    kind = once;
    error = some ("Invalid once datetime: " ++ drop_text 5 schedule);
    raw = schedule;
  })
  parse_once schedule out_of_range = raise overflow_error

  -- The schedule without surrounding space.
  parse_stripped : String → Result ScheduleParseResult
  unfolding parse_datetime
  parse_stripped schedule =
      if starts_with schedule "once:"
      then parse_once schedule (parse_iso (drop_text 5 schedule))
      else if starts_with schedule "cron:"
      then (let expr = drop_text 5 schedule in
          if c.is_valid expr
          then ok (record { kind = cron; error = none; raw = schedule })
          else ok (record {
            kind = cron;
            error = some ("Invalid cron expression: " ++ expr);
            raw = schedule;
          }))
      else ok (record {
        kind = always;
        error = some ("Unknown schedule format: " ++ schedule);
        raw = schedule;
      })

  unfoldable pub parse_schedule : Option String → Result ScheduleParseResult
  unfolding parse_stripped
  parse_schedule none = ok (record { kind = always; error = none; raw = "" })
  parse_schedule (some schedule) =
      if is_empty schedule
      then ok (record { kind = always; error = none; raw = "" })
      else parse_stripped (strip schedule)

  -- `now` in Warsaw, where it is an argument, or else the clock's moment.
  abbrev pub current : ℕ → Option DateTime → Option Zoned
  unfolding ensure_aware
  current clock none = ensure_aware c.warsaw (aware clock)
  current clock (some now) = ensure_aware c.warsaw now

  -- Both are of the same zone.
  abbrev pub compared : Option Zoned → Parsed → Result Bool
  compared none parsed = raise overflow_error
  compared (some now) not_a_date = raise value_error
  compared (some now) out_of_range = raise overflow_error
  compared (some now) (moment dt) = ok (leb dt.wall now.wall)

  due_by : ScheduleKind → String → Option Zoned → Result Bool
  unfolding parse_datetime
  due_by always raw now = ok true
  due_by once raw now = compared now (parse_iso (drop_text 5 raw))
  due_by cron raw now = ok true

  abbrev pub due_if : Result ScheduleParseResult → Option Zoned → Result Bool
  unfolding due_by
  due_if (raise e) now = raise e
  due_if (ok parsed) now = if valid parsed then due_by parsed.kind parsed.raw now else ok false

  unfoldable pub is_rule_due : Option String → ℕ → Option DateTime → Result Bool
  unfolding due_by parse_schedule ensure_aware
  is_rule_due schedule clock now = due_if (parse_schedule schedule) (current clock now)

  abbrev pub instant_or_raise : Option Zoned → Result (Option ℕ)
  instant_or_raise none = raise overflow_error
  instant_or_raise (some t) = ok (some t.instant)

  -- `get_prev` is asked a microsecond later; an expression that is not valid raises. The slot is that
  -- instant.
  prev_slot : Bool → String → Option Zoned → Result (Option ℕ)
  unfolding ensure_aware
  prev_slot valid expr none = raise overflow_error
  prev_slot false expr (some now) = raise value_error
  prev_slot true expr (some now) =
      instant_or_raise (ensure_aware c.warsaw (c.get_prev expr (now.instant + 1)))

  abbrev pub slot_if : Result ScheduleParseResult → Option Zoned → Result (Option ℕ)
  unfolding prev_slot
  slot_if (raise e) now = raise e
  slot_if (ok parsed) now =
      let expr = drop_text 5 parsed.raw in
      elim parsed.kind [ cron ↦ prev_slot (c.is_valid expr) expr now | _ ↦ ok none ]

  -- The slot at or before `now`.
  unfoldable pub last_cron_slot : String → ℕ → Option DateTime → Result (Option ℕ)
  unfolding prev_slot parse_schedule ensure_aware
  last_cron_slot schedule clock now = slot_if (parse_schedule (some schedule)) (current clock now)
