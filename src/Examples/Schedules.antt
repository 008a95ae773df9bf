-- ===== src/Examples/Schedules.antt =====
-- Schedules.
use weather_agent.Prelude.{
  ◌≡◌, refl, true, false, Option, String, leb, if◌then◌else◌, none, some, ok, raise, overflow_error,
  strip, starts_with, drop_text,
}
use weather_agent.Time.{aware, parse_datetime, ensure_aware}
use weather_agent.Schedule.{Calendar, is_rule_due, parse_schedule}
use weather_agent.Schedule.Due.{Due}
use weather_agent.Examples.Fixtures.{calendar}

once_due : is_rule_due calendar (some " once:2026-05-02T08:00 ") 2000 none ≡ ok true
unfolding is_rule_due parse_schedule strip starts_with drop_text parse_datetime ensure_aware
once_due = refl

abbrev in_may : Option String
in_may = some "once:2026-05-02T08:00"

abbrev far : Calendar
far = record {
  fromisoformat = λ s. some (aware 9000);
  warsaw = record { instant_of = λ wall. wall; wall_of = λ t. if leb t 8000 then some t else none };
  is_valid = λ s. false;
  get_prev = λ s now. aware now;
}

once_overflows :
    is_rule_due far (some "once:9999-12-31T23:59:00+00:00") 2000 none ≡ raise overflow_error
unfolding is_rule_due parse_schedule strip starts_with drop_text parse_datetime ensure_aware
once_overflows = refl
