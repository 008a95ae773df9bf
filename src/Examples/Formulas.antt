-- ===== src/Examples/Formulas.antt =====
-- Expressions, ranges and aggregations.
use Prim.Native.Char.{Char}
use Prim.Native.Nat.{◌/◌}
use weather_agent.Prelude.{
  str_eq, if◌then◌else◌, ℕ, ◌+◌, ◌-◌, ◌*◌, ◌<◌, ◌≤◌, ◌≡◌, refl, arith, true, false, not, ◌&&◌, none,
  some, Option, String, Bool, List, [], ◌∷◌, ok, ltb, ◌==◌, strip, is_empty, is_some,
}
use weather_agent.Prelude.Decimal.{ℤ}
use weather_agent.Retention.{day}
use weather_agent.Time.{naive}
use weather_agent.Expressions.Ranges.{
  TimeRange, Clock, weekend, weekday, date_of, start_of_day, second, hour,
}
use weather_agent.Expressions.Weekend.{weekend_lem}
use weather_agent.Expressions.Numbers.{Numbers, IsOrder}
use weather_agent.Expressions.Metrics.{
  Point, moment, clamp, metric_values, min_metric, max_metric, delta_metric,
}
use weather_agent.Expressions.Extremes.{Bounds, clamp_bounds, min_metric-max_metric}
use weather_agent.Expressions.Scanner.{
  function_names_from, identifiers_from, macro_variables, without_literals_from,
}
use weather_agent.Expressions.Validation.{
  validate_expression, is_valid, is_known_function, is_known_name, function_names, names_used,
}
use weather_agent.Expressions.Names.{every, validate_expression-valid}
use weather_agent.Expressions.Evaluator.{
  Promised, returned, validation_error, Cel, Data, value, exception, evaluate, has_value, run,
  validation_context, context_of, evaluate-Promised,
}

-- A Monday in 2024, at ten.
abbrev monday : ℕ
monday = 19_723 * day + 10 * hour

weekend_lem_example :
    (weekday (date_of (weekend monday).start) ≡ 5)
    × ((weekend monday).start ≡ start_of_day (date_of (weekend monday).start))
    × ((weekend monday).end' + second ≡ (weekend monday).start + 2 * day)
    × (monday < (weekend monday).end' + second)
    × ((weekend monday).start ≤ monday + 5 * day)
weekend_lem_example = weekend_lem monday (omega arith)

-- The natural numbers in place of the floating-point ones.
abbrev pub naturals : Numbers
naturals = record {
  F = ℕ;
  lt = ltb;
  is_zero = λ a. a == 0;
  add = λ a b. a + b;
  sub = λ a b. a - b;
  mul = λ a b. a * b;
  div = λ a b. a / b;
  abs = λ a. a;
  sqrt = λ a. a;
  of_nat = λ a. a;
  floor = λ a. ℤ.pos a;
  ceil = λ a. ℤ.pos a;
}

pub ltb_irreflexive : (a : ℕ) → ltb a a ≡ false
ltb_irreflexive a = ground arith

pub ltb_asymmetric : (a b : ℕ) → ltb a b ≡ true → ltb b a ≡ false
ltb_asymmetric a b h = ground arith

pub ltb_transitive : (a b c : ℕ) → ltb b a ≡ false → ltb c b ≡ false → ltb c a ≡ false
ltb_transitive a b c g h = ground arith

abbrev pub natural_order : IsOrder naturals
natural_order = record {
  irreflexive = ltb_irreflexive;
  asymmetric = ltb_asymmetric;
  transitive = ltb_transitive;
}

abbrev clock : Clock
clock = record { fromisoformat = λ s. none; local = λ t. t + hour }

abbrev points : List (Point naturals clock)
points =
    (some (moment (naive 10)), ("rain_mm", some 4) ∷ [])
    ∷ (some (moment (naive 11)), ("rain_mm", some 2) ∷ ("weather_code", none) ∷ [])
    ∷ (some (moment (naive 12)), ("rain_mm", some 7) ∷ [])
    ∷ (some (moment (naive 20)), ("rain_mm", some 1) ∷ [])
    ∷ []

abbrev range : TimeRange
range = record { start = 10; end' = 12 }

clamp_bounds_test :
    (ltb (clamp naturals clock 9 2 5) 2 ≡ false) × (ltb 5 (clamp naturals clock 9 2 5) ≡ false)
clamp_bounds_test = clamp_bounds naturals clock natural_order 9 2 5 refl

min_metric-max_metric_example :
    Bounds naturals clock natural_order points [] false
      (min_metric naturals clock points [] false "rain_mm" range)
      (max_metric naturals clock points [] false "rain_mm" range)
      (4 ∷ 2 ∷ 7 ∷ [])
unfolding metric_values
min_metric-max_metric_example =
    min_metric-max_metric naturals clock natural_order points [] false "rain_mm" range
      (4 ∷ 2 ∷ 7 ∷ []) refl

min_metric_test : min_metric naturals clock points [] false "rain_mm" range ≡ ok 2
unfolding min_metric
min_metric_test = refl

delta_metric_test : delta_metric naturals clock points [] false "rain_mm" range ≡ ok 3
unfolding delta_metric
delta_metric_test = refl

abbrev no_word : Char → Bool
no_word c = false

abbrev compiles : String → Option String
compiles s = none

validate_expression-valid_example :
    let s = strip " max_metric('rain_mm', today()) > 1.5 " in
    is_valid (validate_expression no_word compiles " max_metric('rain_mm', today()) > 1.5 ") ≡ (
      not (is_empty s)
      && every is_known_function (function_names no_word compiles s)
      && every (is_known_name no_word compiles s) (names_used no_word compiles s)
      && not (is_some (compiles s)))
validate_expression-valid_example =
    validate_expression-valid no_word compiles " max_metric('rain_mm', today()) > 1.5 "

accepts_test :
    is_valid (
      validate_expression no_word compiles
        "points_between(next_hours(12)).exists(p, p.precipitation_mm > 0.2)")
    ≡ true
unfolding validate_expression function_names_from macro_variables identifiers_from
accepts_test = refl

refuses_test :
    (validate_expression no_word compiles "rain('a') > snow").error
    ≡ some "Unknown functions: ['rain']; Unknown metrics/variables: ['snow']"
unfolding validate_expression function_names_from macro_variables identifiers_from
refuses_test = refl

literals_test : without_literals_from 0 "f('a\\'b', \"c\") + 'd" ≡ "f(, ) + 'd"
literals_test = refl

points_test :
    (validate_expression no_word compiles "size(points) > 0").error
    ≡ some "Unknown metrics/variables: ['points']"
unfolding validate_expression function_names_from macro_variables identifiers_from
points_test = refl

-- CEL that runs an expression on data with points only; its value false stands for a list.
abbrev cel : Cel naturals clock
cel = record {
  Value = Bool;
  refused = λ v. if v then none else some "Input should be a valid boolean";
  compile_error = compiles;
  execute = λ s c. elim c.data'.points [
    | [] ↦ exception "no points"
    | p ∷ ps ↦ value (str_eq s "rain_mm > 3")
  ];
  isoformat = λ t. "2024-01-01T10:00:00+01:00";
}

abbrev forecast : Data naturals clock
forecast = record { points = points; previous_points = [] }

evaluate-Promised_example :
    Promised naturals clock cel no_word
      (naive monday)
      (is_valid (validate_expression no_word cel.compile_error "rain_mm > 3")
        && has_value naturals clock cel no_word (naive monday) (
            run naturals clock cel "rain_mm > 3"
              (validation_context naturals clock cel.isoformat (naive monday))))
      (run naturals clock cel "rain_mm > 3" (context_of naturals clock cel.isoformat forecast))
      (evaluate naturals clock cel no_word (naive monday) "rain_mm > 3" forecast)
unfolding strip
evaluate-Promised_example =
    evaluate-Promised naturals clock cel no_word (naive monday) "rain_mm > 3" forecast

evaluate_test :
    evaluate naturals clock cel no_word (naive monday) "rain_mm > 3" forecast
    ≡ returned (record {
      expression = "rain_mm > 3";
      result = some true;
      error = none;
      evaluated_metrics = "rain_mm" ∷ [];
      evaluated_functions = [];
    })
unfolding evaluate
evaluate_test = refl

evaluate_list_test :
    evaluate naturals clock cel no_word (naive monday) "points_between(today())" forecast
    ≡ validation_error "Input should be a valid boolean"
unfolding evaluate
evaluate_list_test = refl
