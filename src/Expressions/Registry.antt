-- ===== src/Expressions/Registry.antt =====
-- domain/rule_expression/registry.py: the table of the functions, without the texts for the prompt.
-- domain/rule_expression/allowlist.py takes its names from it.
use weather_agent.Prelude.{
  ℕ, Bool, true, false, Option, none, some, is_some, List, [], ◌∷◌, map, String, select, any, ◌==◌,
}

pub data FunctionCategory : Type 0 where
  time_range_helpers aggregation change_trend condition_over_time numeric : FunctionCategory

pub record FunctionSpec : Type 0 where
  pub name : String
  pub category : FunctionCategory
  pub arity : List ℕ
  pub metric_arg : Option ℕ
  pub time_range_arg : Option ℕ
  pub previous_snapshot_arg : Option ℕ
  pub returns_time_range : Bool

abbrev pub allows_arity : FunctionSpec → ℕ → Bool
allows_arity spec arity = any (λ n. n == arity) spec.arity

abbrev pub spec :
    String → FunctionCategory → List ℕ → Option ℕ → Option ℕ → Option ℕ → Bool → FunctionSpec
spec name category arity metric_arg time_range_arg previous_snapshot_arg returns_time_range =
    record {
      name = name;
      category = category;
      arity = arity;
      metric_arg = metric_arg;
      time_range_arg = time_range_arg;
      previous_snapshot_arg = previous_snapshot_arg;
      returns_time_range = returns_time_range;
    }

abbrev pub function_specs : List FunctionSpec
function_specs =
    spec "now" time_range_helpers (0 ∷ []) none none none true
    ∷ spec "today" time_range_helpers (0 ∷ []) none none none true
    ∷ spec "tomorrow" time_range_helpers (0 ∷ []) none none none true
    ∷ spec "weekend" time_range_helpers (0 ∷ []) none none none true
    ∷ spec "next_hours" time_range_helpers (1 ∷ []) none none none true
    ∷ spec "date_range" time_range_helpers (2 ∷ []) none none none true
    ∷ spec "between" time_range_helpers (3 ∷ []) none (some 0) none true
    ∷ spec "minutes" time_range_helpers (1 ∷ []) none none none false
    ∷ spec "hours" time_range_helpers (1 ∷ []) none none none false
    ∷ spec "previous_snapshot" time_range_helpers (0 ∷ []) none none none false
    ∷ spec "min_metric" aggregation (2 ∷ []) (some 0) (some 1) none false
    ∷ spec "max_metric" aggregation (2 ∷ []) (some 0) (some 1) none false
    ∷ spec "avg_metric" aggregation (2 ∷ []) (some 0) (some 1) none false
    ∷ spec "sum_metric" aggregation (2 ∷ []) (some 0) (some 1) none false
    ∷ spec "median_metric" aggregation (2 ∷ []) (some 0) (some 1) none false
    ∷ spec "stddev_metric" aggregation (2 ∷ []) (some 0) (some 1) none false
    ∷ spec "pctl_metric" aggregation (3 ∷ []) (some 0) (some 1) none false
    ∷ spec "delta_metric" change_trend (2 ∷ []) (some 0) (some 1) none false
    ∷ spec "abs_delta_metric" change_trend (2 ∷ []) (some 0) (some 1) none false
    ∷ spec "rate_of_change_metric" change_trend (2 ∷ []) (some 0) (some 1) none false
    ∷ spec "forecast_delta_metric" change_trend (3 ∷ []) (some 0) (some 1) (some 2) false
    ∷ spec "points_between" condition_over_time (1 ∷ []) none (some 0) none false
    ∷ spec "duration_minutes" condition_over_time (1 ∷ []) none none none false
    ∷ spec "abs" numeric (1 ∷ []) none none none false
    ∷ spec "round" numeric (1 ∷ 2 ∷ []) none none none false
    ∷ spec "clamp" numeric (3 ∷ []) none none none false
    ∷ []

abbrev pub all_function_names : List String
all_function_names = map (λ (s : FunctionSpec). s.name) function_specs

abbrev pub metric_function_names : List String
metric_function_names =
    map (λ (s : FunctionSpec). s.name) (select (λ s. is_some s.metric_arg) function_specs)

abbrev pub time_range_function_names : List String
time_range_function_names =
    map (λ (s : FunctionSpec). s.name) (select (λ s. s.returns_time_range) function_specs)
