-- ===== src/Worker/Finish.antt =====
-- How the evaluation of a rule ends: `_finish_evaluation`, `_finish_forecast_refresh_failed`,
-- `_save_evaluation_run` and `_notification_forecast_points`.
use Prim.Native.String.{◌++◌}
use weather_agent.Prelude.{
  ℕ, ◌&&◌, Bool, true, false, is_some, Option, none, some, List, [], ◌∷◌, map, String, Result, ok,
  raise, Action, str_eq, if◌then◌else◌, last?, take, length,
}
use weather_agent.Database.{
  RuleEvaluationRunOrm, Point, CompactPoint, Value, boolean, other, EvaluationDetail, Database,
  run_conflict, insert_row,
}
use weather_agent.Rules.Model.{NotificationRule}
use weather_agent.Rules.Rows.{Env}
use weather_agent.Worker.Model.{EvaluationData, ExpressionResult, EvaluationResult, Worker}

-- The run that is saved: its result is true only where the expression was evaluated.
unfoldable pub new_run : Env → ℕ → Bool → Bool → EvaluationDetail → RuleEvaluationRunOrm
new_run env rule_id evaluated result detail = record {
  id = env.new_id;
  rule_id = rule_id;
  snapshot_id = detail.snapshot_id;
  evaluated_at = env.now;
  result = result && evaluated;
  evaluation_detail = detail;
  created_at = env.now;
}

unfoldable pub save_evaluation_run :
    Env → ℕ → Bool → Bool → EvaluationDetail → Action Database RuleEvaluationRunOrm
unfolding new_run
save_evaluation_run env rule_id evaluated result detail db =
    let orm = new_run env rule_id evaluated result detail in
    elim (insert_row run_conflict orm db.runs) [
      | raise e ↦ (raise e, db)
      | ok rows ↦ (ok orm, record db { runs = rows })
    ]

-- The detail without the keys that a branch adds.
abbrev pub base_detail : NotificationRule → Option ℕ → ℕ → EvaluationDetail
base_detail rule snapshot_id point_count = record {
  rule_id = rule.id;
  rule_short_id = rule.short_id;
  location_id = rule.location_id;
  snapshot_id = snapshot_id;
  point_count = point_count;
  error = none;
  evaluated_metrics = [];
  evaluated_functions = [];
  expression_result = none;
  expression_error = none;
  forecast_window_start = none;
  forecast_window_end = none;
  forecast_points = none;
  key_metrics = none;
  evaluation_run_id = none;
}

abbrev pub result_of :
    NotificationRule
    → Bool
    → Option Bool
    → Option String
    → Bool
    → EvaluationDetail
    → Bool
    → EvaluationResult
result_of rule evaluated result error candidate detail dry_run = record {
  rule_id = rule.id;
  rule_short_id = rule.short_id;
  expression = rule.expression;
  evaluated = evaluated;
  result = result;
  error = error;
  notification_candidate = candidate;
  evaluation_detail = some detail;
  dry_run = dry_run;
}

-- A result that stands once its run is saved.
abbrev pub saved :
    EvaluationResult → Result RuleEvaluationRunOrm × Database → Result EvaluationResult × Database
saved result (ok run, db) = (ok result, db)
saved result (raise e, db) = (raise e, db)

-- An evaluation that failed for the given reason.
unfoldable pub finish_failed :
    Env → NotificationRule → Bool → Option ℕ → String → Action Database EvaluationResult
finish_failed env rule dry_run snapshot_id reason db =
    let detail = record (base_detail rule snapshot_id 0) { error = some reason } in
    saved (result_of rule false none (some reason) false detail dry_run)
      (save_evaluation_run env rule.id false false detail db)

-- `point.get(metric)`
abbrev pub lookup_metric : String → List (String × Value) → Option Value
lookup_metric name [] = none
lookup_metric name ((n, v) ∷ rest) = if str_eq n name then some v else lookup_metric name rest

-- The keys of `_METRIC_LABELS`, in order.
abbrev pub metric_labels : List String
metric_labels =
    "temperature_2m_c" ∷ "apparent_temperature_c" ∷ "precipitation_mm"
    ∷ "precipitation_probability_pct" ∷ "rain_mm" ∷ "snowfall_cm" ∷ "cloud_cover_pct"
    ∷ "wind_speed_10m_ms" ∷ "wind_gusts_10m_ms" ∷ "wind_direction_10m_deg" ∷ "pressure_msl_hpa"
    ∷ "relative_humidity_2m_pct" ∷ []

abbrev pub if_present : String → Option Value → List (String × Value) → List (String × Value)
if_present name none rest = rest
if_present name (some v) rest = (name, v) ∷ rest

abbrev pub labelled : List String → List (String × Value) → List (String × Value)
labelled [] metrics = []
labelled (name ∷ names) metrics =
    if_present name (lookup_metric name metrics) (labelled names metrics)

-- The outcome of the expression: its truth if it is a boolean, and else an error.
abbrev pub value_error_text : Option Value → String
value_error_text none = "Expression did not return boolean, got NoneType: None"
value_error_text (some (boolean b)) = ""
value_error_text (some (other type_name text)) =
    "Expression did not return boolean, got " ++ type_name ++ ": " ++ text

abbrev pub outcome : Option String → Option Value → Option Bool × Option String
outcome (some error) value = (none, some error)
outcome none (some (boolean b)) = (some b, none)
outcome none value = (none, some (value_error_text value))

abbrev pub is_true : Option Bool → Bool
is_true (some true) = true
is_true _ = false

module _ (worker : Worker) where
  abbrev pub time_text : Point → String
  time_text p = elim p.target_time [ none ↦ "" | some t ↦ worker.str_time t ]

  abbrev pub compact : Point → CompactPoint
  compact p = record {
    time = elim p.target_time [ none ↦ "None" | some t ↦ worker.local_time t ];
    metrics = labelled metric_labels p.metrics;
  }

  -- The first day's points.
  unfoldable pub notification_forecast_points : List Point → List CompactPoint
  notification_forecast_points points = map compact (take 24 points)

  abbrev pub key_metrics : List String → Point → List (String × Option Value)
  key_metrics metrics first = map (λ m. (m, lookup_metric m first.metrics)) metrics

  -- What a candidate's detail has beside the rest.
  abbrev pub with_window : ExpressionResult → List Point → EvaluationDetail → EvaluationDetail
  with_window r [] detail = record detail {
    forecast_window_start = some "";
    forecast_window_end = some "";
    forecast_points = some [];
    key_metrics = some (map (λ m. (m, none)) r.evaluated_metrics);
  }
  with_window r (first ∷ rest) detail = record detail {
    forecast_window_start = some (time_text first);
    forecast_window_end = some (elim (last? (first ∷ rest)) [ none ↦ "" | some p ↦ time_text p ]);
    forecast_points = some (notification_forecast_points (first ∷ rest));
    key_metrics = some (key_metrics r.evaluated_metrics first);
  }

  abbrev pub evaluated_detail :
      NotificationRule → ExpressionResult → EvaluationData → EvaluationDetail
  evaluated_detail rule r evaluation_data =
      record (base_detail rule evaluation_data.snapshot_id (length evaluation_data.points)) {
        evaluated_metrics = r.evaluated_metrics;
        evaluated_functions = r.evaluated_functions;
        expression_result = r.result;
        expression_error = r.error;
      }

  -- The run's id is added to a candidate's detail once the run is saved.
  abbrev pub with_run :
      Bool → EvaluationDetail → Result RuleEvaluationRunOrm × Database → EvaluationDetail
  with_run true detail (ok run, db) = record detail { evaluation_run_id = some run.id }
  with_run _ detail _ = detail

  abbrev pub finish_with :
      Env
      → NotificationRule
      → Bool
      → EvaluationData
      → ExpressionResult
      → Action Database EvaluationResult
  finish_with env rule dry_run evaluation_data r db =
      let (value, error) = outcome r.error r.result in
      let candidate = is_true value in
      let evaluated = is_some value in
      let detail = evaluated_detail rule r evaluation_data in
      let full = if candidate then with_window r evaluation_data.points detail else detail in
      let out = save_evaluation_run env rule.id evaluated candidate full db in
      saved (result_of rule evaluated value error candidate (with_run candidate full out) dry_run)
        out

  -- Without points there is nothing to evaluate.
  abbrev pub finish_on :
      List Point → Env → NotificationRule → Bool → EvaluationData → Action Database EvaluationResult
  finish_on [] env rule dry_run evaluation_data =
      finish_failed env rule dry_run evaluation_data.snapshot_id "no_forecast_data"
  finish_on (_ ∷ _) env rule dry_run evaluation_data =
      finish_with env rule dry_run evaluation_data (worker.evaluate rule.expression evaluation_data)

  unfoldable pub finish_evaluation :
      Env → NotificationRule → Bool → EvaluationData → Action Database EvaluationResult
  unfolding save_evaluation_run finish_failed notification_forecast_points
  finish_evaluation env rule dry_run evaluation_data =
      finish_on evaluation_data.points env rule dry_run evaluation_data
