-- ===== src/Database/Detail.antt =====
-- The evaluation detail that the worker stores with a run, a dictionary in the source: a key that is
-- absent is `none`. Values of a CEL expression other than booleans are carried by the name of their
-- type and their text; the code never computes with them here.
use weather_agent.Prelude.{ℕ, Bool, Option, List, String}

pub data Value : Type 0 where
  boolean : Bool → Value
  other : String → String → Value

-- A forecast point as the dictionary that the evaluator reads.
pub record Point : Type 0 where
  pub target_time : Option ℕ
  pub metrics : List (String × Value)

-- A point of the notification, with its time as text.
pub record CompactPoint : Type 0 where
  pub time : String
  pub metrics : List (String × Value)

pub record EvaluationDetail : Type 0 where
  pub rule_id : ℕ
  pub rule_short_id : String
  pub location_id : ℕ
  pub snapshot_id : Option ℕ
  pub point_count : ℕ
  pub error : Option String
  pub evaluated_metrics : List String
  pub evaluated_functions : List String
  pub expression_result : Option Value
  pub expression_error : Option String
  pub forecast_window_start : Option String
  pub forecast_window_end : Option String
  pub forecast_points : Option (List CompactPoint)
  pub key_metrics : Option (List (String × Option Value))
  pub evaluation_run_id : Option ℕ
