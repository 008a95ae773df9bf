-- ===== src/Worker/Model.antt =====
-- The worker's collaborators, its results and its state.
use weather_agent.Prelude.{ℕ, Bool, Option, List, String, Error, Result}
use weather_agent.Database.{ForecastSnapshotOrm, Point, Value, EvaluationDetail, Database}
use weather_agent.Schedule.{Calendar}
use weather_agent.Rules.Model.{NotificationRule}
use weather_agent.Rules.Rows.{RuleService}
use weather_agent.Notifications.Events.{EventService}

-- `ForecastFetchResult`
pub record ForecastFetchResult : Type 0 where
  pub snapshot_id : Option ℕ
  pub point_dicts : List Point

-- The dictionary that the expression is evaluated on; `snapshot_id` is absent or a number.
pub record EvaluationData : Type 0 where
  pub points : List Point
  pub previous_points : List Point
  pub snapshot_id : Option ℕ

-- `RuleExpressionEvaluationResult`; Python's `None` is `none`.
pub record ExpressionResult : Type 0 where
  pub result : Option Value
  pub error : Option String
  pub evaluated_metrics : List String
  pub evaluated_functions : List String

pub record EvaluationResult : Type 0 where
  pub rule_id : ℕ
  pub rule_short_id : String
  pub expression : String
  pub evaluated : Bool
  pub result : Option Bool
  pub error : Option String
  pub notification_candidate : Bool
  pub evaluation_detail : Option EvaluationDetail
  pub dry_run : Bool

pub record Message : Type 0 where
  pub chat_id : ℕ
  pub thread_id : Option ℕ
  pub text : String

-- A fetcher saves the header of a snapshot, and may raise.
abbrev pub Fetcher : Type 0
Fetcher =
    ℕ → List ForecastSnapshotOrm → Result (Option ForecastFetchResult) × List ForecastSnapshotOrm

-- Whether a message is sent at a moment.
abbrev pub Sender : Type 0
Sender = ℕ → Message → Bool

-- What the worker is built from. The evaluator, the fetcher, the sender and the generator of contents
-- are those of the constructor; `forecast_message` and `fallback_message` are the two formatters of
-- a message, `str_time` is `str` of a datetime, `local_time` its text in Warsaw's time and
-- `show_error` is `str` of an exception.
pub record Worker : Type 0 where
  pub rules : RuleService
  pub events : EventService
  pub calendar : Calendar
  pub rule_evaluation_minutes : ℕ
  pub evaluate : String → EvaluationData → ExpressionResult
  pub fetcher : Option Fetcher
  pub sender : Option Sender
  pub has_event_service : Bool
  pub has_deduplicator : Bool
  pub generator : Option (NotificationRule → Option EvaluationDetail → Option String)
  pub forecast_message : NotificationRule → Option EvaluationDetail → String
  pub fallback_message : NotificationRule → Option EvaluationDetail → String
  pub str_time : ℕ → String
  pub local_time : ℕ → String
  pub show_error : Error → String

-- The session's view of the database, what it last committed, and the messages that were sent, newest
-- first: a message is not taken back by a rollback.
pub record State : Type 0 where
  pub db : Database
  pub committed : Database
  pub outbox : List Message

abbrev pub commit : State → State
commit s = record s { committed = s.db }

abbrev pub rollback : State → State
rollback s = record s { db = s.committed }
