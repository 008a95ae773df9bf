-- ===== src/Toolbox/Model.antt =====
-- The toolbox, and `PendingConfirmation` of application/conversation_models.py. `to_dict` and
-- `from_dict`, which are pydantic's `model_dump` and `model_validate`, `str.lower` and `str.upper`, the
-- characters of a word of `re`, the text of an exception and the geocoder are parameters.
use Prim.Native.Char.{Char}
use weather_agent.Prelude.{ℕ, Bool, Option, List, String, Result, Action, Error}
use weather_agent.Database.{Database}
use weather_agent.Polish.{Unicode}
use weather_agent.Schedule.{Calendar}
use weather_agent.Rules.Model.{ScheduledNotificationContext}
use weather_agent.Rules.Rows.{Env, RuleService}

pub data PendingAction : Type 0 where
  create_rule edit_rule schedule_notification delete_notification : PendingAction

-- `stored_at` is the instant whose isoformat it is.
pub record PendingConfirmation : Type 0 where
  pub action : PendingAction
  pub rule_expression : String
  pub explanation : String
  pub validated : Bool
  pub location_id : Option ℕ
  pub chat_id : Option ℕ
  pub message_thread_id : Option ℕ
  pub stored_at : Option ℕ
  pub edit_short_id : Option String
  pub delete_short_id : Option String
  pub schedule : Option String
  pub lead_time_minutes : Option ℕ
  pub notification_context : Option ScheduledNotificationContext

pub record PendingCodec : Type 0 where
  pub to_dict : PendingConfirmation → String
  pub from_dict : String → Option PendingConfirmation

-- What the geocoder returns of a place.
pub record Place : Type 0 where
  pub name : String
  pub latitude : String
  pub longitude : String

-- The object and its collaborators.
pub record RulesToolbox : Type 0 where
  pub service : RuleService
  pub unicode : Unicode
  pub calendar : Calendar
  pub upper : String → String
  pub is_word : Char → Bool
  pub pending : PendingCodec
  pub geocode : String → Result (Option Place)
  pub show_error : Error → String
  pub context_key : String
  pub user_id : ℕ
  pub chat_id : ℕ
  pub message_thread_id : Option ℕ
  pub current_user_message : String

-- What a call takes from outside: the environment of the rule service, with the moment of the call, and
-- the keys that the engine gives to a new context and a new location.
pub record ToolEnv : Type 0 where
  pub rules : Env
  pub context_id : ℕ
  pub location_id : ℕ

pub record ListedRule : Type 0 where
  pub short_id : String
  pub expression : String
  pub description : String
  pub enabled : Bool
  pub location_id : ℕ

-- The dictionary that a tool returns, by its keys: `error`; `answer` and perhaps `short_id`; `proposal`
-- with `pending`; `rules` with `count`.
pub data ToolResult : Type 0 where
  error : String → ToolResult
  answer : String → Option String → ToolResult
  proposal : String → ToolResult
  rules : List ListedRule → ℕ → ToolResult

abbrev pub Tool : Type 0
Tool = Action Database ToolResult
