-- ===== src/Examples/Fixtures.antt =====
-- A calendar, the collaborators of the services, a rule and a database, for the examples.
use weather_agent.Prelude.{
  ℕ, ◌+◌, Bool, true, false, none, some, [], ◌∷◌, String, if◌then◌else◌, str_eq, ◌==◌,
}
use weather_agent.Database.{
  NotificationRuleOrm, NotificationEventOrm, RuleEvaluationRunOrm, sending, sent, boolean,
  EvaluationDetail, Database,
}
use weather_agent.Time.{naive, aware}
use weather_agent.Schedule.{Calendar}
use weather_agent.ShortId.{Choices}
use weather_agent.Rules.Model.{NotificationRule, RuleCreate, RuleUpdate}
use weather_agent.Rules.Context.{ContextCodec}
use weather_agent.Rules.Rows.{Env, RuleService}
use weather_agent.Notifications.Dedupe.{Hashing, DedupeKey, NotificationCandidate}
use weather_agent.Notifications.Events.{EventService}
use weather_agent.Worker.Model.{Worker, EvaluationResult, EvaluationData, State}
use weather_agent.Worker.Cycle.{Steps}

abbrev pub calendar : Calendar
calendar = record {
  fromisoformat = λ s. if str_eq s "2026-05-02T08:00" then some (naive 1000) else none;
  warsaw = record { instant_of = λ wall. wall + 7; wall_of = λ t. some t };
  is_valid = λ s. str_eq s "0 8 * * *";
  get_prev = λ s now. aware 90;
}

abbrev pub codec : ContextCodec
codec = record {
  model_dump = λ c. c.human_request;
  model_validate = λ s. none;
  json_dumps = λ c. c.human_request;
  lower = λ s. s;
}

abbrev pub choices : Choices
choices alphabet length call = if call == 0 then "AAAA" else "CCCC"

abbrev pub service : RuleService
service = record {
  choices = choices;
  validate = λ e. if str_eq e "bad" then some "syntax" else none;
  codec = codec;
}

abbrev pub hashing : Hashing
hashing = record {
  sha256 = λ s. s;
  json_dumps = λ d. "{}";
  isoformat = λ t. "t";
  show = λ n. if n == 1 then "1" else "0";
}

abbrev pub event_service : EventService
event_service = record { choices = choices; hashing = hashing }

abbrev pub row : ℕ → String → NotificationRuleOrm
row id short_id = record {
  id = id;
  short_id = short_id;
  user_id = 7;
  telegram_chat_id = 70;
  telegram_message_thread_id = none;
  location_id = 3;
  expression_language = "cel";
  expression = "x > 1";
  schedule = some "once:2026-05-02T08:00";
  lead_time_minutes = none;
  cooldown_minutes = some 0;
  enabled = true;
  dry_run = false;
  snooze_until = none;
  description = none;
  notification_context = none;
  created_at = 1;
  updated_at = 1;
}

abbrev pub rule : NotificationRule
rule = record {
  id = 1;
  short_id = "RAAAA";
  user_id = 7;
  telegram_chat_id = 70;
  telegram_message_thread_id = none;
  location_id = 3;
  expression_language = "cel";
  expression = "x > 1";
  schedule = none;
  lead_time_minutes = none;
  cooldown_minutes = 60;
  enabled = true;
  dry_run = false;
  description = none;
  notification_context = none;
  snooze_until = none;
  created_at = 1;
  updated_at = 1;
}

abbrev pub empty_db : Database
empty_db = record {
  users = [];
  locations = [];
  settings = [];
  contexts = [];
  snapshots = [];
  points = [];
  observations = [];
  warned_locations = [];
  rules = [];
  events = [];
  runs = [];
  audit = [];
}

abbrev pub two_rules : Database
two_rules = record empty_db { rules = row 2 "RBBBB" ∷ row 1 "RAAAA" ∷ [] }

abbrev pub create_data : RuleCreate
create_data = record {
  telegram_chat_id = 70;
  telegram_message_thread_id = none;
  location_id = 3;
  expression_language = "cel";
  expression = "x > 1";
  schedule = none;
  lead_time_minutes = none;
  cooldown_minutes = 0;
  enabled = true;
  dry_run = false;
  description = none;
  notification_context = none;
}

abbrev pub no_update : RuleUpdate
no_update = record {
  telegram_chat_id = none;
  telegram_message_thread_id = none;
  location_id = none;
  expression_language = none;
  expression = none;
  schedule = none;
  lead_time_minutes = none;
  cooldown_minutes = none;
  enabled = none;
  dry_run = none;
  description = none;
  notification_context = none;
}

abbrev pub env : Env
env = record { now = 100; new_id = 9; call = 0 }

abbrev pub key : DedupeKey
key = record {
  rule_id = 1;
  location_id = 3;
  expression_hash = "x > 1";
  forecast_window_start = none;
  forecast_window_end = none;
  dedupe_key = "1:3:x";
}

abbrev pub claimed : NotificationEventOrm
claimed = record {
  id = 5;
  short_id = "EAAAA";
  rule_id = some 1;
  evaluation_run_id = none;
  telegram_chat_id = 70;
  telegram_message_thread_id = none;
  sent_at = none;
  suppressed = false;
  suppress_reason = none;
  payload_hash = some "1:3:x";
  message_text = none;
  delivery_status = sending;
  delivery_claimed_at = some 50;
  created_at = 50;
}

abbrev pub with_event : NotificationEventOrm → Database
with_event e = record two_rules { events = e ∷ [] }

-- A rule with a text that the evaluator refuses.
abbrev pub bad_data : RuleCreate
bad_data = record create_data { expression = "bad" }

abbrev pub detail : EvaluationDetail
detail = record {
  rule_id = 1;
  rule_short_id = "RAAAA";
  location_id = 3;
  snapshot_id = none;
  point_count = 1;
  error = none;
  evaluated_metrics = [];
  evaluated_functions = [];
  expression_result = none;
  expression_error = none;
  forecast_window_start = none;
  forecast_window_end = none;
  forecast_points = none;
  key_metrics = none;
  evaluation_run_id = none;
}

abbrev pub run : ℕ → ℕ → RuleEvaluationRunOrm
run id evaluated_at = record {
  id = id;
  rule_id = 1;
  snapshot_id = none;
  evaluated_at = evaluated_at;
  result = true;
  evaluation_detail = detail;
  created_at = evaluated_at;
}

abbrev pub evaluated_rules : Database
evaluated_rules = record two_rules { runs = run 1 90 ∷ [] }

abbrev pub candidate : NotificationCandidate
candidate = record {
  rule_id = 1;
  location_id = 3;
  expression = "x > 1";
  forecast_window_start = some 5;
  forecast_window_end = some 6;
  payload = some detail;
  dry_run = false;
}

abbrev pub delivered : NotificationEventOrm
delivered = record claimed { delivery_status = sent; sent_at = some 60 }

-- A later moment, with the next key.
abbrev pub later : Env
later = record { now = 5000000000; new_id = 10; call = 1 }

abbrev pub nobody : Database → Database
nobody db = db

-- A worker whose expressions hold, and whose sender accepts every message.
abbrev pub worker : Worker
worker = record {
  rules = service;
  events = event_service;
  calendar = calendar;
  rule_evaluation_minutes = 30;
  evaluate = λ e d. record {
    result = some (boolean true);
    error = none;
    evaluated_metrics = [];
    evaluated_functions = [];
  };
  fetcher = none;
  sender = some (λ now m. true);
  has_event_service = true;
  has_deduplicator = true;
  generator = none;
  forecast_message = λ r d. "forecast";
  fallback_message = λ r d. "scheduled";
  str_time = λ t. "t";
  local_time = λ t. "t";
  show_error = λ e. "error";
}

abbrev pub answer : NotificationRule → Bool → EvaluationResult
answer rule candidate = record {
  rule_id = rule.id;
  rule_short_id = rule.short_id;
  expression = rule.expression;
  evaluated = true;
  result = some candidate;
  error = none;
  notification_candidate = candidate;
  evaluation_detail = some detail;
  dry_run = false;
}

abbrev pub start : Database → State
start db = record { db = db; committed = db; outbox = [] }

abbrev pub once_rule : NotificationRule
once_rule = record rule { schedule = some "once:2026-05-02T08:00" }

abbrev pub cron_rule : NotificationRule
cron_rule = record rule { schedule = some "cron:0 8 * * *" }

-- One point of the weather, in the future.
abbrev pub data_with_point : EvaluationData
data_with_point = record {
  points = record { target_time = some 200; metrics = [] } ∷ [];
  previous_points = [];
  snapshot_id = none;
}

abbrev pub steps : Steps
steps = record {
  claim_now = 100;
  acquired = true;
  evaluating = λ n. env;
  delivering = λ n. env;
  others = λ n db. db;
}
