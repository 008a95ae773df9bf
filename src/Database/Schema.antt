-- ===== src/Database/Schema.antt =====
-- The mapped classes of infrastructure/db/base.py. A `datetime` column is an instant, in
-- microseconds; a nullable column is an `Option`. Columns of JSON that no modelled code reads into,
-- and floating-point columns, which no modelled code computes with, are texts. Telegram's ids are
-- only compared and printed; where a text is read back as an id, they are integers. Columns that no modelled code reads or writes are left out.
use weather_agent.Prelude.{ℕ, Bool, Option, List, String}
use weather_agent.Prelude.Decimal.{ℤ}
use weather_agent.Database.Detail.{EvaluationDetail, Value}

pub record AuthorizedUserOrm : Type 0 where
  pub id : ℕ
  pub telegram_user_id : ℕ
  pub role : String

pub record LocationOrm : Type 0 where
  pub id : ℕ
  pub user_id : ℕ
  pub name : String
  pub aliases : List String
  pub latitude : String
  pub longitude : String
  pub description : Option String
  pub enabled : Bool
  pub created_at : ℕ
  pub updated_at : ℕ

pub record GlobalSettingOrm : Type 0 where
  pub key : String
  pub value : String

-- One turn of a conversation, with the keys that are written or read. A `timestamp` is the instant
-- whose isoformat it is.
pub record Turn : Type 0 where
  pub role : Option String
  pub text : Option String
  pub answer_summary : Option String
  pub timestamp : Option ℕ

-- The dictionary of a context, with the keys of infrastructure/memory/thread_memory.py, its only
-- writer; a key that is missing is none. A pending confirmation is the JSON that `to_dict` gives.
pub record Metadata : Type 0 where
  pub turns : Option (List Turn)
  pub turns_stored_at : Option ℕ
  pub turns_ttl_days : Option ℕ
  pub pending_confirmation : Option String
  pub pending_confirmation_stored_at : Option ℕ

pub record TelegramContextOrm : Type 0 where
  pub id : ℕ
  pub chat_id : ℤ
  pub message_thread_id : Option ℤ
  pub context_key : String
  pub metadata : Metadata
  pub created_at : ℕ
  pub updated_at : ℕ

pub record ForecastSnapshotOrm : Type 0 where
  pub id : ℕ
  pub location_id : ℕ
  pub fetched_at : ℕ

-- The metrics are the columns that may be NULL, by name.
pub record ForecastPointOrm : Type 0 where
  pub id : ℕ
  pub snapshot_id : ℕ
  pub location_id : ℕ
  pub target_time : ℕ
  pub metrics : List (String × Option Value)

pub record ObservationOrm : Type 0 where
  pub id : ℕ
  pub location_id : ℕ
  pub observed_at : ℕ

pub record NotificationRuleOrm : Type 0 where
  pub id : ℕ
  pub short_id : String
  pub user_id : ℕ
  pub telegram_chat_id : ℕ
  pub telegram_message_thread_id : Option ℕ
  pub location_id : ℕ
  pub expression_language : String
  pub expression : String
  pub schedule : Option String
  pub lead_time_minutes : Option ℕ
  pub cooldown_minutes : Option ℕ
  pub enabled : Bool
  pub dry_run : Bool
  pub snooze_until : Option ℕ
  pub description : Option String
  pub notification_context : Option String
  pub created_at : ℕ
  pub updated_at : ℕ

-- The values of the column `delivery_status`.
pub data DeliveryStatus : Type 0 where
  pending sending sent suppressed : DeliveryStatus

pub record NotificationEventOrm : Type 0 where
  pub id : ℕ
  pub short_id : String
  pub rule_id : Option ℕ
  pub evaluation_run_id : Option ℕ
  pub telegram_chat_id : ℕ
  pub telegram_message_thread_id : Option ℕ
  pub sent_at : Option ℕ
  pub suppressed : Bool
  pub suppress_reason : Option String
  pub payload_hash : Option String
  pub message_text : Option String
  pub delivery_status : DeliveryStatus
  pub delivery_claimed_at : Option ℕ
  pub created_at : ℕ

pub record RuleEvaluationRunOrm : Type 0 where
  pub id : ℕ
  pub rule_id : ℕ
  pub snapshot_id : Option ℕ
  pub evaluated_at : ℕ
  pub result : Bool
  pub evaluation_detail : EvaluationDetail
  pub created_at : ℕ

pub record AuditLogOrm : Type 0 where
  pub event_type : String
  pub user_id : Option ℕ
  pub created_at : ℕ

pub record Database : Type 0 where
  pub users : List AuthorizedUserOrm
  pub locations : List LocationOrm
  pub settings : List GlobalSettingOrm
  pub contexts : List TelegramContextOrm
  pub snapshots : List ForecastSnapshotOrm
  pub points : List ForecastPointOrm
  pub observations : List ObservationOrm
  -- The column `location_id` of official_warnings, whose rows are in Providers.Archive.
  pub warned_locations : List ℕ
  pub rules : List NotificationRuleOrm
  pub events : List NotificationEventOrm
  pub runs : List RuleEvaluationRunOrm
  pub audit : List AuditLogOrm
