-- ===== src/Rules/Model.antt =====
-- domain/rules/models.py
use weather_agent.Prelude.{ℕ, Bool, Option, List, String}
use weather_agent.Database.{DeliveryStatus}

pub record ScheduledNotificationTurn : Type 0 where
  pub role : String
  pub text : String

pub record ScheduledNotificationContext : Type 0 where
  pub scheduling_message : String
  pub human_request : String
  pub schedule : String
  pub location_id : Option ℕ
  pub location_name : Option String
  pub prior_turns : List ScheduledNotificationTurn

pub record NotificationRule : Type 0 where
  pub id : ℕ
  pub short_id : String
  pub user_id : ℕ
  pub telegram_chat_id : ℕ
  pub telegram_message_thread_id : Option ℕ
  pub location_id : ℕ
  pub expression_language : String
  pub expression : String
  pub schedule : Option String
  pub lead_time_minutes : Option ℕ
  pub cooldown_minutes : ℕ
  pub enabled : Bool
  pub dry_run : Bool
  pub description : Option String
  pub notification_context : Option ScheduledNotificationContext
  pub snooze_until : Option ℕ
  pub created_at : ℕ
  pub updated_at : ℕ

pub record NotificationEvent : Type 0 where
  pub id : ℕ
  pub short_id : String
  pub rule_id : Option ℕ
  pub evaluation_run_id : Option ℕ
  pub telegram_chat_id : ℕ
  pub telegram_message_thread_id : Option ℕ
  pub sent_at : Option ℕ
  pub suppressed : Bool
  pub suppress_reason : Option String
  pub payload_hash : Option String
  pub message_text : Option String
  pub delivery_status : DeliveryStatus
  pub delivery_claimed_at : Option ℕ
  pub created_at : ℕ

pub record RuleCreate : Type 0 where
  pub telegram_chat_id : ℕ
  pub telegram_message_thread_id : Option ℕ
  pub location_id : ℕ
  pub expression_language : String
  pub expression : String
  pub schedule : Option String
  pub lead_time_minutes : Option ℕ
  pub cooldown_minutes : ℕ
  pub enabled : Bool
  pub dry_run : Bool
  pub description : Option String
  pub notification_context : Option ScheduledNotificationContext

-- A field that is `none` is left as it is.
pub record RuleUpdate : Type 0 where
  pub telegram_chat_id : Option ℕ
  pub telegram_message_thread_id : Option ℕ
  pub location_id : Option ℕ
  pub expression_language : Option String
  pub expression : Option String
  pub schedule : Option String
  pub lead_time_minutes : Option ℕ
  pub cooldown_minutes : Option ℕ
  pub enabled : Option Bool
  pub dry_run : Option Bool
  pub description : Option String
  pub notification_context : Option ScheduledNotificationContext
