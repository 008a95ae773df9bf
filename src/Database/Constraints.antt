-- ===== src/Database/Constraints.antt =====
-- The unique constraints, the foreign keys and the partial index of infrastructure/db/base.py, and
-- the statements that they guard. A statement that breaks one raises `IntegrityError` and changes
-- nothing.
use weather_agent.Prelude.{
  ℕ, Bool, true, false, ◌&&◌, ◌||◌, Option, some, List, ◌∷◌, String, integrity_error, Result, ok,
  raise, ◌==◌, str_eq, if◌then◌else◌, any,
}
use weather_agent.Database.Schema.{
  TelegramContextOrm, AuthorizedUserOrm, GlobalSettingOrm, LocationOrm, NotificationRuleOrm,
  DeliveryStatus, NotificationEventOrm, RuleEvaluationRunOrm, suppressed,
}

-- `delivery_status.in_(("pending", "sending", "sent"))`
abbrev pub is_active_status : DeliveryStatus → Bool
is_active_status suppressed = false
is_active_status _ = true

-- Equal values of a column that is not NULL in either row.
abbrev pub same_number : Option ℕ → Option ℕ → Bool
same_number (some a) (some b) = a == b
same_number _ _ = false

abbrev pub same_text : Option String → Option String → Bool
same_text (some a) (some b) = str_eq a b
same_text _ _ = false

-- The partial unique index `uq_notification_events_rule_payload_active`.
abbrev pub same_claim : NotificationEventOrm → NotificationEventOrm → Bool
same_claim a b =
    is_active_status a.delivery_status
    && is_active_status b.delivery_status
    && same_number a.rule_id b.rule_id
    && same_text a.payload_hash b.payload_hash

-- Rows that may not stand in the table together: by the primary key, the unique `short_id` or the
-- partial index.
abbrev pub event_conflict : NotificationEventOrm → NotificationEventOrm → Bool
event_conflict a b = a.id == b.id || str_eq a.short_id b.short_id || same_claim a b

abbrev pub rule_conflict : NotificationRuleOrm → NotificationRuleOrm → Bool
rule_conflict a b = a.id == b.id || str_eq a.short_id b.short_id

abbrev pub user_conflict : AuthorizedUserOrm → AuthorizedUserOrm → Bool
user_conflict a b = a.id == b.id || a.telegram_user_id == b.telegram_user_id

abbrev pub setting_conflict : GlobalSettingOrm → GlobalSettingOrm → Bool
setting_conflict a b = str_eq a.key b.key

abbrev pub location_conflict : LocationOrm → LocationOrm → Bool
location_conflict a b = a.id == b.id

abbrev pub context_conflict : TelegramContextOrm → TelegramContextOrm → Bool
context_conflict a b = a.id == b.id || str_eq a.context_key b.context_key

abbrev pub run_conflict : RuleEvaluationRunOrm → RuleEvaluationRunOrm → Bool
run_conflict a b = a.id == b.id

-- `session.add(row)` and `flush` on one table.
module _ {ℓ} {A : Type ℓ} (conflict : A → A → Bool) where
  abbrev pub insert_row : A → List A → Result (List A)
  insert_row x xs = if any (conflict x) xs then raise integrity_error else ok (x ∷ xs)
