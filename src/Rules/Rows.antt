-- ===== src/Rules/Rows.antt =====
-- domain/rules/service.py: what its methods take from outside, the mapping of a row to the domain and
-- the rows that they write.
use weather_agent.Prelude.{ℕ, Option, none, some, String, ◌==◌, if◌then◌else◌, find, update_where}
use weather_agent.Database.{NotificationRuleOrm, Database}
use weather_agent.ShortId.{Choices}
use weather_agent.Rules.Model.{
  ScheduledNotificationContext, NotificationRule, RuleCreate, RuleUpdate,
}
use weather_agent.Rules.Context.{ContextCodec, notification_context_from_mapping}

-- What one call takes from outside: the clock, the engine's new key, the state of `random`.
pub record Env : Type 0 where
  pub now : ℕ
  pub new_id : ℕ
  pub call : ℕ

-- The expression's error, if it has one: `RuleExpressionEvaluator.validate`.
abbrev pub Validate : Type 0
Validate = String → Option String

-- What the service is built from.
pub record RuleService : Type 0 where
  pub choices : Choices
  pub validate : Validate
  pub codec : ContextCodec

-- `orm.cooldown_minutes or 60`
abbrev pub cooldown_or_default : Option ℕ → ℕ
cooldown_or_default none = 60
cooldown_or_default (some minutes) = if minutes == 0 then 60 else minutes

-- `value if value is not None else old`
abbrev pub given {ℓ} : {A : Type ℓ} → Option A → A → A
given none old = old
given (some value) old = value

abbrev pub given_optional {ℓ} : {A : Type ℓ} → Option A → Option A → Option A
given_optional none old = old
given_optional (some value) old = some value

module _ (codec : ContextCodec) where
  unfoldable pub orm_to_domain : NotificationRuleOrm → NotificationRule
  orm_to_domain orm = record {
    id = orm.id;
    short_id = orm.short_id;
    user_id = orm.user_id;
    telegram_chat_id = orm.telegram_chat_id;
    telegram_message_thread_id = orm.telegram_message_thread_id;
    location_id = orm.location_id;
    expression_language = orm.expression_language;
    expression = orm.expression;
    schedule = orm.schedule;
    lead_time_minutes = orm.lead_time_minutes;
    cooldown_minutes = cooldown_or_default orm.cooldown_minutes;
    enabled = orm.enabled;
    dry_run = orm.dry_run;
    description = orm.description;
    notification_context = notification_context_from_mapping codec orm.notification_context;
    snooze_until = orm.snooze_until;
    created_at = orm.created_at;
    updated_at = orm.updated_at;
  }

  abbrev pub dumped : Option ScheduledNotificationContext → Option String
  dumped none = none
  dumped (some context) = some (codec.model_dump context)

  -- The row that `create_rule` adds.
  unfoldable pub new_rule : Env → ℕ → String → RuleCreate → NotificationRuleOrm
  new_rule env user_id short_id create = record {
    id = env.new_id;
    short_id = short_id;
    user_id = user_id;
    telegram_chat_id = create.telegram_chat_id;
    telegram_message_thread_id = create.telegram_message_thread_id;
    location_id = create.location_id;
    expression_language = create.expression_language;
    expression = create.expression;
    schedule = create.schedule;
    lead_time_minutes = create.lead_time_minutes;
    cooldown_minutes = some create.cooldown_minutes;
    enabled = create.enabled;
    dry_run = create.dry_run;
    snooze_until = none;
    description = create.description;
    notification_context = dumped create.notification_context;
    created_at = env.now;
    updated_at = env.now;
  }

  -- The assignments of `update_rule`.
  unfoldable pub updated : ℕ → RuleUpdate → NotificationRuleOrm → NotificationRuleOrm
  updated now update orm = record orm {
    telegram_chat_id = given update.telegram_chat_id orm.telegram_chat_id;
    telegram_message_thread_id =
        given_optional update.telegram_message_thread_id orm.telegram_message_thread_id;
    location_id = given update.location_id orm.location_id;
    expression_language = given update.expression_language orm.expression_language;
    expression = given update.expression orm.expression;
    schedule = given_optional update.schedule orm.schedule;
    lead_time_minutes = given_optional update.lead_time_minutes orm.lead_time_minutes;
    cooldown_minutes = given_optional update.cooldown_minutes orm.cooldown_minutes;
    enabled = given update.enabled orm.enabled;
    dry_run = given update.dry_run orm.dry_run;
    description = given_optional update.description orm.description;
    notification_context =
        given_optional (dumped update.notification_context) orm.notification_context;
    updated_at = now;
  }

-- `session.get(NotificationRuleORM, rule_id)`
abbrev pub get_orm : ℕ → Database → Option NotificationRuleOrm
get_orm rule_id db = find (λ r. r.id == rule_id) db.rules

-- Assignments to the object that `session.get` returned, flushed.
abbrev pub assign : ℕ → (NotificationRuleOrm → NotificationRuleOrm) → Database → Database
assign rule_id f db = record db { rules = update_where (λ r. r.id == rule_id) f db.rules }
