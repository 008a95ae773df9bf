-- ===== src/Rules/Service.antt =====
-- domain/rules/service.py: the methods of the rule service, as actions on the database or as queries
-- of it.
use weather_agent.Prelude.{
  ℕ, ◌&&◌, Bool, true, false, Option, none, some, List, map, String, integrity_error,
  rule_not_found, expression_validation, Result, ok, raise, Action, ◌==◌, str_eq, str_eq_sql,
  eq_sql, if◌then◌else◌, is_empty, any, select, find, delete_where, scalar_one_or_none, order_by,
}
use weather_agent.Database.{
  NotificationRuleOrm, NotificationEventOrm, Database, rule_conflict, insert_row,
}
use weather_agent.ShortId.{
  generate_short_id, strip_hash_prefix, max_collision_retries, unique_short_id,
}
use weather_agent.Rules.Model.{
  ScheduledNotificationContext, NotificationRule, RuleCreate, RuleUpdate,
}
use weather_agent.Rules.Context.{notification_context_fingerprint}
use weather_agent.Rules.Rows.{Env, RuleService, orm_to_domain, new_rule, updated, get_orm, assign}

-- `validation.error or "Invalid rule expression"`
abbrev pub error_or_default : String → String
error_or_default error = if is_empty error then "Invalid rule expression" else error

-- The `where` clauses of `list_rules`.
abbrev pub listed : ℕ → Bool → NotificationRuleOrm → Bool
listed user_id include_disabled r =
    r.user_id == user_id && (if include_disabled then true else r.enabled)

-- `telegram_message_thread_id IS NULL`, or equal to the one that is given.
abbrev pub thread_matches : Option ℕ → Option ℕ → Bool
thread_matches none none = true
thread_matches none (some column) = false
thread_matches (some thread) column = eq_sql column thread

-- The `where` clauses of `find_matching_scheduled_rule`.
abbrev pub scheduled_matches : ℕ → ℕ → Option ℕ → ℕ → String → String → NotificationRuleOrm → Bool
scheduled_matches user_id chat_id thread_id location_id expression schedule r =
    r.user_id == user_id
    && r.telegram_chat_id == chat_id
    && r.location_id == location_id
    && str_eq r.expression expression
    && str_eq_sql r.schedule schedule
    && r.enabled
    && thread_matches thread_id r.telegram_message_thread_id

module _ (service : RuleService) where
  unfoldable pub generate_unique_short_id : Env → Database → Result String
  generate_unique_short_id env db =
      unique_short_id (λ r. r.short_id) (λ call. generate_short_id service.choices call "R" 4)
        max_collision_retries db.rules env.call

  abbrev pub validate_expression : String → Result (Unit {0})
  validate_expression expression = elim (service.validate expression) [
    | none ↦ ok tt
    | some error ↦ raise (expression_validation expression (error_or_default error))
  ]

  -- `session.add(orm)`, flushed.
  abbrev pub add_rule : NotificationRuleOrm → Action Database NotificationRule
  add_rule orm db = elim (insert_row rule_conflict orm db.rules) [
    | ok rows ↦ (ok (orm_to_domain service.codec orm), record db { rules = rows })
    | raise e ↦ (raise e, db)
  ]

  unfoldable pub create_rule : Env → ℕ → RuleCreate → Action Database NotificationRule
  create_rule env user_id create db = elim (validate_expression create.expression) [
    | raise e ↦ (raise e, db)
    | ok _ ↦ elim (generate_unique_short_id env db) [
      | raise e ↦ (raise e, db)
      | ok short_id ↦ add_rule (new_rule service.codec env user_id short_id create) db
    ]
  ]

  unfoldable pub list_rules : ℕ → Bool → Database → List NotificationRule
  list_rules user_id include_disabled db =
      map (orm_to_domain service.codec)
        (order_by (λ r. r.id) (select (listed user_id include_disabled) db.rules))

  unfoldable pub list_all_enabled_rules : Database → List NotificationRule
  list_all_enabled_rules db =
      map (orm_to_domain service.codec) (order_by (λ r. r.id) (select (λ r. r.enabled) db.rules))

  abbrev pub same_fingerprint : Option ScheduledNotificationContext → NotificationRule → Bool
  same_fingerprint context candidate =
      str_eq (notification_context_fingerprint service.codec candidate.notification_context)
        (notification_context_fingerprint service.codec context)

  unfoldable pub find_matching_scheduled_rule :
      ℕ
      → ℕ
      → Option ℕ
      → ℕ
      → String
      → String
      → Option ScheduledNotificationContext
      → Database
      → Option NotificationRule
  find_matching_scheduled_rule user_id chat_id thread_id location_id expression schedule context
        db =
      find (same_fingerprint context) (
        map (orm_to_domain service.codec) (
          order_by (λ r. r.id)
            (select (scheduled_matches user_id chat_id thread_id location_id expression schedule)
              db.rules)))

  abbrev pub to_domain : Option NotificationRuleOrm → Option NotificationRule
  to_domain none = none
  to_domain (some orm) = some (orm_to_domain service.codec orm)

  abbrev pub to_domain_result :
      Result (Option NotificationRuleOrm) → Result (Option NotificationRule)
  to_domain_result (ok o) = ok (to_domain o)
  to_domain_result (raise e) = raise e

  unfoldable pub get_rule : Option ℕ → Option String → Database → Result (Option NotificationRule)
  get_rule (some rule_id) short_id db = ok (to_domain (get_orm rule_id db))
  get_rule none (some short_id) db =
      let clean_id = strip_hash_prefix short_id in
      to_domain_result (scalar_one_or_none (select (λ r. str_eq r.short_id clean_id) db.rules))
  get_rule none none db = ok none

  unfoldable pub get_rule_for_user :
      ℕ → Option ℕ → Option String → Database → Result (Option NotificationRule)
  get_rule_for_user user_id (some rule_id) short_id db =
      to_domain_result
        (scalar_one_or_none (select (λ r. r.user_id == user_id && r.id == rule_id) db.rules))
  get_rule_for_user user_id none (some short_id) db =
      let clean_id = strip_hash_prefix short_id in
      to_domain_result (
        scalar_one_or_none
          (select (λ r. r.user_id == user_id && str_eq r.short_id clean_id) db.rules))
  get_rule_for_user user_id none none db = ok none

  -- The object is changed, flushed and read back.
  abbrev pub change :
      ℕ → (NotificationRuleOrm → NotificationRuleOrm) → Action Database NotificationRule
  change rule_id f db = elim (get_orm rule_id db) [
    | none ↦ (raise (rule_not_found rule_id), db)
    | some orm ↦ (ok (orm_to_domain service.codec (f orm)), assign rule_id f db)
  ]

  abbrev pub validate_update : Option String → Result (Unit {0})
  validate_update none = ok tt
  validate_update (some expression) = validate_expression expression

  unfoldable pub update_rule : ℕ → ℕ → RuleUpdate → Action Database NotificationRule
  update_rule now rule_id update db = elim (get_orm rule_id db) [
    | none ↦ (raise (rule_not_found rule_id), db)
    | some orm ↦ elim (validate_update update.expression) [
      | raise e ↦ (raise e, db)
      | ok _ ↦ change rule_id (updated service.codec now update) db
    ]
  ]

  unfoldable pub enable_rule : ℕ → ℕ → Action Database NotificationRule
  enable_rule now rule_id = change rule_id (λ orm. record orm { enabled = true; updated_at = now })

  unfoldable pub disable_rule : ℕ → ℕ → Action Database NotificationRule
  disable_rule now rule_id =
      change rule_id (λ orm. record orm { enabled = false; updated_at = now })

  unfoldable pub snooze_rule : ℕ → ℕ → ℕ → Action Database NotificationRule
  snooze_rule now rule_id until =
      change rule_id (λ orm. record orm { snooze_until = some until; updated_at = now })

  unfoldable pub set_dry_run : ℕ → ℕ → Bool → Action Database NotificationRule
  set_dry_run now rule_id dry_run =
      change rule_id (λ orm. record orm { dry_run = dry_run; updated_at = now })

-- `ON DELETE SET NULL` of an event's rule.
abbrev pub unlink : ℕ → NotificationEventOrm → NotificationEventOrm
unlink rule_id event =
    if eq_sql event.rule_id rule_id then record event { rule_id = none } else event

-- A run refers to its rule, and its foreign key has no `ON DELETE`: a rule that has been evaluated is
-- not deleted.
unfoldable pub delete_rule : ℕ → Action Database Bool
delete_rule rule_id db = elim (get_orm rule_id db) [
  | none ↦ (ok false, db)
  | some orm ↦
      if any (λ run. run.rule_id == rule_id) db.runs then (raise integrity_error, db) else (
        ok true,
        record db {
          rules = delete_where (λ r. r.id == rule_id) db.rules;
          events = map (unlink rule_id) db.events;
        },
      )
]
