-- ===== src/Rules/Matching.antt =====
-- `find_matching_scheduled_rule`, by which a notification that is already scheduled is found again.
use weather_agent.Prelude.{
  ℕ, ◌≡◌, refl, ap, ◌∙◌, Bool, true, ◌&&◌, Option, none, some, String, arith, str_eq_sql, eq_iff,
  any, select, find-true, All-map, All-map_pred, All-sort_by, select-All, leb, All-find,
  any-sort_by, any-select, any-map, find-of_any,
}
use weather_agent.Database.{NotificationRuleOrm, Database}
use weather_agent.Rules.Model.{NotificationRule, ScheduledNotificationContext}
use weather_agent.Rules.Context.{notification_context_fingerprint}
use weather_agent.Rules.Rows.{RuleService, orm_to_domain}
use weather_agent.Rules.Service.{
  find_matching_scheduled_rule, scheduled_matches, same_fingerprint, thread_matches,
}

module _ (service : RuleService) (user_id chat_id : ℕ) (thread_id : Option ℕ) (location_id : ℕ)
    (expression schedule : String) (context : Option ScheduledNotificationContext) where
  abbrev pub Matches : NotificationRule → Type 0
  Matches r =
      (r.user_id ≡ user_id)
      × (r.telegram_chat_id ≡ chat_id)
      × (r.telegram_message_thread_id ≡ thread_id)
      × (r.location_id ≡ location_id)
      × (r.expression ≡ expression)
      × (r.schedule ≡ some schedule)
      × (r.enabled ≡ true)

  thread_eq : (given column : Option ℕ) → thread_matches given column ≡ true → column ≡ given
  thread_eq none none h = refl
  thread_eq none (some t) h = cc
  thread_eq (some t) none h = cc
  thread_eq (some t) (some u) h = ground arith

  schedule_eq :
      (column : Option String) → str_eq_sql column schedule ≡ true → column ≡ some schedule
  schedule_eq none h = cc
  schedule_eq (some s) h = ap some ((eq_iff s schedule).0 h)

  abbrev matches : NotificationRuleOrm → Bool
  matches = scheduled_matches user_id chat_id thread_id location_id expression schedule

  matches-Matches :
      (o : NotificationRuleOrm) → matches o ≡ true → Matches (orm_to_domain service.codec o)
  unfolding orm_to_domain
  matches-Matches o h = ground (
    arith,
    eq_iff o.expression expression,
    schedule_eq o.schedule,
    thread_eq thread_id o.telegram_message_thread_id,
  )

  abbrev found : Database → Option NotificationRule
  found =
      find_matching_scheduled_rule service user_id chat_id thread_id location_id expression schedule
        context

  -- A rule that `find_matching_scheduled_rule` returns has the user, chat, thread, location,
  -- expression and schedule that were asked for, is enabled, and its context has the fingerprint of
  -- the context that was given.
  pub find_matching_scheduled_rule_sound :
      (db : Database) (r : NotificationRule)
      → find_matching_scheduled_rule service user_id chat_id thread_id location_id expression
          schedule context db
        ≡ some r
      → Matches r
        × (notification_context_fingerprint service.codec r.notification_context
            ≡ notification_context_fingerprint service.codec context)
  unfolding find_matching_scheduled_rule
  find_matching_scheduled_rule_sound db r h = (
    All-find Matches (same_fingerprint service context) _ r
        (All-map Matches (orm_to_domain service.codec) _ (
          All-sort_by _ (λ a b. leb a.id b.id) (select matches db.rules)
            (All-map_pred _ _ (select matches db.rules) matches-Matches
              (select-All matches db.rules))))
        h,
    (eq_iff _ _).0 (find-true (same_fingerprint service context) _ r h),
  )

  -- Where the table has a row with the fields that are asked for and a context of the same
  -- fingerprint, a rule is returned.
  pub find_matching_scheduled_rule_complete :
      (db : Database)
      → any
          (λ o. matches o && same_fingerprint service context (orm_to_domain service.codec o))
          db.rules
        ≡ true
      → (r : NotificationRule) × (find_matching_scheduled_rule service user_id chat_id thread_id
            location_id expression schedule context db
          ≡ some r)
  unfolding find_matching_scheduled_rule
  find_matching_scheduled_rule_complete db h = find-of_any (same_fingerprint service context) _ (
      any-map (same_fingerprint service context) (orm_to_domain service.codec) _
      ∙ any-sort_by _ (λ a b. leb a.id b.id) (select matches db.rules)
      ∙ any-select _ matches db.rules
      ∙ h)
