-- ===== src/Rules/Changes.antt =====
-- What the methods of the rule service write: the rule that is created, the fields that an update
-- names, and what a delete leaves.
use weather_agent.Prelude.{
  ℕ, ◌≡◌, ◌≢◌, refl, ap, ◌∙◌, true, false, Option, none, some, List, [], ◌∷◌, map, String, arith,
  ok, raise, integrity_error, expression_validation, leb, length, length-map, update_where, All-map,
  All-sort_by, ◌==◌, ==_refl, ==_iff, any, select, Result, Result-cases, Option-cases, Bool-cases,
  inl, inr, sym, subst, ok-injective, All, find-update_where, find-update_where_other,
  find-delete_where_other, if◌then◌else◌, any-delete_where, find-eq-none, delete_where,
}
use weather_agent.Database.{NotificationRuleOrm, NotificationEventOrm, Database, rule_conflict}
use weather_agent.Rules.Model.{
  ScheduledNotificationContext, NotificationRule, RuleCreate, RuleUpdate,
}
use weather_agent.Rules.Context.{notification_context_from_mapping}
use weather_agent.Rules.Rows.{
  Env, RuleService, orm_to_domain, new_rule, updated, get_orm, dumped, given, given_optional,
  assign,
}
use weather_agent.Rules.Service.{
  create_rule, add_rule, to_domain, generate_unique_short_id, get_rule, error_or_default,
  validate_update, update_rule, delete_rule, unlink, disable_rule, list_all_enabled_rules,
}

module _ (service : RuleService) where
  -- The context of a stored rule is read as it was given.
  context-read :
      (context : Option ScheduledNotificationContext)
      → ((c : ScheduledNotificationContext)
          → context ≡ some c
          → service.codec.model_validate (service.codec.model_dump c) ≡ some c)
      → notification_context_from_mapping service.codec (dumped service.codec context) ≡ context
  unfolding notification_context_from_mapping
  context-read none reads = refl
  context-read (some c) reads = reads c refl

  -- The rule that a call creates.
  abbrev pub created_rule : Env → ℕ → RuleCreate → String → NotificationRule
  created_rule env user_id create short_id = record {
    id = env.new_id;
    short_id = short_id;
    user_id = user_id;
    telegram_chat_id = create.telegram_chat_id;
    telegram_message_thread_id = create.telegram_message_thread_id;
    location_id = create.location_id;
    expression_language = create.expression_language;
    expression = create.expression;
    schedule = create.schedule;
    lead_time_minutes = create.lead_time_minutes;
    cooldown_minutes = if create.cooldown_minutes == 0 then 60 else create.cooldown_minutes;
    enabled = create.enabled;
    dry_run = create.dry_run;
    description = create.description;
    notification_context = create.notification_context;
    snooze_until = none;
    created_at = env.now;
    updated_at = env.now;
  }

  orm_to_domain-new_rule :
      (env : Env) (user_id : ℕ) (create : RuleCreate) (short_id : String)
      → ((c : ScheduledNotificationContext)
          → create.notification_context ≡ some c
          → service.codec.model_validate (service.codec.model_dump c) ≡ some c)
      → orm_to_domain service.codec (new_rule service.codec env user_id short_id create)
        ≡ created_rule env user_id create short_id
  unfolding orm_to_domain new_rule
  orm_to_domain-new_rule env user_id create short_id reads =
      ap (λ c. record (created_rule env user_id create short_id) { notification_context = c })
        (context-read create.notification_context reads)

  -- The row that was added, and what the call returned of it.
  abbrev Adds :
      Env
      → ℕ
      → RuleCreate
      → Database
      → NotificationRule
      → Result NotificationRule × Database
      → Type 0
  Adds env user_id create db r (result, db') =
      (short_id : String) × (r
        ≡ orm_to_domain service.codec (new_rule service.codec env user_id short_id create))
      × (db' ≡ record db { rules = new_rule service.codec env user_id short_id create ∷ db.rules })

  add_rule-Adds :
      (env : Env) (user_id : ℕ) (create : RuleCreate) (db : Database) (r : NotificationRule)
      (short_id : String)
      → let out = add_rule service (new_rule service.codec env user_id short_id create) db in
        out.0 ≡ ok r → Adds env user_id create db r out
  add_rule-Adds env user_id create db r short_id h =
      let new = new_rule service.codec env user_id short_id create in
      elim (Bool-cases (any (rule_conflict new) db.rules)) [
        | inl taken ↦
            let raises : add_rule service new db ≡ (raise integrity_error, db) =
              ground (arith, taken) in
            let refused : raise integrity_error ≡ ok r = sym (ap (λ o. o.0) raises) ∙ h in cc
        | inr free ↦
            let returns : add_rule service new db
                ≡ (ok (orm_to_domain service.codec new), record db { rules = new ∷ db.rules }) =
              ground (arith, free) in
            (short_id, ok-injective (sym h ∙ ap (λ o. o.0) returns), ap (λ o. o.1) returns)
      ]

  create_rule-Adds :
      (env : Env) (user_id : ℕ) (create : RuleCreate) (db : Database) (r : NotificationRule)
      → (create_rule service env user_id create db).0 ≡ ok r
      → Adds env user_id create db r (create_rule service env user_id create db)
  unfolding create_rule
  create_rule-Adds env user_id create db r h =
      elim (Option-cases (service.validate create.expression)) [
        | inr (error, v) ↦ absurd (ground (arith, v))
        | inl v ↦ elim (Result-cases (generate_unique_short_id service env db)) [
          | inr (e, g) ↦ absurd (ground (arith, v, g))
          | inl (short_id, g) ↦
              let same : create_rule service env user_id create db
                  ≡ add_rule service (new_rule service.codec env user_id short_id create) db =
                ground (arith, v, g) in
              subst (Adds env user_id create db r) (sym same)
                (add_rule-Adds env user_id create db r short_id (sym (ap (λ o. o.0) same) ∙ h))
        ]
      ]

  -- Where the codec reads the given context back that it dumped, a rule that `create_rule` returns has the key
  -- of the new row, the user and every field that was given; it is not snoozed, it was created and
  -- updated now, and its cooldown is the one given unless that is 0, which becomes 60. `get_rule`
  -- returns it for its key afterwards; no other rule and no other table changes.
  pub create_rule-get_rule :
      (env : Env) (user_id : ℕ) (create : RuleCreate) (db : Database) (r : NotificationRule)
      → ((c : ScheduledNotificationContext)
          → create.notification_context ≡ some c
          → service.codec.model_validate (service.codec.model_dump c) ≡ some c)
      → (create_rule service env user_id create db).0 ≡ ok r
      → let db' = (create_rule service env user_id create db).1 in
        (r ≡ created_rule env user_id create r.short_id)
        × (get_rule service (some r.id) none db' ≡ ok (some r))
        × (db' ≡ record db { rules = db'.rules })
        × ((other : ℕ) → other ≢ r.id → get_orm other db' ≡ get_orm other db)
  unfolding get_rule orm_to_domain new_rule
  create_rule-get_rule env user_id create db r reads h =
      let (short_id, is_new, rows) = create_rule-Adds env user_id create db r h in
      let is_created = is_new ∙ orm_to_domain-new_rule env user_id create short_id reads in
      let same_id = ap (λ (x : NotificationRule). x.id) is_created in
      let new = new_rule service.codec env user_id short_id create in
      let found : get_orm r.id (record db { rules = new ∷ db.rules }) ≡ some new =
        ground (arith, same_id, ==_refl env.new_id) in
      (
        is_created
            ∙ ap (created_rule env user_id create)
                (sym (ap (λ (x : NotificationRule). x.short_id) is_created)),
        ap (λ d. ok (to_domain service (get_orm r.id d))) rows
            ∙ ap (λ o. ok (to_domain service o)) found
            ∙ ap (λ x. ok (some x)) (sym is_new),
        rows ∙ ap (λ (d : Database). record db { rules = d.rules }) (sym rows),
        λ other ne. ap (get_orm other) rows ∙ elim (Bool-cases (env.new_id == other)) [
          | inl same ↦ absurd (ne (sym ((==_iff env.new_id other).0 same) ∙ sym same_id))
          | inr differs ↦ rw differs refl
        ],
      )

  -- Where the evaluator refuses the expression, `create_rule` raises the validation error and changes
  -- nothing.
  pub create_rule-refused :
      (env : Env) (user_id : ℕ) (create : RuleCreate) (db : Database) (error : String)
      → service.validate create.expression ≡ some error
      → create_rule service env user_id create db
        ≡ (raise (expression_validation create.expression (error_or_default error)), db)
  unfolding create_rule
  create_rule-refused env user_id create db error h = ground arith

  assign-get_orm :
      (rule_id : ℕ) (f : NotificationRuleOrm → NotificationRuleOrm) (db : Database)
      (orm : NotificationRuleOrm)
      → ((r : NotificationRuleOrm) → (f r).id ≡ r.id)
      → get_orm rule_id db ≡ some orm
      → (get_orm rule_id (assign rule_id f db) ≡ some (f orm))
        × ((other : ℕ) → other ≢ rule_id → get_orm other (assign rule_id f db) ≡ get_orm other db)
  assign-get_orm rule_id f db orm k h = (
    find-update_where (λ r. r.id == rule_id) f db.rules orm h (λ y e. rw (k y) e),
    λ other ne.
        find-update_where_other (λ r. r.id == other) (λ r. r.id == rule_id) f db.rules
          (λ y e. ground (arith, k y)),
  )

  update_rule-accepted :
      (now rule_id : ℕ) (update : RuleUpdate) (db : Database) (orm : NotificationRuleOrm)
      → get_orm rule_id db ≡ some orm
      → validate_update service update.expression ≡ ok tt
      → (update_rule service now rule_id update db).1
        ≡ assign rule_id (updated service.codec now update) db
  unfolding update_rule
  update_rule-accepted now rule_id update db orm h v = ground arith

  -- `update_rule` of a rule that is there, with no new expression or one that is accepted, changes
  -- each field that is given and keeps the others, sets `updated_at`, and leaves every other rule as
  -- it was.
  pub update_rule-fields :
      (now rule_id : ℕ) (update : RuleUpdate) (db : Database) (orm : NotificationRuleOrm)
      → get_orm rule_id db ≡ some orm
      → validate_update service update.expression ≡ ok tt
      → let db' = (update_rule service now rule_id update db).1 in
        ((new : NotificationRuleOrm) × (get_orm rule_id db' ≡ some new)
          × ((new.user_id ≡ orm.user_id)
              × (new.short_id ≡ orm.short_id)
              × (new.snooze_until ≡ orm.snooze_until)
              × (new.expression ≡ given update.expression orm.expression)
              × (new.schedule ≡ given_optional update.schedule orm.schedule)
              × (new.cooldown_minutes ≡ given_optional update.cooldown_minutes orm.cooldown_minutes)
              × (new.enabled ≡ given update.enabled orm.enabled)
              × (new.dry_run ≡ given update.dry_run orm.dry_run)
              × (new.updated_at ≡ now)))
        × ((other : ℕ) → other ≢ rule_id → get_orm other db' ≡ get_orm other db)
  update_rule-fields now rule_id update db orm h v =
      let f = updated service.codec now update in
      let (self, others) = assign-get_orm rule_id f db orm (unfold updated in λ r. refl) h in
      let e = update_rule-accepted now rule_id update db orm h v in
      (
        (
          f orm,
          ap (get_orm rule_id) e ∙ self,
          unfold updated in (refl, refl, refl, refl, refl, refl, refl, refl, refl),
        ),
        λ other ne. ap (get_orm other) e ∙ others other ne,
      )

  abbrev pub IsUnlinked : ℕ → NotificationEventOrm → Type 0
  IsUnlinked rule_id event = event.rule_id ≢ some rule_id

  unlinked :
      (rule_id : ℕ) (events : List NotificationEventOrm)
      → All (IsUnlinked rule_id) (map (unlink rule_id) events)
  unlinked rule_id [] = tt
  unlinked rule_id (event ∷ events) = ((λ e. ground arith), unlinked rule_id events)

  deleted : ℕ → Database → Database
  deleted rule_id db = record db {
    rules = delete_where (λ r. r.id == rule_id) db.rules;
    events = map (unlink rule_id) db.events;
  }

  delete_rule-deleted :
      (rule_id : ℕ) (db : Database) (orm : NotificationRuleOrm)
      → get_orm rule_id db ≡ some orm
      → any (λ run. run.rule_id == rule_id) db.runs ≡ false
      → delete_rule rule_id db ≡ (ok true, deleted rule_id db)
  unfolding delete_rule deleted
  delete_rule-deleted rule_id db orm h e = ground arith

  -- A rule that no run refers to is deleted: it is gone, every other rule stays, no event refers to
  -- it any more, and as many events are there as before.
  pub delete_rule-unused :
      (rule_id : ℕ) (db : Database) (orm : NotificationRuleOrm)
      → get_orm rule_id db ≡ some orm
      → any (λ run. run.rule_id == rule_id) db.runs ≡ false
      → let (r, db') = delete_rule rule_id db in
        (r ≡ ok true)
        × (get_orm rule_id db' ≡ none)
        × ((other : ℕ) → other ≢ rule_id → get_orm other db' ≡ get_orm other db)
        × All (IsUnlinked rule_id) db'.events
        × (length db'.events ≡ length db.events)
  unfolding deleted
  delete_rule-unused rule_id db orm h e = rw (delete_rule-deleted rule_id db orm h e) (
    refl,
    find-eq-none (λ r. r.id == rule_id) _ (any-delete_where (λ r. r.id == rule_id) db.rules),
    (λ other ne.
        find-delete_where_other (λ r. r.id == other) (λ r. r.id == rule_id) db.rules
          (λ y q. ground arith)),
    unlinked rule_id db.events,
    length-map (unlink rule_id) db.events,
  )

  -- Once a rule has been evaluated, `delete_rule` raises and changes nothing: the run refers to the
  -- rule.
  pub delete_rule-evaluated :
      (rule_id : ℕ) (db : Database) (orm : NotificationRuleOrm)
      → get_orm rule_id db ≡ some orm
      → any (λ run. run.rule_id == rule_id) db.runs ≡ true
      → delete_rule rule_id db ≡ (raise integrity_error, db)
  unfolding delete_rule
  delete_rule-evaluated rule_id db orm h e = ground arith

  disable : ℕ → ℕ → List NotificationRuleOrm → List NotificationRuleOrm
  disable now rule_id =
      update_where (λ r. r.id == rule_id) (λ o. record o { enabled = false; updated_at = now })

  disabled_only :
      (now rule_id : ℕ) (rows : List NotificationRuleOrm)
      → All (λ r. r.id ≢ rule_id) (select (λ r. r.enabled) (disable now rule_id rows))
  unfolding disable
  disabled_only now rule_id [] = tt
  disabled_only now rule_id (r ∷ rows) = ground (arith, disabled_only now rule_id rows)

  disable_rule-rules :
      (now rule_id : ℕ) (db : Database) (orm : NotificationRuleOrm)
      → get_orm rule_id db ≡ some orm
      → (disable_rule service now rule_id db).1.rules ≡ disable now rule_id db.rules
  unfolding disable_rule disable
  disable_rule-rules now rule_id db orm h = ground arith

  -- A disabled rule is not among the rules that the worker evaluates.
  pub disable_rule-list_all_enabled_rules :
      (now rule_id : ℕ) (db : Database) (orm : NotificationRuleOrm)
      → get_orm rule_id db ≡ some orm
      → All
          (λ r. r.id ≢ rule_id)
          (list_all_enabled_rules service (disable_rule service now rule_id db).1)
  unfolding list_all_enabled_rules orm_to_domain
  disable_rule-list_all_enabled_rules now rule_id db orm h =
      rw (disable_rule-rules now rule_id db orm h, All, list_all_enabled_rules)
        (All-map _ (orm_to_domain service.codec) _
          (All-sort_by _ (λ a b. leb a.id b.id) _ (disabled_only now rule_id db.rules)))
