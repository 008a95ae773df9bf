-- ===== src/Toolbox/Owners.antt =====
-- A confirmation changes the user's own rules alone.
use weather_agent.Prelude.{
  ℕ, Bool-cases, Option, none, some, List, String, Result, ok, raise, ◌≡◌, refl, ◌∙◌, inl, inr,
  ◌&&◌, is_empty, and_then,
}
use weather_agent.Database.{Database, NotificationRuleOrm}
use weather_agent.Rules.Model.{NotificationRule, RuleCreate}
use weather_agent.Rules.Service.{
  create_rule as add_rule, update_rule, delete_rule, get_rule_for_user,
  find_matching_scheduled_rule,
}
use weather_agent.Rules.Invariant.{HasUniqueRules, perform-HasUniqueRules, create, update, delete}
use weather_agent.Rules.Owners.{
  others, create_rule-others, update_rule-others, delete_rule-others, get_rule_for_user-own,
}
use weather_agent.Memory.Frames.{and_then_keeps, get_pending_confirmation_keeps}
use weather_agent.Toolbox.Model.{
  PendingAction, create_rule, edit_rule, schedule_notification, delete_notification,
  PendingConfirmation, RulesToolbox, ToolEnv, ToolResult,
}
use weather_agent.Toolbox.Propose.{text_or_empty}
use weather_agent.Toolbox.Confirm.{
  scheduled_rule_of, scheduled_answer, is_create, rule_of, update_of, edited_answer, created_answer,
  clear_and, deleted_answer, delete_found, confirm_deletion, finish, caught, schedule_unless,
  confirm_schedule, edit_found, confirm_edit, confirm_change, confirm_at, confirm_action,
  confirm_parsed, confirm_found, execute_confirm,
}
use weather_agent.Toolbox.Safety.{clear_and_keeps}

module _ (t : RulesToolbox) (base : List NotificationRuleOrm) where
  -- The rules of other users are those, and keys are unique.
  abbrev pub Kept : Database → Type 0
  Kept db = (others t.user_id db ≡ base) × HasUniqueRules db

  abbrev clears :
      (env : ToolEnv) (result : ToolResult) (db : Database)
      → Kept db
      → Kept (clear_and t env result db).1
  clears = clear_and_keeps t Kept (λ db contexts locations k. k)

  delete_found_keeps :
      (env : ToolEnv) (short_id : String) (o : Result (Option NotificationRule)) (db : Database)
      → get_rule_for_user t.service t.user_id none (some short_id) db ≡ o
      → Kept db
      → Kept (delete_found t env short_id o db).1
  unfolding delete_rule
  delete_found_keeps env short_id (raise e) db h k = k
  delete_found_keeps env short_id (ok none) db h k = clears env _ db k
  delete_found_keeps env short_id (ok (some rule)) db h k =
      let own = get_rule_for_user-own t.service t.user_id short_id db rule k.1 h in
      and_then_keeps Kept (delete_rule rule.id db)
        (λ deleted. clear_and t env (deleted_answer t deleted short_id rule))
        (
          delete_rule-others t.service t.user_id rule.id db own ∙ k.0,
          perform-HasUniqueRules t.service (delete env.rules.now rule.id) db k.1,
        )
        (λ deleted db' k'. clears env _ db' k')

  confirm_deletion_keeps :
      (env : ToolEnv) (short_id : Option String) (db : Database)
      → Kept db
      → Kept (confirm_deletion t env short_id db).1
  unfolding get_rule_for_user
  confirm_deletion_keeps env none db k = clears env _ db k
  confirm_deletion_keeps env (some short_id) db k = delete_found_keeps env short_id _ db refl k

  finish_keeps :
      (env : ToolEnv) (text : NotificationRule → String) (rule : NotificationRule) (db : Database)
      → Kept db
      → Kept (finish t env text rule db).1
  finish_keeps env text rule db k = clears env _ db k

  add_keeps :
      (env : ToolEnv) (create' : RuleCreate) (text : NotificationRule → String) (db : Database)
      → Kept db
      → Kept (and_then (add_rule t.service env.rules t.user_id create' db) (finish t env text)).1
  add_keeps env create' text db k =
      and_then_keeps Kept (add_rule t.service env.rules t.user_id create' db) (finish t env text)
        (
          create_rule-others t.service env.rules t.user_id create' db ∙ k.0,
          perform-HasUniqueRules t.service (create env.rules t.user_id create') db k.1,
        )
        (finish_keeps env text)

  confirm_schedule_keeps :
      (env : ToolEnv) (pending : PendingConfirmation) (chat_id : ℕ) (thread_id : Option ℕ)
      (location_id : ℕ) (schedule : Option String) (db : Database)
      → Kept db
      → Kept (confirm_schedule t env pending chat_id thread_id location_id schedule db).1
  unfolding find_matching_scheduled_rule
  confirm_schedule_keeps env pending chat_id thread_id location_id none db k = k
  confirm_schedule_keeps env pending chat_id thread_id location_id (some schedule) db k = unless (
      find_matching_scheduled_rule t.service t.user_id chat_id thread_id location_id
        pending.rule_expression schedule pending.notification_context db)
    where
      unless :
          (o : Option NotificationRule)
          → Kept (schedule_unless t env pending schedule chat_id thread_id location_id o db).1
      unless (some rule) =
          finish_keeps env
            (scheduled_answer "Takie zaplanowane powiadomienie jest już zapisane" schedule) rule db
            k
      unless none =
          add_keeps env (scheduled_rule_of pending schedule chat_id thread_id location_id)
            (scheduled_answer "Nowe zaplanowane powiadomienie" schedule) db k

  edit_found_keeps :
      (env : ToolEnv) (pending : PendingConfirmation) (short_id : String)
      (o : Result (Option NotificationRule)) (db : Database)
      → get_rule_for_user t.service t.user_id none (some short_id) db ≡ o
      → Kept db
      → Kept (edit_found t env pending short_id o db).1
  unfolding update_rule
  edit_found_keeps env pending short_id (raise e) db h k = k
  edit_found_keeps env pending short_id (ok none) db h k = k
  edit_found_keeps env pending short_id (ok (some rule)) db h k =
      let own = get_rule_for_user-own t.service t.user_id short_id db rule k.1 h in
      and_then_keeps Kept (update_rule t.service env.rules.now rule.id (update_of pending) db)
        (finish t env edited_answer)
        (
          update_rule-others t.service env.rules.now t.user_id rule.id (update_of pending) db own
              ∙ k.0,
          perform-HasUniqueRules t.service (update env.rules.now rule.id (update_of pending)) db
              k.1,
        )
        (finish_keeps env edited_answer)

  confirm_edit_keeps :
      (env : ToolEnv) (pending : PendingConfirmation) (chat_id : ℕ) (thread_id : Option ℕ)
      (location_id : ℕ) (short_id : String) (db : Database)
      → Kept db
      → Kept (confirm_edit t env pending chat_id thread_id location_id short_id db).1
  unfolding get_rule_for_user
  confirm_edit_keeps env pending chat_id thread_id location_id short_id db k =
      let edited = edit_found_keeps env pending short_id _ db refl k in
      elim (Bool-cases (is_empty short_id)) [
        | inl e ↦
            rw e (add_keeps env (rule_of pending chat_id thread_id location_id) created_answer db k)
        | inr e ↦ rw e edited
      ]

  confirm_change_keeps :
      (env : ToolEnv) (action : PendingAction) (pending : PendingConfirmation) (location_id : ℕ)
      (db : Database)
      → Kept db
      → Kept (confirm_change t env action pending location_id db).1
  confirm_change_keeps env schedule_notification pending location_id db k =
      confirm_schedule_keeps env pending _ _ location_id pending.schedule db k
  confirm_change_keeps env edit_rule pending location_id db k =
      confirm_edit_keeps env pending _ _ location_id (text_or_empty pending.edit_short_id) db k
  confirm_change_keeps env create_rule pending location_id db k =
      add_keeps env _ created_answer db k
  confirm_change_keeps env delete_notification pending location_id db k =
      add_keeps env _ created_answer db k

  caught_keeps : (o : Result ToolResult × Database) → Kept o.1 → Kept (caught t o).1
  caught_keeps (raise e, db) k = k
  caught_keeps (ok result, db) k = k

  confirm_at_keeps :
      (env : ToolEnv) (pending : PendingConfirmation) (location_id : Option ℕ) (db : Database)
      → Kept db
      → Kept (confirm_at t env pending location_id db).1
  confirm_at_keeps env pending none db k = k
  confirm_at_keeps env pending (some location_id) db k =
      caught_keeps _ (confirm_change_keeps env pending.action pending location_id db k)

  confirm_action_keeps :
      (env : ToolEnv) (action : PendingAction) (pending : PendingConfirmation) (db : Database)
      → Kept db
      → Kept (confirm_action t env action pending db).1
  confirm_action_keeps env delete_notification pending db k =
      confirm_deletion_keeps env pending.delete_short_id db k
  confirm_action_keeps env create_rule pending db k = confirm_at_keeps env pending _ db k
  confirm_action_keeps env edit_rule pending db k = confirm_at_keeps env pending _ db k
  confirm_action_keeps env schedule_notification pending db k = confirm_at_keeps env pending _ db k

  confirm_parsed_keeps :
      (env : ToolEnv) (pending : Option PendingConfirmation) (db : Database)
      → Kept db
      → Kept (confirm_parsed t env pending db).1
  confirm_parsed_keeps env none db k = clears env _ db k
  confirm_parsed_keeps env (some pending) db k =
      let confirmed = confirm_action_keeps env pending.action pending db k in
      elim (Bool-cases (is_empty pending.rule_expression && is_create pending.action)) [
        | inl e ↦ rw e k
        | inr e ↦ rw e confirmed
      ]

  confirm_found_keeps :
      (env : ToolEnv) (dict : Option String) (db : Database)
      → Kept db
      → Kept (confirm_found t env dict db).1
  confirm_found_keeps env none db k = k
  confirm_found_keeps env (some dict) db k =
      confirm_parsed_keeps env (t.pending.from_dict dict) db k

  pub execute_confirm_keeps :
      (env : ToolEnv) (db : Database) → Kept db → Kept (execute_confirm t env db).1
  unfolding execute_confirm
  execute_confirm_keeps env db k =
      and_then_keeps Kept _ (confirm_found t env)
        (get_pending_confirmation_keeps Kept (λ db contexts locations k. k) env.rules.now
          env.context_id t.context_key none db k)
        (confirm_found_keeps env)
