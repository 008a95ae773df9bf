-- ===== src/Toolbox/Confirm.antt =====
-- `_execute_confirm` and `_execute_cancel`: what becomes of a proposal.
use Prim.Native.String.{◌++◌}
use weather_agent.Prelude.{
  ℕ, Bool, true, false, ◌&&◌, Option, none, some, String, Result, ok, raise, Action, and_then,
  if◌then◌else◌, is_empty,
}
use weather_agent.Database.{Database}
use weather_agent.Rules.Model.{NotificationRule, RuleCreate, RuleUpdate}
use weather_agent.Rules.Service.{
  create_rule as add_rule, update_rule, delete_rule, get_rule_for_user,
  find_matching_scheduled_rule,
}
use weather_agent.Locations.{LocationRef, get_default_location}
use weather_agent.Memory.{get_pending_confirmation, clear_pending_confirmation}
use weather_agent.Toolbox.Model.{
  PendingAction, create_rule, edit_rule, schedule_notification, delete_notification,
  PendingConfirmation, RulesToolbox, ToolEnv, ToolResult, error, answer, Tool,
}
use weather_agent.Toolbox.Propose.{text_or_empty}

abbrev pub is_create : PendingAction → Bool
is_create create_rule = true
is_create _ = false

-- `value if value is not None else default`
abbrev pub number_or : Option ℕ → ℕ → ℕ
number_or none default = default
number_or (some n) default = n

abbrev pub thread_or : Option ℕ → Option ℕ → Option ℕ
thread_or none default = default
thread_or (some n) default = some n

abbrev pub default_id : Option LocationRef → Option ℕ
default_id none = none
default_id (some ref) = some ref.id

-- The rule that a proposal describes. Fields that are not given have the defaults of `RuleCreate`.
abbrev pub rule_of : PendingConfirmation → ℕ → Option ℕ → ℕ → RuleCreate
rule_of pending chat_id thread_id location_id = record {
  telegram_chat_id = chat_id;
  telegram_message_thread_id = thread_id;
  location_id = location_id;
  expression_language = "cel";
  expression = pending.rule_expression;
  schedule = none;
  lead_time_minutes = none;
  cooldown_minutes = 60;
  enabled = true;
  dry_run = false;
  description = some pending.explanation;
  notification_context = none;
}

abbrev pub scheduled_rule_of : PendingConfirmation → String → ℕ → Option ℕ → ℕ → RuleCreate
scheduled_rule_of pending schedule chat_id thread_id location_id =
    record (rule_of pending chat_id thread_id location_id) {
      schedule = some schedule;
      lead_time_minutes = pending.lead_time_minutes;
      notification_context = pending.notification_context;
    }

abbrev pub update_of : PendingConfirmation → RuleUpdate
update_of pending = record {
  telegram_chat_id = none;
  telegram_message_thread_id = none;
  location_id = none;
  expression_language = none;
  expression = some pending.rule_expression;
  schedule = none;
  lead_time_minutes = none;
  cooldown_minutes = none;
  enabled = none;
  dry_run = none;
  description = some pending.explanation;
  notification_context = none;
}

abbrev pub schedule_info : String → String
schedule_info schedule = if is_empty schedule then "" else "harmonogram: " ++ schedule

abbrev pub scheduled_answer : String → String → NotificationRule → String
scheduled_answer prefix schedule rule =
    prefix
    ++ " #"
    ++ rule.short_id
    ++ ".\n📝 wyrażenie reguły: `"
    ++ rule.expression
    ++ "`\n📅 "
    ++ schedule_info schedule

abbrev pub edited_answer : NotificationRule → String
edited_answer rule =
    "Reguła #" ++ rule.short_id ++ " została zaktualizowana.\n📝 wyrażenie reguły: `"
    ++ rule.expression ++ "`"

abbrev pub created_answer : NotificationRule → String
created_answer rule =
    "Nowa reguła #" ++ rule.short_id ++ " została zapisana.\n📝 wyrażenie reguły: `"
    ++ rule.expression ++ "`"

module _ (t : RulesToolbox) where
  abbrev pub clear : ToolEnv → Action Database (Unit {0})
  clear env = clear_pending_confirmation env.rules.now env.context_id t.context_key

  -- The pending action is cleared, then the tool returns.
  abbrev pub clear_and : ToolEnv → ToolResult → Tool
  clear_and env result db = and_then (clear env db) (λ _ db'. (ok result, db'))

  abbrev pub deleted_answer : Bool → String → NotificationRule → ToolResult
  deleted_answer false short_id rule = error ("Nie udało się usunąć powiadomienia #" ++ short_id)
  deleted_answer true short_id rule =
      answer ("Powiadomienie #" ++ rule.short_id ++ " zostało usunięte.") (some rule.short_id)

  abbrev pub delete_found : ToolEnv → String → Result (Option NotificationRule) → Tool
  delete_found env short_id (raise e) db = (raise e, db)
  delete_found env short_id (ok none) db =
      clear_and env (error ("Nie znaleziono powiadomienia #" ++ short_id)) db
  delete_found env short_id (ok (some existing)) db =
      and_then (delete_rule existing.id db)
        (λ deleted. clear_and env (deleted_answer deleted short_id existing))

  abbrev pub confirm_deletion : ToolEnv → Option String → Tool
  confirm_deletion env none db = clear_and env (error "Brak ID powiadomienia do usunięcia.") db
  confirm_deletion env (some short_id) db =
      delete_found env short_id (get_rule_for_user t.service t.user_id none (some short_id) db) db

  abbrev pub finish : ToolEnv → (NotificationRule → String) → NotificationRule → Tool
  finish env text rule = clear_and env (answer (text rule) (some rule.short_id))

  -- The `try` around the changes of rules.
  abbrev pub caught : Result ToolResult × Database → Result ToolResult × Database
  caught (raise e, db) = (ok (error ("Błąd podczas potwierdzania: " ++ t.show_error e)), db)
  caught (ok result, db) = (ok result, db)

  abbrev pub schedule_unless :
      ToolEnv → PendingConfirmation → String → ℕ → Option ℕ → ℕ → Option NotificationRule → Tool
  schedule_unless env pending schedule chat_id thread_id location_id (some existing) db =
      finish env (scheduled_answer "Takie zaplanowane powiadomienie jest już zapisane" schedule)
        existing db
  schedule_unless env pending schedule chat_id thread_id location_id none db =
      and_then
        (add_rule t.service env.rules t.user_id
          (scheduled_rule_of pending schedule chat_id thread_id location_id) db)
        (finish env (scheduled_answer "Nowe zaplanowane powiadomienie" schedule))

  abbrev pub confirm_schedule :
      ToolEnv → PendingConfirmation → ℕ → Option ℕ → ℕ → Option String → Tool
  confirm_schedule env pending chat_id thread_id location_id none db =
      (ok (error "Brak harmonogramu dla zaplanowanego powiadomienia."), db)
  confirm_schedule env pending chat_id thread_id location_id (some schedule) db =
      schedule_unless env pending schedule chat_id thread_id location_id
        (find_matching_scheduled_rule t.service t.user_id chat_id thread_id location_id
          pending.rule_expression schedule pending.notification_context db)
        db

  abbrev pub edit_found :
      ToolEnv → PendingConfirmation → String → Result (Option NotificationRule) → Tool
  edit_found env pending short_id (raise e) db = (raise e, db)
  edit_found env pending short_id (ok none) db =
      (ok (error ("Nie znaleziono reguły #" ++ short_id)), db)
  edit_found env pending short_id (ok (some existing)) db =
      and_then (update_rule t.service env.rules.now existing.id (update_of pending) db)
        (finish env edited_answer)

  abbrev pub confirm_new : ToolEnv → PendingConfirmation → ℕ → Option ℕ → ℕ → Tool
  confirm_new env pending chat_id thread_id location_id db =
      and_then
        (add_rule t.service env.rules t.user_id (rule_of pending chat_id thread_id location_id) db)
        (finish env created_answer)

  -- An edit that names no rule makes a new one.
  abbrev pub confirm_edit : ToolEnv → PendingConfirmation → ℕ → Option ℕ → ℕ → String → Tool
  confirm_edit env pending chat_id thread_id location_id short_id db =
      if is_empty short_id
      then confirm_new env pending chat_id thread_id location_id db
      else edit_found env pending short_id
          (get_rule_for_user t.service t.user_id none (some short_id) db) db

  -- The body of the `try`.
  abbrev pub confirm_change : ToolEnv → PendingAction → PendingConfirmation → ℕ → Tool
  confirm_change env action pending location_id db =
      let chat_id = number_or pending.chat_id t.chat_id in
      let thread_id = thread_or pending.message_thread_id t.message_thread_id in
      elim action [
        | schedule_notification ↦
            confirm_schedule env pending chat_id thread_id location_id pending.schedule db
        | edit_rule ↦
            confirm_edit env pending chat_id thread_id location_id
              (text_or_empty pending.edit_short_id) db
        | _ ↦ confirm_new env pending chat_id thread_id location_id db
      ]

  abbrev pub confirm_at : ToolEnv → PendingConfirmation → Option ℕ → Tool
  confirm_at env pending none db =
      (ok (error "Nie udało się rozpoznać lokalizacji dla reguły."), db)
  confirm_at env pending (some location_id) db =
      caught (confirm_change env pending.action pending location_id db)

  -- `pending.location_id`, or that of the default location.
  abbrev pub location_or_default : Option ℕ → Database → Option ℕ
  location_or_default (some id) db = some id
  location_or_default none db = default_id (get_default_location t.unicode t.user_id db)

  abbrev pub confirm_action : ToolEnv → PendingAction → PendingConfirmation → Tool
  confirm_action env delete_notification pending db =
      confirm_deletion env pending.delete_short_id db
  confirm_action env _ pending db =
      confirm_at env pending (location_or_default pending.location_id db) db

  abbrev pub confirm_parsed : ToolEnv → Option PendingConfirmation → Tool
  confirm_parsed env none db =
      clear_and env (error "Nie udało się odczytać oczekującej akcji. Utwórz ją ponownie.") db
  confirm_parsed env (some pending) db =
      if is_empty pending.rule_expression && is_create pending.action
      then (ok (error "Brak oczekującej reguły do potwierdzenia."), db)
      else confirm_action env pending.action pending db

  abbrev pub confirm_found : ToolEnv → Option String → Tool
  confirm_found env none db = (ok (error "Brak oczekującej akcji do potwierdzenia."), db)
  confirm_found env (some dict) db = confirm_parsed env (t.pending.from_dict dict) db

  -- `_execute_confirm`
  unfoldable pub execute_confirm : ToolEnv → Tool
  execute_confirm env db =
      and_then (get_pending_confirmation env.rules.now env.context_id t.context_key none db)
        (confirm_found env)

  abbrev pub cancel_text : PendingAction → String → String → String
  cancel_text edit_rule edit_short_id delete_short_id =
      if is_empty edit_short_id
      then "Reguła została anulowana."
      else "Edycja reguły #" ++ edit_short_id ++ " została anulowana."
  cancel_text delete_notification edit_short_id delete_short_id =
      if is_empty delete_short_id
      then "Reguła została anulowana."
      else "Usunięcie powiadomienia #" ++ delete_short_id ++ " zostało anulowane."
  cancel_text _ edit_short_id delete_short_id = "Reguła została anulowana."

  abbrev pub cancel_parsed : ToolEnv → Option PendingConfirmation → Tool
  cancel_parsed env none db =
      clear_and env (answer "Nieprawidłowa oczekująca akcja została usunięta." none) db
  cancel_parsed env (some pending) db =
      clear_and env
        (answer
          (cancel_text pending.action (text_or_empty pending.edit_short_id)
            (text_or_empty pending.delete_short_id))
          none)
        db

  abbrev pub cancel_found : ToolEnv → Option String → Tool
  cancel_found env none db = (ok (error "Brak oczekującej akcji do anulowania."), db)
  cancel_found env (some dict) db = cancel_parsed env (t.pending.from_dict dict) db

  -- `_execute_cancel`
  unfoldable pub execute_cancel : ToolEnv → Tool
  execute_cancel env db =
      and_then (get_pending_confirmation env.rules.now env.context_id t.context_key none db)
        (cancel_found env)
