-- ===== src/Toolbox/Plan.antt =====
-- `schedule_notification`: a proposal with a schedule and the turns that led to it.
use Prim.Native.Char.{Char}
use Prim.Native.String.{◌++◌}
use weather_agent.Prelude.{
  ℕ, Bool, true, false, not, ◌&&◌, ◌||◌, Option, none, some, List, [], ◌∷◌, String, Result, ok,
  raise, and_then, if◌then◌else◌, is_empty, strip, starts_with, drop_text, take_last, lstrip,
}
use weather_agent.Database.{Turn}
use weather_agent.Schedule.{ScheduleParseResult, parse_schedule}
use weather_agent.Rules.Model.{ScheduledNotificationContext, ScheduledNotificationTurn}
use weather_agent.Memory.{load_turns}
use weather_agent.Toolbox.Model.{
  schedule_notification as schedules, PendingConfirmation, RulesToolbox, ToolEnv, error, Tool,
}
use weather_agent.Toolbox.Propose.{
  take_text, or_text, none_if_empty, text_or_empty, resolve_location, first_of, unless_unknown,
  store_and_show,
}

pub data ScheduleType : Type 0 where
  once cron : ScheduleType

abbrev pub is_cron : ScheduleType → Bool
is_cron once = false
is_cron cron = true

-- `f"{schedule_type}:{schedule_expression}"`
abbrev pub schedule_text : ScheduleType → String → String
schedule_text once expression = "once:" ++ expression
schedule_text cron expression = "cron:" ++ expression

abbrev pub schedule_context_turns : ℕ
schedule_context_turns = 6

-- `turn.get("text") or turn.get("answer_summary")`
abbrev pub turn_text : Turn → Option String
turn_text turn = if is_empty (text_or_empty turn.text) then turn.answer_summary else turn.text

abbrev pub prior_turn :
    Option String → Option String → List ScheduledNotificationTurn → List ScheduledNotificationTurn
prior_turn none text rest = rest
prior_turn (some role) none rest = rest
prior_turn (some role) (some text) rest =
    if is_empty (strip text)
    then rest
    else record { role = role; text = take_text 500 (strip text) } ∷ rest

abbrev pub prior_turns : List Turn → List ScheduledNotificationTurn
prior_turns [] = []
prior_turns (turn ∷ turns) = prior_turn turn.role (turn_text turn) (prior_turns turns)

module _ (is_word : Char → Bool) where
  -- `_DATE_RANGE_FUNCTION_RE.search`: the flag is that a character of a word stands before.
  date_range_from : Bool → String → Bool
  date_range_from after String.[] = false
  date_range_from after (String.◌∷◌ c s) =
      let rest = date_range_from (is_word c) s in
      let text = String.◌∷◌ c s in
      (not after && starts_with text "date_range" && starts_with (lstrip (drop_text 10 text)) "(")
      || rest

  unfoldable pub cron_schedule_uses_fixed_date_range : ScheduleType → String → Bool
  unfolding date_range_from
  cron_schedule_uses_fixed_date_range schedule_type rule_expression =
      is_cron schedule_type && date_range_from false rule_expression

abbrev pub cron_fixed_date_range_error : String
cron_fixed_date_range_error =
    "Dla cyklicznych harmonogramów cron nie używaj stałego date_range(...). "
    ++ "Użyj zakresu względnego do każdego uruchomienia, np. between(today(), \"1800\", \"2100\") "
    ++ "albo next_hours(1)."

abbrev pub schedule_desc : ScheduleType → String → String
schedule_desc once expression = "jednorazowo " ++ expression
schedule_desc cron expression = "cyklicznie (" ++ expression ++ ")"

module _ (t : RulesToolbox) where
  abbrev pub scheduled_context :
      String → String → Option ℕ → Option String → List Turn → ScheduledNotificationContext
  scheduled_context schedule explanation location_id location_name turns = record {
    scheduling_message = take_text 1000 (or_text (strip t.current_user_message) explanation);
    human_request = take_text 1000 (strip explanation);
    schedule = schedule;
    location_id = location_id;
    location_name = location_name;
    prior_turns = prior_turns (take_last schedule_context_turns turns);
  }

  abbrev pub planned :
      ToolEnv
      → String
      → String
      → String
      → Option ℕ
      → Option String
      → List Turn
      → PendingConfirmation
  planned env rule_expression explanation schedule location_id location_name turns = record {
    action = schedules;
    rule_expression = rule_expression;
    explanation = explanation;
    validated = true;
    location_id = location_id;
    chat_id = some t.chat_id;
    message_thread_id = t.message_thread_id;
    stored_at = some env.rules.now;
    edit_short_id = none;
    delete_short_id = none;
    schedule = some schedule;
    lead_time_minutes = none;
    notification_context =
        some (scheduled_context schedule explanation location_id location_name turns);
  }

  abbrev pub plan_text : ScheduleType → String → String → String → String
  plan_text schedule_type schedule_expression rule_expression explanation =
      "Propozycja zaplanowanego powiadomienia:\n\n📅 Harmonogram: "
      ++ schedule_desc schedule_type schedule_expression
      ++ "\n📝 Wyrażenie reguły: `"
      ++ rule_expression
      ++ "`\n📖 Opis: "
      ++ explanation
      ++ "\n\nCzy chcesz potwierdzić? (tak/nie)"

  -- `resolved_location_name or location_name.strip() or None`
  abbrev pub name_or : String → Option (ℕ × String) → Option String
  name_or location_name none = none_if_empty (strip location_name)
  name_or location_name (some (id, name)) = none_if_empty (or_text name (strip location_name))

  abbrev pub plan_at :
      ToolEnv → ScheduleType → String → String → String → String → Option (ℕ × String) → Tool
  plan_at env schedule_type schedule_expression explanation location_name rule_expression found db =
      let schedule = schedule_text schedule_type schedule_expression in
      and_then (load_turns env.rules.now env.context_id t.context_key none db) (λ turns.
        store_and_show t env
          (planned env rule_expression explanation schedule (first_of t found)
            (name_or location_name found) turns)
          (plan_text schedule_type schedule_expression rule_expression explanation))

  abbrev pub plan_parsed :
      ToolEnv → ScheduleType → String → String → String → String → Option String → Tool
  plan_parsed env schedule_type schedule_expression explanation location_name rule_expression
        (some e) db =
      (ok (error ("Nieprawidłowy harmonogram: " ++ e)), db)
  plan_parsed env schedule_type schedule_expression explanation location_name rule_expression none
        db =
      if cron_schedule_uses_fixed_date_range t.is_word schedule_type rule_expression
      then (ok (error cron_fixed_date_range_error), db)
      else and_then (resolve_location t env location_name db) (λ found.
        unless_unknown t location_name (first_of t found) (
          plan_at env schedule_type schedule_expression explanation location_name rule_expression
            found))

  abbrev pub plan_scheduled :
      ToolEnv → ScheduleType → String → String → String → String → Result ScheduleParseResult → Tool
  plan_scheduled env schedule_type schedule_expression explanation location_name rule_expression
        (raise e) db =
      (raise e, db)
  plan_scheduled env schedule_type schedule_expression explanation location_name rule_expression
        (ok parsed) db =
      plan_parsed env schedule_type schedule_expression explanation location_name rule_expression
        parsed.error db

  abbrev pub plan_if :
      ToolEnv → ScheduleType → String → String → String → String → Option String → Tool
  plan_if env schedule_type schedule_expression explanation location_name rule_expression (some e)
        db =
      (ok (error ("Nieprawidłowe wyrażenie reguły: " ++ e)), db)
  plan_if env schedule_type schedule_expression explanation location_name rule_expression none db =
      plan_scheduled env schedule_type schedule_expression explanation location_name rule_expression
        (parse_schedule t.calendar (some (schedule_text schedule_type schedule_expression))) db

  unfoldable pub schedule_notification :
      ToolEnv → ScheduleType → String → String → String → String → Tool
  unfolding resolve_location cron_schedule_uses_fixed_date_range
  schedule_notification env schedule_type schedule_expression explanation location_name
        rule_expression =
      plan_if env schedule_type schedule_expression explanation location_name rule_expression
        (t.service.validate rule_expression)
