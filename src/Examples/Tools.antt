-- ===== src/Examples/Tools.antt =====
-- The toolbox of a user, and turns of a conversation.
use Prim.Native.Char.{code}
use weather_agent.Prelude.{
  ◌≤◌, ◌≡◌, refl, arith, true, false, ◌&&◌, none, some, List, [], ◌∷◌, ok, integrity_error, length,
  last?, leb, strip, starts_with, lstrip, drop_text,
}
use weather_agent.Prelude.Decimal.{ℤ, show_int, parse_int, digits, digit, show_nat, split_colon}
use weather_agent.Database.{Database, LocationOrm}
use weather_agent.Auth.Repository.{get_or_create_authorized_user_id}
use weather_agent.Polish.{Unicode, normalize_for_matching}
use weather_agent.Rules.Service.{create_rule}
use weather_agent.Rules.Owners.{others}
use weather_agent.Locations.{get_default_location}
use weather_agent.Memory.{context_key, load_turns, parse_context_key, get_or_create_context}
use weather_agent.Toolbox.{
  take_text, RulesToolbox, ToolEnv, PendingConfirmation, create_rule as creates, execute_propose,
  execute_confirm, resolve_location, rule_of, cron_schedule_uses_fixed_date_range, cron,
}
use weather_agent.Toolbox.Calls.{
  ToolCall, perform, perform-proposals, perform_all, perform_all-others, propose, remove, confirm,
}
use weather_agent.Toolbox.Proposal.{execute_confirm-execute_propose, new_rule}
use weather_agent.Conversation.Agent.{
  model, Models, Agent, finished, raised, human, invoke_agent_with_timeout,
  is_transient_model_error,
}
use weather_agent.Conversation.Service.{
  Request, UserMessage, build_conversation_messages, save_turn, handle_reply,
  handle_reply_with_session,
}
use weather_agent.Conversation.Invocation.{
  failed_of, verdict, HasAnswer, invoke_agent_with_timeout-failed,
  invoke_agent_with_timeout-HasAnswer,
}
use weather_agent.Conversation.Replies.{build_conversation_messages-load_turns, handle_reply-raise}
use weather_agent.Conversation.Remembered.{said_by, load_turns-save_turn_both}
use weather_agent.Examples.Fixtures.{empty_db, two_rules, service, calendar, env}

abbrev tables : Unicode
tables = record { nfkd = λ s. s; combining = λ c. false; lower = λ s. s }

abbrev proposed : PendingConfirmation
proposed = record {
  action = creates;
  rule_expression = "x > 1";
  explanation = "Mróz";
  validated = true;
  location_id = some 3;
  chat_id = some 70;
  message_thread_id = none;
  stored_at = some 100;
  edit_short_id = none;
  delete_short_id = none;
  schedule = none;
  lead_time_minutes = none;
  notification_context = none;
}

abbrev toolbox : RulesToolbox
unfolding context_key
toolbox = record {
  service = service;
  unicode = tables;
  calendar = calendar;
  upper = λ s. s;
  is_word = λ c. leb b'a' (code c) && leb (code c) b'z';
  pending = record { to_dict = λ p. "{}"; from_dict = λ s. some proposed };
  geocode = λ s. ok none;
  show_error = λ e. "error";
  context_key = context_key (ℤ.pos 70) none;
  user_id = 7;
  chat_id = 70;
  message_thread_id = none;
  current_user_message = "";
}

abbrev request_env : ToolEnv
request_env = record { rules = env; context_id = 1; location_id = 2 }

-- The tools of another user.
abbrev stranger : RulesToolbox
unfolding toolbox
stranger = record toolbox { user_id = 8 }

abbrev attempts : List (ToolEnv × ToolCall)
attempts =
    (request_env, remove "#RAAAA")
    ∷ (request_env, confirm)
    ∷ (request_env, propose "x > 1" "Mróz" "" "RAAAA")
    ∷ (request_env, confirm)
    ∷ []

perform_all-others_example : others 8 (perform_all stranger attempts two_rules) ≡ two_rules.rules
unfolding stranger
perform_all-others_example = perform_all-others stranger attempts two_rules (refl, (refl, tt))

perform-proposals_example :
    ((perform toolbox request_env (remove "RAAAA") two_rules).rules ≡ two_rules.rules)
    × ((perform toolbox request_env (remove "RAAAA") two_rules).events ≡ two_rules.events)
    × ((perform toolbox request_env (remove "RAAAA") two_rules).runs ≡ two_rules.runs)
perform-proposals_example = perform-proposals toolbox request_env (remove "RAAAA") two_rules refl

abbrev home : LocationOrm
home = record {
  id = 3;
  user_id = 7;
  name = "Dom";
  aliases = [];
  latitude = "52.2";
  longitude = "21.0";
  description = none;
  enabled = true;
  created_at = 1;
  updated_at = 1;
}

abbrev with_home : Database
with_home = record empty_db { locations = home ∷ [] }

fixed_range : cron_schedule_uses_fixed_date_range toolbox.is_word cron "any(date_range (1))" ≡ true
unfolding cron_schedule_uses_fixed_date_range toolbox starts_with lstrip drop_text
fixed_range = refl

no_fixed_range : cron_schedule_uses_fixed_date_range toolbox.is_word cron "mydate_range(1)" ≡ false
unfolding cron_schedule_uses_fixed_date_range toolbox starts_with lstrip drop_text
no_fixed_range = refl

new_rule-proposed : new_rule toolbox request_env "x > 1" "Mróz" 3 ≡ proposed
unfolding toolbox
new_rule-proposed = refl

execute_confirm-execute_propose_example :
    let proposed_db = (execute_propose toolbox request_env "x > 1" "Mróz" "" "" with_home).1 in
    (execute_confirm toolbox request_env proposed_db).1.rules
    ≡ (create_rule toolbox.service env toolbox.user_id
        (rule_of
          (new_rule toolbox request_env "x > 1" "Mróz" 3)
          toolbox.chat_id
          toolbox.message_thread_id
          3)
        with_home).1.rules
unfolding toolbox strip resolve_location get_default_location normalize_for_matching
execute_confirm-execute_propose_example =
    execute_confirm-execute_propose toolbox request_env request_env (ℤ.pos 70) none "x > 1" "Mróz"
      "" "Dom" 3 with_home refl refl tt refl refl refl refl (omega arith)

-- Models: one answers, one does not.
abbrev talker : Agent
talker messages db = (finished "Słonecznie.", db)

abbrev overloaded : Agent
overloaded messages db = (raised "Error 503", db)

abbrev models : Models
models = record { chat = overloaded; fallback = model talker; lower = λ s. s }

answers_by_fallback :
    invoke_agent_with_timeout models [] empty_db ≡ (ok ("Słonecznie.", false), empty_db)
unfolding invoke_agent_with_timeout is_transient_model_error starts_with
answers_by_fallback = refl

invoke_agent_with_timeout-failed_example :
    failed_of models [] (invoke_agent_with_timeout models [] empty_db).0
    ≡ verdict models [] (overloaded [] empty_db)
invoke_agent_with_timeout-failed_example = invoke_agent_with_timeout-failed models [] empty_db

verdict_test : verdict models [] (overloaded [] empty_db) ≡ ok false
unfolding is_transient_model_error starts_with
verdict_test = refl

invoke_agent_with_timeout-HasAnswer_test :
    HasAnswer models [] (invoke_agent_with_timeout models [] empty_db).0
invoke_agent_with_timeout-HasAnswer_test = invoke_agent_with_timeout-HasAnswer models [] empty_db

build_conversation_messages-load_turns_example :
    (length (build_conversation_messages [] "Jaka pogoda?") ≤ 21)
    × (last? (build_conversation_messages [] "Jaka pogoda?") ≡ some (human "Jaka pogoda?"))
unfolding load_turns context_key parse_context_key show_int digits digit show_nat split_colon
    parse_int strip get_or_create_context
build_conversation_messages-load_turns_example =
    build_conversation_messages-load_turns 100 1 "7" "Jaka pogoda?" none empty_db
      (load_turns 100 1 "7" none empty_db).1 [] refl

load_turns-save_turn_both_example :
    (load_turns 200 2
      (context_key (ℤ.pos 70) none)
      none
      (save_turn 100 1 (context_key (ℤ.pos 70) none) "Jaka pogoda?" "Słonecznie." empty_db)).0
    ≡ ok (said_by "user" "Jaka pogoda?" 100 ∷ said_by "bot" (take_text 200 "Słonecznie.") 100 ∷ [])
unfolding context_key save_turn load_turns
load_turns-save_turn_both_example =
    load_turns-save_turn_both 100 200 1 2 (ℤ.pos 70) none "Jaka pogoda?" "Słonecznie." empty_db tt
      refl refl (omega arith)

abbrev request : Request
request = record { tools = request_env; user_id = 4; attachments = [] }

abbrev yes : UserMessage
yes = record {
  telegram_user_id = 77;
  chat_id = ℤ.pos 70;
  message_thread_id = none;
  text = "tak";
  message_id = 1;
  reply_to_message_id = none;
}

-- The key that the engine gives to the new user is that of another one.
abbrev with_user : Database
with_user = record empty_db { users = record { id = 4; telegram_user_id = 1; role = "user" } ∷ [] }

handle_reply-raise_test :
    (handle_reply models (λ user_id message. toolbox) request yes with_user).1 ≡ with_user
unfolding handle_reply handle_reply_with_session get_or_create_authorized_user_id
handle_reply-raise_test =
    handle_reply-raise models (λ user_id message. toolbox) request yes with_user integrity_error
      refl
