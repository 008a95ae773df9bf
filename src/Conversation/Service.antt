-- ===== src/Conversation/Service.antt =====
-- application/conversation_models.py and application/conversation_service.py. The factory of the rules
-- toolbox is a parameter, as it is in the source; the attachments that the weather tools collect are
-- those that the agent ends with.
use weather_agent.Prelude.{
  ℕ, Bool, true, false, ◌||◌, Option, none, some, List, [], ◌∷◌, ◌++◌, String, Result, ok, raise,
  Action, and_then, if◌then◌else◌, is_empty, str_eq, any, strip, ltb, text_length,
}
use weather_agent.Prelude.Decimal.{ℤ}
use weather_agent.Database.{Database, Turn}
use weather_agent.Auth.Repository.{get_or_create_authorized_user_id}
use weather_agent.Memory.{
  context_key as key_of, save_turn as remember_turn, load_turns, get_pending_confirmation,
}
use weather_agent.Toolbox.{
  RulesToolbox, ToolEnv, ToolResult, error, answer, proposal, rules, execute_confirm,
  execute_cancel, take_text, turn_text,
}
use weather_agent.Conversation.Agent.{
  Message, human, ai, Models, generic_failure_answer, invoke_agent_with_timeout,
}

pub record UserMessage : Type 0 where
  pub telegram_user_id : ℕ
  pub chat_id : ℤ
  pub message_thread_id : Option ℤ
  pub text : String
  pub message_id : ℕ
  pub reply_to_message_id : Option ℕ

abbrev pub context_key : UserMessage → String
unfolding key_of
context_key request = key_of request.chat_id request.message_thread_id

-- The bytes of an attachment are only passed on.
pub record BotAttachment : Type 0 where
  pub filename : String
  pub media_type : String
  pub data_bytes : List ℕ
  pub caption : Option String

pub record BotReply : Type 0 where
  pub text : String
  pub attachments : List BotAttachment

abbrev pub direct_confirmations : List String
direct_confirmations =
    "tak" ∷ "Tak" ∷ "TAK" ∷ "ok" ∷ "OK" ∷ "Ok" ∷ "potwierdzam" ∷ "Potwierdzam" ∷ "yes" ∷ "Yes"
    ∷ "YES" ∷ []

abbrev pub direct_cancellations : List String
direct_cancellations = "nie" ∷ "Nie" ∷ "NIE" ∷ "anuluj" ∷ "Anuluj" ∷ "no" ∷ "No" ∷ "NO" ∷ []

abbrev pub among : List String → String → Bool
among words text = any (λ word. str_eq word text) words

-- What a request takes from outside: the environment of its calls, and the keys that the engine gives
-- to a new user and to a new context.
pub record Request : Type 0 where
  pub tools : ToolEnv
  pub user_id : ℕ
  pub attachments : List BotAttachment

abbrev pub turn : ℕ → String → String → Turn
turn now role text = record {
  role = some role;
  text = some text;
  answer_summary = none;
  timestamp = some now;
}

-- `bot_message[:200] if len(bot_message) > 200 else bot_message`
abbrev pub shortened : String → String
shortened text = if ltb 200 (text_length text) then take_text 200 text else text

-- The answer is remembered unless it is empty.
abbrev pub remember_answer : ℕ → ℕ → String → String → Action Database (Unit {0})
unfolding remember_turn
remember_answer now new_id key bot_message db =
    let saved = remember_turn now new_id key (turn now "bot" (shortened bot_message)) none db in
    if is_empty bot_message then (ok tt, db) else saved

-- What is raised is logged.
unfoldable pub save_turn : ℕ → ℕ → String → String → String → Database → Database
unfolding remember_turn
save_turn now new_id key user_message bot_message db =
    (and_then (remember_turn now new_id key (turn now "user" user_message) none db)
      (λ _. remember_answer now new_id key bot_message)).1

-- One turn as a message, if its text and its role say so.
abbrev pub message_of : Option String → Option String → List Message → List Message
message_of none text rest = rest
message_of (some role) none rest = rest
message_of (some role) (some content) rest =
    if str_eq role "user"
    then human content ∷ rest
    else if str_eq role "bot"
    then ai content ∷ rest
    else rest

abbrev pub messages_of : List Turn → List Message
messages_of [] = []
messages_of (t ∷ turns) = message_of t.role (turn_text t) (messages_of turns)

unfoldable pub build_conversation_messages : List Turn → String → List Message
build_conversation_messages turns current_user_text =
    messages_of turns ++ human current_user_text ∷ []

-- `result.get("answer")` if it is a text that is not empty, else `error`, else the generic text.
abbrev pub text_of_result : ToolResult → String
text_of_result (answer text short_id) = if is_empty text then generic_failure_answer else text
text_of_result (error text) = if is_empty text then generic_failure_answer else text
text_of_result (proposal text) = generic_failure_answer
text_of_result (rules listed count) = generic_failure_answer

abbrev pub answered : Result ToolResult × Database → Result (Option String) × Database
answered (raise e, db) = (raise e, db)
answered (ok result, db) = (ok (some (text_of_result result)), db)

module _ (request : Request) (message : UserMessage) (toolbox : RulesToolbox) where
  abbrev pub confirm_or_cancel : Bool → Option String → Action Database (Option String)
  unfolding execute_confirm execute_cancel
  confirm_or_cancel confirms none db = (ok none, db)
  confirm_or_cancel true (some dict) db = answered (execute_confirm toolbox request.tools db)
  confirm_or_cancel false (some dict) db = answered (execute_cancel toolbox request.tools db)

  -- `_handle_direct_confirmation`
  unfoldable pub handle_direct_confirmation : Action Database (Option String)
  unfolding get_pending_confirmation context_key strip
  handle_direct_confirmation db =
      let trimmed = strip message.text in
      let confirms = among direct_confirmations trimmed in
      let settled =
        and_then
          (get_pending_confirmation request.tools.rules.now request.tools.context_id
            (context_key message) none db)
          (confirm_or_cancel confirms) in
      if confirms || among direct_cancellations trimmed then settled else (ok none, db)

module _ (models : Models) (toolboxes : ℕ → UserMessage → RulesToolbox) where
  abbrev pub attachments_unless : Bool → List BotAttachment → List BotAttachment
  attachments_unless true attachments = []
  attachments_unless false attachments = attachments

  abbrev pub remembered :
      Request → UserMessage → (String × Bool) × Database → Result BotReply × Database
  unfolding save_turn context_key
  remembered request message ((text, failed), db) = (
    ok (record { text = text; attachments = attachments_unless failed request.attachments }),
    save_turn request.tools.rules.now request.tools.context_id (context_key message) message.text
        text db,
  )

  abbrev pub reply_or_ask : Request → UserMessage → Option String → Action Database BotReply
  unfolding save_turn context_key load_turns invoke_agent_with_timeout
  reply_or_ask request message (some text) db = (
    ok (record { text = text; attachments = [] }),
    save_turn request.tools.rules.now request.tools.context_id (context_key message) message.text
        text db,
  )
  reply_or_ask request message none db =
      and_then
        (load_turns request.tools.rules.now request.tools.context_id (context_key message) none db)
        (λ turns db'.
          and_then
            (invoke_agent_with_timeout models (build_conversation_messages turns message.text) db')
            (λ answer after. remembered request message (answer, after)))

  -- `_handle_reply_with_session`
  unfoldable pub handle_reply_with_session : Request → UserMessage → Action Database BotReply
  unfolding get_or_create_authorized_user_id handle_direct_confirmation
  handle_reply_with_session request message db =
      and_then (get_or_create_authorized_user_id request.user_id message.telegram_user_id db)
        (λ user_id db'.
          and_then (handle_direct_confirmation request message (toolboxes user_id message) db')
            (reply_or_ask request message))

  -- What raises is not committed.
  abbrev pub committed : {A : Type 0} → Database → Result A × Database → Result A × Database
  committed before (raise e, db) = (raise e, before)
  committed before (ok a, db) = (ok a, db)

  unfoldable pub handle_reply : Request → UserMessage → Action Database BotReply
  unfolding handle_reply_with_session
  handle_reply request message db = committed db (handle_reply_with_session request message db)

  abbrev pub text_of : Result BotReply → Result String
  text_of (raise e) = raise e
  text_of (ok reply) = ok reply.text

  unfoldable pub handle : Request → UserMessage → Database → Result String
  unfolding handle_reply
  handle request message db = text_of (handle_reply request message db).0
