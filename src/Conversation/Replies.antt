-- ===== src/Conversation/Replies.antt =====
-- What the agent is given, what is remembered of a turn, and what an error leaves.
use weather_agent.Prelude.{
  ℕ, ◌+◌, ◌≤◌, Bool-cases, inl, inr, Option, none, some, List, [], ◌∷◌, ◌++◌, String, Result, ok,
  raise, Error, ◌≡◌, refl, subst, arith, length, last?, and_then,
}
use weather_agent.Database.{Database, Turn}
use weather_agent.Memory.{
  TelegramContext, load_turns, turns_of, context_of, max_turns, stored_expired, ttl_or,
  default_ttl_days, update_context, update, without_turns,
}
use weather_agent.Database.{Metadata}
use weather_agent.Memory.Turns.{length-take_last}
use weather_agent.Toolbox.{RulesToolbox, turn_text}
use weather_agent.Conversation.Agent.{Message, human, Models}
use weather_agent.Conversation.Service.{
  UserMessage, Request, messages_of, message_of, build_conversation_messages, handle_reply,
  committed, handle_reply_with_session,
}

module _ {ℓ} {A : Type ℓ} where
  length-append_one : (xs : List A) (x : A) → length (xs ++ x ∷ []) ≡ length xs + 1
  length-append_one [] x = omega arith
  length-append_one (y ∷ xs) x = ground (arith, length-append_one xs x)

  last?-append_one : (xs : List A) (x : A) → last? (xs ++ x ∷ []) ≡ some x
  last?-append_one [] x = refl
  last?-append_one (y ∷ []) x = refl
  last?-append_one (y ∷ z ∷ xs) x = last?-append_one (z ∷ xs) x

length-message_of :
    (role text : Option String) (rest : List Message)
    → length (message_of role text rest) ≤ length rest + 1
length-message_of none text rest = omega arith
length-message_of (some role) none rest = omega arith
length-message_of (some role) (some content) rest = ground arith

length-messages_of : (turns : List Turn) → length (messages_of turns) ≤ length turns
length-messages_of [] = omega arith
length-messages_of (t ∷ turns) =
    omega
      (arith, length-message_of t.role (turn_text t) (messages_of turns), length-messages_of turns)

-- No more than twenty turns are read.
abbrev AtMost : Result (List Turn) × Database → Type 0
AtMost (raise e, db) = Unit
AtMost (ok turns, db) = length turns ≤ max_turns

then-AtMost : {A : Type 0} (o : Result A × Database) → AtMost (and_then o (λ _ db'. (ok [], db')))
then-AtMost (raise e, db) = tt
then-AtMost (ok a, db) = omega arith

turns_of-AtMost :
    (now : ℕ) (key : String) (ttl_days : Option ℕ) (turns : Option (List Turn))
    (metadata : Metadata) (db : Database)
    → AtMost (turns_of now key ttl_days turns metadata db)
unfolding update_context
turns_of-AtMost now key ttl_days none metadata db = omega arith
turns_of-AtMost now key ttl_days (some turns) metadata db =
    let days = ttl_or ttl_days (ttl_or metadata.turns_ttl_days default_ttl_days) in
    elim (Bool-cases (stored_expired now metadata.turns_stored_at days)) [
      | inl e ↦ rw e (then-AtMost (update now key (without_turns metadata) db))
      | inr e ↦ rw e (length-take_last max_turns turns)
    ]

load_turns-AtMost :
    (now new_id : ℕ) (key : String) (ttl_days : Option ℕ) (db : Database)
    → AtMost (load_turns now new_id key ttl_days db)
unfolding load_turns
load_turns-AtMost now new_id key ttl_days db = opened (context_of now new_id key db)
  where
    opened :
        (o : Result TelegramContext × Database)
        → AtMost (and_then o (λ ctx. turns_of now key ttl_days ctx.metadata.turns ctx.metadata))
    opened (raise e, db) = tt
    opened (ok ctx, db) = turns_of-AtMost now key ttl_days ctx.metadata.turns ctx.metadata db

-- From whatever the database holds, the agent is given at most twenty messages of the past, and the
-- user's text last.
pub build_conversation_messages-load_turns :
    (now new_id : ℕ) (key text : String) (ttl_days : Option ℕ) (db db' : Database)
    (turns : List Turn)
    → load_turns now new_id key ttl_days db ≡ (ok turns, db')
    → (length (build_conversation_messages turns text) ≤ 21)
      × (last? (build_conversation_messages turns text) ≡ some (human text))
unfolding build_conversation_messages
build_conversation_messages-load_turns now new_id key text ttl_days db db' turns h =
    let few : length turns ≤ max_turns =
      subst AtMost h (load_turns-AtMost now new_id key ttl_days db) in
    (
      omega (
        arith,
        few,
        length-messages_of turns,
        length-append_one (messages_of turns) (human text),
      ),
      last?-append_one (messages_of turns) (human text),
    )

module _ (models : Models) (toolboxes : ℕ → UserMessage → RulesToolbox) where
  committed-raise :
      {A : Type 0} (before : Database) (o : Result A × Database) (e : Error)
      → (committed models toolboxes before o).0 ≡ raise e
      → (committed models toolboxes before o).1 ≡ before
  committed-raise before (raise e', db) e h = refl
  committed-raise before (ok a, db) e h = cc

  -- A request that ends with an exception leaves the database as it was.
  pub handle_reply-raise :
      (request : Request) (message : UserMessage) (db : Database) (e : Error)
      → (handle_reply models toolboxes request message db).0 ≡ raise e
      → (handle_reply models toolboxes request message db).1 ≡ db
  unfolding handle_reply
  handle_reply-raise request message db e =
      committed-raise db (handle_reply_with_session models toolboxes request message db) e
