-- ===== src/Memory/Context.antt =====
-- adapters/telegram/context.py: the methods of `TelegramContextService`; and `_parse_context_key` of
-- infrastructure/memory/thread_memory.py, the inverse of a key.
use weather_agent.Prelude.{
  ℕ, Bool, Option, none, some, List, String, Result, ok, raise, Action, str_eq, select,
  update_where, scalar_one, scalar_one_or_none,
}
use weather_agent.Prelude.Decimal.{ℤ, show_int, parse_int, split_colon}
use weather_agent.Database.{Database, TelegramContextOrm, Metadata, context_conflict, insert_row}

pub record TelegramContext : Type 0 where
  pub context_key : String
  pub chat_id : ℤ
  pub message_thread_id : Option ℤ
  pub metadata : Metadata
  pub created_at : ℕ
  pub updated_at : ℕ

-- `ContextKey.context_key`, and `UserMessage.context_key` of application/conversation_models.py.
unfoldable pub context_key : ℤ → Option ℤ → String
unfolding show_int
context_key chat_id none = show_int chat_id ""
context_key chat_id (some thread) = show_int chat_id (String.◌∷◌ ":" (show_int thread ""))

abbrev pub both_parts : Option ℤ → Option ℤ → Option (ℤ × Option ℤ)
both_parts none b = none
both_parts (some a) none = none
both_parts (some a) (some b) = some (a, some b)

abbrev pub chat_only : Option ℤ → Option (ℤ × Option ℤ)
chat_only none = none
chat_only (some a) = some (a, none)

abbrev pub parse_parts : String → Option (String × String) → Option (ℤ × Option ℤ)
unfolding parse_int
parse_parts key none = chat_only (parse_int key)
parse_parts key (some (a, b)) = both_parts (parse_int a) (parse_int b)

-- None where `int` raises `ValueError`.
unfoldable pub parse_context_key : String → Option (ℤ × Option ℤ)
unfolding split_colon
parse_context_key key = parse_parts key (split_colon key)

abbrev pub to_context : TelegramContextOrm → TelegramContext
to_context orm = record {
  context_key = orm.context_key;
  chat_id = orm.chat_id;
  message_thread_id = orm.message_thread_id;
  metadata = orm.metadata;
  created_at = orm.created_at;
  updated_at = orm.updated_at;
}

abbrev pub has_key : String → TelegramContextOrm → Bool
has_key key c = str_eq c.context_key key

abbrev pub no_metadata : Metadata
no_metadata = record {
  turns = none;
  turns_stored_at = none;
  turns_ttl_days = none;
  pending_confirmation = none;
  pending_confirmation_stored_at = none;
}

abbrev pub new_context : ℕ → ℕ → ℤ → Option ℤ → TelegramContextOrm
unfolding context_key
new_context now new_id chat_id thread = record {
  id = new_id;
  chat_id = chat_id;
  message_thread_id = thread;
  context_key = context_key chat_id thread;
  metadata = no_metadata;
  created_at = now;
  updated_at = now;
}

abbrev pub inserted :
    TelegramContextOrm
    → Database
    → Result (List TelegramContextOrm)
    → Result TelegramContext × Database
inserted new db (raise e) = (raise e, db)
inserted new db (ok rows) = (ok (to_context new), record db { contexts = rows })

abbrev pub insert_context : TelegramContextOrm → Action Database TelegramContext
insert_context new db = inserted new db (insert_row context_conflict new db.contexts)

-- The context that was found, or the new one.
abbrev pub found_or_insert :
    TelegramContextOrm → Result (Option TelegramContextOrm) → Action Database TelegramContext
found_or_insert new (raise e) db = (raise e, db)
found_or_insert new (ok (some orm)) db = (ok (to_context orm), db)
found_or_insert new (ok none) db = insert_context new db

unfoldable pub get_or_create_context : ℕ → ℕ → ℤ → Option ℤ → Action Database TelegramContext
unfolding context_key
get_or_create_context now new_id chat_id thread db =
    found_or_insert (new_context now new_id chat_id thread)
      (scalar_one_or_none (select (has_key (context_key chat_id thread)) db.contexts)) db

abbrev pub with_metadata : ℕ → Metadata → TelegramContextOrm → TelegramContextOrm
with_metadata now metadata orm = record orm { metadata = metadata; updated_at = now }

-- The attributes of the object are assigned and flushed.
abbrev pub write_context : ℕ → String → Metadata → Database → Database
write_context now key metadata db = record db {
  contexts = update_where (has_key key) (with_metadata now metadata) db.contexts;
}

abbrev pub updated_context :
    ℕ → String → Metadata → Database → Result TelegramContextOrm → Result TelegramContext × Database
updated_context now key metadata db (raise e) = (raise e, db)
updated_context now key metadata db (ok orm) =
    (ok (to_context (with_metadata now metadata orm)), write_context now key metadata db)

unfoldable pub update_context : ℕ → String → Metadata → Action Database TelegramContext
update_context now key metadata db =
    updated_context now key metadata db (scalar_one (select (has_key key) db.contexts))

abbrev pub cleared_context :
    ℕ → String → Database → Result (Option TelegramContextOrm) → Result (Unit {0}) × Database
cleared_context now key db (raise e) = (raise e, db)
cleared_context now key db (ok none) = (ok tt, db)
cleared_context now key db (ok (some orm)) = (ok tt, write_context now key no_metadata db)

unfoldable pub clear_context : ℕ → String → Action Database (Unit {0})
clear_context now key db =
    cleared_context now key db (scalar_one_or_none (select (has_key key) db.contexts))
