-- ===== src/Memory/Thread.antt =====
-- infrastructure/memory/thread_memory.py: the methods of `ThreadMemoryService`. `now` is the one moment
-- of a call; `new_id` is the key that the engine gives to a context that the call creates.
use weather_agent.Prelude.{
  ℕ, ◌-◌, ◌*◌, Bool, false, Option, none, some, List, [], ◌∷◌, ◌++◌, String, ok, raise, Action,
  and_then, ltb, if◌then◌else◌, take_last, value_error,
}
use weather_agent.Prelude.Decimal.{ℤ}
use weather_agent.Database.{Database, Metadata, Turn}
use weather_agent.Retention.{day}
use weather_agent.Memory.Context.{
  TelegramContext, parse_context_key, get_or_create_context, update_context,
}

abbrev pub max_turns : ℕ
max_turns = 20

abbrev pub default_ttl_days : ℕ
default_ttl_days = 14

abbrev pub is_expired : ℕ → ℕ → ℕ → Bool
is_expired now created_at ttl_days = ltb (ttl_days * day) (now - created_at)

-- `ttl_days if ttl_days is not None else default`
abbrev pub ttl_or : Option ℕ → ℕ → ℕ
ttl_or none default = default
ttl_or (some days) default = days

-- The first line of every method: the context of the key, which must be one.
abbrev pub of_key : ℕ → ℕ → Option (ℤ × Option ℤ) → Action Database TelegramContext
unfolding get_or_create_context
of_key now new_id none db = (raise value_error, db)
of_key now new_id (some (chat_id, thread)) db = get_or_create_context now new_id chat_id thread db

abbrev pub context_of : ℕ → ℕ → String → Action Database TelegramContext
unfolding parse_context_key
context_of now new_id key = of_key now new_id (parse_context_key key)

abbrev pub update : ℕ → String → Metadata → Action Database (Unit {0})
unfolding update_context
update now key metadata db = and_then (update_context now key metadata db) (λ _ db'. (ok tt, db'))

unfoldable pub store_pending_confirmation : ℕ → ℕ → String → String → Action Database (Unit {0})
store_pending_confirmation now new_id key confirmation db =
    and_then (context_of now new_id key db) (λ ctx. update now key (record ctx.metadata {
      pending_confirmation = some confirmation;
      pending_confirmation_stored_at = some now;
    }))

abbrev pub without_pending : Metadata → Metadata
without_pending metadata = record metadata {
  pending_confirmation = none;
  pending_confirmation_stored_at = none;
}

unfoldable pub clear_pending_confirmation : ℕ → ℕ → String → Action Database (Unit {0})
clear_pending_confirmation now new_id key db =
    and_then (context_of now new_id key db) (λ ctx. update now key (without_pending ctx.metadata))

-- A moment of storing that is missing does not expire.
abbrev pub stored_expired : ℕ → Option ℕ → ℕ → Bool
stored_expired now none ttl_days = false
stored_expired now (some stored_at) ttl_days = is_expired now stored_at ttl_days

abbrev pub pending_of :
    ℕ → ℕ → String → Option ℕ → Option String → Metadata → Action Database (Option String)
unfolding clear_pending_confirmation
pending_of now new_id key ttl_days none metadata db = (ok none, db)
pending_of now new_id key ttl_days (some confirmation) metadata db =
    let cleared = clear_pending_confirmation now new_id key db in
    if stored_expired now metadata.pending_confirmation_stored_at (ttl_or ttl_days default_ttl_days)
    then and_then cleared (λ _ db'. (ok none, db'))
    else (ok (some confirmation), db)

unfoldable pub get_pending_confirmation :
    ℕ → ℕ → String → Option ℕ → Action Database (Option String)
get_pending_confirmation now new_id key ttl_days db =
    and_then (context_of now new_id key db)
      (λ ctx. pending_of now new_id key ttl_days ctx.metadata.pending_confirmation ctx.metadata)

-- `metadata.get("turns") or []`
abbrev pub turns_or_empty : Option (List Turn) → List Turn
turns_or_empty none = []
turns_or_empty (some turns) = turns

abbrev pub now_if_none : ℕ → Option ℕ → Option ℕ
now_if_none now none = some now
now_if_none now (some t) = some t

abbrev pub stamped : ℕ → Turn → Turn
stamped now turn = record turn { timestamp = now_if_none now turn.timestamp }

-- The turns that a context keeps when another one comes.
abbrev pub with_turn : ℕ → Turn → Option (List Turn) → List Turn
with_turn now turn turns = take_last max_turns (turns_or_empty turns ++ stamped now turn ∷ [])

unfoldable pub save_turn : ℕ → ℕ → String → Turn → Option ℕ → Action Database (Unit {0})
save_turn now new_id key turn ttl_days db = and_then (context_of now new_id key db) (λ ctx.
    update now key (record ctx.metadata {
      turns = some (with_turn now turn ctx.metadata.turns);
      turns_stored_at = some now;
      turns_ttl_days = some (ttl_or ttl_days default_ttl_days);
    }))

abbrev pub without_turns : Metadata → Metadata
without_turns metadata = record metadata {
  turns = none;
  turns_stored_at = none;
  turns_ttl_days = none;
}

abbrev pub turns_of :
    ℕ → String → Option ℕ → Option (List Turn) → Metadata → Action Database (List Turn)
turns_of now key ttl_days none metadata db = (ok [], db)
turns_of now key ttl_days (some turns) metadata db =
    let cleared = update now key (without_turns metadata) db in
    if stored_expired now metadata.turns_stored_at
      (ttl_or ttl_days (ttl_or metadata.turns_ttl_days default_ttl_days))
    then and_then cleared (λ _ db'. (ok [], db'))
    else (ok (take_last max_turns turns), db)

unfoldable pub load_turns : ℕ → ℕ → String → Option ℕ → Action Database (List Turn)
load_turns now new_id key ttl_days db =
    and_then (context_of now new_id key db)
      (λ ctx. turns_of now key ttl_days ctx.metadata.turns ctx.metadata)
