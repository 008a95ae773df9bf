-- ===== src/Memory/Pending.antt =====
-- What `get_pending_confirmation` returns after the other methods.
use weather_agent.Prelude.{ℕ, ◌+◌, ◌*◌, ◌≤◌, false, Option, none, some, String, ok, ◌≡◌, refl, ◌∙◌}
use weather_agent.Prelude.Decimal.{ℤ}
use weather_agent.Retention.{day}
use weather_agent.Database.{Database, TelegramContextOrm, Metadata}
use weather_agent.Memory.Context.{context_key, with_metadata}
use weather_agent.Memory.Thread.{
  store_pending_confirmation, clear_pending_confirmation, get_pending_confirmation, pending_of,
  without_pending, ttl_or, default_ttl_days,
}
use weather_agent.Memory.Rows.{HasUniqueContexts, is_fresh_context, Holds, row_of}
use weather_agent.Memory.Opened.{change-Holds, and_then-Holds}
use weather_agent.Memory.Turns.{within_days}

-- What is read of the confirmation that a context holds.
pub get_pending_confirmation-Holds :
    (now new_id : ℕ) (chat_id : ℤ) (thread : Option ℤ) (ttl_days : Option ℕ)
    (r : TelegramContextOrm) (db : Database)
    → Holds (context_key chat_id thread) r db
    → get_pending_confirmation now new_id (context_key chat_id thread) ttl_days db
      ≡ pending_of now new_id
          (context_key chat_id thread)
          ttl_days
          r.metadata.pending_confirmation
          r.metadata
          db
unfolding get_pending_confirmation context_key
get_pending_confirmation-Holds now new_id chat_id thread ttl_days r db =
    and_then-Holds now new_id chat_id thread
      (λ ctx.
        pending_of now new_id (context_key chat_id thread) ttl_days
          ctx.metadata.pending_confirmation ctx.metadata)
      r db

abbrev stored : ℕ → String → Metadata → Metadata
stored now confirmation metadata = record metadata {
  pending_confirmation = some confirmation;
  pending_confirmation_stored_at = some now;
}

-- A confirmation that was stored is read within its days, and reading changes nothing.
pub get_pending_confirmation-store_pending_confirmation :
    (now later new_id id' : ℕ) (chat_id : ℤ) (thread : Option ℤ) (confirmation : String)
    (ttl_days : Option ℕ) (db : Database)
    → HasUniqueContexts db
    → is_fresh_context new_id db ≡ false
    → later ≤ now + ttl_or ttl_days default_ttl_days * day
    → let stored_db =
        (store_pending_confirmation now new_id (context_key chat_id thread) confirmation db).1 in
      get_pending_confirmation later id' (context_key chat_id thread) ttl_days stored_db
      ≡ (ok (some confirmation), stored_db)
unfolding store_pending_confirmation clear_pending_confirmation context_key
get_pending_confirmation-store_pending_confirmation now later new_id id' chat_id thread confirmation
      ttl_days db h fresh within =
    let (r, held, _) =
      change-Holds now new_id chat_id thread (stored now confirmation) db h fresh in
    let row = row_of now new_id chat_id thread db in
    rw r (
      get_pending_confirmation-Holds later id' chat_id thread ttl_days
        (with_metadata now (stored now confirmation row.metadata) row) _ held
      ∙ rw (within_days now later (ttl_or ttl_days default_ttl_days) within) refl)

-- A confirmation that was cleared is gone.
pub get_pending_confirmation-clear_pending_confirmation :
    (now later new_id id' : ℕ) (chat_id : ℤ) (thread : Option ℤ) (ttl_days : Option ℕ)
    (db : Database)
    → HasUniqueContexts db
    → is_fresh_context new_id db ≡ false
    → let cleared_db = (clear_pending_confirmation now new_id (context_key chat_id thread) db).1 in
      get_pending_confirmation later id' (context_key chat_id thread) ttl_days cleared_db
      ≡ (ok none, cleared_db)
unfolding clear_pending_confirmation context_key
get_pending_confirmation-clear_pending_confirmation now later new_id id' chat_id thread ttl_days db
      h fresh =
    let (r, held, _) = change-Holds now new_id chat_id thread without_pending db h fresh in
    let row = row_of now new_id chat_id thread db in
    rw r (
      get_pending_confirmation-Holds later id' chat_id thread ttl_days
        (with_metadata now (without_pending row.metadata) row) _ held)
