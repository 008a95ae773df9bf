-- ===== src/Memory/Frames.antt =====
-- What the memory leaves as it is: every table but the contexts.
use weather_agent.Prelude.{
  ℕ, Bool-cases, Option, none, some, List, [], String, Result, ok, raise, Action, inl, inr,
  and_then, select, scalar_one,
}
use weather_agent.Prelude.Decimal.{ℤ}
use weather_agent.Database.{
  Database, TelegramContextOrm, LocationOrm, Metadata, Turn, context_conflict, insert_row,
}
use weather_agent.Memory.Context.{
  found_or_insert, inserted, get_or_create_context, parse_context_key, update_context,
  updated_context, new_context, has_key,
}
use weather_agent.Memory.Thread.{
  store_pending_confirmation, clear_pending_confirmation, get_pending_confirmation, save_turn,
  load_turns, of_key, context_of, update, pending_of, turns_of, without_turns, without_pending,
  stored_expired, ttl_or, default_ttl_days,
}

-- A property of the database that does not speak of contexts and locations.
abbrev pub IsFrame : (Database → Type 0) → Type 0
IsFrame Q =
    (db : Database) (contexts : List TelegramContextOrm) (locations : List LocationOrm)
    → Q db
    → Q (record db { contexts = contexts; locations = locations })

module _ {A B : Type 0} (Q : Database → Type 0) where
  -- A method that goes on, unless it has raised, keeps what both parts keep.
  pub and_then_keeps :
      (o : Result A × Database) (f : A → Action Database B)
      → Q o.1
      → ((a : A) (db : Database) → Q db → Q (f a db).1)
      → Q (and_then o f).1
  and_then_keeps (raise e, db) f q k = q
  and_then_keeps (ok a, db) f q k = k a db q

module _ (Q : Database → Type 0) (frame : IsFrame Q) where
  found_or_insert_keeps :
      (new : TelegramContextOrm) (o : Result (Option TelegramContextOrm)) (db : Database)
      → Q db
      → Q (found_or_insert new o db).1
  found_or_insert_keeps new (raise e) db q = q
  found_or_insert_keeps new (ok (some row)) db q = q
  found_or_insert_keeps new (ok none) db q = added (insert_row context_conflict new db.contexts)
    where
      added : (rows : Result (List TelegramContextOrm)) → Q (inserted new db rows).1
      added (raise e) = q
      added (ok rows) = frame db rows db.locations q

  of_key_keeps :
      (now new_id : ℕ) (key : Option (ℤ × Option ℤ)) (db : Database)
      → Q db
      → Q (of_key now new_id key db).1
  unfolding get_or_create_context
  of_key_keeps now new_id none db q = q
  of_key_keeps now new_id (some (chat_id, thread)) db q =
      found_or_insert_keeps (new_context now new_id chat_id thread) _ db q

  context_of_keeps :
      (now new_id : ℕ) (key : String) (db : Database) → Q db → Q (context_of now new_id key db).1
  unfolding parse_context_key
  context_of_keeps now new_id key = of_key_keeps now new_id (parse_context_key key)

  update_keeps :
      (now : ℕ) (key : String) (metadata : Metadata) (db : Database)
      → Q db
      → Q (update now key metadata db).1
  unfolding update_context
  update_keeps now key metadata db q = written (scalar_one (select (has_key key) db.contexts))
    where
      written :
          (o : Result TelegramContextOrm)
          → Q (and_then (updated_context now key metadata db o) (λ _ db'. (ok (tt {0}), db'))).1
      written (raise e) = q
      written (ok row) = frame db _ db.locations q

  pub store_pending_confirmation_keeps :
      (now new_id : ℕ) (key confirmation : String) (db : Database)
      → Q db
      → Q (store_pending_confirmation now new_id key confirmation db).1
  unfolding store_pending_confirmation
  store_pending_confirmation_keeps now new_id key confirmation db q =
      and_then_keeps Q (context_of now new_id key db) _ (context_of_keeps now new_id key db q)
        (λ ctx db' q'. update_keeps now key _ db' q')

  pub clear_pending_confirmation_keeps :
      (now new_id : ℕ) (key : String) (db : Database)
      → Q db
      → Q (clear_pending_confirmation now new_id key db).1
  unfolding clear_pending_confirmation
  clear_pending_confirmation_keeps now new_id key db q =
      and_then_keeps Q (context_of now new_id key db) _ (context_of_keeps now new_id key db q)
        (λ ctx db' q'. update_keeps now key (without_pending ctx.metadata) db' q')

  pending_of_keeps :
      (now new_id : ℕ) (key : String) (ttl_days : Option ℕ) (confirmation : Option String)
      (metadata : Metadata) (db : Database)
      → Q db
      → Q (pending_of now new_id key ttl_days confirmation metadata db).1
  unfolding clear_pending_confirmation
  pending_of_keeps now new_id key ttl_days none metadata db q = q
  pending_of_keeps now new_id key ttl_days (some confirmation) metadata db q =
      let days = ttl_or ttl_days default_ttl_days in
      let kept =
        and_then_keeps {B = Option String} Q (clear_pending_confirmation now new_id key db)
          (λ _ db'. (ok none, db')) (clear_pending_confirmation_keeps now new_id key db q)
          (λ _ db' q'. q') in
      elim (Bool-cases (stored_expired now metadata.pending_confirmation_stored_at days)) [
        | inl e ↦ rw e kept
        | inr e ↦ rw e q
      ]

  pub get_pending_confirmation_keeps :
      (now new_id : ℕ) (key : String) (ttl_days : Option ℕ) (db : Database)
      → Q db
      → Q (get_pending_confirmation now new_id key ttl_days db).1
  unfolding get_pending_confirmation
  get_pending_confirmation_keeps now new_id key ttl_days db q =
      and_then_keeps Q (context_of now new_id key db) _ (context_of_keeps now new_id key db q)
        (λ ctx db' q'.
          pending_of_keeps now new_id key ttl_days ctx.metadata.pending_confirmation ctx.metadata
            db' q')

  turns_of_keeps :
      (now : ℕ) (key : String) (ttl_days : Option ℕ) (turns : Option (List Turn))
      (metadata : Metadata) (db : Database)
      → Q db
      → Q (turns_of now key ttl_days turns metadata db).1
  unfolding update_context
  turns_of_keeps now key ttl_days none metadata db q = q
  turns_of_keeps now key ttl_days (some turns) metadata db q =
      let days = ttl_or ttl_days (ttl_or metadata.turns_ttl_days default_ttl_days) in
      let kept =
        and_then_keeps {B = List Turn} Q (update now key (without_turns metadata) db)
          (λ _ db'. (ok [], db')) (update_keeps now key (without_turns metadata) db q)
          (λ _ db' q'. q') in
      elim (Bool-cases (stored_expired now metadata.turns_stored_at days)) [
        | inl e ↦ rw e kept
        | inr e ↦ rw e q
      ]

  pub load_turns_keeps :
      (now new_id : ℕ) (key : String) (ttl_days : Option ℕ) (db : Database)
      → Q db
      → Q (load_turns now new_id key ttl_days db).1
  unfolding load_turns
  load_turns_keeps now new_id key ttl_days db q =
      and_then_keeps Q (context_of now new_id key db) _ (context_of_keeps now new_id key db q)
        (λ ctx db' q'. turns_of_keeps now key ttl_days ctx.metadata.turns ctx.metadata db' q')

  pub save_turn_keeps :
      (now new_id : ℕ) (key : String) (turn : Turn) (ttl_days : Option ℕ) (db : Database)
      → Q db
      → Q (save_turn now new_id key turn ttl_days db).1
  unfolding save_turn
  save_turn_keeps now new_id key turn ttl_days db q =
      and_then_keeps Q (context_of now new_id key db) _ (context_of_keeps now new_id key db q)
        (λ ctx db' q'. update_keeps now key _ db' q')
