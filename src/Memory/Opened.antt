-- ===== src/Memory/Opened.antt =====
-- What the methods of `ThreadMemoryService` share: they open the one context of their key and write its
-- metadata.
use weather_agent.Prelude.{ℕ, false, Option, String, Result, ok, ◌≡◌, ◌∙◌, ap, and_then}
use weather_agent.Prelude.Decimal.{ℤ}
use weather_agent.Database.{Database, TelegramContextOrm, Metadata}
use weather_agent.Memory.Context.{
  TelegramContext, context_key, to_context, found_or_insert, new_context, get_or_create_context,
  update_context, with_metadata, write_context, parse_context_key,
}
use weather_agent.Memory.Thread.{of_key, context_of, update}
use weather_agent.Memory.Rows.{
  parse_context_key-context_key, HasUniqueContexts, is_fresh_context, Holds, row_of, opened,
  get_or_create_context-Holds, update_context-Holds, write_context-HasUniqueContexts,
}

module _ (now new_id : ℕ) (chat_id : ℤ) (thread : Option ℤ) where
  abbrev pub key : String
  unfolding context_key
  key = context_key chat_id thread

  pub context_of-opened :
      (db : Database)
      → HasUniqueContexts db
      → is_fresh_context new_id db ≡ false
      → context_of now new_id key db ≡ (
        ok (to_context (row_of now new_id chat_id thread db)),
        opened now new_id chat_id thread db,
      )
  unfolding get_or_create_context parse_context_key
  context_of-opened db h fresh =
      ap (λ k. of_key now new_id k db) (parse_context_key-context_key chat_id thread)
      ∙ (get_or_create_context-Holds now new_id chat_id thread db h fresh).0

  abbrev pub row : Database → TelegramContextOrm
  row = row_of now new_id chat_id thread

  abbrev pub change :
      (Metadata → Metadata) → TelegramContext → Database → Result (Unit {0}) × Database
  change f ctx = update now key (f ctx.metadata)

  -- A method that writes the metadata of its context.
  pub change-Holds :
      (f : Metadata → Metadata) (db : Database)
      → HasUniqueContexts db
      → is_fresh_context new_id db ≡ false
      → let opened_db = opened now new_id chat_id thread db in
        (and_then (context_of now new_id key db) (change f)
          ≡ (ok tt, write_context now key (f (row db).metadata) opened_db))
        × Holds key
            (with_metadata now (f (row db).metadata) (row db))
            (write_context now key (f (row db).metadata) opened_db)
        × HasUniqueContexts (write_context now key (f (row db).metadata) opened_db)
  unfolding update_context key context_key
  change-Holds f db h fresh =
      let (_, held, unique) = get_or_create_context-Holds now new_id chat_id thread db h fresh in
      let opened_db = opened now new_id chat_id thread db in
      let (r, held') = update_context-Holds now key (f (row db).metadata) (row db) opened_db held in
      (
        ap (λ o. and_then o (change f)) (context_of-opened db h fresh)
            ∙ ap (λ o. and_then o (λ _ db'. (ok tt, db'))) r,
        held',
        write_context-HasUniqueContexts now key (f (row db).metadata) opened_db unique,
      )

  -- A context that is there is opened as it is.
  pub context_of-Holds :
      (r : TelegramContextOrm) (db : Database)
      → Holds key r db
      → context_of now new_id key db ≡ (ok (to_context r), db)
  unfolding key context_key parse_context_key get_or_create_context
  context_of-Holds r db h =
      ap (λ k. of_key now new_id k db) (parse_context_key-context_key chat_id thread)
      ∙ ap (λ o. found_or_insert (new_context now new_id chat_id thread) o db) h

  -- Whatever is in the context is kept by the unit of what is read.
  pub and_then-Holds :
      {A : Type 0} (f : TelegramContext → Database → Result A × Database) (r : TelegramContextOrm)
      (db : Database)
      → Holds key r db
      → and_then (context_of now new_id key db) f ≡ f (to_context r) db
  and_then-Holds f r db h = ap (λ o. and_then o f) (context_of-Holds r db h)
