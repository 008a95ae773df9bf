-- ===== src/Memory/Bounds.antt =====
-- What every sequence of calls keeps: a key has one context, and a context remembers at most twenty
-- turns.
use weather_agent.Prelude.{
  ℕ, ◌≤◌, Bool-cases, Option, none, some, List, [], ◌∷◌, String, Result, ok, raise, inl, inr, arith,
  any, select, scalar_one_or_none, scalar_one, length, and_then, All, All-update_where, All-select,
}
use weather_agent.Prelude.Decimal.{ℤ}
use weather_agent.Database.{Database, TelegramContextOrm, Metadata, Turn, context_conflict}
use weather_agent.Memory.Context.{
  TelegramContext, found_or_insert, with_metadata, get_or_create_context, parse_context_key,
  update_context, updated_context, new_context, has_key,
}
use weather_agent.Memory.Thread.{
  store_pending_confirmation, clear_pending_confirmation, get_pending_confirmation, save_turn,
  load_turns, of_key, context_of, update, turns_or_empty, max_turns, pending_of, turns_of,
  without_pending, without_turns, stored_expired, ttl_or, default_ttl_days,
}
use weather_agent.Memory.Rows.{HasUniqueContexts, write_context-HasUniqueContexts}
use weather_agent.Memory.Turns.{length-with_turn, saved}

abbrev pub Bounded : Metadata → Type 0
Bounded metadata = length (turns_or_empty metadata.turns) ≤ max_turns

abbrev pub Kept : Database → Type 0
Kept db = HasUniqueContexts db × All (λ c. Bounded c.metadata) db.contexts

-- The context of a result, if there is one.
abbrev BoundedContext : Result TelegramContext × Database → Type 0
BoundedContext (raise e, db) = Kept db
BoundedContext (ok ctx, db) = Bounded ctx.metadata × Kept db

abbrev BoundedRow : Result (Option TelegramContextOrm) → Type 0
BoundedRow (raise e) = Unit
BoundedRow (ok none) = Unit
BoundedRow (ok (some row)) = Bounded row.metadata

scalar-BoundedRow :
    (xs : List TelegramContextOrm)
    → All (λ c. Bounded c.metadata) xs
    → BoundedRow (scalar_one_or_none xs)
scalar-BoundedRow [] h = tt
scalar-BoundedRow (x ∷ []) h = h.0
scalar-BoundedRow (x ∷ y ∷ xs) h = tt

found_or_insert-Bounded :
    (new : TelegramContextOrm) (o : Result (Option TelegramContextOrm)) (db : Database)
    → Bounded new.metadata
    → BoundedRow o
    → Kept db
    → BoundedContext (found_or_insert new o db)
found_or_insert-Bounded new (raise e) db n r k = k
found_or_insert-Bounded new (ok (some row)) db n r k = (r, k)
found_or_insert-Bounded new (ok none) db n r k =
    elim (Bool-cases (any (context_conflict new) db.contexts)) [
      | inl e ↦ rw e k
      | inr e ↦ rw e (n, ((e, k.0), (n, k.1)))
    ]

context_of-Bounded :
    (now new_id : ℕ) (key : Option (ℤ × Option ℤ)) (db : Database)
    → Kept db
    → BoundedContext (of_key now new_id key db)
unfolding get_or_create_context
context_of-Bounded now new_id none db k = k
context_of-Bounded now new_id (some (chat_id, thread)) db k =
    found_or_insert-Bounded (new_context now new_id chat_id thread) _ db (omega arith)
      (scalar-BoundedRow (select (has_key _) db.contexts)
        (All-select _ (has_key _) db.contexts k.1))
      k

update-Kept :
    (now : ℕ) (key : String) (metadata : Metadata) (db : Database)
    → Bounded metadata
    → Kept db
    → Kept (update now key metadata db).1
unfolding update_context
update-Kept now key metadata db b k = written (scalar_one (select (has_key key) db.contexts))
  where
    written :
        (o : Result TelegramContextOrm)
        → Kept (and_then (updated_context now key metadata db o) (λ _ db'. (ok (tt {0}), db'))).1
    written (raise e) = k
    written (ok row) = (
      write_context-HasUniqueContexts now key metadata db k.0,
      All-update_where (λ c. Bounded c.metadata) (has_key key) (with_metadata now metadata)
          db.contexts (λ c _. b) k.1,
    )

and_then-Kept :
    {A : Type 0} (o : Result TelegramContext × Database)
    (f : TelegramContext → Database → Result A × Database)
    → BoundedContext o
    → ((ctx : TelegramContext) (db : Database) → Bounded ctx.metadata → Kept db → Kept (f ctx db).1)
    → Kept (and_then o f).1
and_then-Kept (raise e, db) f b k = b
and_then-Kept (ok ctx, db) f b k = k ctx db b.0 b.1

then_none-Kept :
    {A B : Type 0} (o : Result A × Database) (b : B)
    → Kept o.1
    → Kept (and_then o (λ _ db'. (ok b, db'))).1
then_none-Kept (raise e, db) b k = k
then_none-Kept (ok a, db) b k = k

-- The calls of the service.
pub data MemoryCall : Type 0 where
  store : ℕ → ℕ → String → String → MemoryCall
  get : ℕ → ℕ → String → Option ℕ → MemoryCall
  clear : ℕ → ℕ → String → MemoryCall
  save : ℕ → ℕ → String → Turn → Option ℕ → MemoryCall
  load : ℕ → ℕ → String → Option ℕ → MemoryCall

unfoldable pub perform : MemoryCall → Database → Database
unfolding store_pending_confirmation get_pending_confirmation clear_pending_confirmation save_turn
    load_turns
perform (store now new_id key confirmation) db =
    (store_pending_confirmation now new_id key confirmation db).1
perform (get now new_id key ttl_days) db = (get_pending_confirmation now new_id key ttl_days db).1
perform (clear now new_id key) db = (clear_pending_confirmation now new_id key db).1
perform (save now new_id key turn ttl_days) db = (save_turn now new_id key turn ttl_days db).1
perform (load now new_id key ttl_days) db = (load_turns now new_id key ttl_days db).1

unfoldable pub perform_all : List MemoryCall → Database → Database
unfolding perform
perform_all [] db = db
perform_all (call ∷ calls) db = perform_all calls (perform call db)

context_of_key-Bounded :
    (now new_id : ℕ) (key : String) (db : Database)
    → Kept db
    → BoundedContext (context_of now new_id key db)
unfolding parse_context_key
context_of_key-Bounded now new_id key = context_of-Bounded now new_id (parse_context_key key)

clear-Kept :
    (now new_id : ℕ) (key : String) (db : Database)
    → Kept db
    → Kept (clear_pending_confirmation now new_id key db).1
unfolding clear_pending_confirmation
clear-Kept now new_id key db k =
    and_then-Kept (context_of now new_id key db) _ (context_of_key-Bounded now new_id key db k)
      (λ ctx db' b k'. update-Kept now key (without_pending ctx.metadata) db' b k')

pending_of-Kept :
    (now new_id : ℕ) (key : String) (ttl_days : Option ℕ) (confirmation : Option String)
    (metadata : Metadata) (db : Database)
    → Kept db
    → Kept (pending_of now new_id key ttl_days confirmation metadata db).1
unfolding clear_pending_confirmation
pending_of-Kept now new_id key ttl_days none metadata db k = k
pending_of-Kept now new_id key ttl_days (some confirmation) metadata db k =
    let days = ttl_or ttl_days default_ttl_days in
    let kept =
      then_none-Kept (clear_pending_confirmation now new_id key db) none
        (clear-Kept now new_id key db k) in
    elim (Bool-cases (stored_expired now metadata.pending_confirmation_stored_at days)) [
      | inl e ↦ rw e kept
      | inr e ↦ rw e k
    ]

turns_of-Kept :
    (now : ℕ) (key : String) (ttl_days : Option ℕ) (turns : Option (List Turn))
    (metadata : Metadata) (db : Database)
    → Kept db
    → Kept (turns_of now key ttl_days turns metadata db).1
unfolding update_context
turns_of-Kept now key ttl_days none metadata db k = k
turns_of-Kept now key ttl_days (some turns) metadata db k =
    let days = ttl_or ttl_days (ttl_or metadata.turns_ttl_days default_ttl_days) in
    let kept =
      then_none-Kept (update now key (without_turns metadata) db) []
        (update-Kept now key (without_turns metadata) db (omega arith) k) in
    elim (Bool-cases (stored_expired now metadata.turns_stored_at days)) [
      | inl e ↦ rw e kept
      | inr e ↦ rw e k
    ]

perform-Kept : (call : MemoryCall) (db : Database) → Kept db → Kept (perform call db)
unfolding perform store_pending_confirmation get_pending_confirmation save_turn load_turns
perform-Kept (store now new_id key confirmation) db k =
    and_then-Kept (context_of now new_id key db) _ (context_of_key-Bounded now new_id key db k)
      (λ ctx db' b k'.
        update-Kept now key
          (record ctx.metadata {
            pending_confirmation = some confirmation;
            pending_confirmation_stored_at = some now;
          })
          db' b k')
perform-Kept (get now new_id key ttl_days) db k =
    and_then-Kept (context_of now new_id key db) _ (context_of_key-Bounded now new_id key db k)
      (λ ctx db' b k'.
        pending_of-Kept now new_id key ttl_days ctx.metadata.pending_confirmation ctx.metadata db'
          k')
perform-Kept (clear now new_id key) db k = clear-Kept now new_id key db k
perform-Kept (save now new_id key turn ttl_days) db k =
    and_then-Kept (context_of now new_id key db) _ (context_of_key-Bounded now new_id key db k)
      (λ ctx db' b k'.
        update-Kept now key (saved now turn ttl_days ctx.metadata) db'
          (length-with_turn now turn ctx.metadata.turns) k')
perform-Kept (load now new_id key ttl_days) db k =
    and_then-Kept (context_of now new_id key db) _ (context_of_key-Bounded now new_id key db k)
      (λ ctx db' b k'. turns_of-Kept now key ttl_days ctx.metadata.turns ctx.metadata db' k')

-- Whatever calls the service gets, with whatever keys, a key has one context and no context remembers
-- more than twenty turns, if that held before.
pub perform_all-Kept :
    (calls : List MemoryCall) (db : Database) → Kept db → Kept (perform_all calls db)
unfolding perform_all
perform_all-Kept [] db k = k
perform_all-Kept (call ∷ calls) db k =
    perform_all-Kept calls (perform call db) (perform-Kept call db k)
