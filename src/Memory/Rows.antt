-- ===== src/Memory/Rows.antt =====
-- The rows of adapters/telegram/context.py under its statements: keys are read back, and a key has one
-- context at most.
use weather_agent.Prelude.{
  ℕ, Bool, true, false, Option, none, some, List, [], ◌∷◌, String, ok, ◌≡◌, refl, ◌∙◌, ap, inl, inr,
  ◌==◌, str_eq, arith, eq_refl, eq_iff, any, select, find, scalar_one, scalar_one_or_none, Distinct,
  scalar-update_where, scalar-select, select-nil, Distinct-update_where, Option-cases, any-of_find,
}
use weather_agent.Prelude.Decimal.{ℤ, show_int, parse_int}
use weather_agent.Prelude.Decimal.RoundTrip.{
  parse_int-show_int, split_colon-show_int, split_colon-show_int-none,
}
use weather_agent.Database.{Database, TelegramContextOrm, Metadata, context_conflict, insert_row}
use weather_agent.Memory.Context.{
  context_key, parse_context_key, parse_parts, both_parts, chat_only, to_context, updated_context,
  inserted, found_or_insert, has_key, new_context, with_metadata, write_context,
  get_or_create_context, update_context,
}

-- The chat and the thread are read back from the key of their context.
pub parse_context_key-context_key :
    (chat_id : ℤ) (thread : Option ℤ)
    → parse_context_key (context_key chat_id thread) ≡ some (chat_id, thread)
unfolding parse_context_key context_key parse_int
parse_context_key-context_key chat_id none =
    ap (parse_parts (show_int chat_id "")) (split_colon-show_int-none chat_id)
    ∙ ap chat_only (parse_int-show_int chat_id)
parse_context_key-context_key chat_id (some thread) =
    let key = show_int chat_id (String.◌∷◌ ":" (show_int thread "")) in
    ap (parse_parts key) (split_colon-show_int chat_id (show_int thread ""))
    ∙ ap (λ a. both_parts a (parse_int (show_int thread ""))) (parse_int-show_int chat_id)
    ∙ ap (both_parts (some chat_id)) (parse_int-show_int thread)

abbrev pub HasUniqueContexts : Database → Type 0
HasUniqueContexts db = Distinct context_conflict db.contexts

abbrev pub is_fresh_context : ℕ → Database → Bool
is_fresh_context new_id db = any (λ c. c.id == new_id) db.contexts

-- The one row of the key.
abbrev pub Holds : String → TelegramContextOrm → Database → Type 0
Holds key row db = scalar_one_or_none (select (has_key key) db.contexts) ≡ ok (some row)

has_key_conflict :
    (key : String) (x y : TelegramContextOrm)
    → has_key key x ≡ true
    → has_key key y ≡ true
    → context_conflict x y ≡ true
has_key_conflict key x y p q = ground (
  arith,
  eq_iff x.context_key key,
  eq_iff y.context_key key,
  eq_refl key,
  ap (λ k. str_eq k y.context_key) ((eq_iff x.context_key key).0 p),
  ap (λ k. str_eq key k) ((eq_iff y.context_key key).0 q),
)

scalar-contexts :
    (key : String) (db : Database)
    → HasUniqueContexts db
    → scalar_one_or_none (select (has_key key) db.contexts) ≡ ok (find (has_key key) db.contexts)
scalar-contexts key db h =
    scalar-select (has_key key) context_conflict db.contexts (has_key_conflict key) h

-- The context that a call works on, and the database with it.
abbrev pub found_or_new : TelegramContextOrm → Option TelegramContextOrm → TelegramContextOrm
found_or_new new none = new
found_or_new new (some row) = row

abbrev pub with_context : TelegramContextOrm → Option TelegramContextOrm → Database → Database
with_context new none db = record db { contexts = new ∷ db.contexts }
with_context new (some row) db = db

any-conflict :
    (new : TelegramContextOrm) (xs : List TelegramContextOrm)
    → any (λ c. c.id == new.id) xs ≡ false
    → any (has_key new.context_key) xs ≡ false
    → any (context_conflict new) xs ≡ false
any-conflict new [] f h = refl
any-conflict new (x ∷ xs) f h = ground (
  arith,
  any-conflict new xs,
  eq_iff new.context_key x.context_key,
  eq_iff x.context_key new.context_key,
)

insert_row-free :
    (new : TelegramContextOrm) (xs : List TelegramContextOrm)
    → any (context_conflict new) xs ≡ false
    → insert_row context_conflict new xs ≡ ok (new ∷ xs)
insert_row-free new xs h = rw h refl

module _ (now new_id : ℕ) (chat_id : ℤ) (thread : Option ℤ) where
  abbrev pub new_row : TelegramContextOrm
  new_row = new_context now new_id chat_id thread

  abbrev pub row_of : Database → TelegramContextOrm
  unfolding context_key
  row_of db = found_or_new new_row (find (has_key (context_key chat_id thread)) db.contexts)

  abbrev pub opened : Database → Database
  unfolding context_key
  opened db = with_context new_row (find (has_key (context_key chat_id thread)) db.contexts) db

  -- A call opens the one context of its key.
  pub get_or_create_context-Holds :
      (db : Database)
      → HasUniqueContexts db
      → is_fresh_context new_id db ≡ false
      → (get_or_create_context now new_id chat_id thread db
          ≡ (ok (to_context (row_of db)), opened db))
        × Holds (context_key chat_id thread) (row_of db) (opened db)
        × HasUniqueContexts (opened db)
  unfolding get_or_create_context
  get_or_create_context-Holds db h fresh =
      let key = context_key chat_id thread in
      let s = scalar-contexts key db h in
      elim (Option-cases (find (has_key key) db.contexts))
        as (λ _.
          (get_or_create_context now new_id chat_id thread db
            ≡ (ok (to_context (row_of db)), opened db))
          × Holds key (row_of db) (opened db)
          × HasUniqueContexts (opened db)) [
            | inl e ↦
                let missing = any-of_find (has_key key) db.contexts e in
                let free = any-conflict new_row db.contexts fresh missing in
                (
                  ap (λ o. found_or_insert new_row o db) s
                      ∙ ap (λ o. found_or_insert new_row (ok o) db) e
                      ∙ ap (inserted new_row db) (insert_row-free new_row db.contexts free)
                      ∙ rw e refl,
                  rw (e, eq_refl key, select-nil (has_key key) db.contexts missing) refl,
                  rw e (free, h),
                )
            | inr (row, e) ↦ (rw (s, e) refl, rw e (s ∙ ap ok e), rw e h)
          ]

scalar_one-of_held :
    (xs : List TelegramContextOrm) (row : TelegramContextOrm)
    → scalar_one_or_none xs ≡ ok (some row)
    → scalar_one xs ≡ ok row
scalar_one-of_held [] row h = ground arith
scalar_one-of_held (x ∷ []) row h = ground arith
scalar_one-of_held (x ∷ y ∷ xs) row h = ground arith

-- An update writes the one row of the key.
pub update_context-Holds :
    (now : ℕ) (key : String) (metadata : Metadata) (row : TelegramContextOrm) (db : Database)
    → Holds key row db
    → (update_context now key metadata db
        ≡ (ok (to_context (with_metadata now metadata row)), write_context now key metadata db))
      × Holds key (with_metadata now metadata row) (write_context now key metadata db)
unfolding update_context
update_context-Holds now key metadata row db h = (
  ap (updated_context now key metadata db)
      (scalar_one-of_held (select (has_key key) db.contexts) row h),
  scalar-update_where (has_key key) (with_metadata now metadata) db.contexts row (λ y p. p) h,
)

pub write_context-HasUniqueContexts :
    (now : ℕ) (key : String) (metadata : Metadata) (db : Database)
    → HasUniqueContexts db
    → HasUniqueContexts (write_context now key metadata db)
write_context-HasUniqueContexts now key metadata db h =
    Distinct-update_where context_conflict (has_key key) (with_metadata now metadata) db.contexts
      (λ x y. refl) (λ x y. refl) h
