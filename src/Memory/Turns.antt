-- ===== src/Memory/Turns.antt =====
-- What `load_turns` reads after `save_turn`, and when the turns of a context expire.
use weather_agent.Prelude.{
  ℕ, ◌-◌, ◌+◌, ◌*◌, ◌≤◌, ◌<◌, true, false, Option, none, some, List, [], ◌∷◌, ◌++◌, ok, ◌≡◌, ◌∙◌,
  refl, sym, ap, arith, length, drop, take_last, and_then, zero, suc, Option-cases, inl, inr,
}
use weather_agent.Prelude.Decimal.{ℤ}
use weather_agent.Retention.{day}
use weather_agent.Database.{Database, TelegramContextOrm, Metadata, Turn}
use weather_agent.Memory.Context.{context_key, update_context, with_metadata, write_context}
use weather_agent.Memory.Thread.{
  save_turn, load_turns, update, turns_of, with_turn, without_turns, ttl_or, default_ttl_days,
  max_turns, is_expired, stored_expired, turns_or_empty, stamped,
}
use weather_agent.Memory.Rows.{
  HasUniqueContexts, is_fresh_context, Holds, row_of, opened, update_context-Holds,
}
use weather_agent.Memory.Opened.{change-Holds, and_then-Holds}

module _ {ℓ} {A : Type ℓ} where
  drop-nil : (n : ℕ) → let none_left : List A = [] in drop n none_left ≡ []
  drop-nil zero = refl
  drop-nil (suc n) = refl

  length-drop : (n : ℕ) (xs : List A) → length (drop n xs) ≡ length xs - n
  length-drop zero xs = omega arith
  length-drop (suc n) [] = omega arith
  length-drop (suc n) (x ∷ xs) = ground (arith, length-drop n xs)

  pub length-take_last : (n : ℕ) (xs : List A) → length (take_last n xs) ≤ n
  length-take_last n xs = omega (arith, length-drop (length xs - n) xs)

  drop-before :
      (n : ℕ) (xs : List A) (x : A) → n ≤ length xs → drop n (xs ++ x ∷ []) ≡ drop n xs ++ x ∷ []
  drop-before zero xs x h = refl
  drop-before (suc n) [] x h = ground arith
  drop-before (suc n) (y ∷ xs) x h = drop-before n xs x (omega arith)

  length_one_more : (xs : List A) (x : A) → length (xs ++ x ∷ []) ≡ suc (length xs)
  length_one_more [] x = refl
  length_one_more (y ∷ xs) x = ap suc (length_one_more xs x)

  -- The last elements of a list with a new one are the new one behind the others' last ones.
  pub take_last-new :
      (n : ℕ) (xs : List A) (x : A) → take_last (suc n) (xs ++ x ∷ []) ≡ take_last n xs ++ x ∷ []
  take_last-new n xs x =
      ap (λ k. drop k (xs ++ x ∷ []))
        (let e : length (xs ++ x ∷ []) - suc n ≡ length xs - n =
            omega (arith, length_one_more xs x) in
          e)
      ∙ drop-before (length xs - n) xs x (omega arith)

  drop-sum : (m n : ℕ) (xs : List A) → drop m (drop n xs) ≡ drop (n + m) xs
  drop-sum m zero xs = ap (λ k. drop k xs) (let e : m ≡ 0 + m = omega arith in e)
  drop-sum m (suc n) [] = drop-nil m ∙ sym (drop-nil (suc n + m))
  drop-sum m (suc n) (x ∷ xs) =
      drop-sum m n xs
      ∙ ap (λ k. drop k (x ∷ xs)) (let e : suc (n + m) ≡ suc n + m = omega arith in e)

  -- The last of the last elements.
  pub take_last-take_last :
      (m n : ℕ) (xs : List A) → m ≤ n → take_last m (take_last n xs) ≡ take_last m xs
  take_last-take_last m n xs h =
      drop-sum (length (take_last n xs) - m) (length xs - n) xs
      ∙ ap (λ k. drop k xs)
          (let e : (length xs - n) + (length (take_last n xs) - m) ≡ length xs - m =
              omega (arith, length-drop (length xs - n) xs) in
            e)

  take_last-all : (n : ℕ) (xs : List A) → length xs ≤ n → take_last n xs ≡ xs
  take_last-all n xs h = ap (λ k. drop k xs) (let e : length xs - n ≡ 0 = omega arith in e)

pub length-with_turn :
    (now : ℕ) (turn : Turn) (turns : Option (List Turn))
    → length (with_turn now turn turns) ≤ max_turns
length-with_turn now turn turns =
    length-take_last max_turns (turns_or_empty turns ++ stamped now turn ∷ [])

-- The turns that a row has after a turn was saved, and the dictionary with them.
abbrev pub saved : ℕ → Turn → Option ℕ → Metadata → Metadata
saved now turn ttl_days metadata = record metadata {
  turns = some (with_turn now turn metadata.turns);
  turns_stored_at = some now;
  turns_ttl_days = some (ttl_or ttl_days default_ttl_days);
}

module _ (now new_id : ℕ) (chat_id : ℤ) (thread : Option ℤ) (turn : Turn)
    (ttl_days : Option ℕ) where
  abbrev pub saved_row : Database → TelegramContextOrm
  saved_row db =
      let r = row_of now new_id chat_id thread db in
      with_metadata now (saved now turn ttl_days r.metadata) r

  abbrev pub saved_in : Database → Database
  unfolding context_key
  saved_in db =
      write_context now (context_key chat_id thread)
        (saved now turn ttl_days (row_of now new_id chat_id thread db).metadata)
        (opened now new_id chat_id thread db)

  pub save_turn-Holds :
      (db : Database)
      → HasUniqueContexts db
      → is_fresh_context new_id db ≡ false
      → (save_turn now new_id (context_key chat_id thread) turn ttl_days db ≡ (ok tt, saved_in db))
        × Holds (context_key chat_id thread) (saved_row db) (saved_in db)
        × HasUniqueContexts (saved_in db)
  unfolding save_turn context_key saved_in
  save_turn-Holds db h fresh =
      change-Holds now new_id chat_id thread (saved now turn ttl_days) db h fresh

over :
    (now stored_at days : ℕ) → stored_at + days * day < now → is_expired now stored_at days ≡ true
over now stored_at days h = ground arith

pub within_days :
    (now later days : ℕ) → later ≤ now + days * day → is_expired later now days ≡ false
within_days now later days h = ground arith

module _ (now new_id : ℕ) (chat_id : ℤ) (thread : Option ℤ) (ttl_days : Option ℕ) where
  -- What is read of the turns that a context holds.
  pub load_turns-Holds :
      (r : TelegramContextOrm) (db : Database)
      → Holds (context_key chat_id thread) r db
      → load_turns now new_id (context_key chat_id thread) ttl_days db
        ≡ turns_of now (context_key chat_id thread) ttl_days r.metadata.turns r.metadata db
  unfolding load_turns context_key
  load_turns-Holds r db =
      and_then-Holds now new_id chat_id thread
        (λ ctx. turns_of now (context_key chat_id thread) ttl_days ctx.metadata.turns ctx.metadata)
        r db

-- Turns that were stored longer ago than their days are not returned, and are deleted.
pub load_turns-expired :
    (now new_id : ℕ) (chat_id : ℤ) (thread : Option ℤ) (ttl_days : Option ℕ)
    (r : TelegramContextOrm) (db : Database) (turns : List Turn) (stored_at : ℕ)
    → Holds (context_key chat_id thread) r db
    → r.metadata.turns ≡ some turns
    → r.metadata.turns_stored_at ≡ some stored_at
    → stored_at + ttl_or ttl_days (ttl_or r.metadata.turns_ttl_days default_ttl_days) * day < now
    → (load_turns now new_id (context_key chat_id thread) ttl_days db
        ≡ (ok [], write_context now (context_key chat_id thread) (without_turns r.metadata) db))
      × ((later : ℕ) (id' : ℕ) (days : Option ℕ)
          → (load_turns later id'
              (context_key chat_id thread)
              days
              (write_context now (context_key chat_id thread) (without_turns r.metadata) db)).0
            ≡ ok [])
unfolding update_context
load_turns-expired now new_id chat_id thread ttl_days r db turns stored_at h t s old =
    let key = context_key chat_id thread in
    let e : stored_expired now r.metadata.turns_stored_at days ≡ true =
      ap (λ o. stored_expired now o days) s ∙ over now stored_at days old in
    let (u, held) = update_context-Holds now key (without_turns r.metadata) r db h in
    (
      load_turns-Holds now new_id chat_id thread ttl_days r db h
          ∙ ap (λ t. turns_of now key ttl_days t r.metadata db) t
          ∙ rw e
              (ap (λ o. and_then (and_then o (λ _ db'. (ok tt, db'))) (λ _ db'. (ok [], db'))) u),
      λ later id' ttl.
          ap (λ o. o.0)
            (load_turns-Holds later id' chat_id thread ttl
              (with_metadata now (without_turns r.metadata) r) _ held),
    )
  where
    days : ℕ
    days = ttl_or ttl_days (ttl_or r.metadata.turns_ttl_days default_ttl_days)

pub load_turns-within :
    (now later id' : ℕ) (chat_id : ℤ) (thread : Option ℤ) (turn : Turn) (ttl_days : Option ℕ)
    (r : TelegramContextOrm) (db : Database)
    → Holds
        (context_key chat_id thread)
        (with_metadata now (saved now turn ttl_days r.metadata) r)
        db
    → later ≤ now + ttl_or ttl_days default_ttl_days * day
    → load_turns later id' (context_key chat_id thread) none db
      ≡ (ok (with_turn now turn r.metadata.turns), db)
load_turns-within now later id' chat_id thread turn ttl_days r db held within =
    load_turns-Holds later id' chat_id thread none
      (with_metadata now (saved now turn ttl_days r.metadata) r) db held
    ∙ rw (within_days now later (ttl_or ttl_days default_ttl_days) within) (
        ap (λ ts. (ok ts, db))
          (take_last-all max_turns _ (length-with_turn now turn r.metadata.turns)))

-- The turns that a context holds.
abbrev pub turns_before : TelegramContextOrm → List Turn
turns_before r = elim r.metadata.turns [ none ↦ [] | some turns ↦ turns ]

-- A turn as it is stored at a moment: it keeps its own time, if it has one.
abbrev pub stored_at : ℕ → Turn → Turn
stored_at now turn = record turn {
  timestamp = elim turn.timestamp [ none ↦ some now | some t ↦ some t ];
}

stamped-stored_at : (now : ℕ) (turn : Turn) → stamped now turn ≡ stored_at now turn
stamped-stored_at now turn = elim (Option-cases turn.timestamp) [
  | inl e ↦ rw e refl
  | inr (t, e) ↦ rw e refl
]

turns_or_empty-turns_before :
    (r : TelegramContextOrm) → turns_or_empty r.metadata.turns ≡ turns_before r
turns_or_empty-turns_before r = elim (Option-cases r.metadata.turns) [
  | inl e ↦ rw e refl
  | inr (t, e) ↦ rw e refl
]

-- The turn comes behind the last nineteen of those before it.
pub with_turn-stored_at :
    (now : ℕ) (turn : Turn) (r : TelegramContextOrm)
    → with_turn now turn r.metadata.turns ≡ take_last 19 (turns_before r) ++ stored_at now turn ∷ []
with_turn-stored_at now turn r =
    take_last-new 19 (turns_or_empty r.metadata.turns) (stamped now turn)
    ∙ ap (λ ts. take_last 19 ts ++ stamped now turn ∷ []) (turns_or_empty-turns_before r)
    ∙ ap (λ t. take_last 19 (turns_before r) ++ t ∷ []) (stamped-stored_at now turn)

-- Within its days a saved turn is read, as it was given and with the time at which it was saved if it
-- had none, behind the last nineteen of the turns that the context had before; reading writes nothing.
pub load_turns-save_turn :
    (now later new_id id' : ℕ) (chat_id : ℤ) (thread : Option ℤ) (turn : Turn) (ttl_days : Option ℕ)
    (db : Database)
    → HasUniqueContexts db
    → is_fresh_context new_id db ≡ false
    → later ≤ now + ttl_or ttl_days default_ttl_days * day
    → let saved_db = (save_turn now new_id (context_key chat_id thread) turn ttl_days db).1 in
      load_turns later id' (context_key chat_id thread) none saved_db ≡ (
        ok (
            take_last 19 (turns_before (row_of now new_id chat_id thread db))
            ++ stored_at now turn ∷ []),
        saved_db,
      )
load_turns-save_turn now later new_id id' chat_id thread turn ttl_days db h fresh within =
    let (r, held, _) = save_turn-Holds now new_id chat_id thread turn ttl_days db h fresh in
    rw r (
      load_turns-within now later id' chat_id thread turn ttl_days
        (row_of now new_id chat_id thread db) (saved_in now new_id chat_id thread turn ttl_days db)
        held within
      ∙ ap (λ ts. (ok ts, saved_in now new_id chat_id thread turn ttl_days db))
          (with_turn-stored_at now turn (row_of now new_id chat_id thread db)))

-- A turn that is saved in a context that is there.
pub save_turn-again :
    (now new_id : ℕ) (chat_id : ℤ) (thread : Option ℤ) (turn : Turn) (ttl_days : Option ℕ)
    (r : TelegramContextOrm) (db : Database)
    → Holds (context_key chat_id thread) r db
    → let metadata = saved now turn ttl_days r.metadata in
      let key = context_key chat_id thread in
      (save_turn now new_id key turn ttl_days db ≡ (ok tt, write_context now key metadata db))
      × Holds key (with_metadata now metadata r) (write_context now key metadata db)
unfolding save_turn context_key update_context
save_turn-again now new_id chat_id thread turn ttl_days r db h =
    let key = context_key chat_id thread in
    let metadata = saved now turn ttl_days r.metadata in
    let (u, held) = update_context-Holds now key metadata r db h in
    (
      and_then-Holds now new_id chat_id thread
            (λ ctx. update now key (saved now turn ttl_days ctx.metadata)) r db h
          ∙ ap (λ o. and_then o (λ _ db'. (ok tt, db'))) u,
      held,
    )
