-- ===== src/Conversation/Remembered.antt =====
-- What is remembered of a turn.
use weather_agent.Prelude.{
  ℕ, zero, suc, ◌+◌, ◌*◌, ◌≤◌, false, Bool-cases, inl, inr, Option, none, some, String, List, [],
  ◌∷◌, ◌++◌, ok, ◌≡◌, refl, sym, ◌∙◌, ap, arith, and_then, is_empty, take_last, text_length, ltb,
  if◌then◌else◌,
}
use weather_agent.Prelude.Decimal.{ℤ}
use weather_agent.Retention.{day}
use weather_agent.Database.{Database, Turn, TelegramContextOrm}
use weather_agent.Toolbox.{take_text}
use weather_agent.Memory.{
  context_key, load_turns, save_turn as remember_turn, with_turn, write_context, default_ttl_days,
}
use weather_agent.Memory.Rows.{HasUniqueContexts, is_fresh_context, row_of}
use weather_agent.Memory.Turns.{
  saved, saved_row, saved_in, save_turn-Holds, save_turn-again, load_turns-within, turns_before,
  with_turn-stored_at, take_last-new, take_last-take_last,
}
use weather_agent.Conversation.Service.{save_turn, remember_answer, turn, shortened}

take_text-all : (n : ℕ) (s : String) → text_length s ≤ n → take_text n s ≡ s
unfolding text_length
take_text-all zero String.[] h = refl
take_text-all (suc n) String.[] h = refl
take_text-all zero (String.◌∷◌ c s) h = absurd (omega arith)
take_text-all (suc n) (String.◌∷◌ c s) h = ap (String.◌∷◌ c) (take_text-all n s (omega arith))

shortened-take_text : (s : String) → shortened s ≡ take_text 200 s
shortened-take_text s = elim (Bool-cases (ltb 200 (text_length s))) [
  | inl e ↦ rw e refl
  | inr e ↦ rw e (sym (take_text-all 200 s (ground arith)))
]

-- A turn with a role and a text.
abbrev pub said_by : String → String → ℕ → Turn
said_by role text now = record {
  role = some role;
  text = some text;
  answer_summary = none;
  timestamp = some now;
}

two_more : (ts : List Turn) (a b : Turn) → (ts ++ a ∷ []) ++ b ∷ [] ≡ ts ++ a ∷ b ∷ []
two_more [] a b = refl
two_more (t ∷ ts) a b = ap (λ us. t ∷ us) (two_more ts a b)

two_newest :
    (now : ℕ) (user_message bot_message : String) (r : TelegramContextOrm)
    → let said = turn now "user" user_message in
      with_turn now
        (turn now "bot" (shortened bot_message))
        (some (with_turn now said r.metadata.turns))
      ≡ take_last 18 (turns_before r)
        ++ said_by "user" user_message now ∷ said_by "bot" (take_text 200 bot_message) now ∷ []
two_newest now user_message bot_message r =
    let before = turns_before r in
    let said = said_by "user" user_message now in
    let answer = said_by "bot" (shortened bot_message) now in
    ap (λ ts. take_last 20 (ts ++ answer ∷ []))
      (with_turn-stored_at now (turn now "user" user_message) r)
    ∙ take_last-new 19 (take_last 19 before ++ said ∷ []) answer
    ∙ ap (λ ts. ts ++ answer ∷ []) (take_last-new 18 (take_last 19 before) said)
    ∙ two_more (take_last 18 (take_last 19 before)) said answer
    ∙ ap (λ ts. ts ++ said ∷ answer ∷ []) (take_last-take_last 18 19 before (omega arith))
    ∙ ap (λ text. take_last 18 before ++ said ∷ said_by "bot" text now ∷ [])
        (shortened-take_text bot_message)

-- For fourteen days after a turn of the conversation, the context is read as the last eighteen of the
-- turns that it had before, the user's text and the bot's answer, which is cut to 200 characters.
pub load_turns-save_turn_both :
    (now later new_id id' : ℕ) (chat_id : ℤ) (thread : Option ℤ) (user_message bot_message : String)
    (db : Database)
    → HasUniqueContexts db
    → is_fresh_context new_id db ≡ false
    → is_empty bot_message ≡ false
    → later ≤ now + default_ttl_days * day
    → let key = context_key chat_id thread in
      let before = turns_before (row_of now new_id chat_id thread db) in
      (load_turns later id' key none (save_turn now new_id key user_message bot_message db)).0
      ≡ ok (
          take_last 18 before
          ++ said_by "user" user_message now ∷ said_by "bot" (take_text 200 bot_message) now ∷ [])
unfolding save_turn context_key
load_turns-save_turn_both now later new_id id' chat_id thread user_message bot_message db unique
      fresh nonempty within =
    let said = turn now "user" user_message in
    let answer = turn now "bot" (shortened bot_message) in
    let (r, held, _) = save_turn-Holds now new_id chat_id thread said none db unique fresh in
    let row = saved_row now new_id chat_id thread said none db in
    let (r', held') =
      save_turn-again now new_id chat_id thread answer none row
        (saved_in now new_id chat_id thread said none db) held in
    let key = context_key chat_id thread in
    let said_db = saved_in now new_id chat_id thread said none db in
    let both : save_turn now new_id key user_message bot_message db
        ≡ write_context now key (saved now answer none row.metadata) said_db =
      ap (λ o. (and_then o (λ _. remember_answer now new_id key bot_message)).1) r
      ∙ ap
          (λ b.
            (if b then (ok tt, said_db) else remember_turn now new_id key answer none said_db).1)
          nonempty
      ∙ ap (λ o. o.1) r' in
    ap (λ d. (load_turns later id' key none d).0) both
    ∙ ap (λ o. o.0)
        (load_turns-within now later id' chat_id thread answer none row
          (write_context now key (saved now answer none row.metadata) said_db) held' within)
    ∙ ap ok (two_newest now user_message bot_message (row_of now new_id chat_id thread db))
