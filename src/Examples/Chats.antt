-- ===== src/Examples/Chats.antt =====
-- The memory, the toolbox and a conversation.
use weather_agent.Prelude.{ℕ, ◌*◌, ◌≡◌, refl, arith, Option, none, some, [], ◌∷◌, ok, strip}
use weather_agent.Prelude.Decimal.{ℤ, show_int, parse_int, digits, digit, show_nat}
use weather_agent.Retention.{day}
use weather_agent.Database.{Database, TelegramContextOrm, Turn}
use weather_agent.Memory.{
  context_key, parse_context_key, save_turn, load_turns, store_pending_confirmation,
  get_pending_confirmation, with_metadata, no_metadata, without_turns, write_context, new_context,
}
use weather_agent.Memory.Rows.{parse_context_key-context_key}
use weather_agent.Memory.Turns.{stored_at, load_turns-save_turn, load_turns-expired}
use weather_agent.Memory.Pending.{get_pending_confirmation-store_pending_confirmation}
use weather_agent.Memory.Bounds.{Kept, perform_all, perform_all-Kept, save, store, load}
use weather_agent.Examples.Fixtures.{empty_db}

abbrev group : ℤ
group = ℤ.negsuc 1001

abbrev topic : Option ℤ
topic = some (ℤ.pos 5)

group_key : context_key group topic ≡ "-1002:5"
unfolding context_key show_int digits digit show_nat
group_key = refl

underscores : parse_int " +1_0 " ≡ some (ℤ.pos 10)
unfolding parse_int strip
underscores = refl

parse_context_key-context_key_example :
    parse_context_key (context_key group topic) ≡ some (group, topic)
parse_context_key-context_key_example = parse_context_key-context_key group topic

abbrev hello : Turn
hello = record {
  role = some "user";
  text = some "Jaka pogoda?";
  answer_summary = none;
  timestamp = none;
}

load_turns-save_turn_example :
    let saved_db = (save_turn 100 1 (context_key group topic) hello none empty_db).1 in
    load_turns 200 2 (context_key group topic) none saved_db
    ≡ (ok (stored_at 100 hello ∷ []), saved_db)
unfolding context_key save_turn load_turns
load_turns-save_turn_example =
    load_turns-save_turn 100 200 1 2 group topic hello none empty_db tt refl (omega arith)

get_pending_confirmation-store_pending_confirmation_example :
    let stored_db = (store_pending_confirmation 100 1 (context_key group topic) "{}" empty_db).1 in
    get_pending_confirmation 200 2 (context_key group topic) none stored_db
    ≡ (ok (some "{}"), stored_db)
get_pending_confirmation-store_pending_confirmation_example =
    get_pending_confirmation-store_pending_confirmation 100 200 1 2 group topic "{}" none empty_db
      tt refl (omega arith)

perform_all-Kept_example : Kept (
    perform_all
      (save 100 1 "7" hello none ∷ store 100 2 "7:1" "{}" ∷ load 200 3 "x" none ∷ [])
      empty_db)
perform_all-Kept_example =
    perform_all-Kept (save 100 1 "7" hello none ∷ store 100 2 "7:1" "{}" ∷ load 200 3 "x" none ∷ [])
      empty_db (tt, tt)

-- A context with a turn of the first day.
abbrev old_row : TelegramContextOrm
unfolding context_key
old_row =
    with_metadata 0
      (record no_metadata {
        turns = some (hello ∷ []);
        turns_stored_at = some 0;
        turns_ttl_days = some 14;
      })
      (new_context 0 1 group none)

abbrev old_db : Database
unfolding context_key
old_db = record empty_db { contexts = old_row ∷ [] }

load_turns-expired_test :
    (load_turns (15 * day) 2 (context_key group none) none old_db ≡ (
      ok [],
      write_context (15 * day) (context_key group none) (without_turns old_row.metadata) old_db,
    ))
    × ((later : ℕ) (id' : ℕ) (days : Option ℕ)
        → (load_turns later id' (context_key group none) days (
            write_context
              (15 * day)
              (context_key group none)
              (without_turns old_row.metadata)
              old_db)).0
          ≡ ok [])
unfolding old_row
load_turns-expired_test =
    load_turns-expired (15 * day) 2 group none none old_row old_db (hello ∷ []) 0
      (unfold context_key show_int digits digit show_nat in refl) refl refl (omega arith)
