-- ===== src/Toolbox/Calls.antt =====
-- The tools of one conversation, called in any order.
use weather_agent.Prelude.{Bool, true, false, List, [], ◌∷◌, String, ◌≡◌, refl}
use weather_agent.Database.{Database, NotificationRuleOrm}
use weather_agent.Rules.Invariant.{HasUniqueRules}
use weather_agent.Rules.Owners.{others}
use weather_agent.Memory.Frames.{IsFrame}
use weather_agent.Toolbox.Model.{RulesToolbox, ToolEnv}
use weather_agent.Toolbox.Propose.{execute_propose, delete_notification}
use weather_agent.Toolbox.Plan.{ScheduleType, schedule_notification}
use weather_agent.Toolbox.Confirm.{execute_confirm, execute_cancel}
use weather_agent.Toolbox.Safety.{
  execute_propose_keeps, delete_notification_keeps, schedule_notification_keeps,
  execute_cancel_keeps,
}
use weather_agent.Toolbox.Owners.{Kept, execute_confirm_keeps}

-- The calls of the tools that write, with the arguments that the model gives them.
pub data ToolCall : Type 0 where
  propose : String → String → String → String → ToolCall
  remove : String → ToolCall
  plan : ScheduleType → String → String → String → String → ToolCall
  confirm cancel : ToolCall

abbrev pub is_confirm : ToolCall → Bool
is_confirm confirm = true
is_confirm _ = false

module _ (t : RulesToolbox) where
  -- The database after a call, whether it returned or raised.
  unfoldable pub perform : ToolEnv → ToolCall → Database → Database
  unfolding execute_propose delete_notification schedule_notification execute_confirm execute_cancel
  perform env (propose rule_expression explanation location_name edit_short_id) db =
      (execute_propose t env rule_expression explanation location_name edit_short_id db).1
  perform env (remove short_id) db = (delete_notification t env short_id db).1
  perform env (plan schedule_type schedule_expression explanation location_name rule_expression)
        db =
      (schedule_notification t env schedule_type schedule_expression explanation location_name
        rule_expression db).1
  perform env confirm db = (execute_confirm t env db).1
  perform env cancel db = (execute_cancel t env db).1

  unfoldable pub perform_all : List (ToolEnv × ToolCall) → Database → Database
  unfolding perform
  perform_all [] db = db
  perform_all ((env, call) ∷ calls) db = perform_all calls (perform env call db)

  without_confirm_keeps :
      (Q : Database → Type 0) (frame : IsFrame Q) (env : ToolEnv) (call : ToolCall) (db : Database)
      → is_confirm call ≡ false
      → Q db
      → Q (perform env call db)
  unfolding perform
  without_confirm_keeps Q frame env (propose rule_expression explanation name short_id) db h q =
      execute_propose_keeps t Q frame env rule_expression explanation name short_id db q
  without_confirm_keeps Q frame env (remove short_id) db h q =
      delete_notification_keeps t Q frame env short_id db q
  without_confirm_keeps Q frame env (plan schedule_type expression explanation name rule) db h q =
      schedule_notification_keeps t Q frame env schedule_type expression explanation name rule db q
  without_confirm_keeps Q frame env confirm db h q = cc
  without_confirm_keeps Q frame env cancel db h q = execute_cancel_keeps t Q frame env db q

  -- A tool other than the confirmation leaves the tables of rules, of events and of evaluations as they
  -- were, whether it returns or raises.
  pub perform-proposals :
      (env : ToolEnv) (call : ToolCall) (db : Database)
      → is_confirm call ≡ false
      → ((perform env call db).rules ≡ db.rules)
        × ((perform env call db).events ≡ db.events)
        × ((perform env call db).runs ≡ db.runs)
  perform-proposals env call db h =
      without_confirm_keeps
        (λ d. (d.rules ≡ db.rules) × (d.events ≡ db.events) × (d.runs ≡ db.runs))
        (λ d contexts locations q. q) env call db h (refl, refl, refl)

  all_keep :
      (base : List NotificationRuleOrm) (calls : List (ToolEnv × ToolCall)) (db : Database)
      → Kept t base db
      → Kept t base (perform_all calls db)
  unfolding perform_all perform
  all_keep base [] db k = k
  all_keep base ((env, confirm) ∷ calls) db k =
      all_keep base calls _ (execute_confirm_keeps t base env db k)
  all_keep base ((env, propose rule_expression explanation name short_id) ∷ calls) db k =
      all_keep base calls _ (
        execute_propose_keeps t (Kept t base) (λ d contexts locations q. q) env rule_expression
          explanation name short_id db k)
  all_keep base ((env, remove short_id) ∷ calls) db k =
      all_keep base calls _
        (delete_notification_keeps t (Kept t base) (λ d contexts locations q. q) env short_id db k)
  all_keep base ((env, plan schedule_type expression explanation name rule) ∷ calls) db k =
      all_keep base calls _ (
        schedule_notification_keeps t (Kept t base) (λ d contexts locations q. q) env schedule_type
          expression explanation name rule db k)
  all_keep base ((env, cancel) ∷ calls) db k =
      all_keep base calls _
        (execute_cancel_keeps t (Kept t base) (λ d contexts locations q. q) env db k)

  -- Whatever tools are called for a user, in whatever order and with whatever arguments, from a database
  -- whose rules have distinct keys and short ids, the rules of the other users stay as they were.
  pub perform_all-others :
      (calls : List (ToolEnv × ToolCall)) (db : Database)
      → HasUniqueRules db
      → others t.user_id (perform_all calls db) ≡ others t.user_id db
  perform_all-others calls db h = (all_keep (others t.user_id db) calls db (refl, h)).0
