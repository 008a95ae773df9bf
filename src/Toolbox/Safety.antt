-- ===== src/Toolbox/Safety.antt =====
-- The tools that propose or cancel change no rule, no event and no evaluation.
use weather_agent.Prelude.{
  ℕ, Bool-cases, Option, none, some, List, String, Result, ok, raise, Action, inl, inr, is_empty,
  strip,
}
use weather_agent.Database.{Database, LocationOrm, location_conflict, insert_row}
use weather_agent.Locations.{
  Location, LocationCreate, LocationRef, create_location, checked, add_location,
  check_name_conflict, check_alias_conflicts, new_location, location_to_domain,
  resolve_location as find_location,
}
use weather_agent.Schedule.{ScheduleParseResult, parse_schedule}
use weather_agent.Rules.Model.{NotificationRule}
use weather_agent.Rules.Service.{get_rule_for_user}
use weather_agent.Memory.{load_turns, store_pending_confirmation, clear_pending_confirmation}
use weather_agent.Memory.Frames.{
  IsFrame, and_then_keeps, store_pending_confirmation_keeps, clear_pending_confirmation_keeps,
  get_pending_confirmation_keeps, load_turns_keeps,
}
use weather_agent.Toolbox.Model.{
  PendingConfirmation, Place, RulesToolbox, ToolEnv, ToolResult, Tool,
}
use weather_agent.Toolbox.Propose.{
  resolve_location, resolved_or_saved, saved_place, created_or_none, location_of_place,
  unless_unknown, first_of, store_and_show, propose_if, execute_propose, propose_deletion,
  delete_notification, clean_short_id,
}
use weather_agent.Toolbox.Plan.{
  ScheduleType, schedule_text, planned, name_or, plan_text, plan_at, plan_parsed, plan_scheduled,
  plan_if, schedule_notification, cron_schedule_uses_fixed_date_range,
}
use weather_agent.Toolbox.Confirm.{clear_and, cancel_found, cancel_parsed, execute_cancel}

module _ (t : RulesToolbox) (Q : Database → Type 0) (frame : IsFrame Q) where
  add_location_keeps :
      (new : LocationOrm) (db : Database) → Q db → Q (add_location t.unicode new db).1
  add_location_keeps new db q = added (insert_row location_conflict new db.locations)
    where
      added :
          (rows : Result (List LocationOrm))
          → Q
              (elim rows as (λ _. Result Location × Database) [
                | raise e ↦ (raise e, db)
                | ok rows ↦ (ok (location_to_domain new), record db { locations = rows })
              ]).1
      added (raise e) = q
      added (ok rows) = frame db db.contexts rows q

  checked_keeps :
      (check : Result (Unit {0})) (rest : Action Database Location) (db : Database)
      → Q db
      → Q (rest db).1
      → Q (checked t.unicode check rest db).1
  checked_keeps (raise e) rest db q r = q
  checked_keeps (ok _) rest db q r = r

  create_location_keeps :
      (now new_id user_id : ℕ) (create : LocationCreate) (db : Database)
      → Q db
      → Q (create_location t.unicode now new_id user_id create db).1
  unfolding create_location check_name_conflict check_alias_conflicts
  create_location_keeps now new_id user_id create db q =
      let add = add_location t.unicode (new_location t.unicode now new_id user_id create) in
      let aliases = check_alias_conflicts t.unicode user_id create.aliases none db in
      checked_keeps (check_name_conflict t.unicode user_id create.name none db)
        (checked t.unicode aliases add) db q
        (checked_keeps aliases add db q
          (add_location_keeps (new_location t.unicode now new_id user_id create) db q))

  created_or_none_keeps : (o : Result Location × Database) → Q o.1 → Q (created_or_none t o).1
  created_or_none_keeps (raise e, db) q = q
  created_or_none_keeps (ok loc, db) q = q

  saved_place_keeps :
      (env : ToolEnv) (name : String) (place : Result (Option Place)) (db : Database)
      → Q db
      → Q (saved_place t env name place db).1
  unfolding create_location
  saved_place_keeps env name (raise e) db q = q
  saved_place_keeps env name (ok none) db q = q
  saved_place_keeps env name (ok (some place)) db q = created_or_none_keeps _ (
      create_location_keeps env.rules.now env.location_id t.user_id (location_of_place t name place)
        db q)

  resolved_or_saved_keeps :
      (env : ToolEnv) (name : String) (found : Option LocationRef) (db : Database)
      → Q db
      → Q (resolved_or_saved t env name found db).1
  resolved_or_saved_keeps env name (some ref) db q = q
  resolved_or_saved_keeps env name none db q = saved_place_keeps env name (t.geocode name) db q

  resolve_location_keeps :
      (env : ToolEnv) (name : String) (db : Database) → Q db → Q (resolve_location t env name db).1
  unfolding resolve_location find_location
  resolve_location_keeps env name db q =
      let kept =
        resolved_or_saved_keeps env name (find_location t.unicode name t.user_id db) db q in
      elim (Bool-cases (is_empty (strip name))) [ inl e ↦ rw e q | inr e ↦ rw e kept ]

  unless_unknown_keeps :
      (name : String) (found : Option ℕ) (rest : Tool) (db : Database)
      → Q db
      → Q (rest db).1
      → Q (unless_unknown t name found rest db).1
  unless_unknown_keeps name (some id) rest db q r = r
  unless_unknown_keeps name none rest db q r = elim (Bool-cases (is_empty (strip name))) [
    | inl e ↦ rw e r
    | inr e ↦ rw e q
  ]

  store_and_show_keeps :
      (env : ToolEnv) (pending : PendingConfirmation) (text : String) (db : Database)
      → Q db
      → Q (store_and_show t env pending text db).1
  unfolding store_pending_confirmation
  store_and_show_keeps env pending text db q =
      and_then_keeps Q _ _
        (store_pending_confirmation_keeps Q frame env.rules.now env.context_id t.context_key
          (t.pending.to_dict pending) db q)
        (λ _ db' q'. q')

  pub execute_propose_keeps :
      (env : ToolEnv) (rule_expression explanation location_name edit_short_id : String)
      (db : Database)
      → Q db
      → Q (execute_propose t env rule_expression explanation location_name edit_short_id db).1
  unfolding execute_propose
  execute_propose_keeps env rule_expression explanation location_name edit_short_id db q =
      valid (t.service.validate rule_expression)
    where
      valid :
          (e : Option String)
          → Q (propose_if t env rule_expression explanation location_name edit_short_id e db).1
      valid (some e) = q
      valid none =
          and_then_keeps Q (resolve_location t env location_name db) _
            (resolve_location_keeps env location_name db q)
            (λ found db' q'.
              unless_unknown_keeps location_name (first_of t found) _ db' q'
                (store_and_show_keeps env _ _ db' q'))

  pub delete_notification_keeps :
      (env : ToolEnv) (short_id : String) (db : Database)
      → Q db
      → Q (delete_notification t env short_id db).1
  unfolding delete_notification get_rule_for_user
  delete_notification_keeps env short_id db q =
      let clean_id = clean_short_id t (strip short_id) in
      let kept = found clean_id (get_rule_for_user t.service t.user_id none (some clean_id) db) in
      elim (Bool-cases (is_empty clean_id)) [ inl e ↦ rw e q | inr e ↦ rw e kept ]
    where
      found :
          (clean_id : String) (o : Result (Option NotificationRule))
          → Q (propose_deletion t env clean_id o db).1
      found clean_id (raise e) = q
      found clean_id (ok none) = q
      found clean_id (ok (some rule)) = store_and_show_keeps env _ _ db q

  plan_at_keeps :
      (env : ToolEnv) (schedule_type : ScheduleType)
      (schedule_expression explanation location_name rule_expression : String)
      (found : Option (ℕ × String)) (db : Database)
      → Q db
      → Q
          (plan_at t env schedule_type schedule_expression explanation location_name rule_expression
            found db).1
  unfolding load_turns
  plan_at_keeps env schedule_type schedule_expression explanation location_name rule_expression
        found db q =
      let schedule = schedule_text schedule_type schedule_expression in
      and_then_keeps Q (load_turns env.rules.now env.context_id t.context_key none db)
        (λ turns.
          store_and_show t env
            (planned t env rule_expression explanation schedule (first_of t found)
              (name_or t location_name found) turns)
            (plan_text t schedule_type schedule_expression rule_expression explanation))
        (load_turns_keeps Q frame env.rules.now env.context_id t.context_key none db q)
        (λ turns db' q'. store_and_show_keeps env _ _ db' q')

  pub schedule_notification_keeps :
      (env : ToolEnv) (schedule_type : ScheduleType)
      (schedule_expression explanation location_name rule_expression : String) (db : Database)
      → Q db
      → Q
          (schedule_notification t env schedule_type schedule_expression explanation location_name
            rule_expression db).1
  unfolding schedule_notification
  schedule_notification_keeps env schedule_type schedule_expression explanation location_name
        rule_expression db q =
      valid (t.service.validate rule_expression)
    where
      parsed :
          (e : Option String)
          → Q
              (plan_parsed t env schedule_type schedule_expression explanation location_name
                rule_expression e db).1
      parsed (some e) = q
      parsed none =
          let kept =
            and_then_keeps Q (resolve_location t env location_name db)
              (λ found. unless_unknown t location_name (first_of t found) (
                plan_at t env schedule_type schedule_expression explanation location_name
                  rule_expression found))
              (resolve_location_keeps env location_name db q)
              (λ found db' q'. unless_unknown_keeps location_name (first_of t found) _ db' q' (
                plan_at_keeps env schedule_type schedule_expression explanation location_name
                  rule_expression found db' q')) in
          elim (Bool-cases
            (cron_schedule_uses_fixed_date_range t.is_word schedule_type rule_expression)) [
              | inl e ↦ rw e q
              | inr e ↦ rw e kept
            ]

      scheduled :
          (r : Result ScheduleParseResult)
          → Q
              (plan_scheduled t env schedule_type schedule_expression explanation location_name
                rule_expression r db).1
      scheduled (raise e) = q
      scheduled (ok r) = parsed r.error

      valid :
          (e : Option String)
          → Q
              (plan_if t env schedule_type schedule_expression explanation location_name
                rule_expression e db).1
      valid (some e) = q
      valid none =
          scheduled
            (parse_schedule t.calendar (some (schedule_text schedule_type schedule_expression)))

  pub clear_and_keeps :
      (env : ToolEnv) (result : ToolResult) (db : Database) → Q db → Q (clear_and t env result db).1
  unfolding clear_pending_confirmation
  clear_and_keeps env result db q =
      and_then_keeps Q _ _
        (clear_pending_confirmation_keeps Q frame env.rules.now env.context_id t.context_key db q)
        (λ _ db' q'. q')

  pub execute_cancel_keeps : (env : ToolEnv) (db : Database) → Q db → Q (execute_cancel t env db).1
  unfolding execute_cancel
  execute_cancel_keeps env db q =
      and_then_keeps Q _ (cancel_found t env)
        (get_pending_confirmation_keeps Q frame env.rules.now env.context_id t.context_key none db
          q)
        found
    where
      parsed :
          (p : Option PendingConfirmation) (db' : Database)
          → Q db'
          → Q (cancel_parsed t env p db').1
      parsed none db' q' = clear_and_keeps env _ db' q'
      parsed (some pending) db' q' = clear_and_keeps env _ db' q'

      found : (p : Option String) (db' : Database) → Q db' → Q (cancel_found t env p db').1
      found none db' q' = q'
      found (some dict) db' q' = parsed (t.pending.from_dict dict) db' q'
