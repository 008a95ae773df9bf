-- ===== src/Worker/Claim.antt =====
-- Which rules a cycle evaluates: `_claim_due_rules` and `_is_rule_due`.
use weather_agent.Prelude.{
  ℕ, ◌+◌, ◌*◌, ◌&&◌, Bool, true, false, Option, none, some, List, [], ◌∷◌, String, Result, ok,
  raise, ltb, leb, ◌==◌, eq_sql, if◌then◌else◌, select, scalar_one_or_none, starts_with,
}
use weather_agent.Database.{
  RuleEvaluationRunOrm, NotificationEventOrm, DeliveryStatus, sent, suppressed, Database,
}
use weather_agent.Time.{aware}
use weather_agent.Schedule.{is_rule_due, last_cron_slot}
use weather_agent.Rules.Model.{NotificationRule}
use weather_agent.Rules.Service.{list_all_enabled_rules}
use weather_agent.Notifications.Dedupe.{minute}
use weather_agent.Worker.Model.{Worker}

abbrev pub is_done : DeliveryStatus → Bool
is_done sent = true
is_done suppressed = true
is_done _ = false

-- The `where` clauses of the two statements.
abbrev pub run_since : ℕ → ℕ → RuleEvaluationRunOrm → Bool
run_since rule_id slot run = run.rule_id == rule_id && leb slot run.evaluated_at

abbrev pub done_since : ℕ → ℕ → NotificationEventOrm → Bool
done_since rule_id slot e =
    eq_sql e.rule_id rule_id && leb slot e.created_at && is_done e.delivery_status

abbrev pub if_none : {A : Type 0} → Result (Option A) → Result Bool → Result Bool
if_none (raise e) rest = raise e
if_none (ok (some _)) rest = ok false
if_none (ok none) rest = rest

-- A rule that is not due is not asked further.
abbrev pub when_due : Result Bool → Result Bool → Result Bool
when_due (raise e) rest = raise e
when_due (ok false) rest = ok false
when_due (ok true) rest = rest

module _ (worker : Worker) where
  -- The slot is recent, and nothing was evaluated or done since.
  unfoldable pub slot_is_open : ℕ → ℕ → ℕ → Database → Result Bool
  slot_is_open rule_id slot now db =
      if ltb (slot + worker.rule_evaluation_minutes * minute) now
      then ok false
      else if_none (scalar_one_or_none (select (run_since rule_id slot) db.runs))
          (if_none (scalar_one_or_none (select (done_since rule_id slot) db.events)) (ok true))

  abbrev pub cron_is_open : NotificationRule → String → ℕ → Database → Result Bool
  cron_is_open rule schedule now db =
      if starts_with schedule "cron:"
      then elim (last_cron_slot worker.calendar schedule now (some (aware now))) [
        | raise e ↦ raise e
        | ok none ↦ ok true
        | ok (some slot) ↦ slot_is_open rule.id slot now db
      ]
      else ok true

  abbrev pub due_in_slot : NotificationRule → Option String → ℕ → Database → Result Bool
  due_in_slot rule none now db = ok true
  due_in_slot rule (some schedule) now db = cron_is_open rule schedule now db

  unfoldable pub worker_rule_due : NotificationRule → ℕ → Database → Result Bool
  worker_rule_due rule now db =
      when_due (is_rule_due worker.calendar rule.schedule now (some (aware now)))
        (due_in_slot rule rule.schedule now db)

  abbrev pub keep_if :
      NotificationRule
      → Result Bool
      → Result (List NotificationRule)
      → Result (List NotificationRule)
  keep_if rule (raise e) rest = raise e
  keep_if rule (ok b) (raise e) = raise e
  keep_if rule (ok true) (ok rules) = ok (rule ∷ rules)
  keep_if rule (ok false) (ok rules) = ok rules

  unfoldable pub due_rules : List NotificationRule → ℕ → Database → Result (List NotificationRule)
  due_rules [] now db = ok []
  due_rules (rule ∷ rules) now db =
      keep_if rule (worker_rule_due rule now db) (due_rules rules now db)

  -- `acquired` is the answer of the advisory lock, which is released again before the rules are
  -- evaluated.
  unfoldable pub claim_due_rules : Bool → ℕ → Database → Result (List NotificationRule)
  claim_due_rules acquired now db =
      if acquired then due_rules (list_all_enabled_rules worker.rules db) now db else ok []
