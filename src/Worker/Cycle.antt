-- ===== src/Worker/Cycle.antt =====
-- One cycle of the worker: `evaluate_rules`, `_evaluate_due_rules` and a pass of `run_loop`.
use weather_agent.Prelude.{
  ℕ, ◌+◌, ◌||◌, Bool, true, false, Option, none, some, List, [], ◌∷◌, String, Error, Result, ok,
  raise, str_eq, if◌then◌else◌, any, starts_with,
}
use weather_agent.Database.{Database}
use weather_agent.Rules.Model.{NotificationRule}
use weather_agent.Rules.Rows.{Env}
use weather_agent.Rules.Service.{disable_rule}
use weather_agent.Worker.Model.{EvaluationResult, Sender, Worker, State, commit, rollback}
use weather_agent.Worker.Claim.{claim_due_rules}
use weather_agent.Worker.Evaluate.{evaluate_single_rule}
use weather_agent.Worker.Deliver.{scheduled_notification_key, deliver_notification, ran}

-- What each step of a cycle takes from outside: for the n-th rule of a phase.
pub record Steps : Type 0 where
  pub claim_now : ℕ
  pub acquired : Bool
  pub evaluating : ℕ → Env
  pub delivering : ℕ → Env
  pub others : ℕ → Database → Database

abbrev pub is_once : Option String → Bool
is_once none = false
is_once (some schedule) = starts_with schedule "once:"

module _ (worker : Worker) where
  abbrev pub failed_result : NotificationRule → Error → EvaluationResult
  failed_result rule e = record {
    rule_id = rule.id;
    rule_short_id = rule.short_id;
    expression = rule.expression;
    evaluated = false;
    result = none;
    error = some (worker.show_error e);
    notification_candidate = false;
    evaluation_detail = none;
    dry_run = false;
  }

  -- A rule's evaluation is committed, or rolled back and made a result that failed.
  abbrev pub settled :
      NotificationRule → State → Result EvaluationResult × Database → EvaluationResult × State
  settled rule s (ok result, db) = (result, commit (record s { db = db }))
  settled rule s (raise e, db) = (failed_result rule e, rollback (record s { db = db }))

  unfoldable pub evaluate_each :
      Steps → Bool → ℕ → List NotificationRule → State → List EvaluationResult × State
  evaluate_each steps dry_run n [] s = ([], s)
  evaluate_each steps dry_run n (rule ∷ rules) s =
      let (result, s') =
        settled rule s
          (evaluate_single_rule worker (steps.evaluating n) rule (dry_run || rule.dry_run) s.db) in
      let (results, s'') = evaluate_each steps dry_run (n + 1) rules s' in (result ∷ results, s'')

  -- A rule with `once:` is disabled.
  abbrev pub disable_if : Bool → ℕ → NotificationRule → State → Result (Unit {0}) × State
  disable_if true now rule s = ran s (disable_rule worker.rules now rule.id s.db)
  disable_if false now rule s = (ok tt, s)

  abbrev pub then_do :
      Result (Unit {0}) × State → (State → Result (Unit {0}) × State) → Result (Unit {0}) × State
  then_do (ok _, s) f = f s
  then_do (raise e, s) f = (raise e, s)

  -- Nothing is delivered without a sender and an event service.
  abbrev pub deliver_with :
      Option Sender
      → Bool
      → Env
      → (Database → Database)
      → NotificationRule
      → EvaluationResult
      → State
      → Result (Unit {0}) × State
  deliver_with none has_events env others rule result s = (ok tt, s)
  deliver_with (some send) false env others rule result s = (ok tt, s)
  deliver_with (some send) true env others rule result s =
      deliver_notification worker send env others rule result s

  abbrev pub deliver_and_disable :
      Env
      → (Database → Database)
      → NotificationRule
      → EvaluationResult
      → State
      → Result (Unit {0}) × State
  deliver_and_disable env others rule result s =
      then_do (deliver_with worker.sender worker.has_event_service env others rule result s)
        (disable_if (is_once rule.schedule) env.now rule)

  abbrev pub delivered_before : Option String → List String → Bool
  delivered_before none delivered = false
  delivered_before (some key) delivered = any (str_eq key) delivered

  abbrev pub note : Option String → List String → List String
  note none delivered = delivered
  note (some key) delivered = key ∷ delivered

  -- One pass of the loop over the results.
  unfoldable pub deliver_one :
      Env
      → (Database → Database)
      → List String
      → NotificationRule
      → EvaluationResult
      → State
      → Result (Unit {0}) × State
  deliver_one env others delivered rule result s =
      if result.notification_candidate
      then (if delivered_before (scheduled_notification_key worker rule) delivered
          then disable_if (is_once rule.schedule) env.now rule s
          else deliver_and_disable env others rule result s)
      else (ok tt, s)

  -- The keys that have been delivered after the pass.
  abbrev pub noted : List String → NotificationRule → EvaluationResult → List String
  noted delivered rule result =
      if result.notification_candidate
      then note (scheduled_notification_key worker rule) delivered
      else delivered

  unfoldable pub deliver_each :
      Steps
      → ℕ
      → List String
      → List NotificationRule
      → List EvaluationResult
      → State
      → Result (Unit {0}) × State
  unfolding deliver_one
  deliver_each steps n delivered [] results s = (ok tt, s)
  deliver_each steps n delivered (rule ∷ rules) [] s = (ok tt, s)
  deliver_each steps n delivered (rule ∷ rules) (result ∷ results) s =
      then_do (deliver_one (steps.delivering n) (steps.others n) delivered rule result s)
        (deliver_each steps (n + 1) (noted delivered rule result) rules results)

  abbrev pub committed_results :
      List EvaluationResult → Result (Unit {0}) × State → Result (List EvaluationResult) × State
  committed_results results (ok _, s) = (ok results, commit s)
  committed_results results (raise e, s) = (raise e, s)

  unfoldable pub evaluate_due_rules :
      Steps → Bool → List NotificationRule → State → Result (List EvaluationResult) × State
  unfolding evaluate_each deliver_each
  evaluate_due_rules steps dry_run rules s =
      let (results, s') = evaluate_each steps dry_run 0 rules s in
      if dry_run
      then (ok results, s')
      else committed_results results (deliver_each steps 0 [] rules results s')

  abbrev pub evaluate_claimed :
      Steps → Bool → Result (List NotificationRule) → State → Result (List EvaluationResult) × State
  evaluate_claimed steps dry_run (raise e) s = (raise e, s)
  evaluate_claimed steps dry_run (ok []) s = (ok [], s)
  evaluate_claimed steps dry_run (ok (rule ∷ rules)) s =
      evaluate_due_rules steps dry_run (rule ∷ rules) s

  unfoldable pub evaluate_rules : Steps → Bool → State → Result (List EvaluationResult) × State
  unfolding claim_due_rules evaluate_due_rules
  evaluate_rules steps dry_run s =
      evaluate_claimed steps dry_run (claim_due_rules worker steps.acquired steps.claim_now s.db) s

  abbrev pub after_cycle : Result (List EvaluationResult) × State → State
  after_cycle (ok _, s) = commit s
  after_cycle (raise e, s) = rollback s

  -- A pass of `run_loop`: what raises is rolled back.
  unfoldable pub run_cycle : Steps → State → State
  unfolding evaluate_rules
  run_cycle steps s = after_cycle (evaluate_rules steps false s)
