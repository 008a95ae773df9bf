-- ===== src/Examples/Cycles.antt =====
-- The worker.
use weather_agent.Prelude.{
  List, [], after_prefix, arith, drop_text, false, multiple_results_found, none, ok, raise, refl,
  select, some, starts_with, strip, true, ◌↔◌, ◌∷◌, ◌≡◌,
}
use weather_agent.Database.{Database, NotificationEventOrm, boolean}
use weather_agent.Time.{aware, ensure_aware, parse_datetime}
use weather_agent.Schedule.{current, is_rule_due, last_cron_slot, parse_schedule}
use weather_agent.Schedule.Due.{Due, recurring}
use weather_agent.Rules.Model.{NotificationRule}
use weather_agent.Rules.Service.{disable_rule, list_all_enabled_rules}
use weather_agent.Notifications.Events.{
  create_event, create_event_once, event_to_domain, generate_unique_event_id, mark_sent, new_event,
}
use weather_agent.Rules.Rows.{orm_to_domain}
use weather_agent.Notifications.Dedupe.{
  compute_dedupe_key, compute_key, compute_payload_hash, cooldown_reason, dedupe_hash,
  duplicate_reason, duplicate_within, first_reason, should_suppress, snooze_reason,
  unchanged_payload, unchanged_reason,
}
use weather_agent.ShortId.{generate_short_id, unique_short_id}
use weather_agent.Worker.Model.{Sender, EvaluationResult}
use weather_agent.Worker.Claim.{claim_due_rules, due_rules, worker_rule_due}
use weather_agent.Worker.Finish.{finish_evaluation}
use weather_agent.Worker.Deliver.{
  build_notification_message, deliver_notification, key_of, message_for, scheduled_notification_key,
  suppression,
}
use weather_agent.Worker.Cycle.{
  Steps, deliver_each, deliver_one, evaluate_each, evaluate_rules, run_cycle,
}
use weather_agent.Worker.Delivery.{
  Delivers, deliver_notification-outbox, deliver_notification-sends,
}
use weather_agent.Worker.Evaluation.{Saved, Holds, finish_evaluation-candidate}
use weather_agent.Worker.Posts.{Posts, deliver_each-Posts}
use weather_agent.Worker.Results.{Untouched, evaluate_rules-dry_run, run_cycle-Posts}
use weather_agent.Worker.Once.{Over, deliver_one-Over}
use weather_agent.Worker.Slots.{
  Open, is_ok_true, worker_rule_due-Open, worker_rule_due-two_runs, claim_due_rules-select,
}
use weather_agent.Examples.Fixtures.{
  calendar, codec, claimed, rule, once_rule, cron_rule, row, two_rules, run, env, nobody, worker,
  answer, detail, start, steps, data_with_point,
}

abbrev made : NotificationEventOrm
made = record claimed {
  id = 9;
  payload_hash = some "1:0:x > 1:none:none";
  created_at = 100;
  delivery_claimed_at = some 100;
}

abbrev send : Sender
send now m = true

deliver_notification-outbox_example :
    Delivers worker send env nobody rule
      (answer rule true)
      (start two_rules)
      (deliver_notification worker send env nobody rule (answer rule true) (start two_rules)).1
deliver_notification-outbox_example =
    deliver_notification-outbox worker send env nobody rule (answer rule true) (start two_rules)

abbrev held : EvaluationResult
held = record (answer rule true) {
  evaluation_detail = some (record detail {
    evaluated_metrics = [];
    expression_result = some (boolean true);
    forecast_window_start = some "t";
    forecast_window_end = some "t";
    forecast_points = some (record { time = "t"; metrics = [] } ∷ []);
    key_metrics = some [];
    evaluation_run_id = some 9;
  });
}

finish_evaluation-candidate_example :
    Saved env rule
      (answer rule true)
      two_rules
      (finish_evaluation worker env rule false data_with_point two_rules).1
    × ((true ≡ true) ↔ Holds worker env rule false data_with_point)
unfolding finish_evaluation
finish_evaluation-candidate_example =
    finish_evaluation-candidate worker env rule false data_with_point two_rules held refl

evaluate_rules-dry_run_example :
    Untouched (start two_rules) (evaluate_rules worker steps true (start two_rules)).1
evaluate_rules-dry_run_example = evaluate_rules-dry_run worker steps (start two_rules) (refl, refl)

deliver_one-Over_test :
    Over worker env nobody once_rule
      (answer once_rule true)
      (deliver_one worker env nobody [] once_rule (answer once_rule true) (start two_rules)).1
unfolding starts_with deliver_one scheduled_notification_key deliver_notification should_suppress
    snooze_reason cooldown_reason duplicate_reason unchanged_reason create_event_once create_event
    generate_unique_event_id unique_short_id generate_short_id mark_sent new_event event_to_domain
    compute_dedupe_key compute_key compute_payload_hash dedupe_hash duplicate_within first_reason
    unchanged_payload after_prefix orm_to_domain disable_rule build_notification_message key_of
    suppression
deliver_one-Over_test =
    deliver_one-Over worker env nobody once_rule (answer once_rule true) [] (start two_rules) refl
      refl refl

deliver_each-Posts_test :
    Posts worker []
      (rule ∷ once_rule ∷ [])
      (answer rule false ∷ answer once_rule true ∷ [])
      []
      (deliver_each worker steps 0 []
        (rule ∷ once_rule ∷ [])
        (answer rule false ∷ answer once_rule true ∷ [])
        (start two_rules)).1.outbox
deliver_each-Posts_test =
    deliver_each-Posts worker steps 0 (rule ∷ once_rule ∷ [])
      (answer rule false ∷ answer once_rule true ∷ []) (start two_rules)

abbrev both : List NotificationRule
both = orm_to_domain codec (row 1 "RAAAA") ∷ orm_to_domain codec (row 2 "RBBBB") ∷ []

claim_due_rules-select_test :
    both
    ≡ select
        (λ r. is_ok_true (worker_rule_due worker r 2000 two_rules))
        (list_all_enabled_rules worker.rules two_rules)
unfolding claim_due_rules due_rules list_all_enabled_rules worker_rule_due is_rule_due
    parse_schedule orm_to_domain starts_with strip parse_datetime drop_text ensure_aware
claim_due_rules-select_test = claim_due_rules-select worker true 2000 two_rules both refl

abbrev late : Steps
late = record steps { claim_now = 2000 }

run_cycle-Posts_example :
    Posts worker [] both
      (evaluate_each worker late false 0 both (start two_rules)).0
      []
      (run_cycle worker late (start two_rules)).outbox
unfolding claim_due_rules due_rules list_all_enabled_rules worker_rule_due is_rule_due
    parse_schedule orm_to_domain starts_with strip parse_datetime drop_text ensure_aware
run_cycle-Posts_example = run_cycle-Posts worker late both (start two_rules) (refl, refl) refl

deliver_notification-sends_test :
    (deliver_notification worker send env nobody rule (answer rule true) (start two_rules)).1.outbox
    ≡ message_for worker rule (some detail) ∷ []
unfolding starts_with deliver_one scheduled_notification_key deliver_notification should_suppress
    snooze_reason cooldown_reason duplicate_reason unchanged_reason create_event_once create_event
    generate_unique_event_id unique_short_id generate_short_id mark_sent new_event event_to_domain
    compute_dedupe_key compute_key compute_payload_hash dedupe_hash duplicate_within first_reason
    unchanged_payload after_prefix orm_to_domain disable_rule build_notification_message key_of
    suppression
deliver_notification-sends_test =
    deliver_notification-sends worker send env nobody rule (answer rule true) (start two_rules) none
      (event_to_domain made) refl refl refl

worker_rule_due-Open_example : (worker_rule_due worker cron_rule 100 two_rules ≡ ok true) ↔ (
    Due calendar (some "cron:0 8 * * *") (current calendar 100 (some (aware 100)))
    × Open worker 1 90 100 two_rules)
unfolding starts_with last_cron_slot parse_schedule strip drop_text ensure_aware
worker_rule_due-Open_example =
    worker_rule_due-Open worker cron_rule "cron:0 8 * * *" 90 100 two_rules refl refl refl

abbrev twice : Database
twice = record two_rules { runs = run 1 91 ∷ run 2 92 ∷ [] }

worker_rule_due-two_runs_test :
    worker_rule_due worker cron_rule 100 twice ≡ raise multiple_results_found
unfolding starts_with last_cron_slot parse_schedule strip drop_text ensure_aware
worker_rule_due-two_runs_test =
    worker_rule_due-two_runs worker cron_rule "cron:0 8 * * *" 90 100 twice refl refl refl
      (recurring "cron:0 8 * * *" "0 8 * * *" refl refl refl refl refl) (omega arith) (omega arith)
