-- ===== src/Worker/Once.antt =====
-- A rule with a `once:` schedule is over once its notification was delivered.
use weather_agent.Prelude.{
  ℕ, ◌≡◌, refl, sym, ap, subst, ◌∙◌, ◌≢◌, inl, inr, Bool, true, false, none, List, String, arith,
  Result, ok, raise, rule_not_found, if◌then◌else◌, All, Option-cases,
}
use weather_agent.Database.{Database}
use weather_agent.Rules.Model.{NotificationRule}
use weather_agent.Rules.Rows.{Env, get_orm}
use weather_agent.Rules.Service.{disable_rule, list_all_enabled_rules}
use weather_agent.Rules.Changes.{disable_rule-list_all_enabled_rules}
use weather_agent.Worker.Model.{EvaluationResult, Worker, State}
use weather_agent.Worker.Deliver.{scheduled_notification_key, ran}
use weather_agent.Worker.Cycle.{
  is_once, disable_if, then_do, deliver_with, deliver_and_disable, delivered_before, deliver_one,
}

module _ (worker : Worker) (env : Env) (others : Database → Database) (rule : NotificationRule)
    (result : EvaluationResult) where
  -- The rule is not among those that the next cycle may evaluate.
  abbrev pub Over : State → Type 0
  Over s = All (λ r. r.id ≢ rule.id) (list_all_enabled_rules worker.rules s.db)

  ran-db : {A : Type 0} (s : State) (out : Result A × Database) → (ran s out).1.db ≡ out.1
  ran-db s (ok a, db) = refl
  ran-db s (raise e, db) = refl

  ran-missing :
      (now : ℕ) (s : State)
      → get_orm rule.id s.db ≡ none
      → (ran s (disable_rule worker.rules now rule.id s.db)).0 ≡ raise (rule_not_found rule.id)
  unfolding disable_rule
  ran-missing now s h = ground arith

  disable-Over :
      (s : State)
      → (disable_if worker true env.now rule s).0 ≡ ok tt
      → Over (disable_if worker true env.now rule s).1
  disable-Over s h = elim (Option-cases (get_orm rule.id s.db)) [
    | inl missing ↦ let raises = ran-missing env.now s missing in ground (arith, raises)
    | inr (orm, found) ↦
        subst (λ db. All (λ r. r.id ≢ rule.id) (list_all_enabled_rules worker.rules db))
          (sym (ran-db s (disable_rule worker.rules env.now rule.id s.db)))
          (disable_rule-list_all_enabled_rules worker.rules env.now rule.id s.db orm found)
  ]

  disable_seen-Over :
      (s : State) (out : Result (Unit {0}) × State)
      → (then_do worker out (disable_if worker true env.now rule)).0 ≡ ok tt
      → Over (then_do worker out (disable_if worker true env.now rule)).1
  disable_seen-Over s (ok _, s') h = disable-Over s' h
  disable_seen-Over s (raise e, s') h = ground arith

  candidate-Over :
      (seen : Bool) (s : State)
      → let out =
          if seen
          then disable_if worker true env.now rule s
          else then_do worker
              (deliver_with worker worker.sender worker.has_event_service env others rule result s)
              (disable_if worker true env.now rule) in
        out.0 ≡ ok tt → Over out.1
  candidate-Over true s h = disable-Over s h
  candidate-Over false s h =
      disable_seen-Over s
        (deliver_with worker worker.sender worker.has_event_service env others rule result s) h

  deliver_one-branch :
      (delivered : List String) (s : State)
      → result.notification_candidate ≡ true
      → is_once rule.schedule ≡ true
      → deliver_one worker env others delivered rule result s ≡ (
          if delivered_before worker (scheduled_notification_key worker rule) delivered
          then disable_if worker true env.now rule s
          else then_do worker
              (deliver_with worker worker.sender worker.has_event_service env others rule result s)
              (disable_if worker true env.now rule))
  unfolding deliver_one
  deliver_one-branch delivered s candidate once =
      ap
        (λ b.
          if b
          then (if delivered_before worker (scheduled_notification_key worker rule) delivered
              then disable_if worker (is_once rule.schedule) env.now rule s
              else deliver_and_disable worker env others rule result s)
          else (ok tt, s))
        candidate
      ∙ ap
          (λ b.
            if delivered_before worker (scheduled_notification_key worker rule) delivered
            then disable_if worker b env.now rule s
            else then_do worker
                (deliver_with worker worker.sender worker.has_event_service env others rule result
                  s)
                (disable_if worker b env.now rule))
          once

  -- A pass of the delivery loop that returns leaves a candidate with a `once:` schedule disabled,
  -- whether it was delivered, suppressed, claimed elsewhere or a duplicate: the next cycle does not
  -- evaluate it.
  pub deliver_one-Over :
      (delivered : List String) (s : State)
      → result.notification_candidate ≡ true
      → is_once rule.schedule ≡ true
      → (deliver_one worker env others delivered rule result s).0 ≡ ok tt
      → Over (deliver_one worker env others delivered rule result s).1
  deliver_one-Over delivered s candidate once h =
      let branch = deliver_one-branch delivered s candidate once in
      subst (λ out. Over out.1) (sym branch)
        (candidate-Over (delivered_before worker (scheduled_notification_key worker rule) delivered)
          s (sym (ap (λ out. out.0) branch) ∙ h))
