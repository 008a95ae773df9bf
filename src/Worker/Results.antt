-- ===== src/Worker/Results.antt =====
-- The results of a cycle, and what the evaluation phase leaves alone.
use weather_agent.Prelude.{
  ℕ, ◌+◌, ◌||◌, ◌≡◌, refl, sym, subst, ◌∙◌, Bool, true, false, List, [], ◌∷◌, Result, ok, raise,
}
use weather_agent.Database.{Database}
use weather_agent.Rules.Model.{NotificationRule}
use weather_agent.Worker.Model.{EvaluationResult, Worker, State}
use weather_agent.Worker.Claim.{claim_due_rules}
use weather_agent.Worker.Evaluate.{evaluate_single_rule}
use weather_agent.Worker.Evaluation.{Keeps, evaluate_single_rule-Keeps}
use weather_agent.Worker.Posts.{Posts, stopped, deliver_each-Posts}
use weather_agent.Worker.Cycle.{
  Steps, settled, evaluate_each, deliver_each, committed_results, evaluate_due_rules,
  evaluate_claimed, evaluate_rules, after_cycle, run_cycle,
}

-- No message was sent, and the rules and the events are the same, also those that are committed.
abbrev pub Untouched : State → State → Type 0
Untouched s s' = (s'.outbox ≡ s.outbox) × Keeps s.db s'.db × Keeps s.db s'.committed

module _ (worker : Worker) where
  settled-Untouched :
      (rule : NotificationRule) (s s' : State) (out : Result EvaluationResult × Database)
      → Untouched s s'
      → Keeps s'.db out.1
      → Untouched s (settled worker rule s' out).1
  settled-Untouched rule s s' (ok r, db) (o, (rules, events), c) (kept, kept') =
      (o, (kept ∙ rules, kept' ∙ events), (kept ∙ rules, kept' ∙ events))
  settled-Untouched rule s s' (raise e, db) (o, k, c) kept = (o, c, c)

  evaluate_each-Untouched :
      (steps : Steps) (dry_run : Bool) (n : ℕ) (rules : List NotificationRule) (s s' : State)
      → Untouched s s'
      → Untouched s (evaluate_each worker steps dry_run n rules s').1
  unfolding evaluate_each
  evaluate_each-Untouched steps dry_run n [] s s' h = h
  evaluate_each-Untouched steps dry_run n (rule ∷ rules) s s' h =
      let b = dry_run || rule.dry_run in
      let out = evaluate_single_rule worker (steps.evaluating n) rule b s'.db in
      evaluate_each-Untouched steps dry_run (n + 1) rules s (settled worker rule s' out).1 (
        settled-Untouched rule s s' out h
          (evaluate_single_rule-Keeps worker (steps.evaluating n) rule b s'.db))

  evaluate_claimed-Untouched :
      (steps : Steps) (claimed : Result (List NotificationRule)) (s : State)
      → Untouched s s
      → Untouched s (evaluate_claimed worker steps true claimed s).1
  unfolding evaluate_due_rules
  evaluate_claimed-Untouched steps (raise e) s h = h
  evaluate_claimed-Untouched steps (ok []) s h = h
  evaluate_claimed-Untouched steps (ok (rule ∷ rules)) s h =
      evaluate_each-Untouched steps true 0 (rule ∷ rules) s s h

  -- A dry run of the worker sends no message and changes no rule and no event, neither in the
  -- session nor in what is committed, if the session starts from the committed rules and events.
  pub evaluate_rules-dry_run :
      (steps : Steps) (s : State)
      → Keeps s.db s.committed
      → Untouched s (evaluate_rules worker steps true s).1
  unfolding evaluate_rules
  evaluate_rules-dry_run steps s h =
      evaluate_claimed-Untouched steps (claim_due_rules worker steps.acquired steps.claim_now s.db)
        s (refl, (refl, refl), h)

  -- Whether or not the delivery phase raises, what it sent stays sent.
  committed-outbox :
      (results : List EvaluationResult) (out : Result (Unit {0}) × State)
      → (after_cycle worker (committed_results worker results out)).outbox ≡ out.1.outbox
  committed-outbox results (ok _, s) = refl
  committed-outbox results (raise e, s) = refl

  delivered-Posts :
      (steps : Steps) (rules : List NotificationRule) (results : List EvaluationResult)
      (s s' : State)
      → s'.outbox ≡ s.outbox
      → Posts worker [] rules results s.outbox
          (after_cycle worker (
            committed_results worker results
              (deliver_each worker steps 0 [] rules results s'))).outbox
  delivered-Posts steps rules results s s' same =
      let out = deliver_each worker steps 0 [] rules results s' in
      subst (λ box. Posts worker [] rules results s.outbox box) (sym (committed-outbox results out))
        (subst (λ box. Posts worker [] rules results box out.1.outbox) same
          (deliver_each-Posts worker steps 0 rules results s'))

  claimed-Posts :
      (steps : Steps) (rules : List NotificationRule) (s : State)
      → Keeps s.db s.committed
      → Posts worker [] rules
          (evaluate_each worker steps false 0 rules s).0
          s.outbox
          (after_cycle worker (evaluate_claimed worker steps false (ok rules) s)).outbox
  unfolding evaluate_due_rules
  claimed-Posts steps [] s h = stopped
  claimed-Posts steps (rule ∷ rules) s h =
      let out = evaluate_each worker steps false 0 (rule ∷ rules) s in
      delivered-Posts steps (rule ∷ rules) out.0 s out.1
        (evaluate_each-Untouched steps false 0 (rule ∷ rules) s s (refl, (refl, refl), h)).0

  -- A cycle that starts from the committed rules and events sends, in the order of the rules that it
  -- claimed, at most one message for each candidate of its evaluation, and at most one for all
  -- candidates with the same scheduled key; also if it ends with an exception.
  pub run_cycle-Posts :
      (steps : Steps) (rules : List NotificationRule) (s : State)
      → Keeps s.db s.committed
      → claim_due_rules worker steps.acquired steps.claim_now s.db ≡ ok rules
      → Posts worker [] rules
          (evaluate_each worker steps false 0 rules s).0
          s.outbox
          (run_cycle worker steps s).outbox
  unfolding run_cycle evaluate_rules
  run_cycle-Posts steps rules s h e =
      subst
        (λ r.
          Posts worker [] rules (evaluate_each worker steps false 0 rules s).0 s.outbox
            (after_cycle worker (evaluate_claimed worker steps false r s)).outbox)
        (sym e) (claimed-Posts steps rules s h)
