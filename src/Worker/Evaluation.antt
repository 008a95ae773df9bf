-- ===== src/Worker/Evaluation.antt =====
-- What the evaluation of a rule answers, and what it leaves alone.
use weather_agent.Prelude.{
  ℕ, ◌≡◌, refl, sym, ◌&&◌, ap, ◌∙◌, ◌↔◌, ◌≢◌, inl, inr, if◌then◌else◌, is_some, Bool, true, false,
  Option, none, some, List, [], ◌∷◌, String, arith, Result, ok, raise, Result-cases,
}
use weather_agent.Database.{
  RuleEvaluationRunOrm, Value, boolean, other, Database, Point, EvaluationDetail, insert_row,
  run_conflict,
}
use weather_agent.Rules.Model.{NotificationRule}
use weather_agent.Rules.Rows.{Env}
use weather_agent.Worker.Model.{
  EvaluationData, EvaluationResult, ForecastFetchResult, Worker, Fetcher,
}
use weather_agent.Worker.Finish.{
  new_run, save_evaluation_run, finish_failed, finish_on, finish_evaluation, outcome, is_true,
  saved, result_of, base_detail, evaluated_detail, with_window, with_run,
}
use weather_agent.Worker.Evaluate.{
  evaluate_single_rule, evaluate_with, evaluate_fetched, evaluate_fresh, build_evaluation_data,
  keep_snapshots,
}

-- The rules and the events are the same.
abbrev pub Keeps : Database → Database → Type 0
Keeps db db' = (db'.rules ≡ db.rules) × (db'.events ≡ db.events)

save_evaluation_run-Keeps :
    (env : Env) (rule_id : ℕ) (evaluated result : Bool) (detail : EvaluationDetail) (db : Database)
    → Keeps db (save_evaluation_run env rule_id evaluated result detail db).1
unfolding save_evaluation_run
save_evaluation_run-Keeps env rule_id evaluated result detail db =
    elim (Result-cases
      (insert_row run_conflict (new_run env rule_id evaluated result detail) db.runs)) [
        | inl (rows, p) ↦ (ground arith, ground arith)
        | inr (e, p) ↦ (ground arith, ground arith)
      ]

saved-snd :
    (r : EvaluationResult) (out : Result RuleEvaluationRunOrm × Database) → (saved r out).1 ≡ out.1
saved-snd r (ok run, db) = refl
saved-snd r (raise e, db) = refl

Keeps-saved :
    (r : EvaluationResult) (db : Database) (out : Result RuleEvaluationRunOrm × Database)
    → Keeps db out.1
    → Keeps db (saved r out).1
Keeps-saved r db (ok run, db') h = h
Keeps-saved r db (raise e, db') h = h

finish_failed-Keeps :
    (env : Env) (rule : NotificationRule) (dry_run : Bool) (id : Option ℕ) (reason : String)
    (db : Database)
    → Keeps db (finish_failed env rule dry_run id reason db).1
unfolding finish_failed
finish_failed-Keeps env rule dry_run id reason db =
    Keeps-saved _ db (save_evaluation_run env rule.id false false _ db)
      (save_evaluation_run-Keeps env rule.id false false _ db)

module _ (worker : Worker) (env : Env) (rule : NotificationRule) (dry_run : Bool) where
  finish_on-Keeps :
      (points : List Point) (evaluation_data : EvaluationData) (db : Database)
      → Keeps db (finish_on worker points env rule dry_run evaluation_data db).1
  finish_on-Keeps [] evaluation_data db =
      finish_failed-Keeps env rule dry_run evaluation_data.snapshot_id "no_forecast_data" db
  finish_on-Keeps (p ∷ ps) evaluation_data db =
      Keeps-saved _ db (save_evaluation_run env rule.id _ _ _ db)
        (save_evaluation_run-Keeps env rule.id _ _ _ db)

  finish_evaluation-Keeps :
      (evaluation_data : EvaluationData) (db : Database)
      → Keeps db (finish_evaluation worker env rule dry_run evaluation_data db).1
  unfolding finish_evaluation
  finish_evaluation-Keeps evaluation_data = finish_on-Keeps evaluation_data.points evaluation_data

  evaluate_fresh-Keeps :
      (id : Option ℕ) (points : List Point) (db : Database)
      → Keeps db (evaluate_fresh worker env rule dry_run id points db).1
  evaluate_fresh-Keeps none points db =
      finish_failed-Keeps env rule dry_run none "forecast_refresh_failed" db
  evaluate_fresh-Keeps (some id) points db =
      finish_evaluation-Keeps
        (build_evaluation_data env.now rule.location_id (some id) (some points) db) db

  evaluate_fetched-Keeps :
      (r : Result (Option ForecastFetchResult)) (db : Database)
      → Keeps db (evaluate_fetched worker env rule dry_run r db).1
  evaluate_fetched-Keeps (raise e) db =
      finish_failed-Keeps env rule dry_run none "forecast_refresh_failed" db
  evaluate_fetched-Keeps (ok none) db =
      finish_failed-Keeps env rule dry_run none "forecast_refresh_failed" db
  evaluate_fetched-Keeps (ok (some fetched)) db =
      evaluate_fresh-Keeps fetched.snapshot_id fetched.point_dicts db

  evaluate_with-Keeps :
      (fetcher : Option Fetcher) (db : Database)
      → Keeps db (evaluate_with worker fetcher env rule dry_run db).1
  evaluate_with-Keeps none db =
      finish_evaluation-Keeps (build_evaluation_data env.now rule.location_id none none db) db
  evaluate_with-Keeps (some fetch) db =
      evaluate_fetched-Keeps (fetch rule.location_id db.snapshots).0
        (keep_snapshots worker (fetch rule.location_id db.snapshots).1 db)

  pub evaluate_single_rule-Keeps :
      (db : Database) → Keeps db (evaluate_single_rule worker env rule dry_run db).1
  unfolding evaluate_single_rule
  evaluate_single_rule-Keeps = evaluate_with-Keeps worker.fetcher

module _ (env : Env) (rule : NotificationRule) where
  -- The run of an evaluation that returned.
  abbrev pub Saved : EvaluationResult → Database → Database → Type 0
  Saved r db db' =
      (run : RuleEvaluationRunOrm) × (db'.runs ≡ run ∷ db.runs)
      × (run.rule_id ≡ rule.id)
      × (run.evaluated_at ≡ env.now)
      × (run.result ≡ r.notification_candidate)

  save_evaluation_run-ok :
      (evaluated candidate : Bool) (detail : EvaluationDetail) (db : Database)
      (run : RuleEvaluationRunOrm)
      → (save_evaluation_run env rule.id evaluated candidate detail db).0 ≡ ok run
      → (run ≡ new_run env rule.id evaluated candidate detail)
        × ((save_evaluation_run env rule.id evaluated candidate detail db).1.runs ≡ run ∷ db.runs)
  unfolding save_evaluation_run
  save_evaluation_run-ok evaluated candidate detail db run h = (ground arith, ground arith)

  saved-ok :
      (r r' : EvaluationResult) (out : Result RuleEvaluationRunOrm × Database)
      → (saved r out).0 ≡ ok r'
      → (r' ≡ r) × ((run : RuleEvaluationRunOrm) × (out.0 ≡ ok run))
  saved-ok r r' (ok run, db) h = (cc, (run, refl))
  saved-ok r r' (raise e, db) h = cc

  -- What a run that was saved and its result have in common.
  saved-Saved :
      (evaluated candidate : Bool) (detail : EvaluationDetail) (db : Database)
      (r r' : EvaluationResult)
      → r.notification_candidate ≡ candidate && evaluated
      → let out = save_evaluation_run env rule.id evaluated candidate detail db in
        (saved r out).0 ≡ ok r' → (r' ≡ r) × Saved r' db (saved r out).1
  unfolding new_run
  saved-Saved evaluated candidate detail db r r' c h =
      let out = save_evaluation_run env rule.id evaluated candidate detail db in
      let (same, (run, e)) = saved-ok r r' out h in
      let (new, rows) = save_evaluation_run-ok evaluated candidate detail db run e in
      (
        same,
        (
          run,
          ap (λ db'. db'.runs) (saved-snd r out) ∙ rows,
          ap (λ x. x.rule_id) new,
          ap (λ x. x.evaluated_at) new,
          ap (λ x. x.result) new ∙ sym c ∙ ap (λ x. x.notification_candidate) (sym same),
        ),
      )

is_true-is_some : (v : Option Bool) → is_true v ≡ is_true v && is_some v
is_true-is_some none = refl
is_true-is_some (some true) = refl
is_true-is_some (some false) = refl

-- The value of the expression is `True`.
is_true-outcome :
    (error : Option String) (value : Option Value)
    → (is_true (outcome error value).0 ≡ true) ↔ ((error ≡ none) × (value ≡ some (boolean true)))
is_true-outcome (some e) value = ground arith
is_true-outcome none none = ground arith
is_true-outcome none (some (boolean true)) = ground arith
is_true-outcome none (some (boolean false)) = ground arith
is_true-outcome none (some (other t s)) = ground arith

module _ (worker : Worker) (env : Env) (rule : NotificationRule) (dry_run : Bool) where
  -- There are points, and the rule's expression is `True` on them.
  abbrev pub Holds : EvaluationData → Type 0
  Holds evaluation_data =
      let answer = worker.evaluate rule.expression evaluation_data in
      (evaluation_data.points ≢ []) × (answer.error ≡ none) × (answer.result ≡ some (boolean true))

  no_candidate :
      (evaluation_data : EvaluationData) (b : Bool)
      → b ≡ false
      → evaluation_data.points ≡ []
      → (b ≡ true) ↔ Holds evaluation_data
  no_candidate evaluation_data b n p = ground arith

  a_candidate :
      (evaluation_data : EvaluationData) (b : Bool) {x : Point} {xs : List Point}
      → (let answer = worker.evaluate rule.expression evaluation_data in
          b ≡ is_true (outcome answer.error answer.result).0)
      → evaluation_data.points ≡ x ∷ xs
      → (b ≡ true) ↔ Holds evaluation_data
  a_candidate evaluation_data b c p =
      let answer = worker.evaluate rule.expression evaluation_data in
      ground (arith, is_true-outcome answer.error answer.result)

  finish_on-lem :
      (points : List Point) (evaluation_data : EvaluationData) (db : Database)
      (r : EvaluationResult)
      → evaluation_data.points ≡ points
      → (finish_on worker points env rule dry_run evaluation_data db).0 ≡ ok r
      → Saved env rule r db (finish_on worker points env rule dry_run evaluation_data db).1
        × ((r.notification_candidate ≡ true) ↔ Holds evaluation_data)
  unfolding finish_failed
  finish_on-lem [] evaluation_data db r p h =
      let detail = record (base_detail rule evaluation_data.snapshot_id 0) {
        error = some "no_forecast_data";
      } in
      let result = result_of rule false none (some "no_forecast_data") false detail dry_run in
      let (same, kept) = saved-Saved env rule false false detail db result r refl h in
      (kept, no_candidate evaluation_data _ (ap (λ x. x.notification_candidate) same) p)
  finish_on-lem (x ∷ xs) evaluation_data db r p h =
      let answer = worker.evaluate rule.expression evaluation_data in
      let (value, error) = outcome answer.error answer.result in
      let candidate = is_true value in
      let detail = evaluated_detail worker rule answer evaluation_data in
      let full =
        if candidate then with_window worker answer evaluation_data.points detail else detail in
      let out = save_evaluation_run env rule.id (is_some value) candidate full db in
      let result =
        result_of rule (is_some value) value error candidate (with_run worker candidate full out)
          dry_run in
      let (same, kept) =
        saved-Saved env rule (is_some value) candidate full db result r (is_true-is_some value) h in
      (kept, a_candidate evaluation_data _ (ap (λ x. x.notification_candidate) same) p)

  -- An evaluation that returns has saved one run, of this rule and this moment, whose result is
  -- whether the rule is a candidate for a notification; and it is one exactly if there are points
  -- and the expression evaluates to `True` on them.
  pub finish_evaluation-candidate :
      (evaluation_data : EvaluationData) (db : Database) (r : EvaluationResult)
      → let out = finish_evaluation worker env rule dry_run evaluation_data db in
        out.0 ≡ ok r
        → Saved env rule r db out.1 × ((r.notification_candidate ≡ true) ↔ Holds evaluation_data)
  unfolding finish_evaluation
  finish_evaluation-candidate evaluation_data db r =
      finish_on-lem evaluation_data.points evaluation_data db r refl
