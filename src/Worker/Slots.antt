-- ===== src/Worker/Slots.antt =====
-- Which rules a cycle evaluates: those that are due and whose slot is still open.
use weather_agent.Prelude.{
  ℕ, ◌+◌, ◌*◌, ◌≤◌, ◌≡◌, refl, sym, ap, ◌∙◌, ◌↔◌, Bool, true, false, some, List, [], ◌∷◌, String,
  arith, Result, ok, raise, ok-injective, multiple_results_found, if◌then◌else◌, any, select,
  length, scalar_one_or_none, starts_with, select-nil, any-of_select,
}
use weather_agent.Database.{Database}
use weather_agent.Time.{aware}
use weather_agent.Schedule.{is_rule_due, last_cron_slot, current}
use weather_agent.Schedule.Due.{Due, is_rule_due_iff}
use weather_agent.Rules.Model.{NotificationRule}
use weather_agent.Rules.Service.{list_all_enabled_rules}
use weather_agent.Notifications.Dedupe.{minute}
use weather_agent.Worker.Model.{Worker}
use weather_agent.Worker.Claim.{
  run_since, done_since, if_none, when_due, slot_is_open, cron_is_open, due_in_slot,
  worker_rule_due, keep_if, due_rules, claim_due_rules,
}

abbrev pub is_ok_true : Result Bool → Bool
is_ok_true (ok b) = b
is_ok_true (raise e) = false

module _ {A : Type 0} where
  if_none-true :
      (xs : List A) (rest : Result Bool)
      → (if_none (scalar_one_or_none xs) rest ≡ ok true) ↔ ((xs ≡ []) × (rest ≡ ok true))
  if_none-true [] rest = ground arith
  if_none-true (x ∷ []) rest = ground arith
  if_none-true (x ∷ y ∷ xs) rest = ground arith

  if_none-raise :
      (xs : List A) (rest : Result Bool)
      → 2 ≤ length xs
      → if_none (scalar_one_or_none xs) rest ≡ raise multiple_results_found
  if_none-raise [] rest h = absurd (ground arith)
  if_none-raise (x ∷ []) rest h = absurd (ground arith)
  if_none-raise (x ∷ y ∷ xs) rest h = refl

module _ (worker : Worker) where
  -- The slot is recent, and there is no run and no event that is done of it.
  abbrev pub Open : ℕ → ℕ → ℕ → Database → Type 0
  Open rule_id slot now db =
      (now ≤ slot + worker.rule_evaluation_minutes * minute)
      × (any (run_since rule_id slot) db.runs ≡ false)
      × (any (done_since rule_id slot) db.events ≡ false)

  slot_is_open-Open :
      (rule_id slot now : ℕ) (db : Database)
      → (slot_is_open worker rule_id slot now db ≡ ok true) ↔ Open rule_id slot now db
  unfolding slot_is_open
  slot_is_open-Open rule_id slot now db =
      let runs = select (run_since rule_id slot) db.runs in
      let events = select (done_since rule_id slot) db.events in
      ground (
        arith,
        if_none-true runs (if_none (scalar_one_or_none events) (ok true)),
        if_none-true events (ok true),
        select-nil (run_since rule_id slot) db.runs,
        select-nil (done_since rule_id slot) db.events,
        any-of_select (run_since rule_id slot) db.runs,
        any-of_select (done_since rule_id slot) db.events,
      )

  when_due-true :
      (due rest : Result Bool)
      → (when_due due rest ≡ ok true) ↔ ((due ≡ ok true) × (rest ≡ ok true))
  when_due-true (raise e) rest = ground arith
  when_due-true (ok true) rest = ground arith
  when_due-true (ok false) rest = ground arith

  cron_is_open-slot :
      (rule : NotificationRule) (schedule : String) (slot now : ℕ) (db : Database)
      → starts_with schedule "cron:" ≡ true
      → last_cron_slot worker.calendar schedule now (some (aware now)) ≡ ok (some slot)
      → cron_is_open worker rule schedule now db ≡ slot_is_open worker rule.id slot now db
  cron_is_open-slot rule schedule slot now db c l = ground arith

  worker_rule_due-asked :
      (rule : NotificationRule) (schedule : String) (slot now : ℕ) (db : Database)
      → rule.schedule ≡ some schedule
      → starts_with schedule "cron:" ≡ true
      → last_cron_slot worker.calendar schedule now (some (aware now)) ≡ ok (some slot)
      → worker_rule_due worker rule now db
        ≡ when_due
            (is_rule_due worker.calendar (some schedule) now (some (aware now)))
            (slot_is_open worker rule.id slot now db)
  unfolding worker_rule_due
  worker_rule_due-asked rule schedule slot now db e c l =
      let at = some (aware now) in
      ap (λ x. when_due (is_rule_due worker.calendar x now at) (due_in_slot worker rule x now db)) e
      ∙ ap (when_due (is_rule_due worker.calendar (some schedule) now at))
          (cron_is_open-slot rule schedule slot now db c l)

  -- A rule with the cron schedule `schedule` is evaluated at `now` exactly if it is due, its last
  -- slot is no older than the evaluation window, and it has no run and no sent or suppressed event
  -- since that slot.
  pub worker_rule_due-Open :
      (rule : NotificationRule) (schedule : String) (slot now : ℕ) (db : Database)
      → rule.schedule ≡ some schedule
      → starts_with schedule "cron:" ≡ true
      → last_cron_slot worker.calendar schedule now (some (aware now)) ≡ ok (some slot)
      → (worker_rule_due worker rule now db ≡ ok true) ↔ (
          Due worker.calendar (some schedule) (current worker.calendar now (some (aware now)))
          × Open rule.id slot now db)
  worker_rule_due-Open rule schedule slot now db e c l =
      let asked = worker_rule_due-asked rule schedule slot now db e c l in
      let answer = is_rule_due worker.calendar (some schedule) now (some (aware now)) in
      let due = is_rule_due_iff worker.calendar (some schedule) now (some (aware now)) in
      let both = when_due-true answer (slot_is_open worker rule.id slot now db) in
      let open' = slot_is_open-Open rule.id slot now db in
      (
        λ h. let (is_due, is_open) = both.0 (sym asked ∙ h) in (due.0 is_due, open'.0 is_open),
        λ (is_due, is_open). asked ∙ both.1 (due.1 is_due, open'.1 is_open),
      )

  slot_is_open-raise :
      (rule_id slot now : ℕ) (db : Database)
      → now ≤ slot + worker.rule_evaluation_minutes * minute
      → 2 ≤ length (select (run_since rule_id slot) db.runs)
      → slot_is_open worker rule_id slot now db ≡ raise multiple_results_found
  unfolding slot_is_open
  slot_is_open-raise rule_id slot now db recent two =
      let runs = select (run_since rule_id slot) db.runs in
      let events = select (done_since rule_id slot) db.events in
      ground (arith, if_none-raise runs (if_none (scalar_one_or_none events) (ok true)) two)

  -- Where a rule with a cron schedule that is due was evaluated twice or more since its last slot,
  -- asking whether it is to be evaluated raises.
  pub worker_rule_due-two_runs :
      (rule : NotificationRule) (schedule : String) (slot now : ℕ) (db : Database)
      → rule.schedule ≡ some schedule
      → starts_with schedule "cron:" ≡ true
      → last_cron_slot worker.calendar schedule now (some (aware now)) ≡ ok (some slot)
      → Due worker.calendar (some schedule) (current worker.calendar now (some (aware now)))
      → now ≤ slot + worker.rule_evaluation_minutes * minute
      → 2 ≤ length (select (run_since rule.id slot) db.runs)
      → worker_rule_due worker rule now db ≡ raise multiple_results_found
  worker_rule_due-two_runs rule schedule slot now db e c l is_due recent two =
      let due = is_rule_due_iff worker.calendar (some schedule) now (some (aware now)) in
      worker_rule_due-asked rule schedule slot now db e c l
      ∙ ap (λ x. when_due x (slot_is_open worker rule.id slot now db)) (due.1 is_due)
      ∙ slot_is_open-raise rule.id slot now db recent two

  keep_if-select :
      (rule : NotificationRule) (due : Result Bool) (rest : Result (List NotificationRule))
      (kept rules : List NotificationRule)
      → ((rs : List NotificationRule) → rest ≡ ok rs → rs ≡ kept)
      → keep_if worker rule due rest ≡ ok rules
      → rules ≡ (if is_ok_true due then rule ∷ kept else kept)
  keep_if-select rule (raise x) rest kept rules h e = cc
  keep_if-select rule (ok b) (raise x) kept rules h e = cc
  keep_if-select rule (ok true) (ok rs) kept rules h e =
      sym (ok-injective e) ∙ ap (λ xs. rule ∷ xs) (h rs refl)
  keep_if-select rule (ok false) (ok rs) kept rules h e = sym (ok-injective e) ∙ h rs refl

  due_rules-select :
      (enabled : List NotificationRule) (now : ℕ) (db : Database) (rules : List NotificationRule)
      → due_rules worker enabled now db ≡ ok rules
      → rules ≡ select (λ r. is_ok_true (worker_rule_due worker r now db)) enabled
  unfolding due_rules
  due_rules-select [] now db rules e = sym (ok-injective e)
  due_rules-select (rule ∷ enabled) now db rules e =
      keep_if-select rule (worker_rule_due worker rule now db) (due_rules worker enabled now db)
        (select (λ r. is_ok_true (worker_rule_due worker r now db)) enabled) rules
        (due_rules-select enabled now db) e

  -- A worker that was given the lock claims, in the order of their ids, the enabled rules that are
  -- to be evaluated, all of them and no other; without the lock it claims none.
  pub claim_due_rules-select :
      (acquired : Bool) (now : ℕ) (db : Database) (rules : List NotificationRule)
      → claim_due_rules worker acquired now db ≡ ok rules
      → rules ≡ (
          if acquired
          then select
              (λ r. is_ok_true (worker_rule_due worker r now db))
              (list_all_enabled_rules worker.rules db)
          else [])
  unfolding claim_due_rules
  claim_due_rules-select true now db rules e =
      due_rules-select (list_all_enabled_rules worker.rules db) now db rules e
  claim_due_rules-select false now db rules e = sym (ok-injective e)
