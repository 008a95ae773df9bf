-- ===== src/Rules/Invariant.antt =====
-- The unique columns of the rules' table stay unique under every method of the rule service.
use weather_agent.Prelude.{
  ℕ, ◌≡◌, refl, Bool, true, false, some, List, [], ◌∷◌, arith, ◌==◌, Distinct,
  Distinct-delete_where, Distinct-update_where,
}
use weather_agent.Database.{NotificationRuleOrm, Database, rule_conflict}
use weather_agent.Rules.Model.{RuleCreate, RuleUpdate}
use weather_agent.Rules.Rows.{Env, RuleService, updated, assign}
use weather_agent.Rules.Service.{
  create_rule, update_rule, enable_rule, disable_rule, snooze_rule, set_dry_run, delete_rule,
}

abbrev pub HasUniqueRules : Database → Type 0
HasUniqueRules db = Distinct rule_conflict db.rules

-- A call of a method that writes.
pub data Call : Type 0 where
  create : Env → ℕ → RuleCreate → Call
  update : ℕ → ℕ → RuleUpdate → Call
  enable disable delete : ℕ → ℕ → Call
  snooze : ℕ → ℕ → ℕ → Call
  dry_run : ℕ → ℕ → Bool → Call

assign-HasUniqueRules :
    (rule_id : ℕ) (f : NotificationRuleOrm → NotificationRuleOrm) (db : Database)
    → ((r : NotificationRuleOrm) → ((f r).id ≡ r.id) × ((f r).short_id ≡ r.short_id))
    → HasUniqueRules db
    → HasUniqueRules (assign rule_id f db)
assign-HasUniqueRules rule_id f db k h =
    Distinct-update_where rule_conflict (λ r. r.id == rule_id) f db.rules
      (λ x y. rw ((k x).0, (k x).1)) (λ x y. rw ((k y).0, (k y).1)) h

module _ (service : RuleService) where
  -- The database after a call, whether it returned or raised.
  abbrev pub perform : Call → Database → Database
  perform (create env user_id create') db = (create_rule service env user_id create' db).1
  perform (update now rule_id update') db = (update_rule service now rule_id update' db).1
  perform (enable now rule_id) db = (enable_rule service now rule_id db).1
  perform (disable now rule_id) db = (disable_rule service now rule_id db).1
  perform (delete now rule_id) db = (delete_rule rule_id db).1
  perform (snooze now rule_id until) db = (snooze_rule service now rule_id until db).1
  perform (dry_run now rule_id flag) db = (set_dry_run service now rule_id flag db).1

  pub perform-HasUniqueRules :
      (call : Call) (db : Database) → HasUniqueRules db → HasUniqueRules (perform call db)
  unfolding create_rule update_rule enable_rule disable_rule delete_rule snooze_rule set_dry_run
  perform-HasUniqueRules (create env user_id create') db h = ground arith
  perform-HasUniqueRules (update now rule_id update') db h = ground (
    arith,
    assign-HasUniqueRules rule_id (updated service.codec now update') db
        (unfold updated in λ r. (refl, refl)) h,
  )
  perform-HasUniqueRules (enable now rule_id) db h = ground (
    arith,
    assign-HasUniqueRules rule_id (λ orm. record orm { enabled = true; updated_at = now }) db
        (λ r. (refl, refl)) h,
  )
  perform-HasUniqueRules (disable now rule_id) db h = ground (
    arith,
    assign-HasUniqueRules rule_id (λ orm. record orm { enabled = false; updated_at = now }) db
        (λ r. (refl, refl)) h,
  )
  perform-HasUniqueRules (delete now rule_id) db h =
      ground (arith, Distinct-delete_where rule_conflict (λ r. r.id == rule_id) db.rules h)
  perform-HasUniqueRules (snooze now rule_id until) db h = ground (
    arith,
    assign-HasUniqueRules rule_id
        (λ orm. record orm { snooze_until = some until; updated_at = now }) db (λ r. (refl, refl))
        h,
  )
  perform-HasUniqueRules (dry_run now rule_id flag) db h = ground (
    arith,
    assign-HasUniqueRules rule_id (λ orm. record orm { dry_run = flag; updated_at = now }) db
        (λ r. (refl, refl)) h,
  )

  -- The database after a sequence of calls.
  pub perform_all : List Call → Database → Database
  perform_all [] db = db
  perform_all (call ∷ calls) db = perform_all calls (perform call db)

  -- From a database whose rules have distinct keys and distinct short ids, any sequence of calls of
  -- the service, whether they return or raise, leads to such a database.
  pub perform_all-HasUniqueRules :
      (calls : List Call) (db : Database)
      → HasUniqueRules db
      → HasUniqueRules (perform_all calls db)
  unfolding perform_all
  perform_all-HasUniqueRules [] db h = h
  perform_all-HasUniqueRules (call ∷ calls) db h =
      perform_all-HasUniqueRules calls (perform call db) (perform-HasUniqueRules call db h)
