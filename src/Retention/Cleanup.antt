-- ===== src/Retention/Cleanup.antt =====
-- The foreign keys that the cleanup of the runs keeps, and that it runs into.
use weather_agent.Prelude.{
  ℕ, ◌≡◌, refl, sym, subst, ◌∙◌, ◌&&◌, not, Bool, true, false, Option, some, List, [], ◌∷◌, arith,
  raise, integrity_error, any, select, delete_where, inl, inr, Bool-cases, ◌==◌, eq_sql, All,
  any-select,
}
use weather_agent.Database.{Database, RuleEvaluationRunOrm, NotificationEventOrm}
use weather_agent.Retention.{
  RetentionSettings, delete_runs, cutoff, days_or, old_event, old_run, is_used_run,
  cleanup_thread_memory, cleanup_raw_forecasts, cleanup_aggregated_weather,
  cleanup_notification_log, cleanup_audit_log, cleanup_trace_data, run_all_cleanup,
}

-- The run that an event names is there.
abbrev pub Named : List RuleEvaluationRunOrm → NotificationEventOrm → Type 0
Named runs e = (id : ℕ) → e.evaluation_run_id ≡ some id → any (λ r. r.id == id) runs ≡ true

abbrev pub References : Database → Type 0
References db = All (Named db.runs) db.events

-- What is found among all rows is found among those that stay, if it is not among those that go.
any-delete_where_kept :
    (q p : RuleEvaluationRunOrm → Bool) (xs : List RuleEvaluationRunOrm)
    → any (λ x. p x && q x) xs ≡ false
    → any q xs ≡ true
    → any q (delete_where p xs) ≡ true
any-delete_where_kept q p [] h k = cc
any-delete_where_kept q p (x ∷ xs) h k = ground (arith, any-delete_where_kept q p xs)

abbrev naming : NotificationEventOrm → RuleEvaluationRunOrm → Bool
naming e r = eq_sql e.evaluation_run_id r.id

-- No run that goes is named by the first event, nor by the others.
unused-head :
    (p : RuleEvaluationRunOrm → Bool) (e : NotificationEventOrm) (es : List NotificationEventOrm)
    (runs : List RuleEvaluationRunOrm)
    → any (λ r. p r && any (λ e. naming e r) (e ∷ es)) runs ≡ false
    → (any (λ r. p r && naming e r) runs ≡ false)
      × (any (λ r. p r && any (λ e. naming e r) es) runs ≡ false)
unused-head p e es [] h = (refl, refl)
unused-head p e es (r ∷ runs) h = let rest = unused-head p e es runs in ground (arith, rest)

named-by :
    (p : RuleEvaluationRunOrm → Bool) (e : NotificationEventOrm) (id : ℕ)
    (runs : List RuleEvaluationRunOrm)
    → e.evaluation_run_id ≡ some id
    → any (λ r. p r && naming e r) runs ≡ false
    → any (λ r. p r && r.id == id) runs ≡ false
named-by p e id [] h k = refl
named-by p e id (r ∷ runs) h k = ground (arith, named-by p e id runs h)

kept-Named :
    (p : RuleEvaluationRunOrm → Bool) (runs : List RuleEvaluationRunOrm)
    (events : List NotificationEventOrm)
    → any (λ r. p r && any (λ e. naming e r) events) runs ≡ false
    → All (Named runs) events
    → All (Named (delete_where p runs)) events
kept-Named p runs [] h k = tt
kept-Named p runs (e ∷ es) h (named, k) =
    let (unused, rest) = unused-head p e es runs h in
    (
      λ id is.
          any-delete_where_kept (λ r. r.id == id) p runs (named-by p e id runs is unused)
            (named id is),
      kept-Named p runs es rest k,
    )

any-delete_where_stays :
    (q p : NotificationEventOrm → Bool) (es : List NotificationEventOrm)
    → any (λ e. not (p e) && q e) es ≡ true
    → any q (delete_where p es) ≡ true
any-delete_where_stays q p [] h = h
any-delete_where_stays q p (e ∷ es) h = ground (arith, any-delete_where_stays q p es)

-- The old run with the key is a run that is named.
used-id :
    (p : RuleEvaluationRunOrm → Bool) (id : ℕ) (es : List NotificationEventOrm)
    (runs : List RuleEvaluationRunOrm)
    → any (λ e. eq_sql e.evaluation_run_id id) es ≡ true
    → any (λ r. r.id == id && p r) runs ≡ true
    → any (λ r. any (λ e. naming e r) es) (select p runs) ≡ true
used-id p id es [] h k = k
used-id p id es (r ∷ runs) h k = elim (Bool-cases (r.id == id && p r)) [
  | inr other ↦ ground (arith, used-id p id es runs h)
  | inl this ↦
      let same =
        subst (λ n. any (λ e. eq_sql e.evaluation_run_id n) es ≡ true) (sym (id-eq r.id (p r) this))
          h in
      ground (arith, same)
]
  where
    id-eq : (n : ℕ) (b : Bool) → (n == id) && b ≡ true → n ≡ id
    id-eq n b t = ground arith

module _ (settings : RetentionSettings) (now : ℕ) where
  trace-References :
      (limit : ℕ) (db : Database)
      → References db
      → (used : Bool) → any (is_used_run db) (select (old_run limit) db.runs) ≡ used
      → References (delete_runs limit used db).1
  trace-References limit db h true e = h
  trace-References limit db h false e =
      kept-Named (old_run limit) db.runs db.events
        (sym (any-select (is_used_run db) (old_run limit) db.runs) ∙ e) h

  -- The cleanup of the runs leaves no event with a run that is gone, whether it returns or raises.
  pub cleanup_trace_data-References :
      (older : Option ℕ) (dry_run : Bool) (db : Database)
      → References db
      → References (cleanup_trace_data settings now older dry_run db).1
  unfolding cleanup_trace_data
  cleanup_trace_data-References older true db h = h
  cleanup_trace_data-References older false db h =
      let limit = cutoff now (days_or older settings.trace_days) in
      trace-References limit db h (any (is_used_run db) (select (old_run limit) db.runs)) refl

  -- A run that is too old, named by an event that is not, stops the cleanup of everything with
  -- `IntegrityError`.
  pub run_all_cleanup-used_run :
      (id : ℕ) (db : Database)
      → any (λ r. r.id == id && old_run (cutoff now settings.trace_days) r) db.runs ≡ true
      → any
          (λ e.
            not (old_event (cutoff now settings.notification_log_days) e)
            && eq_sql e.evaluation_run_id id)
          db.events
        ≡ true
      → (run_all_cleanup settings now false db).0 ≡ raise integrity_error
  unfolding run_all_cleanup cleanup_thread_memory cleanup_raw_forecasts cleanup_aggregated_weather
      cleanup_notification_log cleanup_audit_log cleanup_trace_data
  run_all_cleanup-used_run id db r e =
      let old = old_event (cutoff now settings.notification_log_days) in
      let named = any-delete_where_stays (λ e. eq_sql e.evaluation_run_id id) old db.events e in
      let used =
        used-id (old_run (cutoff now settings.trace_days)) id (delete_where old db.events) db.runs
          named r in
      ground (arith, used)
