-- ===== src/Retention.antt =====
-- infrastructure/jobs/retention.py: the jobs that delete old rows, as actions on the database. A
-- count is that of the rows that were deleted, or, in a dry run, would be.
use weather_agent.Prelude.{
  ℕ, ◌+◌, ◌*◌, ◌-◌, ◌&&◌, ◌||◌, Bool, true, false, Option, none, some, List, [], ◌∷◌,
  integrity_error, Result, ok, raise, Action, ltb, ◌==◌, eq_sql, if◌then◌else◌, any, select,
  delete_where, length,
}
use weather_agent.Database.{
  Database, ForecastSnapshotOrm, ForecastPointOrm, RuleEvaluationRunOrm, NotificationEventOrm,
  TelegramContextOrm, ObservationOrm, AuditLogOrm,
}
use weather_agent.Notifications.Dedupe.{minute}
pub mod Counts
pub mod Cleanup

-- `RetentionSettings`
pub record RetentionSettings : Type 0 where
  pub thread_memory_days : ℕ
  pub raw_forecast_days : ℕ
  pub aggregated_weather_days : ℕ
  pub notification_log_days : ℕ
  pub audit_log_days : ℕ
  pub trace_days : ℕ

abbrev pub day : ℕ
day = 24 * 60 * minute

abbrev pub cutoff : ℕ → ℕ → ℕ
cutoff now days = now - days * day

abbrev pub days_or : Option ℕ → ℕ → ℕ
days_or none days = days
days_or (some days) _ = days

-- The foreign keys without ON DELETE: a run that an event names, a snapshot that a run names.
abbrev pub is_used_run : Database → RuleEvaluationRunOrm → Bool
is_used_run db run = any (λ e. eq_sql e.evaluation_run_id run.id) db.events

abbrev pub is_used_snapshot : Database → ForecastSnapshotOrm → Bool
is_used_snapshot db s = any (λ r. eq_sql r.snapshot_id s.id) db.runs

-- A delete: its rowcount, which is what the table loses, and the rows that it leaves.
abbrev pub deleted {ℓ} : {A : Type ℓ} → (A → Bool) → List A → ℕ × List A
deleted p rows = let rest = delete_where p rows in (length rows - length rest, rest)

-- The `where` clauses.
abbrev pub old_context : ℕ → TelegramContextOrm → Bool
old_context limit c = ltb c.updated_at limit

abbrev pub old_observation : ℕ → ObservationOrm → Bool
old_observation limit o = ltb o.observed_at limit

abbrev pub old_event : ℕ → NotificationEventOrm → Bool
old_event limit e = ltb e.created_at limit

abbrev pub old_audit : ℕ → AuditLogOrm → Bool
old_audit limit a = ltb a.created_at limit

abbrev pub old_run : ℕ → RuleEvaluationRunOrm → Bool
old_run limit r = ltb r.created_at limit

abbrev pub old_snapshot : ℕ → ForecastSnapshotOrm → Bool
old_snapshot limit s = ltb s.fetched_at limit

-- `snapshot_id.in_(…)` of the snapshots that are old.
abbrev pub of_old_snapshot : ℕ → List ForecastSnapshotOrm → ForecastPointOrm → Bool
of_old_snapshot limit snapshots p =
    any (λ s. s.id == p.snapshot_id && old_snapshot limit s) snapshots

-- What each delete leaves of the database.
abbrev pub without_points : ℕ → Database → Database
without_points limit db = record db {
  points = delete_where (of_old_snapshot limit db.snapshots) db.points;
}

abbrev pub without_snapshots : ℕ → Database → Result ℕ × Database
without_snapshots limit db =
    let (rowcount, rows) = deleted (old_snapshot limit) db.snapshots in
    (ok rowcount, record db { snapshots = rows })

-- The delete of the old runs, stopped if one of them is named.
abbrev pub delete_runs : ℕ → Bool → Database → Result ℕ × Database
delete_runs limit true db = (raise integrity_error, db)
delete_runs limit false db = (
  ok (deleted (old_run limit) db.runs).0,
  record db { runs = (deleted (old_run limit) db.runs).1 },
)

module _ (settings : RetentionSettings) (now : ℕ) where
  unfoldable pub cleanup_thread_memory : Option ℕ → Bool → Action Database ℕ
  cleanup_thread_memory older dry_run db =
      let old = old_context (cutoff now (days_or older settings.thread_memory_days)) in
      let (rowcount, rows) = deleted old db.contexts in
      if dry_run
      then (ok (length (select old db.contexts)), db)
      else (ok rowcount, record db { contexts = rows })

  -- The points go first; a snapshot that a run names stops the second statement.
  unfoldable pub cleanup_raw_forecasts : Option ℕ → Bool → Action Database ℕ
  cleanup_raw_forecasts older dry_run db =
      let limit = cutoff now (days_or older settings.raw_forecast_days) in
      let rows = select (old_snapshot limit) db.snapshots in
      if dry_run
      then (ok (length rows), db)
      else if any (is_used_snapshot db) rows
      then (raise integrity_error, without_points limit db)
      else without_snapshots limit (without_points limit db)

  unfoldable pub cleanup_aggregated_weather : Option ℕ → Bool → Action Database ℕ
  cleanup_aggregated_weather older dry_run db =
      let old = old_observation (cutoff now (days_or older settings.aggregated_weather_days)) in
      let (rowcount, rows) = deleted old db.observations in
      if dry_run
      then (ok (length (select old db.observations)), db)
      else (ok rowcount, record db { observations = rows })

  unfoldable pub cleanup_notification_log : Option ℕ → Bool → Action Database ℕ
  cleanup_notification_log older dry_run db =
      let old = old_event (cutoff now (days_or older settings.notification_log_days)) in
      let (rowcount, rows) = deleted old db.events in
      if dry_run
      then (ok (length (select old db.events)), db)
      else (ok rowcount, record db { events = rows })

  unfoldable pub cleanup_audit_log : Option ℕ → Bool → Action Database ℕ
  cleanup_audit_log older dry_run db =
      let old = old_audit (cutoff now (days_or older settings.audit_log_days)) in
      let (rowcount, rows) = deleted old db.audit in
      if dry_run
      then (ok (length (select old db.audit)), db)
      else (ok rowcount, record db { audit = rows })

  unfoldable pub cleanup_trace_data : Option ℕ → Bool → Action Database ℕ
  cleanup_trace_data older dry_run db =
      let limit = cutoff now (days_or older settings.trace_days) in
      let rows = select (old_run limit) db.runs in
      if dry_run then (ok (length rows), db) else delete_runs limit (any (is_used_run db) rows) db

  abbrev pub counted : ℕ → Result (List ℕ) × Database → Result (List ℕ) × Database
  counted n (ok counts, db) = (ok (n ∷ counts), db)
  counted n (raise e, db) = (raise e, db)

  abbrev pub and_then :
      Result ℕ × Database → (Database → Result (List ℕ) × Database) → Result (List ℕ) × Database
  and_then (raise e, db) rest = (raise e, db)
  and_then (ok n, db) rest = counted n (rest db)

  -- The jobs one after another; the counts in their order.
  abbrev pub run_each : List (Option ℕ → Bool → Action Database ℕ) → Bool → Action Database (List ℕ)
  run_each [] dry_run db = (ok [], db)
  run_each (job ∷ jobs) dry_run db = and_then (job none dry_run db) (run_each jobs dry_run)

  abbrev pub jobs : List (Option ℕ → Bool → Action Database ℕ)
  jobs =
      cleanup_thread_memory ∷ cleanup_raw_forecasts ∷ cleanup_aggregated_weather
      ∷ cleanup_notification_log ∷ cleanup_audit_log ∷ cleanup_trace_data ∷ []

  unfoldable pub run_all_cleanup : Bool → Action Database (List ℕ)
  run_all_cleanup = run_each jobs
