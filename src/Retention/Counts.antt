-- ===== src/Retention/Counts.antt =====
-- What the cleanup counts, and what a dry run tells of it.
use weather_agent.Prelude.{
  ℕ, ◌≡◌, refl, true, false, List, [], ◌∷◌, arith, ok, select, length, ◌-◌, Bool, delete_where,
  length-select-delete_where,
}
use weather_agent.Database.{Database}
use weather_agent.Retention.{
  RetentionSettings, cutoff, old_context, old_snapshot, old_observation, old_event, old_audit,
  old_run, cleanup_thread_memory, cleanup_raw_forecasts, cleanup_aggregated_weather,
  cleanup_notification_log, cleanup_audit_log, cleanup_trace_data, run_all_cleanup,
}

module _ (settings : RetentionSettings) (now : ℕ) where
  -- The rows of each table that are older than its setting allows.
  abbrev pub old_rows : Database → List ℕ
  old_rows db =
      length (select (old_context (cutoff now settings.thread_memory_days)) db.contexts)
      ∷ length (select (old_snapshot (cutoff now settings.raw_forecast_days)) db.snapshots)
      ∷ length
          (select (old_observation (cutoff now settings.aggregated_weather_days)) db.observations)
      ∷ length (select (old_event (cutoff now settings.notification_log_days)) db.events)
      ∷ length (select (old_audit (cutoff now settings.audit_log_days)) db.audit)
      ∷ length (select (old_run (cutoff now settings.trace_days)) db.runs)
      ∷ []

  rowcount :
      {A : Type 0} (p : A → Bool) (xs : List A)
      → length xs - length (delete_where p xs) ≡ length (select p xs)
  rowcount p xs = omega (arith, length-select-delete_where p xs)

  -- What each table of the jobs has lost.
  abbrev pub lost_rows : Database → Database → List ℕ
  lost_rows db db' =
      (length db.contexts - length db'.contexts)
      ∷ (length db.snapshots - length db'.snapshots)
      ∷ (length db.observations - length db'.observations)
      ∷ (length db.events - length db'.events)
      ∷ (length db.audit - length db'.audit)
      ∷ (length db.runs - length db'.runs)
      ∷ []

  lost_rows-old_rows :
      (db : Database)
      → lost_rows db (record db {
        contexts = delete_where (old_context (cutoff now settings.thread_memory_days)) db.contexts;
        snapshots =
            delete_where (old_snapshot (cutoff now settings.raw_forecast_days)) db.snapshots;
        observations =
            delete_where
              (old_observation (cutoff now settings.aggregated_weather_days))
              db.observations;
        events = delete_where (old_event (cutoff now settings.notification_log_days)) db.events;
        audit = delete_where (old_audit (cutoff now settings.audit_log_days)) db.audit;
        runs = delete_where (old_run (cutoff now settings.trace_days)) db.runs;
      })
        ≡ old_rows db
  lost_rows-old_rows db =
      rw
        (
          rowcount (old_context (cutoff now settings.thread_memory_days)) db.contexts,
          rowcount (old_snapshot (cutoff now settings.raw_forecast_days)) db.snapshots,
          rowcount (old_observation (cutoff now settings.aggregated_weather_days)) db.observations,
          rowcount (old_event (cutoff now settings.notification_log_days)) db.events,
          rowcount (old_audit (cutoff now settings.audit_log_days)) db.audit,
          rowcount (old_run (cutoff now settings.trace_days)) db.runs,
        )
        refl

  -- A dry run of all jobs never raises, changes nothing and counts the rows of each table that are too
  -- old. Where the cleanup itself returns, its counts are those, they are what the tables have lost,
  -- and the rules, the users and the locations are as they were.
  pub run_all_cleanup-dry_run :
      (db : Database)
      → (run_all_cleanup settings now true db ≡ (ok (old_rows db), db))
        × ((counts : List ℕ)
            → (run_all_cleanup settings now false db).0 ≡ ok counts
            → let db' = (run_all_cleanup settings now false db).1 in
              (counts ≡ old_rows db)
              × (counts ≡ lost_rows db db')
              × (db'.rules ≡ db.rules)
              × (db'.users ≡ db.users)
              × (db'.locations ≡ db.locations))
  unfolding run_all_cleanup cleanup_thread_memory cleanup_raw_forecasts cleanup_aggregated_weather
      cleanup_notification_log cleanup_audit_log cleanup_trace_data
  run_all_cleanup-dry_run db = (refl, λ counts h. ground (arith, lost_rows-old_rows db))
