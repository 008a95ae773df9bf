-- ===== src/Examples/Cleanup.antt =====
-- Retention.
use weather_agent.Prelude.{
  ℕ, ◌*◌, ◌≡◌, refl, true, false, none, some, List, [], ◌∷◌, arith, ok, raise, integrity_error,
}
use weather_agent.Database.{Database}
use weather_agent.Retention.{RetentionSettings, day, cleanup_trace_data, run_all_cleanup}
use weather_agent.Retention.Counts.{lost_rows, run_all_cleanup-dry_run}
use weather_agent.Retention.Cleanup.{
  References, cleanup_trace_data-References, run_all_cleanup-used_run,
}
use weather_agent.Examples.Fixtures.{claimed, run, two_rules}

-- The defaults.
abbrev settings : RetentionSettings
settings = record {
  thread_memory_days = 14;
  raw_forecast_days = 60;
  aggregated_weather_days = 90;
  notification_log_days = 365;
  audit_log_days = 365;
  trace_days = 14;
}

-- A notification of 30 days ago, and the run that it came from.
abbrev month_old : Database
month_old = record two_rules {
  events = record claimed { evaluation_run_id = some 1; created_at = 970 * day } ∷ [];
  runs = run 1 (970 * day) ∷ [];
}

run_all_cleanup-dry_run_example :
    (run_all_cleanup settings (1000 * day) true month_old
      ≡ (ok (0 ∷ 0 ∷ 0 ∷ 0 ∷ 0 ∷ 1 ∷ []), month_old))
    × ((counts : List ℕ)
        → (run_all_cleanup settings (1000 * day) false month_old).0 ≡ ok counts
        → let db' = (run_all_cleanup settings (1000 * day) false month_old).1 in
          (counts ≡ 0 ∷ 0 ∷ 0 ∷ 0 ∷ 0 ∷ 1 ∷ [])
          × (counts ≡ lost_rows settings (1000 * day) month_old db')
          × (db'.rules ≡ month_old.rules)
          × (db'.users ≡ month_old.users)
          × (db'.locations ≡ month_old.locations))
run_all_cleanup-dry_run_example = run_all_cleanup-dry_run settings (1000 * day) month_old

cleanup_trace_data-References_test :
    References (cleanup_trace_data settings (1000 * day) none false month_old).1
cleanup_trace_data-References_test =
    cleanup_trace_data-References settings (1000 * day) none false month_old
      ((λ id e. ground arith), tt)

run_all_cleanup-used_run_example :
    (run_all_cleanup settings (1000 * day) false month_old).0 ≡ raise integrity_error
run_all_cleanup-used_run_example =
    run_all_cleanup-used_run settings (1000 * day) 1 month_old refl refl
