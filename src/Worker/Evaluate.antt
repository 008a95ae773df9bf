-- ===== src/Worker/Evaluate.antt =====
-- The evaluation of one rule: `_evaluate_single_rule` and `_build_evaluation_data`, with the queries
-- of infrastructure/repositories/forecast_repository.py that they use.
use weather_agent.Prelude.{
  ℕ, ◌+◌, ◌*◌, ◌-◌, ◌&&◌, Bool, Option, none, some, List, [], ◌∷◌, map, String, Result, ok, raise,
  Action, ltb, leb, ◌==◌, if◌then◌else◌, select, find, head?, order_by, order_by_desc,
}
use weather_agent.Database.{ForecastSnapshotOrm, ForecastPointOrm, Point, Value, Database}
use weather_agent.Rules.Model.{NotificationRule}
use weather_agent.Rules.Rows.{Env}
use weather_agent.Notifications.Dedupe.{minute}
use weather_agent.Worker.Finish.{finish_failed, finish_evaluation}
use weather_agent.Worker.Model.{
  ForecastFetchResult, EvaluationData, EvaluationResult, Fetcher, Worker,
}

-- `getattr` of every column; one that is NULL is left out of the dictionary.
abbrev pub present : List (String × Option Value) → List (String × Value)
present [] = []
present ((name, none) ∷ rest) = present rest
present ((name, some v) ∷ rest) = (name, v) ∷ present rest

unfoldable pub orm_point_to_dict : ForecastPointOrm → Point
orm_point_to_dict p = record { target_time = some p.target_time; metrics = present p.metrics }

abbrev pub hour : ℕ
hour = 60 * minute

abbrev pub in_window : ℕ → ℕ → ℕ → ForecastPointOrm → Bool
in_window snapshot_id start end' p =
    p.snapshot_id == snapshot_id && leb start p.target_time && leb p.target_time end'

-- `get_points_for_snapshot`, an hour back and a week ahead, as dictionaries.
abbrev pub points_of : ℕ → ℕ → Database → List Point
points_of snapshot_id now db = map orm_point_to_dict (
    order_by (λ p. p.target_time)
      (select (in_window snapshot_id (now - hour) (now + 168 * hour)) db.points))

-- `get_latest_snapshot`, `get_snapshot` and `get_previous_snapshot`.
abbrev pub latest_snapshot : ℕ → Database → Option ForecastSnapshotOrm
latest_snapshot location_id db =
    head?
      (order_by_desc (λ s. s.fetched_at) (select (λ s. s.location_id == location_id) db.snapshots))

abbrev pub get_snapshot : ℕ → Database → Option ForecastSnapshotOrm
get_snapshot snapshot_id db = find (λ s. s.id == snapshot_id) db.snapshots

abbrev pub previous_snapshot : ℕ → ℕ → Database → Option ForecastSnapshotOrm
previous_snapshot location_id before db = head? (
    order_by_desc (λ s. s.fetched_at)
      (select (λ s. s.location_id == location_id && ltb s.fetched_at before) db.snapshots))

abbrev pub previous_points_of : ℕ → Option ForecastSnapshotOrm → Database → List Point
previous_points_of now none db = []
previous_points_of now (some s) db = points_of s.id now db

abbrev pub data_of :
    ℕ → ℕ → Option (List Point) → Option ForecastSnapshotOrm → Database → EvaluationData
data_of now location_id fresh none db = record {
  points = [];
  previous_points = [];
  snapshot_id = none;
}
data_of now location_id fresh (some s) db =
    if s.location_id == location_id
    then record {
      points = elim fresh [ none ↦ points_of s.id now db | some points ↦ points ];
      previous_points = previous_points_of now (previous_snapshot location_id s.fetched_at db) db;
      snapshot_id = some s.id;
    }
    else record { points = []; previous_points = []; snapshot_id = some s.id }

unfoldable pub build_evaluation_data :
    ℕ → ℕ → Option ℕ → Option (List Point) → Database → EvaluationData
build_evaluation_data now location_id snapshot_id fresh db =
    data_of now location_id fresh
      (elim snapshot_id [ none ↦ latest_snapshot location_id db | some id ↦ get_snapshot id db ]) db

module _ (worker : Worker) where
  -- The snapshots that the fetcher saved are kept whatever it returned.
  abbrev pub keep_snapshots : List ForecastSnapshotOrm → Database → Database
  keep_snapshots snapshots db = record db { snapshots = snapshots }

  abbrev pub evaluate_fresh :
      Env → NotificationRule → Bool → Option ℕ → List Point → Action Database EvaluationResult
  evaluate_fresh env rule dry_run none points db =
      finish_failed env rule dry_run none "forecast_refresh_failed" db
  evaluate_fresh env rule dry_run (some id) points db =
      finish_evaluation worker env rule dry_run
        (build_evaluation_data env.now rule.location_id (some id) (some points) db) db

  -- A fetcher that raises, or returns nothing, or no snapshot, is a refresh that failed.
  abbrev pub evaluate_fetched :
      Env
      → NotificationRule
      → Bool
      → Result (Option ForecastFetchResult)
      → Action Database EvaluationResult
  evaluate_fetched env rule dry_run (raise e) db =
      finish_failed env rule dry_run none "forecast_refresh_failed" db
  evaluate_fetched env rule dry_run (ok none) db =
      finish_failed env rule dry_run none "forecast_refresh_failed" db
  evaluate_fetched env rule dry_run (ok (some fetched)) db =
      evaluate_fresh env rule dry_run fetched.snapshot_id fetched.point_dicts db

  abbrev pub evaluate_with :
      Option Fetcher → Env → NotificationRule → Bool → Action Database EvaluationResult
  evaluate_with none env rule dry_run db =
      finish_evaluation worker env rule dry_run
        (build_evaluation_data env.now rule.location_id none none db) db
  evaluate_with (some fetch) env rule dry_run db =
      let (fetched, snapshots) = fetch rule.location_id db.snapshots in
      evaluate_fetched env rule dry_run fetched (keep_snapshots snapshots db)

  unfoldable pub evaluate_single_rule :
      Env → NotificationRule → Bool → Action Database EvaluationResult
  unfolding finish_failed finish_evaluation build_evaluation_data
  evaluate_single_rule = evaluate_with worker.fetcher
