-- ===== src/Providers/Comparison.antt =====
-- domain/snapshot_comparison.py: what changed between two snapshots of a forecast.
use weather_agent.Prelude.{
  Bool, true, false, Option, none, some, List, [], ◌∷◌, ◌++◌, map, String, str_eq, ◌==◌,
  if◌then◌else◌, head?,
}
use weather_agent.Time.{DateTime, naive, aware}
use weather_agent.Expressions.Numbers.{Numbers}

-- `_NUMERIC_FIELDS`: the variables but for the weather code.
abbrev pub numeric_fields : List String
numeric_fields =
    "temperature_2m_c" ∷ "apparent_temperature_c" ∷ "precipitation_mm"
    ∷ "precipitation_probability_pct" ∷ "rain_mm" ∷ "snowfall_cm" ∷ "cloud_cover_pct"
    ∷ "wind_speed_10m_ms" ∷ "wind_gusts_10m_ms" ∷ "wind_direction_10m_deg" ∷ "pressure_msl_hpa"
    ∷ "relative_humidity_2m_pct" ∷ []

-- Naive and aware datetimes are never equal.
abbrev pub same_time : DateTime → DateTime → Bool
same_time (naive a) (naive b) = a == b
same_time (aware a) (aware b) = a == b
same_time _ _ = false

module _ (n : Numbers) where
  open n use {F, lt, is_zero, sub, mul, div, abs, of_nat}

  -- `ForecastPoint`, with `getattr(point, metric)` as a function of the name.
  pub record ForecastPoint : Type 0 where
    pub location_id : String
    pub target_time : DateTime
    pub fetched_at : DateTime
    pub value_of : String → Option F

  pub record SnapshotDelta : Type 0 where
    pub metric : String
    pub previous_value : Option F
    pub current_value : Option F
    pub delta : Option F
    pub abs_delta : Option F
    pub percent_change : Option F

  pub record SnapshotComparison : Type 0 where
    pub location_id : String
    pub previous_fetched_at : DateTime
    pub current_fetched_at : DateTime
    pub deltas : List SnapshotDelta

  abbrev pub percent_of : F → F → Option F
  percent_of delta previous_value =
      if is_zero previous_value then none else some (mul (div delta previous_value) (of_nat 100))

  abbrev pub compute_delta : Option F → Option F → Option F × Option F × Option F
  compute_delta (some previous_value) (some current_value) =
      let delta = sub current_value previous_value in
      (some delta, some (abs delta), percent_of delta previous_value)
  compute_delta previous_value current_value = (none, none, none)

  -- `previous_by_time.get`: of the points of one time the last one is in the dictionary.
  abbrev pub or_this : Option ForecastPoint → Bool → ForecastPoint → Option ForecastPoint
  or_this (some later) same point = some later
  or_this none true point = some point
  or_this none false point = none

  unfoldable pub point_at : DateTime → List ForecastPoint → Option ForecastPoint
  point_at time [] = none
  point_at time (point ∷ points) =
      or_this (point_at time points) (same_time point.target_time time) point

  abbrev pub delta_of : ForecastPoint → ForecastPoint → String → SnapshotDelta
  delta_of current_point previous_point metric =
      let (delta, abs_delta, percent_change) =
        compute_delta (previous_point.value_of metric) (current_point.value_of metric) in
      record {
        metric = metric;
        previous_value = previous_point.value_of metric;
        current_value = current_point.value_of metric;
        delta = delta;
        abs_delta = abs_delta;
        percent_change = percent_change;
      }

  abbrev pub deltas_at : ForecastPoint → Option ForecastPoint → List SnapshotDelta
  deltas_at current_point none = []
  deltas_at current_point (some previous_point) =
      map (delta_of current_point previous_point) numeric_fields

  abbrev pub all_deltas : List ForecastPoint → List ForecastPoint → List SnapshotDelta
  unfolding point_at
  all_deltas [] previous = []
  all_deltas (point ∷ current) previous =
      deltas_at point (point_at point.target_time previous) ++ all_deltas current previous

  abbrev pub fetched_or_now : DateTime → Option ForecastPoint → DateTime
  fetched_or_now now none = now
  fetched_or_now now (some point) = point.fetched_at

  abbrev pub location_or_unknown : Option ForecastPoint → String
  location_or_unknown none = "unknown"
  location_or_unknown (some point) = point.location_id

  unfoldable pub compare_snapshots :
      DateTime → List ForecastPoint → List ForecastPoint → SnapshotComparison
  unfolding point_at
  compare_snapshots now current previous = record {
    location_id = location_or_unknown (head? current);
    previous_fetched_at = fetched_or_now now (head? previous);
    current_fetched_at = fetched_or_now now (head? current);
    deltas = all_deltas current previous;
  }

  -- `thresholds.get`
  abbrev pub threshold_of : String → List (String × F) → Option F
  threshold_of metric [] = none
  threshold_of metric ((key, value) ∷ thresholds) =
      let later = threshold_of metric thresholds in if str_eq key metric then some value else later

  abbrev pub exceeds : Option F → Option F → Bool
  exceeds (some threshold) (some abs_delta) = lt threshold abs_delta
  exceeds threshold abs_delta = false

  abbrev pub cons_if : Bool → SnapshotDelta → List SnapshotDelta → List SnapshotDelta
  cons_if true delta rest = delta ∷ rest
  cons_if false delta rest = rest

  abbrev pub significant : List (String × F) → List SnapshotDelta → List SnapshotDelta
  significant thresholds [] = []
  significant thresholds (delta ∷ deltas) =
      cons_if (exceeds (threshold_of delta.metric thresholds) delta.abs_delta) delta
        (significant thresholds deltas)

  unfoldable pub detect_significant_changes :
      SnapshotComparison → List (String × F) → List SnapshotDelta
  detect_significant_changes comparison thresholds = significant thresholds comparison.deltas
