-- ===== src/Expressions/Metrics.antt =====
-- domain/rule_expression/evaluator.py: the functions on the points of a forecast, outside and in the
-- mode of validation.
use Prim.Native.Nat.{◌/◌, ◌%◌}
use Prim.Native.String.{◌++◌}
use weather_agent.Prelude.{
  ℕ, zero, suc, ◌-◌, ◌*◌, Bool, true, false, not, ◌&&◌, Option, none, some, List, [], ◌∷◌, map,
  String, Result, ok, raise, failure, ◌==◌, leb, str_eq, if◌then◌else◌, any, length, sort_by,
}
use weather_agent.Prelude.Decimal.{ℤ}
use weather_agent.Time.{DateTime}
use weather_agent.Expressions.Numbers.{Numbers}
use weather_agent.Expressions.Ranges.{TimeRange, Clock, parse_wall, in_warsaw}

-- `ALLOWED_METRICS`, the names of `WeatherVariable`.
abbrev pub allowed_metrics : List String
allowed_metrics =
    "temperature_2m_c" ∷ "apparent_temperature_c" ∷ "precipitation_mm"
    ∷ "precipitation_probability_pct" ∷ "rain_mm" ∷ "snowfall_cm" ∷ "cloud_cover_pct"
    ∷ "wind_speed_10m_ms" ∷ "wind_gusts_10m_ms" ∷ "wind_direction_10m_deg" ∷ "pressure_msl_hpa"
    ∷ "relative_humidity_2m_pct" ∷ "weather_code" ∷ []

abbrev pub is_metric : String → Bool
is_metric key = any (λ m. str_eq m key) allowed_metrics

-- A value that is to be a datetime: a text, a datetime, or one of another type, by its name.
pub data TimeValue : Type 0 where
  text : String → TimeValue
  moment : DateTime → TimeValue
  other : String → TimeValue

abbrev pub coerce_datetime : Clock → TimeValue → Result ℕ
coerce_datetime clock (text s) = parse_wall clock s
coerce_datetime clock (moment t) = ok (in_warsaw clock t)
coerce_datetime clock (other name) = raise (failure ("Expected datetime value, got " ++ name))

-- The steps of a computation that may raise.
abbrev pub bind {ℓ} : {A B : Type ℓ} → Result A → (A → Result B) → Result B
bind (raise e) f = raise e
bind (ok a) f = f a

module _ (n : Numbers) (clock : Clock) where
  open n use {F, lt, is_zero, add, sub, mul, div, abs, sqrt, of_nat, floor, ceil}

  -- A point: its time, unless it has none, and its values, where None is none. Its other entries are
  -- read by no function.
  abbrev pub Point : Type 0
  Point = Option TimeValue × List (String × Option F)

  abbrev pub lookup : {A : Type 0} → String → List (String × A) → Option A
  lookup key [] = none
  lookup key ((k, v) ∷ rest) = let later = lookup key rest in if str_eq k key then some v else later

  abbrev pub within : TimeRange → ℕ → Bool
  within range t = leb range.start t && leb t range.end'

  abbrev pub keep_if : {A : Type 0} → Bool → A → List A → List A
  keep_if true a rest = a ∷ rest
  keep_if false a rest = rest

  -- The point, kept if its time lies in the range or it has none, before what becomes of the others.
  abbrev pub keep_point :
      TimeRange → Option TimeValue → Point → Result (List Point) → Result (List Point)
  keep_point range none point rest = bind rest (λ points. ok (point ∷ points))
  keep_point range (some value) point rest =
      bind (coerce_datetime clock value)
        (λ t. bind rest (λ points. ok (keep_if (within range t) point points)))

  unfoldable pub points_in_range : TimeRange → List Point → Result (List Point)
  points_in_range range [] = ok []
  points_in_range range ((time, values) ∷ points) =
      keep_point range time (time, values) (points_in_range range points)

  abbrev pub cons_value : Option (Option F) → List F → List F
  cons_value none rest = rest
  cons_value (some none) rest = rest
  cons_value (some (some v)) rest = v ∷ rest

  abbrev pub values_of : String → List Point → List F
  values_of key [] = []
  values_of key ((time, values) ∷ points) = cons_value (lookup key values) (values_of key points)

  unfoldable pub metric_values_of : String → TimeRange → List Point → Result (List F)
  unfolding points_in_range
  metric_values_of key range points =
      if is_metric key
      then bind (points_in_range range points) (λ kept. ok (values_of key kept))
      else raise (failure ("Unknown metric: " ++ key))

  abbrev pub sum_from : F → List F → F
  sum_from acc [] = acc
  sum_from acc (x ∷ xs) = sum_from (add acc x) xs

  abbrev pub sum : List F → F
  sum = sum_from (of_nat 0)

  abbrev pub mean : List F → F
  mean values = div (sum values) (of_nat (length values))

  -- `min(values)` and `max(values)`: the first of the least, of the greatest.
  abbrev pub least : F → List F → F
  least a [] = a
  least a (x ∷ xs) = least (if lt x a then x else a) xs

  abbrev pub greatest : F → List F → F
  greatest a [] = a
  greatest a (x ∷ xs) = greatest (if lt a x then x else a) xs

  -- `values[i]`, counted from the end where `i` is negative; none where it raises `IndexError`.
  abbrev pub get_elem? : List F → ℕ → Option F
  get_elem? [] i = none
  get_elem? (x ∷ xs) zero = some x
  get_elem? (x ∷ xs) (suc i) = get_elem? xs i

  abbrev pub from_end : List F → ℕ → Option F
  from_end values i = if leb i (length values) then get_elem? values (length values - i) else none

  abbrev pub at_index : List F → ℤ → Option F
  at_index values (ℤ.pos i) = get_elem? values i
  at_index values (ℤ.negsuc i) = from_end values (suc i)

  abbrev pub or_index_error : Option F → Result F
  or_index_error none = raise (failure "list index out of range")
  or_index_error (some v) = ok v

  abbrev pub sorted : List F → List F
  sorted = sort_by (λ a b. not (lt b a))

  abbrev pub same_int : ℤ → ℤ → Bool
  same_int (ℤ.pos a) (ℤ.pos b) = a == b
  same_int (ℤ.negsuc a) (ℤ.negsuc b) = a == b
  same_int _ _ = false

  abbrev pub of_int : ℤ → F
  of_int (ℤ.pos a) = of_nat a
  of_int (ℤ.negsuc a) = sub (of_nat 0) (of_nat (suc a))

  unfoldable pub percentile : List F → F → Result F
  percentile values p =
      let ordered = sorted values in
      let rank = mul (div p (of_nat 100)) (of_nat (length ordered - 1)) in
      let lower = floor rank in
      let upper = ceil rank in
      let fraction = sub rank (of_int lower) in
      let low = or_index_error (at_index ordered lower) in
      if same_int lower upper
      then low
      else bind low (λ a.
        bind (or_index_error (at_index ordered upper)) (λ b. ok (add a (mul fraction (sub b a)))))

  abbrev pub median : List F → Result F
  median values =
      let ordered = sorted values in
      let midpoint = length ordered / 2 in
      let upper = or_index_error (get_elem? ordered midpoint) in
      if length ordered % 2 == 0
      then bind (or_index_error (at_index ordered (ℤ.pos (midpoint - 1))))
          (λ a. bind upper (λ b. ok (div (add a b) (of_nat 2))))
      else upper

  abbrev pub squares : F → List F → List F
  squares m = map (λ v. mul (sub v m) (sub v m))

  abbrev pub stddev : List F → F
  stddev values = sqrt (div (sum (squares (mean values) values)) (of_nat (length values)))

  -- `_require_values`, and what is computed of the first value and the others.
  abbrev pub with_values : String → (F → List F → Result F) → List F → Result F
  with_values key f [] = raise (failure ("No data points for metric '" ++ key ++ "'"))
  with_values key f (x ∷ xs) = f x xs

  abbrev pub last_of : F → List F → F
  last_of a [] = a
  last_of a (x ∷ xs) = last_of x xs

  -- A change needs two values.
  abbrev pub change_of : String → (F → F → Result F) → F → List F → Result F
  change_of name f first [] =
      raise (failure ("Need at least 2 data points for " ++ name ++ ", got 1"))
  change_of name f first (x ∷ xs) = f first (last_of x xs)

  abbrev pub rate : F → F → Result F
  rate first last =
      if is_zero first
      then raise (failure "Cannot compute rate of change when initial value is zero")
      else ok (div (sub last first) (abs first))

  -- `_sample_point`, of the isoformat of a moment.
  abbrev pub sample_point : String → Point
  sample_point time = (some (text time), map (λ key. (key, some (of_nat 1))) allowed_metrics)

  -- `_build_functions(data, validation_mode=…)`: the closures over the data.
  module _ (points previous_points : List Point) (validation_mode : Bool) where
    -- The argument is the isoformat of now.
    unfoldable pub points_between : String → TimeRange → Result (List Point)
    unfolding points_in_range
    points_between now range =
        let kept = points_in_range range points in
        if validation_mode then ok (sample_point now ∷ []) else kept

    unfoldable pub metric_values : String → TimeRange → Result (List F)
    unfolding metric_values_of
    metric_values key range =
        let found = metric_values_of key range points in
        if validation_mode
        then if is_metric key
          then ok (of_nat 1 ∷ of_nat 2 ∷ [])
          else raise (failure ("Unknown metric: " ++ key))
        else found

    abbrev aggregate : String → TimeRange → (F → List F → Result F) → Result F
    unfolding metric_values
    aggregate key range f = bind (metric_values key range) (with_values key f)

    unfoldable pub min_metric : String → TimeRange → Result F
    unfolding metric_values
    min_metric key range = aggregate key range (λ x xs. ok (least x xs))

    unfoldable pub max_metric : String → TimeRange → Result F
    unfolding metric_values
    max_metric key range = aggregate key range (λ x xs. ok (greatest x xs))

    unfoldable pub avg_metric : String → TimeRange → Result F
    unfolding metric_values
    avg_metric key range = aggregate key range (λ x xs. ok (mean (x ∷ xs)))

    unfoldable pub sum_metric : String → TimeRange → Result F
    unfolding metric_values
    sum_metric key range = aggregate key range (λ x xs. ok (sum (x ∷ xs)))

    unfoldable pub median_metric : String → TimeRange → Result F
    unfolding metric_values
    median_metric key range = aggregate key range (λ x xs. median (x ∷ xs))

    unfoldable pub stddev_metric : String → TimeRange → Result F
    unfolding metric_values
    stddev_metric key range = aggregate key range (λ x xs. ok (stddev (x ∷ xs)))

    unfoldable pub pctl_metric : String → TimeRange → F → Result F
    unfolding metric_values percentile
    pctl_metric key range p = aggregate key range (λ x xs. percentile (x ∷ xs) p)

    unfoldable pub delta_metric : String → TimeRange → Result F
    unfolding metric_values
    delta_metric key range =
        aggregate key range (change_of "delta" (λ first last. ok (sub last first)))

    unfoldable pub abs_delta_metric : String → TimeRange → Result F
    unfolding delta_metric
    abs_delta_metric key range = bind (delta_metric key range) (λ d. ok (abs d))

    unfoldable pub rate_of_change_metric : String → TimeRange → Result F
    unfolding metric_values
    rate_of_change_metric key range = aggregate key range (change_of "rate_of_change" rate)

    abbrev pub difference_of_means : String → List F → List F → Result F
    difference_of_means key (x ∷ xs) (y ∷ ys) = ok (sub (mean (x ∷ xs)) (mean (y ∷ ys)))
    difference_of_means key xs ys =
        raise (failure ("Insufficient data for forecast_delta on '" ++ key ++ "'"))

    unfoldable pub forecast_delta_metric : String → TimeRange → String → Result F
    unfolding metric_values metric_values_of
    forecast_delta_metric key range snapshot_ref =
        let against = λ (current : List F).
          bind (metric_values_of key range previous_points) (difference_of_means key current) in
        if str_eq snapshot_ref "previous"
        then bind (metric_values key range)
            (λ current. if validation_mode then ok (of_nat 1) else against current)
        else raise (failure ("Unsupported snapshot reference: " ++ snapshot_ref))

  abbrev pub hours : F → F
  hours count = mul count (of_nat 60)

  abbrev pub previous_snapshot : String
  previous_snapshot = "previous"

  abbrev pub hourly_resolution_minutes : ℕ
  hourly_resolution_minutes = 60

  abbrev pub duration_minutes : List Point → F
  duration_minutes points = of_nat (length points * hourly_resolution_minutes)

  -- `max(min_value, min(max_value, value))`
  abbrev pub lesser : F → F → F
  lesser a b = if lt b a then b else a

  abbrev pub greater : F → F → F
  greater a b = if lt a b then b else a

  unfoldable pub clamp : F → F → F → F
  clamp value min_value max_value = greater min_value (lesser max_value value)
