-- ===== src/Examples/Weather.antt =====
-- Warnings, observations and snapshots.
use weather_agent.Prelude.{
  ℕ, zero, suc, ◌-◌, ◌≤◌, ◌<◌, ◌≡◌, refl, true, false, Bool, none, some, Option, String, List, [],
  ◌∷◌, ok, any, ◌==◌, str_eq, length, if◌then◌else◌, select, text_length, strip,
}
use weather_agent.Prelude.Decimal.{ℤ}
use weather_agent.Retention.{day}
use weather_agent.Time.{DateTime, naive, aware}
use weather_agent.Examples.Formulas.{naturals, natural_order}
use weather_agent.Providers.Request.{
  Value, Item, HttpOutcome, timeout_exception, response, array, request_with_retry, make_request,
  is_transient,
}
use weather_agent.Providers.Retries.{total, AllTransient, request_with_retry_ends}
use weather_agent.Providers.Warnings.{
  Clocks, WeatherWarning, meteo, high, get_meteo_warnings, warnings,
}
use weather_agent.Providers.Archive.{OfficialWarningOrm, save_warnings}
use weather_agent.Providers.Saved.{save_warnings_again}
use weather_agent.Providers.Stations.{Geometry, coordinates_of, haversine_km}
use weather_agent.Providers.Synop as Synop
use weather_agent.Providers.Synop.{Readers, not_farther, points_of}
use weather_agent.Providers.Comparison.{
  ForecastPoint, SnapshotDelta, compare_snapshots, detect_significant_changes,
}
use weather_agent.Polish.{Unicode, normalize_for_matching}
use weather_agent.Geocoding.Candidates as Candidates
use weather_agent.Geocoding.Candidates.{Candidate, leaf, object}
use weather_agent.Geocoding.Score as Score
use weather_agent.Geocoding.Score.{query_tokens, is_usable, select_best_candidate, candidate_score}
use weather_agent.Geocoding.Best.{Chosen, select_best_candidate-Chosen}
use weather_agent.Providers.Changes.{
  LastAt, some_moved, detect_significant_changes-compare_snapshots,
}

abbrev text : String → Value
text s = record { null = false; shown = s; truthy = true }

abbrev storm : Item
storm =
    ("id", text "7")
    ∷ ("nazwa_zdarzenia", text "Burze")
    ∷ ("stopien", text "3")
    ∷ ("tresc", text "Burze z gradem")
    ∷ ("obowiazuje_od", text "2024-06-01 10:00:00")
    ∷ ("obowiazuje_do", text "2024-06-01 20:00:00")
    ∷ []

abbrev nameless : Item
nameless = ("nazwa_zdarzenia", text "Ulewy") ∷ []

-- A timeout, then a response.
abbrev outcomes : ℕ → HttpOutcome
outcomes zero = timeout_exception
outcomes (suc n) = response 200 "[]" (array (storm ∷ nameless ∷ []))

request_with_retry_ends_example :
    let run = request_with_retry "imgw-meteo" outcomes in
    (0 < run.attempts)
    × (run.attempts ≤ 3)
    × (total run.sleeps ≤ 1500)
    × (run.reply ≡ make_request "imgw-meteo" (outcomes (run.attempts - 1)))
    × AllTransient "imgw-meteo" outcomes (run.attempts - 1)
    × (is_transient run.reply ≡ true → run.attempts ≡ 3)
request_with_retry_ends_example = request_with_retry_ends "imgw-meteo" outcomes

request_with_retry_test : (request_with_retry "imgw-meteo" outcomes).sleeps ≡ 500 ∷ []
unfolding request_with_retry
request_with_retry_test = refl

abbrev clocks : Clocks
clocks = record {
  strptime = λ raw format. if str_eq raw "" then none else some 5000;
  warsaw = λ wall. wall - 2000;
}

abbrev storm_warning : WeatherWarning
storm_warning = record {
  provider = "imgw-meteo";
  external_id = "imgw-meteo:7";
  location_id = "4";
  severity = some high;
  category = meteo;
  headline = "Burze";
  description = "Burze z gradem";
  valid_from = 3000;
  valid_to = 3000;
  raw_payload = storm;
}

get_meteo_warnings_test : get_meteo_warnings clocks "4" outcomes ≡ warnings (storm_warning ∷ [])
unfolding get_meteo_warnings
get_meteo_warnings_test = refl

abbrev is_location : ℕ → Bool
is_location id = id == 4

abbrev new_id : List OfficialWarningOrm → ℕ
new_id rows = suc (length rows)

save_warnings_again_example :
    save_warnings is_location new_id
      (storm_warning ∷ storm_warning ∷ [])
      (save_warnings is_location new_id (storm_warning ∷ storm_warning ∷ []) []).1
    ≡ (
      ok (1 ∷ 1 ∷ []),
      (save_warnings is_location new_id (storm_warning ∷ storm_warning ∷ []) []).1,
    )
unfolding save_warnings
save_warnings_again_example =
    save_warnings_again is_location new_id (storm_warning ∷ storm_warning ∷ []) [] (1 ∷ 1 ∷ []) refl

-- A geometry in which every place is as far as its latitude says.
abbrev geometry : Geometry naturals
geometry = record {
  radians = λ a. a;
  sin = λ a. a;
  cos = λ a. a;
  atan2 = λ a b. a;
  decimal = λ s. if str_eq s "53.1035" then 2 else 50;
}

abbrev readers : Readers ℕ
readers = record { float_of = λ v. some 12; int_of = λ v. some (ℤ.pos 6); day_of = λ v. some day }

abbrev items : List (Option Item)
items =
    some (("id_stacji", text "12295") ∷ ("temperatura", text "12") ∷ [])
    ∷ none
    ∷ some (("id_stacji", text "1") ∷ [])
    ∷ []

abbrev point_of : ℕ → ℕ → ForecastPoint naturals
point_of time value = record {
  location_id = "4";
  target_time = aware time;
  fetched_at = aware 0;
  value_of = λ metric. if str_eq metric "rain_mm" then some value else none;
}

abbrev is_rain : SnapshotDelta naturals → Bool
is_rain delta = str_eq delta.metric "rain_mm"

detect_significant_changes-compare_snapshots_example :
    (previous_point : DateTime → Option (ForecastPoint naturals)) × ((time : DateTime)
      → LastAt naturals time (point_of 10 1 ∷ point_of 11 1 ∷ []) (previous_point time))
    × ((p : SnapshotDelta naturals → Bool)
        → any p (
            detect_significant_changes naturals
              (compare_snapshots naturals
                (naive 9)
                (point_of 10 8 ∷ [])
                (point_of 10 1 ∷ point_of 11 1 ∷ []))
              (("rain_mm", 5) ∷ []))
          ≡ any
              (λ c. some_moved naturals (("rain_mm", 5) ∷ []) p c (previous_point c.target_time))
              (point_of 10 8 ∷ []))
detect_significant_changes-compare_snapshots_example =
    detect_significant_changes-compare_snapshots naturals (("rain_mm", 5) ∷ []) (naive 9)
      (point_of 10 8 ∷ []) (point_of 10 1 ∷ point_of 11 1 ∷ [])

detect_significant_changes_test :
    length (
      detect_significant_changes naturals
        (compare_snapshots naturals (naive 9) (point_of 10 8 ∷ []) (point_of 10 1 ∷ []))
        (("rain_mm", 5) ∷ []))
    ≡ 1
unfolding detect_significant_changes compare_snapshots
detect_significant_changes_test = refl

points_of_test : length (points_of naturals geometry readers 0 0 30_000 7000 items) ≡ 1
unfolding haversine_km coordinates_of
points_of_test = refl

abbrev plain_unicode : Unicode
plain_unicode = record { nfkd = λ s. s; combining = λ c. false; lower = λ s. s }

abbrev float_readers : Score.Readers ℕ
float_readers = record { float_of = λ s. some 52; hash_of = λ s. s }

abbrev place : String → String → Candidate
place name country =
    ("lat", leaf (Candidates.text "52.2"))
    ∷ ("lon", leaf (Candidates.text "21.0"))
    ∷ ("name", leaf (Candidates.text name))
    ∷ ("type", leaf (Candidates.text "city"))
    ∷ ("address", object "{}" (("country_code", Candidates.text country) ∷ []))
    ∷ []

abbrev candidates : List Candidate
candidates = place "opole" "de" ∷ place "opole" "pl" ∷ place "zakopane" "pl" ∷ []

select_best_candidate-Chosen_example :
    let tokens = query_tokens naturals plain_unicode float_readers "opole" in
    Chosen naturals natural_order plain_unicode float_readers tokens
      (select (is_usable naturals plain_unicode float_readers tokens) candidates)
      (select_best_candidate naturals plain_unicode float_readers "opole" candidates)
select_best_candidate-Chosen_example =
    select_best_candidate-Chosen naturals natural_order plain_unicode float_readers "opole"
      candidates

select_best_candidate_test :
    select (is_usable naturals plain_unicode float_readers ("opole" ∷ [])) candidates
    ≡ place "opole" "pl" ∷ []
unfolding candidate_score text_length normalize_for_matching strip
select_best_candidate_test = refl
