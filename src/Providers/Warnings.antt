-- ===== src/Providers/Warnings.antt =====
-- adapters/imgw/warnings_provider.py: the warnings that a response holds, and its two providers.
use Prim.Native.String.{◌++◌}
use weather_agent.Prelude.{ℕ, Option, none, some, List, [], ◌∷◌, String, str_eq, if◌then◌else◌}
use weather_agent.Time.{Zone}
use weather_agent.Providers.Request.{
  Value, Item, Reply, received, HttpOutcome, failed, type_error, request_with_retry,
}

pub data WarningSeverity : Type 0 where
  low moderate high extreme : WarningSeverity

pub data WarningCategory : Type 0 where
  meteo hydro : WarningCategory

-- Moments are instants.
pub record WeatherWarning : Type 0 where
  pub provider : String
  pub external_id : String
  pub location_id : String
  pub severity : Option WarningSeverity
  pub category : WarningCategory
  pub headline : String
  pub description : String
  pub valid_from : ℕ
  pub valid_to : ℕ
  pub raw_payload : Item

abbrev pub meteo_provider_name : String
meteo_provider_name = "imgw-meteo"

abbrev pub hydro_provider_name : String
hydro_provider_name = "imgw-hydro"

-- `item.get(key)`
abbrev pub get : String → Item → Option Value
get key [] = none
get key ((k, v) ∷ item) = let later = get key item in if str_eq k key then some v else later

-- `str(item.get(key, default))`
abbrev pub shown_or : String → Option Value → String
shown_or default none = default
shown_or default (some v) = v.shown

abbrev pub text_at : String → String → Item → String
text_at key default item = shown_or default (get key item)

-- `_METEO_SEVERITY_MAP.get` and `_HYDRO_SEVERITY_MAP.get`
abbrev pub meteo_severity : String → Option WarningSeverity
meteo_severity degree =
    if str_eq degree "1"
    then some low
    else if str_eq degree "2"
    then some moderate
    else if str_eq degree "3"
    then some high
    else none

abbrev pub hydro_severity : String → Option WarningSeverity
hydro_severity degree =
    if str_eq degree "-1"
    then some low
    else if str_eq degree "0"
    then some low
    else if str_eq degree "1"
    then some moderate
    else if str_eq degree "2"
    then some high
    else none

-- A truthy value, shown.
abbrev pub truthy_text : Option Value → Option String
truthy_text none = none
truthy_text (some v) = if v.truthy then some v.shown else none

abbrev pub or_else : Option String → String → String → String
or_else none head other = other
or_else (some text) head other = head ++ text

abbrev pub build_meteo_external_id : Item → String
build_meteo_external_id item = or_else (truthy_text (get "id" item)) "imgw-meteo:" (
    "imgw-meteo:"
    ++ text_at "nazwa_zdarzenia" "unknown" item
    ++ ":"
    ++ text_at "stopien" "?" item
    ++ ":"
    ++ text_at "obowiazuje_od" "unknown" item)

abbrev pub build_hydro_external_id : Item → String
build_hydro_external_id item =
    or_else (truthy_text (get "numer" item)) "imgw-hydro:" (
      "imgw-hydro:"
      ++ text_at "zdarzenie" "unknown" item
      ++ ":"
      ++ text_at "data_od" "unknown" item)

-- `datetime.strptime(raw, format)` as the wall clock that it reads, where it does not raise, and the
-- zone of Warsaw.
pub record Clocks : Type 0 where
  pub strptime : String → String → Option ℕ
  pub warsaw : Zone

abbrev pub first_read : Zone → Option ℕ → Option ℕ → Option ℕ
first_read zone none none = none
first_read zone none (some wall) = some (zone wall)
first_read zone (some wall) other = some (zone wall)

abbrev pub parse_imgw_datetime : Clocks → String → Option ℕ
parse_imgw_datetime clocks raw =
    first_read clocks.warsaw (clocks.strptime raw "%Y-%m-%d %H:%M:%S")
      (clocks.strptime raw "%Y-%m-%dT%H:%M:%S")

-- An item whose moments cannot be read is left out.
abbrev pub meteo_warning : String → Item → Option ℕ → Option ℕ → Option WeatherWarning
meteo_warning location_id item (some valid_from) (some valid_to) = some (record {
  provider = meteo_provider_name;
  external_id = build_meteo_external_id item;
  location_id = location_id;
  severity = meteo_severity (text_at "stopien" "" item);
  category = meteo;
  headline = text_at "nazwa_zdarzenia" "" item;
  description = text_at "tresc" "" item;
  valid_from = valid_from;
  valid_to = valid_to;
  raw_payload = item;
})
meteo_warning location_id item valid_from valid_to = none

abbrev pub hydro_warning : String → Item → Option ℕ → Option ℕ → Option WeatherWarning
hydro_warning location_id item (some valid_from) (some valid_to) = some (record {
  provider = hydro_provider_name;
  external_id = build_hydro_external_id item;
  location_id = location_id;
  severity = hydro_severity (text_at "stopień" (text_at "stopien" "" item) item);
  category = hydro;
  headline = text_at "zdarzenie" "" item;
  description = text_at "przebieg" "" item;
  valid_from = valid_from;
  valid_to = valid_to;
  raw_payload = item;
})
hydro_warning location_id item valid_from valid_to = none

abbrev pub cons_warning : Option WeatherWarning → List WeatherWarning → List WeatherWarning
cons_warning none rest = rest
cons_warning (some warning) rest = warning ∷ rest

unfoldable pub parse_meteo_warnings : Clocks → String → List Item → List WeatherWarning
parse_meteo_warnings clocks location_id [] = []
parse_meteo_warnings clocks location_id (item ∷ raw) =
    cons_warning
      (meteo_warning location_id item (parse_imgw_datetime clocks (text_at "obowiazuje_od" "" item))
        (parse_imgw_datetime clocks (text_at "obowiazuje_do" "" item)))
      (parse_meteo_warnings clocks location_id raw)

unfoldable pub parse_hydro_warnings : Clocks → String → List Item → List WeatherWarning
parse_hydro_warnings clocks location_id [] = []
parse_hydro_warnings clocks location_id (item ∷ raw) =
    cons_warning
      (hydro_warning location_id item (parse_imgw_datetime clocks (text_at "data_od" "" item))
        (parse_imgw_datetime clocks (text_at "data_do" "" item)))
      (parse_hydro_warnings clocks location_id raw)

-- A provider returns warnings or raises what the request raised.
pub data Fetched : Type 0 where
  warnings : List WeatherWarning → Fetched
  raised : Reply → Fetched

abbrev pub parsed_with : (List Item → List WeatherWarning) → Reply → Fetched
parsed_with parse (received raw) = warnings (parse raw)
parsed_with parse (failed e) = raised (failed e)
parsed_with parse type_error = raised type_error

unfoldable pub get_meteo_warnings : Clocks → String → (ℕ → HttpOutcome) → Fetched
unfolding request_with_retry parse_meteo_warnings
get_meteo_warnings clocks location_id outcomes =
    parsed_with (parse_meteo_warnings clocks location_id)
      (request_with_retry meteo_provider_name outcomes).reply

unfoldable pub get_hydro_warnings : Clocks → String → (ℕ → HttpOutcome) → Fetched
unfolding request_with_retry parse_hydro_warnings
get_hydro_warnings clocks location_id outcomes =
    parsed_with (parse_hydro_warnings clocks location_id)
      (request_with_retry hydro_provider_name outcomes).reply
