-- ===== src/Providers/Synop.antt =====
-- adapters/imgw/synop_provider.py: the observations of the stations near a place.
use Prim.Native.String.{◌++◌}
use weather_agent.Prelude.{
  ℕ, ◌+◌, ◌*◌, Bool, true, false, not, ◌||◌, ◌&&◌, Option, none, some, List, [], ◌∷◌, String, ltb,
  ◌==◌, is_empty, if◌then◌else◌, sort_by,
}
use weather_agent.Prelude.Decimal.{ℤ, show_nat}
use weather_agent.Expressions.Numbers.{Numbers}
use weather_agent.Expressions.Ranges.{hour}
use weather_agent.Providers.Request.{
  Value, Item, ProviderError, unavailable, timeout, response_error,
}
use weather_agent.Providers.Warnings.{get, text_at}
use weather_agent.Providers.Stations.{Geometry, coordinates_of, haversine_km}

abbrev pub provider : String
provider = "imgw_synop"

-- `response.json()` raises, returns no list, or a list, where what is no object is none.
pub data Body : Type 0 where
  invalid : String → Body
  no_list : Body
  stations : List (Option Item) → Body

pub data HttpOutcome : Type 0 where
  timeout_exception http_error : HttpOutcome
  response : ℕ → Body → HttpOutcome

-- `float(value)` and `int(value)` of a value of JSON, and the day that `strptime` reads with
-- `%Y-%m-%d`, as the instant it starts at; none where the call raises.
pub record Readers (F : Type 0) : Type 0 where
  pub float_of : Value → Option F
  pub int_of : Value → Option ℤ
  pub day_of : Value → Option ℕ

abbrev pub parse_optional_float : {F : Type 0} → Readers F → Option Value → Option F
parse_optional_float readers none = none
parse_optional_float readers (some v) =
    if v.null || is_empty v.shown then none else readers.float_of v

-- `.replace(hour=hour)` raises unless it is an hour of a day.
abbrev pub at_hour : Option ℤ → Option ℕ → Option ℕ
at_hour (some (ℤ.pos h)) (some day) = if ltb h 24 then some (day + h * hour) else none
at_hour h day = none

abbrev pub parse_observed_at : {F : Type 0} → Readers F → Option Value → Option Value → Option ℕ
parse_observed_at readers (some date) (some h) =
    if date.truthy && h.truthy then at_hour (readers.int_of h) (readers.day_of date) else none
parse_observed_at readers date h = none

abbrev pub or_moment : Option ℕ → ℕ → ℕ
or_moment none moment = moment
or_moment (some t) moment = t

abbrev pub name_of : Option Value → Option String
name_of none = none
name_of (some v) = if v.null then none else some v.shown

abbrev pub none_if_empty : String → Option String
none_if_empty text = if is_empty text then none else some text

module _ (n : Numbers) (geometry : Geometry n) (readers : Readers n.F) where
  open n use {F, lt}

  pub record ObservationPoint : Type 0 where
    pub observed_at : ℕ
    pub fetched_at : ℕ
    pub provider' : String
    pub station_id : Option String
    pub station_name : Option String
    pub distance_km : Option F
    pub temperature_c : Option F
    pub wind_speed_ms : Option F
    pub wind_direction_deg : Option F
    pub pressure_hpa : Option F
    pub humidity_pct : Option F
    pub precipitation_mm : Option F
    pub raw_payload : Item

  abbrev pub map_station_to_observation : Item → ℕ → Option F → ObservationPoint
  map_station_to_observation station fetched_at distance_km =
      let number = λ (key : String). parse_optional_float readers (get key station) in
      record {
        observed_at =
            or_moment
              (parse_observed_at readers (get "data_pomiaru" station)
                (get "godzina_pomiaru" station))
              fetched_at;
        fetched_at = fetched_at;
        provider' = provider;
        station_id = none_if_empty (text_at "id_stacji" "" station);
        station_name = name_of (get "stacja" station);
        distance_km = distance_km;
        temperature_c = number "temperatura";
        wind_speed_ms = number "predkosc_wiatru";
        wind_direction_deg = number "kierunek_wiatru";
        pressure_hpa = number "cisnienie";
        humidity_pct = number "wilgotnosc_wzgledna";
        precipitation_mm = number "suma_opadu";
        raw_payload = station;
      }

  -- A list of points, or what is raised.
  pub data Observed : Type 0 where
    observed : List ObservationPoint → Observed
    raised : ProviderError → Observed

  -- The order of `points.sort`, where no distance counts as an infinite one.
  abbrev pub closer : Option F → Option F → Bool
  closer none none = true
  closer none (some e) = false
  closer (some d) none = true
  closer (some d) (some e) = not (lt e d)

  abbrev pub not_farther : ObservationPoint → ObservationPoint → Bool
  not_farther a b = closer a.distance_km b.distance_km

  -- The place and the radius of a call, and its moment.
  module _ (latitude longitude radius_km : F) (fetched_at : ℕ) where
    abbrev pub distance_to : String × String → F
    unfolding haversine_km
    distance_to (lat, lon) =
        haversine_km n geometry latitude longitude (geometry.decimal lat) (geometry.decimal lon)

    -- A station without coordinates, or one that is too far, is left out.
    abbrev pub near :
        Item → Option (String × String) → List ObservationPoint → List ObservationPoint
    unfolding haversine_km
    near station none rest = rest
    near station (some coords) rest =
        if lt radius_km (distance_to coords)
        then rest
        else map_station_to_observation station fetched_at (some (distance_to coords)) ∷ rest

    abbrev pub points_of : List (Option Item) → List ObservationPoint
    unfolding haversine_km coordinates_of
    points_of [] = []
    points_of (none ∷ items) = points_of items
    points_of (some station ∷ items) =
        near station (coordinates_of (text_at "id_stacji" "" station)) (points_of items)

    abbrev pub of_body : Body → Observed
    unfolding haversine_km coordinates_of
    of_body (invalid exc) = raised (response_error provider ("Invalid JSON: " ++ exc))
    of_body no_list = raised (response_error provider "Expected a list of stations")
    of_body (stations items) = observed (sort_by not_farther (points_of items))

    unfoldable pub get_observations : HttpOutcome → Observed
    unfolding haversine_km coordinates_of
    get_observations timeout_exception = raised (timeout provider "Provider request timed out")
    get_observations http_error = raised (unavailable provider "Provider is unavailable")
    get_observations (response status body) =
        let found = of_body body in
        if status == 200
        then found
        else raised (response_error provider ("HTTP " ++ show_nat status ""))
