-- ===== src/Providers/Stations.antt =====
-- adapters/imgw/stations.py and geo.py: the stations with their coordinates, which are decimal numbers,
-- and the distance of two places.
use weather_agent.Prelude.{List, [], ◌∷◌, String, Option, none, some, str_eq, if◌then◌else◌}
use weather_agent.Expressions.Numbers.{Numbers}

abbrev pub station_coordinates : List (String × String × String)
station_coordinates =
    ("12295", "53.1035", "23.1559")
    ∷ ("12600", "49.8225", "19.0244")
    ∷ ("12235", "53.6967", "17.5558")
    ∷ ("12550", "50.7728", "19.0978")
    ∷ ("12160", "54.1608", "19.3881")
    ∷ ("12155", "54.3722", "18.6319")
    ∷ ("12300", "52.7375", "15.2869")
    ∷ ("12135", "54.6083", "18.8039")
    ∷ ("12500", "50.9033", "15.7750")
    ∷ ("12435", "51.7486", "18.0625")
    ∷ ("12650", "49.2322", "19.9811")
    ∷ ("12560", "50.2639", "19.0244")
    ∷ ("12185", "54.0828", "21.6108")
    ∷ ("12570", "50.8053", "20.6661")
    ∷ ("12520", "50.4344", "16.6583")
    ∷ ("12345", "52.2022", "18.8619")
    ∷ ("12100", "54.1850", "15.5689")
    ∷ ("12105", "54.1942", "16.1722")
    ∷ ("12488", "51.5911", "21.5031")
    ∷ ("12566", "50.0647", "19.9078")
    ∷ ("12670", "49.6878", "21.7714")
    ∷ ("12415", "51.2211", "16.1625")
    ∷ ("12690", "49.4625", "22.3250")
    ∷ ("12418", "51.8381", "16.5639")
    ∷ ("12125", "54.6344", "17.7536")
    ∷ ("12495", "51.2153", "22.5689")
    ∷ ("12120", "54.7533", "17.5331")
    ∷ ("12465", "51.7375", "19.4353")
    ∷ ("12280", "53.8642", "21.5633")
    ∷ ("12270", "53.0911", "20.3467")
    ∷ ("12660", "49.6139", "20.6931")
    ∷ ("12272", "53.7706", "20.4906")
    ∷ ("12530", "50.6614", "17.9564")
    ∷ ("12285", "53.0914", "21.5578")
    ∷ ("12230", "53.1433", "16.7389")
    ∷ ("12001", "54.6300", "18.6600")
    ∷ ("12360", "52.5547", "19.7064")
    ∷ ("12330", "52.4164", "16.8314")
    ∷ ("12695", "49.8061", "22.7808")
    ∷ ("12540", "50.0706", "18.2219")
    ∷ ("12210", "53.7761", "15.4386")
    ∷ ("12580", "50.1133", "22.0086")
    ∷ ("12585", "50.6747", "21.7422")
    ∷ ("12385", "52.1744", "22.2683")
    ∷ ("12310", "52.3397", "14.5758")
    ∷ ("12469", "51.3631", "19.8850")
    ∷ ("12195", "54.1197", "22.9397")
    ∷ ("12205", "53.4244", "14.5958")
    ∷ ("12215", "53.7267", "16.6864")
    ∷ ("12510", "50.8772", "15.8264")
    ∷ ("12200", "54.0189", "14.2472")
    ∷ ("12575", "50.0392", "21.0086")
    ∷ ("12399", "52.0736", "23.6033")
    ∷ ("12250", "53.0300", "18.5967")
    ∷ ("12115", "54.5808", "16.8564")
    ∷ ("12375", "52.1697", "20.9631")
    ∷ ("12455", "51.3267", "18.1533")
    ∷ ("12497", "51.5417", "23.5408")
    ∷ ("12424", "51.1039", "16.8700")
    ∷ ("12625", "49.2850", "19.9600")
    ∷ ("12595", "50.7222", "23.2508")
    ∷ ("12400", "51.9417", "15.5319")
    ∷ []

abbrev pub coordinates_in : String → List (String × String × String) → Option (String × String)
coordinates_in station_id [] = none
coordinates_in station_id ((key, latitude, longitude) ∷ rows) =
    let later = coordinates_in station_id rows in
    if str_eq key station_id then some (latitude, longitude) else later

-- `STATION_COORDINATES.get`
unfoldable pub coordinates_of : String → Option (String × String)
coordinates_of station_id = coordinates_in station_id station_coordinates

-- The functions of `math`, and the number that a decimal text stands for.
pub record Geometry (n : Numbers) : Type 0 where
  pub radians : n.F → n.F
  pub sin : n.F → n.F
  pub cos : n.F → n.F
  pub atan2 : n.F → n.F → n.F
  pub decimal : String → n.F

module _ (n : Numbers) (geometry : Geometry n) where
  open n use {F, add, sub, mul, div, sqrt, of_nat}

  abbrev pub square : F → F
  square x = mul x x

  unfoldable pub haversine_km : F → F → F → F → F
  haversine_km lat1 lon1 lat2 lon2 =
      let dlat = geometry.radians (sub lat2 lat1) in
      let dlon = geometry.radians (sub lon2 lon1) in
      let a = add (square (geometry.sin (div dlat (of_nat 2)))) (
        mul (mul (geometry.cos (geometry.radians lat1)) (geometry.cos (geometry.radians lat2)))
          (square (geometry.sin (div dlon (of_nat 2))))) in
      let c = mul (of_nat 2) (geometry.atan2 (sqrt a) (sqrt (sub (of_nat 1) a))) in
      mul (of_nat 6371) c
