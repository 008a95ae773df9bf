-- ===== src/Providers/Nearby.antt =====
-- What the observations near a place are.
use weather_agent.Prelude.{
  ℕ, Bool, true, false, Option, none, some, List, [], ◌∷◌, ◌≡◌, All, String, any, not, ◌&&◌,
}
use weather_agent.Expressions.Numbers.{Numbers, IsOrder}
use weather_agent.Providers.Request.{Item}
use weather_agent.Providers.Stations.{Geometry, coordinates_of}
use weather_agent.Providers.Warnings.{text_at}
use weather_agent.Providers.Synop.{
  Readers, ObservationPoint, not_farther, map_station_to_observation,
}

module _ (n : Numbers) (order : IsOrder n) (geometry : Geometry n) (readers : Readers n.F)
    (latitude longitude radius_km : n.F) (fetched_at : ℕ) where
  -- The point has a distance, which is not beyond the radius.
  abbrev pub IsNear : ObservationPoint n geometry readers → Type 0
  IsNear p = (d : n.F) × (p.distance_km ≡ some d) × (n.lt radius_km d ≡ false)

  -- By the test of the sort, no point is farther than the next one.
  abbrev pub IsSorted : List (ObservationPoint n geometry readers) → Type 0
  IsSorted [] = Unit
  IsSorted (p ∷ []) = Unit
  IsSorted (p ∷ q ∷ ps) = (not_farther n geometry readers p q ≡ true) × IsSorted (q ∷ ps)

  -- No point is farther than the next one.
  abbrev pub IsAscending : List (ObservationPoint n geometry readers) → Type 0
  IsAscending [] = Unit
  IsAscending (p ∷ []) = Unit
  IsAscending (p ∷ q ∷ ps) =
      ((d e : n.F) → p.distance_km ≡ some d → q.distance_km ≡ some e → n.lt e d ≡ false)
      × IsAscending (q ∷ ps)

  -- The great-circle distance of two places, from their haversine, on a sphere of 6371 km.
  abbrev pub great_circle : n.F → n.F → n.F → n.F → n.F
  great_circle lat1 lon1 lat2 lon2 =
      let half = λ (a b : n.F). geometry.sin (n.div (geometry.radians (n.sub b a)) (n.of_nat 2)) in
      let cosines =
        n.mul (geometry.cos (geometry.radians lat1)) (geometry.cos (geometry.radians lat2)) in
      let haversine =
        n.add (n.mul (half lat1 lat2) (half lat1 lat2))
          (n.mul cosines (n.mul (half lon1 lon2) (half lon1 lon2))) in
      n.mul (n.of_nat 6371) (
        n.mul (n.of_nat 2)
          (geometry.atan2 (n.sqrt haversine) (n.sqrt (n.sub (n.of_nat 1) haversine))))

  -- The observation of a station at coordinates that are not beyond the radius satisfies the predicate.
  abbrev pub is_listed_at :
      (ObservationPoint n geometry readers → Bool) → Item → Option (String × String) → Bool
  is_listed_at q station none = false
  is_listed_at q station (some (lat, lon)) =
      let d = great_circle latitude longitude (geometry.decimal lat) (geometry.decimal lon) in
      not (n.lt radius_km d)
      && q (map_station_to_observation n geometry readers station fetched_at (some d))

  -- The item is a station with known coordinates, and is listed there.
  abbrev pub is_listed : (ObservationPoint n geometry readers → Bool) → Option Item → Bool
  unfolding coordinates_of
  is_listed q none = false
  is_listed q (some station) =
      is_listed_at q station (coordinates_of (text_at "id_stacji" "" station))

  -- Points that are near and sorted, and are those of the listed stations.
  abbrev pub IsNearby : List (Option Item) → List (ObservationPoint n geometry readers) → Type 0
  unfolding coordinates_of
  IsNearby items points =
      All IsNear points
      × IsAscending points
      × ((q : ObservationPoint n geometry readers → Bool) → any q points ≡ any (is_listed q) items)
