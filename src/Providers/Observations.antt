-- ===== src/Providers/Observations.antt =====
-- infrastructure/repositories/observation_repository.py: the methods of `ObservationRepository`, on the
-- table of observations. The columns of a row are the fields of its point, but for its keys.
use weather_agent.Prelude.{
  ℕ, Bool, ◌&&◌, Option, none, some, List, [], ◌∷◌, ◌++◌, String, Result, ok, raise, Action,
  value_error, integrity_error, ◌==◌, leb, if◌then◌else◌, select, order_by,
}
use weather_agent.Prelude.Decimal.{ℤ, parse_int}
use weather_agent.Expressions.Numbers.{Numbers}
use weather_agent.Providers.Stations.{Geometry}
use weather_agent.Providers.Synop.{Readers, ObservationPoint}

module _ (n : Numbers) (geometry : Geometry n) (readers : Readers n.F) where
  pub record ObservationOrm : Type 0 where
    pub id : ℕ
    pub location_id : ℕ
    pub point : ObservationPoint n geometry readers

  abbrev pub in_range : ℕ → ℕ → ℕ → ObservationOrm → Bool
  in_range location_id start end' row =
      row.location_id == location_id
      && leb start row.point.observed_at
      && leb row.point.observed_at end'

  unfoldable pub get_observations_by_time_range :
      String → ℕ → ℕ → List ObservationOrm → Result (List ObservationOrm)
  get_observations_by_time_range location_id start end' rows = elim (parse_int location_id) [
    | none ↦ raise value_error
    | some (ℤ.negsuc k) ↦ ok []
    | some (ℤ.pos k) ↦ ok (
        order_by (λ (row : ObservationOrm). row.point.observed_at)
          (select (in_range k start end') rows))
  ]

  -- The database: which locations there are, and the key that it gives to a new row.
  module _ (is_location : ℕ → Bool) (new_id : List ObservationOrm → ℕ) where
    abbrev pub with_id : ℕ → Result (List ℕ) → Result (List ℕ)
    with_id id (raise e) = raise e
    with_id id (ok ids) = ok (id ∷ ids)

    abbrev pub save_at :
        ℕ → List (ObservationPoint n geometry readers) → Action (List ObservationOrm) (List ℕ)
    save_at location_id [] rows = (ok [], rows)
    save_at location_id (point ∷ points) rows =
        let id = new_id rows in
        let row : ObservationOrm = record { id = id; location_id = location_id; point = point } in
        let (ids, after) = save_at location_id points (rows ++ (row ∷ [])) in
        if is_location location_id then (with_id id ids, after) else (raise integrity_error, rows)

    -- Each row converts the id of the location; without points nothing does.
    abbrev pub save_if :
        Option ℤ
        → List (ObservationPoint n geometry readers)
        → Action (List ObservationOrm) (List ℕ)
    save_if location_id [] rows = (ok [], rows)
    save_if none (point ∷ points) rows = (raise value_error, rows)
    save_if (some (ℤ.negsuc k)) (point ∷ points) rows = (raise integrity_error, rows)
    save_if (some (ℤ.pos k)) (point ∷ points) rows = save_at k (point ∷ points) rows

    unfoldable pub save_observations :
        String → List (ObservationPoint n geometry readers) → Action (List ObservationOrm) (List ℕ)
    unfolding parse_int
    save_observations location_id points rows = save_if (parse_int location_id) points rows
