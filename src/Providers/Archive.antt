-- ===== src/Providers/Archive.antt =====
-- infrastructure/repositories/warning_repository.py: the methods of `WarningRepository`, on the table
-- of warnings. The columns of a row are the fields of its warning, but for its keys.
use weather_agent.Prelude.{
  ℕ, Bool, true, false, ◌&&◌, Option, none, some, List, [], ◌∷◌, ◌++◌, String, Result, ok, raise,
  Action, value_error, integrity_error, ◌==◌, leb, str_eq, if◌then◌else◌, any, select,
  scalar_one_or_none, order_by,
}
use weather_agent.Prelude.Decimal.{ℤ, parse_int}
use weather_agent.Providers.Warnings.{WeatherWarning}

pub record OfficialWarningOrm : Type 0 where
  pub id : ℕ
  pub location_id : ℕ
  pub warning : WeatherWarning

-- The columns of the unique constraint, which the query of `save_warnings` compares too.
abbrev pub same_key : WeatherWarning → WeatherWarning → Bool
same_key a b =
    str_eq b.provider a.provider
    && str_eq b.external_id a.external_id
    && b.valid_from == a.valid_from

abbrev pub has_key : WeatherWarning → OfficialWarningOrm → Bool
has_key warning row = same_key warning row.warning

-- The database: which locations there are, and the key that it gives to a new row.
module _ (is_location : ℕ → Bool) (new_id : List OfficialWarningOrm → ℕ) where
  abbrev pub inserted : WeatherWarning → Option ℤ → Action (List OfficialWarningOrm) ℕ
  inserted warning (some (ℤ.pos location_id)) rows =
      if is_location location_id && (if any (has_key warning) rows then false else true)
      then (
        ok (new_id rows),
        rows ++ (record { id = new_id rows; location_id = location_id; warning = warning } ∷ []),
      )
      else (raise integrity_error, rows)
  inserted warning (some (ℤ.negsuc n)) rows = (raise integrity_error, rows)
  inserted warning none rows = (raise value_error, rows)

  abbrev pub id_of_row :
      WeatherWarning → Result (Option OfficialWarningOrm) → Action (List OfficialWarningOrm) ℕ
  unfolding parse_int
  id_of_row warning (raise e) rows = (raise e, rows)
  id_of_row warning (ok (some existing)) rows = (ok existing.id, rows)
  id_of_row warning (ok none) rows = inserted warning (parse_int warning.location_id) rows

  unfoldable pub save_warning : WeatherWarning → Action (List OfficialWarningOrm) ℕ
  unfolding parse_int
  save_warning warning rows =
      id_of_row warning (scalar_one_or_none (select (has_key warning) rows)) rows

  abbrev pub with_id : ℕ → Result (List ℕ) → Result (List ℕ)
  with_id id (raise e) = raise e
  with_id id (ok ids) = ok (id ∷ ids)

  -- What raises ends the loop.
  abbrev pub and_others :
      Result ℕ × List OfficialWarningOrm
      → Result (List ℕ) × List OfficialWarningOrm
      → Result (List ℕ) × List OfficialWarningOrm
  and_others (raise e, rows) others = (raise e, rows)
  and_others (ok id, rows) (ids, after) = (with_id id ids, after)

  unfoldable pub save_warnings : List WeatherWarning → Action (List OfficialWarningOrm) (List ℕ)
  unfolding save_warning
  save_warnings [] rows = (ok [], rows)
  save_warnings (warning ∷ warnings) rows =
      let saved = save_warning warning rows in and_others saved (save_warnings warnings saved.1)

abbrev pub in_time : ℕ → ℕ → ℕ → OfficialWarningOrm → Bool
in_time location_id start end' row =
    row.location_id == location_id
    && leb start row.warning.valid_from
    && leb row.warning.valid_to end'

unfoldable pub get_warnings :
    String → ℕ → ℕ → List OfficialWarningOrm → Result (List OfficialWarningOrm)
get_warnings location_id start end' rows = elim (parse_int location_id) [
  | none ↦ raise value_error
  | some (ℤ.negsuc n) ↦ ok []
  | some (ℤ.pos n) ↦
      ok (order_by (λ row. row.warning.valid_from) (select (in_time n start end') rows))
]
