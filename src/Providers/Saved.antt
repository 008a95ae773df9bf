-- ===== src/Providers/Saved.antt =====
-- What saving warnings does.
use weather_agent.Prelude.{
  ℕ, Bool, true, false, ◌&&◌, Bool-cases, Result-cases, Option, none, some, List, [], ◌∷◌, ◌++◌,
  Result, ok, raise, integrity_error, if◌then◌else◌, ◌≡◌, refl, sym, ap, ◌∙◌, inl, inr, arith, any,
  select, select-nil, scalar_one_or_none, str_eq, eq_iff, ◌==◌, ==_iff, ==_refl, eq_refl,
  ok-injective,
}
use weather_agent.Prelude.Decimal.{ℤ, parse_int}
use weather_agent.Providers.Warnings.{WeatherWarning}
use weather_agent.Providers.Archive.{
  OfficialWarningOrm, same_key, has_key, inserted, id_of_row, save_warning, with_id, and_others,
  save_warnings,
}

module _ {A : Type 0} where
  select_before :
      (p : A → Bool) (xs : List A) (x : A) → p x ≡ false → select p (xs ++ (x ∷ [])) ≡ select p xs
  select_before p [] x h = ground arith
  select_before p (y ∷ xs) x h = ground (arith, select_before p xs x h)

  select_new :
      (p : A → Bool) (xs : List A) (x : A)
      → any p xs ≡ false
      → p x ≡ true
      → select p (xs ++ (x ∷ [])) ≡ x ∷ []
  select_new p [] x h k = ground arith
  select_new p (y ∷ xs) x h k = ground (arith, select_new p xs x)

  any_same : (p q : A → Bool) (xs : List A) → ((x : A) → p x ≡ q x) → any p xs ≡ any q xs
  any_same p q [] k = refl
  any_same p q (x ∷ xs) k = ground (arith, k x, any_same p q xs k)

-- Two warnings with the same key have it in common with the same rows.
same_key_same : (a b c : WeatherWarning) → same_key a b ≡ true → same_key a c ≡ same_key b c
same_key_same a b c h =
    let p : str_eq b.provider a.provider ≡ true = ground arith in
    let e : str_eq b.external_id a.external_id ≡ true = ground arith in
    let f : (b.valid_from == a.valid_from) ≡ true = ground arith in
    rw
      (
        (eq_iff b.provider a.provider).0 p,
        (eq_iff b.external_id a.external_id).0 e,
        (==_iff b.valid_from a.valid_from).0 f,
      )
      refl

same_key_refl : (a : WeatherWarning) → same_key a a ≡ true
same_key_refl a = ground (arith, eq_refl a.provider, eq_refl a.external_id, ==_refl a.valid_from)

-- The query of a warning finds this row.
abbrev Finds : WeatherWarning → List OfficialWarningOrm → OfficialWarningOrm → Type 0
Finds warning rows row = scalar_one_or_none (select (has_key warning) rows) ≡ ok (some row)

module _ (is_location : ℕ → Bool) (new_id : List OfficialWarningOrm → ℕ) where
  found_any :
      (w : WeatherWarning) (rows : List OfficialWarningOrm) (row : OfficialWarningOrm)
      → Finds w rows row
      → any (has_key w) rows ≡ true
  found_any w rows row h = elim (Bool-cases (any (has_key w) rows)) [
    | inl a ↦ a
    | inr a ↦
        let none_found : scalar_one_or_none (select (has_key w) rows) ≡ ok none =
          ap scalar_one_or_none (select-nil (has_key w) rows a) in
        cc
  ]

  appended-Finds :
      (w : WeatherWarning) (rows : List OfficialWarningOrm) (row new : OfficialWarningOrm)
      → any (has_key new.warning) rows ≡ false
      → Finds w rows row
      → Finds w (rows ++ (new ∷ [])) row
  appended-Finds w rows row new free h = elim (Bool-cases (has_key w new)) [
    | inr other ↦ ap scalar_one_or_none (select_before (has_key w) rows new other) ∙ h
    | inl same ↦
        let equal =
          any_same (has_key w) (has_key new.warning) rows
            (λ r. same_key_same w new.warning r.warning same) in
        let found = found_any w rows row h in cc
  ]

  inserted-Finds :
      (w v : WeatherWarning) (location_id : Option ℤ) (rows : List OfficialWarningOrm)
      (row : OfficialWarningOrm)
      → Finds w rows row
      → Finds w (inserted is_location new_id v location_id rows).1 row
  inserted-Finds w v none rows row h = h
  inserted-Finds w v (some (ℤ.negsuc n)) rows row h = h
  inserted-Finds w v (some (ℤ.pos n)) rows row h =
      let new : OfficialWarningOrm = record { id = new_id rows; location_id = n; warning = v } in
      let kept = appended-Finds w rows row new in
      elim (Bool-cases (is_location n)) [
        | inr a ↦ rw a h
        | inl a ↦ elim (Bool-cases (any (has_key v) rows)) [
          | inl b ↦ rw (a, b) h
          | inr b ↦ rw (a, b) (kept b h)
        ]
      ]

  id_of_row-Finds :
      (w v : WeatherWarning) (found : Result (Option OfficialWarningOrm))
      (rows : List OfficialWarningOrm) (row : OfficialWarningOrm)
      → Finds w rows row
      → Finds w (id_of_row is_location new_id v found rows).1 row
  unfolding parse_int
  id_of_row-Finds w v (raise e) rows row h = h
  id_of_row-Finds w v (ok (some r)) rows row h = h
  id_of_row-Finds w v (ok none) rows row h = inserted-Finds w v (parse_int v.location_id) rows row h

  save_warning-Finds :
      (w v : WeatherWarning) (rows : List OfficialWarningOrm) (row : OfficialWarningOrm)
      → Finds w rows row
      → Finds w (save_warning is_location new_id v rows).1 row
  unfolding save_warning
  save_warning-Finds w v rows row h =
      id_of_row-Finds w v (scalar_one_or_none (select (has_key v) rows)) rows row h

  and_others-Finds :
      (w : WeatherWarning) (row : OfficialWarningOrm) (saved : Result ℕ × List OfficialWarningOrm)
      (others : Result (List ℕ) × List OfficialWarningOrm)
      → Finds w saved.1 row
      → Finds w others.1 row
      → Finds w (and_others is_location new_id saved others).1 row
  and_others-Finds w row (raise e, rows) others h k = h
  and_others-Finds w row (ok id, rows) others h k = k

  save_warnings-Finds :
      (w : WeatherWarning) (vs : List WeatherWarning) (rows : List OfficialWarningOrm)
      (row : OfficialWarningOrm)
      → Finds w rows row
      → Finds w (save_warnings is_location new_id vs rows).1 row
  unfolding save_warnings
  save_warnings-Finds w [] rows row h = h
  save_warnings-Finds w (v ∷ vs) rows row h =
      let saved = save_warning is_location new_id v rows in
      let one = save_warning-Finds w v rows row h in
      and_others-Finds w row saved (save_warnings is_location new_id vs saved.1) one
        (save_warnings-Finds w vs saved.1 row one)

  -- The row of a saved warning.
  abbrev RowOf : WeatherWarning → Result ℕ × List OfficialWarningOrm → ℕ → Type 0
  RowOf w (result, rows) id = (row : OfficialWarningOrm) × (row.id ≡ id) × Finds w rows row

  row_if :
      (w : WeatherWarning) (rows : List OfficialWarningOrm) (id n : ℕ) (a b : Bool)
      → any (has_key w) rows ≡ b
      → let new : OfficialWarningOrm = record { id = new_id rows; location_id = n; warning = w } in
        let ran : Result ℕ × List OfficialWarningOrm =
          if a && (if b then false else true)
          then (ok (new_id rows), rows ++ (new ∷ []))
          else (raise integrity_error, rows) in
        ran.0 ≡ ok id → RowOf w ran id
  row_if w rows id n false b q h = cc
  row_if w rows id n true true q h = cc
  row_if w rows id n true false q h =
      let new : OfficialWarningOrm = record { id = new_id rows; location_id = n; warning = w } in
      (
        new,
        ok-injective h,
        ap scalar_one_or_none (select_new (has_key w) rows new q (same_key_refl w)),
      )

  inserted-RowOf :
      (w : WeatherWarning) (location_id : Option ℤ) (rows : List OfficialWarningOrm) (id : ℕ)
      → (inserted is_location new_id w location_id rows).0 ≡ ok id
      → RowOf w (inserted is_location new_id w location_id rows) id
  inserted-RowOf w none rows id h = cc
  inserted-RowOf w (some (ℤ.negsuc n)) rows id h = cc
  inserted-RowOf w (some (ℤ.pos n)) rows id h =
      row_if w rows id n (is_location n) (any (has_key w) rows) refl h

  id_of_row-RowOf :
      (w : WeatherWarning) (found : Result (Option OfficialWarningOrm))
      (rows : List OfficialWarningOrm) (id : ℕ)
      → scalar_one_or_none (select (has_key w) rows) ≡ found
      → (id_of_row is_location new_id w found rows).0 ≡ ok id
      → RowOf w (id_of_row is_location new_id w found rows) id
  unfolding parse_int
  id_of_row-RowOf w (raise e) rows id q h = cc
  id_of_row-RowOf w (ok (some r)) rows id q h = (r, ok-injective h, q)
  id_of_row-RowOf w (ok none) rows id q h = inserted-RowOf w (parse_int w.location_id) rows id h

  save_warning-RowOf :
      (w : WeatherWarning) (rows : List OfficialWarningOrm) (id : ℕ)
      → (save_warning is_location new_id w rows).0 ≡ ok id
      → RowOf w (save_warning is_location new_id w rows) id
  unfolding save_warning
  save_warning-RowOf w rows id h =
      id_of_row-RowOf w (scalar_one_or_none (select (has_key w) rows)) rows id refl h

  save_warning_found :
      (w : WeatherWarning) (rows : List OfficialWarningOrm) (row : OfficialWarningOrm)
      → Finds w rows row
      → save_warning is_location new_id w rows ≡ (ok row.id, rows)
  unfolding save_warning
  save_warning_found w rows row h = ap (λ f. id_of_row is_location new_id w f rows) h

  again_from :
      (w : WeatherWarning) (ws : List WeatherWarning) (saved : Result ℕ × List OfficialWarningOrm)
      (ids : List ℕ)
      → ((id : ℕ) → saved.0 ≡ ok id → RowOf w saved id)
      → let others = save_warnings is_location new_id ws saved.1 in
        ((rest : List ℕ)
          → others.0 ≡ ok rest
          → save_warnings is_location new_id ws others.1 ≡ (ok rest, others.1))
        → (and_others is_location new_id saved others).0 ≡ ok ids
        → save_warnings is_location new_id (w ∷ ws) (and_others is_location new_id saved others).1
          ≡ (ok ids, (and_others is_location new_id saved others).1)
  unfolding save_warnings
  again_from w ws (raise e, after) ids found again h = cc
  again_from w ws (ok id, after) ids found again h =
      let others = save_warnings is_location new_id ws after in
      elim (Result-cases others.0) [
        | inr (e, q) ↦ let refused = sym (ap (with_id is_location new_id id) q) ∙ h in cc
        | inl (rest, q) ↦
            let (row, same_id, one) = found id refl in
            let same = save_warning_found w others.1 row (save_warnings-Finds w ws after row one) in
            ap
              (λ saved.
                and_others is_location new_id saved (save_warnings is_location new_id ws saved.1))
              same
            ∙ ap (and_others is_location new_id (ok row.id, others.1)) (again rest q)
            ∙ ap (λ i. (ok (i ∷ rest), others.1)) same_id
            ∙ ap (λ r. (r, others.1)) (sym (ap (with_id is_location new_id id) q) ∙ h)
      ]

  -- Saving warnings that were saved returns the same keys and changes nothing.
  pub save_warnings_again :
      (ws : List WeatherWarning) (rows : List OfficialWarningOrm) (ids : List ℕ)
      → (save_warnings is_location new_id ws rows).0 ≡ ok ids
      → save_warnings is_location new_id ws (save_warnings is_location new_id ws rows).1
        ≡ (ok ids, (save_warnings is_location new_id ws rows).1)
  unfolding save_warnings
  save_warnings_again [] rows ids h = ap (λ r. (r, rows)) h
  save_warnings_again (w ∷ ws) rows ids h =
      let saved = save_warning is_location new_id w rows in
      again_from w ws saved ids (save_warning-RowOf w rows) (save_warnings_again ws saved.1) h
