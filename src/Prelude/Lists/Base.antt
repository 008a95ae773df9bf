-- ===== src/Prelude/Lists/Base.antt =====
-- Rows of a table as a list: what `select`, `update` and `delete` statements do to them.
use Prim.Native.Nat.{ℕ, zero, suc, ◌+◌, ◌-◌}
use mathlib.Core.Path.{◌≡◌, refl}
use mathlib.Core.Bool.{Bool, true, false, ◌||◌}
use mathlib.Core.Option.{Option, none, some}
use mathlib.Core.List.{List, [], ◌∷◌}
use native.Mathlib.Omega.{arith}
use weather_agent.Prelude.Tests.{if◌then◌else◌}
use weather_agent.Prelude.Outcome.{Result, ok, raise, multiple_results_found, no_result_found}

module _ {ℓ} {A : Type ℓ} where
  abbrev pub length : List A → ℕ
  length [] = 0
  length (x ∷ xs) = suc (length xs)

  abbrev pub take : ℕ → List A → List A
  take zero xs = []
  take (suc n) [] = []
  take (suc n) (x ∷ xs) = x ∷ take n xs

  abbrev pub drop : ℕ → List A → List A
  drop zero xs = xs
  drop (suc n) [] = []
  drop (suc n) (x ∷ xs) = drop n xs

  -- `xs[-n:]`
  abbrev pub take_last : ℕ → List A → List A
  take_last n xs = drop (length xs - n) xs

  abbrev pub head? : List A → Option A
  head? [] = none
  head? (x ∷ xs) = some x

  abbrev pub last? : List A → Option A
  last? [] = none
  last? (x ∷ []) = some x
  last? (x ∷ y ∷ xs) = last? (y ∷ xs)

  abbrev pub any : (A → Bool) → List A → Bool
  any p [] = false
  any p (x ∷ xs) = p x || any p xs

  -- The rows for which the `where` clause is true.
  abbrev pub select : (A → Bool) → List A → List A
  select p [] = []
  select p (x ∷ xs) = let rest = select p xs in if p x then x ∷ rest else rest

  abbrev pub delete_where : (A → Bool) → List A → List A
  delete_where p [] = []
  delete_where p (x ∷ xs) = let rest = delete_where p xs in if p x then rest else x ∷ rest

  abbrev pub update_where : (A → Bool) → (A → A) → List A → List A
  update_where p f [] = []
  update_where p f (x ∷ xs) = (if p x then f x else x) ∷ update_where p f xs

  -- The first row for which the test is true: `session.get` by a primary key, `next(…, None)`.
  abbrev pub find : (A → Bool) → List A → Option A
  find p [] = none
  find p (x ∷ xs) = let rest = find p xs in if p x then some x else rest

  -- `scalar_one` raises where the statement has no row, or more than one.
  abbrev pub scalar_one : List A → Result A
  scalar_one [] = raise no_result_found
  scalar_one (x ∷ []) = ok x
  scalar_one (x ∷ y ∷ xs) = raise multiple_results_found

  -- `scalar_one_or_none` raises where the statement has more than one row.
  abbrev pub scalar_one_or_none : List A → Result (Option A)
  scalar_one_or_none [] = ok none
  scalar_one_or_none (x ∷ []) = ok (some x)
  scalar_one_or_none (x ∷ y ∷ xs) = raise multiple_results_found

module _ {ℓ κ} {A : Type ℓ} where
  abbrev pub All : (A → Type κ) → List A → Type κ
  All P [] = Unit
  All P (x ∷ xs) = P x × All P xs

  pub All-map_pred : (P Q : A → Type κ) (xs : List A) → ((x : A) → P x → Q x) → All P xs → All Q xs
  All-map_pred P Q [] f h = tt
  All-map_pred P Q (x ∷ xs) f h = (f x h.0, All-map_pred P Q xs f h.1)

  pub All-select : (P : A → Type κ) (p : A → Bool) (xs : List A) → All P xs → All P (select p xs)
  All-select P p [] h = tt
  All-select P p (x ∷ xs) h = ground (arith, All-select P p xs h.1)

  pub All-delete_where :
      (P : A → Type κ) (p : A → Bool) (xs : List A) → All P xs → All P (delete_where p xs)
  All-delete_where P p [] h = tt
  All-delete_where P p (x ∷ xs) h = ground (arith, All-delete_where P p xs h.1)

module _ {ℓ} {A : Type ℓ} where
  pub select-All : (p : A → Bool) (xs : List A) → All (λ x. p x ≡ true) (select p xs)
  select-All p [] = tt
  select-All p (x ∷ xs) = ground (arith, select-All p xs)

  pub find-true : (p : A → Bool) (xs : List A) (x : A) → find p xs ≡ some x → p x ≡ true
  find-true p [] x h = cc
  find-true p (y ∷ ys) x h = ground (arith, find-true p ys x)

  pub find-eq-none : (p : A → Bool) (xs : List A) → any p xs ≡ false → find p xs ≡ none
  find-eq-none p [] h = refl
  find-eq-none p (x ∷ xs) h = ground (arith, find-eq-none p xs)

  pub any-of_find : (p : A → Bool) (xs : List A) → find p xs ≡ none → any p xs ≡ false
  any-of_find p [] h = refl
  any-of_find p (x ∷ xs) h = ground (arith, any-of_find p xs)

  pub select-nil : (p : A → Bool) (xs : List A) → any p xs ≡ false → select p xs ≡ []
  select-nil p [] h = refl
  select-nil p (x ∷ xs) h = ground (arith, select-nil p xs)

  pub any-of_select : (p : A → Bool) (xs : List A) → select p xs ≡ [] → any p xs ≡ false
  any-of_select p [] h = refl
  any-of_select p (x ∷ xs) h = ground (arith, any-of_select p xs)

  -- Nothing that a `delete` was to take is left.
  pub any-delete_where : (p : A → Bool) (xs : List A) → any p (delete_where p xs) ≡ false
  any-delete_where p [] = refl
  any-delete_where p (x ∷ xs) = ground (arith, any-delete_where p xs)

  pub any-delete_where_le :
      (q p : A → Bool) (xs : List A) → any q xs ≡ false → any q (delete_where p xs) ≡ false
  any-delete_where_le q p [] h = refl
  any-delete_where_le q p (x ∷ xs) h = ground (arith, any-delete_where_le q p xs)

  pub delete_where-of_none :
      (p : A → Bool) (xs : List A) → any p xs ≡ false → delete_where p xs ≡ xs
  delete_where-of_none p [] h = refl
  delete_where-of_none p (x ∷ xs) h = ground (arith, delete_where-of_none p xs)

  -- The rows that a `delete` takes and the rows that it leaves are all rows.
  pub length-select-delete_where :
      (p : A → Bool) (xs : List A) → length (select p xs) + length (delete_where p xs) ≡ length xs
  length-select-delete_where p [] = omega arith
  length-select-delete_where p (x ∷ xs) = ground (arith, length-select-delete_where p xs)

  -- No two rows stand in the relation: a unique constraint.
  abbrev pub Distinct : (A → A → Bool) → List A → Type 0
  Distinct same [] = Unit
  Distinct same (x ∷ xs) = (any (same x) xs ≡ false) × Distinct same xs

  pub Distinct-delete_where :
      (same : A → A → Bool) (p : A → Bool) (xs : List A)
      → Distinct same xs
      → Distinct same (delete_where p xs)
  Distinct-delete_where same p [] h = tt
  Distinct-delete_where same p (x ∷ xs) h =
      ground (arith, Distinct-delete_where same p xs h.1, any-delete_where_le (same x) p xs h.0)
