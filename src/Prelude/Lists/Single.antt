-- ===== src/Prelude/Lists/Single.antt =====
-- Statements that find one row at most, by a unique constraint.
use mathlib.Core.Path.{◌≡◌, refl, ap, ◌∙◌}
use mathlib.Core.Bool.{Bool, true, false}
use mathlib.Core.Option.{some}
use mathlib.Core.List.{List, [], ◌∷◌, map}
use native.Mathlib.Omega.{arith}
use weather_agent.Prelude.Outcome.{ok}
use weather_agent.Prelude.Lists.Base.{
  any, select, select-nil, find, scalar_one_or_none, update_where, Distinct,
}

module _ {ℓ} {A : Type ℓ} where
  select-two :
      (p : A → Bool) (same : A → A → Bool) (x : A) (xs : List A)
      → ((y : A) → p x ≡ true → p y ≡ true → same x y ≡ true)
      → p x ≡ true
      → any (same x) xs ≡ false
      → any p xs ≡ false
  select-two p same x [] k px h = refl
  select-two p same x (y ∷ ys) k px h = ground (arith, k y, select-two p same x ys k px)

  -- Where a unique constraint allows one row at most, `scalar_one_or_none` returns it.
  pub scalar-select :
      (p : A → Bool) (same : A → A → Bool) (xs : List A)
      → ((x y : A) → p x ≡ true → p y ≡ true → same x y ≡ true)
      → Distinct same xs
      → scalar_one_or_none (select p xs) ≡ ok (find p xs)
  scalar-select p same [] k h = refl
  scalar-select p same (x ∷ xs) k h =
      ground (arith, select-two p same x xs (k x), select-nil p xs, scalar-select p same xs k h.1)

  select-update_where :
      (p : A → Bool) (f : A → A) (xs : List A)
      → ((x : A) → p x ≡ true → p (f x) ≡ true)
      → select p (update_where p f xs) ≡ map f (select p xs)
  select-update_where p f [] k = refl
  select-update_where p f (x ∷ xs) k = ground (arith, k x, select-update_where p f xs k)

  scalar-map :
      (f : A → A) (xs : List A) (x : A)
      → scalar_one_or_none xs ≡ ok (some x)
      → scalar_one_or_none (map f xs) ≡ ok (some (f x))
  scalar-map f [] x h = ground arith
  scalar-map f (y ∷ []) x h = ground arith
  scalar-map f (y ∷ z ∷ xs) x h = ground arith

  pub scalar-update_where :
      (p : A → Bool) (f : A → A) (xs : List A) (x : A)
      → ((y : A) → p y ≡ true → p (f y) ≡ true)
      → scalar_one_or_none (select p xs) ≡ ok (some x)
      → scalar_one_or_none (select p (update_where p f xs)) ≡ ok (some (f x))
  scalar-update_where p f xs x k h =
      ap scalar_one_or_none (select-update_where p f xs k) ∙ scalar-map f (select p xs) x h
