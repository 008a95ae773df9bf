-- ===== src/Prelude/Lists/Rows.antt =====
-- How the statements on rows interact: a row that is looked for after an update or a delete, a
-- property of all rows, and unique constraints under updates.
use Prim.Native.Nat.{suc}
use mathlib.Core.Path.{◌≡◌, refl, ap}
use mathlib.Core.Logic.{inl, inr}
use mathlib.Core.Bool.{Bool, true, false, ◌&&◌, ◌||◌}
use mathlib.Core.Option.{some}
use mathlib.Core.List.{List, [], ◌∷◌, map}
use native.Mathlib.Omega.{arith}
use weather_agent.Prelude.Tests.{Bool-cases, is_some}
use weather_agent.Prelude.Outcome.{ok}
use weather_agent.Prelude.Lists.Order.{insert_sorted, sort_by}
use weather_agent.Prelude.Lists.Base.{
  length, take, head?, any, select, find, scalar_one_or_none, update_where, delete_where, All,
  Distinct,
}

module _ {ℓ} {A : Type ℓ} where
  pub find-update_where :
      (p : A → Bool) (f : A → A) (xs : List A) (x : A)
      → find p xs ≡ some x
      → ((y : A) → p y ≡ true → p (f y) ≡ true)
      → find p (update_where p f xs) ≡ some (f x)
  find-update_where p f [] x h k = cc
  find-update_where p f (y ∷ ys) x h k = ground (arith, k y, find-update_where p f ys x)

  -- A row that the update does not touch is found as before.
  pub find-update_where_other :
      (q p : A → Bool) (f : A → A) (xs : List A)
      → ((y : A) → p y ≡ true → (q y ≡ false) × (q (f y) ≡ false))
      → find q (update_where p f xs) ≡ find q xs
  find-update_where_other q p f [] k = refl
  find-update_where_other q p f (y ∷ ys) k = ground (arith, k y, find-update_where_other q p f ys k)

  pub find-delete_where_other :
      (q p : A → Bool) (xs : List A)
      → ((y : A) → p y ≡ true → q y ≡ false)
      → find q (delete_where p xs) ≡ find q xs
  find-delete_where_other q p [] k = refl
  find-delete_where_other q p (y ∷ ys) k = ground (arith, k y, find-delete_where_other q p ys k)

  pub any-update_where :
      (q p : A → Bool) (f : A → A) (xs : List A)
      → ((y : A) → q (f y) ≡ q y)
      → any q (update_where p f xs) ≡ any q xs
  any-update_where q p f [] k = refl
  any-update_where q p f (y ∷ ys) k = ground (arith, k y, any-update_where q p f ys k)

  any-same : (q r : A → Bool) (xs : List A) → ((y : A) → q y ≡ r y) → any q xs ≡ any r xs
  any-same q r [] k = refl
  any-same q r (y ∷ ys) k = ground (arith, k y, any-same q r ys k)

  -- An update that keeps the columns of a constraint keeps the constraint.
  pub Distinct-update_where :
      (same : A → A → Bool) (p : A → Bool) (f : A → A) (xs : List A)
      → ((x y : A) → same (f x) y ≡ same x y)
      → ((x y : A) → same x (f y) ≡ same x y)
      → Distinct same xs
      → Distinct same (update_where p f xs)
  Distinct-update_where same p f [] l r h = tt
  Distinct-update_where same p f (x ∷ xs) l r h = ground (
    arith,
    Distinct-update_where same p f xs l r h.1,
    any-update_where (same x) p f xs (r x),
    any-update_where (same (f x)) p f xs (r (f x)),
    any-same (same (f x)) (same x) xs (l x),
  )

module _ {ℓ κ} {A : Type ℓ} where
  pub All-update_where :
      (P : A → Type κ) (p : A → Bool) (f : A → A) (xs : List A)
      → ((x : A) → P x → P (f x))
      → All P xs
      → All P (update_where p f xs)
  All-update_where P p f [] k h = tt
  All-update_where P p f (x ∷ xs) k h = ground (arith, k x h.0, All-update_where P p f xs k h.1)

  All-insert_sorted :
      (P : A → Type κ) (before : A → A → Bool) (x : A) (xs : List A)
      → P x
      → All P xs
      → All P (insert_sorted before x xs)
  All-insert_sorted P before x [] hx h = (hx, tt)
  All-insert_sorted P before x (y ∷ ys) hx h = elim (Bool-cases (before x y)) [
    | inl e ↦ rw e (hx, h)
    | inr e ↦ rw e (h.0, All-insert_sorted P before x ys hx h.1)
  ]

  -- Sorting keeps what holds of every row.
  pub All-sort_by :
      (P : A → Type κ) (before : A → A → Bool) (xs : List A) → All P xs → All P (sort_by before xs)
  All-sort_by P before [] h = tt
  All-sort_by P before (x ∷ xs) h =
      All-insert_sorted P before x (sort_by before xs) h.0 (All-sort_by P before xs h.1)

module _ {ℓ κ μ} {A : Type ℓ} {B : Type κ} where
  pub All-map :
      (P : B → Type μ) (f : A → B) (xs : List A) → All (λ x. P (f x)) xs → All P (map f xs)
  All-map P f [] h = tt
  All-map P f (x ∷ xs) h = (h.0, All-map P f xs h.1)

  pub find-map :
      (p : B → Bool) (f : A → B) (xs : List A) (b : B)
      → find p (map f xs) ≡ some b
      → (a : A) × (find (λ x. p (f x)) xs ≡ some a) × (b ≡ f a)
  find-map p f [] b h = cc
  find-map p f (x ∷ xs) b h = elim (Bool-cases (p (f x))) [
    | inl e ↦ (x, rw e, ground arith)
    | inr e ↦ let (a, g, same) = find-map p f xs b (rw e at h) in (a, rw e g, same)
  ]

module _ {ℓ κ} {A : Type ℓ} where
  pub All-scalar :
      (P : A → Type κ) (xs : List A) (x : A) → All P xs → scalar_one_or_none xs ≡ ok (some x) → P x
  All-scalar P [] x h e = cc
  All-scalar P (y ∷ []) x h e = ground arith
  All-scalar P (y ∷ z ∷ ys) x h e = cc

  pub All-find :
      (P : A → Type κ) (p : A → Bool) (xs : List A) (x : A) → All P xs → find p xs ≡ some x → P x
  All-find P p [] x h e = cc
  All-find P p (y ∷ ys) x h e = ground (arith, All-find P p ys x h.1)

module _ {ℓ} {A : Type ℓ} where
  -- Whether a row passes a test, through sorting and selecting.
  any-insert_sorted :
      (q : A → Bool) (before : A → A → Bool) (x : A) (xs : List A)
      → any q (insert_sorted before x xs) ≡ (q x || any q xs)
  any-insert_sorted q before x [] = refl
  any-insert_sorted q before x (y ∷ ys) = ground (arith, any-insert_sorted q before x ys)

  pub any-sort_by :
      (q : A → Bool) (before : A → A → Bool) (xs : List A) → any q (sort_by before xs) ≡ any q xs
  any-sort_by q before [] = refl
  any-sort_by q before (x ∷ xs) =
      ground (arith, any-insert_sorted q before x (sort_by before xs), any-sort_by q before xs)

  pub any-select : (q p : A → Bool) (xs : List A) → any q (select p xs) ≡ any (λ x. p x && q x) xs
  any-select q p [] = refl
  any-select q p (x ∷ xs) = ground (arith, any-select q p xs)

  pub find-of_any : (p : A → Bool) (xs : List A) → any p xs ≡ true → (x : A) × (find p xs ≡ some x)
  find-of_any p [] h = cc
  find-of_any p (x ∷ xs) h = elim (Bool-cases (p x)) [
    | inl e ↦ (x, rw e)
    | inr e ↦ let (y, g) = find-of_any p xs (rw e at h) in (y, rw e g)
  ]

module _ {ℓ κ} {A : Type ℓ} {B : Type κ} where
  pub length-map : (f : A → B) (xs : List A) → length (map f xs) ≡ length xs
  length-map f [] = refl
  length-map f (x ∷ xs) = ap suc (length-map f xs)

  pub any-map : (q : B → Bool) (f : A → B) (xs : List A) → any q (map f xs) ≡ any (λ x. q (f x)) xs
  any-map q f [] = refl
  any-map q f (x ∷ xs) = ap (λ b. q (f x) || b) (any-map q f xs)

module _ {ℓ} {A : Type ℓ} where
  pub All-of_any : (p : A → Bool) (xs : List A) → any p xs ≡ false → All (λ x. p x ≡ false) xs
  All-of_any p [] h = tt
  All-of_any p (x ∷ xs) h = ground (arith, All-of_any p xs)

  pub any-of_All : (p : A → Bool) (xs : List A) → All (λ x. p x ≡ false) xs → any p xs ≡ false
  any-of_All p [] h = refl
  any-of_All p (x ∷ xs) h = ground (arith, any-of_All p xs h.1)

  is_some-insert_sorted :
      (before : A → A → Bool) (x : A) (xs : List A)
      → is_some (head? (insert_sorted before x xs)) ≡ true
  is_some-insert_sorted before x [] = refl
  is_some-insert_sorted before x (y ∷ ys) = ground arith

  -- The first row in an order is there exactly if a row passes.
  pub is_some-sort_by :
      (p : A → Bool) (before : A → A → Bool) (xs : List A)
      → is_some (head? (sort_by before (select p xs))) ≡ any p xs
  is_some-sort_by p before [] = refl
  is_some-sort_by p before (x ∷ xs) = elim (Bool-cases (p x)) [
    | inl e ↦ rw e (is_some-insert_sorted before x (sort_by before (select p xs)))
    | inr e ↦ rw e (is_some-sort_by p before xs)
  ]

  pub is_some-select : (p : A → Bool) (xs : List A) → is_some (head? (select p xs)) ≡ any p xs
  is_some-select p [] = refl
  is_some-select p (x ∷ xs) = ground (arith, is_some-select p xs)

  -- A statement with `.limit(1)` never has two rows.
  pub scalar_one_or_none-take : (xs : List A) → scalar_one_or_none (take 1 xs) ≡ ok (head? xs)
  scalar_one_or_none-take [] = refl
  scalar_one_or_none-take (x ∷ xs) = refl

  pub head?-select : (p : A → Bool) (xs : List A) → head? (select p xs) ≡ find p xs
  head?-select p [] = refl
  head?-select p (x ∷ xs) = ground (arith, head?-select p xs)

  -- A row that is written over the row that is found is found in its place.
  pub find-overwrite :
      (p q : A → Bool) (new : A) (xs : List A) (x : A)
      → find p xs ≡ some x
      → q x ≡ true
      → p new ≡ true
      → find p (update_where q (λ _. new) xs) ≡ some new
  find-overwrite p q new [] x h hq hp = cc
  find-overwrite p q new (y ∷ ys) x h hq hp = ground (arith, find-overwrite p q new ys x)

  pub any_mono :
      (p q : A → Bool) (xs : List A)
      → ((x : A) → p x ≡ true → q x ≡ true)
      → any q xs ≡ false
      → any p xs ≡ false
  any_mono p q [] k h = refl
  any_mono p q (x ∷ xs) k h = ground (arith, k x, any_mono p q xs k)

  pub find-of_found :
      (p q : A → Bool) (xs : List A) (x : A)
      → find p xs ≡ some x
      → q x ≡ true
      → (y : A) × (find q xs ≡ some y)
  find-of_found p q [] x h k = absurd (ground arith)
  find-of_found p q (y ∷ ys) x h k = elim (Bool-cases (q y)) [
    | inl e ↦ (y, rw e)
    | inr e ↦ let (z, f) = find-of_found p q ys x (ground arith) k in (z, rw e f)
  ]

  pub any-overwrite :
      (q p : A → Bool) (new : A) (xs : List A)
      → any q xs ≡ false
      → q new ≡ false
      → any q (update_where p (λ _. new) xs) ≡ false
  any-overwrite q p new [] h k = refl
  any-overwrite q p new (x ∷ xs) h k = ground (arith, any-overwrite q p new xs)

  pub update_where-of_none :
      (p : A → Bool) (f : A → A) (xs : List A) → any p xs ≡ false → update_where p f xs ≡ xs
  update_where-of_none p f [] h = refl
  update_where-of_none p f (x ∷ xs) h = ground (arith, update_where-of_none p f xs)

  -- A row passes the one test if it passes neither of two others.
  pub any-split :
      (p q r : A → Bool) (xs : List A)
      → ((x : A) → p x ≡ true → q x ≡ false → r x ≡ true)
      → any q xs ≡ false
      → any r xs ≡ false
      → any p xs ≡ false
  any-split p q r [] k hq hr = refl
  any-split p q r (x ∷ xs) k hq hr = ground (arith, k x, any-split p q r xs k)
