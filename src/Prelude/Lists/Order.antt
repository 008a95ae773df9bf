-- ===== src/Prelude/Lists/Order.antt =====
-- `order_by` on a numeric column: a stable insertion sort, ascending or descending.
use Prim.Native.Nat.{ℕ, ◌≤◌}
use mathlib.Core.Bool.{Bool}
use mathlib.Core.List.{List, [], ◌∷◌, Perm}
use mathlib.Core.List.Perm
use native.Mathlib.Omega.{arith}
use weather_agent.Prelude.Tests.{if◌then◌else◌, leb, Bool-cases}
use mathlib.Core.Logic.{inl, inr}

module _ {ℓ} {A : Type ℓ} (before : A → A → Bool) where
  abbrev pub insert_sorted : A → List A → List A
  insert_sorted x [] = x ∷ []
  insert_sorted x (y ∷ ys) =
      let rest = insert_sorted x ys in if before x y then x ∷ y ∷ ys else y ∷ rest

  abbrev pub sort_by : List A → List A
  sort_by [] = []
  sort_by (x ∷ xs) = insert_sorted x (sort_by xs)

  insert_sorted-perm : (x : A) (xs : List A) → Perm (insert_sorted x xs) (x ∷ xs)
  insert_sorted-perm x [] = Perm.refl (x ∷ [])
  insert_sorted-perm x (y ∷ ys) = elim (Bool-cases (before x y)) [
    | inl h ↦ rw h (Perm.refl (x ∷ y ∷ ys))
    | inr h ↦ rw h (Perm.trans (Perm.cons y (insert_sorted-perm x ys)) (Perm.swap x y ys))
  ]

  -- Sorting only reorders.
  pub sort_by-perm : (xs : List A) → Perm (sort_by xs) xs
  sort_by-perm [] = Perm.refl []
  sort_by-perm (x ∷ xs) =
      Perm.trans (insert_sorted-perm x (sort_by xs)) (Perm.cons x (sort_by-perm xs))

module _ {ℓ} {A : Type ℓ} (key : A → ℕ) where
  abbrev pub order_by : List A → List A
  order_by = sort_by (λ a b. leb (key a) (key b))

  abbrev pub order_by_desc : List A → List A
  order_by_desc = sort_by (λ a b. leb (key b) (key a))

  -- Each row's key is at most the next row's.
  abbrev pub IsOrdered : List A → Type 0
  IsOrdered [] = Unit
  IsOrdered (x ∷ []) = Unit
  IsOrdered (x ∷ y ∷ ys) = (key x ≤ key y) × IsOrdered (y ∷ ys)

  insert_sorted-IsOrdered :
      (x : A) (xs : List A)
      → IsOrdered xs
      → IsOrdered (insert_sorted (λ a b. leb (key a) (key b)) x xs)
  insert_sorted-IsOrdered x [] h = tt
  insert_sorted-IsOrdered x (y ∷ []) h = ground arith
  insert_sorted-IsOrdered x (y ∷ z ∷ zs) h = ground (arith, insert_sorted-IsOrdered x (z ∷ zs) h.1)

  pub order_by-IsOrdered : (xs : List A) → IsOrdered (order_by xs)
  order_by-IsOrdered [] = tt
  order_by-IsOrdered (x ∷ xs) = insert_sorted-IsOrdered x (order_by xs) (order_by-IsOrdered xs)
