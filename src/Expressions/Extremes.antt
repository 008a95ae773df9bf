-- ===== src/Expressions/Extremes.antt =====
-- What the aggregations and `clamp` promise.
use weather_agent.Prelude.{
  Bool, false, Bool-cases, inl, inr, List, [], ◌∷◌, String, Result, ok, ◌≡◌, refl, arith, All,
  if◌then◌else◌,
}
use weather_agent.Expressions.Numbers.{Numbers, IsOrder}
use weather_agent.Expressions.Ranges.{TimeRange, Clock}
use weather_agent.Expressions.Metrics.{
  Point, least, greatest, clamp, min_metric, max_metric, metric_values,
}

module _ (n : Numbers) (clock : Clock) (order : IsOrder n) where
  open n use {F, lt}

  -- A value that is clamped to a range that is not empty lies in it.
  pub clamp_bounds :
      (value min_value max_value : F)
      → lt max_value min_value ≡ false
      → (lt (clamp n clock value min_value max_value) min_value ≡ false)
        × (lt max_value (clamp n clock value min_value max_value) ≡ false)
  unfolding clamp
  clamp_bounds value min_value max_value h = ground (
    arith,
    order.irreflexive min_value,
    order.irreflexive max_value,
    order.asymmetric min_value value,
    order.asymmetric min_value max_value,
    order.asymmetric value max_value,
  )

  least_le : (a : F) (xs : List F) (b : F) → lt b a ≡ false → lt b (least n clock a xs) ≡ false
  least_le a [] b h = h
  least_le a (x ∷ xs) b h = elim (Bool-cases (lt x a)) [
    | inl e ↦ rw e (least_le x xs b (order.transitive x a b (order.asymmetric x a e) h))
    | inr e ↦ rw e (least_le a xs b h)
  ]

  smaller : (x a : F) → lt x (if lt x a then x else a) ≡ false
  smaller x a = elim (Bool-cases (lt x a)) [ inl e ↦ rw e (order.irreflexive x) | inr e ↦ rw e e ]

  least_all : (a : F) (xs : List F) → All (λ x. lt x (least n clock a xs) ≡ false) xs
  least_all a [] = tt
  least_all a (x ∷ xs) =
      let next = if lt x a then x else a in (least_le next xs x (smaller x a), least_all next xs)

  greatest_le :
      (a : F) (xs : List F) (b : F) → lt a b ≡ false → lt (greatest n clock a xs) b ≡ false
  greatest_le a [] b h = h
  greatest_le a (x ∷ xs) b h = elim (Bool-cases (lt a x)) [
    | inl e ↦ rw e (greatest_le x xs b (order.transitive b a x h (order.asymmetric a x e)))
    | inr e ↦ rw e (greatest_le a xs b h)
  ]

  larger : (x a : F) → lt (if lt a x then x else a) x ≡ false
  larger x a = elim (Bool-cases (lt a x)) [ inl e ↦ rw e (order.irreflexive x) | inr e ↦ rw e e ]

  greatest_all : (a : F) (xs : List F) → All (λ x. lt (greatest n clock a xs) x ≡ false) xs
  greatest_all a [] = tt
  greatest_all a (x ∷ xs) =
      let next = if lt a x then x else a in
      (greatest_le next xs x (larger x a), greatest_all next xs)

  module _ (points previous_points : List (Point n clock)) (validation_mode : Bool) where
    -- Two results that bound every value, or the same result for no value.
    abbrev pub Bounds : Result F → Result F → List F → Type 0
    Bounds (ok low) (ok high) values = All (λ v. (lt v low ≡ false) × (lt high v ≡ false)) values
    Bounds low high values = (values ≡ []) × (low ≡ high)

    both : (P Q : F → Type 0) (xs : List F) → All P xs → All Q xs → All (λ x. P x × Q x) xs
    both P Q [] p q = tt
    both P Q (x ∷ xs) p q = ((p.0, q.0), both P Q xs p.1 q.1)

    -- Where a metric has values in a range, `min_metric` and `max_metric` return bounds of every one of
    -- them, the lower and the upper one; where it has none, both end in the same way.
    pub min_metric-max_metric :
        (key : String) (range : TimeRange) (values : List F)
        → metric_values n clock points previous_points validation_mode key range ≡ ok values
        → Bounds
            (min_metric n clock points previous_points validation_mode key range)
            (max_metric n clock points previous_points validation_mode key range)
            values
    unfolding min_metric max_metric
    min_metric-max_metric key range [] h = rw h (refl, refl)
    min_metric-max_metric key range (x ∷ xs) h = rw h (
      (least_le x xs x (order.irreflexive x), greatest_le x xs x (order.irreflexive x)),
      both _ _ xs (least_all x xs) (greatest_all x xs),
    )
