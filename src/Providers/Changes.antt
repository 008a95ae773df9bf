-- ===== src/Providers/Changes.antt =====
-- Which changes between two snapshots are significant.
use weather_agent.Prelude.{
  ◌≢◌, sym, All, ==_iff, ==_refl, true, Bool, false, ◌&&◌, ◌||◌, Option, none, some, List, [], ◌∷◌,
  ◌++◌, String, ◌≡◌, refl, ap, ◌∙◌, arith, any, any-map,
}
use weather_agent.Time.{DateTime, naive, aware}
use weather_agent.Expressions.Numbers.{Numbers}
use weather_agent.Providers.Comparison.{
  ForecastPoint, SnapshotDelta, numeric_fields, point_at, delta_of, deltas_at, all_deltas,
  compare_snapshots, detect_significant_changes, exceeds, significant, threshold_of, same_time,
  or_this,
}

-- The point of a time in a list: the last one that has it, or none if none has it.
pub data LastAt (n : Numbers) (time : DateTime) (points : List (ForecastPoint n))
    : Option (ForecastPoint n) → Type 0 where
  none_at : All (λ p. p.target_time ≢ time) points → LastAt n time points none
  last_at :
      (before : List (ForecastPoint n)) (point : ForecastPoint n) (after : List (ForecastPoint n))
      → points ≡ before ++ point ∷ after
      → point.target_time ≡ time
      → All (λ p. p.target_time ≢ time) after
      → LastAt n time points (some point)

same_time_sound : (a b : DateTime) → same_time a b ≡ true → a ≡ b
same_time_sound (naive a) (naive b) h = ap naive ((==_iff a b).0 h)
same_time_sound (aware a) (aware b) h = ap aware ((==_iff a b).0 h)
same_time_sound (naive a) (aware b) h = cc
same_time_sound (aware a) (naive b) h = cc

same_time_refl : (a : DateTime) → same_time a a ≡ true
same_time_refl (naive a) = ==_refl a
same_time_refl (aware a) = ==_refl a

same_time_complete : (a b : DateTime) → same_time a b ≡ false → a ≢ b
same_time_complete a b h e =
    let differs : same_time a b ≡ true = ap (λ t. same_time a t) (sym e) ∙ same_time_refl a in cc

added :
    (n : Numbers) (time : DateTime) (p : ForecastPoint n) (ps : List (ForecastPoint n))
    (found : Option (ForecastPoint n)) (same : Bool)
    → same_time p.target_time time ≡ same
    → LastAt n time ps found
    → LastAt n time (p ∷ ps) (or_this n found same p)
added n time p ps (some later) same e (last_at before point after split at none_after) =
    last_at (p ∷ before) point after (ap (λ qs. p ∷ qs) split) at none_after
added n time p ps none true e (none_at h) =
    last_at [] p ps refl (same_time_sound p.target_time time e) h
added n time p ps none false e (none_at h) = none_at (same_time_complete p.target_time time e, h)

point_at-LastAt :
    (n : Numbers) (time : DateTime) (points : List (ForecastPoint n))
    → LastAt n time points (point_at n time points)
unfolding point_at
point_at-LastAt n time [] = none_at tt
point_at-LastAt n time (p ∷ ps) =
    added n time p ps (point_at n time ps) (same_time p.target_time time) refl
      (point_at-LastAt n time ps)

module _ (n : Numbers) (thresholds : List (String × n.F)) where
  -- A metric moved by more than its threshold between two points.
  abbrev pub moved : ForecastPoint n → ForecastPoint n → String → Bool
  moved current previous metric = elim (threshold_of n metric thresholds) [
    | none ↦ false
    | some threshold ↦ elim (previous.value_of metric) [
      | none ↦ false
      | some before ↦ elim (current.value_of metric) [
        | none ↦ false
        | some after ↦ n.lt threshold (n.abs (n.sub after before))
      ]
    ]
  ]

  moved-exceeds :
      (current previous : ForecastPoint n) (metric : String)
      → exceeds n (threshold_of n metric thresholds) (delta_of n current previous metric).abs_delta
        ≡ moved current previous metric
  moved-exceeds current previous metric = ground arith

  -- One of the metrics, and its change satisfies the predicate.
  abbrev pub some_moved :
      (SnapshotDelta n → Bool) → ForecastPoint n → Option (ForecastPoint n) → Bool
  some_moved p current none = false
  some_moved p current (some previous) =
      any (λ m. moved current previous m && p (delta_of n current previous m)) numeric_fields

  any-significant :
      (p : SnapshotDelta n → Bool) (ds : List (SnapshotDelta n))
      → any p (significant n thresholds ds)
        ≡ any (λ d. exceeds n (threshold_of n d.metric thresholds) d.abs_delta && p d) ds
  any-significant p [] = refl
  any-significant p (d ∷ ds) = ground (arith, any-significant p ds)

  any_append :
      {A : Type 0} (p : A → Bool) (xs ys : List A) → any p (xs ++ ys) ≡ (any p xs || any p ys)
  any_append p [] ys = refl
  any_append p (x ∷ xs) ys = ground (arith, any_append p xs ys)

  any_pred :
      {A : Type 0} (p q : A → Bool) (xs : List A) → ((x : A) → p x ≡ q x) → any p xs ≡ any q xs
  any_pred p q [] k = refl
  any_pred p q (x ∷ xs) k = ground (arith, k x, any_pred p q xs k)

  -- A delta that is significant and satisfies the predicate.
  abbrev chosen : (SnapshotDelta n → Bool) → SnapshotDelta n → Bool
  chosen p d = exceeds n (threshold_of n d.metric thresholds) d.abs_delta && p d

  any-deltas_at :
      (p : SnapshotDelta n → Bool) (c : ForecastPoint n) (found : Option (ForecastPoint n))
      → any (chosen p) (deltas_at n c found) ≡ some_moved p c found
  any-deltas_at p c none = refl
  any-deltas_at p c (some previous) =
      any-map (chosen p) (delta_of n c previous) numeric_fields
      ∙ any_pred (λ m. chosen p (delta_of n c previous m))
          (λ m. moved c previous m && p (delta_of n c previous m)) numeric_fields
          (λ m. ap (λ b. b && p (delta_of n c previous m)) (moved-exceeds c previous m))

  any-all_deltas :
      (p : SnapshotDelta n → Bool) (current previous : List (ForecastPoint n))
      → any (chosen p) (all_deltas n current previous)
        ≡ any (λ c. some_moved p c (point_at n c.target_time previous)) current
  unfolding point_at
  any-all_deltas p [] previous = refl
  any-all_deltas p (c ∷ current) previous =
      any_append (chosen p) (deltas_at n c (point_at n c.target_time previous))
        (all_deltas n current previous)
      ∙ ap (λ b. b || any (chosen p) (all_deltas n current previous))
          (any-deltas_at p c (point_at n c.target_time previous))
      ∙ ap (λ b. some_moved p c (point_at n c.target_time previous) || b)
          (any-all_deltas p current previous)

  -- Among the significant changes is one with a property exactly if, at the time of some current point,
  -- the last of the previous points of that time differs from it in one of the numeric metrics by more
  -- than the threshold of the metric, and the change has the property.
  pub detect_significant_changes-compare_snapshots :
      (now : DateTime) (current previous : List (ForecastPoint n))
      → (previous_point : DateTime → Option (ForecastPoint n)) × ((time : DateTime)
          → LastAt n time previous (previous_point time))
        × ((p : SnapshotDelta n → Bool)
            → any p
                (detect_significant_changes n (compare_snapshots n now current previous) thresholds)
              ≡ any (λ c. some_moved p c (previous_point c.target_time)) current)
  unfolding detect_significant_changes compare_snapshots point_at
  detect_significant_changes-compare_snapshots now current previous = (
    λ time. point_at n time previous,
    λ time. point_at-LastAt n time previous,
    λ p. any-significant p (all_deltas n current previous) ∙ any-all_deltas p current previous,
  )
