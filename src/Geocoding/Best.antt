-- ===== src/Geocoding/Best.antt =====
-- What the choice of a candidate promises.
use weather_agent.Prelude.{
  Bool, true, false, Bool-cases, inl, inr, Option, none, some, is_some, List, [], ◌∷◌, String, ◌≡◌,
  refl, arith, select, All, if◌then◌else◌, select-All, ◌⊎◌, strip,
}
use weather_agent.Polish.{Unicode}
use weather_agent.Expressions.Numbers.{Numbers, IsOrder}
use weather_agent.Geocoding.Candidates.{Candidate}
use weather_agent.Geocoding.Score.{
  Readers, LocationRef, query_tokens, float_field, is_polish_candidate, match_score, score_at,
  ref_at, candidate_score, candidate_to_location_ref, is_usable, best_from, best_ref,
  select_best_candidate,
}

module _ (n : Numbers) (order : IsOrder n) (unicode : Unicode) (readers : Readers n.F) where
  open n use {F, lt, of_nat}

  -- The candidate has coordinates if its score is positive.
  located :
      (c : Candidate) (polish : Bool) (lat lon : Option F) (score : F)
      → lt (of_nat 0) (score_at n unicode readers polish lat lon score) ≡ true
      → is_some (ref_at n unicode readers c lat lon) ≡ true
  unfolding strip
  located c true (some lat) (some lon) score h = refl
  located c true (some lat) none score h = ground (arith, order.irreflexive (of_nat 0))
  located c true none lon score h = ground (arith, order.irreflexive (of_nat 0))
  located c false lat lon score h = ground (arith, order.irreflexive (of_nat 0))

  usable_located :
      (tokens : List String) (c : Candidate)
      → is_usable n unicode readers tokens c ≡ true
      → is_some (candidate_to_location_ref n unicode readers c) ≡ true
  unfolding candidate_to_location_ref candidate_score
  usable_located tokens c h =
      located c (is_polish_candidate n unicode readers c) (float_field n unicode readers c "lat")
        (float_field n unicode readers c "lon") (match_score n unicode readers c tokens) h

  module _ (tokens : List String) where
    best_from-All :
        (P : Candidate → Type 0) (b : Candidate) (cs : List Candidate)
        → P b
        → All P cs
        → P (best_from n unicode readers tokens b cs)
    unfolding best_from
    best_from-All P b [] h k = h
    best_from-All P b (c ∷ cs) h k =
        elim (Bool-cases (
          lt (candidate_score n unicode readers b tokens)
            (candidate_score n unicode readers c tokens))) [
              | inl e ↦ rw e (best_from-All P c cs k.0 k.1)
              | inr e ↦ rw e (best_from-All P b cs h k.1)
            ]

    -- No candidate has a higher score than this one.
    abbrev pub NotBelow : Candidate → Candidate → Type 0
    NotBelow c d =
        lt (candidate_score n unicode readers c tokens) (candidate_score n unicode readers d tokens)
        ≡ false

    best_from-NotBelow :
        (b : Candidate) (cs : List Candidate) (d : Candidate)
        → NotBelow b d
        → NotBelow (best_from n unicode readers tokens b cs) d
    unfolding best_from
    best_from-NotBelow b [] d h = h
    best_from-NotBelow b (c ∷ cs) d h =
        let score = λ (x : Candidate). candidate_score n unicode readers x tokens in
        elim (Bool-cases (lt (score b) (score c))) [
          | inl e ↦ rw e (
              best_from-NotBelow c cs d (
                order.transitive (score d) (score b) (score c) h
                  (order.asymmetric (score b) (score c) e)))
          | inr e ↦ rw e (best_from-NotBelow b cs d h)
        ]

    better :
        (b c : Candidate)
        → NotBelow
            (if lt
                (candidate_score n unicode readers b tokens)
                (candidate_score n unicode readers c tokens)
              then c
              else b)
            c
    better b c =
        elim (Bool-cases (
          lt (candidate_score n unicode readers b tokens)
            (candidate_score n unicode readers c tokens))) [
              | inl e ↦ rw e (order.irreflexive (candidate_score n unicode readers c tokens))
              | inr e ↦ rw e e
            ]

    best_from-all :
        (b : Candidate) (cs : List Candidate)
        → All (NotBelow (best_from n unicode readers tokens b cs)) cs
    unfolding best_from
    best_from-all b [] = tt
    best_from-all b (c ∷ cs) =
        let next =
          if lt (candidate_score n unicode readers b tokens)
            (candidate_score n unicode readers c tokens)
          then c
          else b in
        (best_from-NotBelow next cs c (better b c), best_from-all next cs)

    -- There is no candidate and no location; or there is a location, which is made of one of the
    -- candidates, and none of them has a higher score than that one.
    abbrev pub Chosen : List Candidate → Option (LocationRef n unicode readers) → Type 0
    Chosen candidates found =
        ((candidates ≡ []) × (found ≡ none))
        ⊎ ((c : Candidate) × ((p : Candidate → Bool)
              → All (λ d. p d ≡ true) candidates
              → p c ≡ true)
            × All (NotBelow c) candidates
            × (found ≡ candidate_to_location_ref n unicode readers c)
            × (is_some found ≡ true))

    best_ref-Chosen :
        (us : List Candidate)
        → All (λ c. is_usable n unicode readers tokens c ≡ true) us
        → Chosen us (best_ref n unicode readers tokens us)
    unfolding best_from candidate_to_location_ref
    best_ref-Chosen [] h = inl (refl, refl)
    best_ref-Chosen (c ∷ cs) h =
        let best = best_from n unicode readers tokens c cs in
        inr (
          best,
          λ p all. best_from-All (λ d. p d ≡ true) c cs all.0 all.1,
          (
            best_from-NotBelow c cs c
                (order.irreflexive (candidate_score n unicode readers c tokens)),
            best_from-all c cs,
          ),
          refl,
          usable_located tokens best
              (best_from-All (λ d. is_usable n unicode readers tokens d ≡ true) c cs h.0 h.1),
        )

  -- The choice among the candidates is none if no candidate has a positive score; otherwise it is a
  -- location, which is made of a candidate with the highest score.
  pub select_best_candidate-Chosen :
      (query : String) (candidates : List Candidate)
      → let tokens = query_tokens n unicode readers query in
        Chosen tokens
          (select (is_usable n unicode readers tokens) candidates)
          (select_best_candidate n unicode readers query candidates)
  unfolding select_best_candidate
  select_best_candidate-Chosen query candidates =
      let tokens = query_tokens n unicode readers query in
      best_ref-Chosen tokens (select (is_usable n unicode readers tokens) candidates)
        (select-All (is_usable n unicode readers tokens) candidates)
