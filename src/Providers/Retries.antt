-- ===== src/Providers/Retries.antt =====
-- The retries end.
use weather_agent.Prelude.{
  ℕ, zero, suc, ◌+◌, ◌-◌, ◌≤◌, ◌<◌, ◌≡◌, arith, true, List, [], ◌∷◌, String, Bool-cases, inl, inr,
}
use weather_agent.Providers.Request.{HttpOutcome, make_request, is_transient, request_with_retry}

abbrev pub total : List ℕ → ℕ
total [] = 0
total (n ∷ ns) = n + total ns

-- Every one of the first attempts failed in a way that may pass.
abbrev pub AllTransient : String → (ℕ → HttpOutcome) → ℕ → Type 0
AllTransient provider outcomes zero = Unit
AllTransient provider outcomes (suc n) =
    (is_transient (make_request provider (outcomes n)) ≡ true) × AllTransient provider outcomes n

-- A request ends after one to three attempts and at most a second and a half of sleep, with what the
-- last attempt brought; those before it failed in a way that may pass, and so did all three if it
-- ends with such an error.
pub request_with_retry_ends :
    (provider : String) (outcomes : ℕ → HttpOutcome)
    → let run = request_with_retry provider outcomes in
      (0 < run.attempts)
      × (run.attempts ≤ 3)
      × (total run.sleeps ≤ 1500)
      × (run.reply ≡ make_request provider (outcomes (run.attempts - 1)))
      × AllTransient provider outcomes (run.attempts - 1)
      × (is_transient run.reply ≡ true → run.attempts ≡ 3)
unfolding request_with_retry
request_with_retry_ends provider outcomes =
    elim (Bool-cases (is_transient (make_request provider (outcomes 0)))) [
      | inr a ↦ rw a ground arith
      | inl a ↦ elim (Bool-cases (is_transient (make_request provider (outcomes 1)))) [
        | inr b ↦ rw (a, b) ground arith
        | inl b ↦ elim (Bool-cases (is_transient (make_request provider (outcomes 2)))) [
          | inr c ↦ rw (a, b, c) ground arith
          | inl c ↦ rw (a, b, c) ground arith
        ]
      ]
    ]
