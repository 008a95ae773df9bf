-- ===== src/Prelude/Outcome.antt =====
-- Exceptions as values, and actions on a state. What was written before a raise stays written, so
-- an action returns the state beside the error too.
use mathlib.Core.Path.{◌≡◌, refl}
use mathlib.Core.Logic.{◌⊎◌, inl, inr}
use Prim.Native.Nat.{ℕ}
use Prim.Native.String.{String}

pub data Error : Type 0 where
  integrity_error stale_data multiple_results_found short_id_collision value_error event_not_found :
      Error
  no_result_found overflow_error : Error
  rule_not_found unauthorized location_not_found : ℕ → Error
  expression_validation : String → String → Error
  name_conflict alias_conflict : String → ℕ → Error
  failure : String → Error

pub data Result {ℓ} (A : Type ℓ) : Type ℓ where
  ok : A → Result A
  raise : Error → Result A

pub ok-injective {ℓ} : {A : Type ℓ} {a b : A} → ok a ≡ ok b → a ≡ b
ok-injective h = cc

pub Result-cases {ℓ} :
    {A : Type ℓ} (r : Result A) → ((a : A) × (r ≡ ok a)) ⊎ ((e : Error) × (r ≡ raise e))
Result-cases (ok a) = inl (a, refl)
Result-cases (raise e) = inr (e, refl)

abbrev pub Action {ℓ} : Type ℓ → Type ℓ → Type ℓ
Action S A = S → Result A × S

-- What raises ends the method; what it wrote stays.
abbrev pub and_then {ℓ} : {S A B : Type ℓ} → Result A × S → (A → Action S B) → Result B × S
and_then (raise e, s) rest = (raise e, s)
and_then (ok a, s) rest = rest a s
