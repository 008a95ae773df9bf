-- ===== src/ShortId.antt =====
-- domain/rules/short_id_generator.py, and the search for an unused id that the rule service and the
-- event service share. `random.choices` is a parameter: the text that the n-th call returns.
use Prim.Native.String.{◌++◌}
use mathlib.Core.Path.{subst}
use Prim.Native.Char.{code}
use weather_agent.Prelude.{
  ℕ, zero, suc, ◌+◌, ◌≡◌, refl, ◌||◌, Bool, true, false, Option, List, [], ◌∷◌, String,
  short_id_collision, value_error, Result, ok, ok-injective, raise, ltb, ◌==◌, str_eq,
  if◌then◌else◌, any, select, scalar_one_or_none, lstrip_hash, is_some, any-of_select,
}

-- The letters and digits that are not one of `0 O 1 I L`.
is_ambiguous : ℕ → Bool
is_ambiguous c = c == b'0' || c == b'O' || c == b'1' || c == b'I' || c == b'L'

remove_ambiguous : String → String
unfolding is_ambiguous
remove_ambiguous String.[] = String.[]
remove_ambiguous (String.◌∷◌ c s) =
    let rest = remove_ambiguous s in if is_ambiguous (code c) then rest else String.◌∷◌ c rest

unfoldable pub alphabet_no_ambiguous : String
unfolding remove_ambiguous
alphabet_no_ambiguous = remove_ambiguous ("0123456789" ++ "ABCDEFGHIJKLMNOPQRSTUVWXYZ")

-- `random.choices(alphabet, k=length)`, joined, at the n-th call.
abbrev pub Choices : Type 0
Choices = String → ℕ → ℕ → String

unfoldable pub generate_short_id : Choices → ℕ → String → ℕ → Result String
generate_short_id choices call prefix length =
    if str_eq prefix "R" || str_eq prefix "E"
    then (if ltb length 3 || ltb 6 length
        then raise value_error
        else ok (prefix ++ choices alphabet_no_ambiguous length call))
    else raise value_error

unfoldable pub strip_hash_prefix : String → String
strip_hash_prefix = lstrip_hash

abbrev pub max_collision_retries : ℕ
max_collision_retries = 10

module _ {A : Type 0} (short_id : A → String) (generate : ℕ → Result String) where
  abbrev pub occupied : Result (Option A) → Result Bool
  occupied (raise e) = raise e
  occupied (ok existing) = ok (is_some existing)

  -- Whether a row has the id.
  abbrev pub taken : List A → String → Result Bool
  taken rows id = occupied (scalar_one_or_none (select (λ row. str_eq (short_id row) id) rows))

  abbrev pub settle : Result Bool → String → Result String → Result String
  settle (raise e) id rest = raise e
  settle (ok true) id rest = rest
  settle (ok false) id rest = ok id

  abbrev pub next_round : Result String → List A → Result String → Result String
  next_round (raise e) rows rest = raise e
  next_round (ok id) rows rest = settle (taken rows id) id rest

  -- At most `retries` rounds, each with a new draw.
  unfoldable pub unique_short_id : ℕ → List A → ℕ → Result String
  unique_short_id zero rows call = raise short_id_collision
  unique_short_id (suc retries) rows call =
      next_round (generate call) rows (unique_short_id retries rows (call + 1))

  occupied-nil : (xs : List A) → occupied (scalar_one_or_none xs) ≡ ok false → xs ≡ []
  occupied-nil [] h = refl
  occupied-nil (x ∷ []) h = cc
  occupied-nil (x ∷ y ∷ xs) h = cc

  taken-false :
      (rows : List A) (id : String)
      → taken rows id ≡ ok false
      → any (λ row. str_eq (short_id row) id) rows ≡ false
  taken-false rows id h =
      any-of_select (λ row. str_eq (short_id row) id) rows
        (occupied-nil (select (λ row. str_eq (short_id row) id) rows) h)

  abbrev Fresh : List A → String → Type 0
  Fresh rows id = any (λ row. str_eq (short_id row) id) rows ≡ false

  settle-Fresh :
      (rows : List A) (id : String) (rest : Result String) (found : String) (b : Result Bool)
      → (rest ≡ ok found → Fresh rows found)
      → taken rows id ≡ b
      → settle b id rest ≡ ok found
      → Fresh rows found
  settle-Fresh rows id rest found (raise e) ih t h = cc
  settle-Fresh rows id rest found (ok true) ih t h = ih h
  settle-Fresh rows id rest found (ok false) ih t h =
      subst (λ f. Fresh rows f) (ok-injective h) (taken-false rows id t)

  next_round-Fresh :
      (g : Result String) (rows : List A) (rest : Result String) (found : String)
      → (rest ≡ ok found → Fresh rows found)
      → next_round g rows rest ≡ ok found
      → Fresh rows found
  next_round-Fresh (raise e) rows rest found ih h = cc
  next_round-Fresh (ok id) rows rest found ih h =
      settle-Fresh rows id rest found (taken rows id) ih refl h

  -- An id that the search returns belongs to no row.
  pub unique_short_id-fresh :
      (retries : ℕ) (rows : List A) (call : ℕ) (found : String)
      → unique_short_id retries rows call ≡ ok found
      → any (λ row. str_eq (short_id row) found) rows ≡ false
  unfolding unique_short_id
  unique_short_id-fresh zero rows call found h = cc
  unique_short_id-fresh (suc retries) rows call found h =
      next_round-Fresh (generate call) rows (unique_short_id retries rows (call + 1)) found
        (unique_short_id-fresh retries rows (call + 1) found) h

  -- Every draw of the search's rounds is in use.
  abbrev pub AllTaken : ℕ → List A → ℕ → Type 0
  AllTaken zero rows call = Unit
  AllTaken (suc retries) rows call =
      ((id : String) × (generate call ≡ ok id) × (taken rows id ≡ ok true))
      × AllTaken retries rows (call + 1)

  -- Where every draw of its rounds is in use, the search gives up with `ShortIdCollisionError`.
  pub unique_short_id-collision :
      (retries : ℕ) (rows : List A) (call : ℕ)
      → AllTaken retries rows call
      → unique_short_id retries rows call ≡ raise short_id_collision
  unfolding unique_short_id
  unique_short_id-collision zero rows call h = refl
  unique_short_id-collision (suc retries) rows call ((id, g, t), h) =
      rw (g, t) (unique_short_id-collision retries rows (call + 1) h)
