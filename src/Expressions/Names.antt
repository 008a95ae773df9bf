-- ===== src/Expressions/Names.antt =====
-- Which expressions are accepted.
use Prim.Native.Char.{Char}
use weather_agent.Prelude.{
  Bool, true, false, not, ◌&&◌, Bool-cases, Option-cases, inl, inr, Option, List, [], ◌∷◌, String,
  ◌≡◌, refl, sym, ap, ◌∙◌, arith, any, select, strip, is_empty, str_eq, eq_iff, is_some,
  any-sort_by, any-select,
}
use weather_agent.Expressions.Scanner.{function_names_from, macro_variables, identifiers_from}
use weather_agent.Expressions.Validation.{
  member, set_of, sorted, text_le, is_known_function, is_known_name, function_names, names_used,
  unknown_functions_of, unknown_metrics_of, judged, is_valid, validate_expression,
}

-- `all(p(x) for x in xs)`
abbrev pub every : (String → Bool) → List String → Bool
every p [] = true
every p (x ∷ xs) = p x && every p xs

every-any : (p : String → Bool) (xs : List String) → not (any (λ x. not (p x)) xs) ≡ every p xs
every-any p [] = refl
every-any p (x ∷ xs) = ground (arith, every-any p xs)

any-pred :
    (p q : String → Bool) (xs : List String) → ((x : String) → p x ≡ q x) → any p xs ≡ any q xs
any-pred p q [] k = refl
any-pred p q (x ∷ xs) k = ground (arith, k x, any-pred p q xs k)

any-member :
    (p : String → Bool) (x : String) (xs : List String)
    → member x xs ≡ true
    → p x ≡ true
    → any p xs ≡ true
any-member p x [] h q = cc
any-member p x (y ∷ ys) h q = elim (Bool-cases (str_eq y x)) [
  | inl e ↦ let same : p y ≡ true = ap p ((eq_iff y x).0 e) ∙ q in rw same refl
  | inr e ↦ ground (arith, any-member p x ys)
]

any-set_of : (p : String → Bool) (xs : List String) → any p (set_of xs) ≡ any p xs
any-set_of p [] = refl
any-set_of p (x ∷ xs) = ground (arith, any-set_of p xs, any-member p x xs)

abbrev pub is_nil : List String → Bool
is_nil [] = true
is_nil (x ∷ xs) = false

is_nil-any : (xs : List String) → is_nil xs ≡ not (any (λ _. true) xs)
is_nil-any [] = refl
is_nil-any (x ∷ xs) = refl

-- No name is left over exactly if every one is known.
is_nil-sorted :
    (p : String → Bool) (xs : List String)
    → is_nil (sorted (select (λ x. not (p x)) xs)) ≡ every p xs
is_nil-sorted p xs =
    is_nil-any _
    ∙ ap not (
        any-sort_by (λ _. true) text_le (select (λ x. not (p x)) xs)
        ∙ any-select (λ _. true) (λ x. not (p x)) xs
        ∙ any-pred (λ x. not (p x) && true) (λ x. not (p x)) xs (λ x. ground arith))
    ∙ every-any p xs

every-set_of : (p : String → Bool) (xs : List String) → every p (set_of xs) ≡ every p xs
every-set_of p xs =
    sym (every-any p (set_of xs)) ∙ ap not (any-set_of (λ x. not (p x)) xs) ∙ every-any p xs

module _ (is_other_word : Char → Bool) (compile_error : String → Option String) where
  is_valid-judged :
      (expression stripped : String) (functions metrics : List String)
      → is_valid (judged is_other_word compile_error expression stripped functions metrics)
        ≡ (is_nil functions && is_nil metrics && not (is_some (compile_error stripped)))
  is_valid-judged expression stripped [] [] = elim (Option-cases (compile_error stripped)) [
    | inl e ↦ rw e refl
    | inr (exc, e) ↦ rw e refl
  ]
  is_valid-judged expression stripped (f ∷ fs) [] = refl
  is_valid-judged expression stripped [] (m ∷ ms) = refl
  is_valid-judged expression stripped (f ∷ fs) (m ∷ ms) = refl

  -- An expression is accepted exactly if it is not blank, every name that it calls is a function of the
  -- registry or a word of CEL, every name outside its literals is a metric, one of these or a
  -- variable that it binds, and CEL compiles it.
  pub validate_expression-valid :
      (expression : String)
      → let s = strip expression in
        is_valid (validate_expression is_other_word compile_error expression) ≡ (
          not (is_empty s)
          && every is_known_function (function_names is_other_word compile_error s)
          && every
              (is_known_name is_other_word compile_error s)
              (names_used is_other_word compile_error s)
          && not (is_some (compile_error s)))
  unfolding validate_expression function_names_from macro_variables identifiers_from
  validate_expression-valid expression =
      let s = strip expression in
      let functions = function_names is_other_word compile_error s in
      let known =
        is_valid-judged expression s (unknown_functions_of is_other_word compile_error s)
          (unknown_metrics_of is_other_word compile_error s)
        ∙ ap
            (λ b.
              b
              && is_nil (unknown_metrics_of is_other_word compile_error s)
              && not (is_some (compile_error s)))
            (is_nil-sorted is_known_function (set_of functions)
              ∙ every-set_of is_known_function functions)
        ∙ ap (λ b. every is_known_function functions && b && not (is_some (compile_error s)))
            (is_nil-sorted (is_known_name is_other_word compile_error s)
              (names_used is_other_word compile_error s)) in
      elim (Bool-cases (is_empty s)) [ inl e ↦ rw e refl | inr e ↦ rw e known ]
