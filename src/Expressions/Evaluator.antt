-- ===== src/Expressions/Evaluator.antt =====
-- domain/rule_expression/evaluator.py: the evaluator, with the context that CEL runs an expression in.
use Prim.Native.Char.{Char}
use Prim.Native.String.{◌++◌}
use weather_agent.Prelude.{
  subst, ℕ, zero, Bool, true, false, not, ◌&&◌, Option, none, some, List, [], ◌∷◌, ◌++◌ as append,
  map, String, ◌≡◌, refl, is_some, strip, select,
}
use weather_agent.Time.{DateTime}
use weather_agent.Expressions.Numbers.{Numbers}
use weather_agent.Expressions.Ranges.{Clock, in_warsaw}
use weather_agent.Expressions.Metrics.{
  Point, TimeValue, text, moment, other, allowed_metrics, is_metric, lookup, sample_point,
}
use weather_agent.Expressions.Registry.{all_function_names}
use weather_agent.Expressions.Scanner.{function_names_from, identifiers_from, literals_from}
use weather_agent.Expressions.Validation.{member, set_of, sorted, validate_expression, is_valid}

-- `RuleExpressionEvaluationResult`, of CEL's values that its field takes.
pub record EvaluationResult (V : Type 0) : Type 0 where
  pub expression : String
  pub result : Option V
  pub error : Option String
  pub evaluated_metrics : List String
  pub evaluated_functions : List String

abbrev pub valid : {V : Type 0} → EvaluationResult V → Bool
valid r = not (is_some r.error)

-- What an execution ends with: a value, or the text of an exception.
pub data Outcome (V : Type 0) : Type 0 where
  value : V → Outcome V
  exception : String → Outcome V

module _ (n : Numbers) (clock : Clock) where
  open n use {F}

  -- The data of an evaluation, and the context of an execution: the variables for metrics, the one for
  -- the time, and the points that the functions are built over.
  pub record Data : Type 0 where
    pub points : List (Point n clock)
    pub previous_points : List (Point n clock)

  pub record Context : Type 0 where
    pub variables : List (String × Option F)
    pub target_time : Option TimeValue
    pub data' : Data
    pub validation_mode : Bool

  abbrev pub cons_some : {A : Type 0} → String → Option A → List (String × A) → List (String × A)
  cons_some key none rest = rest
  cons_some key (some a) rest = (key, a) ∷ rest

  -- The metrics of the first point.
  abbrev pub variables_of : List String → List (String × Option F) → List (String × Option F)
  variables_of [] values = []
  variables_of (metric ∷ metrics) values =
      cons_some metric (lookup n clock metric values) (variables_of metrics values)

  abbrev pub first_variables : List (Point n clock) → List (String × Option F)
  first_variables [] = []
  first_variables ((time, values) ∷ points) = variables_of allowed_metrics values

  -- `_cel_point`: a datetime becomes its isoformat.
  abbrev pub cel_time : (ℕ → String) → Option TimeValue → Option TimeValue
  cel_time isoformat none = none
  cel_time isoformat (some (moment t)) = some (text (isoformat (in_warsaw clock t)))
  cel_time isoformat (some (text s)) = some (text s)
  cel_time isoformat (some (other name)) = some (other name)

  abbrev pub cel_point : (ℕ → String) → Point n clock → Point n clock
  cel_point isoformat (time, values) = (cel_time isoformat time, values)

  abbrev pub context_of : (ℕ → String) → Data → Context
  context_of isoformat d = record {
    variables = first_variables (map (cel_point isoformat) d.points);
    target_time = none;
    data' = record {
      points = map (cel_point isoformat) d.points;
      previous_points = map (cel_point isoformat) d.previous_points;
    };
    validation_mode = false;
  }

  abbrev pub validation_context : (ℕ → String) → DateTime → Context
  validation_context isoformat now =
      let point = sample_point n clock (isoformat (in_warsaw clock now)) in
      record {
        variables = first_variables (point ∷ []);
        target_time = point.0;
        data' = record { points = point ∷ []; previous_points = point ∷ [] };
        validation_mode = true;
      }

  -- `cel.compile` and `execute` of what it compiles, the values of CEL, which of them the field
  -- `result` takes, with the text of pydantic's error for the others, and isoformat.
  pub record Cel : Type 1 where
    pub Value : Type 0
    pub refused : Value → Option String
    pub compile_error : String → Option String
    pub execute : String → Context → Outcome Value
    pub isoformat : ℕ → String

  -- `cel.compile(expression).execute(context)`
  abbrev pub run : (cel : Cel) → String → Context → Outcome cel.Value
  run cel expression context = elim (cel.compile_error expression) [
    | some exc ↦ exception exc
    | none ↦ cel.execute expression context
  ]

  module _ (cel : Cel) (is_other_word : Char → Bool) (now : DateTime) where
    -- `sorted(_referenced_functions(expression))`
    abbrev pub referenced_functions : String → List String
    unfolding function_names_from
    referenced_functions expression = sorted (
        set_of (
          select (λ name. member name all_function_names)
            (function_names_from is_other_word false expression)))

    -- `sorted(_referenced_metrics(expression))`
    abbrev pub referenced_metrics : String → List String
    unfolding identifiers_from
    referenced_metrics expression = sorted (
        set_of (
          select is_metric (
            append (literals_from zero expression)
              (identifiers_from is_other_word false false false expression))))

    abbrev pub bare : String → String → EvaluationResult cel.Value
    bare expression error = record {
      expression = expression;
      result = none;
      error = some error;
      evaluated_metrics = [];
      evaluated_functions = [];
    }

    abbrev pub with_names : String → Option cel.Value → Option String → EvaluationResult cel.Value
    unfolding function_names_from identifiers_from
    with_names expression result error = record {
      expression = expression;
      result = result;
      error = error;
      evaluated_metrics = referenced_metrics expression;
      evaluated_functions = referenced_functions expression;
    }

    abbrev pub trial : String → Outcome cel.Value → EvaluationResult cel.Value
    unfolding function_names_from identifiers_from
    trial expression (value v) = with_names expression none none
    trial expression (exception exc) =
        with_names expression none (some ("CEL validation error: " ++ exc))

    abbrev pub validated : String → Option String → EvaluationResult cel.Value
    unfolding function_names_from identifiers_from strip
    validated expression (some error) = bare expression error
    validated expression none =
        trial expression (run cel (strip expression) (validation_context cel.isoformat now))

    unfoldable pub validate : String → EvaluationResult cel.Value
    unfolding function_names_from identifiers_from validate_expression
    validate expression =
        validated expression (validate_expression is_other_word cel.compile_error expression).error

    -- An evaluation returns a result, or raises the `ValidationError` of a result that is built of a
    -- value which the field does not take: a mapping or a list.
    pub data Evaluation : Type 0 where
      returned : EvaluationResult cel.Value → Evaluation
      validation_error : String → Evaluation

    abbrev pub built : EvaluationResult cel.Value → cel.Value → Option String → Evaluation
    built validation v none = returned (record validation { result = some v; error = none })
    built validation v (some exc) = validation_error exc

    abbrev pub evaluated : EvaluationResult cel.Value → Outcome cel.Value → Evaluation
    evaluated validation (value v) = built validation v (cel.refused v)
    evaluated validation (exception exc) =
        returned (record validation { result = none; error = some ("Evaluation error: " ++ exc) })

    abbrev pub evaluate_if : String → Data → EvaluationResult cel.Value → Option String → Evaluation
    unfolding strip
    evaluate_if expression d validation (some error) = returned (bare expression error)
    evaluate_if expression d validation none =
        evaluated validation (run cel (strip expression) (context_of cel.isoformat d))

    unfoldable pub evaluate : String → Data → Evaluation
    unfolding validate strip
    evaluate expression d =
        let validation = validate expression in evaluate_if expression d validation validation.error

    abbrev pub has_value : Outcome cel.Value → Bool
    has_value (value v) = true
    has_value (exception exc) = false

    -- What is promised of an evaluation that is accepted, or is not, and of what the run on the data
    -- ends with: a value that the field takes is the result, with no error; the exception of another
    -- one escapes; an exception of CEL, or a refusal, is an error and no result.
    abbrev pub Promised : Bool → Outcome cel.Value → Evaluation → Type 0
    Promised false o (returned r) = (valid r ≡ false) × (r.result ≡ none)
    Promised true (value v) (returned r) =
        (cel.refused v ≡ none) × (valid r ≡ true) × (r.result ≡ some v)
    Promised true (value v) (validation_error exc) = cel.refused v ≡ some exc
    Promised true (exception exc) (returned r) = (valid r ≡ false) × (r.result ≡ none)
    Promised false o (validation_error exc) = ⊥
    Promised true (exception e) (validation_error exc) = ⊥

    built-Promised :
        (r : EvaluationResult cel.Value) (v : cel.Value) (refused : Option String)
        → cel.refused v ≡ refused
        → Promised true (value v) (built r v refused)
    built-Promised r v none e = (e, refl, refl)
    built-Promised r v (some exc) e = e

    evaluated-Promised :
        (r : EvaluationResult cel.Value) (o : Outcome cel.Value) → Promised true o (evaluated r o)
    evaluated-Promised r (value v) = built-Promised r v (cel.refused v) refl
    evaluated-Promised r (exception exc) = (refl, refl)

    evaluate_if-Promised :
        (expression : String) (d : Data) (r : EvaluationResult cel.Value) (error : Option String)
        → Promised
            (not (is_some error))
            (run cel (strip expression) (context_of cel.isoformat d))
            (evaluate_if expression d r error)
    unfolding strip
    evaluate_if-Promised expression d r (some error) = (refl, refl)
    evaluate_if-Promised expression d r none =
        evaluated-Promised r (run cel (strip expression) (context_of cel.isoformat d))

    trial-valid :
        (expression : String) (o : Outcome cel.Value) → valid (trial expression o) ≡ has_value o
    unfolding function_names_from identifiers_from
    trial-valid expression (value v) = refl
    trial-valid expression (exception exc) = refl

    validated-valid :
        (expression : String) (error : Option String)
        → valid (validated expression error) ≡ (
            not (is_some error)
            && has_value (run cel (strip expression) (validation_context cel.isoformat now)))
    unfolding function_names_from identifiers_from strip
    validated-valid expression (some error) = refl
    validated-valid expression none =
        trial-valid expression (run cel (strip expression) (validation_context cel.isoformat now))

    -- An expression that is not accepted, or that does not run on the sample of the validation, gives a
    -- result with an error and no value. Any other one runs on the data: it gives the value, and no
    -- error, if the field takes it; it raises pydantic's error if the field does not; and it gives an
    -- error and no value if CEL raises.
    pub evaluate-Promised :
        (expression : String) (d : Data)
        → Promised
            (is_valid (validate_expression is_other_word cel.compile_error expression)
              && has_value (run cel (strip expression) (validation_context cel.isoformat now)))
            (run cel (strip expression) (context_of cel.isoformat d))
            (evaluate expression d)
    unfolding evaluate validate
    evaluate-Promised expression d =
        let error = (validate_expression is_other_word cel.compile_error expression).error in
        subst
          (λ b.
            Promised b (run cel (strip expression) (context_of cel.isoformat d))
              (evaluate expression d))
          (validated-valid expression error)
          (evaluate_if-Promised expression d (validate expression) (validate expression).error)
