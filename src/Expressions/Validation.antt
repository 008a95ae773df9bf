-- ===== src/Expressions/Validation.antt =====
-- domain/rule_expression/validation.py. `cel.compile` is a parameter, as the text of its exception if
-- it raises.
use Prim.Native.Char.{Char, code}
use Prim.Native.String.{◌++◌}
use weather_agent.Prelude.{
  zero, Bool, true, false, not, ◌||◌, Option, none, some, List, [], ◌∷◌, String, ◌==◌, ltb, str_eq,
  if◌then◌else◌, is_empty, is_some, strip, any, select, sort_by,
}
use weather_agent.Expressions.Metrics.{is_metric}
use weather_agent.Expressions.Registry.{all_function_names}
use weather_agent.Expressions.Scanner.{
  function_names_from, identifiers_from, macro_variables, without_literals_from,
}

abbrev pub member : String → List String → Bool
member name names = any (λ n. str_eq n name) names

abbrev pub cel_reserved_words : List String
cel_reserved_words =
    "true" ∷ "false" ∷ "null" ∷ "in" ∷ "has" ∷ "exists" ∷ "all" ∷ "filter" ∷ "map" ∷ "size" ∷ []

-- A set as a list without duplicates, and the order of texts by their characters.
abbrev pub set_of : List String → List String
set_of [] = []
set_of (x ∷ xs) = let rest = set_of xs in if member x xs then rest else x ∷ rest

abbrev pub text_le : String → String → Bool
text_le String.[] t = true
text_le (String.◌∷◌ c s) String.[] = false
text_le (String.◌∷◌ c s) (String.◌∷◌ d t) =
    let rest = text_le s t in if code c == code d then rest else ltb (code c) (code d)

abbrev pub sorted : List String → List String
sorted = sort_by text_le

-- A list as Python prints it.
abbrev pub quoted_items : List String → String
quoted_items [] = ""
quoted_items (x ∷ []) = "'" ++ x ++ "'"
quoted_items (x ∷ y ∷ xs) = "'" ++ x ++ "', " ++ quoted_items (y ∷ xs)

abbrev pub show_list : List String → String
show_list names = "[" ++ quoted_items names ++ "]"

-- `valid` is that there is no error.
pub record ValidationResult : Type 0 where
  pub expression : String
  pub error : Option String
  pub unknown_functions : List String
  pub unknown_metrics : List String

abbrev pub is_valid : ValidationResult → Bool
is_valid r = not (is_some r.error)

abbrev pub is_known_function : String → Bool
is_known_function name = member name all_function_names || member name cel_reserved_words

abbrev pub functions_part : List String → String
functions_part names = "Unknown functions: " ++ show_list names

abbrev pub metrics_part : List String → String
metrics_part names = "Unknown metrics/variables: " ++ show_list names

abbrev pub refused : String → String → ValidationResult
refused expression error = record {
  expression = expression;
  error = some error;
  unknown_functions = [];
  unknown_metrics = [];
}

module _ (is_other_word : Char → Bool) (compile_error : String → Option String) where
  abbrev pub function_names : String → List String
  unfolding function_names_from
  function_names = function_names_from is_other_word false

  abbrev pub is_known_name : String → String → Bool
  unfolding function_names_from macro_variables
  is_known_name expression name =
      is_metric name
      || is_known_function name
      || member name (function_names expression)
      || member name (macro_variables expression)

  abbrev pub names_used : String → List String
  unfolding identifiers_from
  names_used expression =
      identifiers_from is_other_word true false false (without_literals_from zero expression)

  -- `_unknown_names`
  abbrev pub unknown_functions_of : String → List String
  unfolding function_names_from
  unknown_functions_of expression =
      sorted (select (λ name. not (is_known_function name)) (set_of (function_names expression)))

  abbrev pub unknown_metrics_of : String → List String
  unfolding function_names_from macro_variables identifiers_from
  unknown_metrics_of expression =
      sorted (select (λ name. not (is_known_name expression name)) (names_used expression))

  abbrev pub compiled : String → Option String → ValidationResult
  compiled expression (some exc) = refused expression ("CEL syntax error: " ++ exc)
  compiled expression none = record {
    expression = expression;
    error = none;
    unknown_functions = [];
    unknown_metrics = [];
  }

  abbrev pub unknown : String → String → List String → List String → ValidationResult
  unknown expression error functions metrics = record {
    expression = expression;
    error = some error;
    unknown_functions = functions;
    unknown_metrics = metrics;
  }

  -- The verdict on the unknown functions and the unknown metrics of the stripped expression.
  abbrev pub judged : String → String → List String → List String → ValidationResult
  judged expression stripped [] [] = compiled expression (compile_error stripped)
  judged expression stripped (f ∷ fs) [] = unknown expression (functions_part (f ∷ fs)) (f ∷ fs) []
  judged expression stripped [] (m ∷ ms) = unknown expression (metrics_part (m ∷ ms)) [] (m ∷ ms)
  judged expression stripped (f ∷ fs) (m ∷ ms) =
      unknown expression (functions_part (f ∷ fs) ++ "; " ++ metrics_part (m ∷ ms)) (f ∷ fs)
        (m ∷ ms)

  unfoldable pub validate_expression : String → ValidationResult
  unfolding strip function_names_from macro_variables identifiers_from
  validate_expression expression =
      let stripped = strip expression in
      let verdict =
        judged expression stripped (unknown_functions_of stripped) (unknown_metrics_of stripped) in
      if is_empty stripped then refused expression "Empty expression" else verdict
