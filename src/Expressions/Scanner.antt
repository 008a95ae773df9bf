-- ===== src/Expressions/Scanner.antt =====
-- The regular expressions of domain/rule_expression/validation.py and evaluator.py, as scanners of a
-- text. A match never begins inside another one, so each position is looked at once. The characters
-- that `\w` takes beyond the letters, the digits and the underscore of ASCII are a parameter.
use Prim.Native.Char.{Char, code}
use weather_agent.Prelude.{
  ℕ, zero, suc, ◌+◌, ◌-◌, Bool, true, false, not, ◌&&◌, ◌||◌, Option, none, some, List, [], ◌∷◌,
  String, ◌==◌, leb, if◌then◌else◌, lstrip, after_prefix,
}
use weather_agent.Toolbox.{take_text}

abbrev pub is_letter : Char → Bool
is_letter c =
    (leb b'a' (code c) && leb (code c) b'z')
    || (leb b'A' (code c) && leb (code c) b'Z')
    || code c == b'_'

abbrev pub is_name_char : Char → Bool
is_name_char c = is_letter c || (leb b'0' (code c) && leb (code c) b'9')

-- `[A-Za-z0-9_]*` at the start of the text, and what follows it.
abbrev pub name_prefix : String → String
name_prefix String.[] = String.[]
name_prefix (String.◌∷◌ c s) =
    let rest = name_prefix s in if is_name_char c then String.◌∷◌ c rest else String.[]

abbrev pub after_name : String → String
after_name String.[] = String.[]
after_name (String.◌∷◌ c s) =
    let rest = after_name s in if is_name_char c then rest else String.◌∷◌ c s

abbrev pub begins_with : Char → String → Bool
begins_with d String.[] = false
begins_with d (String.◌∷◌ c s) = code c == code d

abbrev pub cons_if : Bool → String → List String → List String
cons_if true name rest = name ∷ rest
cons_if false name rest = rest

-- How many characters the rest of a literal takes, its closing quote with them; none where it is not
-- closed. A backslash takes a character with it that is not a line feed.
abbrev pub close_length : ℕ → String → Option ℕ
close_length quote String.[] = none
close_length quote (String.◌∷◌ c String.[]) = if code c == quote then some 1 else none
close_length quote (String.◌∷◌ c (String.◌∷◌ d s)) =
    let plain = close_length quote (String.◌∷◌ d s) in
    let escaped = close_length quote s in
    if code c == quote
    then some 1
    else if code c == b'\\'
    then if code d == b'\n' then none else (elim escaped [ none ↦ none | some n ↦ some (n + 2) ])
    else (elim plain [ none ↦ none | some n ↦ some (n + 1) ])

abbrev pub is_quote : Char → Bool
is_quote c = code c == b'"' || code c == b'\''

-- `_STRING_LITERAL_RE.sub("", text)`, the first characters being those of a literal.
abbrev pub without_literals_from : ℕ → String → String
without_literals_from skip String.[] = String.[]
without_literals_from (suc skip) (String.◌∷◌ c s) = without_literals_from skip s
without_literals_from zero (String.◌∷◌ c s) =
    let kept = String.◌∷◌ c (without_literals_from zero s) in
    if is_quote c
    then (elim (close_length (code c) s) [ none ↦ kept | some n ↦ without_literals_from n s ])
    else kept

-- The contents of the literals.
abbrev pub literals_from : ℕ → String → List String
literals_from skip String.[] = []
literals_from (suc skip) (String.◌∷◌ c s) = literals_from skip s
literals_from zero (String.◌∷◌ c s) =
    let rest = literals_from zero s in
    if is_quote c
    then (elim (close_length (code c) s) [
      | none ↦ rest
      | some n ↦ take_text (n - 1) s ∷ literals_from n s
    ])
    else rest

abbrev pub macros : List String
macros = "exists(" ∷ "all(" ∷ "filter(" ∷ "map(" ∷ []

abbrev pub after_any : List String → String → Option String
unfolding after_prefix
after_any [] s = none
after_any (m ∷ ms) s = elim (after_prefix m s) [ some rest ↦ some rest | none ↦ after_any ms s ]

abbrev pub variable_before_comma : String → List String → List String
unfolding lstrip
variable_before_comma String.[] rest = rest
variable_before_comma (String.◌∷◌ c s) rest =
    cons_if (is_letter c && begins_with "," (lstrip (after_name s))) (String.◌∷◌ c (name_prefix s))
      rest

module _ (is_other_word : Char → Bool) where
  -- `\w`
  abbrev pub is_word : Char → Bool
  is_word c = is_name_char c || is_other_word c

  abbrev pub begins_word : String → Bool
  begins_word String.[] = false
  begins_word (String.◌∷◌ c s) = is_word c

  -- `_FUNCTION_NAME_RE.findall`; the flag is that a character of a word stands before.
  unfoldable pub function_names_from : Bool → String → List String
  unfolding lstrip
  function_names_from after String.[] = []
  function_names_from after (String.◌∷◌ c s) =
      cons_if (not after && is_letter c && begins_with "(" (lstrip (after_name s)))
        (String.◌∷◌ c (name_prefix s)) (function_names_from (is_word c) s)

  -- `_IDENTIFIER_RE.finditer`, without the matches behind a dot if the first flag says so; the second
  -- flag is that a dot stands before, the third that a character of a word does.
  unfoldable pub identifiers_from : Bool → Bool → Bool → String → List String
  identifiers_from skip_dotted dotted after String.[] = []
  identifiers_from skip_dotted dotted after (String.◌∷◌ c s) =
      cons_if
        (not after
          && is_letter c
          && not (begins_word (after_name s))
          && not (skip_dotted && dotted))
        (String.◌∷◌ c (name_prefix s)) (identifiers_from skip_dotted (code c == b'.') (is_word c) s)

-- `_MACRO_VAR_RE.findall`
unfoldable pub macro_variables : String → List String
unfolding lstrip after_prefix
macro_variables String.[] = []
macro_variables (String.◌∷◌ c s) =
    let rest = macro_variables s in
    if code c == b'.'
    then (elim (after_any macros s) [
      | none ↦ rest
      | some inside ↦ variable_before_comma (lstrip inside) rest
    ])
    else rest
