-- ===== src/Geocoding/Candidates.antt =====
-- infrastructure/locationiq_candidates.py: the choice among the answers of the geocoding service.
use Prim.Native.Char.{Char, code}
use Prim.Native.String.{◌++◌}
use weather_agent.Prelude.{
  Bool, false, ◌&&◌, ◌||◌, Option, none, some, List, [], ◌∷◌, ◌++◌ as append, String, ◌==◌, leb,
  str_eq, if◌then◌else◌, is_empty, strip,
}
use weather_agent.Expressions.Validation.{member}

-- A value of JSON: a text, a number as it is shown, None, or one of another type as it is shown.
pub data Leaf : Type 0 where
  text number : String → Leaf
  null : Leaf
  other : String → Leaf

-- A value of a candidate may be an object too, as it is shown and with its values.
pub data Field : Type 0 where
  leaf : Leaf → Field
  object : String → List (String × Leaf) → Field

abbrev pub Candidate : Type 0
Candidate = List (String × Field)

-- `data.get(key)`
abbrev pub get : {A : Type 0} → String → List (String × A) → Option A
get key [] = none
get key ((k, v) ∷ rest) = let later = get key rest in if str_eq k key then some v else later

abbrev pub stopwords : List String
stopwords = "w" ∷ "we" ∷ "na" ∷ "nad" ∷ "pod" ∷ "przy" ∷ "do" ∷ "z" ∷ "ze" ∷ "i" ∷ []

abbrev pub place_classes : List String
place_classes = "boundary" ∷ "place" ∷ []

abbrev pub place_types : List String
place_types =
    "administrative" ∷ "city" ∷ "city_district" ∷ "district" ∷ "hamlet" ∷ "locality"
    ∷ "neighbourhood" ∷ "neighborhood" ∷ "quarter" ∷ "suburb" ∷ "town" ∷ "village" ∷ []

abbrev pub nonempty : String → Option String
nonempty s = if is_empty s then none else some s

-- `_string_field`, of the value of the key.
abbrev pub stripped_leaf : Option Leaf → Option String
unfolding strip
stripped_leaf (some (text s)) = nonempty (strip s)
stripped_leaf value = none

abbrev pub leaf_of : Option Field → Option Leaf
leaf_of (some (leaf l)) = some l
leaf_of field = none

abbrev pub string_field : Candidate → String → Option String
unfolding strip
string_field candidate key = stripped_leaf (leaf_of (get key candidate))

abbrev pub or_else : {A : Type 0} → Option A → Option A → Option A
or_else none b = b
or_else (some a) b = some a

abbrev pub text_or : Option String → String → String
text_or none default = default
text_or (some s) default = s

abbrev pub address_in : Option Field → List (String × Leaf)
address_in (some (object s fields)) = fields
address_in field = []

abbrev pub address : Candidate → List (String × Leaf)
address candidate = address_in (get "address" candidate)

-- `display_name.split(",", maxsplit=1)[0]`
abbrev pub before_comma : String → String
before_comma String.[] = String.[]
before_comma (String.◌∷◌ c s) =
    let rest = before_comma s in if code c == b',' then String.[] else String.◌∷◌ c rest

abbrev pub first_part : Option String → Option String
unfolding strip
first_part none = none
first_part (some display_name) = nonempty (strip (before_comma display_name))

abbrev pub first_display_part : Candidate → Option String
unfolding strip
first_display_part candidate = first_part (string_field candidate "display_name")

-- `" ".join`
abbrev pub join_space : List String → String
join_space [] = ""
join_space (x ∷ []) = x
join_space (x ∷ y ∷ xs) = x ++ " " ++ join_space (y ∷ xs)

abbrev pub cons_some : Option String → List String → List String
cons_some none rest = rest
cons_some (some s) rest = s ∷ rest

abbrev pub string_values : List (String × Leaf) → List String
unfolding strip
string_values [] = []
string_values ((key, value) ∷ rest) = cons_some (stripped_leaf (some value)) (string_values rest)

abbrev pub string_fields : Candidate → List String → List String
unfolding strip
string_fields candidate [] = []
string_fields candidate (key ∷ keys) =
    cons_some (string_field candidate key) (string_fields candidate keys)

abbrev pub candidate_text : Candidate → String
unfolding strip
candidate_text candidate = join_space (
    append
      (string_fields candidate
        ("name" ∷ "display_name" ∷ "type" ∷ "class" ∷ "category" ∷ "addresstype" ∷ []))
      (string_values (address candidate)))

-- `_TOKEN_RE.findall`: the runs of small letters and digits.
abbrev pub is_token_char : Char → Bool
is_token_char c =
    (leb b'a' (code c) && leb (code c) b'z') || (leb b'0' (code c) && leb (code c) b'9')

abbrev pub flush : String → List String → List String
flush run rest = if is_empty run then rest else run ∷ rest

-- The run at the start of the text, and the runs behind it.
abbrev pub runs : String → String × List String
runs String.[] = (String.[], [])
runs (String.◌∷◌ c s) =
    let (run, rest) = runs s in
    if is_token_char c then (String.◌∷◌ c run, rest) else (String.[], flush run rest)

abbrev pub tokens_of : String → List String
tokens_of s = let (run, rest) = runs s in flush run rest

abbrev pub among : List String → Option String → Bool
among names none = false
among names (some name) = member name names

abbrev pub is_place_candidate : Candidate → Bool
unfolding strip
is_place_candidate candidate =
    among place_classes
      (or_else (string_field candidate "class") (string_field candidate "category"))
    || among place_types (string_field candidate "type")
    || among place_types (string_field candidate "addresstype")
