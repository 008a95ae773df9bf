-- ===== src/Polish.antt =====
-- domain/polish_utils.py: texts as they are compared. Unicode's tables are parameters.
use Prim.Native.Char.{Char, code}
use weather_agent.Prelude.{ℕ, Bool, List, [], ◌∷◌, String, if◌then◌else◌, ◌==◌, strip}

-- `unicodedata.normalize("NFKD", …)`, `unicodedata.combining` and `str.lower`.
pub record Unicode : Type 0 where
  pub nfkd : String → String
  pub combining : Char → Bool
  pub lower : String → String

-- `POLISH_ASCII`: the code points of the letters, and the letters without their marks.
polish_ascii : List (ℕ × Char)
polish_ascii =
    (261, "a")
    ∷ (263, "c")
    ∷ (281, "e")
    ∷ (322, "l")
    ∷ (324, "n")
    ∷ (243, "o")
    ∷ (347, "s")
    ∷ (378, "z")
    ∷ (380, "z")
    ∷ (260, "a")
    ∷ (262, "c")
    ∷ (280, "e")
    ∷ (321, "l")
    ∷ (323, "n")
    ∷ (211, "o")
    ∷ (346, "s")
    ∷ (377, "z")
    ∷ (379, "z")
    ∷ []

-- `POLISH_ASCII.get(c, c)`
get_or_self : List (ℕ × Char) → Char → Char
get_or_self [] c = c
get_or_self ((letter, plain) ∷ rest) c =
    let other = get_or_self rest c in if code c == letter then plain else other

map_polish : String → String
unfolding polish_ascii get_or_self
map_polish String.[] = String.[]
map_polish (String.◌∷◌ c s) = String.◌∷◌ (get_or_self polish_ascii c) (map_polish s)

module _ (unicode : Unicode) where
  unfoldable pub normalize_polish : String → String
  unfolding map_polish
  normalize_polish text = map_polish (unicode.lower text)

  without_marks : String → String
  without_marks String.[] = String.[]
  without_marks (String.◌∷◌ c s) =
      let rest = without_marks s in if unicode.combining c then rest else String.◌∷◌ c rest

  unfoldable pub normalize_for_matching : String → String
  unfolding map_polish without_marks
  normalize_for_matching s = strip (unicode.lower (map_polish (without_marks (unicode.nfkd s))))
