-- ===== src/Geocoding/Score.antt =====
-- infrastructure/locationiq_candidates.py: the scores of the candidates, and the best one.
use Prim.Native.String.{◌++◌}
use weather_agent.Prelude.{
  ◌+◌, ◌*◌, Bool, true, false, not, ◌&&◌, ◌||◌, Option, none, some, List, [], ◌∷◌, String, leb,
  ◌==◌, str_eq, if◌then◌else◌, text_length, select, length, strip,
}
use weather_agent.Polish.{Unicode, normalize_for_matching}
use weather_agent.Expressions.Numbers.{Numbers}
use weather_agent.Expressions.Validation.{member, set_of}
use weather_agent.Geocoding.Candidates.{
  Leaf, text, number, null, other, Field, leaf, object, Candidate, get, stopwords, stripped_leaf,
  leaf_of, string_field, or_else, text_or, address, first_display_part, candidate_text, tokens_of,
  is_place_candidate,
}

-- `float(value)` of a text or a number, where it does not raise, and `str(hash(text))`.
pub record Readers (F : Type 0) : Type 0 where
  pub float_of : String → Option F
  pub hash_of : String → String

module _ (n : Numbers) (unicode : Unicode) (readers : Readers n.F) where
  open n use {F, lt, add, of_nat}

  -- `LocationRef`
  pub record LocationRef : Type 0 where
    pub id : String
    pub name : String
    pub latitude : F
    pub longitude : F

  -- `_query_tokens`, a set as a list without duplicates.
  abbrev pub query_tokens : String → List String
  unfolding text_length normalize_for_matching
  query_tokens query = set_of (
      select (λ token. leb 2 (text_length token) && not (member token stopwords))
        (tokens_of (normalize_for_matching unicode query)))

  abbrev pub float_in : Option Leaf → Option F
  float_in (some (text s)) = readers.float_of s
  float_in (some (number s)) = readers.float_of s
  float_in value = none

  abbrev pub float_field : Candidate → String → Option F
  float_field candidate key = float_in (leaf_of (get key candidate))

  abbrev pub is_pl : Option String → Bool
  is_pl none = true
  is_pl (some country_code) = str_eq (unicode.lower country_code) "pl"

  unfoldable pub is_polish_candidate : Candidate → Bool
  unfolding strip
  is_polish_candidate candidate = is_pl (
      or_else (stripped_leaf (get "country_code" (address candidate)))
        (string_field candidate "country_code"))

  abbrev pub number_or_zero : Option F → F
  number_or_zero none = of_nat 0
  number_or_zero (some v) = v

  abbrev pub shared : List String → List String → List String
  shared tokens others = select (λ token. member token others) tokens

  abbrev pub no_tokens : List String → Bool
  no_tokens [] = true
  no_tokens (t ∷ ts) = false

  -- The score of the matches, once the candidate is in Poland and has its coordinates.
  unfoldable pub match_score : Candidate → List String → F
  unfolding strip text_length normalize_for_matching
  match_score candidate tokens =
      let matched = shared tokens (query_tokens (candidate_text candidate)) in
      let is_place = is_place_candidate candidate in
      let name_text =
        text_or (or_else (string_field candidate "name") (first_display_part candidate)) "" in
      let name_matches = shared tokens (query_tokens name_text) in
      let base = of_nat (length matched * 10 + length name_matches * 3) in
      let placed = if is_place then add base (of_nat 5) else base in
      if (not (no_tokens tokens) && no_tokens matched)
        || (not is_place && not (no_tokens tokens) && not (length matched == length tokens))
      then of_nat 0
      else add placed (number_or_zero (float_field candidate "importance"))

  abbrev pub score_at : Bool → Option F → Option F → F → F
  score_at true (some lat) (some lon) score = score
  score_at polish lat lon score = of_nat 0

  unfoldable pub candidate_score : Candidate → List String → F
  unfolding is_polish_candidate match_score
  candidate_score candidate tokens =
      score_at (is_polish_candidate candidate) (float_field candidate "lat")
        (float_field candidate "lon") (match_score candidate tokens)

  abbrev pub shown : Option Field → Option String
  shown none = none
  shown (some (leaf (text s))) = some s
  shown (some (leaf (number s))) = some s
  shown (some (leaf null)) = none
  shown (some (leaf (other s))) = some s
  shown (some (object s fields)) = some s

  abbrev pub osm_id_of : Option String → Option String → String → String
  osm_id_of (some osm_type) (some osm_id) hashed = osm_type ++ ":" ++ osm_id
  osm_id_of osm_type osm_id hashed = hashed

  abbrev pub candidate_id : Candidate → String
  unfolding strip
  candidate_id candidate = text_or (shown (get "place_id" candidate)) (
      osm_id_of (string_field candidate "osm_type") (shown (get "osm_id" candidate))
        (readers.hash_of (candidate_text candidate)))

  abbrev pub ref_at : Candidate → Option F → Option F → Option LocationRef
  unfolding strip
  ref_at candidate (some lat) (some lon) = some (record {
    id = candidate_id candidate;
    name =
        text_or
          (or_else (or_else (string_field candidate "name") (first_display_part candidate))
            (string_field candidate "display_name"))
          "Lokalizacja";
    latitude = lat;
    longitude = lon;
  })
  ref_at candidate lat lon = none

  unfoldable pub candidate_to_location_ref : Candidate → Option LocationRef
  unfolding strip
  candidate_to_location_ref candidate =
      ref_at candidate (float_field candidate "lat") (float_field candidate "lon")

  abbrev pub is_usable : List String → Candidate → Bool
  unfolding candidate_score
  is_usable tokens candidate = lt (of_nat 0) (candidate_score candidate tokens)

  -- `max` by the score, the first of equals.
  unfoldable pub best_from : List String → Candidate → List Candidate → Candidate
  unfolding candidate_score
  best_from tokens best [] = best
  best_from tokens best (c ∷ cs) =
      best_from tokens
        (if lt (candidate_score best tokens) (candidate_score c tokens) then c else best) cs

  abbrev pub best_ref : List String → List Candidate → Option LocationRef
  unfolding best_from candidate_to_location_ref
  best_ref tokens [] = none
  best_ref tokens (c ∷ cs) = candidate_to_location_ref (best_from tokens c cs)

  unfoldable pub select_best_candidate : String → List Candidate → Option LocationRef
  unfolding best_from candidate_to_location_ref text_length normalize_for_matching
  select_best_candidate query candidates =
      let tokens = query_tokens query in best_ref tokens (select (is_usable tokens) candidates)
