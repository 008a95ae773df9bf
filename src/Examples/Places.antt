-- ===== src/Examples/Places.antt =====
-- Locations.
use weather_agent.Prelude.{strip, ◌≡◌, refl, inl, inr, true, false, none, some, List, [], ◌∷◌}
use weather_agent.Database.{LocationOrm, Database}
use weather_agent.Polish.{Unicode, normalize_for_matching}
use weather_agent.Locations.{
  Location, LocationCreate, ref_of, new_location, location_to_domain, create_location,
  check_name_conflict, check_alias_conflicts, resolve_location,
}
use weather_agent.Locations.Names.{IsRow, SameRows, create_location-resolve_location}
use weather_agent.Examples.Fixtures.{empty_db}

abbrev unicode : Unicode
unicode = record { nfkd = λ s. s; combining = λ c. false; lower = λ s. s }

abbrev cabin : LocationCreate
cabin = record {
  name = "Chata";
  aliases = "gory" ∷ [];
  latitude = "49.3";
  longitude = "20.0";
  description = none;
}

abbrev flat : LocationCreate
flat = record cabin { name = "Dom"; aliases = [] }

abbrev with_flat : Database
with_flat = record empty_db { locations = new_location unicode 1 1 7 flat ∷ [] }

abbrev created : Location
created = record {
  id = 2;
  name = "Chata";
  aliases = "gory" ∷ [];
  latitude = "49.3";
  longitude = "20.0";
  description = none;
  enabled = true;
  created_at = 5;
  updated_at = 5;
}

-- The table's rows with the older one first.
abbrev by_age : List LocationOrm
by_age = new_location unicode 1 1 7 flat ∷ new_location unicode 5 2 7 cabin ∷ []

swapped : (a b : LocationOrm) → SameRows (a ∷ b ∷ []) (b ∷ a ∷ [])
swapped a b x = (turned a b, turned b a)
  where
    turned : (a b : LocationOrm) → IsRow x (a ∷ b ∷ []) → IsRow x (b ∷ a ∷ [])
    turned a b (inl e) = inr (inl e)
    turned a b (inr (inl e)) = inl e
    turned a b (inr (inr e)) = absurd e

create_location-resolve_location_example :
    resolve_location unicode "gory " 7
      (record (create_location unicode 5 2 7 cabin with_flat).1 { locations = by_age })
    ≡ some (ref_of (new_location unicode 5 2 7 cabin))
unfolding create_location location_to_domain check_name_conflict check_alias_conflicts
    normalize_for_matching strip
create_location-resolve_location_example =
    create_location-resolve_location unicode 7 cabin 5 2 with_flat created by_age "gory " refl
      (swapped _ _) refl

normalize_for_matching_test : normalize_for_matching unicode " Łódź" ≡ "lodz"
unfolding normalize_for_matching strip
normalize_for_matching_test = refl
