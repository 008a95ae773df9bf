-- ===== src/Locations.antt =====
-- domain/locations.py: the methods of `LocationService`. The aliases of a row are a list; a column that
-- holds a dictionary stands for the list of its keys.
use weather_agent.Prelude.{
  ℕ, ◌&&◌, ◌||◌, not, Bool, true, false, Option, none, some, List, [], ◌∷◌, map, String,
  name_conflict, alias_conflict, location_not_found, integrity_error, Result, ok, raise, Action,
  ◌==◌, str_eq, if◌then◌else◌, any, find, head?, select, delete_where, update_where, order_by,
  is_some,
}
use weather_agent.Polish.{Unicode, normalize_for_matching}
use weather_agent.Rules.Rows.{given, given_optional}
use weather_agent.Database.{LocationOrm, Database, location_conflict, insert_row}
pub mod Names

pub record LocationCreate : Type 0 where
  pub name : String
  pub aliases : List String
  pub latitude : String
  pub longitude : String
  pub description : Option String

pub record LocationUpdate : Type 0 where
  pub name : Option String
  pub aliases : Option (List String)
  pub latitude : Option String
  pub longitude : Option String
  pub description : Option String
  pub enabled : Option Bool

-- `Location`
pub record Location : Type 0 where
  pub id : ℕ
  pub name : String
  pub aliases : List String
  pub latitude : String
  pub longitude : String
  pub description : Option String
  pub enabled : Bool
  pub created_at : ℕ
  pub updated_at : ℕ

-- `LocationRef`; its id is the text of the row's key, kept here as the key.
pub record LocationRef : Type 0 where
  pub id : ℕ
  pub name : String
  pub latitude : String
  pub longitude : String

unfoldable pub location_to_domain : LocationOrm → Location
location_to_domain orm = record {
  id = orm.id;
  name = orm.name;
  aliases = orm.aliases;
  latitude = orm.latitude;
  longitude = orm.longitude;
  description = orm.description;
  enabled = orm.enabled;
  created_at = orm.created_at;
  updated_at = orm.updated_at;
}

abbrev pub ref_of : LocationOrm → LocationRef
ref_of orm = record {
  id = orm.id;
  name = orm.name;
  latitude = orm.latitude;
  longitude = orm.longitude;
}

-- The enabled rows of the user.
abbrev pub is_active : ℕ → LocationOrm → Bool
is_active user_id loc = loc.user_id == user_id && loc.enabled

abbrev pub is_excluded : Option ℕ → LocationOrm → Bool
is_excluded none loc = false
is_excluded (some id) loc = loc.id == id

abbrev pub is_location : ℕ → LocationOrm → Bool
is_location location_id loc = loc.id == location_id

abbrev pub get_location_orm : ℕ → Database → Option LocationOrm
get_location_orm location_id db = find (is_location location_id) db.locations

-- A column that a foreign key without ON DELETE has refer to the location.
abbrev pub is_used_location : ℕ → Database → Bool
is_used_location location_id db =
    any (λ r. r.location_id == location_id) db.rules
    || any (λ s. s.location_id == location_id) db.snapshots
    || any (λ p. p.location_id == location_id) db.points
    || any (λ o. o.location_id == location_id) db.observations
    || any (λ warned. warned == location_id) db.warned_locations

abbrev pub write_location : ℕ → (LocationOrm → LocationOrm) → Database → Database
write_location location_id f db = record db {
  locations = update_where (is_location location_id) f db.locations;
}

unfoldable pub delete_location : ℕ → Action Database Bool
delete_location location_id db = elim (get_location_orm location_id db) [
  | none ↦ (ok false, db)
  | some orm ↦
      if is_used_location location_id db
      then (raise integrity_error, db)
      else (ok true, record db { locations = delete_where (is_location location_id) db.locations })
]

-- The fields that are only assigned.
abbrev pub updated_location : ℕ → LocationUpdate → LocationOrm → LocationOrm
updated_location now update orm = record orm {
  latitude = given update.latitude orm.latitude;
  longitude = given update.longitude orm.longitude;
  description = given_optional update.description orm.description;
  enabled = given update.enabled orm.enabled;
  updated_at = now;
}

module _ (unicode : Unicode) where
  abbrev pub normalize : String → String
  normalize = normalize_for_matching unicode

  abbrev pub same_name : String → String → Bool
  same_name a b = str_eq (normalize a) (normalize b)

  abbrev pub name_clash : ℕ → String → Option ℕ → LocationOrm → Bool
  name_clash user_id name exclude loc =
      is_active user_id loc && not (is_excluded exclude loc) && same_name loc.name name

  unfoldable pub check_name_conflict : ℕ → String → Option ℕ → Database → Result (Unit {0})
  check_name_conflict user_id name exclude db =
      elim (find (name_clash user_id name exclude) db.locations) [
        | none ↦ ok tt
        | some loc ↦ raise (name_conflict name loc.id)
      ]

  -- A name or an alias of the row that one of the new aliases equals.
  abbrev pub taken_name : List String → LocationOrm → Option String
  taken_name aliases loc = find (λ n. any (λ a. same_name a n) aliases) (loc.name ∷ loc.aliases)

  abbrev pub alias_clash : ℕ → List String → Option ℕ → LocationOrm → Bool
  alias_clash user_id aliases exclude loc =
      is_active user_id loc && not (is_excluded exclude loc) && is_some (taken_name aliases loc)

  abbrev pub or_empty : Option String → String
  or_empty none = ""
  or_empty (some s) = s

  -- The alias that is reported: the first new one that equals the name that was found.
  abbrev pub matching_alias : List String → LocationOrm → String
  matching_alias aliases loc = elim (taken_name aliases loc) [
    | none ↦ ""
    | some n ↦ or_empty (find (λ a. same_name a n) aliases)
  ]

  unfoldable pub check_alias_conflicts : ℕ → List String → Option ℕ → Database → Result (Unit {0})
  check_alias_conflicts user_id aliases exclude db =
      elim (find (alias_clash user_id aliases exclude) db.locations) [
        | none ↦ ok tt
        | some loc ↦ raise (alias_conflict (matching_alias aliases loc) loc.id)
      ]

  abbrev pub new_location : ℕ → ℕ → ℕ → LocationCreate → LocationOrm
  new_location now new_id user_id create = record {
    id = new_id;
    user_id = user_id;
    name = create.name;
    aliases = create.aliases;
    latitude = create.latitude;
    longitude = create.longitude;
    description = create.description;
    enabled = true;
    created_at = now;
    updated_at = now;
  }

  abbrev pub add_location : LocationOrm → Action Database Location
  add_location new db = elim (insert_row location_conflict new db.locations) [
    | raise e ↦ (raise e, db)
    | ok rows ↦ (ok (location_to_domain new), record db { locations = rows })
  ]

  -- A check that raises ends the method.
  abbrev pub checked : Result (Unit {0}) → Action Database Location → Action Database Location
  checked (raise e) rest db = (raise e, db)
  checked (ok _) rest db = rest db

  unfoldable pub create_location : ℕ → ℕ → ℕ → LocationCreate → Action Database Location
  unfolding check_name_conflict check_alias_conflicts location_to_domain
  create_location now new_id user_id create db =
      checked (check_name_conflict user_id create.name none db)
        (checked (check_alias_conflicts user_id create.aliases none db)
          (add_location (new_location now new_id user_id create)))
        db

  unfoldable pub list_locations : ℕ → Bool → Database → List Location
  list_locations user_id include_disabled db =
      map location_to_domain
        (select (λ loc. loc.user_id == user_id && (include_disabled || loc.enabled)) db.locations)

  unfoldable pub get_location : ℕ → Database → Option Location
  get_location location_id db = elim (get_location_orm location_id db) [
    | none ↦ none
    | some orm ↦ some (location_to_domain orm)
  ]

  -- The object is changed and flushed.
  abbrev pub set_location : ℕ → (LocationOrm → LocationOrm) → Action Database Location
  set_location location_id f db = elim (get_location_orm location_id db) [
    | none ↦ (raise (location_not_found location_id), db)
    | some orm ↦ (
      ok (location_to_domain (f orm)),
      record db { locations = update_where (is_location location_id) f db.locations },
    )
  ]

  unfoldable pub enable_location : ℕ → ℕ → Action Database Location
  enable_location now location_id =
      set_location location_id (λ orm. record orm { enabled = true; updated_at = now })

  unfoldable pub disable_location : ℕ → ℕ → Action Database Location
  disable_location now location_id =
      set_location location_id (λ orm. record orm { enabled = false; updated_at = now })

  abbrev pub rename : ℕ → ℕ → Option String → Action Database (Unit {0})
  rename user_id location_id none db = (ok tt, db)
  rename user_id location_id (some name) db =
      elim (check_name_conflict user_id name (some location_id) db) [
        | raise e ↦ (raise e, db)
        | ok _ ↦ (ok tt, write_location location_id (λ orm. record orm { name = name }) db)
      ]

  abbrev pub realias : ℕ → ℕ → Option (List String) → Action Database (Unit {0})
  realias user_id location_id none db = (ok tt, db)
  realias user_id location_id (some aliases) db =
      elim (check_alias_conflicts user_id aliases (some location_id) db) [
        | raise e ↦ (raise e, db)
        | ok _ ↦ (ok tt, write_location location_id (λ orm. record orm { aliases = aliases }) db)
      ]

  abbrev pub and_then :
      {A : Type 0} → Result (Unit {0}) × Database → Action Database A → Result A × Database
  and_then (raise e, db) rest = (raise e, db)
  and_then (ok _, db) rest = rest db

  -- The name is assigned, and flushed by the query of the check of the aliases, before that check
  -- can raise.
  unfoldable pub update_location : ℕ → ℕ → LocationUpdate → Action Database Location
  unfolding check_name_conflict check_alias_conflicts
  update_location now location_id update db = elim (get_location_orm location_id db) [
    | none ↦ (raise (location_not_found location_id), db)
    | some orm ↦ and_then (rename orm.user_id location_id update.name db) (λ db'.
        and_then (realias orm.user_id location_id update.aliases db')
          (set_location location_id (updated_location now update)))
  ]

  -- The query is the name of a row, or else an alias of one.
  abbrev pub is_named : ℕ → String → LocationOrm → Bool
  is_named user_id query loc = is_active user_id loc && same_name loc.name query

  abbrev pub has_alias : ℕ → String → LocationOrm → Bool
  has_alias user_id query loc = is_active user_id loc && any (λ a. same_name a query) loc.aliases

  abbrev pub or_else_ref : Option LocationOrm → Option LocationOrm → Option LocationRef
  or_else_ref (some loc) rest = some (ref_of loc)
  or_else_ref none none = none
  or_else_ref none (some loc) = some (ref_of loc)

  unfoldable pub resolve_location : String → ℕ → Database → Option LocationRef
  resolve_location query user_id db =
      or_else_ref (find (is_named user_id query) db.locations)
        (find (has_alias user_id query) db.locations)

  abbrev pub is_home_name : String → Bool
  is_home_name name = str_eq (normalize name) "dom" || str_eq (normalize name) "home"

  abbrev pub is_home_location : LocationOrm → Bool
  is_home_location loc = is_home_name loc.name || any is_home_name loc.aliases

  unfoldable pub get_default_location : ℕ → Database → Option LocationRef
  get_default_location user_id db =
      let locations = order_by (λ l. l.id) (select (is_active user_id) db.locations) in
      or_else_ref (find is_home_location locations) (head? locations)
