-- ===== src/Toolbox/Propose.antt =====
-- The tools that store a proposal, and the list of the rules.
use Prim.Native.Char.{code}
use Prim.Native.String.{◌++◌}
use weather_agent.Prelude.{
  ℕ, zero, suc, Bool, true, false, Option, none, some, [], ◌∷◌, map, String, Result, ok, raise,
  Action, and_then, ◌==◌, str_eq, if◌then◌else◌, is_empty, strip, length,
}
use weather_agent.Database.{Database}
use weather_agent.ShortId.{strip_hash_prefix}
use weather_agent.Rules.Model.{NotificationRule}
use weather_agent.Rules.Service.{list_rules, get_rule_for_user}
use weather_agent.Locations.{
  Location, LocationCreate, LocationRef, create_location as add_location,
  resolve_location as find_location, get_default_location,
}
use weather_agent.Memory.{store_pending_confirmation}
use weather_agent.Toolbox.Model.{
  PendingAction, create_rule, edit_rule, delete_notification as deletes, PendingConfirmation, Place,
  RulesToolbox, ToolEnv, ListedRule, ToolResult, error, proposal, rules, Tool,
}

-- `text[:n]`
abbrev pub take_text : ℕ → String → String
take_text zero s = String.[]
take_text (suc n) String.[] = String.[]
take_text (suc n) (String.◌∷◌ c s) = String.◌∷◌ c (take_text n s)

-- `text.replace("#", "")`
abbrev pub remove_hash : String → String
remove_hash String.[] = String.[]
remove_hash (String.◌∷◌ c s) =
    let rest = remove_hash s in if code c == b'#' then rest else String.◌∷◌ c rest

-- `a or b`, and `a or ""` for an optional text
abbrev pub or_text : String → String → String
or_text a b = if is_empty a then b else a

abbrev pub text_or_empty : Option String → String
text_or_empty none = ""
text_or_empty (some s) = s

abbrev pub none_if_empty : String → Option String
none_if_empty s = if is_empty s then none else some s

module _ (t : RulesToolbox) where
  abbrev pub location_pair : LocationRef → ℕ × String
  location_pair ref = (ref.id, ref.name)

  abbrev pub created_pair : Location → ℕ × String
  created_pair loc = (loc.id, loc.name)

  abbrev pub location_of_place : String → Place → LocationCreate
  location_of_place name place = record {
    name = place.name;
    aliases = if str_eq (t.unicode.lower name) (t.unicode.lower place.name) then [] else name ∷ [];
    latitude = place.latitude;
    longitude = place.longitude;
    description = none;
  }

  -- What `create_location` raises is logged.
  abbrev pub created_or_none : Result Location × Database → Result (Option (ℕ × String)) × Database
  created_or_none (raise e, db) = (ok none, db)
  created_or_none (ok loc, db) = (ok (some (created_pair loc)), db)

  abbrev pub saved_place :
      ToolEnv → String → Result (Option Place) → Action Database (Option (ℕ × String))
  saved_place env name (raise e) db = (raise e, db)
  saved_place env name (ok none) db = (ok none, db)
  saved_place env name (ok (some place)) db = created_or_none (
      add_location t.unicode env.rules.now env.location_id t.user_id (location_of_place name place)
        db)

  abbrev pub default_pair : Option LocationRef → Option (ℕ × String)
  default_pair none = none
  default_pair (some ref) = some (location_pair ref)

  abbrev pub resolved_or_saved :
      ToolEnv → String → Option LocationRef → Action Database (Option (ℕ × String))
  resolved_or_saved env name (some ref) db = (ok (some (location_pair ref)), db)
  resolved_or_saved env name none db = saved_place env name (t.geocode name) db

  -- `_resolve_location`: the id and the name, both or none.
  unfoldable pub resolve_location : ToolEnv → String → Action Database (Option (ℕ × String))
  resolve_location env name db =
      if is_empty (strip name)
      then (ok (default_pair (get_default_location t.unicode t.user_id db)), db)
      else resolved_or_saved env name (find_location t.unicode name t.user_id db) db

  abbrev pub first_of : Option (ℕ × String) → Option ℕ
  first_of none = none
  first_of (some (id, name)) = some id

  -- The refusal of a name that no location has.
  abbrev pub unless_unknown : String → Option ℕ → Tool → Tool
  unless_unknown name (some id) rest db = rest db
  unless_unknown name none rest db =
      if is_empty (strip name)
      then rest db
      else (ok (error ("Nie znaleziono lokalizacji: " ++ name)), db)

  abbrev pub clean_short_id : String → String
  clean_short_id short_id = strip_hash_prefix (remove_hash (t.upper short_id))

  abbrev pub propose_action : String → PendingAction
  propose_action edit_short_id = if is_empty edit_short_id then create_rule else edit_rule

  abbrev pub proposed : ToolEnv → String → String → String → Option ℕ → PendingConfirmation
  proposed env rule_expression explanation edit_short_id location = record {
    action = propose_action edit_short_id;
    rule_expression = rule_expression;
    explanation = explanation;
    validated = true;
    location_id = location;
    chat_id = some t.chat_id;
    message_thread_id = t.message_thread_id;
    stored_at = some env.rules.now;
    edit_short_id = none_if_empty edit_short_id;
    delete_short_id = none;
    schedule = none;
    lead_time_minutes = none;
    notification_context = none;
  }

  abbrev pub proposal_text : String → String → String → String
  proposal_text rule_expression explanation edit_short_id =
      (if is_empty edit_short_id
        then "Propozycja nowej reguły"
        else "Propozycja edycji reguły #" ++ edit_short_id)
      ++ ":\n\n📝 Wyrażenie reguły: `"
      ++ rule_expression
      ++ "`\n📖 Opis: "
      ++ explanation
      ++ "\n\nCzy chcesz potwierdzić? (tak/nie)"

  -- A proposal is stored, then shown.
  abbrev pub store_and_show : ToolEnv → PendingConfirmation → String → Tool
  store_and_show env pending text db =
      and_then
        (store_pending_confirmation env.rules.now env.context_id t.context_key
          (t.pending.to_dict pending) db)
        (λ _ db'. (ok (proposal text), db'))

  abbrev pub propose_valid : ToolEnv → String → String → String → String → Tool
  propose_valid env rule_expression explanation location_name edit_short_id db =
      let clean = if is_empty edit_short_id then edit_short_id else clean_short_id edit_short_id in
      and_then (resolve_location env location_name db) (λ found.
        unless_unknown location_name (first_of found) (
          store_and_show env (proposed env rule_expression explanation clean (first_of found))
            (proposal_text rule_expression explanation clean)))

  abbrev pub propose_if : ToolEnv → String → String → String → String → Option String → Tool
  propose_if env rule_expression explanation location_name edit_short_id (some e) db =
      (ok (error ("Nieprawidłowe wyrażenie reguły: " ++ e)), db)
  propose_if env rule_expression explanation location_name edit_short_id none db =
      propose_valid env rule_expression explanation location_name edit_short_id db

  -- `_execute_propose`
  unfoldable pub execute_propose : ToolEnv → String → String → String → String → Tool
  unfolding resolve_location
  execute_propose env rule_expression explanation location_name edit_short_id =
      propose_if env rule_expression explanation location_name edit_short_id
        (t.service.validate rule_expression)

  abbrev pub deletion : ToolEnv → String → PendingConfirmation
  deletion env short_id = record {
    action = deletes;
    rule_expression = "";
    explanation = "";
    validated = false;
    location_id = none;
    chat_id = some t.chat_id;
    message_thread_id = t.message_thread_id;
    stored_at = some env.rules.now;
    edit_short_id = none;
    delete_short_id = some short_id;
    schedule = none;
    lead_time_minutes = none;
    notification_context = none;
  }

  abbrev pub description_line : String → String
  description_line description = if is_empty description then "" else "\nOpis: " ++ description

  abbrev pub deletion_text : NotificationRule → String
  deletion_text rule =
      "Czy na pewno usunąć powiadomienie #"
      ++ rule.short_id
      ++ "?"
      ++ description_line (text_or_empty rule.description)
      ++ "\nOdpowiedz: tak/nie."

  abbrev pub propose_deletion : ToolEnv → String → Result (Option NotificationRule) → Tool
  propose_deletion env clean_id (raise e) db = (raise e, db)
  propose_deletion env clean_id (ok none) db =
      (ok (error ("Nie znaleziono powiadomienia #" ++ clean_id)), db)
  propose_deletion env clean_id (ok (some existing)) db =
      store_and_show env (deletion env existing.short_id) (deletion_text existing) db

  unfoldable pub delete_notification : ToolEnv → String → Tool
  delete_notification env short_id db =
      let clean_id = clean_short_id (strip short_id) in
      if is_empty clean_id
      then (ok (error "Podaj ID powiadomienia do usunięcia, np. #R1A2B3."), db)
      else propose_deletion env clean_id
          (get_rule_for_user t.service t.user_id none (some clean_id) db) db

  abbrev pub listed_rule : NotificationRule → ListedRule
  listed_rule r = record {
    short_id = "#" ++ r.short_id;
    expression = r.expression;
    description = text_or_empty r.description;
    enabled = r.enabled;
    location_id = r.location_id;
  }

  unfoldable pub list_notification_rules : Bool → Database → ToolResult
  list_notification_rules include_disabled db =
      let listed = map listed_rule (list_rules t.service t.user_id include_disabled db) in
      rules listed (length listed)
