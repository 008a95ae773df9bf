-- ===== src/Rules/Context.antt =====
-- domain/rules/notification_context.py. Pydantic's `model_dump` and `model_validate` of a context,
-- `json.dumps` and `str.lower` are parameters.
use weather_agent.Prelude.{
  ℕ, ◌&&◌, Bool, true, false, Option, none, some, String, if◌then◌else◌, is_space,
}
use weather_agent.Rules.Model.{ScheduledNotificationContext}

-- The dictionary that the fingerprint is the text of.
pub record StableContext : Type 0 where
  pub human_request : String
  pub schedule : String
  pub location_id : Option ℕ
  pub location_name : Option String

pub record ContextCodec : Type 0 where
  pub model_dump : ScheduledNotificationContext → String
  pub model_validate : String → Option ScheduledNotificationContext
  pub json_dumps : StableContext → String
  pub lower : String → String

-- `" ".join(text.split())`: whether a word has begun, and whether space has come since.
join_split_from : Bool → Bool → String → String
join_split_from started gap String.[] = String.[]
join_split_from started gap (String.◌∷◌ c s) =
    let skip = join_split_from started true s in
    let keep = join_split_from true false s in
    if is_space c
    then skip
    else if started && gap
    then String.◌∷◌ " " (String.◌∷◌ c keep)
    else String.◌∷◌ c keep

unfoldable pub join_split : String → String
unfolding join_split_from
join_split = join_split_from false false

module _ (codec : ContextCodec) where
  unfoldable pub notification_context_from_mapping :
      Option String → Option ScheduledNotificationContext
  notification_context_from_mapping none = none
  notification_context_from_mapping (some value) = codec.model_validate value

  unfoldable pub stable_context : ScheduledNotificationContext → StableContext
  stable_context context = record {
    human_request = join_split (codec.lower context.human_request);
    schedule = context.schedule;
    location_id = context.location_id;
    location_name = elim context.location_name [
      | none ↦ none
      | some name ↦ some (join_split (codec.lower name))
    ];
  }

  unfoldable pub notification_context_fingerprint : Option ScheduledNotificationContext → String
  unfolding stable_context
  notification_context_fingerprint none = ""
  notification_context_fingerprint (some context) = codec.json_dumps (stable_context context)
