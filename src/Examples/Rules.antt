-- ===== src/Examples/Rules.antt =====
-- The rule service.
use weather_agent.Prelude.{
  ℕ, ◌≡◌, ◌≢◌, refl, true, false, none, some, [], ◌∷◌, String, ok, raise, short_id_collision,
  expression_validation, integrity_error, Result, str_eq, ◌==◌, any, All, IsOrdered, length,
  if◌then◌else◌, lstrip_hash,
}
use weather_agent.Database.{NotificationRuleOrm}
use weather_agent.ShortId.{
  unique_short_id, unique_short_id-fresh, unique_short_id-collision, generate_short_id,
  strip_hash_prefix,
}
use weather_agent.Rules.Model.{
  ScheduledNotificationContext, RuleCreate, NotificationRule, RuleUpdate,
}
use weather_agent.Rules.Context.{
  join_split, notification_context_fingerprint, notification_context_from_mapping,
}
use weather_agent.Rules.Rows.{RuleService, get_orm, orm_to_domain, new_rule}
use weather_agent.Rules.Service.{
  list_rules, list_all_enabled_rules, create_rule, get_rule, get_rule_for_user,
  find_matching_scheduled_rule, update_rule, delete_rule, disable_rule, generate_unique_short_id,
}
use weather_agent.Rules.Invariant.{
  create, delete, enable, HasUniqueRules, perform_all, perform_all-HasUniqueRules,
}
use weather_agent.Rules.Queries.{list_rules-listed, get_rule_for_user-owned}
use weather_agent.Rules.Matching.{
  Matches, find_matching_scheduled_rule_sound, find_matching_scheduled_rule_complete,
}
use weather_agent.Rules.Changes.{
  created_rule, create_rule-get_rule, create_rule-refused, update_rule-fields, delete_rule-unused,
  delete_rule-evaluated, disable_rule-list_all_enabled_rules, IsUnlinked,
}
use weather_agent.Examples.Fixtures.{
  service, codec, row, rule, two_rules, no_update, env, create_data, bad_data, evaluated_rules,
}

abbrev created : NotificationRule
created = record rule { id = 9; short_id = "RCCCC"; created_at = 100; updated_at = 100 }

abbrev update : RuleUpdate
update = record no_update { expression = some "y"; cooldown_minutes = some 5 }

abbrev generated : ℕ → Result String
generated n = if n == 0 then ok "RAAAA" else ok "RCCCC"

unique_short_id-fresh_test : any (λ r. str_eq r.short_id "RCCCC") two_rules.rules ≡ false
unfolding unique_short_id
unique_short_id-fresh_test =
    unique_short_id-fresh (λ r. r.short_id) generated 10 two_rules.rules 0 "RCCCC" refl

unique_short_id-collision_test :
    unique_short_id {A = NotificationRuleOrm}
      (λ r. r.short_id)
      (λ _. ok "RAAAA")
      2
      two_rules.rules
      0
    ≡ raise short_id_collision
unique_short_id-collision_test =
    unique_short_id-collision (λ r. r.short_id) (λ _. ok "RAAAA") 2 two_rules.rules 0
      (("RAAAA", refl, refl), (("RAAAA", refl, refl), tt))

perform_all-HasUniqueRules_test :
    HasUniqueRules
      (perform_all service (create env 7 create_data ∷ enable 5 1 ∷ delete 6 2 ∷ []) two_rules)
perform_all-HasUniqueRules_test =
    perform_all-HasUniqueRules service (create env 7 create_data ∷ enable 5 1 ∷ delete 6 2 ∷ [])
      two_rules (refl, (refl, tt))

list_rules-listed_test :
    All
      (λ r. (r.user_id ≡ 7) × (false ≡ false → r.enabled ≡ true))
      (list_rules service 7 false two_rules)
    × IsOrdered (λ r. r.id) (list_rules service 7 false two_rules)
list_rules-listed_test = list_rules-listed service 7 false two_rules

get_rule_for_user-owned_test : (orm_to_domain codec (row 1 "RAAAA")).user_id ≡ 7
unfolding get_rule_for_user strip_hash_prefix lstrip_hash
get_rule_for_user-owned_test =
    get_rule_for_user-owned service 7 none (some "#RAAAA") two_rules
      (orm_to_domain codec (row 1 "RAAAA")) refl

find_matching_scheduled_rule_sound_test :
    Matches service 7 70 none 3 "x > 1" "once:2026-05-02T08:00" none
      (orm_to_domain codec (row 1 "RAAAA"))
    × (notification_context_fingerprint codec none ≡ notification_context_fingerprint codec none)
unfolding find_matching_scheduled_rule notification_context_fingerprint orm_to_domain
    notification_context_from_mapping
find_matching_scheduled_rule_sound_test =
    find_matching_scheduled_rule_sound service 7 70 none 3 "x > 1" "once:2026-05-02T08:00" none
      two_rules (orm_to_domain codec (row 1 "RAAAA")) refl

find_matching_scheduled_rule_complete_test :
    (r : NotificationRule) × (find_matching_scheduled_rule service 7 70 none 3 "x > 1"
        "once:2026-05-02T08:00" none two_rules
      ≡ some r)
unfolding notification_context_fingerprint orm_to_domain notification_context_from_mapping
find_matching_scheduled_rule_complete_test =
    find_matching_scheduled_rule_complete service 7 70 none 3 "x > 1" "once:2026-05-02T08:00" none
      two_rules refl

create_rule-refused_test :
    create_rule service env 7 bad_data two_rules
    ≡ (raise (expression_validation "bad" "syntax"), two_rules)
create_rule-refused_test = create_rule-refused service env 7 bad_data two_rules "syntax" refl

delete_rule-evaluated_test :
    delete_rule 1 evaluated_rules ≡ (raise integrity_error, evaluated_rules)
delete_rule-evaluated_test =
    delete_rule-evaluated service 1 evaluated_rules (row 1 "RAAAA") refl refl

delete_rule-unused_test :
    let (r, db') = delete_rule 1 two_rules in
    (r ≡ ok true)
    × (get_orm 1 db' ≡ none)
    × ((other : ℕ) → other ≢ 1 → get_orm other db' ≡ get_orm other two_rules)
    × All (IsUnlinked service 1) db'.events
    × (length db'.events ≡ 0)
delete_rule-unused_test = delete_rule-unused service 1 two_rules (row 1 "RAAAA") refl refl

disable_rule-list_all_enabled_rules_test :
    All (λ r. r.id ≢ 2) (list_all_enabled_rules service (disable_rule service 5 2 two_rules).1)
disable_rule-list_all_enabled_rules_test =
    disable_rule-list_all_enabled_rules service 5 2 two_rules (row 2 "RBBBB") refl

abbrev given_context : ScheduledNotificationContext
given_context = record {
  scheduling_message = "Przypomnij o mrozie";
  human_request = "Mróz";
  schedule = "cron:0 7 * * *";
  location_id = some 3;
  location_name = some "Opole";
  prior_turns = [];
}

-- A codec that reads this context.
abbrev reading_service : RuleService
reading_service = record service {
  codec = record codec { model_validate = λ s. some given_context };
}

abbrev given_data : RuleCreate
given_data = record create_data { notification_context = some given_context }

abbrev given_rule : NotificationRule
given_rule = record created { notification_context = some given_context }

given_reads :
    (c : ScheduledNotificationContext) → some given_context ≡ some c → some given_context ≡ some c
given_reads c h = h

create_rule-get_rule_example :
    let db' = (create_rule reading_service env 7 given_data two_rules).1 in
    (given_rule ≡ created_rule reading_service env 7 given_data "RCCCC")
    × (get_rule reading_service (some 9) none db' ≡ ok (some given_rule))
    × (db' ≡ record two_rules { rules = db'.rules })
    × ((other : ℕ) → other ≢ 9 → get_orm other db' ≡ get_orm other two_rules)
unfolding create_rule generate_unique_short_id unique_short_id generate_short_id orm_to_domain
    notification_context_from_mapping new_rule
create_rule-get_rule_example =
    create_rule-get_rule reading_service env 7 given_data two_rules given_rule given_reads refl

update_rule-fields_test :
    let db' = (update_rule service 5 1 update two_rules).1 in
    ((new : NotificationRuleOrm) × (get_orm 1 db' ≡ some new)
      × ((new.user_id ≡ 7)
          × (new.short_id ≡ "RAAAA")
          × (new.snooze_until ≡ none)
          × (new.expression ≡ "y")
          × (new.schedule ≡ some "once:2026-05-02T08:00")
          × (new.cooldown_minutes ≡ some 5)
          × (new.enabled ≡ true)
          × (new.dry_run ≡ false)
          × (new.updated_at ≡ 5)))
    × ((other : ℕ) → other ≢ 1 → get_orm other db' ≡ get_orm other two_rules)
update_rule-fields_test = update_rule-fields service 5 1 update two_rules (row 1 "RAAAA") refl refl

join_split_test : join_split "  ala  ma\tkota " ≡ "ala ma kota"
unfolding join_split
join_split_test = refl
