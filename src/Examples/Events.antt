-- ===== src/Examples/Events.antt =====
-- The events of notifications.
use weather_agent.Prelude.{
  ℕ, ◌+◌, ◌*◌, ◌≤◌, ◌<◌, ◌≡◌, ◌≢◌, refl, Bool, true, false, Option, none, some, String, arith, ok,
  is_some, any, All,
}
use weather_agent.Database.{sent, NotificationEventOrm}
use weather_agent.ShortId.{unique_short_id, generate_short_id}
use weather_agent.Rules.Model.{NotificationEvent}
use weather_agent.Notifications.Dedupe.{
  should_suppress, snooze_reason, cooldown_reason, duplicate_reason, dedupe_hash,
  compute_dedupe_key, compute_key, unchanged_reason, compute_payload_hash, minute,
}
use weather_agent.Notifications.Events.{
  event_to_domain, claims, claimed_again, take_over, create_event_once, create_event, new_event,
  generate_unique_event_id, mark_sent, as_sent, lease_timeout,
}
use weather_agent.Notifications.Suppression.{should_suppress_iff, should_suppress-clear}
use weather_agent.Notifications.Claims.{
  create_event_once-sent, create_event_once-held, create_event_once-exclusive,
}
use weather_agent.Notifications.Delivered.{sent_at_most_once}
use weather_agent.Notifications.Unique.{HasUniqueEvents, here, claim, sent, Reach-HasUniqueEvents}
use weather_agent.Notifications.Race.{take_over-race}
use weather_agent.Examples.Fixtures.{
  hashing, event_service, rule, two_rules, env, later, nobody, key, claimed, delivered, with_event,
  candidate,
}

create_event_once-sent_test :
    create_event_once event_service later nobody rule none key none lease_timeout
      (with_event delivered)
    ≡ (ok (event_to_domain delivered, false), with_event delivered)
create_event_once-sent_test =
    create_event_once-sent event_service later nobody rule none key none lease_timeout
      (with_event delivered) delivered refl refl

create_event_once-held_test :
    create_event_once event_service env nobody rule none key none lease_timeout (with_event claimed)
    ≡ (ok (event_to_domain claimed, false), with_event claimed)
create_event_once-held_test =
    create_event_once-held event_service env nobody rule none key none lease_timeout
      (with_event claimed) claimed refl (omega arith)

abbrev made : NotificationEventOrm
made = record claimed { id = 9; created_at = 100; delivery_claimed_at = some 100 }

create_event_once-exclusive_example : any (claims 1 "1:3:x") two_rules.events ≡ false
unfolding create_event_once create_event generate_unique_event_id new_event event_to_domain
    unique_short_id generate_short_id
create_event_once-exclusive_example =
    create_event_once-exclusive event_service env nobody rule none key none lease_timeout two_rules
      (event_to_domain made) refl refl

sent_at_most_once_example :
    let db' =
      (mark_sent 200 9
        (some "text")
        (create_event_once event_service env nobody rule none key none lease_timeout
          two_rules).1).1 in
    (old : NotificationEvent) × (create_event_once event_service later nobody rule none key none
        lease_timeout db'
      ≡ (ok (old, false), db'))
unfolding create_event_once create_event generate_unique_event_id new_event event_to_domain
    unique_short_id generate_short_id mark_sent
sent_at_most_once_example =
    sent_at_most_once event_service env nobody rule none key none lease_timeout two_rules
      (event_to_domain made) (event_to_domain (as_sent 200 (some "text") made)) 200 (some "text")
      later nobody none none lease_timeout (λ e h. (h, h)) refl refl

take_over-race_test :
    (event' : NotificationEvent) × ((take_over 5000000001 lease_timeout claimed
        (take_over 5000000000 lease_timeout claimed (with_event claimed)).1).0
      ≡ ok (event', true))
    × (event'.id ≡ 5)
unfolding take_over event_to_domain
take_over-race_test =
    take_over-race 5000000000 5000000001 lease_timeout claimed (with_event claimed)
      (event_to_domain (claimed_again 5000000000 claimed claimed)) refl (omega arith) (omega arith)
      refl

Reach-HasUniqueEvents_test :
    HasUniqueEvents
      (create_event_once event_service env nobody rule none key none lease_timeout two_rules).1
Reach-HasUniqueEvents_test =
    Reach-HasUniqueEvents {service = event_service} {start = two_rules} tt
      (claim env nobody rule none key none lease_timeout here here)

should_suppress_iff_example :
    (suppressed : Bool) × (reason : Option String) × (should_suppress hashing 100 rule candidate
        (with_event delivered)
      ≡ ok (suppressed, reason))
    × (is_some reason ≡ suppressed)
    × (suppressed ≡ true)
unfolding dedupe_hash
should_suppress_iff_example = should_suppress_iff hashing 100 rule (with_event delivered) candidate

should_suppress-clear_test :
    ((until : ℕ) → rule.snooze_until ≡ some until → until ≤ 9000000000)
    × All
        (λ e.
          (t : ℕ)
          → e.rule_id ≡ some rule.id
          → e.suppressed ≡ false
          → e.sent_at ≡ some t
          → t + rule.cooldown_minutes * minute < 9000000000)
        (with_event delivered).events
    × ((start end' : ℕ)
        → candidate.forecast_window_start ≡ some start
        → candidate.forecast_window_end ≡ some end'
        → All
            (λ e.
              e.rule_id ≡ some rule.id
              → e.payload_hash ≡ some (dedupe_hash hashing rule (some start) (some end'))
              → e.delivery_status ≢ sent)
            (with_event delivered).events)
unfolding should_suppress snooze_reason cooldown_reason duplicate_reason dedupe_hash
    compute_dedupe_key compute_key unchanged_reason compute_payload_hash
should_suppress-clear_test =
    should_suppress-clear hashing 9000000000 rule (with_event delivered) candidate none refl
