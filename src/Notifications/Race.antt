-- ===== src/Notifications/Race.antt =====
-- Taking over a claim whose lease has run out is not exclusive.
use weather_agent.Prelude.{
  ℕ, ◌+◌, ◌≤◌, ◌≡◌, true, some, arith, ok, ◌==◌, ==_refl, any-overwrite, find-overwrite,
}
use weather_agent.Database.{NotificationEventOrm, Database}
use weather_agent.Rules.Model.{NotificationEvent}
use weather_agent.Notifications.Events.{
  get_event_orm, in_the_way, claimed_since, claimed_again, take_over, event_to_domain,
}

-- Two sessions read the same claim after its lease has run out, and the second takes it over after
-- the first: both are told that the notification is theirs to send.
pub take_over-race :
    (now later lease : ℕ) (e : NotificationEventOrm) (db : Database) (event : NotificationEvent)
    → get_event_orm e.id db ≡ some e
    → claimed_since e + lease ≤ now
    → now ≤ later
    → (take_over now lease e db).0 ≡ ok (event, true)
    → (event' : NotificationEvent) × ((take_over later lease e (take_over now lease e db).1).0
        ≡ ok (event', true))
      × (event'.id ≡ event.id)
unfolding take_over event_to_domain
take_over-race now later lease e db event g expired order first =
    let n = claimed_again now e e in
    (
      event_to_domain (claimed_again later e n),
      ground (
        arith,
        find-overwrite (λ y. y.id == e.id) (λ y. y.id == e.id) n db.events e g,
        any-overwrite (in_the_way n) (λ y. y.id == e.id) n db.events,
        ==_refl e.id,
      ),
      ground arith,
    )
