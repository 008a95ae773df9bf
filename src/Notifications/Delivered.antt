-- ===== src/Notifications/Delivered.antt =====
-- From the claim to the sent event: what a session that was given the claim finds, and that a
-- notification that it marks as sent is never claimed again.
use weather_agent.Prelude.{
  ℕ, ◌≡◌, refl, sym, ap, ◌∙◌, inl, inr, Bool, true, false, Option, none, some, List, ◌∷◌, String,
  arith, Result, ok, eq_refl, find, find-overwrite, find-true, ==_refl, ◌==◌, Option-cases,
}
use weather_agent.Database.{NotificationEventOrm, sent, EvaluationDetail, Database}
use weather_agent.Rules.Model.{NotificationRule, NotificationEvent}
use weather_agent.Rules.Rows.{Env}
use weather_agent.Notifications.Dedupe.{DedupeKey}
use weather_agent.Notifications.Events.{
  EventService, event_to_domain, get_event_orm, claims, claimed_again, take_over, new_event,
  create_event, create_event_once, mark_sent, as_sent, created_or_yield,
}
use weather_agent.Notifications.Claims.{
  created_at_head, created_or_yield-true, once-existing, once-new, create_event_once-sent,
}

-- The claim of the rule and the hash is the event with the key.
abbrev pub IsClaimed : ℕ → String → ℕ → Database → Type 0
IsClaimed rule_id hash event_id db =
    (e : NotificationEventOrm) × (find (claims rule_id hash) db.events ≡ some e)
    × (get_event_orm event_id db ≡ some e)

mark_sent-claim :
    (now event_id : ℕ) (text : Option String) (rule_id : ℕ) (hash : String) (db : Database)
    (event : NotificationEvent)
    → IsClaimed rule_id hash event_id db
    → (mark_sent now event_id text db).0 ≡ ok event
    → (e : NotificationEventOrm) × (find
          (claims rule_id hash)
          (mark_sent now event_id text db).1.events
        ≡ some e)
      × (e.delivery_status ≡ sent)
unfolding mark_sent
mark_sent-claim now event_id text rule_id hash db event (e, c, g) h = (
  as_sent now text e,
  ground (
    arith,
    find-overwrite (claims rule_id hash) (λ x. x.id == e.id) (as_sent now text e) db.events e c,
    ==_refl e.id,
    find-true (claims rule_id hash) db.events e c,
  ),
  refl,
)

module _ (service : EventService) (env : Env) (others : Database → Database)
    (rule : NotificationRule) (evaluation : Option EvaluationDetail) (key : DedupeKey)
    (payload : Option EvaluationDetail) (lease : ℕ) (db : Database) where
  abbrev key_hash : String
  key_hash = service.hashing.sha256 key.dedupe_key

  abbrev claim : Result (NotificationEvent × Bool) × Database
  claim = create_event_once service env others rule evaluation key payload lease db

  take_over-IsClaimed :
      (e : NotificationEventOrm) (event : NotificationEvent) (db' : Database)
      → find (claims rule.id key_hash) db'.events ≡ some e
      → get_event_orm e.id db' ≡ some e
      → (take_over env.now lease e db').0 ≡ ok (event, true)
      → IsClaimed rule.id key_hash event.id (take_over env.now lease e db').1
  unfolding take_over event_to_domain
  take_over-IsClaimed e event db' c g h =
      let new = claimed_again env.now e e in
      (
        new,
        ground (
          arith,
          find-overwrite (claims rule.id key_hash) (λ y. y.id == e.id) new db'.events e c,
          ==_refl e.id,
          find-true (claims rule.id key_hash) db'.events e c,
        ),
        ground (
          arith,
          find-overwrite (λ y. y.id == e.id) (λ y. y.id == e.id) new db'.events e g,
          ==_refl e.id,
        ),
      )

  claims-head :
      (short_id : String) (events : List NotificationEventOrm)
      → let new = new_event service env short_id rule evaluation (some key_hash) in
        find (claims rule.id key_hash) (new ∷ events) ≡ some new
  unfolding new_event
  claims-head short_id events = ground (arith, ==_refl rule.id, eq_refl key_hash)

  id-head :
      (short_id : String) (event : NotificationEvent)
      → event ≡ event_to_domain (new_event service env short_id rule evaluation (some key_hash))
      → (events : List NotificationEventOrm)
      → let new = new_event service env short_id rule evaluation (some key_hash) in
        find (λ x. x.id == event.id) (new ∷ events) ≡ some new
  unfolding new_event event_to_domain
  id-head short_id event is events = ground (arith, ==_refl env.new_id)

  created-IsClaimed :
      (event : NotificationEvent)
      → find (claims rule.id key_hash) db.events ≡ none
      → claim.0 ≡ ok (event, true)
      → IsClaimed rule.id key_hash event.id claim.1
  created-IsClaimed event c h =
      let out = create_event service env rule evaluation (some key) payload (others db) in
      let (made, same) =
        created_or_yield-true service rule.id key_hash out event (
          ap (λ (x : Result (NotificationEvent × Bool) × Database). x.0) (sym (new_claim c)) ∙ h) in
      let (short_id, (free, head, is)) =
        created_at_head service env rule evaluation (some key) payload (others db) event made in
      let new = new_event service env short_id rule evaluation (some key_hash) in
      let rows =
        ap (λ (x : Result (NotificationEvent × Bool) × Database). x.1.events) (new_claim c)
        ∙ ap (λ (x : Database). x.events) same
        ∙ head in
      (
        new,
        ap (find (claims rule.id key_hash)) rows ∙ claims-head short_id (others db).events,
        ap (find (λ x. x.id == event.id)) rows ∙ id-head short_id event is (others db).events,
      )
    where
      new_claim :
          find (claims rule.id key_hash) db.events ≡ none
          → claim
            ≡ created_or_yield service rule.id key_hash
                (create_event service env rule evaluation (some key) payload (others db))
      new_claim = once-new service env others rule evaluation key payload lease db

  -- The other sessions leave a claim that is found alone until it is taken over, and it is the row
  -- with its key. Where no claim is found they may do anything.
  abbrev LeftAlone : Type 0
  LeftAlone =
      (e : NotificationEventOrm)
      → find (claims rule.id key_hash) db.events ≡ some e
      → (find (claims rule.id key_hash) (others db).events ≡ some e)
        × (get_event_orm e.id (others db) ≡ some e)

  -- The session that is given the claim finds it under the key of the event it was given.
  create_event_once-IsClaimed :
      (event : NotificationEvent)
      → LeftAlone
      → claim.0 ≡ ok (event, true)
      → IsClaimed rule.id key_hash event.id claim.1
  create_event_once-IsClaimed event alone h =
      elim (Option-cases (find (claims rule.id key_hash) db.events)) [
        | inl c ↦ created-IsClaimed event c h
        | inr (e, c) ↦
            let same = once-existing service env others rule evaluation key payload lease db e c in
            rw same
              (take_over-IsClaimed e event (others db) (alone e c).0 (alone e c).1 (rw same at h))
      ]

  -- A notification that was claimed, while the other sessions left a claim that was there alone, and
  -- then marked as sent, is refused to every later call for its rule and its key, whatever the clock,
  -- the lease, the payload and the other sessions of that call, which writes nothing.
  pub sent_at_most_once :
      (event event' : NotificationEvent) (sent_time : ℕ) (text : Option String) (env' : Env)
      (others' : Database → Database) (evaluation' payload' : Option EvaluationDetail) (lease' : ℕ)
      → LeftAlone
      → claim.0 ≡ ok (event, true)
      → (mark_sent sent_time event.id text claim.1).0 ≡ ok event'
      → let db' = (mark_sent sent_time event.id text claim.1).1 in
        (old : NotificationEvent) × (create_event_once service env' others' rule evaluation' key
            payload' lease' db'
          ≡ (ok (old, false), others' db'))
  sent_at_most_once event event' sent_time text env' others' evaluation' payload' lease' alone h m =
      let (e, c, s) =
        mark_sent-claim sent_time event.id text rule.id key_hash claim.1 event'
          (create_event_once-IsClaimed event alone h) m in
      (
        event_to_domain e,
        create_event_once-sent service env' others' rule evaluation' key payload' lease' _ e c s,
      )
