-- ===== src/Notifications/Claims.antt =====
-- The claim of a notification: who may send it, for how long, and that it is not sent again.
use weather_agent.Prelude.{
  ℕ, ◌+◌, ◌<◌, ◌≡◌, refl, sym, ap, ◌∙◌, inl, inr, Bool, true, false, Option, none, some, ◌∷◌,
  String, arith, Result, ok, raise, eq_iff, any, select, find, head?-select, any_mono, Result-cases,
  scalar_one_or_none-take, Option-cases, integrity_error,
}
use weather_agent.Database.{NotificationEventOrm, sent, EvaluationDetail, Database, event_conflict}
use weather_agent.Rules.Model.{NotificationRule, NotificationEvent}
use weather_agent.Rules.Rows.{Env}
use weather_agent.Notifications.Dedupe.{DedupeKey}
use weather_agent.Notifications.Events.{
  EventService, event_to_domain, claims, existing_claim, claimed_since, take_over,
  generate_unique_event_id, new_event, event_hash, create_event, create_event_once,
  created_or_yield,
}

pub existing_claim-find :
    (rule_id : ℕ) (hash : String) (db : Database)
    → existing_claim rule_id hash db ≡ ok (find (claims rule_id hash) db.events)
existing_claim-find rule_id hash db =
    scalar_one_or_none-take (select (claims rule_id hash) db.events)
    ∙ ap ok (head?-select (claims rule_id hash) db.events)

module _ (service : EventService) where
  -- An event that is created was in nobody's way, and stands first in the table.
  pub created_at_head :
      (env : Env) (rule : NotificationRule) (evaluation : Option EvaluationDetail)
      (key : Option DedupeKey) (payload : Option EvaluationDetail) (db : Database)
      (event : NotificationEvent)
      → (create_event service env rule evaluation key payload db).0 ≡ ok event
      → (short_id : String) × (let new =
            new_event service env short_id rule evaluation (event_hash service key payload) in
          (any (event_conflict new) db.events ≡ false)
          × ((create_event service env rule evaluation key payload db).1.events ≡ new ∷ db.events)
          × (event ≡ event_to_domain new))
  unfolding create_event
  created_at_head env rule evaluation key payload db event h =
      elim (Result-cases (generate_unique_event_id service env db)) [
        | inl (id, e) ↦ (id, ground arith)
        | inr (error, e) ↦ absurd (ground arith)
      ]

  pub created_or_yield-true :
      (rule_id : ℕ) (hash : String) (out : Result NotificationEvent × Database)
      (event : NotificationEvent)
      → (created_or_yield service rule_id hash out).0 ≡ ok (event, true)
      → (out.0 ≡ ok event) × ((created_or_yield service rule_id hash out).1 ≡ out.1)
  created_or_yield-true rule_id hash (ok e, db) event h = (ground arith, refl)
  created_or_yield-true rule_id hash (raise integrity_error, db) event h = absurd (ground arith)
  created_or_yield-true rule_id hash (raise e, db) event h = absurd (ground arith)

  -- A claim of another session is in the way of the new one.
  pub claims-event_conflict :
      (env : Env) (short_id : String) (rule : NotificationRule)
      (evaluation : Option EvaluationDetail) (hash : String) (e : NotificationEventOrm)
      → claims rule.id hash e ≡ true
      → event_conflict (new_event service env short_id rule evaluation (some hash)) e ≡ true
  unfolding new_event
  claims-event_conflict env short_id rule evaluation hash e h = elim (Option-cases e.payload_hash) [
    | inl p ↦ absurd (ground arith)
    | inr (x, p) ↦ ground (arith, eq_iff x hash, eq_iff hash x)
  ]

module _ (service : EventService) (env : Env) (others : Database → Database)
    (rule : NotificationRule) (evaluation : Option EvaluationDetail) (key : DedupeKey)
    (payload : Option EvaluationDetail) (lease : ℕ) (db : Database) where
  abbrev hash : String
  hash = service.hashing.sha256 key.dedupe_key

  abbrev once : Result (NotificationEvent × Bool) × Database
  once = create_event_once service env others rule evaluation key payload lease db

  pub once-existing :
      (e : NotificationEventOrm)
      → find (claims rule.id hash) db.events ≡ some e
      → once ≡ take_over env.now lease e (others db)
  unfolding create_event_once
  once-existing e h = ground (arith, existing_claim-find rule.id hash db)

  pub once-new :
      find (claims rule.id hash) db.events ≡ none
      → once
        ≡ created_or_yield service rule.id hash
            (create_event service env rule evaluation (some key) payload (others db))
  unfolding create_event_once
  once-new h = ground (arith, existing_claim-find rule.id hash db)

  -- A notification whose claim has been sent is never claimed again, however late, and this call
  -- writes nothing.
  pub create_event_once-sent :
      (e : NotificationEventOrm)
      → find (claims rule.id hash) db.events ≡ some e
      → e.delivery_status ≡ sent
      → once ≡ (ok (event_to_domain e, false), others db)
  unfolding take_over
  create_event_once-sent e h s = once-existing e h ∙ ground arith

  -- While the lease of a claim lasts, the claim is refused and this call writes nothing.
  pub create_event_once-held :
      (e : NotificationEventOrm)
      → find (claims rule.id hash) db.events ≡ some e
      → env.now < claimed_since e + lease
      → once ≡ (ok (event_to_domain e, false), others db)
  unfolding take_over
  create_event_once-held e h l = once-existing e h ∙ ground arith

  -- A session that adds the claim does so where no other session has one: whatever the others
  -- committed in between, no row with the rule and the hash is active.
  pub create_event_once-exclusive :
      (event : NotificationEvent)
      → find (claims rule.id hash) db.events ≡ none
      → once.0 ≡ ok (event, true)
      → any (claims rule.id hash) (others db).events ≡ false
  create_event_once-exclusive event h e =
      let (made, _) =
        created_or_yield-true service rule.id hash _ event
          (ap (λ (x : Result (NotificationEvent × Bool) × Database). x.0) (sym (once-new h)) ∙ e) in
      let (short_id, (free, _, _)) =
        created_at_head service env rule evaluation (some key) payload (others db) event made in
      any_mono (claims rule.id hash) _ (others db).events
        (claims-event_conflict service env short_id rule evaluation hash) free
