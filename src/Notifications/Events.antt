-- ===== src/Notifications/Events.antt =====
-- domain/notifications/events.py: the methods of `NotificationEventService`, as actions on the
-- database or as queries of it.
use weather_agent.Prelude.{
  ℕ, ◌+◌, ◌*◌, ◌&&◌, Bool, true, false, not, Option, none, some, List, ◌∷◌, map, String,
  integrity_error, stale_data, event_not_found, Result, ok, raise, Action, ltb, ◌==◌, str_eq,
  eq_sql, str_eq_sql, if◌then◌else◌, any, select, find, take, scalar_one_or_none, order_by_desc,
  update_where,
}
use weather_agent.Database.{
  NotificationEventOrm, DeliveryStatus, sending, sent, suppressed, EvaluationDetail, Database,
  is_active_status, event_conflict, insert_row,
}
use weather_agent.ShortId.{
  Choices, generate_short_id, strip_hash_prefix, max_collision_retries, unique_short_id,
}
use weather_agent.Rules.Model.{NotificationRule, NotificationEvent}
use weather_agent.Rules.Rows.{Env}
use weather_agent.Notifications.Dedupe.{Hashing, DedupeKey, minute, compute_payload_hash, first_row}

pub record EventService : Type 0 where
  pub choices : Choices
  pub hashing : Hashing

unfoldable pub event_to_domain : NotificationEventOrm → NotificationEvent
event_to_domain orm = record {
  id = orm.id;
  short_id = orm.short_id;
  rule_id = orm.rule_id;
  evaluation_run_id = orm.evaluation_run_id;
  telegram_chat_id = orm.telegram_chat_id;
  telegram_message_thread_id = orm.telegram_message_thread_id;
  sent_at = orm.sent_at;
  suppressed = orm.suppressed;
  suppress_reason = orm.suppress_reason;
  payload_hash = orm.payload_hash;
  message_text = orm.message_text;
  delivery_status = orm.delivery_status;
  delivery_claimed_at = orm.delivery_claimed_at;
  created_at = orm.created_at;
}

-- `session.get(NotificationEventORM, event_id)`
abbrev pub get_event_orm : ℕ → Database → Option NotificationEventOrm
get_event_orm event_id db = find (λ e. e.id == event_id) db.events

-- One row of the audit log, as `AuditLogger.log_event` adds it.
abbrev pub log_event : String → Option ℕ → ℕ → Database → Database
log_event event_type user_id now db = record db {
  audit = record { event_type = event_type; user_id = user_id; created_at = now } ∷ db.audit;
}

-- A positive run id of the evaluation's detail.
abbrev pub run_id : Option EvaluationDetail → Option ℕ
run_id none = none
run_id (some detail) = elim detail.evaluation_run_id [
  | none ↦ none
  | some id ↦ if ltb 0 id then some id else none
]

-- The default `lease_timeout`, ten minutes.
abbrev pub lease_timeout : ℕ
lease_timeout = 10 * minute

-- The changed columns of the row with the key are flushed; another row in its way raises, and so
-- does a row that is gone.
abbrev pub in_the_way : NotificationEventOrm → NotificationEventOrm → Bool
in_the_way new e = not (e.id == new.id) && event_conflict new e

abbrev pub overwrite : NotificationEventOrm → Database → Result (NotificationEventOrm × Database)
overwrite new db =
    if any (in_the_way new) db.events
    then raise integrity_error
    else ok (new, record db { events = update_where (λ e. e.id == new.id) (λ _. new) db.events })

abbrev pub write_event :
    ℕ
    → (NotificationEventOrm → NotificationEventOrm)
    → Database
    → Result (NotificationEventOrm × Database)
write_event event_id f db = elim (get_event_orm event_id db) [
  | none ↦ raise stale_data
  | some current ↦ overwrite (f current) db
]

-- The `where` clauses of `create_event_once`.
abbrev pub claims : ℕ → String → NotificationEventOrm → Bool
claims rule_id hash e =
    eq_sql e.rule_id rule_id && str_eq_sql e.payload_hash hash && is_active_status e.delivery_status

abbrev pub existing_claim : ℕ → String → Database → Result (Option NotificationEventOrm)
existing_claim rule_id hash db = first_row (select (claims rule_id hash) db.events)

-- `claimed_at if claimed_at is not None else created_at`
abbrev pub claimed_since : NotificationEventOrm → ℕ
claimed_since e = elim e.delivery_claimed_at [ none ↦ e.created_at | some t ↦ t ]

-- The claim is held: `now - claimed_at < lease`, without a difference below 0.
abbrev pub lease_holds : ℕ → ℕ → NotificationEventOrm → Bool
lease_holds now lease e = ltb now (claimed_since e + lease)

-- The status that is flushed over the current one: a column whose value the object had already is not
-- written.
abbrev pub claimed_status : DeliveryStatus → DeliveryStatus → DeliveryStatus
claimed_status sending current = current
claimed_status _ current = sending

-- The object that was read, then the row at the flush.
abbrev pub claimed_again : ℕ → NotificationEventOrm → NotificationEventOrm → NotificationEventOrm
claimed_again now existing e = record e {
  delivery_status = claimed_status existing.delivery_status e.delivery_status;
  delivery_claimed_at = some now;
}

abbrev pub written :
    Bool
    → Database
    → Result (NotificationEventOrm × Database)
    → Result (NotificationEvent × Bool) × Database
written created db (ok (new, db')) = (ok (event_to_domain new, created), db')
written created db (raise e) = (raise e, db)

-- What is done with a claim that was found: the tests are on the object that was read, the database
-- is that of the moment of the flush.
unfoldable pub take_over : ℕ → ℕ → NotificationEventOrm → Action Database (NotificationEvent × Bool)
take_over now lease existing db = elim existing.delivery_status [
  | sent ↦ (ok (event_to_domain existing, false), db)
  | _ ↦
      if lease_holds now lease existing
      then (ok (event_to_domain existing, false), db)
      else written true db (write_event existing.id (claimed_again now existing) db)
]

module _ (service : EventService) where
  unfoldable pub generate_unique_event_id : Env → Database → Result String
  generate_unique_event_id env db =
      unique_short_id (λ e. e.short_id) (λ call. generate_short_id service.choices call "E" 4)
        max_collision_retries db.events env.call

  -- The hash of the key, else of a payload that is not empty.
  abbrev pub event_hash : Option DedupeKey → Option EvaluationDetail → Option String
  event_hash (some key) payload = some (service.hashing.sha256 key.dedupe_key)
  event_hash none none = none
  event_hash none (some payload) = some (compute_payload_hash service.hashing payload)

  unfoldable pub new_event :
      Env
      → String
      → NotificationRule
      → Option EvaluationDetail
      → Option String
      → NotificationEventOrm
  new_event env short_id rule evaluation hash = record {
    id = env.new_id;
    short_id = short_id;
    rule_id = some rule.id;
    evaluation_run_id = run_id evaluation;
    telegram_chat_id = rule.telegram_chat_id;
    telegram_message_thread_id = rule.telegram_message_thread_id;
    sent_at = none;
    suppressed = false;
    suppress_reason = none;
    payload_hash = hash;
    message_text = none;
    delivery_status = sending;
    delivery_claimed_at = some env.now;
    created_at = env.now;
  }

  -- The foreign keys of an event: its rule and, if it has one, its run are rows.
  abbrev pub names_run : Option ℕ → Database → Bool
  names_run none db = true
  names_run (some id) db = any (λ r. r.id == id) db.runs

  abbrev pub names_rule : Option ℕ → Database → Bool
  names_rule none db = true
  names_rule (some id) db = any (λ r. r.id == id) db.rules

  -- `session.add(orm)`, flushed, and the audit.
  abbrev pub add_event : Env → ℕ → NotificationEventOrm → Action Database NotificationEvent
  add_event env user_id orm db = elim (insert_row event_conflict orm db.events) [
    | raise e ↦ (raise e, db)
    | ok rows ↦
        if names_rule orm.rule_id db && names_run orm.evaluation_run_id db
        then (
          ok (event_to_domain orm),
          log_event "notification_sent" (some user_id) env.now (record db { events = rows }),
        )
        else (raise integrity_error, db)
  ]

  -- `evaluation` is the evaluation's detail.
  unfoldable pub create_event :
      Env
      → NotificationRule
      → Option EvaluationDetail
      → Option DedupeKey
      → Option EvaluationDetail
      → Action Database NotificationEvent
  create_event env rule evaluation key payload db = elim (generate_unique_event_id env db) [
    | raise e ↦ (raise e, db)
    | ok short_id ↦
        add_event env rule.user_id (new_event env short_id rule evaluation (event_hash key payload))
          db
  ]

  -- `except IntegrityError`: the claim of another session, read again.
  abbrev pub yield_claim :
      Result (Option NotificationEventOrm) → Action Database (NotificationEvent × Bool)
  yield_claim (raise e) db = (raise e, db)
  yield_claim (ok none) db = (raise integrity_error, db)
  yield_claim (ok (some existing)) db = (ok (event_to_domain existing, false), db)

  abbrev pub created_or_yield :
      ℕ
      → String
      → Result NotificationEvent × Database
      → Result (NotificationEvent × Bool) × Database
  created_or_yield rule_id hash (ok event, db) = (ok (event, true), db)
  created_or_yield rule_id hash (raise integrity_error, db) =
      yield_claim (existing_claim rule_id hash db) db
  created_or_yield rule_id hash (raise e, db) = (raise e, db)

  -- `others` is what other sessions commit between the statement that looks for a claim and the one
  -- that adds it or takes it over.
  unfoldable pub create_event_once :
      Env
      → (Database → Database)
      → NotificationRule
      → Option EvaluationDetail
      → DedupeKey
      → Option EvaluationDetail
      → ℕ
      → Action Database (NotificationEvent × Bool)
  create_event_once env others rule evaluation key payload lease db =
      let hash = service.hashing.sha256 key.dedupe_key in
      elim (existing_claim rule.id hash db) [
        | raise e ↦ (raise e, db)
        | ok (some existing) ↦ take_over env.now lease existing (others db)
        | ok none ↦
            created_or_yield rule.id hash
              (create_event env rule evaluation (some key) payload (others db))
      ]

-- What a method that changes an event returns.
abbrev pub audited :
    ℕ
    → String
    → Database
    → Result (NotificationEventOrm × Database)
    → Result NotificationEvent × Database
audited now event_type db (ok (new, db')) =
    (ok (event_to_domain new), log_event event_type none now db')
audited now event_type db (raise e) = (raise e, db)

abbrev pub change_event :
    ℕ
    → String
    → ℕ
    → (NotificationEventOrm → NotificationEventOrm)
    → Action Database NotificationEvent
change_event now event_type event_id f db = elim (get_event_orm event_id db) [
  | none ↦ (raise event_not_found, db)
  | some orm ↦ audited now event_type db (overwrite (f orm) db)
]

abbrev pub as_sent : ℕ → Option String → NotificationEventOrm → NotificationEventOrm
as_sent now message_text orm = record orm {
  sent_at = some now;
  message_text = elim message_text [ none ↦ orm.message_text | some text ↦ some text ];
  delivery_status = sent;
}

abbrev pub as_suppressed : String → NotificationEventOrm → NotificationEventOrm
as_suppressed reason orm = record orm {
  suppressed = true;
  suppress_reason = some reason;
  delivery_status = suppressed;
}

unfoldable pub mark_sent : ℕ → ℕ → Option String → Action Database NotificationEvent
mark_sent now event_id message_text =
    change_event now "notification_sent" event_id (as_sent now message_text)

unfoldable pub mark_suppressed : ℕ → ℕ → String → Action Database NotificationEvent
mark_suppressed now event_id reason =
    change_event now "notification_suppressed" event_id (as_suppressed reason)

abbrev pub event_option : Option NotificationEventOrm → Option NotificationEvent
event_option none = none
event_option (some orm) = some (event_to_domain orm)

abbrev pub event_result : Result (Option NotificationEventOrm) → Result (Option NotificationEvent)
event_result (ok o) = ok (event_option o)
event_result (raise e) = raise e

unfoldable pub get_event : Option String → Option ℕ → Database → Result (Option NotificationEvent)
get_event short_id (some event_id) db = ok (event_option (get_event_orm event_id db))
get_event (some short_id) none db =
    let clean_id = strip_hash_prefix short_id in
    event_result (scalar_one_or_none (select (λ e. str_eq e.short_id clean_id) db.events))
get_event none none db = ok none

unfoldable pub list_events_for_rule : ℕ → ℕ → Database → List NotificationEvent
list_events_for_rule rule_id limit db = map event_to_domain (
    take limit
      (order_by_desc (λ e. e.created_at) (select (λ e. eq_sql e.rule_id rule_id) db.events)))
