-- ===== src/Notifications/Unique.antt =====
-- The unique columns and the partial index of the events' table hold under every method of the event
-- service, whatever other sessions do between its statements.
use weather_agent.Prelude.{
  ℕ, ◌≡◌, refl, inl, inr, true, false, Option, none, some, List, [], ◌∷◌, String, arith, Result, ok,
  raise, eq_iff, str_eq, ◌==◌, any, any_mono, any-split, any-overwrite, update_where,
  update_where-of_none, Distinct, Bool-cases, Option-cases, Result-cases, integrity_error,
}
use weather_agent.Database.{
  NotificationEventOrm, EvaluationDetail, Database, event_conflict, same_number, same_text,
}
use weather_agent.Rules.Model.{NotificationRule, NotificationEvent}
use weather_agent.Rules.Rows.{Env}
use weather_agent.Notifications.Dedupe.{DedupeKey}
use weather_agent.Notifications.Events.{
  EventService, get_event_orm, in_the_way, overwrite, take_over, claimed_again, create_event,
  create_event_once, mark_sent, mark_suppressed, as_sent, as_suppressed, created_or_yield,
  existing_claim,
}

abbrev pub HasUniqueEvents : Database → Type 0
HasUniqueEvents db = Distinct event_conflict db.events

same_number_comm : (a b : Option ℕ) → same_number a b ≡ same_number b a
same_number_comm none none = refl
same_number_comm none (some b) = refl
same_number_comm (some a) none = refl
same_number_comm (some a) (some b) = ground arith

str_eq_comm : (a b : String) → str_eq a b ≡ str_eq b a
str_eq_comm a b = ground (arith, eq_iff a b, eq_iff b a)

same_text_comm : (a b : Option String) → same_text a b ≡ same_text b a
same_text_comm none none = refl
same_text_comm none (some b) = refl
same_text_comm (some a) none = refl
same_text_comm (some a) (some b) = str_eq_comm a b

event_conflict_comm : (a b : NotificationEventOrm) → event_conflict a b ≡ event_conflict b a
event_conflict_comm a b = ground (
  arith,
  same_number_comm a.rule_id b.rule_id,
  same_text_comm a.payload_hash b.payload_hash,
  str_eq_comm a.short_id b.short_id,
)

module _ (new : NotificationEventOrm) where
  -- The row with the key comes once.
  alone :
      (x : NotificationEventOrm) (xs : List NotificationEventOrm)
      → (x.id == new.id) ≡ true
      → any (event_conflict x) xs ≡ false
      → any (λ y. y.id == new.id) xs ≡ false
  alone x xs e h = any_mono (λ y. y.id == new.id) (event_conflict x) xs (λ y k. ground arith) h

  overwrite-Distinct :
      (xs : List NotificationEventOrm)
      → Distinct event_conflict xs
      → any (in_the_way new) xs ≡ false
      → Distinct event_conflict (update_where (λ y. y.id == new.id) (λ _. new) xs)
  overwrite-Distinct [] h free = tt
  overwrite-Distinct (x ∷ xs) h free = elim (Bool-cases (x.id == new.id)) [
    | inl e ↦
        rw (e, update_where-of_none (λ y. y.id == new.id) (λ _. new) xs (alone x xs e h.0))
          (
            any-split (event_conflict new) (λ y. y.id == new.id) (in_the_way new) xs
                (λ y c n. ground arith) (alone x xs e h.0) (ground arith),
            h.1,
          )
    | inr e ↦ rw e (
      any-overwrite (event_conflict x) (λ y. y.id == new.id) new xs h.0
          (ground (arith, event_conflict_comm x new)),
      overwrite-Distinct xs h.1 (ground arith),
    )
  ]

  overwrite-HasUniqueEvents :
      (db : Database) (out : NotificationEventOrm × Database)
      → HasUniqueEvents db
      → overwrite new db ≡ ok out
      → HasUniqueEvents out.1
  overwrite-HasUniqueEvents db out h e = ground (arith, overwrite-Distinct db.events h)

mark_sent-HasUniqueEvents :
    (now event_id : ℕ) (text : Option String) (db : Database)
    → HasUniqueEvents db
    → HasUniqueEvents (mark_sent now event_id text db).1
unfolding mark_sent
mark_sent-HasUniqueEvents now event_id text db h = elim (Option-cases (get_event_orm event_id db)) [
  | inl e ↦ ground arith
  | inr (o, e) ↦ ground (arith, overwrite-Distinct (as_sent now text o) db.events h)
]

mark_suppressed-HasUniqueEvents :
    (now event_id : ℕ) (reason : String) (db : Database)
    → HasUniqueEvents db
    → HasUniqueEvents (mark_suppressed now event_id reason db).1
unfolding mark_suppressed
mark_suppressed-HasUniqueEvents now event_id reason db h =
    elim (Option-cases (get_event_orm event_id db)) [
      | inl e ↦ ground arith
      | inr (o, e) ↦ ground (arith, overwrite-Distinct (as_suppressed reason o) db.events h)
    ]

take_over-HasUniqueEvents :
    (now lease : ℕ) (e : NotificationEventOrm) (db : Database)
    → HasUniqueEvents db
    → HasUniqueEvents (take_over now lease e db).1
unfolding take_over
take_over-HasUniqueEvents now lease e db h = elim (Option-cases (get_event_orm e.id db)) [
  | inl q ↦ ground arith
  | inr (o, q) ↦ ground (arith, overwrite-Distinct (claimed_again now e o) db.events h)
]

module _ (service : EventService) where
  create_event-HasUniqueEvents :
      (env : Env) (rule : NotificationRule) (evaluation : Option EvaluationDetail)
      (key : Option DedupeKey) (payload : Option EvaluationDetail) (db : Database)
      → HasUniqueEvents db
      → HasUniqueEvents (create_event service env rule evaluation key payload db).1
  unfolding create_event
  create_event-HasUniqueEvents env rule evaluation key payload db h = ground arith

  yielded :
      (rule_id : ℕ) (hash : String) (out : Result NotificationEvent × Database)
      → (created_or_yield service rule_id hash out).1 ≡ out.1
  yielded rule_id hash (ok e, db) = refl
  yielded rule_id hash (raise integrity_error, db) = ground arith
  yielded rule_id hash (raise e, db) = refl

  create_event_once-HasUniqueEvents :
      (env : Env) (others : Database → Database) (rule : NotificationRule)
      (evaluation : Option EvaluationDetail) (key : DedupeKey) (payload : Option EvaluationDetail)
      (lease : ℕ) (db : Database)
      → HasUniqueEvents db
      → HasUniqueEvents (others db)
      → HasUniqueEvents
          (create_event_once service env others rule evaluation key payload lease db).1
  unfolding create_event_once
  create_event_once-HasUniqueEvents env others rule evaluation key payload lease db h k =
      let hash = service.hashing.sha256 key.dedupe_key in
      elim (Result-cases (existing_claim rule.id hash db)) [
        | inr (e, q) ↦ ground arith
        | inl (o, q) ↦ elim (Option-cases o) [
          | inl n ↦ ground (
            arith,
            yielded rule.id hash
                (create_event service env rule evaluation (some key) payload (others db)),
            create_event-HasUniqueEvents env rule evaluation (some key) payload (others db) k,
          )
          | inr (e, n) ↦ ground (arith, take_over-HasUniqueEvents env.now lease e (others db) k)
        ]
      ]

-- What any number of sessions reach: a call of a method on a database that was reached, where the
-- others have reached another one between its statements.
pub data Reach (service : EventService) (start : Database) : Database → Type 0 where
  here : Reach service start start
  claim :
      (env : Env) (others : Database → Database) (rule : NotificationRule)
      (evaluation : Option EvaluationDetail) (key : DedupeKey) (payload : Option EvaluationDetail)
      (lease : ℕ) {db : Database}
      → Reach service start db
      → Reach service start (others db)
      → Reach service start
          (create_event_once service env others rule evaluation key payload lease db).1
  sent :
      (now event_id : ℕ) (text : Option String) {db : Database}
      → Reach service start db
      → Reach service start (mark_sent now event_id text db).1
  suppressed :
      (now event_id : ℕ) (reason : String) {db : Database}
      → Reach service start db
      → Reach service start (mark_suppressed now event_id reason db).1

-- However the calls of the sessions interleave, and whether they return or raise, no two events come
-- to share a key, a short id, or the rule and the hash of an active claim.
pub Reach-HasUniqueEvents :
    {service : EventService} {start db : Database}
    → HasUniqueEvents start
    → Reach service start db
    → HasUniqueEvents db
Reach-HasUniqueEvents h here = h
Reach-HasUniqueEvents {service} h (claim env others rule evaluation key payload lease {db} r o) =
    create_event_once-HasUniqueEvents service env others rule evaluation key payload lease db
      (Reach-HasUniqueEvents h r) (Reach-HasUniqueEvents h o)
Reach-HasUniqueEvents h (sent now event_id text {db} r) =
    mark_sent-HasUniqueEvents now event_id text db (Reach-HasUniqueEvents h r)
Reach-HasUniqueEvents h (suppressed now event_id reason {db} r) =
    mark_suppressed-HasUniqueEvents now event_id reason db (Reach-HasUniqueEvents h r)
