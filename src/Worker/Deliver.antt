-- ===== src/Worker/Deliver.antt =====
-- The delivery of one notification: `_deliver_notification`, `_build_notification_message` and
-- `_scheduled_notification_key`.
use Prim.Native.String.{◌++◌}
use weather_agent.Prelude.{
  ℕ, zero, suc, Bool, true, false, Option, none, some, ◌∷◌, String, Result, ok, raise, str_eq,
  if◌then◌else◌,
}
use weather_agent.Database.{EvaluationDetail, Database}
use weather_agent.Time.{DateTime, naive, aware}
use weather_agent.Rules.Model.{NotificationRule, NotificationEvent}
use weather_agent.Rules.Context.{notification_context_fingerprint}
use weather_agent.Rules.Rows.{Env}
use weather_agent.Notifications.Dedupe.{
  Hashing, NotificationCandidate, DedupeKey, compute_dedupe_key, should_suppress,
}
use weather_agent.Notifications.Events.{
  create_event_once, mark_sent, mark_suppressed, lease_timeout,
}
use weather_agent.Worker.Model.{EvaluationResult, Message, Sender, Worker, State}

-- `str(rule.telegram_message_thread_id or "")`
abbrev pub thread_text : Hashing → Option ℕ → String
thread_text hashing none = ""
thread_text hashing (some zero) = ""
thread_text hashing (some (suc n)) = hashing.show (suc n)

-- A time is read back from its text; one that is not a datetime is none. Only its text is used.
abbrev pub wall_or_instant : Option DateTime → Option ℕ
wall_or_instant none = none
wall_or_instant (some (naive wall)) = some wall
wall_or_instant (some (aware instant)) = some instant

abbrev pub window_time : (String → Option DateTime) → Option String → Option ℕ
window_time fromisoformat none = none
window_time fromisoformat (some text) = wall_or_instant (fromisoformat text)

abbrev pub window_start : (String → Option DateTime) → Option EvaluationDetail → Option ℕ
window_start fromisoformat none = none
window_start fromisoformat (some detail) = window_time fromisoformat detail.forecast_window_start

abbrev pub window_end : (String → Option DateTime) → Option EvaluationDetail → Option ℕ
window_end fromisoformat none = none
window_end fromisoformat (some detail) = window_time fromisoformat detail.forecast_window_end

-- The database of the session changes, with what the action returned.
abbrev pub ran : {A : Type 0} → State → Result A × Database → Result (Unit {0}) × State
ran s (ok _, db) = (ok tt, record s { db = db })
ran s (raise e, db) = (raise e, record s { db = db })

module _ (worker : Worker) where
  abbrev pub hashing : Hashing
  hashing = worker.events.hashing

  -- The parts of a scheduled rule's key; a rule with no schedule has none.
  unfoldable pub scheduled_notification_key : NotificationRule → Option String
  scheduled_notification_key rule = elim rule.schedule [
    | none ↦ none
    | some schedule ↦ some (
        hashing.show rule.user_id
        ++ "|"
        ++ hashing.show rule.telegram_chat_id
        ++ "|"
        ++ thread_text hashing rule.telegram_message_thread_id
        ++ "|"
        ++ hashing.show rule.location_id
        ++ "|"
        ++ rule.expression
        ++ "|"
        ++ schedule
        ++ "|"
        ++ notification_context_fingerprint worker.rules.codec rule.notification_context)
  ]

  abbrev pub generated_or :
      Option (NotificationRule → Option EvaluationDetail → Option String)
      → NotificationRule
      → Option EvaluationDetail
      → String
      → String
  generated_or none rule detail fallback = fallback
  generated_or (some generate) rule detail fallback = elim rule.notification_context [
    | none ↦ fallback
    | some _ ↦ elim (generate rule detail) [ none ↦ fallback | some text ↦ text ]
  ]

  unfoldable pub build_notification_message : NotificationRule → Option EvaluationDetail → String
  build_notification_message rule detail = elim rule.schedule [
    | none ↦ worker.forecast_message rule detail
    | some _ ↦ generated_or worker.generator rule detail (worker.fallback_message rule detail)
  ]

  abbrev pub candidate_of : NotificationRule → EvaluationResult → NotificationCandidate
  candidate_of rule result = record {
    rule_id = rule.id;
    location_id = rule.location_id;
    expression = rule.expression;
    forecast_window_start = window_start worker.calendar.fromisoformat result.evaluation_detail;
    forecast_window_end = window_end worker.calendar.fromisoformat result.evaluation_detail;
    payload = result.evaluation_detail;
    dry_run = result.dry_run;
  }

  -- Without a deduplicator nothing is suppressed.
  unfoldable pub suppression :
      ℕ → NotificationRule → EvaluationResult → Database → Result (Bool × Option String)
  suppression now rule result db =
      if worker.has_deduplicator
      then should_suppress hashing now rule (candidate_of rule result) db
      else ok (false, none)

  unfoldable pub key_of : NotificationRule → EvaluationResult → DedupeKey
  key_of rule result =
      compute_dedupe_key hashing rule.id rule.location_id rule.expression
        (window_start worker.calendar.fromisoformat result.evaluation_detail)
        (window_end worker.calendar.fromisoformat result.evaluation_detail)

  abbrev pub message_for : NotificationRule → Option EvaluationDetail → Message
  message_for rule detail = record {
    chat_id = rule.telegram_chat_id;
    thread_id = rule.telegram_message_thread_id;
    text = build_notification_message rule detail;
  }

  -- A message that was sent is marked as sent, one that was not as suppressed.
  abbrev pub after_send : Bool → Env → ℕ → Message → State → Result (Unit {0}) × State
  after_send true env event_id message s =
      ran (record s { outbox = message ∷ s.outbox })
        (mark_sent env.now event_id (some message.text) s.db)
  after_send false env event_id message s =
      ran s (mark_suppressed env.now event_id "telegram_send_failed" s.db)

  -- `suppress_reason or "suppressed"`
  abbrev pub reason_or_default : Option String → String
  reason_or_default none = "suppressed"
  reason_or_default (some reason) = if str_eq reason "" then "suppressed" else reason

  abbrev pub send_or_suppress :
      Sender
      → Env
      → NotificationRule
      → Option EvaluationDetail
      → Bool × Option String
      → ℕ
      → State
      → Result (Unit {0}) × State
  send_or_suppress send env rule detail (true, reason) event_id s =
      ran s (mark_suppressed env.now event_id (reason_or_default reason) s.db)
  send_or_suppress send env rule detail (false, reason) event_id s =
      let message = message_for rule detail in
      after_send (send env.now message) env event_id message s

  abbrev pub after_claim :
      Sender
      → Env
      → NotificationRule
      → Option EvaluationDetail
      → Bool × Option String
      → Result (NotificationEvent × Bool) × Database
      → State
      → Result (Unit {0}) × State
  after_claim send env rule detail verdict (raise e, db) s = (raise e, record s { db = db })
  after_claim send env rule detail verdict (ok (event, false), db) s = (ok tt, record s { db = db })
  after_claim send env rule detail verdict (ok (event, true), db) s =
      send_or_suppress send env rule detail verdict event.id (record s { db = db })

  unfoldable pub deliver_notification :
      Sender
      → Env
      → (Database → Database)
      → NotificationRule
      → EvaluationResult
      → State
      → Result (Unit {0}) × State
  unfolding suppression
  deliver_notification send env others rule result s = elim (suppression env.now rule result s.db) [
    | raise e ↦ (raise e, s)
    | ok verdict ↦
        after_claim send env rule result.evaluation_detail verdict
          (create_event_once worker.events env others rule result.evaluation_detail
            (key_of rule result) result.evaluation_detail lease_timeout s.db)
          s
  ]
