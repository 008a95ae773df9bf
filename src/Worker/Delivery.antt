-- ===== src/Worker/Delivery.antt =====
-- What one delivery does: to whom it sends, and that what is suppressed or claimed elsewhere is not
-- sent.
use weather_agent.Prelude.{
  ◌≡◌, refl, sym, ap, subst, ◌∙◌, ◌⊎◌, inl, inr, Bool, true, false, Option, some, ◌∷◌, String,
  arith, Result, ok, raise, Result-cases,
}
use weather_agent.Database.{Database}
use weather_agent.Rules.Model.{NotificationRule, NotificationEvent}
use weather_agent.Rules.Rows.{Env}
use weather_agent.Notifications.Events.{
  create_event_once, mark_sent, mark_suppressed, lease_timeout,
}
use weather_agent.Worker.Model.{EvaluationResult, Message, Sender, Worker, State}
use weather_agent.Worker.Deliver.{
  deliver_notification, suppression, key_of, message_for, after_claim, after_send, ran,
}

pub outbox-ran :
    {A : Type 0} (s : State) (out : Result A × Database) → (ran s out).1.outbox ≡ s.outbox
outbox-ran s (ok a, db) = refl
outbox-ran s (raise e, db) = refl

module _ (worker : Worker) (send : Sender) (env : Env) (others : Database → Database)
    (rule : NotificationRule) (result : EvaluationResult) (s : State) where
  abbrev message : Message
  message = message_for worker rule result.evaluation_detail

  abbrev claim : Result (NotificationEvent × Bool) × Database
  claim =
      create_event_once worker.events env others rule result.evaluation_detail
        (key_of worker rule result) result.evaluation_detail lease_timeout s.db

  abbrev Sent : Bool × Option String → Result (NotificationEvent × Bool) × Database → State → Type 0
  Sent verdict out s' =
      (s'.outbox ≡ message ∷ s.outbox)
      × (verdict.0 ≡ false)
      × ((event : NotificationEvent) × (out.0 ≡ ok (event, true)))
      × (send env.now message ≡ true)

  after_send-outbox :
      (sent : Bool) (event : NotificationEvent) (db : Database) (reason : Option String)
      → send env.now message ≡ sent
      → let s' = (after_send worker sent env event.id message (record s { db = db })).1 in
        (s'.outbox ≡ s.outbox) ⊎ Sent (false, reason) (ok (event, true), db) s'
  after_send-outbox true event db reason e = inr (
    outbox-ran (record s { db = db; outbox = message ∷ s.outbox })
        (mark_sent env.now event.id (some message.text) db),
    refl,
    (event, refl),
    e,
  )
  after_send-outbox false event db reason e = inl (
      outbox-ran (record s { db = db })
        (mark_suppressed env.now event.id "telegram_send_failed" db))

  after_claim-outbox :
      (verdict : Bool × Option String) (out : Result (NotificationEvent × Bool) × Database)
      → let s' = (after_claim worker send env rule result.evaluation_detail verdict out s).1 in
        (s'.outbox ≡ s.outbox) ⊎ Sent verdict out s'
  after_claim-outbox verdict (raise e, db) = inl refl
  after_claim-outbox verdict (ok (event, false), db) = inl refl
  after_claim-outbox (true, reason) (ok (event, true), db) =
      inl (outbox-ran (record s { db = db }) _)
  after_claim-outbox (false, reason) (ok (event, true), db) =
      after_send-outbox (send env.now message) event db reason refl

  deliver_notification-claimed :
      (verdict : Bool × Option String)
      → suppression worker env.now rule result s.db ≡ ok verdict
      → (deliver_notification worker send env others rule result s).1
        ≡ (after_claim worker send env rule result.evaluation_detail verdict claim s).1
  unfolding deliver_notification
  deliver_notification-claimed verdict p = ground arith

  abbrev pub Delivers : State → Type 0
  Delivers s' =
      (s'.outbox ≡ s.outbox)
      ⊎ ((s'.outbox ≡ message ∷ s.outbox)
          × ((reason : Option String) × (suppression worker env.now rule result s.db
                ≡ ok (false, reason)))
          × ((event : NotificationEvent) × (claim.0 ≡ ok (event, true)))
          × (send env.now message ≡ true))

  claimed-Delivers :
      (verdict : Bool × Option String)
      → suppression worker env.now rule result s.db ≡ ok verdict
      → Delivers ((after_claim worker send env rule result.evaluation_detail verdict claim s).1)
  claimed-Delivers (suppressed, reason) p = elim (after_claim-outbox (suppressed, reason) claim) [
    | inl same ↦ inl same
    | inr (out, clear, claimed, accepted) ↦
        inr (out, (reason, p ∙ ap (λ b. ok (b, reason)) clear), claimed, accepted)
  ]

  -- A delivery sends at most one message, to the chat and the thread of the rule; it sends one only
  -- if nothing suppresses the notification, the session was given the claim of its key, and the
  -- sender accepted the message.
  pub deliver_notification-outbox :
      Delivers ((deliver_notification worker send env others rule result s).1)
  unfolding deliver_notification
  deliver_notification-outbox = elim (Result-cases (suppression worker env.now rule result s.db)) [
    | inr (e, p) ↦ inl (ground arith)
    | inl (verdict, p) ↦
        subst Delivers (sym (deliver_notification-claimed verdict p)) (claimed-Delivers verdict p)
  ]

  sends :
      (verdict : Bool × Option String) (out : Result (NotificationEvent × Bool) × Database)
      (event : NotificationEvent)
      → verdict.0 ≡ false
      → out.0 ≡ ok (event, true)
      → send env.now message ≡ true
      → (after_claim worker send env rule result.evaluation_detail verdict out s).1.outbox
        ≡ message ∷ s.outbox
  sends verdict (raise e, db) event clear c accepted = cc
  sends (true, reason) (ok (e, created), db) event clear c accepted = cc
  sends (false, reason) (ok (e, false), db) event clear c accepted = ground arith
  sends (false, reason) (ok (e, true), db) event clear c accepted =
      ap (λ b. (after_send worker b env e.id message (record s { db = db })).1.outbox) accepted
      ∙ outbox-ran (record s { db = db; outbox = message ∷ s.outbox })
          (mark_sent env.now e.id (some message.text) db)

  -- A notification that nothing suppresses, whose key the session claims and whose message the sender
  -- accepts is sent.
  pub deliver_notification-sends :
      (reason : Option String) (event : NotificationEvent)
      → suppression worker env.now rule result s.db ≡ ok (false, reason)
      → claim.0 ≡ ok (event, true)
      → send env.now message ≡ true
      → (deliver_notification worker send env others rule result s).1.outbox ≡ message ∷ s.outbox
  deliver_notification-sends reason event clear claimed accepted =
      ap (λ s'. s'.outbox) (deliver_notification-claimed (false, reason) clear)
      ∙ sends (false, reason) claim event refl claimed accepted
