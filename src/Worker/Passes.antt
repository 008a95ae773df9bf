-- ===== src/Worker/Passes.antt =====
-- One pass of the delivery loop of `_evaluate_due_rules`: what it adds to the messages that were sent.
use weather_agent.Prelude.{
  ℕ, ◌≡◌, refl, ◌∙◌, ◌⊎◌, inl, inr, Bool, true, false, Option, none, some, List, ◌∷◌, String,
  Result, ok, raise, if◌then◌else◌,
}
use weather_agent.Database.{Database}
use weather_agent.Rules.Model.{NotificationRule}
use weather_agent.Rules.Rows.{Env}
use weather_agent.Rules.Service.{disable_rule}
use weather_agent.Worker.Model.{EvaluationResult, Message, Sender, Worker, State}
use weather_agent.Worker.Deliver.{scheduled_notification_key, message_for}
use weather_agent.Worker.Delivery.{outbox-ran, deliver_notification-outbox}
use weather_agent.Worker.Cycle.{
  is_once, disable_if, then_do, deliver_with, deliver_and_disable, delivered_before, deliver_one,
}

module _ (worker : Worker) where
  module _ (env : Env) (others : Database → Database) (rule : NotificationRule)
      (result : EvaluationResult) where
    abbrev pub message : Message
    message = message_for worker rule result.evaluation_detail

    -- The outbox is the same, or has the rule's message, which a sender accepted.
    abbrev Passes : State → State → Type 0
    Passes s s' =
        (s'.outbox ≡ s.outbox)
        ⊎ ((s'.outbox ≡ message ∷ s.outbox)
            × ((send : Sender) × (worker.sender ≡ some send) × (send env.now message ≡ true)))

    disable_if-outbox :
        (b : Bool) (now : ℕ) (s : State) → (disable_if worker b now rule s).1.outbox ≡ s.outbox
    disable_if-outbox true now s = outbox-ran s (disable_rule worker.rules now rule.id s.db)
    disable_if-outbox false now s = refl

    deliver_with-Passes :
        (sender : Option Sender) (has_events : Bool) (s : State)
        → worker.sender ≡ sender
        → Passes s (deliver_with worker sender has_events env others rule result s).1
    deliver_with-Passes none has_events s p = inl refl
    deliver_with-Passes (some send) false s p = inl refl
    deliver_with-Passes (some send) true s p =
        elim (deliver_notification-outbox worker send env others rule result s) [
          | inl same ↦ inl same
          | inr (out, clear, claimed, accepted) ↦ inr (out, (send, p, accepted))
        ]

    disabled-Passes :
        (out : Result (Unit {0}) × State) (s : State)
        → Passes s out.1
        → Passes s (then_do worker out (disable_if worker (is_once rule.schedule) env.now rule)).1
    disabled-Passes (raise e, s') s h = h
    disabled-Passes (ok _, s') s h =
        let same = disable_if-outbox (is_once rule.schedule) env.now s' in
        elim h [ inl o ↦ inl (same ∙ o) | inr (o, sent_it) ↦ inr (same ∙ o, sent_it) ]

    deliver_and_disable-Passes :
        (s : State) → Passes s (deliver_and_disable worker env others rule result s).1
    deliver_and_disable-Passes s =
        disabled-Passes
          (deliver_with worker worker.sender worker.has_event_service env others rule result s) s
          (deliver_with-Passes worker.sender worker.has_event_service s refl)

    -- A pass sends nothing, or the message of a candidate whose key was not delivered before.
    abbrev pub OnePass : List String → State → State → Type 0
    OnePass delivered s s' =
        (s'.outbox ≡ s.outbox)
        ⊎ ((s'.outbox ≡ message ∷ s.outbox)
            × (result.notification_candidate ≡ true)
            × (delivered_before worker (scheduled_notification_key worker rule) delivered ≡ false)
            × ((send : Sender) × (worker.sender ≡ some send) × (send env.now message ≡ true)))

    fresh-OnePass :
        (seen : Bool) (delivered : List String) (s : State)
        → delivered_before worker (scheduled_notification_key worker rule) delivered ≡ seen
        → result.notification_candidate ≡ true
        → OnePass delivered s
            (if seen
              then disable_if worker (is_once rule.schedule) env.now rule s
              else deliver_and_disable worker env others rule result s).1
    fresh-OnePass true delivered s seen candidate =
        inl (disable_if-outbox (is_once rule.schedule) env.now s)
    fresh-OnePass false delivered s seen candidate = elim (deliver_and_disable-Passes s) [
      | inl same ↦ inl same
      | inr (o, sent_it) ↦ inr (o, candidate, seen, sent_it)
    ]

    candidate-OnePass :
        (candidate : Bool) (delivered : List String) (s : State)
        → result.notification_candidate ≡ candidate
        → OnePass delivered s
            (if candidate
              then (if delivered_before worker (scheduled_notification_key worker rule) delivered
                  then disable_if worker (is_once rule.schedule) env.now rule s
                  else deliver_and_disable worker env others rule result s)
              else (ok tt, s)).1
    candidate-OnePass true delivered s c =
        fresh-OnePass (delivered_before worker (scheduled_notification_key worker rule) delivered)
          delivered s refl c
    candidate-OnePass false delivered s c = inl refl

    pub deliver_one-OnePass :
        (delivered : List String) (s : State)
        → OnePass delivered s (deliver_one worker env others delivered rule result s).1
    unfolding deliver_one
    deliver_one-OnePass delivered s =
        candidate-OnePass result.notification_candidate delivered s refl
