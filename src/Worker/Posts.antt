-- ===== src/Worker/Posts.antt =====
-- Which messages the delivery phase of a cycle sends, and in which order.
use weather_agent.Prelude.{
  ℕ, ◌+◌, ◌≡◌, refl, sym, subst, inl, inr, true, false, Option, none, some, List, [], ◌∷◌, String,
  Result, ok, raise, arith, any, str_eq, eq_iff,
}
use weather_agent.Rules.Model.{NotificationRule}
use weather_agent.Worker.Model.{EvaluationResult, Message, Sender, Worker, State}
use weather_agent.Worker.Deliver.{scheduled_notification_key, message_for}
use weather_agent.Worker.Passes.{OnePass, deliver_one-OnePass}
use weather_agent.Worker.Cycle.{
  Steps, then_do, delivered_before, note, noted, deliver_one, deliver_each,
}

module _ (worker : Worker) where
  -- Not a candidate with a scheduled key that one of the earlier candidates has.
  abbrev pub IsFirst : NotificationRule → List (NotificationRule × EvaluationResult) → Type 0
  IsFirst rule [] = Unit {0}
  IsFirst rule ((other, result) ∷ earlier) =
      ((key : String)
        → result.notification_candidate ≡ true
        → scheduled_notification_key worker other ≡ some key
        → ¬ (scheduled_notification_key worker rule ≡ some key))
      × IsFirst rule earlier

  -- The messages that the loop may send after the earlier results, one pass after another: a rule is
  -- passed over, or its message is sent, or the loop stops with an exception. A message is sent only
  -- for a candidate, by a sender that accepted it, and not if an earlier candidate has the same
  -- scheduled key.
  pub data Posts
      : List (NotificationRule × EvaluationResult)
        → List NotificationRule
        → List EvaluationResult
        → List Message
        → List Message
        → Type 0 where
    stopped :
        {earlier : List (NotificationRule × EvaluationResult)} {rules : List NotificationRule}
        {results : List EvaluationResult} {box : List Message}
        → Posts earlier rules results box box
    passed :
        {earlier : List (NotificationRule × EvaluationResult)} {rule : NotificationRule}
        {rules : List NotificationRule} {result : EvaluationResult}
        {results : List EvaluationResult} {box box' : List Message}
        → Posts ((rule, result) ∷ earlier) rules results box box'
        → Posts earlier (rule ∷ rules) (result ∷ results) box box'
    posted :
        {earlier : List (NotificationRule × EvaluationResult)} {rule : NotificationRule}
        {rules : List NotificationRule} {result : EvaluationResult}
        {results : List EvaluationResult} {box box' : List Message} (send : Sender) (now : ℕ)
        → worker.sender ≡ some send
        → result.notification_candidate ≡ true
        → IsFirst rule earlier
        → send now (message_for worker rule result.evaluation_detail) ≡ true
        → Posts
            ((rule, result) ∷ earlier)
            rules
            results
            (message_for worker rule result.evaluation_detail ∷ box)
            box'
        → Posts earlier (rule ∷ rules) (result ∷ results) box box'

  -- The keys of the earlier candidates are among those that were noted.
  abbrev Covers : List String → List (NotificationRule × EvaluationResult) → Type 0
  Covers delivered [] = Unit {0}
  Covers delivered ((rule, result) ∷ earlier) =
      ((key : String)
        → result.notification_candidate ≡ true
        → scheduled_notification_key worker rule ≡ some key
        → any (str_eq key) delivered ≡ true)
      × Covers delivered earlier

  note-any :
      (key : String) (noted : Option String) (delivered : List String)
      → any (str_eq key) delivered ≡ true
      → any (str_eq key) (note worker noted delivered) ≡ true
  note-any key none delivered h = h
  note-any key (some k) delivered h = ground arith

  noted-any :
      (key : String) (delivered : List String) (rule : NotificationRule) (result : EvaluationResult)
      → any (str_eq key) delivered ≡ true
      → any (str_eq key) (noted worker delivered rule result) ≡ true
  noted-any key delivered rule result h =
      ground (arith, note-any key (scheduled_notification_key worker rule) delivered h)

  noted-own :
      (key : String) (delivered : List String) (rule : NotificationRule) (result : EvaluationResult)
      → result.notification_candidate ≡ true
      → scheduled_notification_key worker rule ≡ some key
      → any (str_eq key) (noted worker delivered rule result) ≡ true
  noted-own key delivered rule result candidate e =
      rw (candidate, e) (ground (arith, (eq_iff key key).1 refl))

  noted-Covers_old :
      (delivered : List String) (rule : NotificationRule) (result : EvaluationResult)
      (earlier : List (NotificationRule × EvaluationResult))
      → Covers delivered earlier
      → Covers (noted worker delivered rule result) earlier
  noted-Covers_old delivered rule result [] h = tt
  noted-Covers_old delivered rule result ((other, r) ∷ earlier) (h, hs) = (
    λ key c e. noted-any key delivered rule result (h key c e),
    noted-Covers_old delivered rule result earlier hs,
  )

  noted-Covers :
      (delivered : List String) (rule : NotificationRule) (result : EvaluationResult)
      (earlier : List (NotificationRule × EvaluationResult))
      → Covers delivered earlier
      → Covers (noted worker delivered rule result) ((rule, result) ∷ earlier)
  noted-Covers delivered rule result earlier h = (
    λ key c e. noted-own key delivered rule result c e,
    noted-Covers_old delivered rule result earlier h,
  )

  key_unseen :
      (key : String) (own : Option String) (delivered : List String)
      → any (str_eq key) delivered ≡ true
      → delivered_before worker own delivered ≡ false
      → ¬ (own ≡ some key)
  key_unseen key none delivered seen unseen e = absurd (ground (arith, e))
  key_unseen key (some k) delivered seen unseen e = absurd (ground (arith, e, seen, unseen))

  IsFirst-Covers :
      (delivered : List String) (rule : NotificationRule)
      (earlier : List (NotificationRule × EvaluationResult))
      → Covers delivered earlier
      → delivered_before worker (scheduled_notification_key worker rule) delivered ≡ false
      → IsFirst rule earlier
  IsFirst-Covers delivered rule [] h unseen = tt
  IsFirst-Covers delivered rule ((other, r) ∷ earlier) (h, hs) unseen = (
    λ key c e. key_unseen key (scheduled_notification_key worker rule) delivered (h key c e) unseen,
    IsFirst-Covers delivered rule earlier hs unseen,
  )

  Posts-stopped :
      {earlier : List (NotificationRule × EvaluationResult)} {rules : List NotificationRule}
      {results : List EvaluationResult} {box box' : List Message}
      → box' ≡ box
      → Posts earlier rules results box box'
  Posts-stopped {earlier} {rules} {results} {box} same =
      subst (Posts earlier rules results box) (sym same) stopped

  Posts-from :
      {earlier : List (NotificationRule × EvaluationResult)} {rules : List NotificationRule}
      {results : List EvaluationResult} {box box' last : List Message}
      → box ≡ box'
      → Posts earlier rules results box last
      → Posts earlier rules results box' last
  Posts-from {earlier} {rules} {results} {last = last} =
      subst (λ b. Posts earlier rules results b last)

  after_one-Posts :
      (steps : Steps) (n : ℕ) (delivered : List String)
      (earlier : List (NotificationRule × EvaluationResult)) (rule : NotificationRule)
      (rules : List NotificationRule) (result : EvaluationResult) (results : List EvaluationResult)
      (s : State) (out : Result (Unit {0}) × State)
      → Covers delivered earlier
      → OnePass worker (steps.delivering n) (steps.others n) rule result delivered s out.1
      → ((s' : State)
          → Posts
              ((rule, result) ∷ earlier)
              rules
              results
              s'.outbox
              (deliver_each worker steps
                (n + 1)
                (noted worker delivered rule result)
                rules
                results
                s').1.outbox)
      → Posts earlier
          (rule ∷ rules)
          (result ∷ results)
          s.outbox
          (then_do worker out (
            deliver_each worker steps
              (n + 1)
              (noted worker delivered rule result)
              rules
              results)).1.outbox
  after_one-Posts steps n delivered earlier rule rules result results s (raise e, s') h pass rest =
      elim pass [
        | inl same ↦ Posts-stopped same
        | inr (o, candidate, unseen, (send, is_sender, accepted)) ↦
            posted send (steps.delivering n).now is_sender candidate
              (IsFirst-Covers delivered rule earlier h unseen) accepted (Posts-stopped o)
      ]
  after_one-Posts steps n delivered earlier rule rules result results s (ok _, s') h pass rest =
      elim pass [
        | inl same ↦ passed (Posts-from same (rest s'))
        | inr (o, candidate, unseen, (send, is_sender, accepted)) ↦
            posted send (steps.delivering n).now is_sender candidate
              (IsFirst-Covers delivered rule earlier h unseen) accepted (Posts-from o (rest s'))
      ]

  -- The delivery phase sends, in the order of the rules, at most one message for each candidate, and
  -- at most one for all candidates with the same scheduled key.
  deliver_after-Posts :
      (steps : Steps) (n : ℕ) (delivered : List String)
      (earlier : List (NotificationRule × EvaluationResult)) (rules : List NotificationRule)
      (results : List EvaluationResult) (s : State)
      → Covers delivered earlier
      → Posts earlier rules results s.outbox
          (deliver_each worker steps n delivered rules results s).1.outbox
  unfolding deliver_each
  deliver_after-Posts steps n delivered earlier [] results s h = stopped
  deliver_after-Posts steps n delivered earlier (rule ∷ rules) [] s h = stopped
  deliver_after-Posts steps n delivered earlier (rule ∷ rules) (result ∷ results) s h =
      after_one-Posts steps n delivered earlier rule rules result results s
        (deliver_one worker (steps.delivering n) (steps.others n) delivered rule result s) h
        (deliver_one-OnePass worker (steps.delivering n) (steps.others n) rule result delivered s)
        (λ s'.
          deliver_after-Posts steps (n + 1) (noted worker delivered rule result)
            ((rule, result) ∷ earlier) rules results s'
            (noted-Covers delivered rule result earlier h))

  -- The delivery phase sends, in the order of the rules, at most one message for each candidate, and
  -- at most one for all candidates with the same scheduled key.
  pub deliver_each-Posts :
      (steps : Steps) (n : ℕ) (rules : List NotificationRule) (results : List EvaluationResult)
      (s : State)
      → Posts [] rules results s.outbox (deliver_each worker steps n [] rules results s).1.outbox
  deliver_each-Posts steps n rules results s = deliver_after-Posts steps n [] [] rules results s tt
