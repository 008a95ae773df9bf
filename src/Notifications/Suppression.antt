-- ===== src/Notifications/Suppression.antt =====
-- When a notification is suppressed: by a snooze, by the cooldown of its rule, as a duplicate of one
-- that was sent, or because its payload is unchanged.
use weather_agent.Prelude.{
  ℕ, ◌+◌, ◌*◌, ◌-◌, ◌≤◌, ◌<◌, ◌≡◌, ◌≢◌, refl, sym, ap, ok-injective, eq_refl, ◌∙◌, Bool, false,
  Option, none, some, String, arith, ok, is_some, any, select, head?, All, All-of_any, All-map_pred,
  is_some-sort_by, is_some-select, scalar_one_or_none-take, order_by_desc, ltb, ◌||◌, str_eq,
}
use weather_agent.Database.{NotificationEventOrm, EvaluationDetail, Database, sent}
use weather_agent.Rules.Model.{NotificationRule}
use weather_agent.Notifications.Dedupe.{
  Hashing, NotificationCandidate, minute, dedupe_hash, sent_since, sent_same, sent_hashed, instant,
  snooze_reason, cooldown_reason, cooldown_text, duplicate_reason, duplicate_within, duplicate_text,
  unchanged_payload, unchanged_reason, unchanged_since, should_suppress, compute_payload_hash,
}

abbrev mapped : (NotificationEventOrm → String) → Option NotificationEventOrm → Option String
mapped f none = none
mapped f (some e) = some (f e)

is_some-mapped :
    (f : NotificationEventOrm → String) (o : Option NotificationEventOrm)
    → is_some (mapped f o) ≡ is_some o
is_some-mapped f none = refl
is_some-mapped f (some e) = refl

abbrev first_of_reasons :
    Option String → Option String → Option String → Option String → Option String
first_of_reasons (some a) b c d = some a
first_of_reasons none (some b) c d = some b
first_of_reasons none none (some c) d = some c
first_of_reasons none none none d = d

no_test :
    (s a b c d : Bool)
    → s ≡ (a || b || c || d)
    → s ≡ false
    → (a ≡ false) × (b ≡ false) × (c ≡ false)
no_test s a b c d h e = ground arith

-- What should keep a notification back, read off the rows of the events.
module _ (hashing : Hashing) (now : ℕ) (rule : NotificationRule) (db : Database) where
  abbrev cooling : Bool
  cooling = any (sent_since rule (now - rule.cooldown_minutes * minute)) db.events

  cooldown_reason-total :
      (reason : Option String) × (cooldown_reason hashing now rule db ≡ ok reason)
      × (is_some reason ≡ cooling)
  unfolding cooldown_reason
  cooldown_reason-total =
      let p = sent_since rule (now - rule.cooldown_minutes * minute) in
      let rows = order_by_desc (λ e. instant e.sent_at) (select p db.events) in
      (
        mapped (cooldown_text hashing rule) (head? rows),
        ground (arith, scalar_one_or_none-take rows),
        is_some-mapped (cooldown_text hashing rule) (head? rows) ∙ is_some-sort_by p _ db.events,
      )

  abbrev duplicated : Option ℕ → Option ℕ → Bool
  duplicated none end' = false
  duplicated (some start) none = false
  duplicated (some start) (some end') =
      any (sent_same rule (dedupe_hash hashing rule (some start) (some end'))) db.events

  duplicate_within-total :
      (start end' : Option ℕ)
      → (reason : Option String) × (duplicate_within hashing rule start end' db ≡ ok reason)
        × (is_some reason ≡ duplicated start end')
  unfolding duplicate_within
  duplicate_within-total none end' = (none, refl, refl)
  duplicate_within-total (some start) none = (none, refl, refl)
  duplicate_within-total (some start) (some end') =
      let p = sent_same rule (dedupe_hash hashing rule (some start) (some end')) in
      let text =
        λ (e : NotificationEventOrm). duplicate_text hashing rule (some start) (some end') in
      let row = head? (select p db.events) in
      (
        mapped text row,
        ground (arith, scalar_one_or_none-take (select p db.events)),
        is_some-mapped text row ∙ is_some-select p db.events,
      )

  -- Whether the newest event of the rule that was sent has the payload's hash.
  abbrev unchanged : Option EvaluationDetail → Bool
  unchanged none = false
  unchanged (some payload) =
      elim (head? (order_by_desc (λ e. e.created_at) (select (sent_hashed rule) db.events))) [
        | none ↦ false
        | some last ↦ elim last.payload_hash [
          | none ↦ false
          | some old ↦ str_eq old (compute_payload_hash hashing payload)
        ]
      ]

  unchanged_payload-total :
      (payload : Option EvaluationDetail)
      → (reason : Option String) × (unchanged_payload hashing rule payload db ≡ ok reason)
        × (is_some reason ≡ unchanged payload)
  unfolding unchanged_payload
  unchanged_payload-total none = (none, refl, refl)
  unchanged_payload-total (some payload) =
      let rows = order_by_desc (λ e. e.created_at) (select (sent_hashed rule) db.events) in
      (
        unchanged_since (compute_payload_hash hashing payload) (head? rows),
        ground (arith, scalar_one_or_none-take rows),
        ground arith,
      )

  abbrev snoozed : Bool
  snoozed = elim rule.snooze_until [ none ↦ false | some until ↦ ltb now until ]

  is_some-snooze_reason : is_some (snooze_reason hashing now rule) ≡ snoozed
  unfolding snooze_reason
  is_some-snooze_reason = ground arith

  -- `should_suppress` never raises; it suppresses exactly if the rule is snoozed, an event of the
  -- rule was sent within its cooldown, an event of the same dedupe key was sent, or the newest event
  -- sent has the hash of the payload; and it gives a reason exactly if it suppresses.
  pub should_suppress_iff :
      (event : NotificationCandidate)
      → (suppressed : Bool) × (reason : Option String) × (should_suppress hashing now rule event db
          ≡ ok (suppressed, reason))
        × (is_some reason ≡ suppressed)
        × (suppressed ≡ (
            snoozed
            || cooling
            || duplicated event.forecast_window_start event.forecast_window_end
            || unchanged event.payload))
  unfolding should_suppress duplicate_reason unchanged_reason
  should_suppress_iff event =
      let (c, c_eq, c_some) = cooldown_reason-total in
      let (d, d_eq, d_some) =
        duplicate_within-total event.forecast_window_start event.forecast_window_end in
      let (u, u_eq, u_some) = unchanged_payload-total event.payload in
      let reason = first_of_reasons (snooze_reason hashing now rule) c d u in
      (is_some reason, reason, ground arith, refl, ground (arith, is_some-snooze_reason))

  clear_tests :
      (event : NotificationCandidate) (reason : Option String)
      → should_suppress hashing now rule event db ≡ ok (false, reason)
      → (snoozed ≡ false)
        × (cooling ≡ false)
        × (duplicated event.forecast_window_start event.forecast_window_end ≡ false)
  clear_tests event reason h =
      let (suppressed, why, e, _, is) = should_suppress_iff event in
      let open' =
        no_test suppressed snoozed cooling
          (duplicated event.forecast_window_start event.forecast_window_end)
          (unchanged event.payload) in
      open' is (ap (λ (x : Bool × Option String). x.0) (ok-injective (sym e ∙ h)))

  -- A notification that is not suppressed: the rule is not snoozed past `now`, every event of the
  -- rule that was sent, and not suppressed, was sent longer ago than the cooldown, and no event of
  -- the rule with the same dedupe key was sent.
  pub should_suppress-clear :
      (event : NotificationCandidate) (reason : Option String)
      → should_suppress hashing now rule event db ≡ ok (false, reason)
      → ((until : ℕ) → rule.snooze_until ≡ some until → until ≤ now)
        × All
            (λ e.
              (t : ℕ)
              → e.rule_id ≡ some rule.id
              → e.suppressed ≡ false
              → e.sent_at ≡ some t
              → t + rule.cooldown_minutes * minute < now)
            db.events
        × ((start end' : ℕ)
            → event.forecast_window_start ≡ some start
            → event.forecast_window_end ≡ some end'
            → All
                (λ e.
                  e.rule_id ≡ some rule.id
                  → e.payload_hash ≡ some (dedupe_hash hashing rule (some start) (some end'))
                  → e.delivery_status ≢ sent)
                db.events)
  should_suppress-clear event reason h =
      let (no_snooze, no_recent, no_duplicate) = clear_tests event reason h in
      (
        λ until e. ground arith,
        All-map_pred _ _ db.events (λ x hx t r s a. ground arith)
            (All-of_any (sent_since rule (now - rule.cooldown_minutes * minute)) db.events
              no_recent),
        λ start end' es ee.
            All-map_pred _ _ db.events
              (λ x hx r p d.
                ground (arith, eq_refl (dedupe_hash hashing rule (some start) (some end'))))
              (All-of_any (sent_same rule (dedupe_hash hashing rule (some start) (some end')))
                db.events (ground arith)),
      )
