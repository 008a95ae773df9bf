-- ===== src/Notifications/Dedupe.antt =====
-- domain/notifications/deduplication.py. `hashlib.sha256(…).hexdigest()`, `json.dumps`, `isoformat`
-- and `str` of a number are parameters.
use Prim.Native.String.{◌++◌}
use weather_agent.Prelude.{
  ℕ, ◌-◌, ◌*◌, ◌&&◌, Bool, true, false, not, Option, none, some, List, String, Result, ok, raise,
  ltb, str_eq, str_eq_sql, eq_sql, ge_sql, is_some, if◌then◌else◌, select, take, scalar_one_or_none,
  order_by_desc,
}
use weather_agent.Database.{NotificationEventOrm, DeliveryStatus, sent, EvaluationDetail, Database}
use weather_agent.Rules.Model.{NotificationRule}

pub record Hashing : Type 0 where
  pub sha256 : String → String
  pub json_dumps : EvaluationDetail → String
  pub isoformat : ℕ → String
  pub show : ℕ → String

-- The empty payload is `none`.
pub record NotificationCandidate : Type 0 where
  pub rule_id : ℕ
  pub location_id : ℕ
  pub expression : String
  pub forecast_window_start : Option ℕ
  pub forecast_window_end : Option ℕ
  pub payload : Option EvaluationDetail
  pub dry_run : Bool

pub record DedupeKey : Type 0 where
  pub rule_id : ℕ
  pub location_id : ℕ
  pub expression_hash : String
  pub forecast_window_start : Option ℕ
  pub forecast_window_end : Option ℕ
  pub dedupe_key : String

-- Microseconds in a minute: instants are counted in microseconds.
abbrev pub minute : ℕ
minute = 60000000

abbrev pub is_sent : DeliveryStatus → Bool
is_sent sent = true
is_sent _ = false

-- The threshold is ignored.
abbrev pub has_significant_change : String → String → Bool
has_significant_change old_hash new_hash = not (str_eq old_hash new_hash)

-- The `where` clauses of the three statements.
abbrev pub sent_since : NotificationRule → ℕ → NotificationEventOrm → Bool
sent_since rule cutoff e =
    eq_sql e.rule_id rule.id && not e.suppressed && is_some e.sent_at && ge_sql e.sent_at cutoff

abbrev pub sent_same : NotificationRule → String → NotificationEventOrm → Bool
sent_same rule hash e =
    eq_sql e.rule_id rule.id && str_eq_sql e.payload_hash hash && is_sent e.delivery_status

abbrev pub sent_hashed : NotificationRule → NotificationEventOrm → Bool
sent_hashed rule e = eq_sql e.rule_id rule.id && is_some e.payload_hash && is_sent e.delivery_status

abbrev pub instant : Option ℕ → ℕ
instant none = 0
instant (some t) = t

-- `.limit(1)` and `scalar_one_or_none`.
abbrev pub first_row : List NotificationEventOrm → Result (Option NotificationEventOrm)
first_row rows = scalar_one_or_none (take 1 rows)

abbrev pub unchanged_since : String → Option NotificationEventOrm → Option String
unchanged_since hash none = none
unchanged_since hash (some last) = elim last.payload_hash [
  | none ↦ none
  | some old ↦ if has_significant_change old hash then none else some "payload unchanged"
]

-- The first reason that applies.
abbrev pub or_else : Result (Option String) → Result (Option String) → Result (Option String)
or_else (raise e) rest = raise e
or_else (ok none) rest = rest
or_else (ok (some reason)) rest = ok (some reason)

abbrev pub verdict : Result (Option String) → Result (Bool × Option String)
verdict (raise e) = raise e
verdict (ok none) = ok (false, none)
verdict (ok (some reason)) = ok (true, some reason)

module _ (hashing : Hashing) where
  abbrev pub window_text : Option ℕ → String
  window_text none = "none"
  window_text (some t) = hashing.isoformat t

  unfoldable pub compute_key : ℕ → ℕ → String → Option ℕ → Option ℕ → String
  compute_key rule_id location_id expression_hash start end' =
      hashing.show rule_id
      ++ ":"
      ++ hashing.show location_id
      ++ ":"
      ++ expression_hash
      ++ ":"
      ++ window_text start
      ++ ":"
      ++ window_text end'

  unfoldable pub compute_dedupe_key : ℕ → ℕ → String → Option ℕ → Option ℕ → DedupeKey
  compute_dedupe_key rule_id location_id expression start end' =
      let expression_hash = hashing.sha256 expression in
      record {
        rule_id = rule_id;
        location_id = location_id;
        expression_hash = expression_hash;
        forecast_window_start = start;
        forecast_window_end = end';
        dedupe_key = compute_key rule_id location_id expression_hash start end';
      }

  unfoldable pub compute_payload_hash : EvaluationDetail → String
  compute_payload_hash payload = hashing.sha256 (hashing.json_dumps payload)

  -- The hash under which an event of the rule and the window is stored.
  unfoldable pub dedupe_hash : NotificationRule → Option ℕ → Option ℕ → String
  dedupe_hash rule start end' =
      hashing.sha256
        (compute_dedupe_key rule.id rule.location_id rule.expression start end').dedupe_key

  unfoldable pub snooze_reason : ℕ → NotificationRule → Option String
  snooze_reason now rule = elim rule.snooze_until [
    | none ↦ none
    | some until ↦
        if ltb now until then some ("snoozed until " ++ hashing.isoformat until) else none
  ]

  abbrev pub cooldown_text : NotificationRule → NotificationEventOrm → String
  cooldown_text rule recent =
      "cooldown: last sent at "
      ++ elim recent.sent_at [ none ↦ "N/A" | some t ↦ hashing.isoformat t ]
      ++ ", cooldown "
      ++ hashing.show rule.cooldown_minutes
      ++ "min"

  unfoldable pub cooldown_reason : ℕ → NotificationRule → Database → Result (Option String)
  cooldown_reason now rule db =
      elim (first_row (
        order_by_desc (λ e. instant e.sent_at)
          (select (sent_since rule (now - rule.cooldown_minutes * minute)) db.events))) [
            | raise e ↦ raise e
            | ok none ↦ ok none
            | ok (some recent) ↦ ok (some (cooldown_text rule recent))
          ]

  abbrev pub duplicate_text : NotificationRule → Option ℕ → Option ℕ → String
  duplicate_text rule start end' =
      "duplicate: dedupe key "
      ++ (compute_dedupe_key rule.id rule.location_id rule.expression start end').dedupe_key

  -- Only where both ends of the window are known.
  unfoldable pub duplicate_within :
      NotificationRule → Option ℕ → Option ℕ → Database → Result (Option String)
  duplicate_within rule none end' db = ok none
  duplicate_within rule (some start) none db = ok none
  duplicate_within rule (some start) (some end') db =
      elim (first_row
        (select (sent_same rule (dedupe_hash rule (some start) (some end'))) db.events)) [
          | raise e ↦ raise e
          | ok none ↦ ok none
          | ok (some existing) ↦ ok (some (duplicate_text rule (some start) (some end')))
        ]

  unfoldable pub duplicate_reason :
      NotificationRule → NotificationCandidate → Database → Result (Option String)
  unfolding duplicate_within
  duplicate_reason rule event =
      duplicate_within rule event.forecast_window_start event.forecast_window_end

  unfoldable pub unchanged_payload :
      NotificationRule → Option EvaluationDetail → Database → Result (Option String)
  unchanged_payload rule none db = ok none
  unchanged_payload rule (some payload) db =
      elim (first_row (order_by_desc (λ e. e.created_at) (select (sent_hashed rule) db.events))) [
        | raise e ↦ raise e
        | ok last ↦ ok (unchanged_since (compute_payload_hash payload) last)
      ]

  unfoldable pub unchanged_reason :
      NotificationRule → NotificationCandidate → Database → Result (Option String)
  unfolding unchanged_payload
  unchanged_reason rule event = unchanged_payload rule event.payload

  unfoldable pub first_reason :
      ℕ → NotificationRule → NotificationCandidate → Database → Result (Option String)
  first_reason now rule event db = or_else (ok (snooze_reason now rule)) (
      or_else (cooldown_reason now rule db)
        (or_else (duplicate_reason rule event db) (unchanged_reason rule event db)))

  unfoldable pub should_suppress :
      ℕ → NotificationRule → NotificationCandidate → Database → Result (Bool × Option String)
  unfolding first_reason
  should_suppress now rule event db = verdict (first_reason now rule event db)
