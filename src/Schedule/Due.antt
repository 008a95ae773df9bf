-- ===== src/Schedule/Due.antt =====
-- When a rule is due, said without the code.
use weather_agent.Prelude.{
  ℕ, ◌≤◌, ◌≡◌, refl, sym, ap, ◌∙◌, ◌↔◌, inl, inr, Bool, true, false, Result, raise, overflow_error,
  ◌⊎◌, Option, none, some, String, arith, ok, leb, Bool-cases, Option-cases, if◌then◌else◌,
  is_empty, strip, starts_with, after_prefix, drop_text, text_length, after_prefix-drop_text,
  after_prefix-none,
}
use weather_agent.Time.{DateTime, Zoned, Parsed, moment, not_a_date, out_of_range, parse_datetime}
use weather_agent.Schedule.{
  Calendar, parse_iso, parse_once, parse_stripped, parse_schedule, current, compared, due_by,
  due_if, is_rule_due,
}

module _ (c : Calendar) where
  -- No schedule, a moment that the clocks of Warsaw have reached, or a well-formed cron expression.
  pub data Due (schedule : Option String) (now : Option Zoned) : Type 0 where
    unscheduled : schedule ≡ none → Due schedule now
    empty : (s : String) → schedule ≡ some s → is_empty s ≡ true → Due schedule now
    reached :
        (s iso : String) (t at : Zoned)
        → schedule ≡ some s
        → is_empty s ≡ false
        → after_prefix "once:" (strip s) ≡ some iso
        → parse_iso c iso ≡ moment t
        → now ≡ some at
        → t.wall ≤ at.wall
        → Due schedule now
    recurring :
        (s expr : String)
        → schedule ≡ some s
        → is_empty s ≡ false
        → after_prefix "once:" (strip s) ≡ none
        → after_prefix "cron:" (strip s) ≡ some expr
        → c.is_valid expr ≡ true
        → Due schedule now

  -- A moment, in the schedule or now, that has no reading in Warsaw.
  pub data Overflows (schedule : Option String) (now : Option Zoned) : Type 0 where
    text_overflows :
        (s iso : String)
        → schedule ≡ some s
        → is_empty s ≡ false
        → after_prefix "once:" (strip s) ≡ some iso
        → parse_iso c iso ≡ out_of_range
        → Overflows schedule now
    now_overflows :
        (s iso : String) (t : Zoned)
        → schedule ≡ some s
        → is_empty s ≡ false
        → after_prefix "once:" (strip s) ≡ some iso
        → parse_iso c iso ≡ moment t
        → now ≡ none
        → Overflows schedule now

  abbrev reached_at : Option Zoned → Zoned → Result Bool
  reached_at none t = raise overflow_error
  reached_at (some at) t = ok (leb t.wall at.wall)

  abbrev of_moment : Option Zoned → Parsed → Result Bool
  of_moment now (moment t) = reached_at now t
  of_moment now not_a_date = ok false
  of_moment now out_of_range = raise overflow_error

  abbrev of_prefixes : Option Zoned → Option String → Option String → Result Bool
  unfolding parse_datetime
  of_prefixes now (some iso) other = of_moment now (parse_iso c iso)
  of_prefixes now none none = ok false
  of_prefixes now none (some expr) = ok (c.is_valid expr)

  decided : String → Option Zoned → Result Bool
  unfolding parse_datetime
  decided s now =
      if is_empty s
      then ok true
      else of_prefixes now (after_prefix "once:" (strip s)) (after_prefix "cron:" (strip s))

  once_prefix :
      (t : String) → starts_with t "once:" ≡ true → after_prefix "once:" t ≡ some (drop_text 5 t)
  unfolding text_length
  once_prefix t = after_prefix-drop_text "once:" t

  cron_prefix :
      (t : String) → starts_with t "cron:" ≡ true → after_prefix "cron:" t ≡ some (drop_text 5 t)
  unfolding text_length
  cron_prefix t = after_prefix-drop_text "cron:" t

  once-decided :
      (t : String) (p : Parsed) (now : Option Zoned)
      → parse_iso c (drop_text 5 t) ≡ p
      → due_if c (parse_once c t p) now ≡ of_moment now p
  unfolding due_by parse_datetime
  once-decided t (moment d) none e = ap (λ p. compared c none p) e ∙ refl
  once-decided t (moment d) (some at) e = ap (λ p. compared c (some at) p) e ∙ refl
  once-decided t not_a_date now e = refl
  once-decided t out_of_range now e = refl

  stripped-decided :
      (t : String) (now : Option Zoned)
      → due_if c (parse_stripped c t) now
        ≡ of_prefixes now (after_prefix "once:" t) (after_prefix "cron:" t)
  unfolding parse_stripped due_by parse_datetime
  stripped-decided t now = ground (
    arith,
    once_prefix t,
    cron_prefix t,
    after_prefix-none "once:" t,
    after_prefix-none "cron:" t,
    once-decided t (parse_iso c (drop_text 5 t)) now refl,
  )

  is_rule_due-decided :
      (s : String) (clock : ℕ) (now : Option DateTime)
      → is_rule_due c (some s) clock now ≡ decided s (current c clock now)
  unfolding is_rule_due decided parse_schedule
  is_rule_due-decided s clock now = elim (Bool-cases (is_empty s)) [
    | inl e ↦ rw e refl
    | inr e ↦ rw e (stripped-decided (strip s) (current c clock now))
  ]

  Parsed-cases :
      (p : Parsed) → ((t : Zoned) × (p ≡ moment t)) ⊎ ((p ≡ not_a_date) ⊎ (p ≡ out_of_range))
  Parsed-cases (moment t) = inl (t, refl)
  Parsed-cases not_a_date = inr (inl refl)
  Parsed-cases out_of_range = inr (inr refl)

  decided-Due : (s : String) (now : Option Zoned) → decided s now ≡ ok true → Due (some s) now
  unfolding decided parse_datetime
  decided-Due s now h = elim (Bool-cases (is_empty s)) [
    | inl e ↦ empty s refl e
    | inr e ↦ elim (Option-cases (after_prefix "once:" (strip s))) [
      | inr (iso, p) ↦ elim (Parsed-cases (parse_iso c iso)) [
        | inl (t, q) ↦ elim (Option-cases now) [
          | inr (at, r) ↦ reached s iso t at refl e p q r (ground (arith, h, e, p, q, r))
          | inl r ↦ absurd (ground (arith, h, e, p, q, r))
        ]
        | inr (inl q) ↦ absurd (ground (arith, h, e, p, q))
        | inr (inr q) ↦ absurd (ground (arith, h, e, p, q))
      ]
      | inl p ↦ elim (Option-cases (after_prefix "cron:" (strip s))) [
        | inr (expr, q) ↦ recurring s expr refl e p q (ground (arith, h, e, p, q))
        | inl q ↦ absurd (ground (arith, h, e, p, q))
      ]
    ]
  ]

  Due-decided : (s : String) (now : Option Zoned) → Due (some s) now → decided s now ≡ ok true
  unfolding decided parse_datetime
  Due-decided s now (unscheduled e) = cc
  Due-decided s now (empty t e h) = ground arith
  Due-decided s now (reached t iso u at e h p q r l) = ground arith
  Due-decided s now (recurring t expr e h p q v) = ground arith

  -- It returns true exactly if the schedule is due.
  pub is_rule_due_iff :
      (s : Option String) (clock : ℕ) (now : Option DateTime)
      → (is_rule_due c s clock now ≡ ok true) ↔ Due s (current c clock now)
  unfolding is_rule_due parse_schedule due_by
  is_rule_due_iff none clock now = (λ _. unscheduled refl, λ _. refl)
  is_rule_due_iff (some s) clock now =
      let at = current c clock now in
      let same = is_rule_due-decided s clock now in
      (λ h. decided-Due s at (sym same ∙ h), λ due. same ∙ Due-decided s at due)
