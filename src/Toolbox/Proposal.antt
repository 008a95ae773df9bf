-- ===== src/Toolbox/Proposal.antt =====
-- A proposal that is confirmed becomes the rule that was proposed.
use weather_agent.Prelude.{
  ℕ, ◌+◌, ◌*◌, ◌≤◌, false, Option, none, some, String, Result, ok, raise, ◌≡◌, refl, sym, ap, ◌∙◌,
  arith, and_then, is_empty,
}
use weather_agent.Prelude.Decimal.{ℤ}
use weather_agent.Database.{Database}
use weather_agent.Retention.{day}
use weather_agent.Rules.Model.{NotificationRule, RuleCreate}
use weather_agent.Rules.Rows.{Env, RuleService}
use weather_agent.Rules.Service.{create_rule as add_rule, generate_unique_short_id}
use weather_agent.Memory.{
  context_key, store_pending_confirmation, get_pending_confirmation, default_ttl_days,
}
use weather_agent.Memory.Rows.{HasUniqueContexts, is_fresh_context}
use weather_agent.Memory.Pending.{get_pending_confirmation-store_pending_confirmation}
use weather_agent.Memory.Frames.{and_then_keeps}
use weather_agent.Toolbox.Model.{PendingConfirmation, RulesToolbox, ToolEnv, ToolResult}
use weather_agent.Toolbox.Propose.{
  execute_propose, resolve_location, proposed, store_and_show, proposal_text,
}
use weather_agent.Toolbox.Confirm.{
  confirm_found, confirm_parsed, confirm_new, thread_or, caught, execute_confirm, rule_of, finish,
  created_answer,
}
use weather_agent.Toolbox.Safety.{clear_and_keeps}
use weather_agent.Toolbox.Calls.{perform, perform-proposals, propose}

-- The rules after a creation depend on the rules before it alone.
create_rule-rules :
    (service : RuleService) (env : Env) (user_id : ℕ) (create : RuleCreate) (db db' : Database)
    → db'.rules ≡ db.rules
    → (add_rule service env user_id create db').1.rules
      ≡ (add_rule service env user_id create db).1.rules
unfolding add_rule generate_unique_short_id
create_rule-rules service env user_id create db db' h = ground arith

module _ (t : RulesToolbox) where
  caught-rules : (o : Result ToolResult × Database) → (caught t o).1.rules ≡ o.1.rules
  caught-rules (raise e, db) = refl
  caught-rules (ok result, db) = refl

  finish-rules :
      (env : ToolEnv) (text : NotificationRule → String) (o : Result NotificationRule × Database)
      → (and_then o (finish t env text)).1.rules ≡ o.1.rules
  finish-rules env text o =
      and_then_keeps (λ d. d.rules ≡ o.1.rules) o (finish t env text) refl
        (λ rule db.
          clear_and_keeps t (λ d. d.rules ≡ o.1.rules) (λ d contexts locations q. q) env _ db)

  confirm_new-rules :
      (env : ToolEnv) (pending : PendingConfirmation) (chat_id : ℕ) (thread_id : Option ℕ)
      (location_id : ℕ) (db : Database)
      → (caught t (confirm_new t env pending chat_id thread_id location_id db)).1.rules
        ≡ (add_rule t.service env.rules t.user_id
            (rule_of pending chat_id thread_id location_id)
            db).1.rules
  confirm_new-rules env pending chat_id thread_id location_id db =
      caught-rules _ ∙ finish-rules env created_answer _

  -- The proposal of a rule at a location of the user.
  abbrev pub new_rule : ToolEnv → String → String → ℕ → PendingConfirmation
  new_rule env rule_expression explanation id =
      proposed t env rule_expression explanation "" (some id)

  execute_propose-store :
      (env : ToolEnv) (rule_expression explanation location_name name : String) (id : ℕ)
      (db : Database)
      → t.service.validate rule_expression ≡ none
      → resolve_location t env location_name db ≡ (ok (some (id, name)), db)
      → execute_propose t env rule_expression explanation location_name "" db
        ≡ store_and_show t env
            (new_rule env rule_expression explanation id)
            (proposal_text t rule_expression explanation "")
            db
  unfolding execute_propose
  execute_propose-store env rule_expression explanation location_name name id db v l =
      rw (v, l) refl

  shown-db :
      {A : Type 0} (o : Result A × Database) (result : ToolResult)
      → (and_then o (λ _ db'. (ok result, db'))).1 ≡ o.1
  shown-db (raise e, db) result = refl
  shown-db (ok a, db) result = refl

  -- What a proposal that was stored becomes.
  confirm-stored :
      (env' env : ToolEnv) (rule_expression explanation : String) (id : ℕ) (db : Database)
      → let pending = new_rule env' rule_expression explanation id in
        get_pending_confirmation env.rules.now env.context_id t.context_key none db
          ≡ (ok (some (t.pending.to_dict pending)), db)
        → t.pending.from_dict (t.pending.to_dict pending) ≡ some pending
        → is_empty rule_expression ≡ false
        → (execute_confirm t env db).1.rules
          ≡ (add_rule t.service env.rules t.user_id
              (rule_of pending t.chat_id (thread_or t.message_thread_id t.message_thread_id) id)
              db).1.rules
  unfolding execute_confirm
  confirm-stored env' env rule_expression explanation id db g codec nonempty =
      ap (λ o. (and_then o (confirm_found t env)).1.rules) g
      ∙ ap (λ q. (confirm_parsed t env q db).1.rules) codec
      ∙ rw nonempty (confirm_new-rules env (new_rule env' rule_expression explanation id) _ _ id db)

  thread_or_same : (thread : Option ℕ) → thread_or thread thread ≡ thread
  thread_or_same none = refl
  thread_or_same (some n) = refl

  -- A rule with a valid expression that was proposed at a known location of the user, from a context
  -- whose key is that of a chat and a thread, and that is confirmed within fourteen days, with a
  -- codec that reads the proposal back, is made as `create_rule` makes it of the proposed expression
  -- and explanation, the location, the chat and the thread.
  pub execute_confirm-execute_propose :
      (env env' : ToolEnv) (chat_id : ℤ) (thread : Option ℤ)
      (rule_expression explanation location_name name : String) (id : ℕ) (db : Database)
      → t.context_key ≡ context_key chat_id thread
      → t.pending.from_dict (t.pending.to_dict (new_rule env rule_expression explanation id))
        ≡ some (new_rule env rule_expression explanation id)
      → HasUniqueContexts db
      → is_fresh_context env.context_id db ≡ false
      → t.service.validate rule_expression ≡ none
      → is_empty rule_expression ≡ false
      → resolve_location t env location_name db ≡ (ok (some (id, name)), db)
      → env'.rules.now ≤ env.rules.now + default_ttl_days * day
      → let proposed_db =
          (execute_propose t env rule_expression explanation location_name "" db).1 in
        let pending = new_rule env rule_expression explanation id in
        (execute_confirm t env' proposed_db).1.rules
        ≡ (add_rule t.service env'.rules t.user_id
            (rule_of pending t.chat_id t.message_thread_id id)
            db).1.rules
  unfolding execute_propose perform store_pending_confirmation context_key
  execute_confirm-execute_propose env env' chat_id thread rule_expression explanation location_name
        name id db k codec unique fresh v nonempty l within =
      let pending = new_rule env rule_expression explanation id in
      let stored =
        store_pending_confirmation env.rules.now env.context_id t.context_key
          (t.pending.to_dict pending) db in
      let same : (execute_propose t env rule_expression explanation location_name "" db).1
          ≡ stored.1 =
        ap (λ o. o.1)
          (execute_propose-store env rule_expression explanation location_name name id db v l)
        ∙ shown-db stored _ in
      let untouched : stored.1.rules ≡ db.rules =
        sym (ap (λ d. d.rules) same)
        ∙ (perform-proposals t env (propose rule_expression explanation location_name "") db
            refl).0 in
      let got =
        get_pending_confirmation-store_pending_confirmation env.rules.now env'.rules.now
          env.context_id env'.context_id chat_id thread (t.pending.to_dict pending) none db unique
          fresh within in
      ap (λ d. (execute_confirm t env' d).1.rules) same
      ∙ confirm-stored env env' rule_expression explanation id stored.1 (rw k got) codec nonempty
      ∙ ap
          (λ thread_id.
            (add_rule t.service env'.rules t.user_id (rule_of pending t.chat_id thread_id id)
              stored.1).1.rules)
          (thread_or_same t.message_thread_id)
      ∙ create_rule-rules t.service env'.rules t.user_id
          (rule_of pending t.chat_id t.message_thread_id id) db stored.1 untouched
