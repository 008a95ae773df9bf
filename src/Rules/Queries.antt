-- ===== src/Rules/Queries.antt =====
-- What the queries of the rule service return: whose rules, in which order, and the rule that a
-- method has just written.
use weather_agent.Prelude.{
  ℕ, ◌≡◌, refl, ap, ◌∙◌, Bool, true, false, ◌&&◌, Option, none, some, List, [], ◌∷◌, map, String,
  arith, Result, ok, raise, ◌==◌, str_eq, select, scalar_one_or_none, All-scalar, All, All-map,
  All-map_pred, All-sort_by, select-All, order_by-IsOrdered, IsOrdered, leb,
}
use weather_agent.Database.{NotificationRuleOrm, Database}
use weather_agent.Rules.Model.{NotificationRule}
use weather_agent.ShortId.{strip_hash_prefix}
use weather_agent.Rules.Rows.{RuleService, orm_to_domain}
use weather_agent.Rules.Service.{list_rules, get_rule_for_user, listed, to_domain_result}

module _ {A B : Type 0} (key : A → ℕ) (key' : B → ℕ) (f : A → B)
    (same : (a : A) → key' (f a) ≡ key a) where
  IsOrdered-map : (xs : List A) → IsOrdered key xs → IsOrdered key' (map f xs)
  IsOrdered-map [] h = tt
  IsOrdered-map (x ∷ []) h = tt
  IsOrdered-map (x ∷ y ∷ ys) h = (rw (same x, same y) h.0, IsOrdered-map (y ∷ ys) h.1)

module _ (service : RuleService) where
  -- `list_rules` returns rules of the user alone, enabled ones unless disabled ones are asked for,
  -- in ascending order of their keys.
  pub list_rules-listed :
      (user_id : ℕ) (include_disabled : Bool) (db : Database)
      → All
          (λ r. (r.user_id ≡ user_id) × (include_disabled ≡ false → r.enabled ≡ true))
          (list_rules service user_id include_disabled db)
        × IsOrdered (λ r. r.id) (list_rules service user_id include_disabled db)
  unfolding list_rules orm_to_domain
  list_rules-listed user_id include_disabled db = (
    All-map _ (orm_to_domain service.codec) _ (
        All-sort_by _ (λ a b. leb a.id b.id) (select (listed user_id include_disabled) db.rules)
          (All-map_pred _ _ (select (listed user_id include_disabled) db.rules)
            (λ r h. ground arith) (select-All (listed user_id include_disabled) db.rules))),
    IsOrdered-map (λ r. r.id) (λ r. r.id) (orm_to_domain service.codec) (λ r. refl) _
        (order_by-IsOrdered (λ r. r.id) (select (listed user_id include_disabled) db.rules)),
  )

  owned :
      (P : NotificationRuleOrm → Type 0) (m : Result (Option NotificationRuleOrm))
      (r : NotificationRule)
      → ((o : NotificationRuleOrm) → m ≡ ok (some o) → P o)
      → to_domain_result service m ≡ ok (some r)
      → (o : NotificationRuleOrm) × P o × (r ≡ orm_to_domain service.codec o)
  owned P (ok none) r k h = cc
  owned P (ok (some o)) r k h = (o, k o refl, ground arith)
  owned P (raise e) r k h = cc

  owned_by :
      (p : NotificationRuleOrm → Bool) (user_id : ℕ) (db : Database) (r : NotificationRule)
      → ((o : NotificationRuleOrm) → p o ≡ true → o.user_id ≡ user_id)
      → to_domain_result service (scalar_one_or_none (select p db.rules)) ≡ ok (some r)
      → r.user_id ≡ user_id
  unfolding orm_to_domain
  owned_by p user_id db r k h =
      let (o, po, same) =
        owned (λ o. p o ≡ true) (scalar_one_or_none (select p db.rules)) r
          (λ o e. All-scalar (λ x. p x ≡ true) (select p db.rules) o (select-All p db.rules) e) h in
      ap (λ (x : NotificationRule). x.user_id) same ∙ k o po

  -- A rule that `get_rule_for_user` returns belongs to the user.
  pub get_rule_for_user-owned :
      (user_id : ℕ) (rule_id : Option ℕ) (short_id : Option String) (db : Database)
      (r : NotificationRule)
      → get_rule_for_user service user_id rule_id short_id db ≡ ok (some r)
      → r.user_id ≡ user_id
  unfolding get_rule_for_user
  get_rule_for_user-owned user_id (some rule_id) short_id db r h =
      owned_by (λ o. o.user_id == user_id && o.id == rule_id) user_id db r (λ o k. ground arith) h
  get_rule_for_user-owned user_id none (some short_id) db r h =
      owned_by (λ o. o.user_id == user_id && str_eq o.short_id (strip_hash_prefix short_id)) user_id
        db r (λ o k. ground arith) h
  get_rule_for_user-owned user_id none none db r h = cc
