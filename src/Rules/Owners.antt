-- ===== src/Rules/Owners.antt =====
-- What the writing methods of the rule service leave of the rules of other users.
use weather_agent.Prelude.{
  ℕ, ◌≡◌, refl, Bool, true, false, not, ◌&&◌, Bool-cases, inl, inr, none, some, List, [], ◌∷◌,
  String, arith, ok, ◌==◌, ==_iff, str_eq, any, any_mono, select, delete_where, update_where,
  scalar_one_or_none, Distinct,
}
use weather_agent.Database.{NotificationRuleOrm, Database, rule_conflict}
use weather_agent.ShortId.{strip_hash_prefix}
use weather_agent.Rules.Model.{NotificationRule, RuleCreate, RuleUpdate}
use weather_agent.Rules.Rows.{Env, RuleService, orm_to_domain, new_rule, updated}
use weather_agent.Rules.Service.{
  create_rule, update_rule, delete_rule, get_rule_for_user, to_domain_result,
}
use weather_agent.Rules.Invariant.{HasUniqueRules}

-- The rules of the other users.
abbrev pub others : ℕ → Database → List NotificationRuleOrm
others user_id db = select (λ r. not (r.user_id == user_id)) db.rules

-- Whether a rule of another user has the key.
abbrev pub is_foreign : ℕ → ℕ → NotificationRuleOrm → Bool
is_foreign user_id rule_id r = r.id == rule_id && not (r.user_id == user_id)

others-update_where :
    (user_id rule_id : ℕ) (f : NotificationRuleOrm → NotificationRuleOrm)
    (xs : List NotificationRuleOrm)
    → ((r : NotificationRuleOrm) → (f r).user_id ≡ r.user_id)
    → any (is_foreign user_id rule_id) xs ≡ false
    → select (λ r. not (r.user_id == user_id)) (update_where (λ r. r.id == rule_id) f xs)
      ≡ select (λ r. not (r.user_id == user_id)) xs
others-update_where user_id rule_id f [] k h = refl
others-update_where user_id rule_id f (x ∷ xs) k h =
    ground (arith, k x, others-update_where user_id rule_id f xs k)

others-delete_where :
    (user_id rule_id : ℕ) (xs : List NotificationRuleOrm)
    → any (is_foreign user_id rule_id) xs ≡ false
    → select (λ r. not (r.user_id == user_id)) (delete_where (λ r. r.id == rule_id) xs)
      ≡ select (λ r. not (r.user_id == user_id)) xs
others-delete_where user_id rule_id [] h = refl
others-delete_where user_id rule_id (x ∷ xs) h =
    ground (arith, others-delete_where user_id rule_id xs)

abbrev has_id : ℕ → NotificationRuleOrm → Bool
has_id rule_id r = r.id == rule_id

no_other :
    (x : NotificationRuleOrm) (rule_id : ℕ) (xs : List NotificationRuleOrm)
    → x.id ≡ rule_id
    → any (rule_conflict x) xs ≡ false
    → any (has_id rule_id) xs ≡ false
no_other x rule_id xs e = any_mono (has_id rule_id) (rule_conflict x) xs (λ y p. ground arith)

-- A key that a rule of the user has, no rule of another user has.
one_owner :
    (user_id rule_id : ℕ) (xs : List NotificationRuleOrm)
    → Distinct rule_conflict xs
    → any (λ r. r.id == rule_id && r.user_id == user_id) xs ≡ true
    → any (is_foreign user_id rule_id) xs ≡ false
one_owner user_id rule_id [] d h = refl
one_owner user_id rule_id (x ∷ xs) d h = elim (Bool-cases (x.id == rule_id)) [
  | inl e ↦
      let none_left = no_other x rule_id xs ((==_iff x.id rule_id).0 e) d.0 in
      ground (
        arith,
        any_mono (is_foreign user_id rule_id) (has_id rule_id) xs (λ y p. ground arith) none_left,
        any_mono (λ r. r.id == rule_id && r.user_id == user_id) (has_id rule_id) xs
            (λ y p. ground arith) none_left,
      )
  | inr e ↦ ground (arith, one_owner user_id rule_id xs d.1)
]

found_owner :
    (p : NotificationRuleOrm → Bool) (xs : List NotificationRuleOrm) (o : NotificationRuleOrm)
    (user_id : ℕ)
    → ((r : NotificationRuleOrm) → p r ≡ true → r.user_id ≡ user_id)
    → select p xs ≡ o ∷ []
    → any (λ r. r.id == o.id && r.user_id == user_id) xs ≡ true
found_owner p [] o user_id k h = ground arith
found_owner p (x ∷ xs) o user_id k h = ground (arith, k x, found_owner p xs o user_id k)

module _ (service : RuleService) where
  pub create_rule-others :
      (env : Env) (user_id : ℕ) (create : RuleCreate) (db : Database)
      → others user_id (create_rule service env user_id create db).1 ≡ others user_id db
  unfolding create_rule new_rule
  create_rule-others env user_id create db = ground arith

  pub update_rule-others :
      (now user_id rule_id : ℕ) (update : RuleUpdate) (db : Database)
      → any (is_foreign user_id rule_id) db.rules ≡ false
      → others user_id (update_rule service now rule_id update db).1 ≡ others user_id db
  unfolding update_rule
  update_rule-others now user_id rule_id update db h = ground (
    arith,
    others-update_where user_id rule_id (updated service.codec now update) db.rules
        (unfold updated in λ r. refl) h,
  )

  pub delete_rule-others :
      (user_id rule_id : ℕ) (db : Database)
      → any (is_foreign user_id rule_id) db.rules ≡ false
      → others user_id (delete_rule rule_id db).1 ≡ others user_id db
  unfolding delete_rule
  delete_rule-others user_id rule_id db h =
      ground (arith, others-delete_where user_id rule_id db.rules h)

  -- A rule that the user names by its short id shares its key with no rule of another user.
  pub get_rule_for_user-own :
      (user_id : ℕ) (short_id : String) (db : Database) (r : NotificationRule)
      → HasUniqueRules db
      → get_rule_for_user service user_id none (some short_id) db ≡ ok (some r)
      → any (is_foreign user_id r.id) db.rules ≡ false
  unfolding get_rule_for_user orm_to_domain
  get_rule_for_user-own user_id short_id db r d h =
      owner
        (select (λ o. o.user_id == user_id && str_eq o.short_id (strip_hash_prefix short_id))
          db.rules)
        refl h
    where
      owner :
          (xs : List NotificationRuleOrm)
          → select
              (λ o. o.user_id == user_id && str_eq o.short_id (strip_hash_prefix short_id))
              db.rules
            ≡ xs
          → to_domain_result service (scalar_one_or_none xs) ≡ ok (some r)
          → any (is_foreign user_id r.id) db.rules ≡ false
      owner [] e h = cc
      owner (o ∷ []) e h = ground (
        arith,
        one_owner user_id o.id db.rules d
            (found_owner _ db.rules o user_id (λ r p. ground arith) e),
      )
      owner (o ∷ o' ∷ xs) e h = cc
