-- ===== src/Auth/Users.antt =====
-- The allowlist in memory and the users in the database.
use weather_agent.Prelude.{
  ℕ, ◌≡◌, refl, sym, ap, ◌∙◌, ◌||◌, inl, inr, Bool, true, false, Option, none, some, List, [], ◌∷◌,
  String, arith, integrity_error, unauthorized, Result, ok, raise, Bool-cases, Option-cases,
  if◌then◌else◌, subst, any-update_where, any, find, delete_where, Distinct, Distinct-update_where,
  scalar-select, any-of_find, ◌==◌, ==_iff, ==_refl,
}
use weather_agent.Database.{AuthorizedUserOrm, Database, user_conflict}
use weather_agent.Auth.Repository.{
  is_user, is_referenced, find_user, insert_user, promote, add_or_promote, add_user, remove_user,
}
use weather_agent.Auth.Service.{
  AuthorizationService, member, set_add, discard, is_authorized, check_authorized, check_admin,
  add_authorized_user, remove_authorized_user, with_repo, Access,
}

abbrev pub HasUniqueUsers : Database → Type 0
HasUniqueUsers db = Distinct user_conflict db.users

-- The allowlist is that of the database.
abbrev pub Agrees : Access → Type 0
Agrees (service, db) = (u : ℕ) → is_authorized u service ≡ any (is_user u) db.users

member-discard :
    (u x : ℕ) (xs : List ℕ) → member u (discard x xs) ≡ (if x == u then false else member u xs)
member-discard u x [] = ground arith
member-discard u x (y ∷ ys) = ground (arith, member-discard u x ys)

any-remove :
    (u x : ℕ) (users : List AuthorizedUserOrm)
    → any (is_user u) (delete_where (is_user x) users)
      ≡ (if x == u then false else any (is_user u) users)
any-remove u x [] = ground arith
any-remove u x (y ∷ ys) = ground (arith, any-remove u x ys)

member-set_add : (u x : ℕ) (xs : List ℕ) → member u (set_add x xs) ≡ (x == u || member u xs)
member-set_add u x xs = elim (Bool-cases (x == u)) [
  | inr other ↦ ground arith
  | inl same ↦ let there = ap (λ n. member n xs) ((==_iff x u).0 same) in ground (arith, there)
]

pub find_user-find :
    (u : ℕ) (db : Database) → HasUniqueUsers db → find_user u db ≡ ok (find (is_user u) db.users)
find_user-find u db h = scalar-select (is_user u) user_conflict db.users (λ a b p q. ground arith) h

abbrev Removed : ℕ → Result (Unit {0}) × Access → Type 0
Removed u (r, (service, db)) =
    (r ≡ ok tt)
    × Agrees (service, db)
    × (check_authorized u service ≡ raise (unauthorized u))
    × (check_admin u service ≡ raise (unauthorized u))

remove_authorized_user-with_repo :
    (u : ℕ) (service : AuthorizationService) (db : Database)
    → service.has_repo ≡ true
    → is_referenced u db ≡ false
    → remove_authorized_user u (service, db) ≡ (
      ok tt,
      (
        record service { allowed = discard u service.allowed },
        record db { users = delete_where (is_user u) db.users },
      ),
    )
unfolding remove_authorized_user remove_user
remove_authorized_user-with_repo u service db repo unused =
    ap
      (λ b.
        with_repo b (record service { allowed = discard u service.allowed })
          (if is_referenced u db
            then (raise integrity_error, db)
            else (ok tt, record db { users = delete_where (is_user u) db.users }))
          db)
      repo
    ∙ ap
        (λ b.
          with_repo true (record service { allowed = discard u service.allowed })
            (if b
              then (raise integrity_error, db)
              else (ok tt, record db { users = delete_where (is_user u) db.users }))
            db)
        unused

discard-Agrees :
    (u : ℕ) (service : AuthorizationService) (db : Database)
    → Agrees (service, db)
    → Agrees (
      record service { allowed = discard u service.allowed },
      record db { users = delete_where (is_user u) db.users },
    )
unfolding is_authorized
discard-Agrees u service db agrees v =
    member-discard v u service.allowed
    ∙ ap (λ b. if u == v then false else b) (agrees v)
    ∙ sym (any-remove v u db.users)

discard-refused :
    (u : ℕ) (service : AuthorizationService)
    → is_authorized u (record service { allowed = discard u service.allowed }) ≡ false
unfolding is_authorized
discard-refused u service = ground (arith, member-discard u u service.allowed, ==_refl u)

refused-check :
    (u : ℕ) (service : AuthorizationService)
    → is_authorized u service ≡ false
    → (check_authorized u service ≡ raise (unauthorized u))
      × (check_admin u service ≡ raise (unauthorized u))
unfolding check_authorized check_admin
refused-check u service h = (ground arith, ground arith)

-- Removing a user, to whom no location and no rule refers, through a service with a repository returns,
-- keeps the allowlist that of the database, and has `check_authorized` and `check_admin` refuse that
-- user, whatever the set of admins.
pub remove_authorized_user-Agrees :
    (u : ℕ) (service : AuthorizationService) (db : Database)
    → service.has_repo ≡ true
    → is_referenced u db ≡ false
    → Agrees (service, db)
    → let (r, (service', db')) = remove_authorized_user u (service, db) in
      (r ≡ ok tt)
      × Agrees (service', db')
      × (check_authorized u service' ≡ raise (unauthorized u))
      × (check_admin u service' ≡ raise (unauthorized u))
remove_authorized_user-Agrees u service db repo unused agrees =
    let service' = record service { allowed = discard u service.allowed } in
    let (no_user, no_admin) = refused-check u service' (discard-refused u service) in
    subst (Removed u) (sym (remove_authorized_user-with_repo u service db repo unused))
      (refl, discard-Agrees u service db agrees, no_user, no_admin)

no_conflict :
    (new_id u : ℕ) (role : String) (users : List AuthorizedUserOrm)
    → any (λ x. x.id == new_id) users ≡ false
    → any (is_user u) users ≡ false
    → any (user_conflict (record { id = new_id; telegram_user_id = u; role = role })) users ≡ false
no_conflict new_id u role [] h k = refl
no_conflict new_id u role (x ∷ xs) h k = ground (arith, no_conflict new_id u role xs)

add_user-absent :
    (new_id u : ℕ) (db : Database)
    → find_user u db ≡ ok none
    → any (λ x. x.id == new_id) db.users ≡ false
    → any (is_user u) db.users ≡ false
    → add_user new_id u "user" db ≡ (
      ok tt,
      record db { users = record { id = new_id; telegram_user_id = u; role = "user" } ∷ db.users },
    )
unfolding add_user
add_user-absent new_id u db absent free k =
    ap (λ o. add_or_promote new_id u "user" o db) absent
    ∙ ground (arith, no_conflict new_id u "user" db.users free k)

any-of_found :
    (p : AuthorizedUserOrm → Bool) (xs : List AuthorizedUserOrm) (x : AuthorizedUserOrm)
    → find p xs ≡ some x
    → any p xs ≡ true
any-of_found p [] x h = ground arith
any-of_found p (y ∷ ys) x h = ground (arith, any-of_found p ys x)

promoted-is_user :
    (v : ℕ) (role : String) (x : AuthorizedUserOrm) → is_user v (promote role x) ≡ is_user v x
promoted-is_user v role x = ground arith

present :
    (u v : ℕ) (users : List AuthorizedUserOrm)
    → any (is_user u) users ≡ true
    → any (is_user v) users ≡ (u == v || any (is_user v) users)
present u v users h = elim (Bool-cases (u == v)) [
  | inr other ↦ ground arith
  | inl same ↦
      let there = ap (λ n. any (is_user n) users) ((==_iff u v).0 same) in ground (arith, there)
]

abbrev Added : ℕ → Database → Result (Unit {0}) × Database → Type 0
Added u db (r, db') =
    (r ≡ ok tt) × ((v : ℕ) → any (is_user v) db'.users ≡ (u == v || any (is_user v) db.users))

pub add_user-Added :
    (new_id u : ℕ) (db : Database)
    → HasUniqueUsers db
    → any (λ x. x.id == new_id) db.users ≡ false
    → Added u db (add_user new_id u "user" db)
unfolding add_user
add_user-Added new_id u db unique free = elim (Option-cases (find (is_user u) db.users)) [
  | inl absent ↦
      subst (Added u db)
        (sym (
          add_user-absent new_id u db (find_user-find u db unique ∙ ap ok absent) free
            (any-of_find (is_user u) db.users absent)))
        (refl, λ v. refl)
  | inr (user, there) ↦
      subst (λ o. Added u db (add_or_promote new_id u "user" o db))
        (sym (find_user-find u db unique ∙ ap ok there))
        (
          refl,
          λ v.
              any-update_where (is_user v) (λ x. x.id == user.id) (promote "user") db.users
                (promoted-is_user v "user")
              ∙ present u v db.users (any-of_found (is_user u) db.users user there),
        )
]

-- What `add_user` keeps, whether it returns or raises.
abbrev pub Kept : Database → Database → Type 0
Kept db db' = (db'.settings ≡ db.settings) × HasUniqueUsers db'

insert_user-Kept :
    (new : AuthorizedUserOrm) (db : Database) → HasUniqueUsers db → Kept db (insert_user new db).1
insert_user-Kept new db h = elim (Bool-cases (any (user_conflict new) db.users)) [
  | inl taken ↦ (ground arith, ground arith)
  | inr free ↦ (ground arith, ground arith)
]

add_or_promote-Kept :
    (new_id u : ℕ) (role : String) (found : Result (Option AuthorizedUserOrm)) (db : Database)
    → HasUniqueUsers db
    → Kept db (add_or_promote new_id u role found db).1
add_or_promote-Kept new_id u role (raise e) db h = (refl, h)
add_or_promote-Kept new_id u role (ok none) db h = insert_user-Kept _ db h
add_or_promote-Kept new_id u role (ok (some user)) db h = (
  refl,
  Distinct-update_where user_conflict (λ x. x.id == user.id) (promote role) db.users
      (λ x y. ground arith) (λ x y. ground arith) h,
)

pub add_user-Kept :
    (new_id u : ℕ) (role : String) (db : Database)
    → HasUniqueUsers db
    → Kept db (add_user new_id u role db).1
unfolding add_user
add_user-Kept new_id u role db = add_or_promote-Kept new_id u role (find_user u db) db

-- Adding a user through a service with a repository returns, where the keys and the users of the
-- table are distinct and the key of the new row is not taken; it authorizes the user and no other,
-- and keeps the allowlist that of the database.
pub add_authorized_user-Agrees :
    (new_id u : ℕ) (service : AuthorizationService) (db : Database)
    → service.has_repo ≡ true
    → HasUniqueUsers db
    → any (λ x. x.id == new_id) db.users ≡ false
    → Agrees (service, db)
    → let (r, (service', db')) = add_authorized_user new_id u (service, db) in
      (r ≡ ok tt)
      × Agrees (service', db')
      × ((v : ℕ) → is_authorized v service' ≡ (u == v || is_authorized v service))
unfolding add_authorized_user is_authorized
add_authorized_user-Agrees new_id u service db repo unique free agrees =
    let service' = record service { allowed = set_add u service.allowed } in
    let (done, users) = add_user-Added new_id u db unique free in
    subst
      (λ b.
        let (r, (s, db')) = with_repo b service' (add_user new_id u "user" db) db in
        (r ≡ ok tt)
        × Agrees (s, db')
        × ((v : ℕ) → member v s.allowed ≡ (u == v || member v service.allowed)))
      (sym repo)
      (
        done,
        λ v. member-set_add v u service.allowed ∙ ap (λ b. u == v || b) (agrees v) ∙ sym (users v),
        λ v. member-set_add v u service.allowed,
      )
