-- ===== src/Auth/Service.antt =====
-- domain/auth.py: `AuthorizationService`, with its two sets as lists, and a repository.
use weather_agent.Prelude.{
  ℕ, Bool, true, false, List, [], ◌∷◌, unauthorized, Result, ok, raise, ◌==◌, if◌then◌else◌, any,
  delete_where, order_by,
}
use weather_agent.Database.{Database}
use weather_agent.Auth.Repository.{add_user, remove_user}

-- The two sets, and whether there is a repository.
pub record AuthorizationService : Type 0 where
  pub allowed : List ℕ
  pub admins : List ℕ
  pub has_repo : Bool

-- `x in s`, `s.add(x)` and `s.discard(x)`.
abbrev pub member : ℕ → List ℕ → Bool
member x xs = any (λ y. y == x) xs

abbrev pub set_add : ℕ → List ℕ → List ℕ
set_add x xs = if member x xs then xs else x ∷ xs

abbrev pub discard : ℕ → List ℕ → List ℕ
discard x xs = delete_where (λ y. y == x) xs

abbrev pub set_of : List ℕ → List ℕ
set_of [] = []
set_of (x ∷ xs) = set_add x (set_of xs)

abbrev pub new_service : List ℕ → Bool → AuthorizationService
new_service allowed_user_ids has_repo = record {
  allowed = set_of allowed_user_ids;
  admins = set_of allowed_user_ids;
  has_repo = has_repo;
}

unfoldable pub is_authorized : ℕ → AuthorizationService → Bool
is_authorized user_id service = member user_id service.allowed

unfoldable pub is_admin : ℕ → AuthorizationService → Bool
is_admin user_id service = member user_id service.admins

unfoldable pub check_authorized : ℕ → AuthorizationService → Result (Unit {0})
check_authorized user_id service =
    if is_authorized user_id service then ok tt else raise (unauthorized user_id)

unfoldable pub check_admin : ℕ → AuthorizationService → Result (Unit {0})
unfolding check_authorized
check_admin user_id service = elim (check_authorized user_id service) [
  | raise e ↦ raise e
  | ok _ ↦ if is_admin user_id service then ok tt else raise (unauthorized user_id)
]

-- The service and the database that its repository writes to.
abbrev pub Access : Type 0
Access = AuthorizationService × Database

abbrev pub with_repo :
    Bool
    → AuthorizationService
    → Result (Unit {0}) × Database
    → Database
    → Result (Unit {0}) × Access
with_repo true service (r, db') db = (r, (service, db'))
with_repo false service out db = (ok tt, (service, db))

unfoldable pub add_authorized_user : ℕ → ℕ → Access → Result (Unit {0}) × Access
add_authorized_user new_id user_id (service, db) =
    let service' = record service { allowed = set_add user_id service.allowed } in
    with_repo service.has_repo service' (add_user new_id user_id "user" db) db

unfoldable pub remove_authorized_user : ℕ → Access → Result (Unit {0}) × Access
remove_authorized_user user_id (service, db) =
    let service' = record service { allowed = discard user_id service.allowed } in
    with_repo service.has_repo service' (remove_user user_id db) db

unfoldable pub list_authorized_users : AuthorizationService → List ℕ
list_authorized_users service = order_by (λ n. n) service.allowed
