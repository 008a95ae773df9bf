-- ===== src/Examples/Users.antt =====
-- Authorization.
use weather_agent.Prelude.{
  ℕ, ◌≡◌, refl, ap, ◌||◌, true, Option, none, some, [], ◌∷◌, unauthorized, ok, raise, ◌==◌, str_eq,
  if◌then◌else◌,
}
use weather_agent.Database.{AuthorizedUserOrm, Database}
use weather_agent.Time.{aware}
use weather_agent.Auth.Repository.{
  InviteCodec, StoredInviteCode, used, invite_key, redeem_invite_code,
}
use weather_agent.Auth.Service.{
  AuthorizationService, is_authorized, check_authorized, check_admin, add_authorized_user,
  remove_authorized_user,
}
use weather_agent.Auth.Users.{Agrees, remove_authorized_user-Agrees, add_authorized_user-Agrees}
use weather_agent.Auth.Invites.{redeem_invite_code-redeemed}
use weather_agent.Examples.Fixtures.{empty_db}

abbrev user : ℕ → ℕ → AuthorizedUserOrm
user id telegram_user_id = record { id = id; telegram_user_id = telegram_user_id; role = "user" }

abbrev users_db : Database
users_db = record empty_db { users = user 1 70 ∷ user 2 71 ∷ [] }

abbrev access : AuthorizationService
access = record { allowed = 70 ∷ 71 ∷ []; admins = 70 ∷ 71 ∷ []; has_repo = true }

access-Agrees : Agrees (access, users_db)
unfolding is_authorized
access-Agrees u = refl

remove_authorized_user-Agrees_example :
    let (r, (service', db')) = remove_authorized_user 70 (access, users_db) in
    (r ≡ ok tt)
    × Agrees (service', db')
    × (check_authorized 70 service' ≡ raise (unauthorized 70))
    × (check_admin 70 service' ≡ raise (unauthorized 70))
remove_authorized_user-Agrees_example =
    remove_authorized_user-Agrees 70 access users_db refl refl access-Agrees

add_authorized_user-Agrees_test :
    let (r, (service', db')) = add_authorized_user 3 72 (access, users_db) in
    (r ≡ ok tt)
    × Agrees (service', db')
    × ((v : ℕ) → is_authorized v service' ≡ (72 == v || is_authorized v access))
add_authorized_user-Agrees_test =
    add_authorized_user-Agrees 3 72 access users_db refl (refl, (refl, tt)) refl access-Agrees

abbrev invite_of : Option ℕ → StoredInviteCode
invite_of used_by = record {
  created_by = 70;
  expires_at = aware 500;
  used_by = used_by;
  used_at = none;
}

-- A codec that keeps whether an invite was used, by 72.
abbrev codec : InviteCodec
codec = record {
  model_dump_json = λ i. elim i.used_by [ none ↦ "new" | some _ ↦ "used" ];
  model_validate =
      λ s. if str_eq s "new" then some (invite_of none) else some (invite_of (some 72));
}

abbrev invited : Database
invited = record users_db { settings = record { key = "telegram_invite:c"; value = "new" } ∷ [] }

codec-reads :
    (i : StoredInviteCode)
    → i.used_by ≡ some 72
    → (j : StoredInviteCode) × (codec.model_validate (codec.model_dump_json i) ≡ some j)
      × (j.used_by ≡ some 72)
codec-reads i h = (
  invite_of (some 72),
  ap (λ o. codec.model_validate (elim o [ none ↦ "new" | some _ ↦ "used" ])) h,
  refl,
)

redeem_invite_code-redeemed_example :
    let db' = (redeem_invite_code codec 3 "c" 72 400 invited).1 in
    redeem_invite_code codec 4 "c" 73 401 db' ≡ (ok used, db')
unfolding redeem_invite_code invite_key
redeem_invite_code-redeemed_example =
    redeem_invite_code-redeemed codec "c" 3 72 400 4 73 401 invited codec-reads (refl, (refl, tt))
      refl
