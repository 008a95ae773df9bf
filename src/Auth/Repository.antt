-- ===== src/Auth/Repository.antt =====
-- infrastructure/repositories/auth_repository.py: the methods of `AuthRepository`.
use Prim.Native.String.{◌++◌}
use weather_agent.Prelude.{
  ℕ, ◌&&◌, ◌||◌, integrity_error, any, not, Bool, true, false, Option, none, some, List, map,
  String, Result, ok, raise, Action, leb, ◌==◌, str_eq, if◌then◌else◌, select, delete_where,
  update_where, scalar_one_or_none, order_by, is_some,
}
use weather_agent.Database.{
  AuthorizedUserOrm, GlobalSettingOrm, Database, user_conflict, setting_conflict, insert_row,
}
use weather_agent.Time.{DateTime, aware, utc, ensure_utc}

-- `StoredInviteCode`
pub record StoredInviteCode : Type 0 where
  pub created_by : ℕ
  pub expires_at : DateTime
  pub used_by : Option ℕ
  pub used_at : Option DateTime

-- `model_dump_json`, and `json.loads` with `model_validate`.
pub record InviteCodec : Type 0 where
  pub model_dump_json : StoredInviteCode → String
  pub model_validate : String → Option StoredInviteCode

pub data InviteRedeemStatus : Type 0 where
  redeemed already_authorized not_found expired used invalid : InviteRedeemStatus

-- `AuthorizedUserRecord`
pub record AuthorizedUserRecord : Type 0 where
  pub telegram_user_id : ℕ
  pub role : String

abbrev pub is_user : ℕ → AuthorizedUserOrm → Bool
is_user telegram_user_id u = u.telegram_user_id == telegram_user_id

abbrev pub find_user : ℕ → Database → Result (Option AuthorizedUserOrm)
find_user telegram_user_id db = scalar_one_or_none (select (is_user telegram_user_id) db.users)

-- `session.add` and `flush`.
abbrev pub insert_user : AuthorizedUserOrm → Action Database (Unit {0})
insert_user new db = elim (insert_row user_conflict new db.users) [
  | raise e ↦ (raise e, db)
  | ok rows ↦ (ok tt, record db { users = rows })
]

abbrev pub promote : String → AuthorizedUserOrm → AuthorizedUserOrm
promote role u =
    if not (str_eq u.role "admin") && str_eq role "admin" then record u { role = role } else u

abbrev pub add_or_promote :
    ℕ → ℕ → String → Result (Option AuthorizedUserOrm) → Action Database (Unit {0})
add_or_promote new_id telegram_user_id role (raise e) db = (raise e, db)
add_or_promote new_id telegram_user_id role (ok none) db =
    insert_user (record { id = new_id; telegram_user_id = telegram_user_id; role = role }) db
add_or_promote new_id telegram_user_id role (ok (some user)) db =
    (ok tt, record db { users = update_where (λ u. u.id == user.id) (promote role) db.users })

-- `new_id` is the key that the database gives to a new row.
unfoldable pub add_user : ℕ → ℕ → String → Action Database (Unit {0})
add_user new_id telegram_user_id role db =
    add_or_promote new_id telegram_user_id role (find_user telegram_user_id db) db

-- The foreign keys to `authorized_users`, without ON DELETE: a location or a rule of the user.
abbrev pub is_used_user : Database → AuthorizedUserOrm → Bool
is_used_user db u =
    any (λ l. l.user_id == u.id) db.locations || any (λ r. r.user_id == u.id) db.rules

abbrev pub is_referenced : ℕ → Database → Bool
is_referenced telegram_user_id db =
    any (λ u. is_user telegram_user_id u && is_used_user db u) db.users

-- A user that is referred to stops the statement.
unfoldable pub remove_user : ℕ → Action Database (Unit {0})
remove_user telegram_user_id db =
    if is_referenced telegram_user_id db
    then (raise integrity_error, db)
    else (ok tt, record db { users = delete_where (is_user telegram_user_id) db.users })

unfoldable pub list_user_ids : Database → List ℕ
list_user_ids db = order_by (λ n. n) (map (λ u. u.telegram_user_id) db.users)

abbrev pub user_record : AuthorizedUserOrm → AuthorizedUserRecord
user_record u = record { telegram_user_id = u.telegram_user_id; role = u.role }

unfoldable pub list_users : Database → List AuthorizedUserRecord
list_users db = map user_record db.users

abbrev pub id_of_new : ℕ → Result (Unit {0}) × Database → Result ℕ × Database
id_of_new new_id (ok _, db) = (ok new_id, db)
id_of_new new_id (raise e, db) = (raise e, db)

abbrev pub found_or_new : ℕ → ℕ → Result (Option AuthorizedUserOrm) → Action Database ℕ
found_or_new new_id telegram_user_id (raise e) db = (raise e, db)
found_or_new new_id telegram_user_id (ok (some user)) db = (ok user.id, db)
found_or_new new_id telegram_user_id (ok none) db =
    id_of_new new_id
      (insert_user (record { id = new_id; telegram_user_id = telegram_user_id; role = "user" }) db)

unfoldable pub get_or_create_authorized_user_id : ℕ → ℕ → Action Database ℕ
get_or_create_authorized_user_id new_id telegram_user_id db =
    found_or_new new_id telegram_user_id (find_user telegram_user_id db) db

unfoldable pub invite_key : String → String
invite_key code = "telegram_invite:" ++ code

abbrev pub as_utc : DateTime → DateTime
as_utc t = aware (ensure_utc utc t)

abbrev pub in_utc : StoredInviteCode → StoredInviteCode
in_utc invite = record invite {
  expires_at = as_utc invite.expires_at;
  used_at = elim invite.used_at [ none ↦ none | some t ↦ some (as_utc t) ];
}

abbrev pub is_invite : String → GlobalSettingOrm → Bool
is_invite code s = str_eq s.key (invite_key code)

abbrev pub get_invite_setting : String → Database → Result (Option GlobalSettingOrm)
get_invite_setting code db = scalar_one_or_none (select (is_invite code) db.settings)

abbrev pub is_authorized_result : Result (Option AuthorizedUserOrm) → Result Bool
is_authorized_result (raise e) = raise e
is_authorized_result (ok o) = ok (is_some o)

abbrev pub fresh_invite : ℕ → ℕ → StoredInviteCode
fresh_invite created_by expires_at = record {
  created_by = created_by;
  expires_at = aware expires_at;
  used_by = none;
  used_at = none;
}

-- An early return.
abbrev pub refused_if :
    Bool
    → InviteRedeemStatus
    → Database
    → Result InviteRedeemStatus × Database
    → Result InviteRedeemStatus × Database
refused_if true status db rest = (ok status, db)
refused_if false status db rest = rest

module _ (codec : InviteCodec) where
  unfoldable pub parse_invite : String → Option StoredInviteCode
  unfolding ensure_utc
  parse_invite value = elim (codec.model_validate value) [
    | none ↦ none
    | some invite ↦ some (in_utc invite)
  ]

  unfoldable pub create_invite_code : String → ℕ → ℕ → Action Database (Unit {0})
  create_invite_code code created_by expires_at db =
      let new : GlobalSettingOrm = record {
        key = invite_key code;
        value = codec.model_dump_json (fresh_invite created_by expires_at);
      } in
      elim (insert_row setting_conflict new db.settings) [
        | raise e ↦ (raise e, db)
        | ok rows ↦ (ok tt, record db { settings = rows })
      ]

  -- The invite with its use, written over the setting that was read.
  abbrev pub used_invite : ℕ → ℕ → StoredInviteCode → StoredInviteCode
  used_invite telegram_user_id now invite = record invite {
    used_by = some telegram_user_id;
    used_at = some (aware now);
  }

  abbrev pub write_used : String → StoredInviteCode → Database → Database
  write_used code invite db = record db {
    settings =
        update_where (is_invite code) (λ s. record s { value = codec.model_dump_json invite })
          db.settings;
  }

  abbrev pub after_add :
      String
      → StoredInviteCode
      → Result (Unit {0}) × Database
      → Result InviteRedeemStatus × Database
  after_add code invite (raise e, db) = (raise e, db)
  after_add code invite (ok _, db) = (ok redeemed, write_used code invite db)

  -- The tests on the invite, in order.
  abbrev pub redeem_parsed :
      ℕ → String → ℕ → ℕ → Option StoredInviteCode → Action Database InviteRedeemStatus
  redeem_parsed new_id code telegram_user_id now none db = (ok invalid, db)
  redeem_parsed new_id code telegram_user_id now (some invite) db =
      refused_if (is_some invite.used_by) used db (
        refused_if (leb (ensure_utc utc invite.expires_at) now) expired db (
          after_add code (used_invite telegram_user_id now invite)
            (add_user new_id telegram_user_id "user" db)))

  abbrev pub redeem_setting :
      ℕ → String → ℕ → ℕ → Result (Option GlobalSettingOrm) → Action Database InviteRedeemStatus
  redeem_setting new_id code telegram_user_id now (raise e) db = (raise e, db)
  redeem_setting new_id code telegram_user_id now (ok none) db = (ok not_found, db)
  redeem_setting new_id code telegram_user_id now (ok (some setting)) db =
      redeem_parsed new_id code telegram_user_id now (parse_invite setting.value) db

  abbrev pub redeem_unless : ℕ → String → ℕ → ℕ → Result Bool → Action Database InviteRedeemStatus
  redeem_unless new_id code telegram_user_id now (raise e) db = (raise e, db)
  redeem_unless new_id code telegram_user_id now (ok true) db = (ok already_authorized, db)
  redeem_unless new_id code telegram_user_id now (ok false) db =
      redeem_setting new_id code telegram_user_id now (get_invite_setting code db) db

  unfoldable pub redeem_invite_code : ℕ → String → ℕ → ℕ → Action Database InviteRedeemStatus
  unfolding add_user parse_invite ensure_utc
  redeem_invite_code new_id code telegram_user_id now db =
      redeem_unless new_id code telegram_user_id now
        (is_authorized_result (find_user telegram_user_id db)) db
