-- ===== src/Auth/Invites.antt =====
-- An invite code is used once.
use weather_agent.Prelude.{
  ℕ, ◌≡◌, ◌≢◌, refl, ap, ◌∙◌, Bool, true, false, Option, none, some, String, arith, Result, ok,
  raise, find, select, is_some, if◌then◌else◌, scalar_one_or_none, scalar-update_where, leb,
}
use weather_agent.Database.{GlobalSettingOrm, Database}
use weather_agent.Time.{ensure_utc, utc}
use weather_agent.Auth.Repository.{
  StoredInviteCode, InviteCodec, InviteRedeemStatus, redeemed, already_authorized, used, expired,
  refused_if, is_user, is_invite, find_user, add_user, get_invite_setting, is_authorized_result,
  parse_invite, in_utc, used_invite, write_used, after_add, redeem_parsed, redeem_setting,
  redeem_unless, redeem_invite_code,
}
use weather_agent.Auth.Users.{HasUniqueUsers, Kept, find_user-find, add_user-Kept}

-- An invite that was used by `u` is read back as one that was.
abbrev pub ReadsBack : InviteCodec → ℕ → Type 0
ReadsBack codec u =
    (i : StoredInviteCode)
    → i.used_by ≡ some u
    → (j : StoredInviteCode) × (codec.model_validate (codec.model_dump_json i) ≡ some j)
      × (j.used_by ≡ some u)

module _ (codec : InviteCodec) (code : String) where
  -- A setting of the code whose invite was used.
  abbrev pub IsUsed : Database → Type 0
  IsUsed db =
      (setting : GlobalSettingOrm) × (invite : StoredInviteCode) × (get_invite_setting code db
        ≡ ok (some setting))
      × (parse_invite codec setting.value ≡ some invite)
      × (is_some invite.used_by ≡ true)

  -- A redeemed code leaves the settings of the database with an invite that was used.
  write_used-IsUsed :
      (u now : ℕ) (invite : StoredInviteCode) (setting : GlobalSettingOrm) (db : Database)
      → ReadsBack codec u
      → get_invite_setting code db ≡ ok (some setting)
      → IsUsed (write_used codec code (used_invite codec u now invite) db)
  unfolding parse_invite
  write_used-IsUsed u now invite setting db trip found =
      let i = used_invite codec u now invite in
      let (j, read, by) = trip i refl in
      (
        record setting { value = codec.model_dump_json i },
        in_utc j,
        scalar-update_where (is_invite code) (λ s. record s { value = codec.model_dump_json i })
            db.settings setting (λ s h. h) found,
        ap (λ o. elim o [ none ↦ none | some i ↦ some (in_utc i) ]) read,
        ap is_some by,
      )

  unless-used :
      (new_id v now : ℕ) (db : Database) (b : Bool)
      → IsUsed db
      → redeem_unless codec new_id code v now (ok b) db
        ≡ (ok (if b then already_authorized else used), db)
  unless-used new_id v now db true is = refl
  unless-used new_id v now db false (setting, invite, found, parsed, is_used) =
      ap (λ s. redeem_setting codec new_id code v now s db) found
      ∙ ap (λ i. redeem_parsed codec new_id code v now i db) parsed
      ∙ ground (arith, is_used)

  -- Whoever asks for a code that was used is told so, unless authorized.
  used-redeem :
      (new_id v now : ℕ) (db : Database)
      → HasUniqueUsers db
      → IsUsed db
      → redeem_invite_code codec new_id code v now db
        ≡ (ok (if is_some (find (is_user v) db.users) then already_authorized else used), db)
  unfolding redeem_invite_code
  used-redeem new_id v now db unique is =
      ap (λ a. redeem_unless codec new_id code v now a db)
        (ap is_authorized_result (find_user-find v db unique))
      ∙ unless-used new_id v now db (is_some (find (is_user v) db.users)) is

  -- What a database has after the code was redeemed.
  abbrev After : Database → Type 0
  After db = IsUsed db × HasUniqueUsers db

  after_add-After :
      (u now : ℕ) (invite : StoredInviteCode) (setting : GlobalSettingOrm) (db : Database)
      (out : Result (Unit {0}) × Database)
      → ReadsBack codec u
      → get_invite_setting code db ≡ ok (some setting)
      → Kept db out.1
      → (after_add codec code (used_invite codec u now invite) out).0 ≡ ok redeemed
      → After (after_add codec code (used_invite codec u now invite) out).1
  after_add-After u now invite setting db (raise e, db') trip found kept h = ground arith
  after_add-After u now invite setting db (ok _, db') trip found (same, unique) h = (
    write_used-IsUsed u now invite setting db' trip
        (ap (λ rows. scalar_one_or_none (select (is_invite code) rows)) same ∙ found),
    unique,
  )

  guarded :
      (b : Bool) (status : InviteRedeemStatus) (db : Database)
      (out : Result InviteRedeemStatus × Database)
      → status ≢ redeemed
      → (out.0 ≡ ok redeemed → After out.1)
      → (refused_if b status db out).0 ≡ ok redeemed
      → After (refused_if b status db out).1
  guarded true status db out other rest h = ground arith
  guarded false status db out other rest h = rest h

  parsed-After :
      (new_id u now : ℕ) (parsed : Option StoredInviteCode) (setting : GlobalSettingOrm)
      (db : Database)
      → ReadsBack codec u
      → get_invite_setting code db ≡ ok (some setting)
      → HasUniqueUsers db
      → (redeem_parsed codec new_id code u now parsed db).0 ≡ ok redeemed
      → After (redeem_parsed codec new_id code u now parsed db).1
  parsed-After new_id u now none setting db trip found unique h = ground arith
  parsed-After new_id u now (some invite) setting db trip found unique h =
      let last =
        after_add-After u now invite setting db (add_user new_id u "user" db) trip found
          (add_user-Kept new_id u "user" db unique) in
      guarded (is_some invite.used_by) used db _ (λ e. ground arith)
        (guarded (leb (ensure_utc utc invite.expires_at) now) expired db _ (λ e. ground arith) last)
        h

  setting-After :
      (new_id u now : ℕ) (found : Result (Option GlobalSettingOrm)) (db : Database)
      → ReadsBack codec u
      → get_invite_setting code db ≡ found
      → HasUniqueUsers db
      → (redeem_setting codec new_id code u now found db).0 ≡ ok redeemed
      → After (redeem_setting codec new_id code u now found db).1
  setting-After new_id u now (raise e) db trip found unique h = ground arith
  setting-After new_id u now (ok none) db trip found unique h = ground arith
  setting-After new_id u now (ok (some setting)) db trip found unique h =
      parsed-After new_id u now (parse_invite codec setting.value) setting db trip found unique h

  unless-After :
      (new_id u now : ℕ) (known : Result Bool) (db : Database)
      → ReadsBack codec u
      → HasUniqueUsers db
      → (redeem_unless codec new_id code u now known db).0 ≡ ok redeemed
      → After (redeem_unless codec new_id code u now known db).1
  unless-After new_id u now (raise e) db trip unique h = ground arith
  unless-After new_id u now (ok true) db trip unique h = ground arith
  unless-After new_id u now (ok false) db trip unique h =
      setting-After new_id u now (get_invite_setting code db) db trip refl unique h

  redeem-After :
      (new_id u now : ℕ) (db : Database)
      → ReadsBack codec u
      → HasUniqueUsers db
      → (redeem_invite_code codec new_id code u now db).0 ≡ ok redeemed
      → After (redeem_invite_code codec new_id code u now db).1
  unfolding redeem_invite_code
  redeem-After new_id u now db =
      unless-After new_id u now (is_authorized_result (find_user u db)) db

  -- Where an invite that was used is read back as one that was, and the users are distinct, a code that was redeemed is never
  -- redeemed again: whoever asks for it later is told that it was used or, if in the table of users
  -- by then, that they are authorized, and nothing changes.
  pub redeem_invite_code-redeemed :
      (new_id u now new_id' v later : ℕ) (db : Database)
      → ReadsBack codec u
      → HasUniqueUsers db
      → (redeem_invite_code codec new_id code u now db).0 ≡ ok redeemed
      → let db' = (redeem_invite_code codec new_id code u now db).1 in
        redeem_invite_code codec new_id' code v later db'
        ≡ (ok (if is_some (find (is_user v) db'.users) then already_authorized else used), db')
  redeem_invite_code-redeemed new_id u now new_id' v later db trip unique h =
      let (is, unique') = redeem-After new_id u now db trip unique h in
      used-redeem new_id' v later (redeem_invite_code codec new_id code u now db).1 unique' is
