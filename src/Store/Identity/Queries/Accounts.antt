-- ===== src/Store/Identity/Queries/Accounts.antt =====
-- gen/identity.sql.go and gen/store.sql.go: the Organization, its members, Bootstrap Codes and the audit.
use autosecrets.Prelude.{
  ℕ, Bool, true, false, not, ◌&&◌, ◌||◌, none, some, List, [], ◌∷◌, ◌++◌, ◌==◌, ltb, any, find,
  update_if, count_if, is_none, is_some, length,
}
use autosecrets.Store.Tx.{
  Tx, no_rows, unique_violation, pure, gets, or_fail, refuse, modify, ◌>>=◌, ◌>>◌,
}
use autosecrets.Store.Identity.Rows.{
  MemberStatus, member_active, role_administrator, is_administrator, is_member_active,
  OrganizationConfig, Admin, AuditEvent, IdentityDb,
}

unfoldable pub select_organization : Tx IdentityDb OrganizationConfig
select_organization = do row ← gets (λ db. db.organization_config); or_fail no_rows row

-- `password_login_enabled` is true by default, `totp_login_required` false.
unfoldable pub insert_organization_config : ℕ → Tx IdentityDb (Unit {0})
insert_organization_config name = do
  row ← gets (λ db. db.organization_config)
  refuse (is_some row) unique_violation
  modify (λ db. record db {
    organization_config = some (record {
      display_name = name;
      totp_login_required = false;
      password_login_enabled = true;
    });
  })

-- `UPDATE organization_config SET … WHERE singleton`
abbrev pub update_organization :
    (OrganizationConfig → OrganizationConfig) → Tx IdentityDb (Unit {0})
update_organization f = modify (λ db. record db {
  organization_config = elim db.organization_config [ none ↦ none | some o ↦ some (f o) ];
})

unfoldable pub enable_totp_login_policy : Tx IdentityDb (Unit {0})
enable_totp_login_policy = update_organization (λ o. record o { totp_login_required = true })

unfoldable pub disable_totp_login_policy : Tx IdentityDb (Unit {0})
disable_totp_login_policy = update_organization (λ o. record o { totp_login_required = false })

unfoldable pub update_password_login_enabled : Bool → Tx IdentityDb (Unit {0})
update_password_login_enabled enabled =
    update_organization (λ o. record o { password_login_enabled = enabled })

unfoldable pub select_admin_count : Tx IdentityDb ℕ
select_admin_count = gets (λ db. length db.admins)

unfoldable pub mark_bootstrap_code_used : ℕ → ℕ → Tx IdentityDb ℕ
mark_bootstrap_code_used hash now = do
  n ← gets (λ db.
      count_if (λ c. c.code_hash == hash && is_none c.used_at && ltb now c.expires_at)
        db.bootstrap_codes)
  modify (λ db. record db {
    bootstrap_codes =
        update_if (λ c. c.code_hash == hash && is_none c.used_at && ltb now c.expires_at)
          (λ c. record c { used_at = some now }) db.bootstrap_codes;
  })
  pure n

unfoldable pub insert_bootstrap_code : ℕ → ℕ → Tx IdentityDb (Unit {0})
insert_bootstrap_code hash until = do
  codes ← gets (λ db. db.bootstrap_codes)
  refuse (any (λ c. c.code_hash == hash) codes) unique_violation
  modify (λ db. record db {
    bootstrap_codes =
        db.bootstrap_codes ++ record { code_hash = hash; expires_at = until; used_at = none } ∷ [];
  })

unfoldable pub insert_admin_active : ℕ → ℕ → List ℕ → ℕ → Tx IdentityDb (Unit {0})
insert_admin_active id username password_hash now = do
  admins ← gets (λ db. db.admins)
  refuse (any (λ a. a.id == id || a.username == username) admins) unique_violation
  modify (λ db. record db {
    admins =
        db.admins
        ++ record {
          id = id;
          username = username;
          password_hash = password_hash;
          role = role_administrator;
          status = member_active;
          activated_at = some now;
          deactivated_at = none;
          last_totp_counter = none;
        }
          ∷ [];
  })

unfoldable pub select_member_by_username : ℕ → Tx IdentityDb Admin
select_member_by_username username = do
  admins ← gets (λ db. db.admins)
  or_fail no_rows (find (λ a. a.username == username) admins)

unfoldable pub select_member_by_id : ℕ → Tx IdentityDb Admin
select_member_by_id id = do
  admins ← gets (λ db. db.admins)
  or_fail no_rows (find (λ a. a.id == id) admins)

unfoldable pub update_password_row : ℕ → List ℕ → Tx IdentityDb (Unit {0})
update_password_row id password_hash = modify (λ db. record db {
  admins = update_if (λ a. a.id == id) (λ a. record a { password_hash = password_hash }) db.admins;
})

-- The unique user name is the constraint that the update can violate.
unfoldable pub update_username_row : ℕ → ℕ → Tx IdentityDb (Unit {0})
update_username_row id username = do
  admins ← gets (λ db. db.admins)
  refuse
      (any (λ a. a.id == id) admins && any (λ a. a.username == username && not (a.id == id)) admins)
      unique_violation
  modify (λ db. record db {
    admins = update_if (λ a. a.id == id) (λ a. record a { username = username }) db.admins;
  })

unfoldable pub count_other_active_administrators : ℕ → Tx IdentityDb ℕ
count_other_active_administrators id = gets (λ db.
    count_if (λ a. (is_administrator a.role && is_member_active a.status) && not (a.id == id))
      db.admins)

unfoldable pub deactivate_member_row : ℕ → MemberStatus → ℕ → Tx IdentityDb (Unit {0})
deactivate_member_row id status now = modify (λ db. record db {
  admins =
      update_if (λ a. a.id == id) (λ a. record a { status = status; deactivated_at = some now })
        db.admins;
})

unfoldable pub revoke_member_invitations : ℕ → ℕ → Tx IdentityDb (Unit {0})
revoke_member_invitations id now = modify (λ db. record db {
  member_invitations =
      update_if (λ i. i.admin_id == id && (is_none i.used_at && is_none i.revoked_at))
        (λ i. record i { revoked_at = some now }) db.member_invitations;
})

-- The table is only ever appended to.
unfoldable pub insert_audit_event : AuditEvent → Tx IdentityDb (Unit {0})
insert_audit_event event = modify (λ db. record db { audit_events = db.audit_events ++ event ∷ [] })
