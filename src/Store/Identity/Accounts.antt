-- ===== src/Store/Identity/Accounts.antt =====
-- core/internal/database/identity.go: the Organization, its members and Bootstrap.
use autosecrets.Prelude.{ℕ, Bool, true, false, not, List, ◌==◌, ltb}
use autosecrets.Store.Tx.{
  Tx, not_found, conflict, pure, map_err, map_no_rows, map_unique, require, refuse, ◌>>=◌, ◌>>◌,
}
use autosecrets.Store.Identity.Rows.{
  member_deactivated, is_administrator, is_member_deactivated, OrganizationConfig, Admin, Actor,
  actor_empty, actor_system, AuditEvent, IdentityDb,
}
use autosecrets.Store.Identity.Queries.{
  select_organization, insert_organization_config, select_admin_count, mark_bootstrap_code_used,
  insert_bootstrap_code, insert_admin_active, select_member_by_username, select_member_by_id,
  update_password_row, update_username_row, count_other_active_administrators,
  deactivate_member_row, revoke_member_invitations, insert_audit_event, delete_member_session_rows,
}

-- `if event.Actor == "" { event.Actor = "system" }`
abbrev pub or_system : Actor → Actor
or_system actor_empty = actor_system
or_system a = a

-- `AppendAudit` without a transaction, which stores the event as it is
unfoldable pub record_audit : AuditEvent → Tx IdentityDb (Unit {0})
unfolding insert_audit_event
record_audit event = insert_audit_event event

-- `appendAuditTx`
unfoldable pub append_audit : AuditEvent → Tx IdentityDb (Unit {0})
unfolding insert_audit_event
append_audit event = insert_audit_event (record event { actor = or_system event.actor })

-- `Organization`
unfoldable pub organization : Tx IdentityDb OrganizationConfig
unfolding select_organization
organization = map_err map_no_rows select_organization

-- `ValidateSingleAdministrator`, without the text of its error
unfoldable pub validate_single_administrator : Tx IdentityDb Bool
unfolding select_admin_count
validate_single_administrator = do n ← select_admin_count; pure (not (ltb 1 n))

-- `MemberByUsername`
unfoldable pub member_by_username : ℕ → Tx IdentityDb Admin
unfolding select_member_by_username
member_by_username username = map_err map_no_rows (select_member_by_username username)

-- `MemberByID`
unfoldable pub member_by_id : ℕ → Tx IdentityDb Admin
unfolding select_member_by_id
member_by_id id = map_err map_no_rows (select_member_by_id id)

-- `SaveBootstrapCode`
unfoldable pub save_bootstrap_code : ℕ → ℕ → Tx IdentityDb (Unit {0})
unfolding insert_bootstrap_code
save_bootstrap_code hash until = insert_bootstrap_code hash until

-- `BootstrapAdministrator`. The advisory lock makes two of them run one after the other.
unfoldable pub bootstrap_administrator :
    ℕ → ℕ → ℕ → ℕ → List ℕ → ℕ → AuditEvent → Tx IdentityDb (Unit {0})
unfolding select_admin_count mark_bootstrap_code_used insert_organization_config insert_admin_active
    append_audit
bootstrap_administrator code_hash organization_name member username password_hash now audit = do
  members ← select_admin_count
  refuse (ltb 0 members) conflict
  n ← mark_bootstrap_code_used code_hash now
  require (n == 1) not_found
  insert_organization_config organization_name
  map_err map_unique (insert_admin_active member username password_hash now)
  append_audit audit

-- `ChangePassword`
unfoldable pub change_password : ℕ → List ℕ → AuditEvent → Tx IdentityDb (Unit {0})
unfolding update_password_row delete_member_session_rows append_audit
change_password member password_hash audit = do
  update_password_row member password_hash
  delete_member_session_rows member
  append_audit audit

-- `ChangeUsername`
unfoldable pub change_username : ℕ → ℕ → AuditEvent → Tx IdentityDb (Unit {0})
unfolding update_username_row delete_member_session_rows append_audit
change_username member username audit = do
  map_err map_unique (update_username_row member username)
  delete_member_session_rows member
  append_audit audit

-- The rule that keeps the last active administrator.
unfoldable pub keep_an_administrator : Bool → ℕ → Tx IdentityDb (Unit {0})
unfolding count_other_active_administrators
keep_an_administrator false member = pure tt
keep_an_administrator true member = do
  remaining ← count_other_active_administrators member
  refuse (remaining == 0) conflict

-- `DeactivateMember` at the time `at` of the database server
unfoldable pub deactivate_member : ℕ → ℕ → AuditEvent → Tx IdentityDb (Unit {0})
unfolding select_member_by_id keep_an_administrator deactivate_member_row delete_member_session_rows
    revoke_member_invitations append_audit
deactivate_member at member audit = do
  row ← map_err map_no_rows (select_member_by_id member)
  refuse (is_member_deactivated row.status) conflict
  keep_an_administrator (is_administrator row.role) member
  deactivate_member_row member member_deactivated at
  delete_member_session_rows member
  revoke_member_invitations member at
  append_audit audit
