-- ===== src/Identity/Service/Account.antt =====
-- service.go: `ChangePassword`, `ChangeUsername` and `SetPasswordLoginEnabled`.
use autosecrets.Prelude.{ℕ, Bool, true, false, not, List, [], ◌==◌}
use autosecrets.Store.Identity.Rows.{
  Admin, local, actor_member, actor_administrator, AuditAction,
  administrator_password_login_enabled, administrator_password_login_disabled,
  member_password_changed, member_username_changed, result_ok,
}
use autosecrets.Store.Identity.{
  organization, member_by_id, change_password, change_username, set_password_login_enabled,
}
use autosecrets.Crypto.Passwords.{password_valid, hash_password}
use autosecrets.Identity.Service.Flow.{
  invalid_credentials, external_login_required, Flow, Service, IssuedSession, give, call, unless,
  event, audit_event, deny, either_way, ◌>>=◌, ◌>>◌,
}
use autosecrets.Identity.Service.Checks.{
  is_username, external_login_available, issue_session, proof_given, member_or_deny, proof_or_deny,
}

-- `ChangePassword` with the random bytes of the new hash and the tokens of the new session
unfoldable pub change_member_password :
    Service → ℕ → List ℕ → ℕ → ℕ → ℕ → List ℕ → List ℕ → List ℕ → Flow IssuedSession
unfolding password_valid member_by_id proof_given audit_event hash_password change_password
    issue_session
change_member_password sv at salt session csrf id current_password new_password totp_code = do
  unless (password_valid sv.primitives new_password)
      (deny (actor_administrator id) member_password_changed id invalid_credentials)
  member ← member_or_deny (actor_administrator id) member_password_changed id id
  proof_or_deny sv member current_password totp_code [] false (actor_member member.username)
      member_password_changed
  call (
      change_password member.id (hash_password sv.primitives new_password salt)
        (event (actor_member member.username) member_password_changed member.id result_ok))
  issue_session sv at session csrf member local

-- `ChangeUsername`
unfoldable pub change_member_username :
    Service → ℕ → ℕ → ℕ → ℕ → List ℕ → List ℕ → List ℕ → Flow IssuedSession
unfolding member_by_id proof_given audit_event change_username issue_session
change_member_username sv at session csrf id username current_password totp_code = do
  unless (is_username username)
      (deny (actor_administrator id) member_username_changed id invalid_credentials)
  member ← member_or_deny (actor_administrator id) member_username_changed id id
  unless (not (sv.primitives.text_number username == member.username))
      (deny (actor_member member.username) member_username_changed member.id invalid_credentials)
  proof_or_deny sv member current_password totp_code [] false (actor_member member.username)
      member_username_changed
  call (
      change_username member.id (sv.primitives.text_number username)
        (event (actor_member member.username) member_username_changed member.id result_ok))
  issue_session sv at session csrf (record member { username = sv.primitives.text_number username })
      local

abbrev pub password_login_action : Bool → AuditAction
password_login_action true = administrator_password_login_enabled
password_login_action false = administrator_password_login_disabled

abbrev pub is_same : Bool → Bool → Bool
is_same true b = b
is_same false b = not b

-- The check that something else is left to log in with, when password login is switched off.
unfoldable pub require_external_login : Service → Admin → Bool → Flow (Unit {0})
unfolding external_login_available audit_event
require_external_login sv member enabled = either_way enabled (give tt) (do
  usable ← external_login_available sv
  unless usable (
      deny (actor_administrator member.username) (password_login_action enabled) member.id
        external_login_required))

-- `SetPasswordLoginEnabled`
unfoldable pub switch_password_login : Service → ℕ → ℕ → List ℕ → List ℕ → Bool → Flow (Unit {0})
unfolding member_by_id proof_given audit_event organization require_external_login
    set_password_login_enabled
switch_password_login sv id current password totp_code enabled = do
  member ← member_or_deny (actor_administrator id) (password_login_action enabled) id id
  proof_or_deny sv member password totp_code [] false (actor_administrator member.username)
      (password_login_action enabled)
  org ← call organization
  either_way (is_same org.password_login_enabled enabled) (give tt) (do
    require_external_login sv member enabled
    call (
        set_password_login_enabled id current enabled (
          event (actor_administrator member.username) (password_login_action enabled) member.id
            result_ok)))
