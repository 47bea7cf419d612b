-- ===== src/Identity/Service/Logins.antt =====
-- service.go: `Bootstrap`, `Login`, `CompleteLogin`, `RenewSession`, `StepUp` and `Logout`.
use autosecrets.Prelude.{
  ℕ, ◌+◌, Bool, true, false, ◌&&◌, none, List, [], ◌==◌, if◌then◌else◌, is_empty, trim,
}
use autosecrets.Store.Tx.{Result, ok, err}
use autosecrets.Store.Identity.Rows.{
  role_administrator, member_active, is_member_active, OrganizationConfig, Admin, local, Actor,
  actor_bootstrap, actor_authentication, actor_member, actor_administrator, AuditAction,
  administrator_bootstrapped, auth_login, auth_second_factor, auth_renew, auth_step_up, auth_logout,
  result_denied, result_ok, result_active, result_password_login_disabled, result_totp,
  result_recovery_code, result_local, AuditResult,
}
use autosecrets.Store.Identity.{
  organization, member_by_id, member_by_username, bootstrap_administrator, delete_session,
  upsert_step_up_grant,
}
use autosecrets.Store.Factors.{create_login_challenge, consume_login_challenge}
use autosecrets.Crypto.Passwords.{password_valid, hash_password}
use autosecrets.Identity.Service.Flow.{
  invalid_credentials, challenge_expired, password_login_disabled, Flow, Service, IssuedSession,
  login_challenge_ttl, step_up_ttl, give, stop, attempt, or_store_error, call, unless, on_error,
  event, audit_event, deny, either_way, ◌>>=◌, ◌>>◌,
}
use autosecrets.Identity.Service.Checks.{
  is_username, valid_organization_name, password_login_available, issue_session,
  verify_second_factor, password_ok, proof_given, member_or_deny, active_or, proof_or_deny,
}

-- The member that Bootstrap has created, as far as a session needs it.
abbrev pub bootstrap_member : ℕ → ℕ → Admin
bootstrap_member id username = record {
  id = id;
  username = username;
  password_hash = [];
  role = role_administrator;
  status = member_active;
  activated_at = none;
  deactivated_at = none;
  last_totp_counter = none;
}

-- `Bootstrap` with the new member `id`, the random bytes of the password hash and the tokens of the session
unfoldable pub bootstrap :
    Service → ℕ → ℕ → List ℕ → ℕ → ℕ → ℕ → List ℕ → List ℕ → List ℕ → Flow IssuedSession
unfolding bootstrap_administrator audit_event hash_password issue_session password_valid
bootstrap sv at id salt session csrf code organization_name username password = do
  unless
      (valid_organization_name organization_name
        && (is_username username && password_valid sv.primitives password))
      (deny actor_bootstrap administrator_bootstrapped 0 invalid_credentials)
  on_error
      (call (
        bootstrap_administrator (sv.primitives.sha256_hex code)
          (sv.primitives.text_number (trim organization_name)) id
          (sv.primitives.text_number username) (hash_password sv.primitives password salt) sv.now
          (event actor_bootstrap administrator_bootstrapped id result_active)))
      (audit_event actor_bootstrap administrator_bootstrapped 0 result_denied)
  issue_session sv at session csrf (bootstrap_member id (sv.primitives.text_number username)) local

-- `LoginOutput`: a session, or the challenge for a second factor.
pub data LoginOutput : Type 0 where
  signed_in : IssuedSession → LoginOutput
  challenged : ℕ → LoginOutput

-- The check of password login that `Login` and `CompleteLogin` start with.
unfoldable pub password_login_or_deny : Service → AuditAction → Flow OrganizationConfig
unfolding organization password_login_available audit_event
password_login_or_deny sv action = do
  org ← call organization
  allowed ← password_login_available sv org
  unless allowed (do
    audit_event actor_authentication action 0 result_password_login_disabled
    stop password_login_disabled)
  give org

-- `CreateLoginChallenge` and the error that stops `Login`
abbrev pub challenge_member : Service → ℕ → Admin → ℕ → Flow (Unit {0})
challenge_member sv challenge member source s =
    let (answer, s') =
      create_login_challenge sv.now (sv.primitives.sha256_hex challenge) member.id source
        (sv.now + login_challenge_ttl) s in
    or_store_error answer s'

-- The session of `Login` for a member whose password was accepted, or the challenge.
unfoldable pub login_member : Service → ℕ → ℕ → ℕ → ℕ → ℕ → Bool → Admin → Flow LoginOutput
unfolding issue_session audit_event create_login_challenge
login_member sv at session csrf challenge source second_factor member =
    either_way second_factor
      (do challenge_member sv challenge member source; give (challenged challenge))
      (do
        issued ← issue_session sv at session csrf member local
        audit_event (actor_member member.username) auth_login member.id result_local
        give (signed_in issued))

-- `Login` after the check that password login is allowed.
unfoldable pub login_with :
    Service → ℕ → ℕ → ℕ → ℕ → List ℕ → List ℕ → ℕ → OrganizationConfig → Flow LoginOutput
unfolding member_by_username audit_event login_member
login_with sv at session csrf challenge username password source org = do
  found ← attempt (member_by_username (sv.primitives.text_number username))
  member ← active_or (deny actor_authentication auth_login 0 invalid_credentials) found
  unless (password_ok sv password member)
      (deny (actor_member member.username) auth_login member.id invalid_credentials)
  login_member sv at session csrf challenge source org.totp_login_required member

-- `Login`
unfoldable pub login : Service → ℕ → ℕ → ℕ → ℕ → List ℕ → List ℕ → ℕ → Flow LoginOutput
unfolding password_login_or_deny login_with
login sv at session csrf challenge username password source =
    password_login_or_deny sv auth_login
    >>= login_with sv at session csrf challenge username password source

-- The two Audit Events of a second factor that was refused.
abbrev pub deny_second_factor : {A : Type 0} → Actor → ℕ → Flow A
deny_second_factor actor resource = do
  audit_event actor auth_second_factor resource result_denied
  deny actor auth_login resource invalid_credentials

abbrev pub second_factor_used : List ℕ → AuditResult
second_factor_used recovery = if is_empty recovery then result_totp else result_recovery_code

-- `err != nil || member.Status != … || !s.verifySecondFactor(…)`, negated: the factor is looked at, and
-- used up, only for an active member.
abbrev pub second_factor_of : Service → List ℕ → List ℕ → Result Admin → Flow Admin
second_factor_of sv totp_code recovery (err _) = deny_second_factor actor_authentication 0
second_factor_of sv totp_code recovery (ok member) = do
  valid ←
      either_way (is_member_active member.status)
        (verify_second_factor sv member totp_code recovery) (give false)
  either_way valid (give member) (deny_second_factor (actor_member member.username) member.id)

abbrev pub answered_or : Flow ℕ → Result ℕ → Flow ℕ
answered_or otherwise (err _) = otherwise
answered_or otherwise (ok member) = give member

-- `CompleteLogin` after the check that password login is allowed.
unfoldable pub complete_with : Service → ℕ → ℕ → ℕ → ℕ → ℕ → List ℕ → List ℕ → Flow IssuedSession
unfolding consume_login_challenge member_by_id verify_second_factor audit_event issue_session
complete_with sv at session csrf challenge source totp_code recovery = do
  answer ← attempt (consume_login_challenge (sv.primitives.sha256_hex challenge) source sv.now)
  id ← answered_or (deny actor_authentication auth_second_factor 0 challenge_expired) answer
  found ← attempt (member_by_id id)
  member ← second_factor_of sv totp_code recovery found
  issued ← issue_session sv at session csrf member local
  audit_event (actor_member member.username) auth_second_factor member.id
      (second_factor_used recovery)
  audit_event (actor_member member.username) auth_login member.id result_local
  give issued

-- `CompleteLogin`
unfoldable pub complete_login : Service → ℕ → ℕ → ℕ → ℕ → ℕ → List ℕ → List ℕ → Flow IssuedSession
unfolding password_login_or_deny complete_with
complete_login sv at session csrf challenge source totp_code recovery =
    password_login_or_deny sv auth_second_factor >>= λ _.
    complete_with sv at session csrf challenge source totp_code recovery

-- `RenewSession`. The error of the deletion is ignored.
unfoldable pub renew_session :
    Service → ℕ → ℕ → ℕ → ℕ → ℕ → List ℕ → List ℕ → List ℕ → Flow IssuedSession
unfolding delete_session issue_session audit_event member_by_id proof_given
renew_session sv at session csrf old_session id password totp_code recovery = do
  member ← member_or_deny (actor_administrator id) auth_renew id id
  proof_or_deny sv member password totp_code recovery true (actor_member member.username) auth_renew
  attempt (delete_session old_session)
  issued ← issue_session sv at session csrf member local
  audit_event (actor_member member.username) auth_renew member.id result_local
  give issued

-- `StepUp`
unfoldable pub step_up : Service → ℕ → ℕ → List ℕ → List ℕ → List ℕ → Flow ℕ
unfolding upsert_step_up_grant audit_event member_by_id proof_given
step_up sv session id password totp_code recovery = do
  member ← member_or_deny actor_authentication auth_step_up 0 id
  proof_or_deny sv member password totp_code recovery true (actor_member member.username)
      auth_step_up
  call (upsert_step_up_grant session sv.now (sv.now + step_up_ttl))
  audit_event (actor_member member.username) auth_step_up member.id result_ok
  give (sv.now + step_up_ttl)

-- `Logout`; 0 stands for no session, and the error of the deletion is ignored.
unfoldable pub logout : ℕ → ℕ → ℕ → Flow (Unit {0})
unfolding delete_session audit_event
logout session id username = either_way (session == 0) (give tt) (do
  attempt (delete_session session)
  audit_event (actor_member username) auth_logout id result_ok)
