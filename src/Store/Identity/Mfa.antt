-- ===== src/Store/Identity/Mfa.antt =====
-- core/internal/database/identity.go: second-factor enrollments and recovery codes.
use autosecrets.Prelude.{ℕ, Bool, List, [], ◌∷◌, ◌==◌}
use autosecrets.Store.Tx.{Tx, conflict, pure, map_err, map_no_rows, require, refuse, ◌>>=◌, ◌>>◌}
use autosecrets.Store.Rows.{Blob}
use autosecrets.Store.Identity.Rows.{Admin, MfaEnrollment, AuditEvent, IdentityDb}
use autosecrets.Store.Identity.Queries.{
  enable_totp_login_policy, disable_totp_login_policy, select_any_confirmed_mfa,
  select_confirmed_mfa, select_mfa_enrollment_by_token, select_totp_enrollment_for_member,
  select_mfa_enrollment_for_verify, mark_mfa_verified, select_mfa_enrollment_for_confirm,
  mark_mfa_confirmed, update_mfa_token, delete_mfa_enrollments_for_member, insert_mfa_enrollment,
  delete_recovery_codes_for_member, insert_recovery_code, delete_other_member_sessions,
  delete_member_step_up_grants,
}
use autosecrets.Store.Identity.Accounts.{append_audit, member_by_id}

-- `MFAEnrollmentByToken`
unfoldable pub mfa_enrollment_by_token : ℕ → ℕ → Tx IdentityDb MfaEnrollment
unfolding select_mfa_enrollment_by_token
mfa_enrollment_by_token hash now = map_err map_no_rows (select_mfa_enrollment_by_token hash now)

-- The loop over the hashes of the recovery codes.
unfoldable pub insert_recovery_codes : ℕ → List ℕ → Tx IdentityDb (Unit {0})
unfolding insert_recovery_code
insert_recovery_codes member [] = pure tt
insert_recovery_codes member (hash ∷ hashes) = do
  insert_recovery_code member hash
  insert_recovery_codes member hashes

-- `CompleteMFAEnrollment`
unfoldable pub complete_mfa_enrollment : ℕ → ℕ → List ℕ → ℕ → AuditEvent → Tx IdentityDb (Unit {0})
unfolding select_mfa_enrollment_for_verify mark_mfa_verified append_audit
complete_mfa_enrollment token_hash confirmation_hash hashes now audit = do
  member ← map_err map_no_rows (select_mfa_enrollment_for_verify token_hash now)
  mark_mfa_verified token_hash now confirmation_hash
  insert_recovery_codes member hashes
  append_audit audit

-- `ConfirmMFAEnrollment`
unfoldable pub confirm_mfa_enrollment : ℕ → ℕ → ℕ → AuditEvent → Tx IdentityDb Admin
unfolding select_mfa_enrollment_for_confirm mark_mfa_confirmed enable_totp_login_policy
    delete_member_step_up_grants delete_other_member_sessions append_audit member_by_id
confirm_mfa_enrollment confirmation_hash current now audit = do
  member ← map_err map_no_rows (select_mfa_enrollment_for_confirm confirmation_hash now)
  mark_mfa_confirmed confirmation_hash now
  enable_totp_login_policy
  delete_member_step_up_grants member
  delete_other_member_sessions member current
  append_audit audit
  member_by_id member

-- `ResumeMFAEnrollment`
unfoldable pub resume_mfa_enrollment : ℕ → ℕ → ℕ → ℕ → Tx IdentityDb (Unit {0})
unfolding update_mfa_token
resume_mfa_enrollment member old new until = do
  n ← update_mfa_token member old new until
  require (n == 1) conflict

-- `CreateEnrollmentForMember`
unfoldable pub create_enrollment_for_member : ℕ → ℕ → Blob → ℕ → Tx IdentityDb (Unit {0})
unfolding select_any_confirmed_mfa delete_mfa_enrollments_for_member insert_mfa_enrollment
create_enrollment_for_member member token_hash secret until = do
  confirmed ← select_any_confirmed_mfa member
  refuse confirmed conflict
  delete_mfa_enrollments_for_member member
  insert_mfa_enrollment token_hash member secret until

-- `HasConfirmedMFA`
unfoldable pub has_confirmed_mfa : ℕ → Tx IdentityDb Bool
unfolding select_confirmed_mfa
has_confirmed_mfa member = select_confirmed_mfa member

-- `ReplaceRecoveryCodes`
unfoldable pub replace_recovery_codes : ℕ → List ℕ → AuditEvent → Tx IdentityDb (Unit {0})
unfolding delete_recovery_codes_for_member insert_recovery_codes append_audit
replace_recovery_codes member hashes audit = do
  delete_recovery_codes_for_member member
  insert_recovery_codes member hashes
  append_audit audit

-- `TOTPEnrollmentForMember`
unfoldable pub totp_enrollment_for_member : ℕ → Tx IdentityDb MfaEnrollment
unfolding select_totp_enrollment_for_member
totp_enrollment_for_member member = map_err map_no_rows (select_totp_enrollment_for_member member)

-- `DisableTOTP`
unfoldable pub disable_totp : ℕ → ℕ → AuditEvent → Tx IdentityDb (Unit {0})
unfolding disable_totp_login_policy delete_mfa_enrollments_for_member
    delete_recovery_codes_for_member delete_member_step_up_grants delete_other_member_sessions
    append_audit
disable_totp member current audit = do
  disable_totp_login_policy
  delete_mfa_enrollments_for_member member
  delete_recovery_codes_for_member member
  delete_member_step_up_grants member
  delete_other_member_sessions member current
  append_audit audit
