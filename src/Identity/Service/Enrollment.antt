-- ===== src/Identity/Service/Enrollment.antt =====
-- service.go: `StartTOTPEnrollment`, `VerifyMFAEnrollment`, `ConfirmMFAEnrollment` and `DisableTOTP`.
use autosecrets.Prelude.{ℕ, ◌+◌, Bool, false, not, Option, none, some, List, [], map}
use autosecrets.Store.Tx.{Result, ok, err}
use autosecrets.Store.Rows.{Blob}
use autosecrets.Store.Identity.Rows.{
  Admin, MfaEnrollment, actor_authentication, actor_member, actor_administrator,
  administrator_totp_enabled, administrator_totp_disabled, member_mfa_verified, result_ok,
  result_pending_recovery_confirmation,
}
use autosecrets.Store.Identity.{
  organization, member_by_id, mfa_enrollment_by_token, complete_mfa_enrollment,
  confirm_mfa_enrollment, create_enrollment_for_member, disable_totp,
}
use autosecrets.Crypto.MasterKey.{seal, open_sealed}
use autosecrets.Crypto.Totp.{verify_totp}
use autosecrets.Crypto.RecoveryCodes.{recovery_code, normalize_recovery_code}
use autosecrets.Identity.Service.Flow.{
  invalid_credentials, already_enrolled, enrollment_not_pending, seal_failed, store_error, Flow,
  Service, mfa_enrollment_ttl, give, stop, attempt, call, unless, event, audit_event, deny,
  either_way, ◌>>=◌, ◌>>◌,
}
use autosecrets.Identity.Service.Checks.{
  verify_second_factor, password_ok, member_or_deny, active_or,
}

abbrev pub sealed_or_stop : Option Blob → Flow Blob
sealed_or_stop none = stop seal_failed
sealed_or_stop (some blob) = give blob

-- The random bytes of one call of `Seal`.
pub record SealRandom : Type 0 where
  pub data_key : List ℕ
  pub wrap_nonce : List ℕ
  pub data_nonce : List ℕ

-- `StartTOTPEnrollment` with a new secret and its token. The URI that it answers with shows the secret.
unfoldable pub start_totp_enrollment :
    Service → List ℕ → SealRandom → ℕ → ℕ → List ℕ → Flow (ℕ × ℕ × List ℕ)
unfolding member_by_id audit_event organization seal create_enrollment_for_member
start_totp_enrollment sv totp_secret random token id password = do
  found ← attempt (member_by_id id)
  member ←
      active_or (deny (actor_administrator id) administrator_totp_enabled id invalid_credentials)
        found
  unless (password_ok sv password member) (
      deny (actor_administrator member.username) administrator_totp_enabled member.id
        invalid_credentials)
  org ← call organization
  unless (not org.totp_login_required) (stop already_enrolled)
  blob ← sealed_or_stop (
      seal sv.primitives sv.master_key random.data_key random.wrap_nonce random.data_nonce
        totp_secret)
  call (
      create_enrollment_for_member member.id (sv.primitives.sha256_hex token) blob
        (sv.now + mfa_enrollment_ttl))
  give (member.username, token, totp_secret)

-- Whether the sealed secret of an enrollment opens and has the code.
abbrev pub secret_accepts : Service → List ℕ → Option (List ℕ) → Bool
secret_accepts sv totp_code none = false
secret_accepts sv totp_code (some secret) = verify_totp sv.primitives secret totp_code sv.now

-- The Audit Event of a token that is not found, and the error of the store.
abbrev pub enrollment_or_deny : Result MfaEnrollment → Flow MfaEnrollment
enrollment_or_deny (ok e) = give e
enrollment_or_deny (err e) = deny actor_authentication administrator_totp_enabled 0 (store_error e)

abbrev pub done_or : {A : Type 0} → Flow A → Result A → Flow A
done_or otherwise (ok a) = give a
done_or otherwise (err _) = otherwise

-- `crypto.HashToken(crypto.NormalizeRecoveryCode(code))`
abbrev pub recovery_hash : Service → List ℕ → ℕ
recovery_hash sv code =
    sv.primitives.sha256_hex
      (sv.primitives.text_number (normalize_recovery_code sv.primitives code))

-- `VerifyMFAEnrollment` with the random bytes of the recovery codes and the confirmation token
unfoldable pub verify_mfa_enrollment :
    Service → List (List ℕ) → ℕ → ℕ → List ℕ → Flow (ℕ × List (List ℕ))
unfolding mfa_enrollment_by_token audit_event open_sealed complete_mfa_enrollment recovery_code
    verify_totp normalize_recovery_code
verify_mfa_enrollment sv random confirmation token totp_code = do
  found ← attempt (mfa_enrollment_by_token (sv.primitives.sha256_hex token) sv.now)
  e ← enrollment_or_deny found
  unless (secret_accepts sv totp_code (open_sealed sv.primitives sv.master_key e.secret)) (
      deny (actor_administrator e.admin_id) administrator_totp_enabled e.admin_id
        invalid_credentials)
  completed ← attempt (
      complete_mfa_enrollment (sv.primitives.sha256_hex token)
        (sv.primitives.sha256_hex confirmation) (map (recovery_hash sv) (map recovery_code random))
        sv.now
        (event (actor_member e.admin_id) member_mfa_verified e.admin_id
          result_pending_recovery_confirmation))
  done_or (stop enrollment_not_pending) completed
  give (confirmation, map recovery_code random)

-- `ConfirmMFAEnrollment`
unfoldable pub confirm_enrollment : Service → ℕ → ℕ → ℕ → Flow Admin
unfolding confirm_mfa_enrollment audit_event
confirm_enrollment sv id current confirmation = do
  confirmed ← attempt (
      confirm_mfa_enrollment (sv.primitives.sha256_hex confirmation) current sv.now
        (event (actor_administrator id) administrator_totp_enabled id result_ok))
  done_or (deny (actor_administrator id) administrator_totp_enabled id enrollment_not_pending)
      confirmed

-- `password && s.verifySecondFactor(…, "")`: the code is used up only after the password.
abbrev pub totp_given : Service → Admin → List ℕ → List ℕ → Flow Bool
totp_given sv member password totp_code =
    either_way (password_ok sv password member) (verify_second_factor sv member totp_code [])
      (give false)

-- `DisableTOTP`
unfoldable pub disable_second_factor : Service → ℕ → ℕ → List ℕ → List ℕ → Flow (Unit {0})
unfolding disable_totp audit_event member_by_id verify_second_factor
disable_second_factor sv id current password totp_code = do
  member ← member_or_deny (actor_administrator id) administrator_totp_disabled id id
  valid ← totp_given sv member password totp_code
  unless valid (
      deny (actor_administrator member.username) administrator_totp_disabled member.id
        invalid_credentials)
  call (
      disable_totp id current
        (event (actor_administrator member.username) administrator_totp_disabled id result_ok))
