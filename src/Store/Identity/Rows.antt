-- ===== src/Store/Identity/Rows.antt =====
-- Rows of the identity tables (core/migrations, core/internal/database/gen/models.go), with the columns
-- that the modelled statements read or write. As in Store/Rows.antt, ids, hashes and texts that are only
-- compared are numbers. A password hash is kept as its bytes, since core/internal/crypto reads it.
use autosecrets.Prelude.{ℕ, Bool, true, false, Option, none, List, []}
use autosecrets.Store.Rows.{Blob}

pub data Role : Type 0 where
  role_administrator role_viewer : Role

pub data MemberStatus : Type 0 where
  member_pending member_active member_deactivated : MemberStatus

abbrev pub is_administrator : Role → Bool
is_administrator role_administrator = true
is_administrator role_viewer = false

abbrev pub is_member_active : MemberStatus → Bool
is_member_active member_active = true
is_member_active _ = false

abbrev pub is_member_deactivated : MemberStatus → Bool
is_member_deactivated member_deactivated = true
is_member_deactivated _ = false

pub record OrganizationConfig : Type 0 where
  pub display_name : ℕ
  pub totp_login_required : Bool
  pub password_login_enabled : Bool

pub record Admin : Type 0 where
  pub id : ℕ
  pub username : ℕ
  pub password_hash : List ℕ
  pub role : Role
  pub status : MemberStatus
  pub activated_at : Option ℕ
  pub deactivated_at : Option ℕ
  pub last_totp_counter : Option ℕ

pub record BootstrapCode : Type 0 where
  pub code_hash : ℕ
  pub expires_at : ℕ
  pub used_at : Option ℕ

pub record MfaEnrollment : Type 0 where
  pub token_hash : ℕ
  pub admin_id : ℕ
  pub secret : Blob
  pub confirmation_hash : Option ℕ
  pub expires_at : ℕ
  pub verified_at : Option ℕ
  pub confirmed_at : Option ℕ

pub record RecoveryCode : Type 0 where
  pub admin_id : ℕ
  pub code_hash : ℕ
  pub used_at : Option ℕ

pub record LoginChallenge : Type 0 where
  pub token_hash : ℕ
  pub admin_id : ℕ
  pub source_hash : ℕ
  pub expires_at : ℕ
  pub used_at : Option ℕ

-- The texts that the CHECK constraint on `sessions.auth_method` admits.
pub data AuthMethod : Type 0 where
  local oidc oauth : AuthMethod

pub record Session : Type 0 where
  pub id_hash : ℕ
  pub admin_id : ℕ
  pub csrf_token : ℕ
  pub expires_at : ℕ
  pub last_activity_at : ℕ
  pub idle_expires_at : ℕ
  pub auth_method : AuthMethod

pub record StepUpGrant : Type 0 where
  pub session_id_hash : ℕ
  pub granted_at : ℕ
  pub expires_at : ℕ

-- The one row of `external_identity_binding` or of `oauth_identity_binding`.
pub record ExternalIdentityBinding : Type 0 where
  pub admin_id : ℕ
  pub issuer : ℕ
  pub subject : ℕ
  pub display_name : ℕ

pub data Purpose : Type 0 where
  purpose_login purpose_bind : Purpose

pub record OidcTransaction : Type 0 where
  pub state_hash : ℕ
  pub purpose : Purpose
  pub admin_id : Option ℕ
  pub nonce : ℕ
  pub pkce_verifier : ℕ
  pub return_to : ℕ
  pub expires_at : ℕ
  pub used_at : Option ℕ

pub record MemberInvitation : Type 0 where
  pub admin_id : ℕ
  pub used_at : Option ℕ
  pub revoked_at : Option ℕ

-- The actor of an Audit Event: empty, a fixed name, or a prefix with a name or an id after it.
pub data Actor : Type 0 where
  actor_empty actor_system actor_bootstrap actor_authentication : Actor
  actor_member actor_administrator : ℕ → Actor

pub data AuditAction : Type 0 where
  administrator_bootstrapped administrator_totp_enabled administrator_totp_disabled : AuditAction
  administrator_password_login_enabled administrator_password_login_disabled : AuditAction
  administrator_oidc_bound administrator_oidc_unbound : AuditAction
  administrator_oauth_bound administrator_oauth_unbound : AuditAction
  member_mfa_verified member_password_changed member_username_changed : AuditAction
  auth_login auth_second_factor auth_renew auth_step_up auth_logout : AuditAction

pub data AuditResult : Type 0 where
  result_denied result_ok result_conflict result_active result_password_login_disabled : AuditResult
  result_pending_recovery_confirmation result_totp result_recovery_code : AuditResult
  result_local result_oidc result_oauth : AuditResult

pub record AuditEvent : Type 0 where
  pub actor : Actor
  pub action : AuditAction
  pub resource : ℕ
  pub result : AuditResult

-- A table with the primary key `singleton` has one row or none.
pub record IdentityDb : Type 0 where
  pub organization_config : Option OrganizationConfig
  pub admins : List Admin
  pub bootstrap_codes : List BootstrapCode
  pub mfa_enrollments : List MfaEnrollment
  pub recovery_codes : List RecoveryCode
  pub login_challenges : List LoginChallenge
  pub sessions : List Session
  pub step_up_grants : List StepUpGrant
  pub external_identity_binding : Option ExternalIdentityBinding
  pub oauth_identity_binding : Option ExternalIdentityBinding
  pub oidc_transactions : List OidcTransaction
  pub member_invitations : List MemberInvitation
  pub audit_events : List AuditEvent

abbrev pub no_identity : IdentityDb
no_identity = record {
  organization_config = none;
  admins = [];
  bootstrap_codes = [];
  mfa_enrollments = [];
  recovery_codes = [];
  login_challenges = [];
  sessions = [];
  step_up_grants = [];
  external_identity_binding = none;
  oauth_identity_binding = none;
  oidc_transactions = [];
  member_invitations = [];
  audit_events = [];
}
