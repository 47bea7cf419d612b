-- ===== src/Store/Identity/Bindings.antt =====
-- core/internal/database/identity.go: the Password Login Policy, external identities and OIDC transactions.
use autosecrets.Prelude.{ℕ, Bool, true, false, Option, none, ◌==◌}
use autosecrets.Store.Tx.{Tx, conflict, pure, map_err, map_no_rows, require, ◌>>=◌, ◌>>◌}
use autosecrets.Store.Identity.Rows.{
  ExternalIdentityBinding, Purpose, OidcTransaction, AuditEvent, IdentityDb,
}
use autosecrets.Store.Identity.Queries.{
  update_password_login_enabled, delete_other_member_sessions, delete_member_step_up_grants,
  select_external_binding, select_oauth_binding, insert_external_binding, insert_oauth_binding,
  delete_external_binding, delete_oauth_binding, insert_oidc_transaction,
  mark_oidc_transaction_used,
}
use autosecrets.Store.Identity.Accounts.{append_audit}

-- The branch of `SetPasswordLoginEnabled` that closes password login.
unfoldable pub revoke_unless : Bool → ℕ → ℕ → Tx IdentityDb (Unit {0})
unfolding delete_member_step_up_grants delete_other_member_sessions
revoke_unless true member current = pure tt
revoke_unless false member current = do
  delete_member_step_up_grants member
  delete_other_member_sessions member current

-- `SetPasswordLoginEnabled`
unfoldable pub set_password_login_enabled : ℕ → ℕ → Bool → AuditEvent → Tx IdentityDb (Unit {0})
unfolding update_password_login_enabled revoke_unless append_audit
set_password_login_enabled member current enabled audit = do
  update_password_login_enabled enabled
  revoke_unless enabled member current
  append_audit audit

-- `ExternalIdentityBinding` and `OAuthIdentityBinding`
unfoldable pub external_identity_binding : Tx IdentityDb ExternalIdentityBinding
unfolding select_external_binding
external_identity_binding = map_err map_no_rows select_external_binding

unfoldable pub oauth_identity_binding : Tx IdentityDb ExternalIdentityBinding
unfolding select_oauth_binding
oauth_identity_binding = map_err map_no_rows select_oauth_binding

-- The ends of the four methods that follow.
unfoldable pub revoke_and_audit : ℕ → ℕ → AuditEvent → Tx IdentityDb (Unit {0})
unfolding delete_other_member_sessions delete_member_step_up_grants append_audit
revoke_and_audit member current audit = do
  delete_other_member_sessions member current
  delete_member_step_up_grants member
  append_audit audit

-- `BindExternalIdentity`
unfoldable pub bind_external_identity :
    ExternalIdentityBinding → ℕ → AuditEvent → Tx IdentityDb (Unit {0})
unfolding insert_external_binding revoke_and_audit
bind_external_identity binding current audit = do
  rows ← insert_external_binding binding
  require (rows == 1) conflict
  revoke_and_audit binding.admin_id current audit

-- `UnbindExternalIdentity`
unfoldable pub unbind_external_identity : ℕ → ℕ → AuditEvent → Tx IdentityDb (Unit {0})
unfolding delete_external_binding revoke_and_audit
unbind_external_identity member current audit = do
  delete_external_binding member
  revoke_and_audit member current audit

-- `BindOAuthIdentity`
unfoldable pub bind_oauth_identity :
    ExternalIdentityBinding → ℕ → AuditEvent → Tx IdentityDb (Unit {0})
unfolding insert_oauth_binding revoke_and_audit
bind_oauth_identity binding current audit = do
  rows ← insert_oauth_binding binding
  require (rows == 1) conflict
  revoke_and_audit binding.admin_id current audit

-- `UnbindOAuthIdentity`
unfoldable pub unbind_oauth_identity : ℕ → ℕ → AuditEvent → Tx IdentityDb (Unit {0})
unfolding delete_oauth_binding revoke_and_audit
unbind_oauth_identity member current audit = do
  delete_oauth_binding member
  revoke_and_audit member current audit

-- `CreateOIDCTransaction`
unfoldable pub create_oidc_transaction :
    ℕ → Purpose → Option ℕ → ℕ → ℕ → ℕ → ℕ → Tx IdentityDb (Unit {0})
unfolding insert_oidc_transaction
create_oidc_transaction state_hash purpose member nonce verifier return_to until =
    insert_oidc_transaction (record {
      state_hash = state_hash;
      purpose = purpose;
      admin_id = member;
      nonce = nonce;
      pkce_verifier = verifier;
      return_to = return_to;
      expires_at = until;
      used_at = none;
    })

-- `ConsumeOIDCTransaction`
unfoldable pub consume_oidc_transaction : ℕ → ℕ → Tx IdentityDb OidcTransaction
unfolding mark_oidc_transaction_used
consume_oidc_transaction state_hash now =
    map_err map_no_rows (mark_oidc_transaction_used state_hash now)
