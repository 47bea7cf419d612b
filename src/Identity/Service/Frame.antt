-- ===== src/Identity/Service/Frame.antt =====
-- identity.go: what most of its methods leave alone, which is the Organization, the bindings to external
-- identities and the ids of the members.
use autosecrets.Prelude.{
  ℕ, ◌≡◌, refl, arith, subst, sym, Bool, Option, List, [], ◌∷◌, map, update_if,
}
use autosecrets.Store.Rows.{Blob}
use autosecrets.Store.Identity.Rows.{
  OrganizationConfig, Admin, ExternalIdentityBinding, IdentityDb, AuditEvent, AuthMethod, Purpose,
}
use autosecrets.Store.Identity.{
  record_audit, organization, member_by_username, member_by_id, delete_session,
  upsert_step_up_grant, change_password, change_username, create_bounded_session,
  mfa_enrollment_by_token, complete_mfa_enrollment, insert_recovery_codes,
  create_enrollment_for_member, totp_enrollment_for_member, external_identity_binding,
  oauth_identity_binding, create_oidc_transaction, consume_oidc_transaction,
}
use autosecrets.Store.Identity.Queries.{insert_recovery_code}
use autosecrets.Store.Factors.{use_totp, consume_recovery_code, consume_login_challenge}
use autosecrets.Identity.Service.Keeps.{TxKeeps, tx_rules, tx_bind}

pub record Core : Type 0 where
  pub organization_config : Option OrganizationConfig
  pub external : Option ExternalIdentityBinding
  pub oauth_bound : Option ExternalIdentityBinding
  pub ids : List ℕ

abbrev pub core_of : IdentityDb → Core
core_of s = record {
  organization_config = s.organization_config;
  external = s.external_identity_binding;
  oauth_bound = s.oauth_identity_binding;
  ids = map (λ a. a.id) s.admins;
}

ids-update_if :
    (p : Admin → Bool) (f : Admin → Admin) (rows : List Admin)
    → ((a : Admin) → (f a).id ≡ a.id)
    → map (λ a. a.id) (update_if p f rows) ≡ map (λ a. a.id) rows
ids-update_if p f [] same = refl
ids-update_if p f (a ∷ rows) same = ground (arith, same a, ids-update_if p f rows same)

module _ (Q : Core → Type 0) where
  abbrev pub Within : IdentityDb → Type 0
  Within s = Q (core_of s)

  -- An update of members that keeps their ids.
  admins_updated :
      (p : Admin → Bool) (f : Admin → Admin) (s : IdentityDb)
      → ((a : Admin) → (f a).id ≡ a.id)
      → Within s
      → Within (record s { admins = update_if p f s.admins })
  admins_updated p f s same h =
      subst (λ ids. Q (record (core_of s) { ids = ids })) (sym (ids-update_if p f s.admins same)) h

  pub record_audit-Keeps : (e : AuditEvent) → TxKeeps Within (record_audit e)
  unfolding record_audit
  record_audit-Keeps e = search tx_rules depth 12

  pub organization-Keeps : TxKeeps Within (organization)
  unfolding organization
  organization-Keeps = search tx_rules depth 12

  pub member_by_username-Keeps : (n : ℕ) → TxKeeps Within (member_by_username n)
  unfolding member_by_username
  member_by_username-Keeps n = search tx_rules depth 12

  pub member_by_id-Keeps : (n : ℕ) → TxKeeps Within (member_by_id n)
  unfolding member_by_id
  member_by_id-Keeps n = search tx_rules depth 12

  pub delete_session-Keeps : (n : ℕ) → TxKeeps Within (delete_session n)
  unfolding delete_session
  delete_session-Keeps n = search tx_rules depth 12

  pub upsert_step_up_grant-Keeps : (a b c : ℕ) → TxKeeps Within (upsert_step_up_grant a b c)
  unfolding upsert_step_up_grant
  upsert_step_up_grant-Keeps a b c = search tx_rules depth 12

  pub create_bounded_session-Keeps :
      (a b c d e f : ℕ) (m : AuthMethod) → TxKeeps Within (create_bounded_session a b c d e f m)
  unfolding create_bounded_session
  create_bounded_session-Keeps a b c d e f m = search tx_rules depth 12

  pub mfa_enrollment_by_token-Keeps : (a b : ℕ) → TxKeeps Within (mfa_enrollment_by_token a b)
  unfolding mfa_enrollment_by_token
  mfa_enrollment_by_token-Keeps a b = search tx_rules depth 12

  pub create_enrollment_for_member-Keeps :
      (a b : ℕ) (blob : Blob) (c : ℕ) → TxKeeps Within (create_enrollment_for_member a b blob c)
  unfolding create_enrollment_for_member
  create_enrollment_for_member-Keeps a b blob c = search tx_rules depth 12

  pub totp_enrollment_for_member-Keeps : (n : ℕ) → TxKeeps Within (totp_enrollment_for_member n)
  unfolding totp_enrollment_for_member
  totp_enrollment_for_member-Keeps n = search tx_rules depth 12

  pub external_identity_binding-Keeps : TxKeeps Within (external_identity_binding)
  unfolding external_identity_binding
  external_identity_binding-Keeps = search tx_rules depth 12

  pub oauth_identity_binding-Keeps : TxKeeps Within (oauth_identity_binding)
  unfolding oauth_identity_binding
  oauth_identity_binding-Keeps = search tx_rules depth 12

  pub create_oidc_transaction-Keeps :
      (a : ℕ) (q : Purpose) (o : Option ℕ) (b c d e : ℕ)
      → TxKeeps Within (create_oidc_transaction a q o b c d e)
  unfolding create_oidc_transaction
  create_oidc_transaction-Keeps a q o b c d e = search tx_rules depth 12

  pub consume_oidc_transaction-Keeps : (a b : ℕ) → TxKeeps Within (consume_oidc_transaction a b)
  unfolding consume_oidc_transaction
  consume_oidc_transaction-Keeps a b = search tx_rules depth 12

  pub consume_recovery_code-Keeps : (a b c : ℕ) → TxKeeps Within (consume_recovery_code a b c)
  unfolding consume_recovery_code
  consume_recovery_code-Keeps a b c = search tx_rules depth 12

  pub consume_login_challenge-Keeps : (a b c : ℕ) → TxKeeps Within (consume_login_challenge a b c)
  unfolding consume_login_challenge
  consume_login_challenge-Keeps a b c = search tx_rules depth 12

  insert_recovery_codes-Keeps :
      (member : ℕ) (hashes : List ℕ) → TxKeeps Within (insert_recovery_codes member hashes)
  unfolding insert_recovery_codes
  insert_recovery_codes-Keeps member [] = search tx_rules depth 12
  insert_recovery_codes-Keeps member (hash ∷ hashes) =
      tx_bind {m = insert_recovery_code member hash} {f = λ _. insert_recovery_codes member hashes}
        (search tx_rules depth 12) (λ _. insert_recovery_codes-Keeps member hashes)

  pub complete_mfa_enrollment-Keeps :
      (a b : ℕ) (hashes : List ℕ) (now : ℕ) (e : AuditEvent)
      → TxKeeps Within (complete_mfa_enrollment a b hashes now e)
  unfolding complete_mfa_enrollment
  complete_mfa_enrollment-Keeps a b hashes now e =
      search (tx_rules, insert_recovery_codes-Keeps) depth 12

  pub change_password-Keeps :
      (a : ℕ) (hash : List ℕ) (e : AuditEvent) → TxKeeps Within (change_password a hash e)
  unfolding change_password
  change_password-Keeps a hash e = search (tx_rules, admins_updated) depth 12

  pub change_username-Keeps : (a b : ℕ) (e : AuditEvent) → TxKeeps Within (change_username a b e)
  unfolding change_username
  change_username-Keeps a b e = search (tx_rules, admins_updated) depth 12

  pub use_totp-Keeps : (a b : ℕ) → TxKeeps Within (use_totp a b)
  unfolding use_totp
  use_totp-Keeps a b = search (tx_rules, admins_updated) depth 12
