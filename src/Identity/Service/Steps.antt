-- ===== src/Identity/Service/Steps.antt =====
-- service.go: the checks of the use cases leave the Organization, the bindings to external identities and
-- the ids of the members alone.
use autosecrets.Prelude.{ℕ, Bool, true, false, ◌&&◌, Option, none, some, List, ◌==◌}
use autosecrets.Store.Tx.{
  Result, ok, err, not_found, duplicate, conflict, bad_payload, no_secrets, no_rows,
  unique_violation, foreign_key_violation, check_violation,
}
use autosecrets.Store.Rows.{Blob}
use autosecrets.Store.Identity.Rows.{
  is_member_active, OrganizationConfig, Admin, AuthMethod, ExternalIdentityBinding, Actor,
  actor_authentication, AuditAction, auth_login, result_denied, AuditResult, IdentityDb,
}
use autosecrets.Identity.Service.Flow.{
  ServiceError, invalid_credentials, seal_failed, store_error, Flow, Service, audit_event, deny,
}
use autosecrets.Identity.Service.Checks.{
  external_login_available, issue_session, verify_second_factor, is_bound, proof_given, found_or,
  member_or_deny, active_or, proof_or_deny,
}
use autosecrets.Identity.Service.Checks.{use_counter, policy_proof_under}
use autosecrets.Identity.Service.Logins.{password_login_or_deny, answered_or}
use autosecrets.Identity.Service.Enrollment.{sealed_or_stop, done_or}
use autosecrets.Identity.Service.External.{OidcIdentity, binding_or, matching_or, some_or}
use autosecrets.Identity.Service.Keeps.{
  TxKeeps, Keeps, tx_rules, flow_rules, Keeps-bind, Keeps-give, Keeps-stop, Keeps-either,
  Keeps-attempt, Keeps-unless, Keeps-call, Keeps-or_store_error,
}
use autosecrets.Identity.Service.Frame.{
  Core, Within, record_audit-Keeps, organization-Keeps, member_by_id-Keeps,
  create_bounded_session-Keeps, totp_enrollment_for_member-Keeps, external_identity_binding-Keeps,
  oauth_identity_binding-Keeps, consume_recovery_code-Keeps, use_totp-Keeps,
}

module _ {P : IdentityDb → Type 0} where
  pub found_or-Keeps : {A : Type 0} {k : Flow A} (r : Result A) → Keeps P k → Keeps P (found_or k r)
  found_or-Keeps (ok a) h = Keeps-give a
  found_or-Keeps (err e) h = h

  pub active_or-Keeps : {k : Flow Admin} (r : Result Admin) → Keeps P k → Keeps P (active_or k r)
  active_or-Keeps (ok a) h = Keeps-either (is_member_active a.status) (Keeps-give a) h
  active_or-Keeps (err e) h = h

  pub answered_or-Keeps : {k : Flow ℕ} (r : Result ℕ) → Keeps P k → Keeps P (answered_or k r)
  answered_or-Keeps (ok a) h = Keeps-give a
  answered_or-Keeps (err e) h = h

  pub done_or-Keeps : {A : Type 0} {k : Flow A} (r : Result A) → Keeps P k → Keeps P (done_or k r)
  done_or-Keeps (ok a) h = Keeps-give a
  done_or-Keeps (err e) h = h

  pub binding_or-Keeps :
      {A : Type 0} {k : Flow A} (r : Result A) → Keeps P k → Keeps P (binding_or k r)
  binding_or-Keeps (ok a) h = Keeps-give a
  binding_or-Keeps (err e) h = h

  pub some_or-Keeps : {A : Type 0} {k : Flow A} (o : Option A) → Keeps P k → Keeps P (some_or k o)
  some_or-Keeps (some a) h = Keeps-give a
  some_or-Keeps none h = h

  pub matching_or-Keeps :
      {k : Flow ExternalIdentityBinding} (i : OidcIdentity) (r : Result ExternalIdentityBinding)
      → Keeps P k
      → Keeps P (matching_or k i r)
  matching_or-Keeps i (ok b) h =
      Keeps-either (b.issuer == i.issuer && b.subject == i.subject) (Keeps-give b) h
  matching_or-Keeps i (err e) h = h

  pub sealed_or_stop-Keeps : (o : Option Blob) → Keeps P (sealed_or_stop o)
  sealed_or_stop-Keeps none = Keeps-stop seal_failed
  sealed_or_stop-Keeps (some b) = Keeps-give b

  pub is_bound-Keeps : (r : Result ExternalIdentityBinding) → Keeps P (is_bound r)
  is_bound-Keeps (ok b) = Keeps-give true
  is_bound-Keeps (err not_found) = Keeps-give false
  is_bound-Keeps (err duplicate) = Keeps-stop (store_error duplicate)
  is_bound-Keeps (err conflict) = Keeps-stop (store_error conflict)
  is_bound-Keeps (err bad_payload) = Keeps-stop (store_error bad_payload)
  is_bound-Keeps (err no_secrets) = Keeps-stop (store_error no_secrets)
  is_bound-Keeps (err no_rows) = Keeps-stop (store_error no_rows)
  is_bound-Keeps (err unique_violation) = Keeps-stop (store_error unique_violation)
  is_bound-Keeps (err foreign_key_violation) = Keeps-stop (store_error foreign_key_violation)
  is_bound-Keeps (err check_violation) = Keeps-stop (store_error check_violation)

pub ruleset step_rules = (
  flow_rules, found_or-Keeps, active_or-Keeps, answered_or-Keeps, done_or-Keeps, binding_or-Keeps,
  some_or-Keeps, matching_or-Keeps, sealed_or_stop-Keeps, is_bound-Keeps,
)

module _ (Q : Core → Type 0) where
  pub audit_event-Keeps :
      (a : Actor) (b : AuditAction) (n : ℕ) (r : AuditResult)
      → Keeps (Within Q) (audit_event a b n r)
  unfolding audit_event
  audit_event-Keeps a b n r = search (step_rules, record_audit-Keeps Q) depth 12

  pub deny-Keeps :
      {A : Type 0} (a : Actor) (b : AuditAction) (n : ℕ) (e : ServiceError)
      → Keeps (Within Q) (deny {A = A} a b n e)
  deny-Keeps a b n e = Keeps-bind (audit_event-Keeps a b n result_denied) (λ _. Keeps-stop e)

  pub login_denied :
      {A : Type 0}
      → Keeps (Within Q) (deny {A = A} actor_authentication auth_login 0 invalid_credentials)
  login_denied = deny-Keeps actor_authentication auth_login 0 invalid_credentials

  pub issue_session-Keeps :
      (sv : Service) (at id csrf : ℕ) (m : Admin) (by : AuthMethod)
      → Keeps (Within Q) (issue_session sv at id csrf m by)
  unfolding issue_session
  issue_session-Keeps sv at id csrf m by =
      search (step_rules, create_bounded_session-Keeps Q) depth 12

  use_counter-Keeps : (member : ℕ) (o : Option ℕ) → Keeps (Within Q) (use_counter member o)
  use_counter-Keeps member none = Keeps-give false
  use_counter-Keeps member (some c) = search (step_rules, use_totp-Keeps Q) depth 12

  pub verify_second_factor-Keeps :
      (sv : Service) (m : Admin) (t r : List ℕ) → Keeps (Within Q) (verify_second_factor sv m t r)
  unfolding verify_second_factor
  verify_second_factor-Keeps sv m t r =
      search
        (
          step_rules,
          consume_recovery_code-Keeps Q,
          totp_enrollment_for_member-Keeps Q,
          use_counter-Keeps,
        )
        depth 12

  policy_proof_under-Keeps :
      (sv : Service) (m : Admin) (t r : List ℕ) (b : Bool) (o : Result OrganizationConfig)
      → Keeps (Within Q) (policy_proof_under sv m t r b o)
  policy_proof_under-Keeps sv m t r b (ok org) =
      search (step_rules, verify_second_factor-Keeps) depth 12
  policy_proof_under-Keeps sv m t r b (err e) = Keeps-give false

  pub proof_given-Keeps :
      (sv : Service) (m : Admin) (w t r : List ℕ) (b : Bool)
      → Keeps (Within Q) (proof_given sv m w t r b)
  unfolding proof_given
  proof_given-Keeps sv m w t r b =
      search (step_rules, policy_proof_under-Keeps, organization-Keeps Q) depth 12

  pub proof_or_deny-Keeps :
      (sv : Service) (m : Admin) (w t r : List ℕ) (b : Bool) (actor : Actor) (action : AuditAction)
      → Keeps (Within Q) (proof_or_deny sv m w t r b actor action)
  proof_or_deny-Keeps sv m w t r b actor action =
      Keeps-bind (proof_given-Keeps sv m w t r b)
        (λ valid. Keeps-unless valid (deny-Keeps actor action m.id invalid_credentials))

  pub member_or_deny-Keeps :
      (actor : Actor) (action : AuditAction) (resource id : ℕ)
      → Keeps (Within Q) (member_or_deny actor action resource id)
  member_or_deny-Keeps actor action resource id =
      Keeps-bind (Keeps-attempt (member_by_id-Keeps Q id))
        (λ r. found_or-Keeps r (deny-Keeps actor action resource invalid_credentials))

  pub external_login_available-Keeps :
      (sv : Service) → Keeps (Within Q) (external_login_available sv)
  unfolding external_login_available
  external_login_available-Keeps sv =
      search (step_rules, external_identity_binding-Keeps Q, oauth_identity_binding-Keeps Q) depth
        14

  pub password_login_or_deny-Keeps :
      (sv : Service) (action : AuditAction) → Keeps (Within Q) (password_login_or_deny sv action)
  unfolding password_login_or_deny
  password_login_or_deny-Keeps sv action =
      search (step_rules, organization-Keeps Q, external_login_available-Keeps, audit_event-Keeps)
        depth 14
