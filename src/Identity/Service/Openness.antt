-- ===== src/Identity/Service/Openness.antt =====
-- service.go: the requests of Requests.antt, and whether somebody can still log in after them.
use autosecrets.Prelude.{ℕ, ◌≡◌, ◌≤◌, sym, true, Option, List, [], ◌∷◌, length, length-map}
use autosecrets.Store.Identity.Rows.{
  AuditEvent, OidcTransaction, ExternalIdentityBinding, IdentityDb, actor_administrator, result_ok,
  actor_authentication,
}
use autosecrets.Identity.Service.Flow.{Service, event, invalid_credentials}
use autosecrets.Identity.Service.Logins.{bootstrap}
use autosecrets.Identity.Service.Enrollment.{confirm_enrollment, disable_second_factor}
use autosecrets.Identity.Service.External.{Provider, OidcIdentity, complete_binding, bind_identity}
use autosecrets.Identity.Service.Instances.{
  oidc_provider, oauth_provider, start_oidc_login, start_oauth_login, start_oidc_binding,
  start_oauth_binding, complete_oidc_login, complete_oauth_login, complete_oidc_binding,
  complete_oauth_binding,
}
use autosecrets.Identity.Service.Keeps.{TxKeeps, Keeps, Keeps-bind, Keeps-call, Keeps-attempt}
use autosecrets.Identity.Service.Frame.{
  Core, core_of, Within, external_identity_binding-Keeps, oauth_identity_binding-Keeps,
  member_by_id-Keeps,
}
use autosecrets.Identity.Service.Steps.{
  active_or-Keeps, audit_event-Keeps, deny-Keeps, issue_session-Keeps, member_or_deny-Keeps,
  some_or-Keeps, step_rules, verify_second_factor-Keeps,
}
use autosecrets.Identity.Service.Providers.{
  complete_external_login-Keeps, start_binding-Keeps, start_login-Keeps, take_transaction-Keeps,
}
use autosecrets.Identity.Service.Routine.{
  change_member_password-Keeps, change_member_username-Keeps, complete_login-Keeps, login-Keeps,
  logout-Keeps, renew_session-Keeps, start_totp_enrollment-Keeps, step_up-Keeps,
  verify_mfa_enrollment-Keeps,
}
use autosecrets.Identity.Service.Lockout.{
  has_way, IsOpen, bootstrap_administrator-Keeps, confirm_mfa_enrollment-Keeps, disable_totp-Keeps,
  bind_external_identity-Keeps, bind_oauth_identity-Keeps,
}
use autosecrets.Identity.Service.Guards.{switch_password_login-Keeps}
use autosecrets.Identity.Service.Removal.{unbind_oidc-Keeps, unbind_oauth-Keeps}
use autosecrets.Identity.Service.Requests.{
  Request, bootstraps, logs_in, completes_login, renews, steps_up, logs_out, starts_enrollment,
  verifies, confirms, disables_totp, changes_password, changes_username, switches_password_login,
  starts_oidc_login, starts_oauth_login, starts_oidc_binding, starts_oauth_binding,
  takes_transaction, completes_oidc_login, completes_oauth_login, completes_oidc_binding,
  completes_oauth_binding, unbinds_oidc, unbinds_oauth, apply, apply_all,
}

module _ (W M : Type 0) (sv : Service) where
  abbrev Ways : Core → Type 0
  Ways = IsOpen W M sv.oidc_ready sv.oauth_ready

  abbrev Open : IdentityDb → Type 0
  Open = Within Ways

  bootstrap-Keeps :
      (at id : ℕ) (salt : List ℕ) (session csrf code : ℕ) (o u w : List ℕ)
      → Keeps Open (bootstrap sv at id salt session csrf code o u w)
  unfolding bootstrap
  bootstrap-Keeps at id salt session csrf code o u w =
      search
        (
          step_rules,
          deny-Keeps Ways,
          audit_event-Keeps Ways,
          issue_session-Keeps Ways,
          bootstrap_administrator-Keeps W M sv.oidc_ready sv.oauth_ready,
        )
        depth 20

  confirm_enrollment-Keeps : (id current c : ℕ) → Keeps Open (confirm_enrollment sv id current c)
  unfolding confirm_enrollment
  confirm_enrollment-Keeps id current c =
      search
        (step_rules, deny-Keeps Ways, confirm_mfa_enrollment-Keeps W M sv.oidc_ready sv.oauth_ready)
        depth 20

  disable_second_factor-Keeps :
      (id current : ℕ) (w t : List ℕ) → Keeps Open (disable_second_factor sv id current w t)
  unfolding disable_second_factor
  disable_second_factor-Keeps id current w t =
      search
        (
          step_rules,
          member_or_deny-Keeps Ways,
          deny-Keeps Ways,
          verify_second_factor-Keeps Ways,
          disable_totp-Keeps W M sv.oidc_ready sv.oauth_ready,
        )
        depth 20

  complete_binding-Keeps :
      (provider : Provider) (o : Option OidcTransaction) (i : Option OidcIdentity) (current : ℕ)
      → ((b : ExternalIdentityBinding) (n : ℕ) (e : AuditEvent)
          → TxKeeps Open (provider.bind b n e))
      → Keeps Open (complete_binding provider sv o i current)
  unfolding complete_binding
  complete_binding-Keeps provider o i current k =
      Keeps-bind
        (some_or-Keeps (bind_identity o i)
          (deny-Keeps Ways actor_authentication provider.bound 0 invalid_credentials))
        (λ person. Keeps-bind (Keeps-attempt (member_by_id-Keeps Ways person.0)) (λ row.
          Keeps-bind
            (active_or-Keeps row (
              deny-Keeps Ways (actor_administrator person.0) provider.bound person.0
                invalid_credentials))
            (λ m. Keeps-call (
              k
                (record {
                  admin_id = person.0;
                  issuer = person.1.issuer;
                  subject = person.1.subject;
                  display_name = person.1.display_name;
                })
                current (event (actor_administrator m.username) provider.bound m.id result_ok)))))

  apply-Open : (request : Request) (s : IdentityDb) → Open s → Open (apply sv request s)
  unfolding start_oidc_login start_oauth_login start_oidc_binding start_oauth_binding
      complete_oidc_login complete_oauth_login complete_oidc_binding complete_oauth_binding
  apply-Open (bootstraps at id salt session csrf code organization username password) s h =
      (bootstrap-Keeps at id salt session csrf code organization username password).kept s h
  apply-Open (logs_in at session csrf challenge username password source) s h =
      (login-Keeps Ways sv at session csrf challenge username password source).kept s h
  apply-Open (completes_login at session csrf challenge source totp recovery) s h =
      (complete_login-Keeps Ways sv at session csrf challenge source totp recovery).kept s h
  apply-Open (renews at session csrf old id password totp recovery) s h =
      (renew_session-Keeps Ways sv at session csrf old id password totp recovery).kept s h
  apply-Open (steps_up session id password totp recovery) s h =
      (step_up-Keeps Ways sv session id password totp recovery).kept s h
  apply-Open (logs_out session id username) s h = (logout-Keeps Ways session id username).kept s h
  apply-Open (starts_enrollment secret random token id password) s h =
      (start_totp_enrollment-Keeps Ways sv secret random token id password).kept s h
  apply-Open (verifies random confirmation token totp) s h =
      (verify_mfa_enrollment-Keeps Ways sv random confirmation token totp).kept s h
  apply-Open (confirms id current confirmation) s h =
      (confirm_enrollment-Keeps id current confirmation).kept s h
  apply-Open (disables_totp id current password totp) s h =
      (disable_second_factor-Keeps id current password totp).kept s h
  apply-Open (changes_password at salt session csrf id password new totp) s h =
      (change_member_password-Keeps Ways sv at salt session csrf id password new totp).kept s h
  apply-Open (changes_username at session csrf id username password totp) s h =
      (change_member_username-Keeps Ways sv at session csrf id username password totp).kept s h
  apply-Open (switches_password_login id current password totp enabled) s h =
      (switch_password_login-Keeps W M sv id current password totp enabled).kept s h
  apply-Open (starts_oidc_login start back) s h =
      (start_login-Keeps Ways oidc_provider (external_identity_binding-Keeps Ways) sv start
          back).kept
        s h
  apply-Open (starts_oauth_login start back) s h =
      (start_login-Keeps Ways oauth_provider (oauth_identity_binding-Keeps Ways) sv start back).kept
        s h
  apply-Open (starts_oidc_binding start id password totp back) s h =
      (start_binding-Keeps Ways oidc_provider (external_identity_binding-Keeps Ways) sv start id
          password totp back).kept
        s h
  apply-Open (starts_oauth_binding start id password totp back) s h =
      (start_binding-Keeps Ways oauth_provider (oauth_identity_binding-Keeps Ways) sv start id
          password totp back).kept
        s h
  apply-Open (takes_transaction state) s h = (take_transaction-Keeps Ways sv state).kept s h
  apply-Open (completes_oidc_login at session csrf transaction identity) s h =
      (complete_external_login-Keeps Ways oidc_provider (external_identity_binding-Keeps Ways) sv at
          session csrf transaction identity).kept
        s h
  apply-Open (completes_oauth_login at session csrf transaction identity) s h =
      (complete_external_login-Keeps Ways oauth_provider (oauth_identity_binding-Keeps Ways) sv at
          session csrf transaction identity).kept
        s h
  apply-Open (completes_oidc_binding transaction identity current) s h =
      (complete_binding-Keeps oidc_provider transaction identity current
          (bind_external_identity-Keeps W M sv.oidc_ready sv.oauth_ready)).kept
        s h
  apply-Open (completes_oauth_binding transaction identity current) s h =
      (complete_binding-Keeps oauth_provider transaction identity current
          (bind_oauth_identity-Keeps W M sv.oidc_ready sv.oauth_ready)).kept
        s h
  apply-Open (unbinds_oidc id current password totp) s h =
      (unbind_oidc-Keeps W M sv id current password totp).kept s h
  apply-Open (unbinds_oauth id current password totp) s h =
      (unbind_oauth-Keeps W M sv id current password totp).kept s h

apply_all-IsOpen :
    (W M : Type 0) (sv : Service) (requests : List (ℕ × Request)) (s : IdentityDb)
    → IsOpen W M sv.oidc_ready sv.oauth_ready (core_of s)
    → IsOpen W M sv.oidc_ready sv.oauth_ready (core_of (apply_all sv requests s))
apply_all-IsOpen W M sv [] s h = h
apply_all-IsOpen W M sv ((now, request) ∷ requests) s h =
    apply_all-IsOpen W M sv requests (apply (record sv { now = now }) request s)
      (apply-Open W M (record sv { now = now }) request s h)

-- Nobody is locked out: if there is an Organization and password login is enabled for it, or an external
-- identity is bound whose provider is ready, then after any requests, in any order and at any times, there
-- is still an Organization and one of the two still holds. The providers that are ready stay the same.
pub apply_all-has_way :
    (sv : Service) (requests : List (ℕ × Request)) (s : IdentityDb)
    → has_way sv.oidc_ready sv.oauth_ready (core_of s) ≡ true
    → has_way sv.oidc_ready sv.oauth_ready (core_of (apply_all sv requests s)) ≡ true
apply_all-has_way sv requests s h =
    (apply_all-IsOpen (Unit {0}) ⊥ sv requests s ((λ _. h), λ never. absurd never)).0 tt

-- No requests, in any order and at any times, give an installation of at most one member a second one.
pub apply_all-one_member :
    (sv : Service) (requests : List (ℕ × Request)) (s : IdentityDb)
    → length s.admins ≤ 1
    → length (apply_all sv requests s).admins ≤ 1
apply_all-one_member sv requests s h =
    rw (sym (length-map (λ a. a.id) (apply_all sv requests s).admins)) (
      (apply_all-IsOpen ⊥ (Unit {0}) sv requests s
          ((λ never. absurd never), λ _. rw (length-map (λ a. a.id) s.admins) h)).1
        tt)
