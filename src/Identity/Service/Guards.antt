-- ===== src/Identity/Service/Guards.antt =====
-- service.go: `SetPasswordLoginEnabled` and the removal of a binding keep a way to log in.
use autosecrets.Prelude.{ℕ, ◌≡◌, refl, arith, Bool, true, false, ◌&&◌, ◌||◌, List, [], is_some}
use autosecrets.Store.Identity.Rows.{Admin, IdentityDb, AuditEvent, actor_administrator, result_ok}
use autosecrets.Store.Identity.{
  external_identity_binding, oauth_identity_binding, set_password_login_enabled,
}
use autosecrets.Identity.Service.Flow.{
  Service, Flow, Outcome, done, stopped, external_login_required, event, on_error, call, ◌>>◌,
}
use autosecrets.Identity.Service.Checks.{external_login_available, reject_last_external_unbind}
use autosecrets.Identity.Service.Account.{
  require_external_login, switch_password_login, password_login_action, is_same,
}
use autosecrets.Identity.Service.Keeps.{
  Keeps, Keeps-bind, Keeps-give, Keeps-call, Keeps-either, Keeps-unless, Keeps-guarded, call_kept,
}
use autosecrets.Identity.Service.Frame.{Core, Within, organization-Keeps}
use autosecrets.Identity.Service.Steps.{
  deny-Keeps, external_login_available-Keeps, member_or_deny-Keeps, proof_or_deny-Keeps,
}
use autosecrets.Identity.Service.Lockout.{
  IsOpen, is_reachable, is_password_enabled, disabled-Open, enable-Keeps,
}

external_login_available-state :
    (sv : Service) (s : IdentityDb) → (external_login_available sv s).1 ≡ s
unfolding external_login_available
external_login_available-state sv s = ground arith

external_login_available-reaches :
    (sv : Service) (s : IdentityDb)
    → (external_login_available sv s).0 ≡ done true
    → is_reachable sv.oidc_ready sv.oauth_ready s ≡ true
unfolding external_login_available
external_login_available-reaches sv s h = ground (arith, h)

require_external_login-reaches :
    (sv : Service) (m : Admin) (s : IdentityDb)
    → (require_external_login sv m false s).0 ≡ done tt
    → is_reachable sv.oidc_ready sv.oauth_ready (require_external_login sv m false s).1 ≡ true
unfolding require_external_login
require_external_login-reaches sv m s h = by_outcome (external_login_available sv s).0 refl h
  where
    by_outcome :
        (o : Outcome Bool)
        → (external_login_available sv s).0 ≡ o
        → (require_external_login sv m false s).0 ≡ done tt
        → is_reachable sv.oidc_ready sv.oauth_ready (require_external_login sv m false s).1 ≡ true
    by_outcome (done true) e h =
        let state : (require_external_login sv m false s).1 ≡ s =
          ground (arith, e, external_login_available-state sv s) in
        rw state (external_login_available-reaches sv s e)
    by_outcome (done false) e h = absurd (ground (arith, e, h))
    by_outcome (stopped x) e h = absurd (ground (arith, e, h))

pub reject_last_external_unbind-oidc :
    (ready : Bool) (s : IdentityDb)
    → (reject_last_external_unbind ready oauth_identity_binding s).0 ≡ done tt
    → ((reject_last_external_unbind ready oauth_identity_binding s).1 ≡ s)
      × (is_password_enabled s.organization_config || (ready && is_some s.oauth_identity_binding)
          ≡ true)
unfolding reject_last_external_unbind oauth_identity_binding
reject_last_external_unbind-oidc ready s h = (ground (arith, h), ground (arith, h))

pub reject_last_external_unbind-oauth :
    (ready : Bool) (s : IdentityDb)
    → (reject_last_external_unbind ready external_identity_binding s).0 ≡ done tt
    → ((reject_last_external_unbind ready external_identity_binding s).1 ≡ s)
      × (is_password_enabled s.organization_config || (ready && is_some s.external_identity_binding)
          ≡ true)
unfolding reject_last_external_unbind external_identity_binding
reject_last_external_unbind-oauth ready s h = (ground (arith, h), ground (arith, h))

pub on_error-done :
    (m k : Flow (Unit {0})) (s : IdentityDb)
    → (on_error m k s).0 ≡ done tt
    → ((m s).0 ≡ done tt) × ((on_error m k s).1 ≡ (m s).1)
on_error-done m k s h = by_outcome (m s).0 refl
  where
    by_outcome :
        (o : Outcome (Unit {0}))
        → (m s).0 ≡ o
        → ((m s).0 ≡ done tt) × ((on_error m k s).1 ≡ (m s).1)
    by_outcome (done tt) e = (e, ground (arith, e))
    by_outcome (stopped x) e = absurd (ground (arith, e, h))

module _ (W M : Type 0) (sv : Service) where
  abbrev Ways : Core → Type 0
  Ways = IsOpen W M sv.oidc_ready sv.oauth_ready

  abbrev Open : IdentityDb → Type 0
  Open = Within Ways

  require_external_login-Keeps :
      (m : Admin) (enabled : Bool) → Keeps Open (require_external_login sv m enabled)
  unfolding require_external_login
  require_external_login-Keeps m enabled = Keeps-either enabled (Keeps-give tt) (
      Keeps-bind (external_login_available-Keeps Ways sv) (λ usable. Keeps-unless usable (
        deny-Keeps Ways (actor_administrator m.username) (password_login_action enabled) m.id
          external_login_required)))

  switched-Keeps :
      (m : Admin) (id current : ℕ) (enabled : Bool) (e : AuditEvent)
      → Keeps Open (
          require_external_login sv m enabled
          >> call (set_password_login_enabled id current enabled e))
  switched-Keeps m id current true e =
      Keeps-bind (require_external_login-Keeps m true)
        (λ _. Keeps-call (enable-Keeps W M sv.oidc_ready sv.oauth_ready id current e))
  switched-Keeps m id current false e =
      Keeps-guarded (λ s. is_reachable sv.oidc_ready sv.oauth_ready s ≡ true)
        (require_external_login sv m false)
        (λ _. call (set_password_login_enabled id current false e))
        (require_external_login-Keeps m false)
        (λ s a done_with. require_external_login-reaches sv m s done_with)
        (λ a s reach h. call_kept (set_password_login_enabled id current false e) s h (λ t s' run.
          disabled-Open W M sv.oidc_ready sv.oauth_ready id current e s s' reach h run))

  pub switch_password_login-Keeps :
      (id current : ℕ) (w t : List ℕ) (enabled : Bool)
      → Keeps Open (switch_password_login sv id current w t enabled)
  unfolding switch_password_login
  switch_password_login-Keeps id current w t enabled =
      Keeps-bind
        (member_or_deny-Keeps Ways (actor_administrator id) (password_login_action enabled) id id)
        (λ m.
          Keeps-bind
            (proof_or_deny-Keeps Ways sv m w t [] false (actor_administrator m.username)
              (password_login_action enabled))
            (λ _. Keeps-bind (Keeps-call (organization-Keeps Ways)) (λ org.
              Keeps-either (is_same org.password_login_enabled enabled) (Keeps-give tt) (
                switched-Keeps m id current enabled (
                  event (actor_administrator m.username) (password_login_action enabled) m.id
                    result_ok)))))
