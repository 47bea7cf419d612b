-- ===== src/Identity/Service/Removal.antt =====
-- service.go: the removal of a binding keeps a way to log in.
use autosecrets.Prelude.{ℕ, ◌≡◌, sym, subst, Bool, true, false, ◌&&◌, ◌||◌, List, [], is_some}
use autosecrets.Store.Tx.{Tx, ok, not_found}
use autosecrets.Store.Identity.Rows.{
  ExternalIdentityBinding, IdentityDb, Actor, actor_administrator, result_ok, result_denied,
  administrator_oidc_unbound, administrator_oauth_unbound,
}
use autosecrets.Store.Identity.{
  external_identity_binding, oauth_identity_binding, unbind_external_identity,
  unbind_oauth_identity,
}
use autosecrets.Identity.Service.Flow.{
  Service, Flow, done, store_error, event, audit_event, on_error, call, ◌>>◌,
}
use autosecrets.Identity.Service.Checks.{reject_last_external_unbind}
use autosecrets.Identity.Service.External.{Provider, unbind_provider}
use autosecrets.Identity.Service.Instances.{
  oidc_provider, oauth_provider, unbind_oidc, unbind_oauth,
}
use autosecrets.Identity.Service.Keeps.{
  TxKeeps, Keeps, Keeps-bind, Keeps-attempt, Keeps-on_error, Keeps-guarded, call_kept,
}
use autosecrets.Identity.Service.Frame.{
  Core, Within, organization-Keeps, external_identity_binding-Keeps, oauth_identity_binding-Keeps,
}
use autosecrets.Identity.Service.Steps.{
  step_rules, binding_or-Keeps, audit_event-Keeps, deny-Keeps, member_or_deny-Keeps,
  proof_or_deny-Keeps,
}
use autosecrets.Identity.Service.Lockout.{
  IsOpen, is_password_enabled, unbound_external-Open, unbound_oauth-Open,
}
use autosecrets.Identity.Service.Guards.{
  reject_last_external_unbind-oidc, reject_last_external_unbind-oauth, on_error-done,
}

module _ (W M : Type 0) (sv : Service) where
  abbrev Ways : Core → Type 0
  Ways = IsOpen W M sv.oidc_ready sv.oauth_ready

  abbrev Open : IdentityDb → Type 0
  Open = Within Ways

  -- The end of the removal of a binding.
  unbound-Keeps :
      (R : IdentityDb → Type 0) (reject audited : Flow (Unit {0}))
      (unbind : Tx IdentityDb (Unit {0}))
      → Keeps Open reject
      → Keeps Open audited
      → ((s : IdentityDb) → (reject s).0 ≡ done tt → R (reject s).1)
      → ((s s' : IdentityDb) → R s → Open s → unbind s ≡ ok (tt, s') → Open s')
      → Keeps Open (on_error reject audited >> call unbind)
  unbound-Keeps R reject audited unbind kr ka guard after =
      Keeps-guarded R (on_error reject audited) (λ _. call unbind) (Keeps-on_error kr ka)
        (λ s a h.
          let (passed, same) = on_error-done reject audited s h in
          subst R (sym same) (guard s passed))
        (λ a s left h. call_kept unbind s h (λ t s' run. after s s' left h run))

  reject_last_external_unbind-Keeps :
      (ready : Bool) {lookup : Tx IdentityDb ExternalIdentityBinding}
      → TxKeeps Open lookup
      → Keeps Open (reject_last_external_unbind ready lookup)
  unfolding reject_last_external_unbind
  reject_last_external_unbind-Keeps ready k =
      search (step_rules, organization-Keeps Ways, k) depth 14

  module _ (provider : Provider) (lookup-Keeps : TxKeeps Open provider.lookup)
      (ends-Keeps : (member id current : ℕ) (actor : Actor)
        → Keeps Open (
            on_error
              (reject_last_external_unbind (provider.remaining_ready sv) provider.remaining)
              (audit_event actor provider.unbound member result_denied)
            >> call
                (provider.unbind id current (event actor provider.unbound member result_ok)))) where
    unbind_provider-Keeps :
        (id current : ℕ) (w t : List ℕ) → Keeps Open (unbind_provider provider sv id current w t)
    unfolding unbind_provider
    unbind_provider-Keeps id current w t =
        Keeps-bind (member_or_deny-Keeps Ways (actor_administrator id) provider.unbound id id) (λ m.
          Keeps-bind
            (proof_or_deny-Keeps Ways sv m w t [] false (actor_administrator m.username)
              provider.unbound)
            (λ _. Keeps-bind (Keeps-attempt lookup-Keeps) (λ r.
              Keeps-bind
                (binding_or-Keeps r (
                  deny-Keeps Ways (actor_administrator m.username) provider.unbound m.id
                    (store_error not_found)))
                (λ _. ends-Keeps m.id id current (actor_administrator m.username)))))

  pub unbind_oidc-Keeps :
      (id current : ℕ) (w t : List ℕ) → Keeps Open (unbind_oidc sv id current w t)
  unfolding unbind_oidc
  unbind_oidc-Keeps =
      unbind_provider-Keeps oidc_provider (external_identity_binding-Keeps Ways)
        (λ member id current actor.
          unbound-Keeps
            (λ s.
              is_password_enabled s.organization_config
                || (sv.oauth_ready && is_some s.oauth_identity_binding)
              ≡ true)
            (reject_last_external_unbind sv.oauth_ready oauth_identity_binding)
            (audit_event actor administrator_oidc_unbound member result_denied)
            (unbind_external_identity id current
              (event actor administrator_oidc_unbound member result_ok))
            (reject_last_external_unbind-Keeps sv.oauth_ready (oauth_identity_binding-Keeps Ways))
            (audit_event-Keeps Ways actor administrator_oidc_unbound member result_denied)
            (λ s passed.
              let (same, left) = reject_last_external_unbind-oidc sv.oauth_ready s passed in
              rw same left)
            (λ s s' left h run.
              unbound_external-Open W M sv.oidc_ready sv.oauth_ready id current
                (event actor administrator_oidc_unbound member result_ok) s s' left h run))

  pub unbind_oauth-Keeps :
      (id current : ℕ) (w t : List ℕ) → Keeps Open (unbind_oauth sv id current w t)
  unfolding unbind_oauth
  unbind_oauth-Keeps =
      unbind_provider-Keeps oauth_provider (oauth_identity_binding-Keeps Ways)
        (λ member id current actor.
          unbound-Keeps
            (λ s.
              is_password_enabled s.organization_config
                || (sv.oidc_ready && is_some s.external_identity_binding)
              ≡ true)
            (reject_last_external_unbind sv.oidc_ready external_identity_binding)
            (audit_event actor administrator_oauth_unbound member result_denied)
            (unbind_oauth_identity id current
              (event actor administrator_oauth_unbound member result_ok))
            (reject_last_external_unbind-Keeps sv.oidc_ready (external_identity_binding-Keeps Ways))
            (audit_event-Keeps Ways actor administrator_oauth_unbound member result_denied)
            (λ s passed.
              let (same, left) = reject_last_external_unbind-oauth sv.oidc_ready s passed in
              rw same left)
            (λ s s' left h run.
              unbound_oauth-Open W M sv.oidc_ready sv.oauth_ready id current
                (event actor administrator_oauth_unbound member result_ok) s s' left h run))
