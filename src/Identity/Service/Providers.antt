-- ===== src/Identity/Service/Providers.antt =====
-- service.go: login by an external identity leaves the Organization, the bindings to external identities
-- and the ids of the members alone.
use autosecrets.Prelude.{ℕ, false, Option, some, List, []}
use autosecrets.Store.Tx.{
  Result, ok, err, not_found, duplicate, conflict, bad_payload, no_secrets, no_rows,
  unique_violation, foreign_key_violation, check_violation,
}
use autosecrets.Store.Identity.Rows.{
  Admin, ExternalIdentityBinding, Purpose, purpose_bind, OidcTransaction, actor_member,
  actor_administrator, auth_login,
}
use autosecrets.Identity.Service.Flow.{store_error, Service, attempt, ◌>>=◌, ◌>>◌}
use autosecrets.Identity.Service.External.{
  Provider, OidcStart, OidcIdentity, start_transaction, start_login, unbound_or_conflict,
  start_binding, take_transaction, login_identity, complete_external_login,
}
use autosecrets.Identity.Service.Keeps.{
  TxKeeps, Keeps, Keeps-bind, Keeps-give, Keeps-stop, Keeps-attempt,
}
use autosecrets.Identity.Service.Frame.{
  Core, Within, member_by_id-Keeps, create_oidc_transaction-Keeps, consume_oidc_transaction-Keeps,
}
use autosecrets.Identity.Service.Steps.{
  step_rules, active_or-Keeps, some_or-Keeps, matching_or-Keeps, audit_event-Keeps,
  issue_session-Keeps, proof_or_deny-Keeps, member_or_deny-Keeps, login_denied,
}

module _ (Q : Core → Type 0) where
  pub take_transaction-Keeps :
      (sv : Service) (state : ℕ) → Keeps (Within Q) (take_transaction sv state)
  unfolding take_transaction
  take_transaction-Keeps sv state = search (step_rules, consume_oidc_transaction-Keeps Q) depth 14

  start_transaction-Keeps :
      (sv : Service) (start : OidcStart) (purpose : Purpose) (member : Option ℕ) (back : ℕ)
      → Keeps (Within Q) (start_transaction sv start purpose member back)
  unfolding start_transaction
  start_transaction-Keeps sv start purpose member back =
      search (step_rules, create_oidc_transaction-Keeps Q) depth 14

  module _ (provider : Provider) (lookup-Keeps : TxKeeps (Within Q) provider.lookup) where
    pub start_login-Keeps :
        (sv : Service) (start : OidcStart) (back : ℕ)
        → Keeps (Within Q) (start_login provider sv start back)
    unfolding start_login
    start_login-Keeps sv start back =
        search (step_rules, audit_event-Keeps, lookup-Keeps, start_transaction-Keeps) depth 14

    unbound_or_conflict-Keeps :
        (m : Admin) (r : Result ExternalIdentityBinding)
        → Keeps (Within Q) (unbound_or_conflict provider m r)
    unbound_or_conflict-Keeps m (ok b) = search (step_rules, audit_event-Keeps) depth 14
    unbound_or_conflict-Keeps m (err not_found) = Keeps-give tt
    unbound_or_conflict-Keeps m (err duplicate) = Keeps-stop (store_error duplicate)
    unbound_or_conflict-Keeps m (err conflict) = Keeps-stop (store_error conflict)
    unbound_or_conflict-Keeps m (err bad_payload) = Keeps-stop (store_error bad_payload)
    unbound_or_conflict-Keeps m (err no_secrets) = Keeps-stop (store_error no_secrets)
    unbound_or_conflict-Keeps m (err no_rows) = Keeps-stop (store_error no_rows)
    unbound_or_conflict-Keeps m (err unique_violation) = Keeps-stop (store_error unique_violation)
    unbound_or_conflict-Keeps m (err foreign_key_violation) =
        Keeps-stop (store_error foreign_key_violation)
    unbound_or_conflict-Keeps m (err check_violation) = Keeps-stop (store_error check_violation)

    unbound_then_started :
        (sv : Service) (start : OidcStart) (m : Admin) (id back : ℕ)
        → Keeps (Within Q) (
            attempt provider.lookup >>= λ r.
            unbound_or_conflict provider m r
            >> start_transaction sv start purpose_bind (some id) back)
    unbound_then_started sv start m id back =
        search (step_rules, unbound_or_conflict-Keeps, start_transaction-Keeps, lookup-Keeps) depth
          14

    pub start_binding-Keeps :
        (sv : Service) (start : OidcStart) (id : ℕ) (w t : List ℕ) (back : ℕ)
        → Keeps (Within Q) (start_binding provider sv start id w t back)
    unfolding start_binding
    start_binding-Keeps sv start id w t back =
        Keeps-bind (member_or_deny-Keeps Q (actor_administrator id) provider.bound id id) (λ m.
          Keeps-bind
            (proof_or_deny-Keeps Q sv m w t [] false (actor_administrator m.username)
              provider.bound)
            (λ _. unbound_then_started sv start m id back))

    pub complete_external_login-Keeps :
        (sv : Service) (at session csrf : ℕ) (o : Option OidcTransaction) (i : Option OidcIdentity)
        → Keeps (Within Q) (complete_external_login provider sv at session csrf o i)
    unfolding complete_external_login
    complete_external_login-Keeps sv at session csrf o i =
        Keeps-bind (some_or-Keeps (login_identity o i) (login_denied Q)) (λ person.
          Keeps-bind (Keeps-attempt lookup-Keeps) (λ r.
            Keeps-bind (matching_or-Keeps person r (login_denied Q)) (λ b.
              Keeps-bind (Keeps-attempt (member_by_id-Keeps Q b.admin_id)) (λ row.
                Keeps-bind (active_or-Keeps row (login_denied Q)) (λ m.
                  Keeps-bind (issue_session-Keeps Q sv at session csrf m provider.method) (λ issued.
                    Keeps-bind
                      (audit_event-Keeps Q (actor_member m.username) auth_login m.id
                        provider.signed_in_by)
                      (λ _. Keeps-give issued)))))))
