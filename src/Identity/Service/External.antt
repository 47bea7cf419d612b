-- ===== src/Identity/Service/External.antt =====
-- service.go: login by an external identity, its binding and its removal. The code has each of these
-- once for OpenID Connect and once for OAuth; here both are instances of one definition.
use autosecrets.Prelude.{
  ℕ, ◌+◌, Bool, true, false, ◌&&◌, Option, none, some, List, [], ◌==◌, if◌then◌else◌,
}
use autosecrets.Store.Tx.{Result, ok, err, not_found, conflict, Tx}
use autosecrets.Store.Identity.Rows.{
  Admin, AuthMethod, ExternalIdentityBinding, Purpose, purpose_login, purpose_bind, OidcTransaction,
  actor_authentication, actor_member, actor_administrator, AuditAction, auth_login, result_denied,
  result_ok, result_conflict, AuditResult, AuditEvent, IdentityDb,
}
use autosecrets.Store.Identity.{member_by_id, create_oidc_transaction, consume_oidc_transaction}
use autosecrets.Identity.Service.Flow.{
  invalid_credentials, store_error, Flow, Service, IssuedSession, oidc_transaction_ttl, give, stop,
  attempt, call, on_error, event, audit_event, deny, either_way, ◌>>=◌, ◌>>◌,
}
use autosecrets.Identity.Service.Checks.{
  reject_last_external_unbind, issue_session, proof_given, member_or_deny, active_or, proof_or_deny,
}

-- What the two copies of each use case differ in.
pub record Provider : Type 0 where
  pub lookup : Tx IdentityDb ExternalIdentityBinding
  pub bind : ExternalIdentityBinding → ℕ → AuditEvent → Tx IdentityDb (Unit {0})
  pub unbind : ℕ → ℕ → AuditEvent → Tx IdentityDb (Unit {0})
  pub bound : AuditAction
  pub unbound : AuditAction
  pub method : AuthMethod
  pub signed_in_by : AuditResult
  pub remaining_ready : Service → Bool
  pub remaining : Tx IdentityDb ExternalIdentityBinding

-- `OIDCStart`
pub record OidcStart : Type 0 where
  pub state : ℕ
  pub nonce : ℕ
  pub verifier : ℕ

-- `OIDCIdentity`, what a provider says of the person
pub record OidcIdentity : Type 0 where
  pub issuer : ℕ
  pub subject : ℕ
  pub display_name : ℕ

-- `createOIDCTransaction`
unfoldable pub start_transaction : Service → OidcStart → Purpose → Option ℕ → ℕ → Flow OidcStart
unfolding create_oidc_transaction
start_transaction sv start purpose member return_to = do
  call (
      create_oidc_transaction (sv.primitives.sha256_hex start.state) purpose member start.nonce
        start.verifier return_to (sv.now + oidc_transaction_ttl))
  give start

abbrev pub binding_or : {A : Type 0} → Flow A → Result A → Flow A
binding_or otherwise (ok a) = give a
binding_or otherwise (err _) = otherwise

-- `StartOIDCLogin` and `StartOAuthLogin`
unfoldable pub start_login : Provider → Service → OidcStart → ℕ → Flow OidcStart
unfolding audit_event start_transaction
start_login provider sv start return_to = do
  found ← attempt provider.lookup
  binding_or (deny actor_authentication auth_login 0 invalid_credentials) found
  start_transaction sv start purpose_login none return_to

-- The check that no identity is bound yet.
abbrev pub unbound_or_conflict : Provider → Admin → Result ExternalIdentityBinding → Flow (Unit {0})
unbound_or_conflict provider member (ok _) = do
  audit_event (actor_administrator member.username) provider.bound member.id result_conflict
  stop (store_error conflict)
unbound_or_conflict provider member (err not_found) = give tt
unbound_or_conflict provider member (err e) = stop (store_error e)

-- `StartOIDCBinding` and `StartOAuthBinding`
unfoldable pub start_binding :
    Provider → Service → OidcStart → ℕ → List ℕ → List ℕ → ℕ → Flow OidcStart
unfolding member_by_id proof_given audit_event start_transaction
start_binding provider sv start id password totp_code return_to = do
  member ← member_or_deny (actor_administrator id) provider.bound id id
  proof_or_deny sv member password totp_code [] false (actor_administrator member.username)
      provider.bound
  found ← attempt provider.lookup
  unbound_or_conflict provider member found
  start_transaction sv start purpose_bind (some id) return_to

-- `ConsumeOIDCTransaction`
unfoldable pub take_transaction : Service → ℕ → Flow OidcTransaction
unfolding consume_oidc_transaction
take_transaction sv state = do
  taken ← attempt (consume_oidc_transaction (sv.primitives.sha256_hex state) sv.now)
  binding_or (stop invalid_credentials) taken

abbrev pub is_login : Purpose → Bool
is_login purpose_login = true
is_login purpose_bind = false

-- `binding.Issuer == identity.Issuer && binding.Subject == identity.Subject` for a binding that was found
abbrev pub matching_or :
    Flow ExternalIdentityBinding
    → OidcIdentity
    → Result ExternalIdentityBinding
    → Flow ExternalIdentityBinding
matching_or otherwise identity (err _) = otherwise
matching_or otherwise identity (ok b) =
    either_way (b.issuer == identity.issuer && b.subject == identity.subject) (give b) otherwise

-- A transaction for a login with an identity; `none` stands for nil.
abbrev pub login_identity : Option OidcTransaction → Option OidcIdentity → Option OidcIdentity
login_identity none identity = none
login_identity (some t) identity = if is_login t.purpose then identity else none

abbrev pub some_or : {A : Type 0} → Flow A → Option A → Flow A
some_or otherwise none = otherwise
some_or otherwise (some a) = give a

-- `CompleteOIDCLogin` and `CompleteOAuthLogin`
unfoldable pub complete_external_login :
    Provider
    → Service
    → ℕ
    → ℕ
    → ℕ
    → Option OidcTransaction
    → Option OidcIdentity
    → Flow IssuedSession
unfolding member_by_id audit_event issue_session
complete_external_login provider sv at session csrf transaction identity = do
  person ←
      some_or (deny actor_authentication auth_login 0 invalid_credentials)
        (login_identity transaction identity)
  found ← attempt provider.lookup
  binding ← matching_or (deny actor_authentication auth_login 0 invalid_credentials) person found
  row ← attempt (member_by_id binding.admin_id)
  member ← active_or (deny actor_authentication auth_login 0 invalid_credentials) row
  issued ← issue_session sv at session csrf member provider.method
  audit_event (actor_member member.username) auth_login member.id provider.signed_in_by
  give issued

-- A transaction for a binding with its member and an identity.
abbrev pub with_member : Option ℕ → Option OidcIdentity → Option (ℕ × OidcIdentity)
with_member (some id) (some identity) = some (id, identity)
with_member _ _ = none

abbrev pub bind_identity : Option OidcTransaction → Option OidcIdentity → Option (ℕ × OidcIdentity)
bind_identity none identity = none
bind_identity (some t) identity =
    if is_login t.purpose then none else with_member t.admin_id identity

-- `CompleteOIDCBinding` and `CompleteOAuthBinding`
unfoldable pub complete_binding :
    Provider → Service → Option OidcTransaction → Option OidcIdentity → ℕ → Flow (Unit {0})
unfolding member_by_id audit_event
complete_binding provider sv transaction identity current = do
  person ←
      some_or (deny actor_authentication provider.bound 0 invalid_credentials)
        (bind_identity transaction identity)
  row ← attempt (member_by_id person.0)
  member ←
      active_or (deny (actor_administrator person.0) provider.bound person.0 invalid_credentials)
        row
  call (
      provider.bind
        (record {
          admin_id = person.0;
          issuer = person.1.issuer;
          subject = person.1.subject;
          display_name = person.1.display_name;
        })
        current (event (actor_administrator member.username) provider.bound member.id result_ok))

-- `UnbindOIDC` and `UnbindOAuth`
unfoldable pub unbind_provider : Provider → Service → ℕ → ℕ → List ℕ → List ℕ → Flow (Unit {0})
unfolding member_by_id proof_given audit_event reject_last_external_unbind
unbind_provider provider sv id current password totp_code = do
  member ← member_or_deny (actor_administrator id) provider.unbound id id
  proof_or_deny sv member password totp_code [] false (actor_administrator member.username)
      provider.unbound
  found ← attempt provider.lookup
  binding_or
      (deny (actor_administrator member.username) provider.unbound member.id
        (store_error not_found))
      found
  on_error (reject_last_external_unbind (provider.remaining_ready sv) provider.remaining)
      (audit_event (actor_administrator member.username) provider.unbound member.id result_denied)
  call (
      provider.unbind id current
        (event (actor_administrator member.username) provider.unbound member.id result_ok))

-- `auditExternalCallbackDenied`
unfoldable pub audit_callback_denied : Provider → Purpose → ℕ → Flow (Unit {0})
unfolding audit_event
audit_callback_denied provider purpose_login id =
    audit_event actor_authentication auth_login id result_denied
audit_callback_denied provider purpose_bind id =
    audit_event (actor_administrator id) provider.bound id result_denied
