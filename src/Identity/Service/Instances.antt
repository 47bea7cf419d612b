-- ===== src/Identity/Service/Instances.antt =====
-- service.go: the use cases of external identities, for OpenID Connect and for OAuth.
use autosecrets.Prelude.{ℕ, Option, List}
use autosecrets.Store.Identity.Rows.{
  oidc, oauth, OidcTransaction, administrator_oidc_bound, administrator_oidc_unbound,
  administrator_oauth_bound, administrator_oauth_unbound, result_oidc, result_oauth,
}
use autosecrets.Store.Identity.{
  external_identity_binding, oauth_identity_binding, bind_external_identity, bind_oauth_identity,
  unbind_external_identity, unbind_oauth_identity,
}
use autosecrets.Identity.Service.Flow.{Flow, Service, IssuedSession}
use autosecrets.Identity.Service.External.{
  Provider, OidcStart, OidcIdentity, start_login, start_binding, complete_external_login,
  complete_binding, unbind_provider,
}

unfoldable pub oidc_provider : Provider
unfolding external_identity_binding oauth_identity_binding bind_external_identity
    unbind_external_identity
oidc_provider = record {
  lookup = external_identity_binding;
  bind = bind_external_identity;
  unbind = unbind_external_identity;
  bound = administrator_oidc_bound;
  unbound = administrator_oidc_unbound;
  method = oidc;
  signed_in_by = result_oidc;
  remaining_ready = λ sv. sv.oauth_ready;
  remaining = oauth_identity_binding;
}

unfoldable pub oauth_provider : Provider
unfolding external_identity_binding oauth_identity_binding bind_oauth_identity unbind_oauth_identity
oauth_provider = record {
  lookup = oauth_identity_binding;
  bind = bind_oauth_identity;
  unbind = unbind_oauth_identity;
  bound = administrator_oauth_bound;
  unbound = administrator_oauth_unbound;
  method = oauth;
  signed_in_by = result_oauth;
  remaining_ready = λ sv. sv.oidc_ready;
  remaining = external_identity_binding;
}

unfoldable pub start_oidc_login : Service → OidcStart → ℕ → Flow OidcStart
unfolding start_login oidc_provider
start_oidc_login = start_login oidc_provider

unfoldable pub start_oauth_login : Service → OidcStart → ℕ → Flow OidcStart
unfolding start_login oauth_provider
start_oauth_login = start_login oauth_provider

unfoldable pub start_oidc_binding : Service → OidcStart → ℕ → List ℕ → List ℕ → ℕ → Flow OidcStart
unfolding start_binding oidc_provider
start_oidc_binding = start_binding oidc_provider

unfoldable pub start_oauth_binding : Service → OidcStart → ℕ → List ℕ → List ℕ → ℕ → Flow OidcStart
unfolding start_binding oauth_provider
start_oauth_binding = start_binding oauth_provider

unfoldable pub complete_oidc_login :
    Service → ℕ → ℕ → ℕ → Option OidcTransaction → Option OidcIdentity → Flow IssuedSession
unfolding complete_external_login oidc_provider
complete_oidc_login = complete_external_login oidc_provider

unfoldable pub complete_oauth_login :
    Service → ℕ → ℕ → ℕ → Option OidcTransaction → Option OidcIdentity → Flow IssuedSession
unfolding complete_external_login oauth_provider
complete_oauth_login = complete_external_login oauth_provider

unfoldable pub complete_oidc_binding :
    Service → Option OidcTransaction → Option OidcIdentity → ℕ → Flow (Unit {0})
unfolding complete_binding oidc_provider
complete_oidc_binding = complete_binding oidc_provider

unfoldable pub complete_oauth_binding :
    Service → Option OidcTransaction → Option OidcIdentity → ℕ → Flow (Unit {0})
unfolding complete_binding oauth_provider
complete_oauth_binding = complete_binding oauth_provider

unfoldable pub unbind_oidc : Service → ℕ → ℕ → List ℕ → List ℕ → Flow (Unit {0})
unfolding unbind_provider oidc_provider
unbind_oidc = unbind_provider oidc_provider

unfoldable pub unbind_oauth : Service → ℕ → ℕ → List ℕ → List ℕ → Flow (Unit {0})
unfolding unbind_provider oauth_provider
unbind_oauth = unbind_provider oauth_provider
