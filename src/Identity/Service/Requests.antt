-- ===== src/Identity/Service/Requests.antt =====
-- service.go: runs of requests to the service.
use autosecrets.Prelude.{ℕ, Bool, Option, List, [], ◌∷◌}
use autosecrets.Store.Identity.Rows.{OidcTransaction, IdentityDb}
use autosecrets.Identity.Service.Flow.{Service}
use autosecrets.Identity.Service.Logins.{
  bootstrap, login, complete_login, renew_session, step_up, logout,
}
use autosecrets.Identity.Service.Enrollment.{
  SealRandom, start_totp_enrollment, verify_mfa_enrollment, confirm_enrollment,
  disable_second_factor,
}
use autosecrets.Identity.Service.Account.{
  change_member_password, change_member_username, switch_password_login,
}
use autosecrets.Identity.Service.External.{OidcStart, OidcIdentity, take_transaction}
use autosecrets.Identity.Service.Instances.{
  start_oidc_login, start_oauth_login, start_oidc_binding, start_oauth_binding, complete_oidc_login,
  complete_oauth_login, complete_oidc_binding, complete_oauth_binding, unbind_oidc, unbind_oauth,
}

-- A request, with the values that the random source, the clock of the database server and the client supply.
pub data Request : Type 0 where
  bootstraps :
      (at id : ℕ)
      → (salt : List ℕ) → (session csrf code : ℕ) → (organization username password : List ℕ)
      → Request
  logs_in : (at session csrf challenge : ℕ) → (username password : List ℕ) → (source : ℕ) → Request
  completes_login : (at session csrf challenge source : ℕ) → (totp recovery : List ℕ) → Request
  renews : (at session csrf old id : ℕ) → (password totp recovery : List ℕ) → Request
  steps_up : (session id : ℕ) → (password totp recovery : List ℕ) → Request
  logs_out : (session id username : ℕ) → Request
  starts_enrollment :
      (secret : List ℕ) → (random : SealRandom) → (token id : ℕ) → (password : List ℕ) → Request
  verifies : (random : List (List ℕ)) → (confirmation token : ℕ) → (totp : List ℕ) → Request
  confirms : (id current confirmation : ℕ) → Request
  disables_totp : (id current : ℕ) → (password totp : List ℕ) → Request
  changes_password :
      (at : ℕ) → (salt : List ℕ) → (session csrf id : ℕ) → (password new totp : List ℕ) → Request
  changes_username : (at session csrf id : ℕ) → (username password totp : List ℕ) → Request
  switches_password_login : (id current : ℕ) → (password totp : List ℕ) → (enabled : Bool) → Request
  starts_oidc_login : (start : OidcStart) → (back : ℕ) → Request
  starts_oauth_login : (start : OidcStart) → (back : ℕ) → Request
  starts_oidc_binding :
      (start : OidcStart) → (id : ℕ) → (password totp : List ℕ) → (back : ℕ) → Request
  starts_oauth_binding :
      (start : OidcStart) → (id : ℕ) → (password totp : List ℕ) → (back : ℕ) → Request
  takes_transaction : (state : ℕ) → Request
  completes_oidc_login :
      (at session csrf : ℕ)
      → (transaction : Option OidcTransaction) → (identity : Option OidcIdentity) → Request
  completes_oauth_login :
      (at session csrf : ℕ)
      → (transaction : Option OidcTransaction) → (identity : Option OidcIdentity) → Request
  completes_oidc_binding :
      (transaction : Option OidcTransaction)
      → (identity : Option OidcIdentity) → (current : ℕ) → Request
  completes_oauth_binding :
      (transaction : Option OidcTransaction)
      → (identity : Option OidcIdentity) → (current : ℕ) → Request
  unbinds_oidc : (id current : ℕ) → (password totp : List ℕ) → Request
  unbinds_oauth : (id current : ℕ) → (password totp : List ℕ) → Request

-- What a request leaves in the database.
abbrev pub apply : Service → Request → IdentityDb → IdentityDb
apply sv (bootstraps at id salt session csrf code organization username password) s =
    (bootstrap sv at id salt session csrf code organization username password s).1
apply sv (logs_in at session csrf challenge username password source) s =
    (login sv at session csrf challenge username password source s).1
apply sv (completes_login at session csrf challenge source totp recovery) s =
    (complete_login sv at session csrf challenge source totp recovery s).1
apply sv (renews at session csrf old id password totp recovery) s =
    (renew_session sv at session csrf old id password totp recovery s).1
apply sv (steps_up session id password totp recovery) s =
    (step_up sv session id password totp recovery s).1
apply sv (logs_out session id username) s = (logout session id username s).1
apply sv (starts_enrollment secret random token id password) s =
    (start_totp_enrollment sv secret random token id password s).1
apply sv (verifies random confirmation token totp) s =
    (verify_mfa_enrollment sv random confirmation token totp s).1
apply sv (confirms id current confirmation) s = (confirm_enrollment sv id current confirmation s).1
apply sv (disables_totp id current password totp) s =
    (disable_second_factor sv id current password totp s).1
apply sv (changes_password at salt session csrf id password new totp) s =
    (change_member_password sv at salt session csrf id password new totp s).1
apply sv (changes_username at session csrf id username password totp) s =
    (change_member_username sv at session csrf id username password totp s).1
apply sv (switches_password_login id current password totp enabled) s =
    (switch_password_login sv id current password totp enabled s).1
apply sv (starts_oidc_login start back) s = (start_oidc_login sv start back s).1
apply sv (starts_oauth_login start back) s = (start_oauth_login sv start back s).1
apply sv (starts_oidc_binding start id password totp back) s =
    (start_oidc_binding sv start id password totp back s).1
apply sv (starts_oauth_binding start id password totp back) s =
    (start_oauth_binding sv start id password totp back s).1
apply sv (takes_transaction state) s = (take_transaction sv state s).1
apply sv (completes_oidc_login at session csrf transaction identity) s =
    (complete_oidc_login sv at session csrf transaction identity s).1
apply sv (completes_oauth_login at session csrf transaction identity) s =
    (complete_oauth_login sv at session csrf transaction identity s).1
apply sv (completes_oidc_binding transaction identity current) s =
    (complete_oidc_binding sv transaction identity current s).1
apply sv (completes_oauth_binding transaction identity current) s =
    (complete_oauth_binding sv transaction identity current s).1
apply sv (unbinds_oidc id current password totp) s = (unbind_oidc sv id current password totp s).1
apply sv (unbinds_oauth id current password totp) s = (unbind_oauth sv id current password totp s).1

-- Requests at their times: the readiness of the providers is set when the program starts.
abbrev pub apply_all : Service → List (ℕ × Request) → IdentityDb → IdentityDb
apply_all sv [] s = s
apply_all sv ((now, request) ∷ requests) s =
    apply_all sv requests (apply (record sv { now = now }) request s)
