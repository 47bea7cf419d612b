-- ===== src/Identity/Service/Flow.antt =====
-- service.go: the errors of the domain and the way its use cases run. A call of the repository is one
-- transaction of its own, so what was written before an error stays written.
use autosecrets.Prelude.{ℕ, ◌*◌, ◌^◌, Bool, true, false, List}
use autosecrets.Store.Tx.{Error, Result, ok, err, Tx, transact}
use autosecrets.Store.Identity.Rows.{
  Role, Actor, AuditAction, AuditResult, result_denied, AuditEvent, IdentityDb,
}
use autosecrets.Store.Identity.{record_audit}
use autosecrets.Crypto.Primitives.{Primitives}

-- The errors of the domain, one for a failing cipher, and those of the store.
pub data ServiceError : Type 0 where
  invalid_credentials already_enrolled enrollment_not_pending challenge_expired : ServiceError
  password_login_disabled external_login_required last_external_login : ServiceError
  seal_failed : ServiceError
  store_error : Error → ServiceError

pub data Outcome (A : Type 0) : Type 0 where
  done : A → Outcome A
  stopped : ServiceError → Outcome A

abbrev pub Flow : Type 0 → Type 0
Flow A = IdentityDb → Outcome A × IdentityDb

-- `Service`, with the reading of its clock in nanoseconds, and the key behind its `SecretCipher`.
pub record Service : Type 0 where
  pub primitives : Primitives
  pub master_key : List ℕ
  pub oidc_ready : Bool
  pub oauth_ready : Bool
  pub now : ℕ

-- `Session`
pub record IssuedSession : Type 0 where
  pub id : ℕ
  pub csrf_token : ℕ
  pub username : ℕ
  pub member_id : ℕ
  pub role : Role
  pub expires_at : ℕ

abbrev pub minutes : ℕ → ℕ
minutes n = n * 60 * 10 ^ 9

abbrev pub mfa_enrollment_ttl : ℕ
mfa_enrollment_ttl = minutes 30

abbrev pub login_challenge_ttl : ℕ
login_challenge_ttl = minutes 5

abbrev pub oidc_transaction_ttl : ℕ
oidc_transaction_ttl = minutes 5

abbrev pub step_up_ttl : ℕ
step_up_ttl = minutes 10

abbrev pub session_absolute_ttl : ℕ
session_absolute_ttl = minutes 720

abbrev pub session_idle_ttl : ℕ
session_idle_ttl = minutes 30

module _ {A : Type 0} where
  abbrev pub give : A → Flow A
  give a s = (done a, s)

  abbrev pub stop : ServiceError → Flow A
  stop e s = (stopped e, s)

  -- A call of the repository whose error the code looks at.
  abbrev pub attempt : Tx IdentityDb A → Flow (Result A)
  attempt m s = (done (transact m s).0, (transact m s).1)

  abbrev pub or_store_error : Result A → Flow A
  or_store_error (ok a) = give a
  or_store_error (err e) = stop (store_error e)

infixl 5 ◌>>=◌ ◌>>◌
abbrev pub ◌>>=◌ : {A B : Type 0} → Flow A → (A → Flow B) → Flow B
◌>>=◌ m f s = elim (m s).0 [ done a ↦ f a (m s).1 | stopped e ↦ (stopped e, (m s).1) ]

abbrev pub ◌>>◌ : {A B : Type 0} → Flow A → Flow B → Flow B
m >> k = m >>= λ _. k

-- A call of the repository with `if err != nil { return err }`.
abbrev pub call : {A : Type 0} → Tx IdentityDb A → Flow A
call m = attempt m >>= or_store_error

abbrev pub unless : Bool → Flow (Unit {0}) → Flow (Unit {0})
unless true k = give tt
unless false k = k

-- `if err := m; err != nil { k; return err }`
abbrev pub on_error : Flow (Unit {0}) → Flow (Unit {0}) → Flow (Unit {0})
on_error m k s = elim (m s).0 [
  | done a ↦ (done a, (m s).1)
  | stopped e ↦ (stopped e, (k (m s).1).1)
]

abbrev pub event : Actor → AuditAction → ℕ → AuditResult → AuditEvent
event actor action resource result = record {
  actor = actor;
  action = action;
  resource = resource;
  result = result;
}

-- `auditEvent`, whose own error is ignored
unfoldable pub audit_event : Actor → AuditAction → ℕ → AuditResult → Flow (Unit {0})
unfolding record_audit
audit_event actor action resource result =
    attempt (record_audit (event actor action resource result)) >> give tt

-- A denied request: the Audit Event, then the error.
abbrev pub deny : {A : Type 0} → Actor → AuditAction → ℕ → ServiceError → Flow A
deny actor action resource e = audit_event actor action resource result_denied >> stop e

-- The one of two ways on that a test decides.
abbrev pub either_way : {A : Type 0} → Bool → Flow A → Flow A → Flow A
either_way true first second = first
either_way false first second = second
