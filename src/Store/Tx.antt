-- ===== src/Store/Tx.antt =====
-- Errors of core/internal/database/domain.go, and a database transaction as a state monad that can
-- fail. A statement either succeeds or is refused by a constraint of core/migrations; a lost
-- connection is not modelled.
use autosecrets.Prelude.{◌≡◌, refl, Bool, true, false, Option, none, some}

-- `ErrNotFound` to `ErrNoSecrets`; then what the driver reports: `pgx.ErrNoRows`, and the violated
-- constraints that the code tells apart by their message.
pub data Error : Type 0 where
  not_found duplicate conflict bad_payload no_secrets : Error
  no_rows unique_violation foreign_key_violation check_violation : Error

pub data Result {ℓ} (A : Type ℓ) : Type ℓ where
  ok : A → Result A
  err : Error → Result A

abbrev pub Tx : Type 0 → Type 0 → Type 0
Tx S A = S → Result (A × S)

module _ {S A : Type 0} where
  abbrev pub pure : A → Tx S A
  pure a s = ok (a, s)

  abbrev pub fail : Error → Tx S A
  fail e s = err e

  abbrev pub gets : (S → A) → Tx S A
  gets f s = ok (f s, s)

  abbrev pub or_fail : Error → Option A → Tx S A
  or_fail e none = fail e
  or_fail e (some a) = pure a

  -- A handler on the error of a statement, as in `if err != nil { return f(err) }`.
  abbrev pub map_err : (Error → Error) → Tx S A → Tx S A
  map_err f m s = elim (m s) [ ok r ↦ ok r | err e ↦ err (f e) ]

infixl 5 ◌>>=◌ ◌>>◌
abbrev pub ◌>>=◌ : {S A B : Type 0} → Tx S A → (A → Tx S B) → Tx S B
◌>>=◌ m f s = elim (m s) [ ok (a, s') ↦ f a s' | err e ↦ err e ]

abbrev pub ◌>>◌ : {S A B : Type 0} → Tx S A → Tx S B → Tx S B
m >> k = m >>= λ _. k

module _ {S : Type 0} where
  abbrev pub require : Bool → Error → Tx S (Unit {0})
  require true e s = ok (tt, s)
  require false e s = err e

  abbrev pub refuse : Bool → Error → Tx S (Unit {0})
  refuse true e s = err e
  refuse false e s = ok (tt, s)

  abbrev pub modify : (S → S) → Tx S (Unit {0})
  modify f s = ok (tt, f s)

-- `Begin`, the body, and `Commit`; `defer tx.Rollback` leaves the database as it was on an error.
abbrev pub transact : {S A : Type 0} → Tx S A → S → Result A × S
transact m s = elim (m s) [ ok (a, s') ↦ (ok a, s') | err e ↦ (err e, s) ]

-- A property that a body keeps whenever it succeeds is kept by its transaction.
pub transact-keeps :
    {S A : Type 0} (P : S → Type 0) (m : Tx S A) (s : S)
    → P s
    → ((a : A) (s' : S) → m s ≡ ok (a, s') → P s')
    → P (transact m s).1
transact-keeps {S} {A} P m s before after = by_result (m s) refl
  where
    by_result : (r : Result (A × S)) → m s ≡ r → P (transact m s).1
    by_result (ok (a, s')) e = rw (e, transact) (after a s' e)
    by_result (err x) e = rw (e, transact) before

abbrev pub map_no_rows : Error → Error
map_no_rows no_rows = not_found
map_no_rows e = e

-- `if isUniqueViolation(err) { return ErrDuplicate }`
abbrev pub map_unique : Error → Error
map_unique unique_violation = duplicate
map_unique e = e
