-- ===== src/Identity/Service/Keeps.antt =====
-- service.go and identity.go: what a run leaves true, by the parts of the run.
use autosecrets.Prelude.{◌≡◌, refl, subst, arith, Bool, true, false, Option, none, some}
use autosecrets.Store.Tx.{
  Error, Result, ok, err, Tx, transact, transact-keeps, pure, fail, gets, or_fail, map_err, require,
  refuse, modify,
}
use autosecrets.Store.Tx
use autosecrets.Store.Identity.Rows.{IdentityDb}
use autosecrets.Identity.Service.Flow.{
  ServiceError, Outcome, done, stopped, Flow, give, stop, attempt, call, unless, on_error,
  either_way, or_store_error, ◌>>=◌, store_error,
}

-- A run that gives an answer is one of both parts.
pub bind_done :
    {A B : Type 0} (m : Flow A) (f : A → Flow B) (s s' : IdentityDb) (b : B)
    → (m >>= f) s ≡ (done b, s')
    → (a : A) × ((m s).0 ≡ done a) × (f a (m s).1 ≡ (done b, s'))
bind_done {A} m f s s' b h = by_outcome (m s).0 refl
  where
    by_outcome :
        (o : Outcome A) → (m s).0 ≡ o → (a : A) × ((m s).0 ≡ done a) × (f a (m s).1 ≡ (done b, s'))
    by_outcome (done a) e = (a, e, ground (arith, e, h))
    by_outcome (stopped x) e = absurd (ground (arith, e, h))

module _ (P : IdentityDb → Type 0) where
  pub record TxKeeps {A : Type 0} (m : Tx IdentityDb A) : Type 0 where
    pub on_ok : (s : IdentityDb) (a : A) (s' : IdentityDb) → m s ≡ ok (a, s') → P s → P s'

  pub record Keeps {A : Type 0} (m : Flow A) : Type 0 where
    pub kept : (s : IdentityDb) → P s → P (m s).1

  -- What holds of a transaction's outcome `r`.
  abbrev OutcomeOf : {A : Type 0} → Result (A × IdentityDb) → Type 0
  OutcomeOf (ok r) = P r.1
  OutcomeOf (err e) = Unit

module _ {P : IdentityDb → Type 0} where
  tx_by_outcome :
      {A : Type 0} {m : Tx IdentityDb A}
      → ((s : IdentityDb) → P s → OutcomeOf P (m s))
      → TxKeeps P m
  tx_by_outcome k = record { on_ok = λ s a s' e h. subst (λ r. OutcomeOf P r) e (k s h) }

  outcome :
      {A : Type 0} {m : Tx IdentityDb A} → TxKeeps P m → (s : IdentityDb) → P s → OutcomeOf P (m s)
  outcome {A} {m} k s h = by_result (m s) refl
    where
      by_result : (r : Result (A × IdentityDb)) → m s ≡ r → OutcomeOf P r
      by_result (ok (a, s')) e = k.on_ok s a s' e h
      by_result (err x) e = tt

  pub tx_pure : {A : Type 0} (a : A) → TxKeeps P (pure a)
  tx_pure a = tx_by_outcome (λ s h. h)

  pub tx_gets : {A : Type 0} (f : IdentityDb → A) → TxKeeps P (gets f)
  tx_gets f = tx_by_outcome (λ s h. h)

  pub tx_require : (b : Bool) (e : Error) → TxKeeps P (require b e)
  tx_require true e = tx_by_outcome (λ s h. h)
  tx_require false e = tx_by_outcome (λ s h. tt)

  pub tx_refuse : (b : Bool) (e : Error) → TxKeeps P (refuse b e)
  tx_refuse true e = tx_by_outcome (λ s h. tt)
  tx_refuse false e = tx_by_outcome (λ s h. h)

  pub tx_or_fail : {A : Type 0} (e : Error) (o : Option A) → TxKeeps P (or_fail e o)
  tx_or_fail e none = tx_by_outcome (λ s h. tt)
  tx_or_fail e (some a) = tx_by_outcome (λ s h. h)

  pub tx_modify :
      {f : IdentityDb → IdentityDb} → ((s : IdentityDb) → P s → P (f s)) → TxKeeps P (modify f)
  tx_modify k = tx_by_outcome k

  pub tx_map_err :
      {A : Type 0} (f : Error → Error) {m : Tx IdentityDb A} → TxKeeps P m → TxKeeps P (map_err f m)
  tx_map_err {A} f {m} k = tx_by_outcome (λ s h. by_result s (m s) (outcome k s h))
    where
      by_result :
          (s : IdentityDb) (r : Result (A × IdentityDb))
          → OutcomeOf P r
          → OutcomeOf P (elim r [ ok x ↦ ok x | err e ↦ err (f e) ])
      by_result s (ok x) h = h
      by_result s (err e) h = tt

  pub tx_bind :
      {A B : Type 0} {m : Tx IdentityDb A} {f : A → Tx IdentityDb B}
      → TxKeeps P m
      → ((a : A) → TxKeeps P (f a))
      → TxKeeps P (Tx.◌>>=◌ m f)
  tx_bind {A} {B} {m} {f} km kf = tx_by_outcome (λ s h. by_result (m s) (outcome km s h))
    where
      by_result :
          (r : Result (A × IdentityDb))
          → OutcomeOf P r
          → OutcomeOf P (elim r [ ok (a, s') ↦ f a s' | err e ↦ err e ])
      by_result (ok (a, s')) h = outcome (kf a) s' h
      by_result (err e) h = tt

  pub Keeps-give : {A : Type 0} (a : A) → Keeps P (give a)
  Keeps-give a = record { kept = λ s h. h }

  pub Keeps-stop : {A : Type 0} (e : ServiceError) → Keeps P (stop {A = A} e)
  Keeps-stop e = record { kept = λ s h. h }

  pub Keeps-bind :
      {A B : Type 0} {m : Flow A} {f : A → Flow B}
      → Keeps P m
      → ((a : A) → Keeps P (f a))
      → Keeps P (m >>= f)
  Keeps-bind {A} {B} {m} {f} km kf = record { kept = λ s h. by_outcome s (m s).0 refl h }
    where
      by_outcome : (s : IdentityDb) (o : Outcome A) → (m s).0 ≡ o → P s → P ((m >>= f) s).1
      by_outcome s (done a) e h = rw (e, ◌>>=◌) ((kf a).kept (m s).1 (km.kept s h))
      by_outcome s (stopped x) e h = rw (e, ◌>>=◌) (km.kept s h)

  pub Keeps-attempt : {A : Type 0} {m : Tx IdentityDb A} → TxKeeps P m → Keeps P (attempt m)
  Keeps-attempt {A} {m} k = record {
    kept = λ s h. transact-keeps P m s h (λ a s' e. k.on_ok s a s' e h);
  }

  pub Keeps-or_store_error : {A : Type 0} (r : Result A) → Keeps P (or_store_error r)
  Keeps-or_store_error (ok a) = Keeps-give a
  Keeps-or_store_error (err e) = Keeps-stop (store_error e)

  pub Keeps-call : {A : Type 0} {m : Tx IdentityDb A} → TxKeeps P m → Keeps P (call m)
  Keeps-call k = Keeps-bind (Keeps-attempt k) Keeps-or_store_error

  pub call_kept :
      {A : Type 0} (m : Tx IdentityDb A) (s : IdentityDb)
      → P s
      → ((a : A) (s' : IdentityDb) → m s ≡ ok (a, s') → P s')
      → P (call m s).1
  call_kept m s h after =
      (Keeps-or_store_error (transact m s).0).kept (transact m s).1 (transact-keeps P m s h after)

  -- What a first part guarantees when it does not stop is there for the second part.
  pub Keeps-guarded :
      {A B : Type 0} (R : IdentityDb → Type 0) (m : Flow A) (f : A → Flow B)
      → Keeps P m
      → ((s : IdentityDb) (a : A) → (m s).0 ≡ done a → R (m s).1)
      → ((a : A) (s : IdentityDb) → R s → P s → P (f a s).1)
      → Keeps P (m >>= f)
  Keeps-guarded {A} {B} R m f km guard kf = record { kept = λ s h. by_outcome s (m s).0 refl h }
    where
      by_outcome : (s : IdentityDb) (o : Outcome A) → (m s).0 ≡ o → P s → P ((m >>= f) s).1
      by_outcome s (done a) e h = rw (e, ◌>>=◌) (kf a (m s).1 (guard s a e) (km.kept s h))
      by_outcome s (stopped x) e h = rw (e, ◌>>=◌) (km.kept s h)

  pub Keeps-either :
      {A : Type 0} {m k : Flow A} (b : Bool) → Keeps P m → Keeps P k → Keeps P (either_way b m k)
  Keeps-either true km kk = km
  Keeps-either false km kk = kk

  pub Keeps-unless : {k : Flow (Unit {0})} (b : Bool) → Keeps P k → Keeps P (unless b k)
  Keeps-unless true kk = Keeps-give tt
  Keeps-unless false kk = kk

  pub Keeps-on_error : {m k : Flow (Unit {0})} → Keeps P m → Keeps P k → Keeps P (on_error m k)
  Keeps-on_error {m} {k} km kk = record { kept = λ s h. by_outcome s (m s).0 refl h }
    where
      by_outcome :
          (s : IdentityDb) (o : Outcome (Unit {0})) → (m s).0 ≡ o → P s → P (on_error m k s).1
      by_outcome s (done a) e h = rw (e, on_error) (km.kept s h)
      by_outcome s (stopped x) e h = rw (e, on_error) (kk.kept (m s).1 (km.kept s h))

pub ruleset tx_rules =
    (tx_bind, tx_pure, tx_gets, tx_require, tx_refuse, tx_or_fail, tx_map_err, tx_modify)

pub ruleset flow_rules = (
  Keeps-bind, Keeps-call, Keeps-attempt, Keeps-give, Keeps-stop, Keeps-either, Keeps-unless,
  Keeps-on_error,
)
