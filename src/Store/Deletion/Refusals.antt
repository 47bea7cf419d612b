-- ===== src/Store/Deletion/Refusals.antt =====
-- domain.go, `DeleteApplication`, `DeleteEnvironment` and `DeleteSecret`: when they refuse, and what they
-- leave.
use autosecrets.Prelude.{
  ℕ, ◌≡◌, refl, subst, Bool, true, false, ◌&&◌, List, [], ◌∷◌, Memᴰ, arith, ◌==◌, ltb, any,
  any-true, drop_if, count_if, Bool-cases, inl, inr,
}
use autosecrets.Store.Tx.{err, conflict, transact}
use autosecrets.Store.Rows.{Secret, Assignment, is_active, Db}
use autosecrets.Store.Deletion.{delete_application, delete_environment, delete_secret, is_bundle_of}

module _ {A : Type 0} where
  count_if-mem :
      (p : A → Bool) (xs : List A) {x : A} → Memᴰ x xs → p x ≡ true → ltb 0 (count_if p xs) ≡ true
  count_if-mem p [] m t = elim m [ ]
  count_if-mem p (y ∷ xs) (Memᴰ.head e) t =
      let here : p y ≡ true = subst (λ z. p z ≡ true) e t in ground (arith, here)
  count_if-mem p (y ∷ xs) (Memᴰ.tail m) t = ground (arith, count_if-mem p xs m t, Bool-cases (p y))

  pub any-drop_if :
      (p q : A → Bool) (xs : List A)
      → ((x : A) → p x ≡ true → q x ≡ true)
      → any p (drop_if q xs) ≡ false
  any-drop_if p q [] sub = refl
  any-drop_if p q (x ∷ xs) sub = elim (Bool-cases (q x)) [
    | inl hit ↦ rw hit (any-drop_if p q xs sub)
    | inr miss ↦ elim (Bool-cases (p x)) [
      | inl in_p ↦ absurd (ground (arith, sub x in_p, miss))
      | inr out ↦ rw (miss, out) (any-drop_if p q xs sub)
    ]
  ]

refused_application :
    (id : ℕ) (db : Db)
    → ltb 0 (count_if (λ a. a.application_id == id && is_active a.status) db.assignments) ≡ true
    → transact (delete_application id) db ≡ (err conflict, db)
unfolding delete_application
refused_application id db h = ground (arith, h)

refused_environment :
    (id app : ℕ) (db : Db)
    → ltb 0 (
        count_if
          (λ a. (a.application_id == app && a.environment_id == id) && is_active a.status)
          db.assignments)
      ≡ true
    → transact (delete_environment id app) db ≡ (err conflict, db)
unfolding delete_environment
refused_environment id app db h = ground (arith, h)

refused_secret :
    (id : ℕ) (db : Db)
    → ltb 0 (count_if (λ a. is_bundle_of id db a && is_active a.status) db.assignments) ≡ true
    → transact (delete_secret id) db ≡ (err conflict, db)
unfolding delete_secret
refused_secret id db h = ground (arith, h)

-- As long as a Secret Bundle has an active Assignment, deleting its Application, its Environment or any
-- Secret of it is refused with `conflict` and changes nothing.
pub assigned_bundle_protected :
    (a : Assignment) (db : Db)
    → Memᴰ a db.assignments
    → is_active a.status ≡ true
    → (transact (delete_application a.application_id) db ≡ (err conflict, db))
      × (transact (delete_environment a.environment_id a.application_id) db ≡ (err conflict, db))
      × ((s : Secret)
          → Memᴰ s db.secrets
          → s.application_id ≡ a.application_id
          → s.environment_id ≡ a.environment_id
          → transact (delete_secret s.id) db ≡ (err conflict, db))
assigned_bundle_protected a db m live = (
  refused_application a.application_id db (count_if-mem _ db.assignments m (ground arith)),
  refused_environment a.environment_id a.application_id db
      (count_if-mem _ db.assignments m (ground arith)),
  λ s there ea ee.
      let own : is_bundle_of s.id db a ≡ true = any-true _ there (ground arith) in
      refused_secret s.id db (count_if-mem _ db.assignments m (ground (arith, own, live))),
)
