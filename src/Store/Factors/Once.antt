-- ===== src/Store/Factors/Once.antt =====
-- identity.go, `UseTOTP` and `ConsumeRecoveryCode`: runs of the operations on one-time proofs.
use autosecrets.Prelude.{
  ℕ, ◌≤◌, ◌<◌, ◌≡◌, ◌↔◌, refl, ap, Bool, true, false, Option, none, ◌++◌, ◌==◌, some, List, [], ◌∷◌,
  arith, if◌then◌else◌, any, update_if, count_if, Bool-cases, Option-cases, inl, inr,
}
use autosecrets.Store.Tx.{ok, transact, transact-keeps}
use autosecrets.Store.Identity.Rows.{Admin, RecoveryCode, IdentityDb}
use autosecrets.Store.Factors.{
  accepts_counter, is_below, is_unused_code, use_totp, consume_recovery_code,
  create_login_challenge, consume_login_challenge, delete_expired_login_challenges,
  insert_login_challenge,
}

pub data FactorOp : Type 0 where
  uses_totp : ℕ → ℕ → FactorOp
  consumes_code : ℕ → ℕ → ℕ → FactorOp
  challenges : ℕ → ℕ → ℕ → ℕ → ℕ → FactorOp
  answers : ℕ → ℕ → ℕ → FactorOp

abbrev pub apply_factor : FactorOp → IdentityDb → IdentityDb
apply_factor (uses_totp member counter) s = (transact (use_totp member counter) s).1
apply_factor (consumes_code member hash now) s =
    (transact (consume_recovery_code member hash now) s).1
apply_factor (challenges now hash member source until) s =
    (create_login_challenge now hash member source until s).1
apply_factor (answers hash source now) s = (transact (consume_login_challenge hash source now) s).1

abbrev pub apply_factors : List FactorOp → IdentityDb → IdentityDb
apply_factors [] s = s
apply_factors (op ∷ ops) s = apply_factors ops (apply_factor op s)

none_below-update :
    (member counter other c : ℕ) (rows : List Admin)
    → any (accepts_counter member counter) rows ≡ false
    → any
        (accepts_counter member counter)
        (update_if (accepts_counter other c) (λ a. record a { last_totp_counter = some c }) rows)
      ≡ false
none_below-update member counter other c [] h = refl
none_below-update member counter other c (a ∷ rows) h =
    ground
      (arith, h, none_below-update member counter other c rows, Option-cases a.last_totp_counter)

none_below-used :
    (member counter : ℕ) (rows : List Admin)
    → any (accepts_counter member counter) (
        update_if
          (accepts_counter member counter)
          (λ a. record a { last_totp_counter = some counter })
          rows)
      ≡ false
none_below-used member counter [] = refl
none_below-used member counter (a ∷ rows) = ground (arith, none_below-used member counter rows)

none_below-less :
    (member counter less : ℕ) (rows : List Admin)
    → less ≤ counter
    → any (accepts_counter member counter) rows ≡ false
    → (count_if (accepts_counter member less) rows ≡ 0)
      × (update_if
            (accepts_counter member less)
            (λ a. record a { last_totp_counter = some less })
            rows
          ≡ rows)
none_below-less member counter less [] le h = (refl, refl)
none_below-less member counter less (a ∷ rows) le h =
    let rest = none_below-less member counter less rows le (ground (arith, h)) in
    let out : accepts_counter member less a ≡ false =
      ground (arith, h, Option-cases a.last_totp_counter) in
    (rw (out, rest.0), rw (out) (ap (λ t. a ∷ t) rest.1))

apply_factor-counter :
    (member counter : ℕ) (op : FactorOp) (s : IdentityDb)
    → any (accepts_counter member counter) s.admins ≡ false
    → any (accepts_counter member counter) (apply_factor op s).admins ≡ false
unfolding use_totp consume_recovery_code create_login_challenge consume_login_challenge
    delete_expired_login_challenges insert_login_challenge
apply_factor-counter member counter (uses_totp other c) s h =
    none_below-update member counter other c s.admins h
apply_factor-counter member counter (consumes_code other hash now) s h = h
apply_factor-counter member counter (challenges now hash other source until) s h =
    transact-keeps (λ t. any (accepts_counter member counter) t.admins ≡ false)
      (insert_login_challenge _) (transact (delete_expired_login_challenges now) s).1 h
      (λ a s' e. ground (arith, h, e))
apply_factor-counter member counter (answers hash source now) s h =
    transact-keeps (λ t. any (accepts_counter member counter) t.admins ≡ false)
      (consume_login_challenge hash source now) s h (λ a s' e. ground (arith, h, e))

-- A property of the tables that every operation keeps holds after any sequence of them.
kept_by_all :
    (P : IdentityDb → Type 0)
    → ((op : FactorOp) (s : IdentityDb) → P s → P (apply_factor op s))
    → (ops : List FactorOp) (s : IdentityDb) → P s
    → P (apply_factors ops s)
kept_by_all P keep [] s h = h
kept_by_all P keep (op ∷ ops) s h = kept_by_all P keep ops (apply_factor op s) (keep op s h)

refused_counter :
    (member counter less : ℕ) (s : IdentityDb)
    → less ≤ counter
    → any (accepts_counter member counter) s.admins ≡ false
    → transact (use_totp member less) s ≡ (ok false, s)
unfolding use_totp
refused_counter member counter less s le h =
    let (zero_rows, same) = none_below-less member counter less s.admins le h in
    rw (zero_rows, same)

-- Once a TOTP counter was offered for a member, neither it nor an earlier one is accepted again,
-- whatever was offered and consumed since: the answer is false and nothing changes.
pub totp_once :
    (member counter less : ℕ) (ops : List FactorOp) (s : IdentityDb)
    → less ≤ counter
    → transact (use_totp member less) (apply_factors (uses_totp member counter ∷ ops) s)
      ≡ (ok false, apply_factors (uses_totp member counter ∷ ops) s)
unfolding use_totp
totp_once member counter less ops s le =
    refused_counter member counter less (apply_factors (uses_totp member counter ∷ ops) s) le (
      kept_by_all (λ t. any (accepts_counter member counter) t.admins ≡ false)
        (apply_factor-counter member counter) ops (apply_factor (uses_totp member counter) s)
        (none_below-used member counter s.admins))

none_unused-update :
    (member hash other code now : ℕ) (rows : List RecoveryCode)
    → any (is_unused_code member hash) rows ≡ false
    → any
        (is_unused_code member hash)
        (update_if (is_unused_code other code) (λ c. record c { used_at = some now }) rows)
      ≡ false
none_unused-update member hash other code now [] h = refl
none_unused-update member hash other code now (c ∷ rows) h =
    ground (arith, h, none_unused-update member hash other code now rows)

none_unused-used :
    (member hash now : ℕ) (rows : List RecoveryCode)
    → any
        (is_unused_code member hash)
        (update_if (is_unused_code member hash) (λ c. record c { used_at = some now }) rows)
      ≡ false
none_unused-used member hash now [] = refl
none_unused-used member hash now (c ∷ rows) = ground (arith, none_unused-used member hash now rows)

none_counted :
    {A : Type 0} (p : A → Bool) (f : A → A) (rows : List A)
    → any p rows ≡ false
    → (count_if p rows ≡ 0) × (update_if p f rows ≡ rows)
none_counted p f [] h = (refl, refl)
none_counted p f (x ∷ rows) h =
    let rest = none_counted p f rows (ground (arith, h)) in
    let out : p x ≡ false = ground (arith, h) in
    (rw (out, rest.0), rw (out) (ap (λ t. x ∷ t) rest.1))

apply_factor-code :
    (member hash : ℕ) (op : FactorOp) (s : IdentityDb)
    → any (is_unused_code member hash) s.recovery_codes ≡ false
    → any (is_unused_code member hash) (apply_factor op s).recovery_codes ≡ false
unfolding use_totp consume_recovery_code create_login_challenge consume_login_challenge
    delete_expired_login_challenges insert_login_challenge
apply_factor-code member hash (uses_totp other c) s h = h
apply_factor-code member hash (consumes_code other code now) s h =
    none_unused-update member hash other code now s.recovery_codes h
apply_factor-code member hash (challenges now token other source until) s h =
    transact-keeps (λ t. any (is_unused_code member hash) t.recovery_codes ≡ false)
      (insert_login_challenge _) (transact (delete_expired_login_challenges now) s).1 h
      (λ a s' e. ground (arith, h, e))
apply_factor-code member hash (answers token source now) s h =
    transact-keeps (λ t. any (is_unused_code member hash) t.recovery_codes ≡ false)
      (consume_login_challenge token source now) s h (λ a s' e. ground (arith, h, e))

refused_code :
    (member hash now : ℕ) (s : IdentityDb)
    → any (is_unused_code member hash) s.recovery_codes ≡ false
    → transact (consume_recovery_code member hash now) s ≡ (ok false, s)
unfolding consume_recovery_code
refused_code member hash now s h =
    let (zero_rows, same) =
      none_counted (is_unused_code member hash) (λ c. record c { used_at = some now })
        s.recovery_codes h in
    rw (zero_rows, same)

-- A recovery code that a member has entered is not accepted again, whatever was offered and consumed
-- since: the answer is false and nothing changes.
pub recovery_code_once :
    (member hash now later : ℕ) (ops : List FactorOp) (s : IdentityDb)
    → transact
        (consume_recovery_code member hash later)
        (apply_factors (consumes_code member hash now ∷ ops) s)
      ≡ (ok false, apply_factors (consumes_code member hash now ∷ ops) s)
unfolding consume_recovery_code
recovery_code_once member hash now later ops s =
    refused_code member hash later (apply_factors (consumes_code member hash now ∷ ops) s) (
      kept_by_all (λ t. any (is_unused_code member hash) t.recovery_codes ≡ false)
        (apply_factor-code member hash) ops (apply_factor (consumes_code member hash now) s)
        (none_unused-used member hash now s.recovery_codes))

-- A counter above the stored one, of which there may be none.
abbrev pub IsAbove : ℕ → Option ℕ → Type 0
IsAbove counter none = Unit {0}
IsAbove counter (some last) = last < counter

is_below-IsAbove :
    (counter : ℕ) (last : Option ℕ) → (is_below counter last ≡ true) ↔ IsAbove counter last
is_below-IsAbove counter none = (λ h. tt, λ h. refl)
is_below-IsAbove counter (some last) = (λ h. ground (arith, h), λ h. ground (arith, h))

none_accepted :
    (id counter : ℕ) (rows : List Admin)
    → any (λ x. x.id == id) rows ≡ false
    → any (accepts_counter id counter) rows ≡ false
none_accepted id counter [] h = refl
none_accepted id counter (x ∷ rows) h = ground (arith, h, none_accepted id counter rows)

-- What `UseTOTP` does to the row of a member between rows of others.
own_row :
    (counter : ℕ) (a : Admin) (xs ys : List Admin)
    → any (λ x. x.id == a.id) xs ≡ false
    → any (λ x. x.id == a.id) ys ≡ false
    → let b = is_below counter a.last_totp_counter in
      (count_if (accepts_counter a.id counter) (xs ++ a ∷ ys) ≡ (if b then 1 else 0))
      × (update_if
            (accepts_counter a.id counter)
            (λ x. record x { last_totp_counter = some counter })
            (xs ++ a ∷ ys)
          ≡ xs ++ (if b then record a { last_totp_counter = some counter } else a) ∷ ys)
own_row counter a [] ys left right =
    let (no_rows, same) =
      none_counted (accepts_counter a.id counter)
        (λ x. record x { last_totp_counter = some counter }) ys
        (none_accepted a.id counter ys right) in
    elim (Bool-cases (is_below counter a.last_totp_counter)) [
      | inl above ↦ ground (arith, above, no_rows, same)
      | inr below ↦ ground (arith, below, no_rows, same)
    ]
own_row counter a (x ∷ xs) ys left right =
    let rest = own_row counter a xs ys (ground (arith, left)) right in
    let out : accepts_counter a.id counter x ≡ false = ground (arith, left) in
    (rw (out, rest.0), rw (out) (ap (λ t. x ∷ t) rest.1))

-- With one row for the member, wherever it stands in the table, an offered counter is accepted exactly if
-- no counter was stored in that row or the stored one is smaller. It is stored if it is accepted, and
-- nothing else changes.
pub use_totp-accepts :
    (counter : ℕ) (a : Admin) (xs ys : List Admin) (s : IdentityDb)
    → s.admins ≡ xs ++ a ∷ ys
    → any (λ x. x.id == a.id) xs ≡ false
    → any (λ x. x.id == a.id) ys ≡ false
    → (b : Bool) × (transact (use_totp a.id counter) s ≡ (
      ok b,
      record s {
        admins = xs ++ (if b then record a { last_totp_counter = some counter } else a) ∷ ys;
      },
    ))
      × ((b ≡ true) ↔ IsAbove counter a.last_totp_counter)
unfolding use_totp
use_totp-accepts counter a xs ys s rows left right =
    let (hits, after) = own_row counter a xs ys left right in
    (
      is_below counter a.last_totp_counter,
      elim (Bool-cases (is_below counter a.last_totp_counter)) [
        | inl above ↦ ground (arith, rows, above, hits, after)
        | inr below ↦ ground (arith, rows, below, hits, after)
      ],
      is_below-IsAbove counter a.last_totp_counter,
    )
