-- ===== src/Store/Identity/Queries/Enrollments.antt =====
-- gen/identity.sql.go: second-factor enrollments and recovery codes.
use autosecrets.Prelude.{
  ℕ, Bool, false, not, ◌&&◌, ◌||◌, Option, none, some, [], ◌∷◌, ◌++◌, ◌==◌, ltb, any, find, drop_if,
  update_if, count_if, is_none, is_some,
}
use autosecrets.Store.Tx.{
  Tx, no_rows, unique_violation, foreign_key_violation, pure, gets, or_fail, require, refuse,
  modify, ◌>>=◌, ◌>>◌,
}
use autosecrets.Store.Rows.{Blob}
use autosecrets.Store.Identity.Rows.{MfaEnrollment, IdentityDb}

abbrev pub is_confirmed_for : ℕ → MfaEnrollment → Bool
is_confirmed_for member e = e.admin_id == member && is_some e.confirmed_at

unfoldable pub select_any_confirmed_mfa : ℕ → Tx IdentityDb Bool
select_any_confirmed_mfa member = gets (λ db. any (is_confirmed_for member) db.mfa_enrollments)

unfoldable pub select_confirmed_mfa : ℕ → Tx IdentityDb Bool
select_confirmed_mfa member = gets (λ db.
    any (λ e. e.admin_id == member && (is_some e.verified_at && is_some e.confirmed_at))
      db.mfa_enrollments)

unfoldable pub select_mfa_enrollment_by_token : ℕ → ℕ → Tx IdentityDb MfaEnrollment
select_mfa_enrollment_by_token hash now = do
  rows ← gets (λ db. db.mfa_enrollments)
  or_fail no_rows (find (λ e. e.token_hash == hash && ltb now e.expires_at) rows)

unfoldable pub select_totp_enrollment_for_member : ℕ → Tx IdentityDb MfaEnrollment
select_totp_enrollment_for_member member = do
  rows ← gets (λ db. db.mfa_enrollments)
  or_fail no_rows (find (λ e. e.admin_id == member) rows)

unfoldable pub select_mfa_enrollment_for_verify : ℕ → ℕ → Tx IdentityDb ℕ
select_mfa_enrollment_for_verify hash now = do
  rows ← gets (λ db. db.mfa_enrollments)
  row ←
      or_fail no_rows
        (find (λ e. e.token_hash == hash && (ltb now e.expires_at && is_none e.verified_at)) rows)
  pure row.admin_id

abbrev pub has_confirmation : ℕ → Option ℕ → Bool
has_confirmation hash none = false
has_confirmation hash (some h) = h == hash

unfoldable pub mark_mfa_verified : ℕ → ℕ → ℕ → Tx IdentityDb (Unit {0})
mark_mfa_verified hash now confirmation = do
  rows ← gets (λ db. db.mfa_enrollments)
  refuse
      (any (λ e. e.token_hash == hash) rows
        && any
            (λ e. has_confirmation confirmation e.confirmation_hash && not (e.token_hash == hash))
            rows)
      unique_violation
  modify (λ db. record db {
    mfa_enrollments =
        update_if (λ e. e.token_hash == hash)
          (λ e. record e { verified_at = some now; confirmation_hash = some confirmation })
          db.mfa_enrollments;
  })

abbrev pub is_confirmable : ℕ → ℕ → MfaEnrollment → Bool
is_confirmable hash now e =
    (has_confirmation hash e.confirmation_hash && ltb now e.expires_at)
    && (is_some e.verified_at && is_none e.confirmed_at)

unfoldable pub select_mfa_enrollment_for_confirm : ℕ → ℕ → Tx IdentityDb ℕ
select_mfa_enrollment_for_confirm hash now = do
  rows ← gets (λ db. db.mfa_enrollments)
  row ← or_fail no_rows (find (is_confirmable hash now) rows)
  pure row.admin_id

unfoldable pub mark_mfa_confirmed : ℕ → ℕ → Tx IdentityDb (Unit {0})
mark_mfa_confirmed hash now = modify (λ db. record db {
  mfa_enrollments =
      update_if (λ e. has_confirmation hash e.confirmation_hash)
        (λ e. record e { confirmed_at = some now }) db.mfa_enrollments;
})

unfoldable pub update_mfa_token : ℕ → ℕ → ℕ → ℕ → Tx IdentityDb ℕ
update_mfa_token member old new until = do
  rows ← gets (λ db. db.mfa_enrollments)
  let hits : MfaEnrollment → Bool = λ e.
      (e.admin_id == member && e.token_hash == old)
      && (is_none e.verified_at && is_none e.confirmed_at)
  refuse (any hits rows && any (λ e. e.token_hash == new && not (hits e)) rows) unique_violation
  modify (λ db. record db {
    mfa_enrollments =
        update_if hits (λ e. record e { token_hash = new; expires_at = until }) db.mfa_enrollments;
  })
  pure (count_if hits rows)

unfoldable pub delete_mfa_enrollments_for_member : ℕ → Tx IdentityDb (Unit {0})
delete_mfa_enrollments_for_member member =
    modify
      (λ db. record db { mfa_enrollments = drop_if (λ e. e.admin_id == member) db.mfa_enrollments })

unfoldable pub insert_mfa_enrollment : ℕ → ℕ → Blob → ℕ → Tx IdentityDb (Unit {0})
insert_mfa_enrollment hash member secret until = do
  rows ← gets (λ db. db.mfa_enrollments)
  refuse (any (λ e. e.token_hash == hash || e.admin_id == member) rows) unique_violation
  admins ← gets (λ db. db.admins)
  require (any (λ a. a.id == member) admins) foreign_key_violation
  modify (λ db. record db {
    mfa_enrollments =
        db.mfa_enrollments
        ++ record {
          token_hash = hash;
          admin_id = member;
          secret = secret;
          confirmation_hash = none;
          expires_at = until;
          verified_at = none;
          confirmed_at = none;
        }
          ∷ [];
  })

unfoldable pub delete_recovery_codes_for_member : ℕ → Tx IdentityDb (Unit {0})
delete_recovery_codes_for_member member =
    modify
      (λ db. record db { recovery_codes = drop_if (λ c. c.admin_id == member) db.recovery_codes })

unfoldable pub insert_recovery_code : ℕ → ℕ → Tx IdentityDb (Unit {0})
insert_recovery_code member hash = do
  rows ← gets (λ db. db.recovery_codes)
  refuse (any (λ c. c.admin_id == member && c.code_hash == hash) rows) unique_violation
  admins ← gets (λ db. db.admins)
  require (any (λ a. a.id == member) admins) foreign_key_violation
  modify (λ db. record db {
    recovery_codes =
        db.recovery_codes ++ record { admin_id = member; code_hash = hash; used_at = none } ∷ [];
  })
