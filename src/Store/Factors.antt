-- ===== src/Store/Factors.antt =====
-- core/internal/database/identity.go with gen/identity.sql.go: the proofs of a login that are good for
-- one use, which are TOTP counters, recovery codes and login challenges.
pub mod Once
pub mod Challenges
use autosecrets.Prelude.{
  ℕ, Bool, true, false, not, ◌&&◌, ◌||◌, Option, none, some, List, [], ◌∷◌, ◌++◌, ◌==◌, ltb, leb,
  if◌then◌else◌, any, find, drop_if, update_if, count_if, is_some, is_none,
}
use autosecrets.Store.Tx.{
  Tx, Result, transact, no_rows, not_found, unique_violation, foreign_key_violation, pure, gets,
  or_fail, require, refuse, modify, map_err, map_no_rows, ◌>>=◌, ◌>>◌,
}
use autosecrets.Store.Identity.Rows.{Admin, RecoveryCode, LoginChallenge, IdentityDb}

abbrev pub is_below : ℕ → Option ℕ → Bool
is_below counter none = true
is_below counter (some last) = ltb last counter

-- `WHERE id = $1 AND (last_totp_counter IS NULL OR last_totp_counter < $2)`
abbrev pub accepts_counter : ℕ → ℕ → Admin → Bool
accepts_counter member counter a = a.id == member && is_below counter a.last_totp_counter

-- `UseTOTP`, with its statement
unfoldable pub use_totp : ℕ → ℕ → Tx IdentityDb Bool
use_totp member counter = do
  n ← gets (λ s. count_if (accepts_counter member counter) s.admins)
  modify (λ s. record s {
    admins =
        update_if (accepts_counter member counter)
          (λ a. record a { last_totp_counter = some counter }) s.admins;
  })
  pure (n == 1)

abbrev pub is_unused_code : ℕ → ℕ → RecoveryCode → Bool
is_unused_code member hash c = (c.admin_id == member && c.code_hash == hash) && is_none c.used_at

-- `ConsumeRecoveryCode`, with its statement
unfoldable pub consume_recovery_code : ℕ → ℕ → ℕ → Tx IdentityDb Bool
consume_recovery_code member hash now = do
  n ← gets (λ s. count_if (is_unused_code member hash) s.recovery_codes)
  modify (λ s. record s {
    recovery_codes =
        update_if (is_unused_code member hash) (λ c. record c { used_at = some now })
          s.recovery_codes;
  })
  pure (n == 1)

abbrev pub is_stale_challenge : ℕ → LoginChallenge → Bool
is_stale_challenge now c = leb c.expires_at now || is_some c.used_at

unfoldable pub delete_expired_login_challenges : ℕ → Tx IdentityDb (Unit {0})
delete_expired_login_challenges now =
    modify
      (λ s. record s { login_challenges = drop_if (is_stale_challenge now) s.login_challenges })

unfoldable pub insert_login_challenge : LoginChallenge → Tx IdentityDb (Unit {0})
insert_login_challenge row = do
  challenges ← gets (λ s. s.login_challenges)
  refuse (any (λ c. c.token_hash == row.token_hash) challenges) unique_violation
  admins ← gets (λ s. s.admins)
  require (any (λ a. a.id == row.admin_id) admins) foreign_key_violation
  modify (λ s. record s { login_challenges = s.login_challenges ++ row ∷ [] })

-- `CreateLoginChallenge` at the time `now`: two statements with no transaction around them, and the error
-- of the first is ignored.
unfoldable pub create_login_challenge :
    ℕ → ℕ → ℕ → ℕ → ℕ → IdentityDb → Result (Unit {0}) × IdentityDb
unfolding delete_expired_login_challenges insert_login_challenge
create_login_challenge now hash member source until s =
    transact
      (insert_login_challenge (record {
        token_hash = hash;
        admin_id = member;
        source_hash = source;
        expires_at = until;
        used_at = none;
      }))
      (transact (delete_expired_login_challenges now) s).1

abbrev pub is_open_challenge : ℕ → ℕ → ℕ → LoginChallenge → Bool
is_open_challenge hash source now c =
    (c.token_hash == hash && c.source_hash == source) && (is_none c.used_at && ltb now c.expires_at)

-- `UPDATE … RETURNING admin_id`
unfoldable pub update_login_challenge_used : ℕ → ℕ → ℕ → Tx IdentityDb ℕ
update_login_challenge_used hash source now = do
  challenges ← gets (λ s. s.login_challenges)
  row ← or_fail no_rows (find (is_open_challenge hash source now) challenges)
  modify (λ s. record s {
    login_challenges =
        update_if (is_open_challenge hash source now) (λ c. record c { used_at = some now })
          s.login_challenges;
  })
  pure row.admin_id

-- `ConsumeLoginChallenge`
unfoldable pub consume_login_challenge : ℕ → ℕ → ℕ → Tx IdentityDb ℕ
unfolding update_login_challenge_used
consume_login_challenge hash source now =
    map_err map_no_rows (update_login_challenge_used hash source now)
