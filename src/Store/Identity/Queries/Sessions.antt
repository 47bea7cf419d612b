-- ===== src/Store/Identity/Queries/Sessions.antt =====
-- gen/identity.sql.go and gen/store.sql.go: sessions and step-up grants. A grant goes with its session.
use autosecrets.Prelude.{
  ℕ, Bool, not, ◌&&◌, List, [], ◌∷◌, ◌++◌, ◌==◌, ltb, if◌then◌else◌, any, find, drop_if, update_if,
}
use autosecrets.Store.Tx.{
  Tx, no_rows, unique_violation, foreign_key_violation, pure, gets, or_fail, require, refuse,
  modify, ◌>>=◌, ◌>>◌,
}
use autosecrets.Store.Identity.Rows.{Admin, Session, is_member_active, IdentityDb}

unfoldable pub insert_session : Session → Tx IdentityDb (Unit {0})
insert_session row = do
  rows ← gets (λ db. db.sessions)
  refuse (any (λ s. s.id_hash == row.id_hash) rows) unique_violation
  admins ← gets (λ db. db.admins)
  require (any (λ a. a.id == row.admin_id) admins) foreign_key_violation
  modify (λ db. record db { sessions = db.sessions ++ row ∷ [] })

-- `DELETE FROM sessions WHERE p`
abbrev pub delete_sessions : (Session → Bool) → Tx IdentityDb (Unit {0})
delete_sessions p = modify (λ db. record db {
  sessions = drop_if p db.sessions;
  step_up_grants =
      drop_if (λ g. any (λ s. s.id_hash == g.session_id_hash && p s) db.sessions) db.step_up_grants;
})

unfoldable pub delete_session_row : ℕ → Tx IdentityDb (Unit {0})
delete_session_row hash = delete_sessions (λ s. s.id_hash == hash)

unfoldable pub delete_member_session_rows : ℕ → Tx IdentityDb (Unit {0})
delete_member_session_rows member = delete_sessions (λ s. s.admin_id == member)

unfoldable pub delete_other_member_sessions : ℕ → ℕ → Tx IdentityDb (Unit {0})
delete_other_member_sessions member current =
    delete_sessions (λ s. s.admin_id == member && not (s.id_hash == current))

unfoldable pub delete_member_step_up_grants : ℕ → Tx IdentityDb (Unit {0})
delete_member_step_up_grants member = modify (λ db. record db {
  step_up_grants =
      drop_if (λ g. any (λ s. s.id_hash == g.session_id_hash && s.admin_id == member) db.sessions)
        db.step_up_grants;
})

abbrev pub least : ℕ → ℕ → ℕ
least a b = if ltb b a then b else a

unfoldable pub update_session_activity : ℕ → ℕ → ℕ → Tx IdentityDb (Unit {0})
update_session_activity hash now idle = modify (λ db. record db {
  sessions =
      update_if (λ s. s.id_hash == hash)
        (λ s. record s { last_activity_at = now; idle_expires_at = least s.expires_at idle })
        db.sessions;
})

-- The session and its member, by a join on the foreign key.
abbrev pub live_session : ℕ → ℕ → List Admin → Session → Bool
live_session hash now admins s =
    (s.id_hash == hash && (ltb now s.expires_at && ltb now s.idle_expires_at))
    && any (λ a. a.id == s.admin_id && is_member_active a.status) admins

unfoldable pub select_session : ℕ → ℕ → Tx IdentityDb (Session × Admin)
select_session hash now = do
  admins ← gets (λ db. db.admins)
  rows ← gets (λ db. db.sessions)
  row ← or_fail no_rows (find (live_session hash now admins) rows)
  admin ← or_fail no_rows (find (λ a. a.id == row.admin_id && is_member_active a.status) admins)
  pure (row, admin)

unfoldable pub upsert_step_up_grant_row : ℕ → ℕ → ℕ → Tx IdentityDb (Unit {0})
upsert_step_up_grant_row session granted until = do
  rows ← gets (λ db. db.sessions)
  require (any (λ s. s.id_hash == session) rows) foreign_key_violation
  modify (λ db. record db {
    step_up_grants =
        if any (λ g. g.session_id_hash == session) db.step_up_grants
        then update_if (λ g. g.session_id_hash == session)
            (λ g. record g { granted_at = granted; expires_at = until }) db.step_up_grants
        else db.step_up_grants
          ++ record { session_id_hash = session; granted_at = granted; expires_at = until } ∷ [];
  })

unfoldable pub select_valid_step_up_grant : ℕ → ℕ → Tx IdentityDb Bool
select_valid_step_up_grant session now =
    gets (λ db. any (λ g. g.session_id_hash == session && ltb now g.expires_at) db.step_up_grants)
