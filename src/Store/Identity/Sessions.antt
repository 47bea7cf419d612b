-- ===== src/Store/Identity/Sessions.antt =====
-- core/internal/database/identity.go: sessions and step-up grants.
use autosecrets.Prelude.{ℕ, Bool}
use autosecrets.Store.Tx.{Tx, map_err, map_no_rows}
use autosecrets.Store.Identity.Rows.{Admin, AuthMethod, Session, IdentityDb}
use autosecrets.Store.Identity.Queries.{
  insert_session, delete_session_row, delete_member_session_rows, update_session_activity,
  select_session, upsert_step_up_grant_row, select_valid_step_up_grant,
}

-- `CreateBoundedSession` at the time `at` of the database server
unfoldable pub create_bounded_session :
    ℕ → ℕ → ℕ → ℕ → ℕ → ℕ → AuthMethod → Tx IdentityDb (Unit {0})
unfolding insert_session
create_bounded_session at id_hash member csrf absolute idle method = insert_session (record {
  id_hash = id_hash;
  admin_id = member;
  csrf_token = csrf;
  expires_at = absolute;
  last_activity_at = at;
  idle_expires_at = idle;
  auth_method = method;
})

-- `SessionByID`
unfoldable pub session_by_id : ℕ → ℕ → Tx IdentityDb (Session × Admin)
unfolding select_session
session_by_id hash now = map_err map_no_rows (select_session hash now)

-- `DeleteSession`
unfoldable pub delete_session : ℕ → Tx IdentityDb (Unit {0})
unfolding delete_session_row
delete_session hash = delete_session_row hash

-- `TouchSessionActivity`
unfoldable pub touch_session_activity : ℕ → ℕ → ℕ → Tx IdentityDb (Unit {0})
unfolding update_session_activity
touch_session_activity hash now idle = update_session_activity hash now idle

-- `DeleteMemberSessions`
unfoldable pub delete_member_sessions : ℕ → Tx IdentityDb (Unit {0})
unfolding delete_member_session_rows
delete_member_sessions member = delete_member_session_rows member

-- `UpsertStepUpGrant`
unfoldable pub upsert_step_up_grant : ℕ → ℕ → ℕ → Tx IdentityDb (Unit {0})
unfolding upsert_step_up_grant_row
upsert_step_up_grant session granted until = upsert_step_up_grant_row session granted until

-- `HasValidStepUpGrant`
unfoldable pub has_valid_step_up_grant : ℕ → ℕ → Tx IdentityDb Bool
unfolding select_valid_step_up_grant
has_valid_step_up_grant session now = select_valid_step_up_grant session now
