-- ===== src/Store/Fleet.antt =====
-- core/internal/database/domain.go: Node Groups, Assignments, Managed Nodes and Enrollment Tokens, and
-- unassignment.go. Each operation is a transaction body; `transact` runs it.
pub mod Ambiguity
pub mod Shrinking
pub mod Requests
pub mod Enrollment
pub mod Cleanup
pub mod Delivery
pub mod Assigned
pub mod Unassigned
use autosecrets.Prelude.{
  ℕ, ◌^◌, ◌%◌, Bool, true, false, not, ◌&&◌, ◌||◌, Option, none, some, List, [], ◌∷◌, ◌==◌, ltb,
  is_some,
}
use autosecrets.Store.Tx.{
  Tx, Error, not_found, conflict, bad_payload, no_rows, foreign_key_violation, pure, fail, gets,
  map_err, require, refuse, map_no_rows, map_unique, ◌>>=◌, ◌>>◌,
}
use autosecrets.Store.Rows.{
  Node, Serial, pending_serial, issued_serial, Assignment, active, EnrollmentToken, TaskStatus,
  pending, cleaned, failed, UnassignmentTask, Db,
}
use autosecrets.Store.Queries.Fleet.{
  insert_node_group, count_active_assignments_for_node_group, delete_node_group_by_id,
  insert_group_member, select_group_member_conflict, delete_group_member, select_node_group_name,
  select_environment_exists, select_latest_revision, select_assignment_conflict, insert_assignment,
  update_desired_revision, select_assigned_revisions, select_node, select_node_by_serial,
  update_node_seen, update_node_desired, update_node_poll_interval, update_node_name,
  update_node_bundle_dir, delete_node_row, insert_node, update_pending_node,
  insert_enrollment_token, select_enrollment_token_for_update, select_enrollment_token_used_at,
  mark_enrollment_token_used, mark_assignment_removing, insert_unassignment_tasks,
  select_unassignment_tasks, update_cleanup_task, update_abandoned_tasks,
}

-- `CreateNodeGroup`
unfoldable pub create_node_group : ℕ → ℕ → Tx Db (Unit {0})
unfolding insert_node_group
create_node_group id name = map_err map_unique (insert_node_group id name)

-- `DeleteNodeGroup`
unfoldable pub delete_node_group : ℕ → Tx Db (Unit {0})
unfolding count_active_assignments_for_node_group delete_node_group_by_id
delete_node_group id = do
  count ← count_active_assignments_for_node_group id
  refuse (ltb 0 count) conflict
  n ← delete_node_group_by_id id
  require (n == 1) not_found

abbrev pub map_foreign_key : Error → Error
map_foreign_key foreign_key_violation = not_found
map_foreign_key e = e

-- `AddGroupMember`: the member is written first, and the conflict that it makes rolls it back.
unfoldable pub add_group_member : ℕ → ℕ → Tx Db (Unit {0})
unfolding insert_group_member select_group_member_conflict
add_group_member group node = do
  map_err map_foreign_key (insert_group_member group node)
  ambiguous ← select_group_member_conflict group node
  refuse ambiguous conflict

-- `RemoveGroupMember`
unfoldable pub remove_group_member : ℕ → ℕ → Tx Db (Unit {0})
unfolding delete_group_member
remove_group_member group node = delete_group_member group node

abbrev pub map_no_revision : Error → Error
map_no_revision no_rows = bad_payload
map_no_revision e = e

-- `CreateAssignment`: the Assignment starts at the latest Revision of the environment.
unfoldable pub create_assignment : ℕ → ℕ → ℕ → ℕ → ℕ → Tx Db Assignment
unfolding select_node_group_name select_environment_exists select_latest_revision
    select_assignment_conflict insert_assignment
create_assignment at id group app env = do
  group_name ← map_err map_no_rows (select_node_group_name group)
  env_exists ← select_environment_exists env app
  require env_exists not_found
  revision ← map_err map_no_revision (select_latest_revision app env)
  ambiguous ← select_assignment_conflict app env group
  refuse ambiguous conflict
  let row : Assignment = record {
    id = id;
    group_id = group;
    application_id = app;
    environment_id = env;
    revision_id = revision;
    status = active;
    created_at = at;
  }
  map_err map_unique (insert_assignment row)
  pure row

-- `AdvanceDesiredRevision`
unfoldable pub advance_desired_revision : ℕ → ℕ → ℕ → Tx Db (Unit {0})
unfolding update_desired_revision
advance_desired_revision app env revision = update_desired_revision app env revision

-- `AssignedRevisions`
unfoldable pub assigned_revisions : ℕ → Tx Db (List ℕ)
unfolding select_assigned_revisions
assigned_revisions node = select_assigned_revisions node

-- The methods that answer `ErrNotFound` when the statement touched no row.
abbrev pub require_row : Tx Db ℕ → Tx Db (Unit {0})
require_row m = do n ← m; refuse (n == 0) not_found

-- `SetNodePollInterval`: `seconds` is an `int`, as the bits of its two's complement, and `int32(seconds)`
-- keeps the low 32 of them.
unfoldable pub set_node_poll_interval : ℕ → ℕ → Tx Db (Unit {0})
unfolding update_node_poll_interval
set_node_poll_interval node seconds =
    require_row (update_node_poll_interval node (seconds % 2 ^ 32))

unfoldable pub rename_node : ℕ → ℕ → Tx Db (Unit {0})
unfolding update_node_name
rename_node node name = require_row (update_node_name node name)

unfoldable pub set_node_bundle_dir : ℕ → ℕ → Tx Db (Unit {0})
unfolding update_node_bundle_dir
set_node_bundle_dir node dir = require_row (update_node_bundle_dir node dir)

unfoldable pub delete_node : ℕ → Tx Db (Unit {0})
unfolding delete_node_row
delete_node node = require_row (delete_node_row node)

-- `TouchNode` and `SetNodeDesired` do not look at the number of rows.
unfoldable pub touch_node : ℕ → ℕ → ℕ → ℕ → Tx Db (Unit {0})
unfolding update_node_seen
touch_node node observed result at = update_node_seen node observed result at >> pure tt

unfoldable pub set_node_desired : ℕ → ℕ → Tx Db (Unit {0})
unfolding update_node_desired
set_node_desired node etag = update_node_desired node etag >> pure tt

abbrev pub default_poll_interval : ℕ
default_poll_interval = 15

abbrev pub node_row : ℕ → ℕ → Serial → ℕ → ℕ → ℕ → ℕ → Node
node_row id name serial age_pubkey cert_pem cert_expires_at bundle_dir = record {
  id = id;
  name = name;
  serial = serial;
  age_pubkey = age_pubkey;
  cert_pem = cert_pem;
  cert_expires_at = cert_expires_at;
  last_seen_at = none;
  desired_etag = 0;
  observed_revision = 0;
  last_result = 0;
  poll_interval_seconds = default_poll_interval;
  bundle_dir = bundle_dir;
}

-- `CreatePendingNode` at the time `now` of Core.
unfoldable pub create_pending_node : ℕ → ℕ → ℕ → ℕ → Tx Db (Unit {0})
unfolding insert_node
create_pending_node now id name bundle_dir =
    insert_node (node_row id name (pending_serial id) 0 0 now bundle_dir)

unfoldable pub register_node : ℕ → ℕ → Serial → ℕ → ℕ → ℕ → Tx Db (Unit {0})
unfolding insert_node
register_node id name serial age_pubkey cert_pem cert_expires_at =
    insert_node (node_row id name serial age_pubkey cert_pem cert_expires_at 0)

unfoldable pub activate_pending_node : ℕ → Serial → ℕ → ℕ → ℕ → Tx Db (Unit {0})
unfolding update_pending_node
activate_pending_node id serial age_pubkey cert_pem cert_expires_at =
    require_row (update_pending_node id serial age_pubkey cert_pem cert_expires_at)

-- `IsPendingSerial`
abbrev pub is_pending_serial : Serial → Bool
is_pending_serial (pending_serial _) = true
is_pending_serial (issued_serial _) = false

-- `CreateEnrollmentToken`
unfoldable pub create_enrollment_token : ℕ → ℕ → ℕ → Tx Db (Unit {0})
unfolding insert_enrollment_token
create_enrollment_token hash name expires_at = insert_enrollment_token (record {
  token_hash = hash;
  name = name;
  expires_at = expires_at;
  used_at = none;
  node_id = none;
})

-- `CreateNodeEnrollmentToken`: `mustPGUUID` makes NULL of a text that is not a UUID, so `node` is `none` for
-- such a text.
unfoldable pub create_node_enrollment_token : ℕ → ℕ → Option ℕ → ℕ → Tx Db (Unit {0})
unfolding insert_enrollment_token
create_node_enrollment_token hash name node expires_at = insert_enrollment_token (record {
  token_hash = hash;
  name = name;
  expires_at = expires_at;
  used_at = none;
  node_id = node;
})

-- `ConsumeEnrollmentToken`: refused when it is not before its expiry, or used.
unfoldable pub consume_enrollment_token : ℕ → ℕ → Tx Db EnrollmentToken
unfolding select_enrollment_token_for_update select_enrollment_token_used_at
    mark_enrollment_token_used
consume_enrollment_token hash now = do
  token ← map_err map_no_rows (select_enrollment_token_for_update hash)
  require (ltb now token.expires_at) conflict
  used ← select_enrollment_token_used_at hash
  refuse (is_some used) conflict
  mark_enrollment_token_used hash now
  pure token

-- `Unassign`
unfoldable pub unassign : ℕ → Tx Db (List UnassignmentTask)
unfolding mark_assignment_removing insert_unassignment_tasks select_unassignment_tasks
unassign id = do
  n ← mark_assignment_removing id
  require (n == 1) conflict
  insert_unassignment_tasks id
  select_unassignment_tasks id

-- The result that an Agent reports, as text: the two that are accepted, or any other.
pub data CleanupResult : Type 0 where
  result_cleaned result_failed result_other : CleanupResult

abbrev pub report_status : CleanupResult → Tx Db TaskStatus
report_status result_cleaned = pure cleaned
report_status result_failed = pure failed
report_status result_other = fail bad_payload

-- `ReportCleanupTask`
unfoldable pub report_cleanup_task : ℕ → ℕ → CleanupResult → ℕ → Tx Db (Unit {0})
unfolding update_cleanup_task
report_cleanup_task assignment node result error = do
  status ← report_status result
  n ← update_cleanup_task assignment node status error
  require (n == 1) not_found

-- `AbandonCleanupConfirmation`
unfoldable pub abandon_cleanup_confirmation : ℕ → Tx Db (Unit {0})
unfolding update_abandoned_tasks
abandon_cleanup_confirmation assignment = do
  n ← update_abandoned_tasks assignment
  refuse (n == 0) conflict
