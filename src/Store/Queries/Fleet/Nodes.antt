-- ===== src/Store/Queries/Fleet/Nodes.antt =====
-- core/internal/database/gen/domain.sql.go: Managed Nodes and Enrollment Tokens.
use autosecrets.Prelude.{
  ℕ, Bool, true, false, not, ◌&&◌, ◌||◌, Option, none, some, List, [], ◌∷◌, ◌++◌, ◌==◌, ltb, any,
  find, drop_if, update_if, count_if,
}
use autosecrets.Store.Tx.{
  Tx, no_rows, unique_violation, foreign_key_violation, check_violation, pure, gets, or_fail,
  require, refuse, modify, ◌>>=◌, ◌>>◌,
}
use autosecrets.Store.Rows.{Node, Serial, pending_serial, issued_serial, EnrollmentToken, Db}

abbrev pub serial_eq : Serial → Serial → Bool
serial_eq (pending_serial a) (pending_serial b) = a == b
serial_eq (issued_serial a) (issued_serial b) = a == b
serial_eq _ _ = false

-- `UPDATE nodes SET … WHERE id = $1`, and the number of rows.
abbrev pub update_node : ℕ → (Node → Node) → Tx Db ℕ
update_node id f = do
  n ← gets (λ db. count_if (λ x. x.id == id) db.nodes)
  modify (λ db. record db { nodes = update_if (λ x. x.id == id) f db.nodes })
  pure n

unfoldable pub select_node : ℕ → Tx Db Node
select_node id = do nodes ← gets (λ db. db.nodes); or_fail no_rows (find (λ x. x.id == id) nodes)

unfoldable pub select_node_by_serial : Serial → Tx Db Node
select_node_by_serial serial = do
  nodes ← gets (λ db. db.nodes)
  or_fail no_rows (find (λ x. serial_eq x.serial serial) nodes)

unfoldable pub update_node_seen : ℕ → ℕ → ℕ → ℕ → Tx Db ℕ
update_node_seen id observed result at =
    update_node id
      (λ x. record x { last_seen_at = some at; observed_revision = observed; last_result = result })

unfoldable pub update_node_desired : ℕ → ℕ → Tx Db ℕ
update_node_desired id etag = update_node id (λ x. record x { desired_etag = etag })

-- `seconds` is an `int32`, as the bits of its two's complement: 2 ^ 31 and above stand for the negative
-- numbers, which the check refuses as well.
-- `CHECK (poll_interval_seconds BETWEEN 5 AND 86400)`, on the row that would be written.
unfoldable pub update_node_poll_interval : ℕ → ℕ → Tx Db ℕ
update_node_poll_interval id seconds = do
  nodes ← gets (λ db. db.nodes)
  refuse (any (λ x. x.id == id) nodes && (ltb seconds 5 || ltb 86400 seconds)) check_violation
  update_node id (λ x. record x { poll_interval_seconds = seconds })

unfoldable pub update_node_name : ℕ → ℕ → Tx Db ℕ
update_node_name id name = update_node id (λ x. record x { name = name })

unfoldable pub update_node_bundle_dir : ℕ → ℕ → Tx Db ℕ
update_node_bundle_dir id dir = update_node id (λ x. record x { bundle_dir = dir })

abbrev pub is_token_of : ℕ → Option ℕ → Bool
is_token_of id none = false
is_token_of id (some n) = n == id

-- The row goes, and by cascade the node's memberships, cleanup tasks and Enrollment Tokens.
unfoldable pub delete_node_row : ℕ → Tx Db ℕ
delete_node_row id = do
  n ← gets (λ db. count_if (λ x. x.id == id) db.nodes)
  modify (λ db. record db {
    nodes = drop_if (λ x. x.id == id) db.nodes;
    group_members = drop_if (λ m. m.node_id == id) db.group_members;
    unassignment_tasks = drop_if (λ t. t.node_id == id) db.unassignment_tasks;
    enrollment_tokens = drop_if (λ t. is_token_of id t.node_id) db.enrollment_tokens;
  })
  pure n

unfoldable pub insert_node : Node → Tx Db (Unit {0})
insert_node row = do
  nodes ← gets (λ db. db.nodes)
  refuse (any (λ x. x.id == row.id || serial_eq x.serial row.serial) nodes) unique_violation
  modify (λ db. record db { nodes = db.nodes ++ row ∷ [] })

-- The unique serial is the constraint that an update can violate.
unfoldable pub update_pending_node : ℕ → Serial → ℕ → ℕ → ℕ → Tx Db ℕ
update_pending_node id serial age_pubkey cert_pem cert_expires_at = do
  nodes ← gets (λ db. db.nodes)
  refuse
      (any (λ x. x.id == id) nodes
        && any (λ x. serial_eq x.serial serial && not (x.id == id)) nodes)
      unique_violation
  update_node id (λ x. record x {
    serial = serial;
    age_pubkey = age_pubkey;
    cert_pem = cert_pem;
    cert_expires_at = cert_expires_at;
  })

-- The foreign key of `enrollment_tokens.node_id`, which may be NULL.
abbrev pub token_node_exists : Option ℕ → List Node → Bool
token_node_exists none nodes = true
token_node_exists (some id) nodes = any (λ x. x.id == id) nodes

unfoldable pub insert_enrollment_token : EnrollmentToken → Tx Db (Unit {0})
insert_enrollment_token row = do
  tokens ← gets (λ db. db.enrollment_tokens)
  refuse (any (λ t. t.token_hash == row.token_hash) tokens) unique_violation
  nodes ← gets (λ db. db.nodes)
  require (token_node_exists row.node_id nodes) foreign_key_violation
  modify (λ db. record db { enrollment_tokens = db.enrollment_tokens ++ row ∷ [] })

unfoldable pub select_enrollment_token_for_update : ℕ → Tx Db EnrollmentToken
select_enrollment_token_for_update hash = do
  tokens ← gets (λ db. db.enrollment_tokens)
  or_fail no_rows (find (λ t. t.token_hash == hash) tokens)

unfoldable pub select_enrollment_token_used_at : ℕ → Tx Db (Option ℕ)
select_enrollment_token_used_at hash = do
  tokens ← gets (λ db. db.enrollment_tokens)
  token ← or_fail no_rows (find (λ t. t.token_hash == hash) tokens)
  pure token.used_at

unfoldable pub mark_enrollment_token_used : ℕ → ℕ → Tx Db (Unit {0})
mark_enrollment_token_used hash at = modify (λ db. record db {
  enrollment_tokens =
      update_if (λ t. t.token_hash == hash) (λ t. record t { used_at = some at })
        db.enrollment_tokens;
})
