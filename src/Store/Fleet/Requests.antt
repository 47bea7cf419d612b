-- ===== src/Store/Fleet/Requests.antt =====
-- domain.go and unassignment.go: the operations on Node Groups, Assignments and Managed Nodes as one
-- type of requests, and what holds after any sequence of them.
use autosecrets.Prelude.{ℕ, ◌≡◌, List, [], ◌∷◌, arith}
use autosecrets.Store.Tx.{Tx, ok, transact, transact-keeps}
use autosecrets.Store.Rows.{Serial, Db}
use autosecrets.Store.Fleet.{
  create_node_group, delete_node_group, add_group_member, remove_group_member, create_assignment,
  advance_desired_revision, unassign, report_cleanup_task, abandon_cleanup_confirmation,
  delete_node, create_pending_node, register_node, activate_pending_node, set_node_poll_interval,
  CleanupResult,
}
use autosecrets.Store.Fleet.Ambiguity.{IsUnambiguous, Shrinks, Shrinks-IsUnambiguous}
use autosecrets.Store.Fleet.Ambiguity.Assigning.{create_assignment-IsUnambiguous}
use autosecrets.Store.Fleet.Ambiguity.Joining.{add_group_member-IsUnambiguous}
use autosecrets.Store.Fleet.Shrinking.{
  same_tables, delete_group-Shrinks, remove_member-Shrinks, delete_node-Shrinks, advance-Shrinks,
  unassign-Shrinks,
}

pub data FleetOp : Type 0 where
  creates_group : ℕ → ℕ → FleetOp
  deletes_group : ℕ → FleetOp
  adds_member removes_member : ℕ → ℕ → FleetOp
  assigns : ℕ → ℕ → ℕ → ℕ → ℕ → FleetOp
  advances : ℕ → ℕ → ℕ → FleetOp
  unassigns : ℕ → FleetOp
  reports_cleanup : ℕ → ℕ → CleanupResult → ℕ → FleetOp
  abandons_cleanup : ℕ → FleetOp
  reserves_node : ℕ → ℕ → ℕ → ℕ → FleetOp
  registers_node : ℕ → ℕ → Serial → ℕ → ℕ → ℕ → FleetOp
  activates_node : ℕ → Serial → ℕ → ℕ → ℕ → FleetOp
  sets_poll_interval : ℕ → ℕ → FleetOp
  deletes_node : ℕ → FleetOp

-- A request that fails leaves the database as it was.
abbrev pub apply : FleetOp → Db → Db
apply (creates_group id name) db = (transact (create_node_group id name) db).1
apply (deletes_group id) db = (transact (delete_node_group id) db).1
apply (adds_member group node) db = (transact (add_group_member group node) db).1
apply (removes_member group node) db = (transact (remove_group_member group node) db).1
apply (assigns at id group app env) db = (transact (create_assignment at id group app env) db).1
apply (advances app env revision) db = (transact (advance_desired_revision app env revision) db).1
apply (unassigns id) db = (transact (unassign id) db).1
apply (reports_cleanup id node result error) db =
    (transact (report_cleanup_task id node result error) db).1
apply (abandons_cleanup id) db = (transact (abandon_cleanup_confirmation id) db).1
apply (reserves_node now id name dir) db = (transact (create_pending_node now id name dir) db).1
apply (registers_node id name serial key cert until) db =
    (transact (register_node id name serial key cert until) db).1
apply (activates_node id serial key cert until) db =
    (transact (activate_pending_node id serial key cert until) db).1
apply (sets_poll_interval node seconds) db = (transact (set_node_poll_interval node seconds) db).1
apply (deletes_node node) db = (transact (delete_node node) db).1

by_shrinking :
    {A : Type 0} (m : Tx Db A) (db : Db)
    → IsUnambiguous db
    → ((a : A) (db' : Db) → m db ≡ ok (a, db') → Shrinks db db')
    → IsUnambiguous (transact m db).1
by_shrinking m db v f =
    transact-keeps IsUnambiguous m db v (λ a db' e. Shrinks-IsUnambiguous db db' (f a db' e) v)

apply-IsUnambiguous : (op : FleetOp) (db : Db) → IsUnambiguous db → IsUnambiguous (apply op db)
unfolding create_node_group set_node_poll_interval create_pending_node register_node
    activate_pending_node report_cleanup_task abandon_cleanup_confirmation
apply-IsUnambiguous (creates_group id name) db v =
    by_shrinking (create_node_group id name) db v
      (λ a db' e. same_tables db db' (ground arith) (ground arith))
apply-IsUnambiguous (deletes_group id) db v =
    by_shrinking (delete_node_group id) db v (λ a db' e. delete_group-Shrinks id db db' e)
apply-IsUnambiguous (adds_member group node) db v =
    transact-keeps IsUnambiguous (add_group_member group node) db v
      (λ a db' e. add_group_member-IsUnambiguous group node db db' v e)
apply-IsUnambiguous (removes_member group node) db v =
    by_shrinking (remove_group_member group node) db v
      (λ a db' e. remove_member-Shrinks group node db db' e)
apply-IsUnambiguous (assigns at id group app env) db v =
    transact-keeps IsUnambiguous (create_assignment at id group app env) db v
      (λ a db' e. create_assignment-IsUnambiguous at id group app env db db' a v e)
apply-IsUnambiguous (advances app env revision) db v =
    by_shrinking (advance_desired_revision app env revision) db v
      (λ a db' e. advance-Shrinks app env revision db db' e)
apply-IsUnambiguous (unassigns id) db v =
    by_shrinking (unassign id) db v (λ a db' e. unassign-Shrinks id db db' a e)
apply-IsUnambiguous (reports_cleanup id node result error) db v =
    by_shrinking (report_cleanup_task id node result error) db v
      (λ a db' e. same_tables db db' (ground arith) (ground arith))
apply-IsUnambiguous (abandons_cleanup id) db v =
    by_shrinking (abandon_cleanup_confirmation id) db v
      (λ a db' e. same_tables db db' (ground arith) (ground arith))
apply-IsUnambiguous (reserves_node now id name dir) db v =
    by_shrinking (create_pending_node now id name dir) db v
      (λ a db' e. same_tables db db' (ground arith) (ground arith))
apply-IsUnambiguous (registers_node id name serial key cert until) db v =
    by_shrinking (register_node id name serial key cert until) db v
      (λ a db' e. same_tables db db' (ground arith) (ground arith))
apply-IsUnambiguous (activates_node id serial key cert until) db v =
    by_shrinking (activate_pending_node id serial key cert until) db v
      (λ a db' e. same_tables db db' (ground arith) (ground arith))
apply-IsUnambiguous (sets_poll_interval node seconds) db v =
    by_shrinking (set_node_poll_interval node seconds) db v
      (λ a db' e. same_tables db db' (ground arith) (ground arith))
apply-IsUnambiguous (deletes_node node) db v =
    by_shrinking (delete_node node) db v (λ a db' e. delete_node-Shrinks node db db' e)

abbrev pub apply_all : List FleetOp → Db → Db
apply_all [] db = db
apply_all (op ∷ ops) db = apply_all ops (apply op db)

-- From tables in which no Managed Node receives a bundle by two active Assignments, every sequence of
-- requests on groups, members, Assignments and nodes, failed ones included, leads to such tables.
pub apply_all-IsUnambiguous :
    (ops : List FleetOp) (db : Db) → IsUnambiguous db → IsUnambiguous (apply_all ops db)
apply_all-IsUnambiguous [] db v = v
apply_all-IsUnambiguous (op ∷ ops) db v =
    apply_all-IsUnambiguous ops (apply op db) (apply-IsUnambiguous op db v)
