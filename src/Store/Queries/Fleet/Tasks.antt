-- ===== src/Store/Queries/Fleet/Tasks.antt =====
-- core/internal/database/gen/unassignment.sql.go: the removal of an Assignment and its cleanup tasks.
use autosecrets.Prelude.{
  ℕ, Bool, true, false, ◌&&◌, Option, none, some, List, [], ◌∷◌, ◌++◌, ◌==◌, any, find, keep_if,
  ltb, update_if, count_if, if◌then◌else◌,
}
use autosecrets.Store.Tx.{
  Tx, no_rows, unique_violation, pure, gets, or_fail, refuse, modify, ◌>>=◌, ◌>>◌,
}
use autosecrets.Store.Rows.{
  GroupMember, Assignment, removing, is_active, UnassignmentTask, TaskStatus, pending, failed,
  offline, cleanup_unconfirmed, Db,
}

unfoldable pub mark_assignment_removing : ℕ → Tx Db ℕ
mark_assignment_removing id = do
  n ← gets (λ db. count_if (λ a. a.id == id && is_active a.status) db.assignments)
  modify (λ db. record db {
    assignments =
        update_if (λ a. a.id == id && is_active a.status) (λ a. record a { status = removing })
          db.assignments;
  })
  pure n

-- One task, not yet reported, for each member of the group.
abbrev pub tasks_for : ℕ → ℕ → List GroupMember → List UnassignmentTask
tasks_for assignment group [] = []
tasks_for assignment group (m ∷ ms) =
    let rest = tasks_for assignment group ms in
    if m.group_id == group
    then record { assignment_id = assignment; node_id = m.node_id; status = pending; error = 0 }
      ∷ rest
    else rest

abbrev pub new_tasks : ℕ → Option Assignment → List GroupMember → List UnassignmentTask
new_tasks assignment none members = []
new_tasks assignment (some a) members = tasks_for assignment a.group_id members

abbrev pub is_task : ℕ → ℕ → UnassignmentTask → Bool
is_task assignment node t = t.assignment_id == assignment && t.node_id == node

unfoldable pub insert_unassignment_tasks : ℕ → Tx Db (Unit {0})
insert_unassignment_tasks assignment = do
  rows ←
      gets (λ db.
        new_tasks assignment (find (λ a. a.id == assignment) db.assignments) db.group_members)
  tasks ← gets (λ db. db.unassignment_tasks)
  refuse (any (λ t. any (is_task t.assignment_id t.node_id) tasks) rows) unique_violation
  modify (λ db. record db { unassignment_tasks = db.unassignment_tasks ++ rows })

-- `ORDER BY node_id`, which no two tasks of one Assignment share.
abbrev pub place_by_node : UnassignmentTask → List UnassignmentTask → List UnassignmentTask
place_by_node t [] = t ∷ []
place_by_node t (u ∷ ts) =
    let rest = place_by_node t ts in if ltb u.node_id t.node_id then u ∷ rest else t ∷ u ∷ ts

abbrev pub order_by_node : List UnassignmentTask → List UnassignmentTask
order_by_node [] = []
order_by_node (t ∷ ts) = place_by_node t (order_by_node ts)

unfoldable pub select_unassignment_tasks : ℕ → Tx Db (List UnassignmentTask)
select_unassignment_tasks assignment =
    gets (λ db. order_by_node (keep_if (λ t. t.assignment_id == assignment) db.unassignment_tasks))

-- `status IN ('pending', 'failed', 'cleanup_unconfirmed')`
abbrev pub is_reportable : TaskStatus → Bool
is_reportable pending = true
is_reportable failed = true
is_reportable cleanup_unconfirmed = true
is_reportable _ = false

-- `status IN ('pending', 'failed', 'offline')`
abbrev pub is_abandonable : TaskStatus → Bool
is_abandonable pending = true
is_abandonable failed = true
is_abandonable offline = true
is_abandonable _ = false

unfoldable pub update_cleanup_task : ℕ → ℕ → TaskStatus → ℕ → Tx Db ℕ
update_cleanup_task assignment node result error = do
  n ← gets (λ db.
      count_if (λ t. is_task assignment node t && is_reportable t.status) db.unassignment_tasks)
  modify (λ db. record db {
    unassignment_tasks =
        update_if (λ t. is_task assignment node t && is_reportable t.status)
          (λ t. record t { status = result; error = error }) db.unassignment_tasks;
  })
  pure n

unfoldable pub update_abandoned_tasks : ℕ → Tx Db ℕ
update_abandoned_tasks assignment = do
  n ← gets (λ db.
      count_if (λ t. t.assignment_id == assignment && is_abandonable t.status)
        db.unassignment_tasks)
  modify (λ db. record db {
    unassignment_tasks =
        update_if (λ t. t.assignment_id == assignment && is_abandonable t.status)
          (λ t. record t { status = cleanup_unconfirmed }) db.unassignment_tasks;
  })
  pure n

unfoldable pub select_assignment : ℕ → Tx Db Assignment
select_assignment id = do
  assignments ← gets (λ db. db.assignments)
  or_fail no_rows (find (λ a. a.id == id) assignments)

-- The tasks of a node that it still has to report, which the poll delivers.
unfoldable pub select_pending_cleanup : ℕ → Tx Db (List UnassignmentTask)
select_pending_cleanup node =
    gets (λ db. keep_if (λ t. t.node_id == node && is_reportable t.status) db.unassignment_tasks)
