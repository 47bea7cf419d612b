-- ===== src/Store/Queries/Fleet/Groups.antt =====
-- core/internal/database/gen/domain.sql.go: Node Groups, their members, and Assignments.
use autosecrets.Prelude.{
  ℕ, Bool, not, ◌&&◌, ◌||◌, Option, none, some, List, [], ◌∷◌, ◌++◌, ◌==◌, ltb, if◌then◌else◌, any,
  find, keep_if, drop_if, update_if, count_if,
}
use autosecrets.Store.Tx.{
  Tx, no_rows, unique_violation, foreign_key_violation, pure, gets, or_fail, require, refuse,
  modify, ◌>>=◌, ◌>>◌,
}
use autosecrets.Store.Rows.{BundleRevision, GroupMember, Assignment, is_active, Db}
use autosecrets.Store.Queries.Bundles.{revision_in}

unfoldable pub insert_node_group : ℕ → ℕ → Tx Db (Unit {0})
insert_node_group id name = do
  groups ← gets (λ db. db.node_groups)
  refuse (any (λ g. g.id == id || g.name == name) groups) unique_violation
  modify (λ db. record db { node_groups = db.node_groups ++ record { id = id; name = name } ∷ [] })

unfoldable pub count_active_assignments_for_node_group : ℕ → Tx Db ℕ
count_active_assignments_for_node_group id =
    gets (λ db. count_if (λ a. a.group_id == id && is_active a.status) db.assignments)

-- The row goes, and by cascade the group's members, its Assignments and their tasks.
unfoldable pub delete_node_group_by_id : ℕ → Tx Db ℕ
delete_node_group_by_id id = do
  n ← gets (λ db. count_if (λ g. g.id == id) db.node_groups)
  modify (λ db. record db {
    node_groups = drop_if (λ g. g.id == id) db.node_groups;
    group_members = drop_if (λ m. m.group_id == id) db.group_members;
    unassignment_tasks =
        drop_if (λ t. any (λ a. a.id == t.assignment_id && a.group_id == id) db.assignments)
          db.unassignment_tasks;
    assignments = drop_if (λ a. a.group_id == id) db.assignments;
  })
  pure n

abbrev pub is_member : ℕ → ℕ → List GroupMember → Bool
is_member group node = any (λ m. m.group_id == group && m.node_id == node)

-- `ON CONFLICT DO NOTHING`
unfoldable pub insert_group_member : ℕ → ℕ → Tx Db (Unit {0})
insert_group_member group node = do
  groups ← gets (λ db. db.node_groups)
  require (any (λ g. g.id == group) groups) foreign_key_violation
  nodes ← gets (λ db. db.nodes)
  require (any (λ n. n.id == node) nodes) foreign_key_violation
  modify (λ db. record db {
    group_members =
        if is_member group node db.group_members
        then db.group_members
        else db.group_members ++ record { group_id = group; node_id = node } ∷ [];
  })

-- The inner `EXISTS`: another active Assignment of the bundle of `a`, to a group of the node.
abbrev pub rivals : ℕ → Assignment → Db → Bool
rivals node a db =
    any
      (λ b.
        is_active b.status
        && (b.application_id == a.application_id && b.environment_id == a.environment_id)
        && not (b.group_id == a.group_id)
        && is_member b.group_id node db.group_members)
      db.assignments

unfoldable pub select_group_member_conflict : ℕ → ℕ → Tx Db Bool
select_group_member_conflict group node = gets (λ db.
    any (λ a. (a.group_id == group && is_active a.status) && rivals node a db) db.assignments)

unfoldable pub delete_group_member : ℕ → ℕ → Tx Db (Unit {0})
delete_group_member group node = modify (λ db. record db {
  group_members = drop_if (λ m. m.group_id == group && m.node_id == node) db.group_members;
})

unfoldable pub select_node_group_name : ℕ → Tx Db ℕ
select_node_group_name id = do
  groups ← gets (λ db. db.node_groups)
  group ← or_fail no_rows (find (λ g. g.id == id) groups)
  pure group.name

unfoldable pub select_environment_exists : ℕ → ℕ → Tx Db Bool
select_environment_exists env app =
    gets (λ db. any (λ e. e.id == env && e.application_id == app) db.environments)

-- Whether the first revision stands before the second in `ORDER BY created_at DESC, id DESC`.
abbrev pub is_later : BundleRevision → BundleRevision → Bool
is_later r q = ltb q.created_at r.created_at || q.created_at == r.created_at && ltb q.id r.id

abbrev pub later_of : BundleRevision → Option BundleRevision → Option BundleRevision
later_of r none = some r
later_of r (some q) = some (if is_later q r then q else r)

abbrev pub latest : List BundleRevision → Option BundleRevision
latest [] = none
latest (r ∷ rs) = later_of r (latest rs)

unfoldable pub select_latest_revision : ℕ → ℕ → Tx Db ℕ
select_latest_revision app env = do
  revisions ← gets (λ db. db.bundle_revisions)
  revision ← or_fail no_rows (latest (keep_if (revision_in app env) revisions))
  pure revision.id

-- `EXISTS`: a member of the group is also in a group with an active Assignment of the bundle.
abbrev pub bundle_conflict : ℕ → ℕ → ℕ → Db → Bool
bundle_conflict app env group db =
    any
      (λ m.
        is_member group m.node_id db.group_members
        && any
            (λ a.
              (a.group_id == m.group_id && is_active a.status)
              && (a.application_id == app && a.environment_id == env)
              && not (a.group_id == group))
            db.assignments)
      db.group_members

unfoldable pub select_assignment_conflict : ℕ → ℕ → ℕ → Tx Db Bool
select_assignment_conflict app env group = gets (bundle_conflict app env group)

-- The partial unique index admits one active Assignment of a bundle to a group.
unfoldable pub insert_assignment : Assignment → Tx Db (Unit {0})
insert_assignment row = do
  assignments ← gets (λ db. db.assignments)
  refuse (any (λ a. a.id == row.id) assignments) unique_violation
  refuse
      (any
        (λ a.
          (a.group_id == row.group_id && is_active a.status)
          && (a.application_id == row.application_id && a.environment_id == row.environment_id))
        assignments)
      unique_violation
  modify (λ db. record db { assignments = db.assignments ++ row ∷ [] })

unfoldable pub update_desired_revision : ℕ → ℕ → ℕ → Tx Db (Unit {0})
update_desired_revision app env revision = modify (λ db. record db {
  assignments =
      update_if (λ a. (a.application_id == app && a.environment_id == env) && is_active a.status)
        (λ a. record a { revision_id = revision }) db.assignments;
})

-- `SELECT DISTINCT … ORDER BY`
abbrev pub insert_distinct : ℕ → List ℕ → List ℕ
insert_distinct x [] = x ∷ []
insert_distinct x (y ∷ ys) =
    let rest = insert_distinct x ys in
    if x == y then y ∷ ys else if ltb x y then x ∷ y ∷ ys else y ∷ rest

abbrev pub revisions_for : ℕ → Db → List Assignment → List ℕ
revisions_for node db [] = []
revisions_for node db (a ∷ as') =
    let rest = revisions_for node db as' in
    if is_active a.status && is_member a.group_id node db.group_members
    then insert_distinct a.revision_id rest
    else rest

unfoldable pub select_assigned_revisions : ℕ → Tx Db (List ℕ)
select_assigned_revisions node = gets (λ db. revisions_for node db db.assignments)
