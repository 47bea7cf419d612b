-- ===== src/Store/Fleet/Shrinking.antt =====
-- domain.go and unassignment.go: the operations that move no active Assignment and add no member.
use autosecrets.Prelude.{
  ℕ, ◌≡◌, refl, subst, Bool, true, not, ◌&&◌, inl, inr, List, Memᴰ, arith, ◌==◌, drop_if, update_if,
  mem-keep_if, mem-update_if, any-keep_if, Bool-cases,
}
use autosecrets.Store.Tx.{ok}
use autosecrets.Store.Rows.{Assignment, GroupMember, is_active, removing, UnassignmentTask, Db}
use autosecrets.Store.Queries.Fleet.{is_member}
use autosecrets.Store.Fleet.{
  delete_node_group, remove_group_member, advance_desired_revision, unassign, delete_node,
}
use autosecrets.Store.Fleet.Ambiguity.{IsSameBundle, Shrinks}

-- The ways in which a request leaves the two tables, up to an update of other columns.
abbrev OnlyDrops : Db → Db → Type 0
OnlyDrops db db' =
    ((a : Assignment) → Memᴰ a db'.assignments → Memᴰ a db.assignments)
    × ((g n : ℕ) → is_member g n db'.group_members ≡ true → is_member g n db.group_members ≡ true)

OnlyDrops-Shrinks : (db db' : Db) → OnlyDrops db db' → Shrinks db db'
OnlyDrops-Shrinks db db' d = record {
  assignment_from = λ a l. (a, (d.0 a l.0, l.1), (refl, refl), refl, refl);
  member_from = d.1;
}

pub same_tables :
    (db db' : Db)
    → db'.assignments ≡ db.assignments
    → db'.group_members ≡ db.group_members
    → Shrinks db db'
same_tables db db' e f =
    OnlyDrops-Shrinks db db'
      (λ a m. subst (λ t. Memᴰ a t) e m, λ g n h. subst (λ t. is_member g n t ≡ true) f h)

dropped_members :
    (db db' : Db) (p : GroupMember → Bool)
    → ((a : Assignment) → Memᴰ a db'.assignments → Memᴰ a db.assignments)
    → db'.group_members ≡ drop_if p db.group_members
    → Shrinks db db'
dropped_members db db' p kept f = OnlyDrops-Shrinks db db' (
  kept,
  λ g n h.
      any-keep_if (λ m. m.group_id == g && m.node_id == n) (λ m. not (p m)) db.group_members
        (subst (λ t. is_member g n t ≡ true) f h),
)

-- An update of the Assignments that keeps the group, the bundle and the id, and activates none.
updated_assignments :
    (db db' : Db) (p : Assignment → Bool) (f : Assignment → Assignment)
    → ((o : Assignment)
        → IsSameBundle o (f o)
          × (o.group_id ≡ (f o).group_id)
          × (o.id ≡ (f o).id)
          × (is_active (f o).status ≡ true → is_active o.status ≡ true))
    → db'.assignments ≡ update_if p f db.assignments
    → db'.group_members ≡ db.group_members
    → Shrinks db db'
updated_assignments db db' p f keep e g = record {
  assignment_from = λ a l.
      let (o, m, eq) = mem-update_if p f db.assignments (subst (λ t. Memᴰ a t) e l.0) in
      elim (Bool-cases (p o)) [
        | inl t ↦
            let moved : a ≡ f o = ground arith in
            let (bundle, group, id, live) = keep o in
            (
              o,
              (m, live (ground (arith, l.1))),
              (ground arith, ground arith),
              ground arith,
              ground arith,
            )
        | inr t ↦
            let same : a ≡ o = ground arith in
            (o, (m, ground (arith, l.1)), (ground arith, ground arith), ground arith, ground arith)
      ];
  member_from = λ group n h. subst (λ t. is_member group n t ≡ true) g h;
}

pub delete_group-Shrinks :
    (id : ℕ) (db db' : Db) → delete_node_group id db ≡ ok (tt, db') → Shrinks db db'
unfolding delete_node_group
delete_group-Shrinks id db db' done =
    let rows : db'.assignments ≡ drop_if (λ a. a.group_id == id) db.assignments = ground arith in
    dropped_members db db' (λ m. m.group_id == id)
      (λ a m.
        mem-keep_if (λ x. not (x.group_id == id)) db.assignments (subst (λ t. Memᴰ a t) rows m))
      (ground arith)

pub remove_member-Shrinks :
    (group node : ℕ) (db db' : Db)
    → remove_group_member group node db ≡ ok (tt, db')
    → Shrinks db db'
unfolding remove_group_member
remove_member-Shrinks group node db db' done =
    let rows : db'.assignments ≡ db.assignments = ground arith in
    dropped_members db db' (λ m. m.group_id == group && m.node_id == node)
      (λ a m. subst (λ t. Memᴰ a t) rows m) (ground arith)

pub delete_node-Shrinks :
    (node : ℕ) (db db' : Db) → delete_node node db ≡ ok (tt, db') → Shrinks db db'
unfolding delete_node
delete_node-Shrinks node db db' done =
    let rows : db'.assignments ≡ db.assignments = ground arith in
    dropped_members db db' (λ m. m.node_id == node) (λ a m. subst (λ t. Memᴰ a t) rows m)
      (ground arith)

pub advance-Shrinks :
    (app env revision : ℕ) (db db' : Db)
    → advance_desired_revision app env revision db ≡ ok (tt, db')
    → Shrinks db db'
unfolding advance_desired_revision
advance-Shrinks app env revision db db' done =
    updated_assignments db db'
      (λ a. (a.application_id == app && a.environment_id == env) && is_active a.status)
      (λ a. record a { revision_id = revision }) (λ o. ((refl, refl), refl, refl, λ h. h))
      (ground arith) (ground arith)

pub unassign-Shrinks :
    (id : ℕ) (db db' : Db) (ts : List UnassignmentTask)
    → unassign id db ≡ ok (ts, db')
    → Shrinks db db'
unfolding unassign
unassign-Shrinks id db db' ts done =
    updated_assignments db db' (λ a. a.id == id && is_active a.status)
      (λ a. record a { status = removing }) (λ o. ((refl, refl), refl, refl, λ h. cc))
      (ground arith) (ground arith)
