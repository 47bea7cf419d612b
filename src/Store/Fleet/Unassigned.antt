-- ===== src/Store/Fleet/Unassigned.antt =====
-- unassignment.go, `Unassign`: the Assignments and the cleanup tasks that it leaves.
use autosecrets.Prelude.{
  ℕ, ◌≡◌, ◌≢◌, ◌↔◌, refl, sym, ap, ◌∙◌, subst, Bool, false, ◌&&◌, none, some, List, [], ◌∷◌, ◌++◌,
  Memᴰ, arith, ◌==◌, if◌then◌else◌, find, update_if, count_if, mem-update_if, mem-update_if_other,
  find-update_if, updated_row, Bool-cases, inl, inr,
}
use autosecrets.Store.Tx.{ok, err, conflict, transact}
use autosecrets.Store.Rows.{
  Assignment, GroupMember, pending, is_active, removing, UnassignmentTask, Db,
}
use autosecrets.Store.Queries.Fleet.{is_member, tasks_for, is_task, new_tasks}
use autosecrets.Store.Fleet.{unassign}
use autosecrets.Store.Fleet.Cleanup.{task_in}

abbrev pub is_active_row : ℕ → Assignment → Bool
is_active_row id a = a.id == id && is_active a.status

abbrev pub removed : ℕ → List Assignment → List Assignment
removed id = update_if (is_active_row id) (λ a. record a { status = removing })

none_active : (id : ℕ) (rows : List Assignment) → count_if (is_active_row id) (removed id rows) ≡ 0
none_active id [] = refl
none_active id (a ∷ rows) = ground (arith, none_active id rows)

-- The tables after an accepted removal.
unassign_effect :
    (id : ℕ) (db db' : Db) (ts : List UnassignmentTask)
    → unassign id db ≡ ok (ts, db')
    → (db'.assignments ≡ removed id db.assignments)
      × (db'.unassignment_tasks
          ≡ db.unassignment_tasks
            ++ new_tasks id (find (λ a. a.id == id) (removed id db.assignments)) db.group_members)
unfolding unassign
unassign_effect id db db' ts done = (ground arith, ground arith)

not_active :
    (id : ℕ) (db : Db)
    → count_if (is_active_row id) db.assignments ≡ 0
    → transact (unassign id) db ≡ (err conflict, db)
unfolding unassign
not_active id db h = ground (arith, h)

-- Once an Assignment is unassigned, no row of its id is active, every other row stands as before, and
-- unassigning it again is refused with `conflict` and changes nothing.
pub unassign-stops :
    (id : ℕ) (db db' : Db) (ts : List UnassignmentTask)
    → unassign id db ≡ ok (ts, db')
    → ((a : Assignment) → Memᴰ a db'.assignments → a.id ≡ id → is_active a.status ≡ false)
      × ((a : Assignment) → a.id ≢ id → Memᴰ a db.assignments ↔ Memᴰ a db'.assignments)
      × (transact (unassign id) db' ≡ (err conflict, db'))
unassign-stops id db db' ts done =
    let (rows, _) = unassign_effect id db db' ts done in
    let p = is_active_row id in
    let f : Assignment → Assignment = λ a. record a { status = removing } in
    (
      λ a m e.
          let (o, there, eq) = mem-update_if p f db.assignments (subst (λ t. Memᴰ a t) rows m) in
          elim (Bool-cases (p o)) [
            | inl hit ↦ ground (arith, eq, hit)
            | inr miss ↦ let same : a ≡ o = eq ∙ rw miss in ground (arith, miss, ap p same)
          ],
      λ a other. (
        λ m.
            subst (λ t. Memᴰ a t) (sym rows)
              (mem-update_if_other p f db.assignments m (ground arith)),
        λ m.
            let (o, there, eq) = mem-update_if p f db.assignments (subst (λ t. Memᴰ a t) rows m) in
            elim (Bool-cases (p o)) [
              | inl hit ↦
                  let moved : a ≡ f o = eq ∙ rw hit in
                  absurd (other (ground (arith, ap (λ (x : Assignment). x.id) moved, hit)))
              | inr miss ↦
                  let same : a ≡ o = eq ∙ rw miss in
                  subst (λ x. Memᴰ x db.assignments) (sym same) there
            ],
      ),
      not_active id db' (ap (count_if p) rows ∙ none_active id db.assignments),
    )

abbrev pub new_task : ℕ → ℕ → UnassignmentTask
new_task id node = record { assignment_id = id; node_id = node; status = pending; error = 0 }

find-tasks_for :
    (id group node : ℕ) (ms : List GroupMember)
    → find (is_task id node) (tasks_for id group ms)
      ≡ (if is_member group node ms then some (new_task id node) else none)
find-tasks_for id group node [] = refl
find-tasks_for id group node (m ∷ ms) = elim (Bool-cases (m.group_id == group)) [
  | inl same ↦ elim (Bool-cases (m.node_id == node)) [
    | inl hit ↦
        let e : m.node_id ≡ node = ground arith in
        ground (arith, find-tasks_for id group node ms, e)
    | inr miss ↦ ground (arith, find-tasks_for id group node ms)
  ]
  | inr other ↦ ground (arith, find-tasks_for id group node ms)
]

find-append_none :
    {A : Type 0} (p : A → Bool) (xs ys : List A) → find p xs ≡ none → find p (xs ++ ys) ≡ find p ys
find-append_none p [] ys h = refl
find-append_none p (x ∷ xs) ys h = ground (arith, find-append_none p xs ys)

-- When an Assignment without tasks is unassigned, a node has a cleanup task afterwards exactly if it is
-- a member of the Assignment's group, and the task is pending.
pub unassign-creates_tasks :
    (id node : ℕ) (db db' : Db) (ts : List UnassignmentTask) (a : Assignment)
    → unassign id db ≡ ok (ts, db')
    → find (λ x. x.id == id) db.assignments ≡ some a
    → task_in id node db ≡ none
    → task_in id node db'
      ≡ (if is_member a.group_id node db.group_members then some (new_task id node) else none)
unassign-creates_tasks id node db db' ts a done found fresh =
    let (_, tasks) = unassign_effect id db db' ts done in
    let f : Assignment → Assignment = λ x. record x { status = removing } in
    let after : find (λ x. x.id == id) (removed id db.assignments)
        ≡ updated_row (is_active_row id) f (some a) =
      find-update_if (λ x. x.id == id) (is_active_row id) f db.assignments (λ x. refl)
      ∙ ap (updated_row (is_active_row id) f) found in
    let rows : new_tasks id (find (λ x. x.id == id) (removed id db.assignments)) db.group_members
        ≡ tasks_for id a.group_id db.group_members =
      ap (λ o. new_tasks id o db.group_members) after
      ∙ ground (arith, Bool-cases (is_active_row id a)) in
    ap (find (is_task id node)) (tasks ∙ ap (λ r. db.unassignment_tasks ++ r) rows)
    ∙ (find-append_none (is_task id node) db.unassignment_tasks _ fresh
        ∙ find-tasks_for id a.group_id node db.group_members)
