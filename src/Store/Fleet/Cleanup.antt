-- ===== src/Store/Fleet/Cleanup.antt =====
-- unassignment.go: the cleanup tasks of a removed Assignment, as a state machine of each node's task.
use autosecrets.Prelude.{
  ℕ, ◌≡◌, ◌≢◌, refl, ap, ◌∙◌, Bool, true, ◌&&◌, Option, none, some, List, [], ◌∷◌, ◌++◌, arith,
  ◌==◌, find, update_if, Bool-cases, inl, inr, find-update_if, updated_row, find-append_found,
}
use autosecrets.Store.Tx.{ok, transact, transact-keeps}
use autosecrets.Store.Rows.{
  TaskStatus, pending, offline, cleaned, failed, cleanup_unconfirmed, UnassignmentTask, is_active,
  removing, Db,
}
use autosecrets.Store.Queries.Fleet.{new_tasks, is_task, is_reportable, is_abandonable}
use autosecrets.Store.Fleet.{
  unassign, report_cleanup_task, abandon_cleanup_confirmation, CleanupResult, result_cleaned,
  result_failed, result_other,
}

-- One step of a task: a report of its Agent, or the end of the wait for one.
pub data CleanupStep : TaskStatus → TaskStatus → Type 0 where
  confirms : CleanupStep pending cleaned
  confirms_after_failure : CleanupStep failed cleaned
  confirms_late : CleanupStep cleanup_unconfirmed cleaned
  fails : CleanupStep pending failed
  fails_again : CleanupStep failed failed
  fails_late : CleanupStep cleanup_unconfirmed failed
  is_given_up : CleanupStep pending cleanup_unconfirmed
  is_given_up_after_failure : CleanupStep failed cleanup_unconfirmed
  is_given_up_offline : CleanupStep offline cleanup_unconfirmed

confirmed_step : (s : TaskStatus) → is_reportable s ≡ true → CleanupStep s cleaned
confirmed_step pending r = confirms
confirmed_step failed r = confirms_after_failure
confirmed_step cleanup_unconfirmed r = confirms_late
confirmed_step cleaned r = absurd (ground (arith, r))
confirmed_step offline r = absurd (ground (arith, r))

failed_step : (s : TaskStatus) → is_reportable s ≡ true → CleanupStep s failed
failed_step pending r = fails
failed_step failed r = fails_again
failed_step cleanup_unconfirmed r = fails_late
failed_step cleaned r = absurd (ground (arith, r))
failed_step offline r = absurd (ground (arith, r))

abandoned_step : (s : TaskStatus) → is_abandonable s ≡ true → CleanupStep s cleanup_unconfirmed
abandoned_step pending r = is_given_up
abandoned_step failed r = is_given_up_after_failure
abandoned_step offline r = is_given_up_offline
abandoned_step cleaned r = absurd (ground (arith, r))
abandoned_step cleanup_unconfirmed r = absurd (ground (arith, r))

-- No step leaves the status of a confirmed cleanup.
cleaned-stuck : (s t : TaskStatus) → CleanupStep s t → s ≢ cleaned
cleaned-stuck s t confirms e = ground (arith, e)
cleaned-stuck s t confirms_after_failure e = ground (arith, e)
cleaned-stuck s t confirms_late e = ground (arith, e)
cleaned-stuck s t fails e = ground (arith, e)
cleaned-stuck s t fails_again e = ground (arith, e)
cleaned-stuck s t fails_late e = ground (arith, e)
cleaned-stuck s t is_given_up e = ground (arith, e)
cleaned-stuck s t is_given_up_after_failure e = ground (arith, e)
cleaned-stuck s t is_given_up_offline e = ground (arith, e)

pub data CleanupRun : TaskStatus → TaskStatus → Type 0 where
  stays : {s : TaskStatus} → CleanupRun s s
  goes : {s t u : TaskStatus} → CleanupStep s t → CleanupRun t u → CleanupRun s u

-- A confirmed cleanup takes no further step.
cleaned-final : (s t : TaskStatus) → CleanupRun s t → s ≡ cleaned → t ≡ cleaned
cleaned-final s t stays e = e
cleaned-final s t (goes step run) e = absurd (cleaned-stuck _ _ step e)

abbrev pub task_in : ℕ → ℕ → Db → Option UnassignmentTask
task_in assignment node db = find (is_task assignment node) db.unassignment_tasks

abbrev pub status_of : Option UnassignmentTask → Option TaskStatus
status_of none = none
status_of (some t) = some t.status

-- The task of an Assignment at a node is there, and has moved along the steps.
abbrev pub Moved : ℕ → ℕ → TaskStatus → Db → Type 0
Moved assignment node s db =
    (t : UnassignmentTask) × (task_in assignment node db ≡ some t) × CleanupRun s t.status

run-append : {s t u : TaskStatus} → CleanupRun s t → CleanupStep t u → CleanupRun s u
run-append stays step = goes step stays
run-append (goes first rest) step = goes first (run-append rest step)

-- An update of some tasks, each by a step.
Moved-update :
    (assignment node : ℕ) (s : TaskStatus) (p : UnassignmentTask → Bool)
    (f : UnassignmentTask → UnassignmentTask) (db db' : Db)
    → ((t : UnassignmentTask) → is_task assignment node (f t) ≡ is_task assignment node t)
    → ((t : UnassignmentTask) → p t ≡ true → CleanupStep t.status (f t).status)
    → db'.unassignment_tasks ≡ update_if p f db.unassignment_tasks
    → Moved assignment node s db
    → Moved assignment node s db'
Moved-update assignment node s p f db db' same steps e (t, found, run) =
    let after : task_in assignment node db' ≡ updated_row p f (some t) =
      ap (find (is_task assignment node)) e
      ∙ (find-update_if (is_task assignment node) p f db.unassignment_tasks same
          ∙ ap (updated_row p f) found) in
    elim (Bool-cases (p t)) [
      | inl hit ↦ (f t, after ∙ rw hit, run-append run (steps t hit))
      | inr miss ↦ (t, after ∙ rw miss, run)
    ]

pub data CleanupOp : Type 0 where
  starts : ℕ → CleanupOp
  reports : ℕ → ℕ → CleanupResult → ℕ → CleanupOp
  abandons : ℕ → CleanupOp

abbrev pub apply_cleanup : CleanupOp → Db → Db
apply_cleanup (starts id) db = (transact (unassign id) db).1
apply_cleanup (reports id node result error) db =
    (transact (report_cleanup_task id node result error) db).1
apply_cleanup (abandons id) db = (transact (abandon_cleanup_confirmation id) db).1

abbrev pub apply_cleanups : List CleanupOp → Db → Db
apply_cleanups [] db = db
apply_cleanups (op ∷ ops) db = apply_cleanups ops (apply_cleanup op db)

reported_rows :
    (id node error : ℕ) (result : CleanupResult) (db db' : Db)
    → report_cleanup_task id node result error db ≡ ok (tt, db')
    → (status : TaskStatus) × ((s : TaskStatus) → is_reportable s ≡ true → CleanupStep s status)
      × (db'.unassignment_tasks
          ≡ update_if
              (λ t. is_task id node t && is_reportable t.status)
              (λ t. record t { status = status; error = error })
              db.unassignment_tasks)
unfolding report_cleanup_task
reported_rows id node error result_cleaned db db' done = (cleaned, confirmed_step, ground arith)
reported_rows id node error result_failed db db' done = (failed, failed_step, ground arith)
reported_rows id node error result_other db db' done = absurd (ground arith)

started_rows :
    (id : ℕ) (db db' : Db) (ts : List UnassignmentTask)
    → unassign id db ≡ ok (ts, db')
    → (rows : List UnassignmentTask) × (db'.unassignment_tasks ≡ db.unassignment_tasks ++ rows)
unfolding unassign
started_rows id db db' ts done = (
  new_tasks id
      (find (λ a. a.id == id)
        (update_if (λ a. a.id == id && is_active a.status) (λ a. record a { status = removing })
          db.assignments))
      db.group_members,
  ground arith,
)

apply_cleanup-Moved :
    (assignment node : ℕ) (s : TaskStatus) (op : CleanupOp) (db : Db)
    → Moved assignment node s db
    → Moved assignment node s (apply_cleanup op db)
unfolding abandon_cleanup_confirmation
apply_cleanup-Moved assignment node s (starts id) db m =
    transact-keeps (Moved assignment node s) (unassign id) db m (λ ts db' e.
      let (rows, eq) = started_rows id db db' ts e in
      (
        m.0,
        ap (find (is_task assignment node)) eq
            ∙ find-append_found (is_task assignment node) db.unassignment_tasks rows m.1,
        m.2,
      ))
apply_cleanup-Moved assignment node s (reports id n result error) db m =
    transact-keeps (Moved assignment node s) (report_cleanup_task id n result error) db m
      (λ a db' e.
        let (status, steps, eq) = reported_rows id n error result db db' e in
        Moved-update assignment node s (λ t. is_task id n t && is_reportable t.status)
          (λ t. record t { status = status; error = error }) db db' (λ t. refl)
          (λ t h. steps t.status (ground arith)) eq m)
apply_cleanup-Moved assignment node s (abandons id) db m =
    transact-keeps (Moved assignment node s) (abandon_cleanup_confirmation id) db m (λ a db' e.
      Moved-update assignment node s (λ t. t.assignment_id == id && is_abandonable t.status)
        (λ t. record t { status = cleanup_unconfirmed }) db db' (λ t. refl)
        (λ t h. abandoned_step t.status (ground arith)) (ground arith) m)

-- Whatever is unassigned, reported and abandoned, the cleanup task of a node stays, and its status only
-- moves by the steps of `CleanupStep`: an Agent may report a task that is pending, failed or
-- unconfirmed, and the wait for one that is pending, failed or offline may be ended.
pub cleanups_follow_steps :
    (assignment node : ℕ) (ops : List CleanupOp) (db : Db) (t : UnassignmentTask)
    → task_in assignment node db ≡ some t
    → Moved assignment node t.status (apply_cleanups ops db)
cleanups_follow_steps assignment node ops db t found = all ops db (t, found, stays)
  where
    all :
        (ops : List CleanupOp) (db : Db)
        → Moved assignment node t.status db
        → Moved assignment node t.status (apply_cleanups ops db)
    all [] db m = m
    all (op ∷ ops) db m =
        all ops (apply_cleanup op db) (apply_cleanup-Moved assignment node t.status op db m)

-- A cleanup that an Agent has confirmed stays confirmed, whatever is unassigned, reported and abandoned
-- afterwards.
pub cleaned_stays :
    (assignment node : ℕ) (ops : List CleanupOp) (db : Db) (t : UnassignmentTask)
    → task_in assignment node db ≡ some t
    → t.status ≡ cleaned
    → status_of (task_in assignment node (apply_cleanups ops db)) ≡ some cleaned
cleaned_stays assignment node ops db t found e =
    let (u, there, run) = cleanups_follow_steps assignment node ops db t found in
    ap status_of there ∙ ap some (cleaned-final t.status u.status run e)
