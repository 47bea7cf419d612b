-- ===== src/Tests/Fleet.antt =====
-- Runs of domain.go and unassignment.go: two Managed Nodes in two Node Groups, and one Environment with
-- two Revisions.
use autosecrets.Prelude.{
  ℕ, ◌≡◌, ◌≢◌, ◌↔◌, refl, true, false, none, some, List, [], ◌∷◌, any, find, ◌==◌, Memᴰ,
}
use autosecrets.Store.Tx.{ok, err, conflict, transact}
use autosecrets.Store.Rows.{
  BundleRevision, Assignment, active, is_active, EnrollmentToken, pending, cleaned, Db,
  no_rows_at_all,
}
use autosecrets.Store.Queries.Bundles.{revision_in}
use autosecrets.Store.Queries.Fleet.{is_later, is_member}
use autosecrets.Store.Fleet.{
  create_node_group, create_assignment, assigned_revisions, advance_desired_revision, unassign,
  consume_enrollment_token, create_enrollment_token, report_cleanup_task, add_group_member,
  create_pending_node, result_cleaned,
}
use autosecrets.Store.Fleet.Ambiguity.{IsUnambiguous}
use autosecrets.Store.Fleet.Requests.{
  FleetOp, creates_group, adds_member, assigns, reserves_node, apply_all, apply_all-IsUnambiguous,
}
use autosecrets.Store.Fleet.Enrollment.{
  TokenOp, issues, consumes, apply_tokens, consumption, token_in, consume_enrollment_token_lem,
  consumed_once,
}
use autosecrets.Store.Fleet.Cleanup.{
  CleanupOp, starts, reports, abandons, apply_cleanups, task_in, status_of, Moved,
  cleanups_follow_steps, cleaned_stays,
}
use autosecrets.Store.Fleet.Delivery.{IsAscending, holds, delivers, assigned_revisions_lem}
use autosecrets.Store.Fleet.Assigned.{
  is_bundle, advanced, create_assignment-pins_latest, advance_desired_revision-advances,
}
use autosecrets.Store.Fleet.Unassigned.{new_task, unassign-stops, unassign-creates_tasks}

abbrev revision_at : ℕ → ℕ → BundleRevision
revision_at id at = record {
  id = id;
  application_id = 1;
  environment_id = 10;
  draft_version = 1;
  created_at = at;
  created_by = 7;
  operation_reason = record { category = 5; explanation = 6; external_ref = 0 };
}

abbrev two_revisions : Db
two_revisions = record no_rows_at_all {
  environments = record { id = 10; application_id = 1; name = 110 } ∷ [];
  bundle_revisions = revision_at 50 1000 ∷ revision_at 51 2000 ∷ [];
}

-- Nodes 61 and 62, groups 71 and 72, and node 61 in both.
abbrev setup : List FleetOp
setup =
    reserves_node 100 61 161 0
    ∷ reserves_node 100 62 162 0
    ∷ creates_group 71 171
    ∷ creates_group 72 172
    ∷ adds_member 71 61
    ∷ adds_member 72 61
    ∷ []

fleet : Db
unfolding create_node_group create_pending_node add_group_member
fleet = apply_all setup two_revisions

-- The bundle is assigned to group 71 as the Assignment 80.
assigned : Db
unfolding fleet create_assignment
assigned = apply_all (assigns 2500 80 71 1 10 ∷ []) fleet

abbrev first : Assignment
first = record {
  id = 80;
  group_id = 71;
  application_id = 1;
  environment_id = 10;
  revision_id = 51;
  status = active;
  created_at = 2500;
}

-- Group 72 shares node 61 with group 71, so the same bundle is refused there.
second_delivery_conflicts : (transact (create_assignment 2600 81 72 1 10) assigned).0 ≡ err conflict
unfolding assigned
second_delivery_conflicts = refl

create_assignment-pins_latest_example :
    (q : BundleRevision) × (51 ≡ q.id)
    × Memᴰ q fleet.bundle_revisions
    × (revision_in 1 10 q ≡ true)
    × ((r : BundleRevision)
        → Memᴰ r fleet.bundle_revisions
        → revision_in 1 10 r ≡ true
        → is_later r q ≡ false)
unfolding assigned
create_assignment-pins_latest_example =
    create_assignment-pins_latest 2500 80 71 1 10 fleet assigned first refl

-- The bundle is assigned to group 71, then in vain to group 72, and node 62 joins group 71.
abbrev requests : List FleetOp
requests = assigns 2500 80 71 1 10 ∷ assigns 2600 81 72 1 10 ∷ adds_member 71 62 ∷ []

after_requests : Db
unfolding fleet create_assignment add_group_member
after_requests = apply_all requests fleet

-- The Assignment stands and both nodes are in its group.
requests_assign :
    (find (λ a. a.id == 80) after_requests.assignments ≡ some first)
    × (any (λ a. a.id == 81) after_requests.assignments ≡ false)
    × (is_member 71 61 after_requests.group_members ≡ true)
    × (is_member 71 62 after_requests.group_members ≡ true)
unfolding after_requests
requests_assign = (refl, refl, refl, refl)

apply_all-IsUnambiguous_example : IsUnambiguous after_requests
unfolding after_requests
apply_all-IsUnambiguous_example = apply_all-IsUnambiguous requests fleet (record {
  one_group = λ a b node la lb same ma mb. elim la.0 [ ];
  one_assignment = λ a b la lb same e. elim la.0 [ ];
})

assigned_revisions_lem_example :
    (revisions : List ℕ) × (transact (assigned_revisions 61) assigned ≡ (ok revisions, assigned))
    × IsAscending revisions
    × ((revision : ℕ)
        → holds revision revisions ≡ any (delivers 61 revision assigned) assigned.assignments)
assigned_revisions_lem_example = assigned_revisions_lem 61 assigned

advance_desired_revision-advances_example :
    (transact (advance_desired_revision 1 10 50) assigned ≡ (ok tt, advanced 1 10 50 assigned))
    × ((a : Assignment)
        → Memᴰ a (advanced 1 10 50 assigned).assignments
        → is_bundle 1 10 a ≡ true
        → a.revision_id ≡ 50)
    × ((a : Assignment)
        → is_bundle 1 10 a ≡ false
        → Memᴰ a assigned.assignments ↔ Memᴰ a (advanced 1 10 50 assigned).assignments)
advance_desired_revision-advances_example = advance_desired_revision-advances 1 10 50 assigned

unassigned : Db
unfolding assigned unassign
unassigned = apply_cleanups (starts 80 ∷ []) assigned

unassign-stops_example :
    ((a : Assignment) → Memᴰ a unassigned.assignments → a.id ≡ 80 → is_active a.status ≡ false)
    × ((a : Assignment) → a.id ≢ 80 → Memᴰ a assigned.assignments ↔ Memᴰ a unassigned.assignments)
    × (transact (unassign 80) unassigned ≡ (err conflict, unassigned))
unfolding unassigned
unassign-stops_example = unassign-stops 80 assigned unassigned (new_task 80 61 ∷ []) refl

unassign-creates_tasks_example : task_in 80 61 unassigned ≡ some (new_task 80 61)
unfolding unassigned
unassign-creates_tasks_example =
    unassign-creates_tasks 80 61 assigned unassigned (new_task 80 61 ∷ []) first refl refl refl

-- Node 61 confirms its cleanup.
confirmed : Db
unfolding unassigned report_cleanup_task
confirmed = apply_cleanups (reports 80 61 result_cleaned 0 ∷ []) unassigned

abbrev later_cleanups : List CleanupOp
later_cleanups = abandons 80 ∷ starts 80 ∷ []

cleanups_follow_steps_example : Moved 80 61 pending (apply_cleanups later_cleanups unassigned)
unfolding unassigned
cleanups_follow_steps_example =
    cleanups_follow_steps 80 61 later_cleanups unassigned (new_task 80 61) refl

cleaned_stays_example :
    status_of (task_in 80 61 (apply_cleanups later_cleanups confirmed)) ≡ some cleaned
unfolding confirmed
cleaned_stays_example =
    cleaned_stays 80 61 later_cleanups confirmed
      (record { assignment_id = 80; node_id = 61; status = cleaned; error = 0 }) refl refl

abbrev open_token : EnrollmentToken
open_token = record {
  token_hash = 90;
  name = 163;
  expires_at = 3600;
  used_at = none;
  node_id = none;
}

with_token : Db
unfolding create_enrollment_token
with_token = apply_tokens (issues 90 163 3600 ∷ []) no_rows_at_all

enrolled : Db
unfolding with_token consume_enrollment_token
enrolled = apply_tokens (consumes 90 3000 ∷ []) with_token

consume_enrollment_token_lem_example :
    transact (consume_enrollment_token 90 3000) with_token
    ≡ consumption 90 3000 with_token (token_in 90 with_token)
consume_enrollment_token_lem_example = consume_enrollment_token_lem 90 3000 with_token

abbrev later_tokens : List TokenOp
later_tokens = issues 90 164 9000 ∷ issues 91 165 9000 ∷ consumes 91 3100 ∷ []

consumed_once_example :
    transact (consume_enrollment_token 90 3200) (apply_tokens later_tokens enrolled)
    ≡ (err conflict, apply_tokens later_tokens enrolled)
unfolding enrolled
consumed_once_example = consumed_once 90 3000 3200 later_tokens with_token enrolled open_token refl
