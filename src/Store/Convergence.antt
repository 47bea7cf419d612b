-- ===== src/Store/Convergence.antt =====
-- core/internal/database/convergence.go and gen/convergence.sql.go, `RecordConvergence`, on its table and the
-- ids that its foreign keys look at; core/internal/fleet/nodestate.go, the state of a node that is shown.
pub mod Observed
use autosecrets.Prelude.{
  ℕ, ◌-◌, Bool, true, false, not, ◌&&◌, Option, none, some, List, [], ◌∷◌, ◌++◌, ◌==◌, ltb, any,
  update_if, is_some, if◌then◌else◌,
}
use autosecrets.Store.Tx.{Tx, foreign_key_violation, gets, require, modify, ◌>>=◌, ◌>>◌}

-- The results that a report can have, as far as the statement tells them apart.
pub data ReportResult : Type 0 where
  report_ok report_failed : ReportResult

abbrev pub is_ok : ReportResult → Bool
is_ok report_ok = true
is_ok report_failed = false

-- `ConvergenceRow`, which has the columns of `node_convergence`; 0 is the empty text.
pub record ConvergenceRow : Type 0 where
  pub node_id : ℕ
  pub assignment_id : ℕ
  pub application_id : ℕ
  pub environment_id : ℕ
  pub desired_revision : ℕ
  pub observed_revision : ℕ
  pub stage : ℕ
  pub result : ReportResult
  pub error : ℕ
  pub reported_at : Option ℕ

pub record ConvergenceDb : Type 0 where
  pub nodes : List ℕ
  pub assignments : List ℕ
  pub applications : List ℕ
  pub environments : List ℕ
  pub node_convergence : List ConvergenceRow

-- The primary key.
abbrev pub is_pair : ℕ → ℕ → ConvergenceRow → Bool
is_pair node assignment r = r.node_id == node && r.assignment_id == assignment

-- `VALUES (…, CASE WHEN $8 = 'ok' THEN $6 ELSE '' END, …)`
abbrev pub inserted_row : ConvergenceRow → ConvergenceRow
inserted_row r = record r { observed_revision = if is_ok r.result then r.observed_revision else 0 }

-- `ON CONFLICT … DO UPDATE SET …`
abbrev pub merged_row : ConvergenceRow → ConvergenceRow → ConvergenceRow
merged_row r old = record r {
  node_id = old.node_id;
  assignment_id = old.assignment_id;
  observed_revision = if is_ok r.result then r.observed_revision else old.observed_revision;
}

abbrev pub upsert_row : ConvergenceRow → List ConvergenceRow → List ConvergenceRow
upsert_row r rows =
    if any (is_pair r.node_id r.assignment_id) rows
    then update_if (is_pair r.node_id r.assignment_id) (merged_row r) rows
    else rows ++ inserted_row r ∷ []

-- `RecordConvergence`
unfoldable pub record_convergence : ConvergenceRow → Tx ConvergenceDb (Unit {0})
record_convergence r = do
  nodes ← gets (λ s. s.nodes)
  require (any (λ n. n == r.node_id) nodes) foreign_key_violation
  assignments ← gets (λ s. s.assignments)
  require (any (λ n. n == r.assignment_id) assignments) foreign_key_violation
  applications ← gets (λ s. s.applications)
  require (any (λ n. n == r.application_id) applications) foreign_key_violation
  environments ← gets (λ s. s.environments)
  require (any (λ n. n == r.environment_id) environments) foreign_key_violation
  modify (λ s. record s { node_convergence = upsert_row r s.node_convergence })

pub data NodeState : Type 0 where
  never_online healthy converging failed offline : NodeState

-- `lastSeen != nil && now.Sub(*lastSeen) > offlineAfter`; times before `lastSeen` differ by less than 0.
abbrev pub is_offline : Option ℕ → ℕ → ℕ → Bool
is_offline none now offline_after = false
is_offline (some seen) now offline_after = ltb offline_after (now - seen)

-- `deriveNodeState`
unfoldable pub derive_node_state : Option ℕ → ℕ → ℕ → Bool → Bool → Bool → NodeState × Bool
derive_node_state last_seen now offline_after has_failed has_assignment all_converged =
    if has_failed
    then (failed, false)
    else if is_offline last_seen now offline_after
    then (offline, false)
    else if has_assignment && not all_converged
    then (converging, false)
    else if is_some last_seen
    then (healthy, not has_assignment)
    else (never_online, false)
