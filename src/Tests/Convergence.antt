-- ===== src/Tests/Convergence.antt =====
-- Runs of core/internal/database/convergence.go and core/internal/fleet/nodestate.go.
use autosecrets.Prelude.{ℕ, ◌≡◌, refl, true, false, none, some, List, [], ◌∷◌}
use autosecrets.Store.Convergence.{
  ReportResult, report_ok, report_failed, ConvergenceRow, ConvergenceDb, record_convergence,
  offline, healthy, derive_node_state,
}
use autosecrets.Store.Convergence.Observed.{
  observed, record_all, observed_over, record_all-observed,
}

abbrev report : ℕ → ReportResult → ConvergenceRow
report revision outcome = record {
  node_id = 1;
  assignment_id = 2;
  application_id = 3;
  environment_id = 4;
  desired_revision = 9;
  observed_revision = revision;
  stage = 0;
  result = outcome;
  error = 0;
  reported_at = none;
}

abbrev no_reports : ConvergenceDb
no_reports = record {
  nodes = 1 ∷ [];
  assignments = 2 ∷ [];
  applications = 3 ∷ [];
  environments = 4 ∷ [];
  node_convergence = [];
}

abbrev reports : List ConvergenceRow
reports = report 8 report_ok ∷ report 9 report_failed ∷ []

-- The failed activation of 9 keeps 8.
failure_keeps : observed 1 2 (record_all reports no_reports).node_convergence ≡ some 8
unfolding record_convergence
failure_keeps = refl

record_all-observed_example :
    observed 1 2 (record_all reports no_reports).node_convergence
    ≡ observed_over no_reports 1 2 reports (observed 1 2 no_reports.node_convergence)
record_all-observed_example = record_all-observed 1 2 reports no_reports

-- An overdue node is offline, and one without an Assignment is healthy and unassigned.
states :
    (derive_node_state (some 10) 500 90 false true true ≡ (offline, false))
    × (derive_node_state (some 450) 500 90 false false false ≡ (healthy, true))
unfolding derive_node_state
states = (refl, refl)
