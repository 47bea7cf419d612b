-- ===== src/Store/Convergence/Observed.antt =====
-- core/internal/database/convergence.go: the observed Revision of a node over its reports.
use autosecrets.Prelude.{
  ℕ, ◌≡◌, refl, arith, ap, ◌∙◌, Bool, true, false, ◌&&◌, Option, none, some, List, [], ◌∷◌, ◌++◌,
  ◌==◌, any, find, update_if, if◌then◌else◌, Bool-cases, Option-cases, inl, inr,
}
use autosecrets.Store.Tx.{transact}
use autosecrets.Store.Convergence.{
  ConvergenceRow, ConvergenceDb, is_ok, is_pair, inserted_row, merged_row, upsert_row,
  record_convergence,
}

abbrev pub observed_row : Option ConvergenceRow → Option ℕ
observed_row none = none
observed_row (some r) = some r.observed_revision

-- The observed Revision that is stored for a node and an Assignment.
abbrev pub observed : ℕ → ℕ → List ConvergenceRow → Option ℕ
observed node assignment rows = observed_row (find (is_pair node assignment) rows)

abbrev pub or_empty : Option ℕ → ℕ
or_empty none = 0
or_empty (some x) = x

-- What one report makes of it: a success sets it, a failure keeps it, and the first failure leaves it empty.
abbrev pub observed_after : ℕ → ℕ → ConvergenceRow → Option ℕ → Option ℕ
observed_after node assignment r before =
    if is_pair node assignment r
    then some (if is_ok r.result then r.observed_revision else or_empty before)
    else before

abbrev kept_or_set : ConvergenceRow → Option ℕ → Option ℕ
kept_or_set r none = none
kept_or_set r (some x) = some (if is_ok r.result then r.observed_revision else x)

find-update_if :
    (node assignment : ℕ) (r : ConvergenceRow) (rows : List ConvergenceRow)
    → observed node assignment (update_if (is_pair r.node_id r.assignment_id) (merged_row r) rows)
      ≡ (if is_pair node assignment r
          then kept_or_set r (observed node assignment rows)
          else observed node assignment rows)
find-update_if node assignment r [] = ground arith
find-update_if node assignment r (x ∷ rows) = ground (arith, find-update_if node assignment r rows)

same_pair :
    (node assignment : ℕ) (r : ConvergenceRow) (rows : List ConvergenceRow)
    → is_pair node assignment r ≡ true
    → any (is_pair r.node_id r.assignment_id) rows ≡ true
    → find (is_pair node assignment) rows ≡ none
    → ⊥
same_pair node assignment r [] p h n = ground (arith, h)
same_pair node assignment r (x ∷ rows) p h n =
    same_pair node assignment r rows p (ground (arith, p, h, n)) (ground (arith, p, h, n))

find-updated :
    (node assignment : ℕ) (r : ConvergenceRow) (rows : List ConvergenceRow)
    → any (is_pair r.node_id r.assignment_id) rows ≡ true
    → observed node assignment (update_if (is_pair r.node_id r.assignment_id) (merged_row r) rows)
      ≡ observed_after node assignment r (observed node assignment rows)
find-updated node assignment r rows h =
    find-update_if node assignment r rows ∙ elim (Bool-cases (is_pair node assignment r)) [
      | inr other ↦ ground (arith, other)
      | inl same ↦ elim (Option-cases (find (is_pair node assignment) rows)) [
        | inl missing ↦ absurd (same_pair node assignment r rows same h missing)
        | inr (x, found) ↦ ground (arith, same, found)
      ]
    ]

find-added :
    (node assignment : ℕ) (r : ConvergenceRow) (rows : List ConvergenceRow)
    → any (is_pair r.node_id r.assignment_id) rows ≡ false
    → observed node assignment (rows ++ inserted_row r ∷ [])
      ≡ observed_after node assignment r (observed node assignment rows)
find-added node assignment r [] h = ground arith
find-added node assignment r (x ∷ rows) h = ground (arith, h, find-added node assignment r rows)

-- Whether a report names a node, an Assignment, an Application and an Environment that are there.
abbrev pub is_known : ConvergenceDb → ConvergenceRow → Bool
is_known s r =
    (any (λ n. n == r.node_id) s.nodes && any (λ n. n == r.assignment_id) s.assignments)
    && (any (λ n. n == r.application_id) s.applications
        && any (λ n. n == r.environment_id) s.environments)

abbrev pub record_all : List ConvergenceRow → ConvergenceDb → ConvergenceDb
record_all [] s = s
record_all (r ∷ reports) s = record_all reports (transact (record_convergence r) s).1

-- The observed Revision as the reports say it, one after the other, without a table.
abbrev pub observed_over : ConvergenceDb → ℕ → ℕ → List ConvergenceRow → Option ℕ → Option ℕ
observed_over s node assignment [] before = before
observed_over s node assignment (r ∷ reports) before =
    observed_over s node assignment reports
      (if is_known s r then observed_after node assignment r before else before)

upsert_row-observed :
    (node assignment : ℕ) (r : ConvergenceRow) (rows : List ConvergenceRow)
    → observed node assignment (upsert_row r rows)
      ≡ observed_after node assignment r (observed node assignment rows)
upsert_row-observed node assignment r rows =
    elim (Bool-cases (any (is_pair r.node_id r.assignment_id) rows)) [
      | inl present ↦ rw present (find-updated node assignment r rows present)
      | inr absent ↦ rw absent (find-added node assignment r rows absent)
    ]

recorded :
    (r : ConvergenceRow) (s : ConvergenceDb)
    → (transact (record_convergence r) s).1 ≡ record s {
      node_convergence =
          if is_known s r then upsert_row r s.node_convergence else s.node_convergence;
    }
unfolding record_convergence
recorded r s = ground arith

observed_over-table :
    (s : ConvergenceDb) (rows : List ConvergenceRow) (node assignment : ℕ)
    (reports : List ConvergenceRow) (before : Option ℕ)
    → observed_over (record s { node_convergence = rows }) node assignment reports before
      ≡ observed_over s node assignment reports before
observed_over-table s rows node assignment [] before = refl
observed_over-table s rows node assignment (r ∷ reports) before =
    observed_over-table s rows node assignment reports
      (if is_known s r then observed_after node assignment r before else before)

observed_once :
    (node assignment : ℕ) (r : ConvergenceRow) (s : ConvergenceDb)
    → observed node assignment
        (if is_known s r then upsert_row r s.node_convergence else s.node_convergence)
      ≡ (if is_known s r
          then observed_after node assignment r (observed node assignment s.node_convergence)
          else observed node assignment s.node_convergence)
observed_once node assignment r s = elim (Bool-cases (is_known s r)) [
  | inl known ↦ rw known (upsert_row-observed node assignment r s.node_convergence)
  | inr unknown ↦ rw unknown refl
]

-- After any sequence of reports the observed Revision that is stored for a node and an Assignment is what the
-- reports say one after the other: a success sets it, a failure keeps it or leaves it empty at first, and a
-- report that names something unknown changes nothing.
pub record_all-observed :
    (node assignment : ℕ) (reports : List ConvergenceRow) (s : ConvergenceDb)
    → observed node assignment (record_all reports s).node_convergence
      ≡ observed_over s node assignment reports (observed node assignment s.node_convergence)
record_all-observed node assignment [] s = refl
record_all-observed node assignment (r ∷ reports) s =
    let rows = if is_known s r then upsert_row r s.node_convergence else s.node_convergence in
    ap (λ t. observed node assignment (record_all reports t).node_convergence) (recorded r s)
    ∙ (record_all-observed node assignment reports (record s { node_convergence = rows })
        ∙ (observed_over-table s rows node assignment reports (observed node assignment rows)
            ∙ ap (observed_over s node assignment reports) (observed_once node assignment r s)))
