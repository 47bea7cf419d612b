-- ===== src/Tests/Limiter.antt =====
-- Runs of core/internal/identity/rate_limit.go.
use autosecrets.Prelude.{
  ℕ, ◌+◌, ◌-◌, ◌*◌, ◌≤◌, ◌≡◌, refl, true, List, [], ◌∷◌, arith, lookup, length, leb, if◌then◌else◌,
  count_if,
}
use autosecrets.Identity.Limiter.{
  Buckets, auth_failure_window, max_failure_buckets, limited, failed, succeeded,
}
use autosecrets.Identity.Limiter.Bounds.{length-bounded}
use autosecrets.Identity.Limiter.Failures.{others-untouched}
use autosecrets.Identity.Limiter.Runs.{
  Call, fails, succeeds, asks, run_all, is_failure, limited-run_all,
}

abbrev minute : ℕ
minute = 60_000_000_000

abbrev two_sources : Buckets
two_sources =
    (7, record { count = 4; window_start = 0 })
    ∷ (9, record { count = 6; window_start = minute })
    ∷ []

fifth_failure_limits : (limited (failed 0 two_sources 7 minute) 7 (2 * minute)).1 ≡ true
unfolding failed limited
fifth_failure_limits = refl

length-bounded_example :
    (length (failed 0 two_sources 7 minute) ≤ max_failure_buckets)
    × (length (succeeded two_sources 7) ≤ max_failure_buckets)
    × (length (limited two_sources 7 minute).0 ≤ max_failure_buckets)
length-bounded_example = length-bounded 0 two_sources 7 minute (omega arith)

others-untouched_example :
    (lookup 9 (failed 0 two_sources 7 minute) ≡ lookup 9 two_sources)
    × (lookup 9 (succeeded two_sources 7) ≡ lookup 9 two_sources)
    × (lookup 9 (limited two_sources 7 minute).0 ≡ lookup 9 two_sources)
others-untouched_example = others-untouched 0 two_sources 7 9 minute (omega arith) (omega arith)

-- The source 3 fails four more times, while the source 9 succeeds and fails and the source 3 asks.
abbrev meanwhile : List Call
meanwhile =
    fails 0 3 1
    ∷ succeeds 9
    ∷ fails 0 3 minute
    ∷ asks 3 minute
    ∷ fails 0 9 minute
    ∷ fails 0 3 (2 * minute)
    ∷ fails 0 3 (3 * minute)
    ∷ []

limited-run_all_example :
    let l' = run_all (fails 0 3 0 ∷ meanwhile) two_sources in
    let failures = 1 + count_if (is_failure 3) meanwhile in
    ((limited l' 3 (4 * minute)).1 ≡ leb 5 failures)
    × ((limited l' 3 (4 * minute)).2
        ≡ (if leb 5 failures then 0 + auth_failure_window - 4 * minute else 0))
limited-run_all_example =
    limited-run_all 3 0 0 (4 * minute) meanwhile two_sources refl (omega arith)
      (refl, (refl, (refl, (refl, (refl, (refl, (refl, tt))))))) (omega arith)
