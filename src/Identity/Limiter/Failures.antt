-- ===== src/Identity/Limiter/Failures.antt =====
-- rate_limit.go: what one failure, success or query does to its own source and to the others.
use autosecrets.Prelude.{
  ℕ, ◌<◌, ◌≡◌, ◌≢◌, inl, inr, Option, none, some, arith, lookup, length, if◌then◌else◌,
  Option-cases, lookup-insert, lookup-erase,
}
use autosecrets.Identity.Limiter.{
  Buckets, FailureBucket, max_failure_buckets, is_live, limited, limited_by, failed, failed_by,
  succeeded, purge, evict, bump,
}

-- The bucket of a source after one more failure.
abbrev pub counted : ℕ → Option FailureBucket → FailureBucket
counted now none = record { count = 1; window_start = now }
counted now (some b) = if is_live now b then bump b else record { count = 1; window_start = now }

-- A failure always lands in the source's own bucket, also when the map is full: it counts up in a
-- live window and opens a window at `now` otherwise.
pub lookup-failed :
    (pick : ℕ) (l : Buckets) (key now : ℕ)
    → lookup key (failed pick l key now) ≡ some (counted now (lookup key l))
unfolding failed failed_by
lookup-failed pick l key now = elim (Option-cases (lookup key l)) [
  | inl e ↦ ground (arith, lookup-insert key key (counted now none) (evict pick (purge now l)))
  | inr (b, e) ↦ ground (
    arith,
    lookup-insert key key (bump b) l,
    lookup-insert key key (counted now none) (evict pick (purge now l)),
  )
]

-- Below the bound a failure, a success and a query of one source leave every other source alone.
pub others-untouched :
    (pick : ℕ) (l : Buckets) (key other now : ℕ)
    → length l < max_failure_buckets
    → other ≢ key
    → (lookup other (failed pick l key now) ≡ lookup other l)
      × (lookup other (succeeded l key) ≡ lookup other l)
      × (lookup other (limited l key now).0 ≡ lookup other l)
unfolding failed failed_by purge evict succeeded limited limited_by
others-untouched pick l key other now h ne = (
  ground (
    arith,
    lookup-insert other key (counted now (lookup key l)) l,
    lookup-insert other key (counted now none) l,
  ),
  ground (arith, lookup-erase other key l),
  ground (arith, lookup-erase other key l),
)
