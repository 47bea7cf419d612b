-- ===== src/Identity/Limiter.antt =====
-- core/internal/identity/rate_limit.go. The mutex serialises the calls, so each is a function of
-- the map. Times and durations count nanoseconds.
pub mod Bounds
pub mod Failures
pub mod Runs
use autosecrets.Prelude.{
  ℕ, ◌+◌, ◌-◌, ◌*◌, ◌%◌, ◌^◌, Bool, true, false, not, Option, none, some, Dict, lookup, insert,
  erase, keep_if, erase_at, length, ltb, leb, if◌then◌else◌,
}

abbrev pub auth_failure_limit : ℕ
auth_failure_limit = 5

abbrev pub auth_failure_window : ℕ
auth_failure_window = 5 * 60 * 10 ^ 9

abbrev pub max_failure_buckets : ℕ
max_failure_buckets = 10_000

pub record FailureBucket : Type 0 where
  pub count : ℕ
  pub window_start : ℕ

abbrev pub Buckets : Type 0
Buckets = Dict FailureBucket

-- `now.Before(bucket.windowStart.Add(authFailureWindow))`
abbrev pub is_live : ℕ → FailureBucket → Bool
is_live now b = ltb now (b.window_start + auth_failure_window)

-- The bucket that the code reads, `none` when it is missing or its window is over.
abbrev pub live_bucket : ℕ → Option FailureBucket → Option FailureBucket
live_bucket now none = none
live_bucket now (some b) = if is_live now b then some b else none

limited_by : Buckets → ℕ → ℕ → Option FailureBucket → Buckets × Bool × ℕ
limited_by l key now none = (erase key l, false, 0)
limited_by l key now (some b) =
    if ltb b.count auth_failure_limit
    then (l, false, 0)
    else (l, true, b.window_start + auth_failure_window - now)

-- The map afterwards, whether the source is limited, and for how long.
unfoldable pub limited : Buckets → ℕ → ℕ → Buckets × Bool × ℕ
unfolding limited_by
limited l key now = limited_by l key now (live_bucket now (lookup key l))

-- The first loop of `failed`: over the bound, buckets whose window is over go.
purge : ℕ → Buckets → Buckets
purge now l = if leb max_failure_buckets (length l) then keep_if (λ e. is_live now e.1) l else l

-- The second loop: still over the bound, the first bucket of the iteration goes. Go leaves the
-- order open, so `pick` says which one that is.
evict : ℕ → Buckets → Buckets
evict pick l = if leb max_failure_buckets (length l) then erase_at (pick % length l) l else l

abbrev bump : FailureBucket → FailureBucket
bump b = record b { count = b.count + 1 }

failed_by : ℕ → Buckets → ℕ → ℕ → Option FailureBucket → Buckets
unfolding purge evict
failed_by pick l key now (some b) = insert key (bump b) l
failed_by pick l key now none =
    insert key (bump (record { count = 0; window_start = now })) (evict pick (purge now l))

unfoldable pub failed : ℕ → Buckets → ℕ → ℕ → Buckets
unfolding failed_by
failed pick l key now = failed_by pick l key now (live_bucket now (lookup key l))

unfoldable pub succeeded : Buckets → ℕ → Buckets
succeeded l key = erase key l
