-- ===== src/Identity/Limiter/Bounds.antt =====
-- rate_limit.go: the map stays within its bound, whatever source fails and whichever bucket goes.
use autosecrets.Prelude.{
  ℕ, ◌%◌, ◌≤◌, ◌<◌, ◌≡◌, refl, Option, none, some, arith, lookup, length, length-keep_if,
  length-erase_at, length-insert, length-insert_known, length-erase,
}
use autosecrets.Identity.Limiter.{
  Buckets, FailureBucket, max_failure_buckets, is_live, live_bucket, limited, failed, failed_by,
  succeeded, purge, evict,
}

length-purge : (now : ℕ) (l : Buckets) → length (purge now l) ≤ length l
unfolding purge
length-purge now l = ground (arith, length-keep_if (λ e. is_live now e.1) l)

length-evict :
    (pick : ℕ) (l : Buckets)
    → length l ≤ max_failure_buckets
    → length (evict pick l) < max_failure_buckets
unfolding evict
length-evict pick l h = ground (arith, length-erase_at (pick % length l) l)

length-failed_by :
    (pick : ℕ) (l : Buckets) (key now : ℕ) (o : Option FailureBucket)
    → ((b : FailureBucket) → o ≡ some b → (c : FailureBucket) × (lookup key l ≡ some c))
    → length l ≤ max_failure_buckets
    → length (failed_by pick l key now o) ≤ max_failure_buckets
unfolding failed_by
length-failed_by pick l key now (some b) known h =
    let (c, e) = known b refl in omega (arith, length-insert_known key _ c l e)
length-failed_by pick l key now none known h =
    omega (arith, length-insert {0}, length-evict pick (purge now l), length-purge now l)

live_bucket_known :
    (now : ℕ) (o : Option FailureBucket) (b : FailureBucket)
    → live_bucket now o ≡ some b
    → (c : FailureBucket) × (o ≡ some c)
live_bucket_known now none b h = cc
live_bucket_known now (some c) b h = (c, refl)

-- The bound of ten thousand sources holds after every operation if it held before it: `failed`,
-- whichever bucket the iteration meets first, `succeeded`, and the deletion that `limited` makes.
pub length-bounded :
    (pick : ℕ) (l : Buckets) (key now : ℕ)
    → length l ≤ max_failure_buckets
    → (length (failed pick l key now) ≤ max_failure_buckets)
      × (length (succeeded l key) ≤ max_failure_buckets)
      × (length (limited l key now).0 ≤ max_failure_buckets)
unfolding failed succeeded limited
length-bounded pick l key now h = (
  length-failed_by pick l key now (live_bucket now (lookup key l))
      (λ b. live_bucket_known now (lookup key l) b) h,
  omega (arith, length-erase key l),
  ground (arith, length-erase key l),
)
