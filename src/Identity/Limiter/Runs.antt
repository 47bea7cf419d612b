-- ===== src/Identity/Limiter/Runs.antt =====
-- rate_limit.go: any run of failures, successes and queries of many sources, and when it limits one of them.
use autosecrets.Prelude.{
  ℕ, ◌+◌, ◌-◌, ◌≤◌, ◌<◌, ◌≡◌, Bool, true, false, not, ◌&&◌, ◌||◌, ◌==◌, inl, inr, none, some, List,
  [], ◌∷◌, arith, lookup, length, leb, ltb, count_if, if◌then◌else◌, All, Bool-cases, Option-cases,
  length-insert, length-erase,
}
use autosecrets.Identity.Limiter.{
  Buckets, FailureBucket, auth_failure_limit, auth_failure_window, max_failure_buckets, live_bucket,
  limited, limited_by, failed, failed_by, succeeded, purge, evict, bump,
}
use autosecrets.Identity.Limiter.Failures.{lookup-failed, others-untouched}

-- A call of the limiter: a failure, with the bucket that an eviction would take, a success, a query.
pub data Call : Type 0 where
  fails : ℕ → ℕ → ℕ → Call
  succeeds : ℕ → Call
  asks : ℕ → ℕ → Call

abbrev pub run : Call → Buckets → Buckets
run (fails pick key now) l = failed pick l key now
run (succeeds key) l = succeeded l key
run (asks key now) l = (limited l key now).0

abbrev pub run_all : List Call → Buckets → Buckets
run_all [] l = l
run_all (c ∷ calls) l = run_all calls (run c l)

abbrev pub is_failure : ℕ → Call → Bool
is_failure key (fails pick k now) = k == key
is_failure key (succeeds k) = false
is_failure key (asks k now) = false

abbrev is_within : ℕ → ℕ → Bool
is_within start now = leb start now && ltb now (start + auth_failure_window)

-- A call that leaves the window of a source open: of another source, or a failure or a query inside the
-- window that starts at `start`.
abbrev pub keeps_window : ℕ → ℕ → Call → Bool
keeps_window key start (fails pick k now) = not (k == key) || is_within start now
keeps_window key start (succeeds k) = not (k == key)
keeps_window key start (asks k now) = not (k == key) || is_within start now

abbrev bucket_after : ℕ → ℕ → ℕ → Call → FailureBucket
bucket_after key start n c = record {
  count = if is_failure key c then n + 1 else n;
  window_start = start;
}

length-run :
    (c : Call) (l : Buckets) → length l < max_failure_buckets → length (run c l) ≤ length l + 1
unfolding failed failed_by purge evict succeeded limited limited_by
length-run (fails pick k now) l h = elim (Option-cases (live_bucket now (lookup k l))) [
  | inl e ↦ ground (arith, length-insert k (bump (record { count = 0; window_start = now })) l)
  | inr (b, e) ↦ ground (arith, length-insert k (bump b) l)
]
length-run (succeeds k) l h = omega (arith, length-erase k l)
length-run (asks k now) l h = elim (Option-cases (live_bucket now (lookup k l))) [
  | inl e ↦ ground (arith, length-erase k l)
  | inr (b, e) ↦ ground (arith)
]

lookup-run :
    (key start n : ℕ) (c : Call) (l : Buckets)
    → length l < max_failure_buckets
    → keeps_window key start c ≡ true
    → lookup key l ≡ some (record { count = n; window_start = start })
    → lookup key (run c l) ≡ some (bucket_after key start n c)
unfolding limited limited_by
lookup-run key start n (fails pick k now) l h w e = elim (Bool-cases (k == key)) [
  | inl own ↦ ground (arith, lookup-failed pick l key now)
  | inr other ↦ ground (arith, (others-untouched pick l k key now h (ground (arith, other))).0)
]
lookup-run key start n (succeeds k) l h w e =
    ground (arith, (others-untouched 0 l k key 0 h (ground (arith, w))).1)
lookup-run key start n (asks k now) l h w e = elim (Bool-cases (k == key)) [
  | inl own ↦ ground arith
  | inr other ↦ ground (arith, (others-untouched 0 l k key now h (ground (arith, other))).2)
]

lookup-run_all :
    (key start n : ℕ) (calls : List Call) (l : Buckets)
    → length l + length calls ≤ max_failure_buckets
    → All (λ c. keeps_window key start c ≡ true) calls
    → lookup key l ≡ some (record { count = n; window_start = start })
    → lookup key (run_all calls l)
      ≡ some (record { count = n + count_if (is_failure key) calls; window_start = start })
lookup-run_all key start n [] l h w e = ground arith
lookup-run_all key start n (c ∷ calls) l h w e =
    let low : length l < max_failure_buckets = omega arith in
    let rest =
      lookup-run_all key start (bucket_after key start n c).count calls (run c l)
        (omega (arith, length-run c l low)) w.1 (lookup-run key start n c l low w.0 e) in
    elim (Bool-cases (is_failure key c)) [
      | inl own ↦ ground (arith, own, rest)
      | inr other ↦ ground (arith, other, rest)
    ]

limited_of_bucket :
    (l : Buckets) (key now n start : ℕ)
    → lookup key l ≡ some (record { count = n; window_start = start })
    → now < start + auth_failure_window
    → ((limited l key now).1 ≡ leb auth_failure_limit n)
      × ((limited l key now).2
          ≡ (if leb auth_failure_limit n then start + auth_failure_window - now else 0))
unfolding limited limited_by
limited_of_bucket l key now n start h w = ground arith

first_failure :
    (pick : ℕ) (l : Buckets) (key start : ℕ)
    → live_bucket start (lookup key l) ≡ none
    → lookup key (failed pick l key start) ≡ some (record { count = 1; window_start = start })
first_failure pick l key start dead = elim (Option-cases (lookup key l)) [
  | inl e ↦ ground (arith, e, lookup-failed pick l key start)
  | inr (b, e) ↦ ground (arith, e, dead, lookup-failed pick l key start)
]

-- A source without a live bucket fails at `start`, and then calls of any sources follow. The buckets, that
-- failure and the calls together are ten thousand at most, so that no bucket is evicted; the source itself
-- has no success, and its own failures and queries lie within the five minutes from `start` on. Before the
-- end of that window the source is then limited
-- exactly if it failed five times or more, the first failure included. The time it is told to wait is
-- what is left of the window if it is limited, and 0 otherwise.
pub limited-run_all :
    (key start pick now : ℕ) (calls : List Call) (l : Buckets)
    → live_bucket start (lookup key l) ≡ none
    → length l + 1 + length calls ≤ max_failure_buckets
    → All (λ c. keeps_window key start c ≡ true) calls
    → now < start + auth_failure_window
    → let l' = run_all (fails pick key start ∷ calls) l in
      let failures = 1 + count_if (is_failure key) calls in
      ((limited l' key now).1 ≡ leb 5 failures)
      × ((limited l' key now).2 ≡ (if leb 5 failures then start + auth_failure_window - now else 0))
limited-run_all key start pick now calls l dead room w lt =
    let low : length l < max_failure_buckets = omega arith in
    limited_of_bucket (run_all (fails pick key start ∷ calls) l) key now
      (1 + count_if (is_failure key) calls) start
      (lookup-run_all key start 1 calls (failed pick l key start)
        (omega (arith, length-run (fails pick key start) l low)) w
        (first_failure pick l key start dead))
      lt
