-- ===== src/Admission/Tests.antt =====
-- include/admissionspec/ConnectionLimiter.hpp: a limiter of two connections with a bucket of small
-- numbers of tokens, run on a few calls, and the theorems on it applied.
use rpc_spec.Prelude.{
  ℕ, suc, ◌-◌, ◌≤◌, ◌≡◌, ◌↔◌, ◌⊎◌, ◌||◌, refl, true, false, none, some, [], ◌∷◌, leb, ◌==◌, ==_iff,
  length, arith, Text, str, if◌then◌else◌,
}
use rpc_spec.Prelude.Int.{ℤ, pos, negsuc, pos_part, ◌≤ℤ◌}
use rpc_spec.Prelude.Float.{Double, double_lt, double_le, is_nan, below, double_zero}
use rpc_spec.Admission.Decision.{admitted, admit_with, drop_with}
use rpc_spec.Admission.Ramp.{cost_for}
use rpc_spec.Admission.Bucket.{Folly, TimePoint, try_consume}
use rpc_spec.Admission.Limiter.{
  Eq, BucketSettings, BucketEntry, Buckets, Limiter, admit_pre, new_limiter, find, settle,
  evict_oldest, size, settle_call, run_call, Reachable, created, called,
}
use rpc_spec.Admission.Limiter.Table.{IsDistinct}
use rpc_spec.Admission.Limiter.Eviction.{IsOldest, IsEvicted, evict_oldest-IsOldest}
use rpc_spec.Admission.Limiter.Invariant.{IsBounded, Reachable-IsBounded}
use rpc_spec.Admission.Limiter.Settle.{bucket_for, settle-bucket_for, settle-frame}
use rpc_spec.Admission.Policy.{Resolved}
use rpc_spec.Admission.Limiter.Stages.{admit_pre_iff}
use rpc_spec.Admission.Limiter.Retry.{IsRefilled, admit_pre-retried}

abbrev number : ℕ → Double
number n = record { bits = n }

-- A bucket that is never refilled: its tokens are a count, and so are the doubles.
abbrev counting : Folly
counting = record {
  FollyBucket = ℕ;
  init = λ rate burst zero_time. burst.bits;
  consume = λ b cost now. if leb cost.bits b then (true, b - cost.bits) else (false, b);
  available = λ b now. number b;
  burst = λ b. number b;
  rate = λ b. double_zero;
  sub = λ x y. number (x.bits - y.bits);
  div = λ x y. double_zero;
  to_seconds = λ t. number (pos_part t);
}

abbrev numbers : Eq ℕ
numbers = record { beq = λ a b. a == b; beq_iff = ==_iff }

abbrev settings : BucketSettings
settings = record { capacity = number 5; refill_rate_per_second = double_zero }

abbrev seen_at : ℕ → ℕ → BucketEntry counting numbers
seen_at tokens time = record { bucket = tokens; last_seen = pos time }

-- Connections 1 and 2 are tracked, of which 2 was seen first.
abbrev sample_table : Buckets counting numbers
sample_table = (1, seen_at 4 20) ∷ (2, seen_at 3 10) ∷ []

abbrev sample_limiter : Limiter counting numbers
sample_limiter = record { settings = settings; max_connections = 2; buckets = sample_table }

sample_table-IsDistinct : IsDistinct counting numbers sample_table
unfolding find
sample_table-IsDistinct = (refl, (refl, tt))

evict_oldest-IsOldest_example :
    let after = evict_oldest counting numbers sample_table in
    (w : ℕ) × (d : BucketEntry counting numbers) × IsOldest counting numbers sample_table w d
    × ((c : ℕ)
        → find counting numbers c after
          ≡ (if w == c then none else find counting numbers c sample_table))
    × (suc (length after) ≡ length sample_table)
evict_oldest-IsOldest_example =
    evict_oldest-IsOldest counting numbers 1 (seen_at 4 20) ((2, seen_at 3 10) ∷ [])
      sample_table-IsDistinct

-- A limiter with a limit of one that two connections have called.
abbrev two_calls : Limiter counting numbers
two_calls = run_call counting numbers (settle_call 2 (admit_with (number 1)) (pos 9)) (
    run_call counting numbers (settle_call 1 (admit_with (number 1)) (pos 5))
      (new_limiter counting numbers settings 1))

two_calls-Reachable : Reachable counting numbers settings 1 two_calls
two_calls-Reachable =
    called (settle_call 2 (admit_with (number 1)) (pos 9))
      (called (settle_call 1 (admit_with (number 1)) (pos 5)) created)

Reachable-IsBounded_example :
    IsBounded counting numbers 1 two_calls.buckets
    × (size counting numbers two_calls ≤ suc (1 - 1))
    × (two_calls.settings ≡ settings)
    × (two_calls.max_connections ≡ 1)
Reachable-IsBounded_example =
    Reachable-IsBounded counting numbers settings 1 two_calls two_calls-Reachable

settle-bucket_for_example :
    let d = admit_with (number 2) in
    let r = settle counting numbers sample_limiter 3 d (pos 30) in
    let c =
      try_consume counting
        (bucket_for counting numbers sample_limiter 3 (pos 30))
        (number 2)
        (pos 30) in
    ((admitted r.0 ≡ true) ↔ ((admitted d ≡ true) × (c.0 ≡ true)))
    × (r.0 ≡ (
        if admitted d
        then (if c.0
            then admit_with (number 2)
            else drop_with (str "connection rate limit exceeded") double_zero)
        else d))
    × (find counting numbers 3 r.1.buckets ≡ (
        if admitted d || double_lt double_zero (number 2)
        then some (record { bucket = c.1; last_seen = pos 30 })
        else find counting numbers 3 sample_limiter.buckets))
settle-bucket_for_example =
    settle-bucket_for counting numbers sample_limiter 3 (admit_with (number 2)) (pos 30)

settle-frame_example :
    let after =
      find counting numbers 2
        (settle counting numbers sample_limiter 3 (admit_with (number 2)) (pos 30)).1.buckets in
    (after ≡ find counting numbers 2 sample_table)
    ⊎ ((after ≡ none)
        × (find counting numbers 3 sample_table ≡ none)
        × IsEvicted counting numbers 2 sample_table 2)
settle-frame_example =
    settle-frame counting numbers sample_limiter 3 2 (admit_with (number 2)) (pos 30)
      sample_table-IsDistinct refl

abbrev sample_limits : Resolved (Unit {0})
sample_limits = record {
  max_payload_bytes = 3;
  size_ramp = record { up_to_bytes = 3; cost = number 2 } ∷ [];
  extra = tt;
}

admit_pre_iff_example :
    (admitted (admit_pre counting numbers sample_limits sample_limiter 1 (65 ∷ 66 ∷ []) (pos 30)).0
      ≡ true)
    ↔ ((2 ≤ 3)
        × ((try_consume counting
              (bucket_for counting numbers sample_limiter 1 (pos 30))
              (cost_for sample_limits.size_ramp 2)
              (pos 30)).0
            ≡ true))
admit_pre_iff_example =
    admit_pre_iff counting numbers sample_limits sample_limiter 1 (65 ∷ 66 ∷ []) (pos 30)

-- A bucket that gives one attempt for each tick; it holds the tick from which it gives the next.
abbrev ticking : Folly
ticking = record {
  FollyBucket = ℕ;
  init = λ rate burst zero_time. zero_time.bits;
  consume = λ b cost now. if leb b now.bits then (true, suc now.bits) else (false, b);
  available = λ b now. now;
  burst = λ b. number 9;
  rate = λ b. number 1;
  sub = λ x y. number (x.bits - y.bits);
  div = λ x y. x;
  to_seconds = λ t. number (pos_part t);
}

ticking_given : (b : ℕ) (later : ℤ) → pos b ≤ℤ later → leb b (pos_part later) ≡ true
ticking_given b (pos n) h = ground arith
ticking_given b (negsuc n) h = absurd (omega arith)

ticking-IsRefilled : IsRefilled ticking
ticking-IsRefilled = record {
  refill = λ b cost h. (pos b, (λ later le. rw (ticking_given b later le) refl));
  keeps_burst = λ b cost t. refl;
  keeps_rate = λ b cost t. refl;
}

abbrev ticking_limiter : Limiter ticking numbers
ticking_limiter = record { settings = settings; max_connections = 2; buckets = [] }

abbrev two_bytes : Text
two_bytes = 65 ∷ 66 ∷ []

admit_pre-retried_example :
    (soon : TimePoint) × ((later : TimePoint)
      → soon ≤ℤ later
      → admitted
          (admit_pre ticking numbers sample_limits
            (admit_pre ticking numbers sample_limits ticking_limiter 1 two_bytes (pos 30)).1
            1
            two_bytes
            later).0
        ≡ true)
unfolding cost_for double_le double_lt is_nan below
admit_pre-retried_example =
    admit_pre-retried ticking ticking-IsRefilled numbers sample_limits ticking_limiter 1 two_bytes
      (pos 30) (omega arith) (refl, refl)
