-- ===== src/Admission/Bucket.antt =====
-- include/admissionspec/TokenBucket.hpp: the adapter of folly's token bucket, which is a parameter,
-- with the arithmetic on doubles.
use rpc_spec.Prelude.{Bool, true, if◌then◌else◌}
use rpc_spec.Prelude.Int.{ℤ}
use rpc_spec.Prelude.Float.{Double, double_le, double_zero}

-- A point of `steady_clock`, in its ticks.
abbrev pub TimePoint : Type 0
TimePoint = ℤ

pub record Folly : Type 1 where
  pub FollyBucket : Type 0
  -- `folly::TokenBucket{rate, burst, zeroTime}`
  pub init : Double → Double → Double → FollyBucket
  -- `consume(toConsume, now)`
  pub consume : FollyBucket → Double → Double → Bool × FollyBucket
  -- `available(now)`, `burst()` and `rate()`
  pub available : FollyBucket → Double → Double
  pub burst : FollyBucket → Double
  pub rate : FollyBucket → Double
  -- `a - b` and `a / b` on doubles, and the seconds of a point in time.
  pub sub : Double → Double → Double
  pub div : Double → Double → Double
  pub to_seconds : TimePoint → Double

module _ (folly : Folly) where
  open folly use {FollyBucket}

  -- `fullStartZeroTime`
  unfoldable pub full_start_zero_time : Double → Double → Double → Double
  full_start_zero_time capacity refill_rate now_seconds =
      if double_le refill_rate double_zero
      then now_seconds
      else folly.sub now_seconds (folly.div capacity refill_rate)

  -- The constructor.
  unfoldable pub new_bucket : Double → Double → TimePoint → FollyBucket
  unfolding full_start_zero_time
  new_bucket capacity refill_rate now =
      folly.init refill_rate capacity
        (full_start_zero_time capacity refill_rate (folly.to_seconds now))

  -- `tryConsume`
  unfoldable pub try_consume : FollyBucket → Double → TimePoint → Bool × FollyBucket
  try_consume bucket cost now =
      if double_le cost double_zero
      then (true, bucket)
      else folly.consume bucket cost (folly.to_seconds now)

  unfoldable pub tokens_available : FollyBucket → TimePoint → Double
  tokens_available bucket now = folly.available bucket (folly.to_seconds now)
