-- ===== src/Admission/Limiter/Retry.antt =====
-- include/admissionspec/ConnectionLimiter.hpp: a connection that tries again. That folly's bucket is
-- refilled, as its documentation says, is a hypothesis.
use rpc_spec.Prelude.{◌≡◌, ◌≤◌, refl, sym, subst, Text, true, some, inl, inr, length, Bool-cases}
use rpc_spec.Prelude.Int.{pos, ◌≤ℤ◌}
use rpc_spec.Prelude.Float.{Double, double_le, double_lt, double_zero}
use rpc_spec.Admission.Decision.{AdmissionDecision, admitted}
use rpc_spec.Admission.Ramp.{cost_for}
use rpc_spec.Admission.Policy.{Resolved, pre_admit}
use rpc_spec.Admission.Bucket.{Folly, TimePoint, try_consume}
use rpc_spec.Admission.Limiter.{Eq, BucketEntry, Limiter, find, settle, admit_pre, fresh_entry}
use rpc_spec.Admission.Limiter.Settle.{bucket_for, bucket_or, settle-bucket_for}
use rpc_spec.Admission.Limiter.Stages.{pre_admit-cost, admit_pre_iff}

-- A bucket can hold so many tokens, and more come to it.
abbrev pub CanHold : (folly : Folly) → folly.FollyBucket → Double → Type 0
CanHold folly b cost =
    (double_le cost (folly.burst b) ≡ true) × (double_lt double_zero (folly.rate b) ≡ true)

-- What folly says of its bucket: the tokens come at the rate, up to the burst, neither of which an
-- attempt changes.
pub record IsRefilled (folly : Folly) : Type 0 where
  pub refill :
      (b : folly.FollyBucket) (cost : Double)
      → CanHold folly b cost
      → (soon : TimePoint) × ((later : TimePoint)
          → soon ≤ℤ later
          → (folly.consume b cost (folly.to_seconds later)).0 ≡ true)
  pub keeps_burst :
      (b : folly.FollyBucket) (cost t : Double)
      → folly.burst (folly.consume b cost t).1 ≡ folly.burst b
  pub keeps_rate :
      (b : folly.FollyBucket) (cost t : Double)
      → folly.rate (folly.consume b cost t).1 ≡ folly.rate b

module _ (folly : Folly) (laws : IsRefilled folly) where
  try_consume-CanHold :
      (b : folly.FollyBucket) (cost : Double) (now : TimePoint)
      → CanHold folly b cost
      → CanHold folly (try_consume folly b cost now).1 cost
  unfolding try_consume
  try_consume-CanHold b cost now h = elim (Bool-cases (double_le cost double_zero)) [
    | inl free ↦ rw free h
    | inr other ↦
        rw
          (
            other,
            laws.keeps_burst b cost (folly.to_seconds now),
            laws.keeps_rate b cost (folly.to_seconds now),
          )
          h
  ]

  try_consume_later :
      (b : folly.FollyBucket) (cost : Double)
      → CanHold folly b cost
      → (soon : TimePoint) × ((later : TimePoint)
          → soon ≤ℤ later
          → (try_consume folly b cost later).0 ≡ true)
  unfolding try_consume
  try_consume_later b cost h = elim (Bool-cases (double_le cost double_zero)) [
    | inl free ↦ (pos 0, (λ later le. rw free refl))
    | inr other ↦
        let (soon, taken) = laws.refill b cost h in (soon, (λ later le. rw other (taken later le)))
  ]

  module _ {K : Type 0} (eq : Eq K) {Extra : Type 0} (cfg : Resolved Extra) where
    -- The entry of a connection after an attempt.
    abbrev pub left : folly.FollyBucket → Double → TimePoint → BucketEntry folly eq
    left b cost now = record { bucket = (try_consume folly b cost now).1; last_seen = now }

    settle-admitted :
        (s : Limiter folly eq) (conn : K) (d : AdmissionDecision) (now : TimePoint)
        → admitted d ≡ true
        → find folly eq conn (settle folly eq s conn d now).1.buckets
          ≡ some (left (bucket_for folly eq s conn now) d.token_cost now)
    settle-admitted s conn d now allowed =
        let (_, _, found) = settle-bucket_for folly eq s conn d now in rw allowed at found

    admit_pre-bucket :
        (s : Limiter folly eq) (conn : K) (payload : Text) (now : TimePoint)
        → length payload ≤ cfg.max_payload_bytes
        → find folly eq conn (admit_pre folly eq cfg s conn payload now).1.buckets
          ≡ some
              (left (bucket_for folly eq s conn now) (cost_for cfg.size_ramp (length payload)) now)
    unfolding admit_pre
    admit_pre-bucket s conn payload now le =
        let (within, cost) = pre_admit-cost payload cfg in
        subst
          (λ z.
            find folly eq conn (settle folly eq s conn (pre_admit payload cfg) now).1.buckets
            ≡ some (left (bucket_for folly eq s conn now) z now))
          cost (settle-admitted s conn (pre_admit payload cfg) now (within.1 le))

    -- A payload within the limit of its type, at a cost that the connection's bucket can hold, is
    -- admitted if the connection sends it again late enough, whatever the answer was before; folly's
    -- bucket is refilled at its rate up to its burst.
    pub admit_pre-retried :
        (s : Limiter folly eq) (conn : K) (payload : Text) (now : TimePoint)
        → length payload ≤ cfg.max_payload_bytes
        → CanHold folly (bucket_for folly eq s conn now) (cost_for cfg.size_ramp (length payload))
        → (soon : TimePoint) × ((later : TimePoint)
            → soon ≤ℤ later
            → admitted
                (admit_pre folly eq cfg
                  (admit_pre folly eq cfg s conn payload now).1
                  conn
                  payload
                  later).0
              ≡ true)
    admit_pre-retried s conn payload now le h =
        let cost = cost_for cfg.size_ramp (length payload) in
        let before = bucket_for folly eq s conn now in
        let s' = (admit_pre folly eq cfg s conn payload now).1 in
        let (soon, taken) =
          try_consume_later (try_consume folly before cost now).1 cost
            (try_consume-CanHold before cost now h) in
        (
          soon,
          (λ later after. (admit_pre_iff folly eq cfg s' conn payload later).1 (
            le,
            subst
                (λ o.
                  (try_consume folly
                    (bucket_or folly eq (fresh_entry folly eq s'.settings later).bucket o) cost
                    later).0
                  ≡ true)
                (sym (admit_pre-bucket s conn payload now le)) (taken later after),
          )),
        )
