-- ===== src/Admission/Limiter/Removal.antt =====
-- include/admissionspec/ConnectionLimiter.hpp: `sweepIdle` and `onDisconnect`.
use rpc_spec.Prelude.{
  ◌≡◌, refl, Option, none, some, [], ◌∷◌, arith, Bool-cases, inl, inr, if◌then◌else◌,
}
use rpc_spec.Prelude.Int.{ℤ}
use rpc_spec.Admission.Bucket.{Folly, TimePoint}
use rpc_spec.Admission.Limiter.{
  Eq, is_idle, BucketEntry, Buckets, find, Limiter, on_disconnect, erase_idle, sweep_idle,
}
use rpc_spec.Admission.Limiter.Table.{IsDistinct, beq_same, find-erase_iff}
use rpc_spec.Admission.Limiter.Invariant.{erase_idle-absent}

module _ (folly : Folly) {K : Type 0} (eq : Eq K) where
  -- The record, unless it is idle.
  abbrev pub unless_idle :
      TimePoint → ℤ → Option (BucketEntry folly eq) → Option (BucketEntry folly eq)
  unless_idle now idle_for none = none
  unless_idle now idle_for (some e) = if is_idle now idle_for e.last_seen then none else some e

  erase_idle-find :
      (now : TimePoint) (idle_for : ℤ) (c : K) (m : Buckets folly eq)
      → IsDistinct folly eq m
      → find folly eq c (erase_idle folly eq now idle_for m)
        ≡ unless_idle now idle_for (find folly eq c m)
  unfolding find erase_idle
  erase_idle-find now idle_for c [] h = refl
  erase_idle-find now idle_for c ((k, e) ∷ m) (n, h) = elim (Bool-cases (eq.beq k c)) [
    | inr other ↦ ground (arith, erase_idle-find now idle_for c m h)
    | inl same ↦ ground (arith, erase_idle-absent folly eq now idle_for k m n, beq_same eq k c same)
  ]

  -- A sweep forgets the connections that were not seen for the time given, and no others: every
  -- connection is looked up after it as before, unless its record is idle.
  pub sweep_idle-find :
      (s : Limiter folly eq) (now : TimePoint) (idle_for : ℤ) (c : K)
      → IsDistinct folly eq s.buckets
      → find folly eq c (sweep_idle folly eq s now idle_for).buckets
        ≡ unless_idle now idle_for (find folly eq c s.buckets)
  unfolding sweep_idle
  sweep_idle-find s now idle_for c h = erase_idle-find now idle_for c s.buckets h

  -- A connection that is closed has no bucket any more, and every other one keeps its own.
  pub on_disconnect-find :
      (s : Limiter folly eq) (conn c : K)
      → IsDistinct folly eq s.buckets
      → find folly eq c (on_disconnect folly eq s conn).buckets
        ≡ (if eq.beq conn c then none else find folly eq c s.buckets)
  unfolding on_disconnect
  on_disconnect-find s conn c h = find-erase_iff folly eq conn c s.buckets h
