-- ===== src/Admission/Limiter/Settle.antt =====
-- include/admissionspec/ConnectionLimiter.hpp: the outcome of `charge` and `penalize`, and what they
-- leave alone.
use rpc_spec.Prelude.{
  if◌then◌else◌, str, ◌||◌, ◌≡◌, ◌↔◌, refl, ◌∙◌, true, false, Option, none, some, arith, Bool-cases,
  Option-cases, inl, inr, ◌⊎◌,
}
use rpc_spec.Prelude.Float.{Double, double_lt, double_zero}
use rpc_spec.Admission.Decision.{
  AdmissionDecision, admitted, dropped, admit_with, drop_with, admitted_action, dropped_action,
  is_admit, is_drop,
}
use rpc_spec.Admission.Bucket.{Folly, TimePoint, try_consume}
use rpc_spec.Admission.Limiter.{
  Eq, BucketEntry, find, Limiter, touch_bucket, consume_in, debit, charge, penalize, settle, seen,
  fresh_entry,
}
use rpc_spec.Admission.Limiter.Table.{IsDistinct, beq_self, find-update, find-update_other}
use rpc_spec.Admission.Limiter.Eviction.{find-make_room, IsEvicted}
use rpc_spec.Admission.Limiter.Invariant.{touch_bucket-found, touch_bucket-absent}

module _ (folly : Folly) {K : Type 0} (eq : Eq K) where
  open folly use {FollyBucket}

  abbrev pub bucket_or : FollyBucket → Option (BucketEntry folly eq) → FollyBucket
  bucket_or b none = b
  bucket_or b (some e) = e.bucket

  -- The bucket that a connection has: that of the table, or a new one.
  abbrev pub bucket_for : Limiter folly eq → K → TimePoint → FollyBucket
  bucket_for s conn now =
      bucket_or (fresh_entry folly eq s.settings now).bucket (find folly eq conn s.buckets)

  -- The iterator points to the connection's bucket, stamped with the time, in the new table.
  touch_bucket-bucket_for :
      (s : Limiter folly eq) (conn : K) (now : TimePoint)
      → let t = touch_bucket folly eq s.settings s.max_connections s.buckets conn now in
        (t.1 ≡ record { bucket = bucket_for s conn now; last_seen = now })
        × (find folly eq conn t.0 ≡ some t.1)
  unfolding find
  touch_bucket-bucket_for s conn now = elim (Option-cases (find folly eq conn s.buckets)) [
    | inr (e, found) ↦
        rw
          (
            touch_bucket-found folly eq s.settings s.max_connections s.buckets conn now e found,
            found,
          )
          (refl, find-update folly eq conn e (seen folly eq now e) s.buckets found)
    | inl absent ↦
        rw
          (
            touch_bucket-absent folly eq s.settings s.max_connections s.buckets conn now absent,
            absent,
          )
          (refl, ground (arith, beq_self eq conn))
  ]

  debit-bucket_for :
      (s : Limiter folly eq) (conn : K) (cost : Double) (now : TimePoint)
      → let r = debit folly eq s conn cost now in
        let c = try_consume folly (bucket_for s conn now) cost now in
        (r.0 ≡ c.0)
        × (find folly eq conn r.1.buckets ≡ some (record { bucket = c.1; last_seen = now }))
  unfolding debit consume_in
  debit-bucket_for s conn cost now =
      let t = touch_bucket folly eq s.settings s.max_connections s.buckets conn now in
      let (entry, found) = touch_bucket-bucket_for s conn now in
      ((rw entry refl), (find-update folly eq conn t.1 _ t.0 found ∙ rw entry refl))

  action-cases :
      (d : AdmissionDecision)
      → ((admitted d ≡ true) × (dropped d ≡ false)) ⊎ ((admitted d ≡ false) × (dropped d ≡ true))
  action-cases d =
      elim d.action
        as (λ a.
          ((is_admit a ≡ true) × (is_drop a ≡ false))
          ⊎ ((is_admit a ≡ false) × (is_drop a ≡ true))) [
            | admitted_action ↦ inl (refl, refl)
            | dropped_action ↦ inr (refl, refl)
          ]

  -- The outcome of a decision, whatever it is. The call admits exactly if the decision does and the
  -- connection's bucket, its own or a new one, gives the tokens: at the cost of the decision, or else
  -- the rate limit is the reason of the drop. A decision that drops is returned as it is. A decision that admits, and one that drops at a cost above zero, leaves in the table the
  -- bucket after that attempt, stamped with the time; any other leaves the connection as it was.
  pub settle-bucket_for :
      (s : Limiter folly eq) (conn : K) (d : AdmissionDecision) (now : TimePoint)
      → let r = settle folly eq s conn d now in
        let c = try_consume folly (bucket_for s conn now) d.token_cost now in
        ((admitted r.0 ≡ true) ↔ ((admitted d ≡ true) × (c.0 ≡ true)))
        × (r.0 ≡ (
            if admitted d
            then (if c.0
                then admit_with d.token_cost
                else drop_with (str "connection rate limit exceeded") double_zero)
            else d))
        × (find folly eq conn r.1.buckets ≡ (
            if admitted d || double_lt double_zero d.token_cost
            then some (record { bucket = c.1; last_seen = now })
            else find folly eq conn s.buckets))
  unfolding settle charge penalize
  settle-bucket_for s conn d now =
      let (taken, spent) = debit-bucket_for s conn d.token_cost now in
      (
        (
          (λ h. (ground (arith, action-cases d, taken), ground (arith, action-cases d, taken))),
          (λ (a, t). ground (arith, action-cases d, taken)),
        ),
        ground (arith, action-cases d, taken),
        ground (arith, action-cases d, spent),
      )

  touch_bucket-frame :
      (s : Limiter folly eq) (conn c : K) (now : TimePoint)
      → IsDistinct folly eq s.buckets
      → eq.beq conn c ≡ false
      → let t = touch_bucket folly eq s.settings s.max_connections s.buckets conn now in
        (find folly eq c t.0 ≡ find folly eq c s.buckets)
        ⊎ ((find folly eq c t.0 ≡ none)
            × (find folly eq conn s.buckets ≡ none)
            × IsEvicted folly eq s.max_connections s.buckets c)
  unfolding find
  touch_bucket-frame s conn c now h other = elim (Option-cases (find folly eq conn s.buckets)) [
    | inr (e, found) ↦ inl (
        rw (touch_bucket-found folly eq s.settings s.max_connections s.buckets conn now e found)
          (find-update_other folly eq conn c (seen folly eq now e) s.buckets other))
    | inl absent ↦ elim (find-make_room folly eq s.max_connections s.buckets c h) [
      | inl same ↦ inl (
          rw (touch_bucket-absent folly eq s.settings s.max_connections s.buckets conn now absent)
            (rw other same))
      | inr (gone, evicted) ↦ inr (
        rw (touch_bucket-absent folly eq s.settings s.max_connections s.buckets conn now absent)
            (rw other gone),
        absent,
        evicted,
      )
    ]
  ]

  debit-frame :
      (s : Limiter folly eq) (conn c : K) (cost : Double) (now : TimePoint)
      → eq.beq conn c ≡ false
      → find folly eq c (debit folly eq s conn cost now).1.buckets
        ≡ find folly eq c (touch_bucket folly eq s.settings s.max_connections s.buckets conn now).0
  unfolding debit consume_in
  debit-frame s conn c cost now other = find-update_other folly eq conn c _ _ other

  -- A call for one connection leaves the bucket of any other as it was, but for one case: the
  -- connection of the call was new, the table was full, and the other one is the one that was not
  -- seen for longest; that one is then gone.
  pub settle-frame :
      (s : Limiter folly eq) (conn c : K) (d : AdmissionDecision) (now : TimePoint)
      → IsDistinct folly eq s.buckets
      → eq.beq conn c ≡ false
      → let after = find folly eq c (settle folly eq s conn d now).1.buckets in
        (after ≡ find folly eq c s.buckets)
        ⊎ ((after ≡ none)
            × (find folly eq conn s.buckets ≡ none)
            × IsEvicted folly eq s.max_connections s.buckets c)
  unfolding settle charge penalize
  settle-frame s conn c d now h other =
      let touched = touch_bucket-frame s conn c now h other in
      let same = debit-frame s conn c d.token_cost now other in
      elim (Bool-cases (dropped d)) [
        | inr admit ↦ rw (admit, same) touched
        | inl drop ↦ elim (Bool-cases (double_lt double_zero d.token_cost)) [
          | inl penalty ↦ rw (drop, penalty, same) touched
          | inr free ↦ inl (rw (drop, free) refl)
        ]
      ]
