-- ===== src/Admission/Limiter/Invariant.antt =====
-- include/admissionspec/ConnectionLimiter.hpp: what every call keeps.
use rpc_spec.Prelude.{
  ℕ, suc, ◌-◌, ◌≤◌, ◌≡◌, refl, sym, subst, ◌∙◌, none, some, [], ◌∷◌, length, arith, Bool-cases,
  Option-cases, inl, inr,
}
use rpc_spec.Prelude.Int.{ℤ}
use rpc_spec.Prelude.Float.{Double, double_lt, double_zero}
use rpc_spec.Admission.Decision.{AdmissionDecision, dropped}
use rpc_spec.Admission.Bucket.{Folly, TimePoint}
use rpc_spec.Admission.Limiter.{
  Eq, BucketSettings, BucketEntry, Buckets, find, update, make_room, Limiter, touch_bucket,
  consume_in, debit, charge, penalize, settle, on_disconnect, erase_idle, sweep_idle, Call,
  settle_call, disconnect_call, sweep_call, run_call, Reachable, created, called, new_limiter, size,
  is_idle, seen, fresh_entry,
}
use rpc_spec.Admission.Limiter.Table.{
  IsDistinct, length-update, length-erase_le, erase-IsDistinct, update-IsDistinct,
}
use rpc_spec.Admission.Limiter.Eviction.{make_room-IsDistinct, length-make_room, find-make_room}

module _ (folly : Folly) {K : Type 0} (eq : Eq K) where
  -- No connection has two buckets, and the limit is kept, where zero counts as one.
  pub record IsBounded (n : ℕ) (m : Buckets folly eq) : Type 0 where
    pub distinct : IsDistinct folly eq m
    pub bounded : length m ≤ suc (n - 1)

  update-IsBounded :
      (n : ℕ) (conn : K) (e : BucketEntry folly eq) (m : Buckets folly eq)
      → IsBounded n m
      → IsBounded n (update folly eq conn e m)
  update-IsBounded n conn e m h = record {
    distinct = update-IsDistinct folly eq conn e m h.distinct;
    bounded = omega (arith, length-update folly eq conn e m, h.bounded);
  }

  -- What the table does not have, it does not have after room is made.
  make_room-absent :
      (n : ℕ) (m : Buckets folly eq) (c : K)
      → IsDistinct folly eq m
      → find folly eq c m ≡ none
      → find folly eq c (make_room folly eq n m) ≡ none
  make_room-absent n m c h absent = elim (find-make_room folly eq n m c h) [
    | inl same ↦ same ∙ absent
    | inr (gone, _) ↦ gone
  ]

  pub touch_bucket-found :
      (settings : BucketSettings) (n : ℕ) (m : Buckets folly eq) (conn : K) (now : TimePoint)
      (e : BucketEntry folly eq)
      → find folly eq conn m ≡ some e
      → touch_bucket folly eq settings n m conn now
        ≡ (update folly eq conn (seen folly eq now e) m, seen folly eq now e)
  unfolding touch_bucket
  touch_bucket-found settings n m conn now e found = ground arith

  pub touch_bucket-absent :
      (settings : BucketSettings) (n : ℕ) (m : Buckets folly eq) (conn : K) (now : TimePoint)
      → find folly eq conn m ≡ none
      → let e = seen folly eq now (fresh_entry folly eq settings now) in
        touch_bucket folly eq settings n m conn now ≡ ((conn, e) ∷ make_room folly eq n m, e)
  unfolding touch_bucket
  touch_bucket-absent settings n m conn now absent = ground arith

  touch_bucket-IsBounded :
      (settings : BucketSettings) (n : ℕ) (m : Buckets folly eq) (conn : K) (now : TimePoint)
      → IsBounded n m
      → IsBounded n (touch_bucket folly eq settings n m conn now).0
  touch_bucket-IsBounded settings n m conn now h = elim (Option-cases (find folly eq conn m)) [
    | inr (e, found) ↦
        rw (touch_bucket-found settings n m conn now e found)
          (update-IsBounded n conn (seen folly eq now e) m h)
    | inl absent ↦
        let placed : IsBounded n (
            (conn, seen folly eq now (fresh_entry folly eq settings now))
            ∷ make_room folly eq n m) =
          record {
            distinct = (
              make_room-absent n m conn h.distinct absent,
              make_room-IsDistinct folly eq n m h.distinct,
            );
            bounded = omega (arith, length-make_room folly eq n m h.distinct h.bounded);
          } in
        rw (touch_bucket-absent settings n m conn now absent) placed
  ]

  debit-IsBounded :
      (s : Limiter folly eq) (conn : K) (cost : Double) (now : TimePoint)
      → IsBounded s.max_connections s.buckets
      → IsBounded s.max_connections (debit folly eq s conn cost now).1.buckets
  unfolding debit consume_in
  debit-IsBounded s conn cost now h =
      update-IsBounded s.max_connections conn _ _
        (touch_bucket-IsBounded s.settings s.max_connections s.buckets conn now h)

  settle-IsBounded :
      (s : Limiter folly eq) (conn : K) (d : AdmissionDecision) (now : TimePoint)
      → IsBounded s.max_connections s.buckets
      → IsBounded s.max_connections (settle folly eq s conn d now).1.buckets
  unfolding settle charge penalize
  settle-IsBounded s conn d now h = elim (Bool-cases (dropped d)) [
    | inr admit ↦ rw admit (debit-IsBounded s conn d.token_cost now h)
    | inl drop ↦ elim (Bool-cases (double_lt double_zero d.token_cost)) [
      | inl penalty ↦ rw (drop, penalty) (debit-IsBounded s conn d.token_cost now h)
      | inr free ↦ rw (drop, free) h
    ]
  ]

  length-erase_idle :
      (now : TimePoint) (idle_for : ℤ) (m : Buckets folly eq)
      → length (erase_idle folly eq now idle_for m) ≤ length m
  unfolding erase_idle
  length-erase_idle now idle_for [] = omega arith
  length-erase_idle now idle_for ((k, e) ∷ m) = ground (arith, length-erase_idle now idle_for m)

  pub erase_idle-absent :
      (now : TimePoint) (idle_for : ℤ) (c : K) (m : Buckets folly eq)
      → find folly eq c m ≡ none
      → find folly eq c (erase_idle folly eq now idle_for m) ≡ none
  unfolding erase_idle find
  erase_idle-absent now idle_for c [] h = refl
  erase_idle-absent now idle_for c ((k, e) ∷ m) h =
      ground (arith, erase_idle-absent now idle_for c m)

  erase_idle-IsDistinct :
      (now : TimePoint) (idle_for : ℤ) (m : Buckets folly eq)
      → IsDistinct folly eq m
      → IsDistinct folly eq (erase_idle folly eq now idle_for m)
  unfolding erase_idle
  erase_idle-IsDistinct now idle_for [] h = h
  erase_idle-IsDistinct now idle_for ((k, e) ∷ m) (n, h) =
      elim (Bool-cases (is_idle now idle_for e.last_seen)) [
        | inl idle ↦ rw idle (erase_idle-IsDistinct now idle_for m h)
        | inr kept ↦
            rw kept (erase_idle-absent now idle_for k m n, erase_idle-IsDistinct now idle_for m h)
      ]

  run_call-IsBounded :
      (call : Call folly eq) (s : Limiter folly eq)
      → IsBounded s.max_connections s.buckets
      → IsBounded s.max_connections (run_call folly eq call s).buckets
  unfolding run_call on_disconnect sweep_idle
  run_call-IsBounded (settle_call conn d now) s h = settle-IsBounded s conn d now h
  run_call-IsBounded (disconnect_call conn) s h = record {
    distinct = erase-IsDistinct folly eq conn s.buckets h.distinct;
    bounded = omega (arith, length-erase_le folly eq conn s.buckets, h.bounded);
  }
  run_call-IsBounded (sweep_call now idle_for) s h = record {
    distinct = erase_idle-IsDistinct now idle_for s.buckets h.distinct;
    bounded = omega (arith, length-erase_idle now idle_for s.buckets, h.bounded);
  }

  -- No call changes the settings or the limit.
  run_call-settings :
      (call : Call folly eq) (s : Limiter folly eq)
      → ((run_call folly eq call s).settings ≡ s.settings)
        × ((run_call folly eq call s).max_connections ≡ s.max_connections)
  unfolding run_call settle charge penalize debit on_disconnect sweep_idle
  run_call-settings (settle_call conn d now) s = (ground arith, ground arith)
  run_call-settings (disconnect_call conn) s = (refl, refl)
  run_call-settings (sweep_call now idle_for) s = (refl, refl)

  -- In every state that a new limiter reaches by its calls, no connection stands twice in the table,
  -- the table has no more entries than the limit, or one where the limit is zero, and the settings
  -- are those of the constructor.
  pub Reachable-IsBounded :
      (settings : BucketSettings) (n : ℕ) (s : Limiter folly eq)
      → Reachable folly eq settings n s
      → IsBounded n s.buckets
        × (size folly eq s ≤ suc (n - 1))
        × (s.settings ≡ settings)
        × (s.max_connections ≡ n)
  unfolding size new_limiter
  Reachable-IsBounded settings n s created =
      (record { distinct = tt; bounded = omega arith }, omega arith, refl, refl)
  Reachable-IsBounded settings n s (called {s = t} call r) =
      let (bounded, small, same_settings, same_limit) = Reachable-IsBounded settings n t r in
      let (settings_kept, limit_kept) = run_call-settings call t in
      let next =
        run_call-IsBounded call t (subst (λ k. IsBounded k t.buckets) (sym same_limit) bounded) in
      let next_n = subst (λ k. IsBounded k (run_call folly eq call t).buckets) same_limit next in
      (next_n, next_n.bounded, settings_kept ∙ same_settings, limit_kept ∙ same_limit)
