-- ===== src/Admission/Limiter.antt =====
-- include/admissionspec/ConnectionLimiter.hpp: one bucket for each connection. The table is a list in
-- its order of iteration; each public call runs as a whole, under the mutex that the code holds.
pub mod Table
pub mod Eviction
pub mod Invariant
pub mod Settle
pub mod Retry
pub mod Stages
pub mod Removal
use rpc_spec.Prelude.{
  ℕ, ◌+◌, ◌≡◌, ◌↔◌, Text, Bool, true, false, not, Option, none, some, List, [], ◌∷◌, leb, ltb,
  length, str, if◌then◌else◌,
}
use rpc_spec.Prelude.Int.{ℤ, ltb_ℤ, pos_part, neg_part}
use rpc_spec.Prelude.Float.{Double, double_lt, double_zero}
use rpc_spec.Admission.Decision.{AdmissionDecision, admit_with, drop_with, dropped}
use rpc_spec.Admission.Policy.{Resolved, pre_admit, AdmissionSpec, Checker, make_checker}
use rpc_spec.Admission.Bucket.{Folly, TimePoint, new_bucket, try_consume}

-- The identifiers of connections can be told apart.
pub record Eq (K : Type 0) : Type 0 where
  pub beq : K → K → Bool
  pub beq_iff : (a b : K) → (beq a b ≡ true) ↔ (a ≡ b)

pub record BucketSettings : Type 0 where
  pub capacity : Double
  pub refill_rate_per_second : Double

-- `now - last_seen >= idle_for`
abbrev pub is_idle : TimePoint → ℤ → TimePoint → Bool
is_idle now idle_for last_seen =
    leb (pos_part idle_for + pos_part last_seen + neg_part now)
      (neg_part idle_for + neg_part last_seen + pos_part now)

module _ (folly : Folly) {K : Type 0} (eq : Eq K) where
  open folly use {FollyBucket}

  pub record BucketEntry : Type 0 where
    pub bucket : FollyBucket
    pub last_seen : TimePoint

  abbrev pub Buckets : Type 0
  Buckets = List (K × BucketEntry)

  -- `buckets.find(conn)`
  unfoldable pub find : K → Buckets → Option BucketEntry
  find conn [] = none
  find conn ((k, e) ∷ m) = if eq.beq k conn then some e else find conn m

  -- A write through the iterator of `conn`.
  unfoldable pub update : K → BucketEntry → Buckets → Buckets
  update conn e [] = []
  update conn e ((k, d) ∷ m) = if eq.beq k conn then (k, e) ∷ m else (k, d) ∷ update conn e m

  unfoldable pub erase : K → Buckets → Buckets
  erase conn [] = []
  erase conn ((k, e) ∷ m) = if eq.beq k conn then m else (k, e) ∷ erase conn m

  -- The loop of `evictOldest`: a later entry replaces `oldest` if it was seen strictly earlier.
  unfoldable pub oldest_of : (K × BucketEntry) → Buckets → K × BucketEntry
  oldest_of oldest [] = oldest
  oldest_of oldest ((k, e) ∷ m) =
      oldest_of (if ltb_ℤ e.last_seen oldest.1.last_seen then (k, e) else oldest) m

  -- `evictOldest`: nothing happens to an empty table.
  unfoldable pub evict_oldest : Buckets → Buckets
  unfolding oldest_of erase
  evict_oldest [] = []
  evict_oldest (entry ∷ m) = erase (oldest_of entry (entry ∷ m)).0 (entry ∷ m)

  pub record Limiter : Type 0 where
    pub settings : BucketSettings
    pub max_connections : ℕ
    pub buckets : Buckets

  -- The constructor.
  unfoldable pub new_limiter : BucketSettings → ℕ → Limiter
  new_limiter settings max_connections = record {
    settings = settings;
    max_connections = max_connections;
    buckets = [];
  }

  -- `size`
  unfoldable pub size : Limiter → ℕ
  size s = length s.buckets

  -- The entry that `try_emplace` constructs.
  abbrev pub fresh_entry : BucketSettings → TimePoint → BucketEntry
  fresh_entry settings now = record {
    bucket = new_bucket folly settings.capacity settings.refill_rate_per_second now;
    last_seen = now;
  }

  abbrev pub seen : TimePoint → BucketEntry → BucketEntry
  seen now e = record { bucket = e.bucket; last_seen = now }

  -- The table in which a new connection is placed.
  unfoldable pub make_room : ℕ → Buckets → Buckets
  unfolding evict_oldest
  make_room max_connections m = if leb max_connections (length m) then evict_oldest m else m

  -- `touchBucket`: the table, and the entry that the iterator which it returns points to.
  unfoldable pub touch_bucket : BucketSettings → ℕ → Buckets → K → TimePoint → Buckets × BucketEntry
  unfolding find update make_room
  touch_bucket settings max_connections m conn now = elim (find conn m) [
    | none ↦
        let e = seen now (fresh_entry settings now) in ((conn, e) ∷ make_room max_connections m, e)
    | some e ↦ (update conn (seen now e) m, seen now e)
  ]

  -- `tryConsume` through the iterator: the outcome, and the table with the bucket written.
  unfoldable pub consume_in : Buckets → K → BucketEntry → Double → TimePoint → Bool × Buckets
  unfolding update
  consume_in m conn e cost now =
      let r = try_consume folly e.bucket cost now in
      (r.0, update conn (record { bucket = r.1; last_seen = e.last_seen }) m)

  abbrev pub with_buckets : Limiter → Buckets → Limiter
  with_buckets s m = record {
    settings = s.settings;
    max_connections = s.max_connections;
    buckets = m;
  }

  -- `touchBucket` and `tryConsume` on the entry, which `charge` and `penalize` share.
  unfoldable pub debit : Limiter → K → Double → TimePoint → Bool × Limiter
  unfolding touch_bucket consume_in
  debit s conn cost now =
      let t = touch_bucket s.settings s.max_connections s.buckets conn now in
      let r = consume_in t.0 conn t.1 cost now in (r.0, with_buckets s r.1)

  unfoldable pub charge : Limiter → K → AdmissionDecision → TimePoint → AdmissionDecision × Limiter
  unfolding debit
  charge s conn decision now =
      let r = debit s conn decision.token_cost now in
      (
        if r.0
            then admit_with decision.token_cost
            else drop_with (str "connection rate limit exceeded") double_zero,
        r.1,
      )

  unfoldable pub penalize :
      Limiter → K → AdmissionDecision → TimePoint → AdmissionDecision × Limiter
  unfolding debit
  penalize s conn decision now =
      if double_lt double_zero decision.token_cost
      then (decision, (debit s conn decision.token_cost now).1)
      else (decision, s)

  -- What both stages do with their decision.
  unfoldable pub settle : Limiter → K → AdmissionDecision → TimePoint → AdmissionDecision × Limiter
  unfolding charge penalize
  settle s conn decision now =
      if dropped decision then penalize s conn decision now else charge s conn decision now

  unfoldable pub admit_pre :
      {Extra : Type 0}
      → Resolved Extra
      → Limiter
      → K
      → Text
      → TimePoint
      → AdmissionDecision × Limiter
  unfolding settle pre_admit
  admit_pre cfg s conn payload now = settle s conn (pre_admit payload cfg) now

  -- `visitor` is the caller's walk over a message, which feeds the checker.
  unfoldable pub admit :
      {Extra : Type 0}
      → AdmissionSpec Extra
      → Limiter
      → K
      → (Checker → AdmissionDecision)
      → TimePoint
      → AdmissionDecision × Limiter
  unfolding settle make_checker
  admit spec s conn visitor now = settle s conn (visitor (make_checker spec)) now

  unfoldable pub on_disconnect : Limiter → K → Limiter
  unfolding erase
  on_disconnect s conn = with_buckets s (erase conn s.buckets)

  -- `std::erase_if` with the test of `sweepIdle`.
  unfoldable pub erase_idle : TimePoint → ℤ → Buckets → Buckets
  erase_idle now idle_for [] = []
  erase_idle now idle_for ((k, e) ∷ m) =
      let rest = erase_idle now idle_for m in
      if is_idle now idle_for e.last_seen then rest else (k, e) ∷ rest

  unfoldable pub sweep_idle : Limiter → TimePoint → ℤ → Limiter
  unfolding erase_idle
  sweep_idle s now idle_for = with_buckets s (erase_idle now idle_for s.buckets)

  -- The public calls that change the table, in any order: the mutex makes each of them one step.
  pub data Call : Type 1 where
    settle_call : K → AdmissionDecision → TimePoint → Call
    disconnect_call : K → Call
    sweep_call : TimePoint → ℤ → Call

  unfoldable pub run_call : Call → Limiter → Limiter
  unfolding settle on_disconnect sweep_idle
  run_call (settle_call conn decision now) s = (settle s conn decision now).1
  run_call (disconnect_call conn) s = on_disconnect s conn
  run_call (sweep_call now idle_for) s = sweep_idle s now idle_for

  -- The states that a new limiter reaches.
  pub data Reachable (settings : BucketSettings) (max_connections : ℕ) : Limiter → Type 1 where
    created : Reachable settings max_connections (new_limiter settings max_connections)
    called :
        {s : Limiter} (call : Call)
        → Reachable settings max_connections s
        → Reachable settings max_connections (run_call call s)
