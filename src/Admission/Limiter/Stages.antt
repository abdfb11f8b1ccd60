-- ===== src/Admission/Limiter/Stages.antt =====
-- include/admissionspec/ConnectionLimiter.hpp and AdmissionSpec.hpp: the stage before a message is
-- deserialised.
use rpc_spec.Prelude.{◌≡◌, ◌≤◌, ◌↔◌, Text, true, length, arith, subst}
use rpc_spec.Admission.Decision.{admitted}
use rpc_spec.Admission.Ramp.{cost_for}
use rpc_spec.Admission.Policy.{Resolved, pre_admit}
use rpc_spec.Admission.Bucket.{Folly, TimePoint, try_consume}
use rpc_spec.Admission.Limiter.{Eq, Limiter, settle, admit_pre}
use rpc_spec.Admission.Limiter.Settle.{bucket_for, settle-bucket_for}

pub pre_admit-cost :
    {Extra : Type 0} (payload : Text) (cfg : Resolved Extra)
    → ((admitted (pre_admit payload cfg) ≡ true) ↔ (length payload ≤ cfg.max_payload_bytes))
      × ((pre_admit payload cfg).token_cost ≡ cost_for cfg.size_ramp (length payload))
unfolding pre_admit
pre_admit-cost payload cfg = (ground arith, ground arith)

module _ (folly : Folly) {K : Type 0} (eq : Eq K) where
  -- A payload is admitted exactly if it has no more bytes than the limit of its type, and the bucket
  -- of its connection gives the tokens that the ramp asks for its size.
  pub admit_pre_iff :
      {Extra : Type 0} (cfg : Resolved Extra) (s : Limiter folly eq) (conn : K) (payload : Text)
      (now : TimePoint)
      → (admitted (admit_pre folly eq cfg s conn payload now).0 ≡ true) ↔ (
          (length payload ≤ cfg.max_payload_bytes)
          × ((try_consume folly
                (bucket_for folly eq s conn now)
                (cost_for cfg.size_ramp (length payload))
                now).0
              ≡ true))
  unfolding admit_pre
  admit_pre_iff cfg s conn payload now =
      let (within, cost) = pre_admit-cost payload cfg in
      let (outcome, _, _) = settle-bucket_for folly eq s conn (pre_admit payload cfg) now in
      let at_cost =
        subst
          (λ z. (admitted (settle folly eq s conn (pre_admit payload cfg) now).0 ≡ true) ↔ (
            (admitted (pre_admit payload cfg) ≡ true)
            × ((try_consume folly (bucket_for folly eq s conn now) z now).0 ≡ true)))
          cost outcome in
      ((λ h. let (a, t) = at_cost.0 h in (within.0 a, t)), λ (le, t). at_cost.1 (within.1 le, t))
