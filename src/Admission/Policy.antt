-- ===== src/Admission/Policy.antt =====
-- include/admissionspec/AdmissionSpec.hpp and Resolver.hpp: the tunables of a message type, the stage
-- before deserialisation, and the checker of one message.
use rpc_spec.Prelude.{ℕ, Text, Option, none, some, List, [], ◌∷◌, ltb, length, str, if◌then◌else◌}
use rpc_spec.Prelude.Float.{Double}
use rpc_spec.Admission.Decision.{AdmissionDecision, admit_with, drop_with, admit_free, VisitEvent}
use rpc_spec.Admission.Ramp.{SizeTier, cost_for}

-- `Tunable<Name, T>`, with the key of its override.
pub record Tunable (T : Type 0) : Type 0 where
  pub default_value : T
  pub config_key : Text

-- `resolveOne` for a scalar; `maybe_value` reads the configuration.
unfoldable pub resolve_scalar : {T : Type 0} → (Text → Option T) → Tunable T → T
resolve_scalar maybe_value tunable = elim (maybe_value tunable.config_key) [
  | some value ↦ value
  | none ↦ tunable.default_value
]

abbrev pub tiers_of : List (ℕ × Double) → List SizeTier
tiers_of [] = []
tiers_of ((bytes, cost) ∷ rest) = record { up_to_bytes = bytes; cost = cost } ∷ tiers_of rest

abbrev pub or_default : List SizeTier → List SizeTier → List SizeTier
or_default [] tiers = tiers
or_default (t ∷ ts) tiers = t ∷ ts

-- `resolveOne` for a ramp: an override with no tier counts as none.
unfoldable pub resolve_ramp :
    (Text → Option (List (ℕ × Double))) → Tunable (List SizeTier) → List SizeTier
resolve_ramp maybe_value tunable = elim (maybe_value tunable.config_key) [
  | some arr ↦ or_default (tiers_of arr) tunable.default_value
  | none ↦ tunable.default_value
]

-- The two tunables that every spec declares, and those that its check reads.
pub record Resolved (Extra : Type 0) : Type 0 where
  pub max_payload_bytes : ℕ
  pub size_ramp : List SizeTier
  pub extra : Extra

-- A check keeps state from event to event of one message; `none` is `NoHook`.
pub record Check (Extra : Type 0) : Type 1 where
  pub State : Type 0
  pub start : State
  pub step : VisitEvent → Resolved Extra → State → AdmissionDecision × State

pub record AdmissionSpec (Extra : Type 0) : Type 1 where
  pub resolved : Resolved Extra
  pub check : Option (Check Extra)

-- A checker bound to the resolved tunables, for one walk over a message.
pub record Checker : Type 1 where
  pub State : Type 0
  pub start : State
  pub step : VisitEvent → State → AdmissionDecision × State

module _ {Extra : Type 0} where
  -- `AdmissionSpec::preAdmit`
  unfoldable pub pre_admit : Text → Resolved Extra → AdmissionDecision
  pre_admit payload cfg =
      let cost = cost_for cfg.size_ramp (length payload) in
      if ltb cfg.max_payload_bytes (length payload)
      then drop_with (str "payload exceeds max bytes for this type") cost
      else admit_with cost

  abbrev pub bind_check : Resolved Extra → Option (Check Extra) → Checker
  bind_check cfg none = record { State = Unit {0}; start = tt; step = λ e s. (admit_free, s) }
  bind_check cfg (some c) = record {
    State = c.State;
    start = c.start;
    step = λ e s. c.step e cfg s;
  }

  -- `AdmissionSpec::makeChecker`
  unfoldable pub make_checker : AdmissionSpec Extra → Checker
  make_checker spec = bind_check spec.resolved spec.check
