-- ===== src/Admission/Decision.antt =====
-- include/admissionspec/Types.hpp: decisions, and the events of a visit.
use rpc_spec.Prelude.{ℕ, ◌-◌, ◌^◌, Text, Bool, true, false, []}
use rpc_spec.Prelude.Int.{ℤ}
use rpc_spec.Prelude.Float.{Double, double_zero}

pub data AdmissionAction : Type 0 where
  admitted_action dropped_action : AdmissionAction

pub record AdmissionDecision : Type 0 where
  pub action : AdmissionAction
  pub token_cost : Double
  pub reason : Text

abbrev pub is_drop : AdmissionAction → Bool
is_drop admitted_action = false
is_drop dropped_action = true

abbrev pub is_admit : AdmissionAction → Bool
is_admit admitted_action = true
is_admit dropped_action = false

abbrev pub admitted : AdmissionDecision → Bool
admitted d = is_admit d.action

abbrev pub dropped : AdmissionDecision → Bool
dropped d = is_drop d.action

abbrev pub admit_with : Double → AdmissionDecision
admit_with cost = record { action = admitted_action; token_cost = cost; reason = [] }

abbrev pub drop_with : Text → Double → AdmissionDecision
drop_with why cost = record { action = dropped_action; token_cost = cost; reason = why }

pub data EventKind : Type 0 where
  object_begin object_end array_begin array_end key_part key string_part string : EventKind
  number_part int64 uint64 double boolean null comment_part comment bytes : EventKind

pub data EventValue : Type 0 where
  monostate : EventValue
  bool_value : Bool → EventValue
  int64_value : ℤ → EventValue
  uint64_value : ℕ → EventValue
  double_value : Double → EventValue
  text_value : Text → EventValue
  bytes_value : Text → EventValue

pub record VisitEvent : Type 0 where
  pub kind : EventKind
  pub key : Text
  pub size : ℕ
  pub depth : ℕ
  pub field_number : ℕ
  pub value : EventValue

abbrev pub no_field_number : ℕ
no_field_number = 2 ^ 64 - 1

-- `VisitEvent{.kind = kind}`: the other members have their defaults.
abbrev pub event : EventKind → VisitEvent
event k = record {
  kind = k;
  key = [];
  size = 0;
  depth = 0;
  field_number = no_field_number;
  value = monostate;
}

abbrev pub admit_free : AdmissionDecision
admit_free = admit_with double_zero
