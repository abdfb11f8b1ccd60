-- ===== src/Admission/Protobuf/Tests.antt =====
-- include/admissionspec/ProtobufVisitor.hpp: small messages visited by a check that counts the
-- events, and the theorems on visits applied.
use rpc_spec.Prelude.{
  ℕ, suc, ◌^◌, ◌<◌, ◌≡◌, refl, Text, [], ◌∷◌, ◌++◌, List, map, length, ltb, str, arith, All,
  if◌then◌else◌,
}
use rpc_spec.Prelude.Float.{double_zero}
use rpc_spec.Admission.Decision.{AdmissionDecision, admit_free, drop_with, VisitEvent}
use rpc_spec.Admission.Protobuf.Varint.{
  read_varint, read_from, encode_varint, encode_groups, value_read, read_varint-encode_varint,
}
use rpc_spec.Admission.Protobuf.{visit_protobuf, decided, visit_from, read_field}
use rpc_spec.Admission.Protobuf.Encoding.{
  WireField, varint_field, fixed32_field, len_field, IsWireField, encode_message, event_of,
  run_events, visit_protobuf-encode_message,
}

-- The check admits three events, and drops the next.
abbrev at_most_three : VisitEvent → ℕ → AdmissionDecision × ℕ
at_most_three e n = (if ltb n 3 then admit_free else drop_with (str "too many") double_zero, suc n)

abbrev sample_message : List WireField
sample_message =
    varint_field 1 300 ∷ len_field 2 (65 ∷ 66 ∷ []) ∷ fixed32_field 3 (1 ∷ 0 ∷ 0 ∷ 0 ∷ []) ∷ []

-- The bytes of the documentation's example: field 1 is 150.
visit_sample :
    visit_protobuf at_most_three double_zero (8 ∷ 150 ∷ 1 ∷ []) 0 ≡ (decided admit_free, 1)
unfolding visit_protobuf visit_from read_field read_varint read_from
visit_sample = refl

encode_sample : encode_varint 150 ≡ 150 ∷ 1 ∷ []
unfolding encode_varint encode_groups
encode_sample = refl

read_varint-encode_varint_example :
    read_varint (encode_varint 300 ++ (7 ∷ [])) ≡ value_read 300 (7 ∷ [])
read_varint-encode_varint_example = read_varint-encode_varint 300 (7 ∷ []) (omega arith)

sample_message-IsWireField : All IsWireField sample_message
sample_message-IsWireField = ((omega arith, omega arith), (omega arith, ((omega arith, refl), tt)))

length-sample_message : length (encode_message sample_message) < 2 ^ 64
unfolding encode_message encode_varint encode_groups
length-sample_message = omega arith

visit_protobuf-encode_message_example :
    visit_protobuf at_most_three double_zero (encode_message sample_message) 0
    ≡ run_events at_most_three double_zero (map event_of sample_message) 0
visit_protobuf-encode_message_example =
    visit_protobuf-encode_message at_most_three double_zero sample_message 0
      sample_message-IsWireField length-sample_message

abbrev one_byte : Text
one_byte = 65 ∷ []
