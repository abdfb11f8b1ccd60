-- ===== src/Admission/Protobuf/Overlong.antt =====
-- include/admissionspec/ProtobufVisitor.hpp: a field whose length says more than the message has.
use rpc_spec.Prelude.{ℕ, ◌+◌, ◌*◌, ◌^◌, Text, ◌++◌, ltb, if◌then◌else◌}
use rpc_spec.Admission.Protobuf.Varint.{encode_varint}
use rpc_spec.Admission.Protobuf.{Found, invalid, undefined}

-- A field number, a length that is too large, and the bytes that there are.
abbrev pub overlong_message : ℕ → ℕ → Text → Text
overlong_message f len body = encode_varint (f * 8 + 2) ++ (encode_varint len ++ body)

abbrev pub overlong_found : ℕ → ℕ → Found
overlong_found pos len = if ltb (pos + len) (2 ^ 64) then invalid else undefined
