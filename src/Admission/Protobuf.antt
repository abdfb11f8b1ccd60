-- ===== src/Admission/Protobuf.antt =====
-- include/admissionspec/ProtobufVisitor.hpp and PassthroughVisitor.hpp: the visitors that hand the
-- fields of a protobuf message, or a whole payload, to a check.
pub mod Varint
pub mod Progress
pub mod Encoding
pub mod Overlong
mod Tests
use rpc_spec.Prelude.{
  ℕ, zero, suc, ◌+◌, ◌-◌, ◌*◌, ◌/◌, ◌%◌, ◌^◌, Text, Bool, true, false, Option, none, some, [], ◌∷◌,
  ltb, ◌==◌, length, str, if◌then◌else◌,
}
use rpc_spec.Prelude.Int.{ℤ, pos, negsuc}
use rpc_spec.Prelude.Float.{Double}
use rpc_spec.Admission.Decision.{
  AdmissionDecision, admit_free, drop_with, dropped, VisitEvent, EventKind, event, int64_value,
  bytes_value,
}
use rpc_spec.Admission.Protobuf.Varint.{
  VarintRead, value_read, truncated, undefined_shift, read_varint,
}

-- `static_cast<int64_t>` of a `uint64_t`, and `static_cast<int32_t>` of a `uint32_t`.
abbrev pub to_int64 : ℕ → ℤ
to_int64 n = if ltb n (2 ^ 63) then pos n else negsuc (2 ^ 64 - 1 - n)

abbrev pub to_int32 : ℕ → ℤ
to_int32 n = if ltb n (2 ^ 31) then pos n else negsuc (2 ^ 32 - 1 - n)

-- `memcpy` into an integer, on a machine that stores the low byte first.
unfoldable pub little_endian : Text → ℕ
little_endian [] = 0
little_endian (byte ∷ bytes) = byte % 256 + 256 * little_endian bytes

abbrev pub cons_front : ℕ → Option (Text × Text) → Option (Text × Text)
cons_front byte none = none
cons_front byte (some (front, back)) = some (byte ∷ front, back)

-- The first `n` bytes and those after them, where there are so many.
unfoldable pub split_bytes : ℕ → Text → Option (Text × Text)
split_bytes zero s = some ([], s)
split_bytes (suc n) [] = none
split_bytes (suc n) (byte ∷ s) = cons_front byte (split_bytes n s)

abbrev pub scalar_event : ℕ → ℤ → VisitEvent
scalar_event field x = record (event EventKind.int64) {
  field_number = field;
  value = int64_value x;
}

abbrev pub bytes_event : ℕ → Text → VisitEvent
bytes_event field body = record (event EventKind.bytes) {
  field_number = field;
  value = bytes_value body;
}

-- What one round of a loop finds: an event, a wire type that the switch has no case for, a malformed
-- payload, or undefined behaviour.
pub data Found : Type 0 where
  emitted : VisitEvent → Text → Found
  passed_over : Text → Found
  invalid : Found
  undefined : Found

-- `handleInt(size)`
abbrev pub int_found : ℕ → Option (Text × Text) → Found
int_found field none = invalid
int_found field (some (raw, rest)) =
    emitted (scalar_event field (to_int64 (little_endian raw))) rest

abbrev pub varint_found : ℕ → VarintRead → Found
varint_found field (value_read n rest) = emitted (scalar_event field (to_int64 n)) rest
varint_found field truncated = invalid
varint_found field undefined_shift = undefined

-- `bytes.subspan(pos, len)`, which is undefined where the span has not so many bytes.
abbrev pub body_found : ℕ → Option (Text × Text) → Found
body_found field none = undefined
body_found field (some (body, rest)) = emitted (bytes_event field body) rest

-- `pos + len > bytes.size()`, in the arithmetic of `size_t`; `pos` is the size less what is left.
abbrev pub len_found : ℕ → ℕ → VarintRead → Found
len_found size field (value_read len rest) =
    if ltb size (((size - length rest) + len) % 2 ^ 64)
    then invalid
    else body_found field (split_bytes len rest)
len_found size field truncated = invalid
len_found size field undefined_shift = undefined

-- The switch on the wire type.
abbrev pub field_found : ℕ → ℕ → Text → Found
field_found size tag rest =
    let field = tag / 8 in
    let wire_type = tag % 8 in
    if wire_type == 0
    then varint_found field (read_varint rest)
    else if wire_type == 1
    then int_found field (split_bytes 8 rest)
    else if wire_type == 5
    then int_found field (split_bytes 4 rest)
    else if wire_type == 2
    then len_found size field (read_varint rest)
    else passed_over rest

abbrev pub tag_found : ℕ → VarintRead → Found
tag_found size (value_read tag rest) = field_found size tag rest
tag_found size truncated = invalid
tag_found size undefined_shift = undefined

-- One round of `visitProtobuf`, and of `visitPackedVarint`.
unfoldable pub read_field : ℕ → Text → Found
unfolding read_varint split_bytes little_endian
read_field size bytes = tag_found size (read_varint bytes)

unfoldable pub read_packed_varint : ℕ → Text → Found
unfolding read_varint
read_packed_varint field body = varint_found field (read_varint body)

-- `sizeof(ReadType)`, and the element with the sign of `WriteType`.
pub data ElementType : Type 0 where
  element32 element64 : ElementType

abbrev pub size_of : ElementType → ℕ
size_of element32 = 4
size_of element64 = 8

abbrev pub element_value : ElementType → Text → ℤ
element_value element32 raw = to_int32 (little_endian raw)
element_value element64 raw = to_int64 (little_endian raw)

-- How a visit ends: with a decision, or with undefined behaviour.
pub data Outcome : Type 0 where
  decided : AdmissionDecision → Outcome
  undefined_behaviour : Outcome
  out_of_fuel : Outcome

module _ {S : Type 0} (check : VisitEvent → S → AdmissionDecision × S) where
  abbrev pub unless_dropped : (S → Outcome × S) → AdmissionDecision × S → Outcome × S
  unless_dropped visit_rest (d, s) = if dropped d then (decided d, s) else visit_rest s

  -- What a round does with what it found.
  abbrev pub after_round : Double → (Text → S → Outcome × S) → Found → S → Outcome × S
  after_round cost visit_rest (emitted e rest) s = unless_dropped (visit_rest rest) (check e s)
  after_round cost visit_rest (passed_over rest) s = visit_rest rest s
  after_round cost visit_rest invalid s =
      (decided (drop_with (str "Invalid protobuf payload") cost), s)
  after_round cost visit_rest undefined s = (undefined_behaviour, s)

  -- The loops `while (pos < bytes.size())`, for rounds that are given the bytes from `pos` on; the
  -- fuel is the number of bytes.
  unfoldable pub visit_from : Double → (Text → Found) → ℕ → Text → S → Outcome × S
  visit_from cost round fuel [] s = (decided admit_free, s)
  visit_from cost round zero (byte ∷ rest) s = (out_of_fuel, s)
  visit_from cost round (suc fuel) (byte ∷ rest) s =
      after_round cost (visit_from cost round fuel) (round (byte ∷ rest)) s

  -- `visitProtobuf`; `cost` is `options.costForInvalidPayload`.
  unfoldable pub visit_protobuf : Double → Text → S → Outcome × S
  unfolding visit_from read_field
  visit_protobuf cost bytes s = visit_from cost (read_field (length bytes)) (length bytes) bytes s

  -- `visitPackedVarint`
  unfoldable pub visit_packed_varint : Double → ℕ → Text → S → Outcome × S
  unfolding visit_from read_packed_varint
  visit_packed_varint cost field body s =
      visit_from cost (read_packed_varint field) (length body) body s

  -- `visitPassthrough`
  unfoldable pub visit_passthrough : Text → S → AdmissionDecision × S
  visit_passthrough payload s =
      check (record (event EventKind.bytes) { value = bytes_value payload }) s

  abbrev pub after_element :
      ElementType → ℕ → (Text → S → Outcome × S) → Option (Text × Text) → S → Outcome × S
  after_element t field visit_rest none s = (decided admit_free, s)
  after_element t field visit_rest (some (raw, rest)) s =
      unless_dropped (visit_rest rest) (check (scalar_event field (element_value t raw)) s)

  -- The loop `pos + kSize <= body.size()` of `visitPackedFixed`.
  unfoldable pub visit_elements : ElementType → ℕ → ℕ → Text → S → Outcome × S
  unfolding split_bytes little_endian
  visit_elements t field zero body s =
      after_element t field (λ rest u. (out_of_fuel, u)) (split_bytes (size_of t) body) s
  visit_elements t field (suc fuel) body s =
      after_element t field (visit_elements t field fuel) (split_bytes (size_of t) body) s

  unfoldable pub visit_packed_fixed : ElementType → ℕ → Text → S → Outcome × S
  unfolding visit_elements
  visit_packed_fixed t field body s = visit_elements t field (length body) body s
