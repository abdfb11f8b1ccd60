-- ===== src/Admission/Protobuf/Encoding.antt =====
-- include/admissionspec/ProtobufVisitor.hpp: the visitor against the encoding of messages, by which a
-- message is its fields one after another, each a tag and a payload.
use rpc_spec.Prelude.{
  ℕ, zero, suc, ◌+◌, ◌-◌, ◌*◌, ◌/◌, ◌%◌, ◌^◌, ◌≤◌, ◌<◌, ◌≡◌, refl, ap, fun_ext, ◌∙◌, Text, false,
  some, List, [], ◌∷◌, ◌++◌, map, All, arith, ltb, length, length-append,
}
use mathlib.Core.List.{append_assoc}
use rpc_spec.Prelude.Float.{Double}
use rpc_spec.Admission.Decision.{AdmissionDecision, admit_free, VisitEvent}
use rpc_spec.Admission.Protobuf.Varint.{
  value_read, encode_groups, encode_varint, read_varint-encode_varint,
}
use rpc_spec.Admission.Protobuf.{
  Found, emitted, scalar_event, bytes_event, to_int64, little_endian, split_bytes, tag_found,
  field_found, read_field, Outcome, decided, unless_dropped, after_round, visit_from,
  visit_protobuf, int_found, varint_found, len_found,
}

-- A field of a message, with its number.
pub data WireField : Type 0 where
  varint_field : ℕ → ℕ → WireField
  fixed64_field : ℕ → Text → WireField
  fixed32_field : ℕ → Text → WireField
  len_field : ℕ → Text → WireField

-- The number fits beside the wire type in a tag, and the payload has the size of its type.
abbrev pub IsWireField : WireField → Type 0
IsWireField (varint_field f n) = (f < 2 ^ 61) × (n < 2 ^ 64)
IsWireField (fixed64_field f raw) = (f < 2 ^ 61) × (length raw ≡ 8)
IsWireField (fixed32_field f raw) = (f < 2 ^ 61) × (length raw ≡ 4)
IsWireField (len_field f body) = f < 2 ^ 61

abbrev pub encode_field : WireField → Text
encode_field (varint_field f n) = encode_varint (f * 8) ++ encode_varint n
encode_field (fixed64_field f raw) = encode_varint (f * 8 + 1) ++ raw
encode_field (fixed32_field f raw) = encode_varint (f * 8 + 5) ++ raw
encode_field (len_field f body) = encode_varint (f * 8 + 2) ++ (encode_varint (length body) ++ body)

unfoldable pub encode_message : List WireField → Text
encode_message [] = []
encode_message (f ∷ fs) = encode_field f ++ encode_message fs

-- The event of a field.
abbrev pub event_of : WireField → VisitEvent
event_of (varint_field f n) = scalar_event f (to_int64 n)
event_of (fixed64_field f raw) = scalar_event f (to_int64 (little_endian raw))
event_of (fixed32_field f raw) = scalar_event f (to_int64 (little_endian raw))
event_of (len_field f body) = bytes_event f body

split_bytes-append :
    (n : ℕ) (raw rest : Text) → length raw ≡ n → split_bytes n (raw ++ rest) ≡ some (raw, rest)
unfolding split_bytes
split_bytes-append zero [] rest e = refl
split_bytes-append zero (byte ∷ raw) rest e = absurd (omega arith)
split_bytes-append (suc n) [] rest e = absurd (omega arith)
split_bytes-append (suc n) (byte ∷ raw) rest e =
    rw (split_bytes-append n raw rest (omega arith)) refl

-- A tag is read first, and then the payload of its wire type.
pub read_field-tag :
    (size tag : ℕ) (payload : Text)
    → tag < 2 ^ 64
    → read_field size (encode_varint tag ++ payload) ≡ field_found size tag payload
unfolding read_field
read_field-tag size tag payload h = ap (tag_found size) (read_varint-encode_varint tag payload h)

-- Where the body and what follows it are within the span, the test on the length does not drop.
len_found-body :
    (size f : ℕ) (body rest : Text)
    → length body + length rest ≤ size
    → size < 2 ^ 64
    → len_found size f (value_read (length body) (body ++ rest)) ≡ emitted (bytes_event f body) rest
len_found-body size f body rest le lt =
    let within : ltb size (((size - length (body ++ rest)) + length body) % 2 ^ 64) ≡ false =
      ground (arith, length-append body rest) in
    rw (within, split_bytes-append (length body) body rest refl) refl

read_field-encode_field :
    (size : ℕ) (f : WireField) (rest : Text)
    → IsWireField f
    → length (encode_field f ++ rest) ≤ size
    → size < 2 ^ 64
    → read_field size (encode_field f ++ rest) ≡ emitted (event_of f) rest
read_field-encode_field size (varint_field f n) rest (hf, hn) le lt =
    let number : f * 8 / 8 ≡ f = omega arith in
    let type : (f * 8) % 8 ≡ 0 = omega arith in
    ap (read_field size) (append_assoc (encode_varint (f * 8)) (encode_varint n) rest)
    ∙ read_field-tag size (f * 8) (encode_varint n ++ rest) (omega (arith, hf))
    ∙ rw (type, number) (ap (varint_found f) (read_varint-encode_varint n rest hn))
read_field-encode_field size (fixed64_field f raw) rest (hf, hr) le lt =
    let number : (f * 8 + 1) / 8 ≡ f = omega arith in
    let type : (f * 8 + 1) % 8 ≡ 1 = omega arith in
    ap (read_field size) (append_assoc (encode_varint (f * 8 + 1)) raw rest)
    ∙ read_field-tag size (f * 8 + 1) (raw ++ rest) (omega (arith, hf))
    ∙ rw (type, number) (ap (int_found f) (split_bytes-append 8 raw rest hr))
read_field-encode_field size (fixed32_field f raw) rest (hf, hr) le lt =
    let number : (f * 8 + 5) / 8 ≡ f = omega arith in
    let type : (f * 8 + 5) % 8 ≡ 5 = omega arith in
    ap (read_field size) (append_assoc (encode_varint (f * 8 + 5)) raw rest)
    ∙ read_field-tag size (f * 8 + 5) (raw ++ rest) (omega (arith, hf))
    ∙ rw (type, number) (ap (int_found f) (split_bytes-append 4 raw rest hr))
read_field-encode_field size (len_field f body) rest hf le lt =
    let number : (f * 8 + 2) / 8 ≡ f = omega arith in
    let type : (f * 8 + 2) % 8 ≡ 2 = omega arith in
    let tag = encode_varint (f * 8 + 2) in
    let len = encode_varint (length body) in
    let shape : (tag ++ (len ++ body)) ++ rest ≡ tag ++ (len ++ (body ++ rest)) =
      append_assoc tag (len ++ body) rest ∙ ap (λ z. tag ++ z) (append_assoc len body rest) in
    let fits : length body + length rest ≤ size = omega (
      arith,
      le,
      length-append (tag ++ (len ++ body)) rest,
      length-append tag (len ++ body),
      length-append len body,
    ) in
    ap (read_field size) shape
    ∙ read_field-tag size (f * 8 + 2) (len ++ (body ++ rest)) (omega (arith, hf))
    ∙ rw (type, number)
        (ap (len_found size f)
            (read_varint-encode_varint (length body) (body ++ rest) (omega (arith, fits)))
          ∙ len_found-body size f body rest (omega (arith, fits)) lt)

length-encode_groups : (k n : ℕ) → 0 < length (encode_groups k n)
unfolding encode_groups
length-encode_groups zero n = omega arith
length-encode_groups (suc k) n = ground arith

pub length-encode_varint : (n : ℕ) (s : Text) → 0 < length (encode_varint n ++ s)
unfolding encode_varint
length-encode_varint n s =
    omega (arith, length-encode_groups 9 n, length-append (encode_varint n) s)

length-encode_field : (f : WireField) → 0 < length (encode_field f)
length-encode_field (varint_field f n) = length-encode_varint (f * 8) (encode_varint n)
length-encode_field (fixed64_field f raw) = length-encode_varint (f * 8 + 1) raw
length-encode_field (fixed32_field f raw) = length-encode_varint (f * 8 + 5) raw
length-encode_field (len_field f body) =
    length-encode_varint (f * 8 + 2) (encode_varint (length body) ++ body)

module _ {S : Type 0} (check : VisitEvent → S → AdmissionDecision × S) (cost : Double) where
  -- The check is given the events in order, up to the first that it drops.
  unfoldable pub run_events : List VisitEvent → S → Outcome × S
  run_events [] s = (decided admit_free, s)
  run_events (e ∷ es) s = unless_dropped check (run_events es) (check e s)

  pub visit_from-round :
      (round : Text → Found) (fuel : ℕ) (bytes : Text) (s : S)
      → 0 < length bytes
      → visit_from check cost round (suc fuel) bytes s
        ≡ after_round check cost (visit_from check cost round fuel) (round bytes) s
  unfolding visit_from
  visit_from-round round fuel [] s h = absurd (omega arith)
  visit_from-round round fuel (byte ∷ rest) s h = refl

  visit_from-encode_message :
      (size fuel : ℕ) (fs : List WireField) (s : S)
      → All IsWireField fs
      → length (encode_message fs) ≤ fuel
      → length (encode_message fs) ≤ size
      → size < 2 ^ 64
      → visit_from check cost (read_field size) fuel (encode_message fs) s
        ≡ run_events (map event_of fs) s
  unfolding encode_message run_events visit_from
  visit_from-encode_message size fuel [] s h le short lt = refl
  visit_from-encode_message size zero (f ∷ fs) s h le short lt =
      absurd
        (omega (arith, length-encode_field f, length-append (encode_field f) (encode_message fs)))
  visit_from-encode_message size (suc fuel) (f ∷ fs) s (h, hs) le short lt =
      let rest = encode_message fs in
      let sizes = length-append (encode_field f) rest in
      let some_bytes = length-encode_field f in
      visit_from-round (read_field size) fuel (encode_field f ++ rest) s
        (omega (arith, some_bytes, sizes))
      ∙ ap (λ r. after_round check cost (visit_from check cost (read_field size) fuel) r s)
          (read_field-encode_field size f rest h short lt)
      ∙ ap (λ k. unless_dropped check k (check (event_of f) s))
          (fun_ext (λ u.
            visit_from-encode_message size fuel fs u hs (omega (arith, some_bytes, sizes))
              (omega (arith, sizes)) lt))

  -- Visiting the encoding of a message gives the check one event for each field, in order, with the
  -- field's number and payload, and stops at the first that it drops: neither is the payload found
  -- malformed, nor does the visit end otherwise. The message is shorter than the numbers of `size_t`.
  pub visit_protobuf-encode_message :
      (fs : List WireField) (s : S)
      → All IsWireField fs
      → length (encode_message fs) < 2 ^ 64
      → visit_protobuf check cost (encode_message fs) s ≡ run_events (map event_of fs) s
  unfolding visit_protobuf
  visit_protobuf-encode_message fs s h lt =
      visit_from-encode_message (length (encode_message fs)) (length (encode_message fs)) fs s h
        (omega arith) (omega arith) lt
