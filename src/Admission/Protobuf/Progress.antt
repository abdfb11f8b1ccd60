-- ===== src/Admission/Protobuf/Progress.antt =====
-- include/admissionspec/ProtobufVisitor.hpp: what each round takes, and that the fuel is enough.
use rpc_spec.Prelude.{
  ℕ, zero, suc, ◌+◌, ◌-◌, ◌*◌, ◌/◌, ◌%◌, ◌^◌, ◌≤◌, ◌<◌, ◌≡◌, ◌≢◌, Text, some, [], ◌∷◌, arith, ltb,
  leb, length, inl, inr, Bool-cases, Option-cases,
}
use rpc_spec.Prelude.Float.{Double, double_zero}
use rpc_spec.Admission.Decision.{AdmissionDecision, VisitEvent, dropped}
use rpc_spec.Admission.Protobuf.Varint.{
  VarintRead, value_read, truncated, undefined_shift, read_varint, read_from,
}
use rpc_spec.Admission.Protobuf.{
  ElementType, element32, element64, size_of, after_element, visit_elements, visit_packed_fixed,
  visit_packed_varint, read_packed_varint, Found, emitted, passed_over, invalid, undefined,
  varint_found, read_field, split_bytes, Outcome, out_of_fuel, after_round, unless_dropped,
  visit_from, visit_protobuf, tag_found, field_found, int_found, len_found, body_found,
}

-- What is left is shorter than `n` bytes.
abbrev pub Shortens : ℕ → Found → Type 0
Shortens n (emitted e rest) = length rest < n
Shortens n (passed_over rest) = length rest < n
Shortens n invalid = Unit
Shortens n undefined = Unit

abbrev pub LeavesFewer : ℕ → VarintRead → Type 0
LeavesFewer n (value_read x rest) = length rest < n
LeavesFewer n truncated = Unit
LeavesFewer n undefined_shift = Unit

LeavesFewer-mono : (m n : ℕ) (v : VarintRead) → m ≤ n → LeavesFewer m v → LeavesFewer n v
LeavesFewer-mono m n (value_read x rest) le h = omega arith
LeavesFewer-mono m n truncated le h = tt
LeavesFewer-mono m n undefined_shift le h = tt

read_from-LeavesFewer :
    (shift result : ℕ) (s : Text) → LeavesFewer (length s) (read_from shift result s)
unfolding read_from
read_from-LeavesFewer shift result [] = tt
read_from-LeavesFewer shift result (byte ∷ s) = elim (Bool-cases (leb 64 shift)) [
  | inl wide ↦ rw wide tt
  | inr narrow ↦ elim (Bool-cases (ltb (byte % 256) 128)) [
    | inl last ↦ rw (narrow, last) (omega arith)
    | inr more ↦
        rw (narrow, more)
          (LeavesFewer-mono (length s) (suc (length s)) _ (omega arith)
            (read_from-LeavesFewer (shift + 7) (result + ((byte % 128) * 2 ^ shift) % 2 ^ 64) s))
  ]
]

split_bytes-le :
    (n : ℕ) (s front back : Text) → split_bytes n s ≡ some (front, back) → length back ≤ length s
unfolding split_bytes
split_bytes-le zero s front back h = ground arith
split_bytes-le (suc n) [] front back h = cc
split_bytes-le (suc n) (byte ∷ s) front back h = elim (Option-cases (split_bytes n s)) [
  | inl none_left ↦ ground arith
  | inr ((f, b), e) ↦ ground (arith, split_bytes-le n s f b e)
]

module _ {S : Type 0} (check : VisitEvent → S → AdmissionDecision × S) (cost : Double) where
  unless_dropped-ends :
      (visit_rest : S → Outcome × S) (d : AdmissionDecision × S)
      → ((s : S) → (visit_rest s).0 ≢ out_of_fuel)
      → (unless_dropped check visit_rest d).0 ≢ out_of_fuel
  unless_dropped-ends visit_rest (d, s) h = elim (Bool-cases (dropped d)) [
    | inl stop ↦ rw stop (λ e. cc)
    | inr more ↦ rw more (h s)
  ]

  after_round-ends :
      (n : ℕ) (visit_rest : Text → S → Outcome × S) (found : Found) (s : S)
      → Shortens n found
      → ((rest : Text) → length rest < n → (u : S) → (visit_rest rest u).0 ≢ out_of_fuel)
      → (after_round check cost visit_rest found s).0 ≢ out_of_fuel
  after_round-ends n visit_rest (emitted e rest) s short h =
      unless_dropped-ends (visit_rest rest) (check e s) (h rest short)
  after_round-ends n visit_rest (passed_over rest) s short h = h rest short s
  after_round-ends n visit_rest invalid s short h = λ e. cc
  after_round-ends n visit_rest undefined s short h = λ e. cc

  -- With rounds that shorten the bytes, the loop ends within as many rounds as there are bytes.
  visit_from-ends :
      (round : Text → Found)
      → ((byte : ℕ) (rest : Text) → Shortens (suc (length rest)) (round (byte ∷ rest)))
      → (fuel : ℕ) (bytes : Text) (s : S) → length bytes ≤ fuel
      → (visit_from check cost round fuel bytes s).0 ≢ out_of_fuel
  unfolding visit_from
  visit_from-ends round short fuel [] s le = λ e. cc
  visit_from-ends round short zero (byte ∷ rest) s le = absurd (omega arith)
  visit_from-ends round short (suc fuel) (byte ∷ rest) s le =
      after_round-ends (suc (length rest)) (visit_from check cost round fuel) (round (byte ∷ rest))
        s (short byte rest) (λ left lt u. visit_from-ends round short fuel left u (omega arith))

Shortens-mono : (m n : ℕ) (f : Found) → m ≤ n → Shortens m f → Shortens n f
Shortens-mono m n (emitted e rest) le h = omega arith
Shortens-mono m n (passed_over rest) le h = omega arith
Shortens-mono m n invalid le h = tt
Shortens-mono m n undefined le h = tt

varint_found-Shortens :
    (n field : ℕ) (v : VarintRead) → LeavesFewer n v → Shortens n (varint_found field v)
varint_found-Shortens n field (value_read x rest) h = h
varint_found-Shortens n field truncated h = tt
varint_found-Shortens n field undefined_shift h = tt

body_found-Shortens :
    (n field len : ℕ) (s : Text) → length s < n → Shortens n (body_found field (split_bytes len s))
body_found-Shortens n field len s h = elim (Option-cases (split_bytes len s)) [
  | inl none_left ↦ rw none_left tt
  | inr ((f, b), e) ↦ rw e (omega (arith, split_bytes-le len s f b e, h))
]

int_found-Shortens :
    (n field size : ℕ) (s : Text) → length s < n → Shortens n (int_found field (split_bytes size s))
int_found-Shortens n field size s h = elim (Option-cases (split_bytes size s)) [
  | inl none_left ↦ rw none_left tt
  | inr ((f, b), e) ↦ rw e (omega (arith, split_bytes-le size s f b e, h))
]

len_found-Shortens :
    (n size field : ℕ) (v : VarintRead) → LeavesFewer n v → Shortens n (len_found size field v)
len_found-Shortens n size field (value_read len rest) h =
    elim (Bool-cases (ltb size (((size - length rest) + len) % 2 ^ 64))) [
      | inl long ↦ rw long tt
      | inr short ↦ rw short (body_found-Shortens n field len rest h)
    ]
len_found-Shortens n size field truncated h = tt
len_found-Shortens n size field undefined_shift h = tt

read_varint-LeavesFewer : (s : Text) → LeavesFewer (length s) (read_varint s)
unfolding read_varint
read_varint-LeavesFewer s = read_from-LeavesFewer 0 0 s

field_found-Shortens :
    (n size tag : ℕ) (rest : Text) → length rest < n → Shortens n (field_found size tag rest)
field_found-Shortens n size tag rest h =
    let fewer =
      LeavesFewer-mono (length rest) n (read_varint rest) (omega arith)
        (read_varint-LeavesFewer rest) in
    ground (
      arith,
      varint_found-Shortens n (tag / 8) (read_varint rest) fewer,
      len_found-Shortens n size (tag / 8) (read_varint rest) fewer,
      int_found-Shortens n (tag / 8) 8 rest h,
      int_found-Shortens n (tag / 8) 4 rest h,
    )

tag_found-Shortens : (n size : ℕ) (v : VarintRead) → LeavesFewer n v → Shortens n (tag_found size v)
tag_found-Shortens n size (value_read tag rest) h = field_found-Shortens n size tag rest h
tag_found-Shortens n size truncated h = tt
tag_found-Shortens n size undefined_shift h = tt

visit_protobuf-ends :
    {S : Type 0} (check : VisitEvent → S → AdmissionDecision × S) (cost : Double) (bytes : Text)
    (s : S)
    → (visit_protobuf check cost bytes s).0 ≢ out_of_fuel
unfolding visit_protobuf read_field
visit_protobuf-ends check cost bytes s =
    visit_from-ends check cost (read_field (length bytes))
      (λ byte rest.
        tag_found-Shortens (suc (length rest)) (length bytes) (read_varint (byte ∷ rest))
          (read_varint-LeavesFewer (byte ∷ rest)))
      (length bytes) bytes s (omega arith)

visit_packed_varint-ends :
    {S : Type 0} (check : VisitEvent → S → AdmissionDecision × S) (cost : Double) (field : ℕ)
    (body : Text) (s : S)
    → (visit_packed_varint check cost field body s).0 ≢ out_of_fuel
unfolding visit_packed_varint read_packed_varint
visit_packed_varint-ends check cost field body s =
    visit_from-ends check cost (read_packed_varint field)
      (λ byte rest.
        varint_found-Shortens (suc (length rest)) field (read_varint (byte ∷ rest))
          (read_varint-LeavesFewer (byte ∷ rest)))
      (length body) body s (omega arith)

length-split_bytes :
    (n : ℕ) (s front back : Text)
    → split_bytes n s ≡ some (front, back)
    → length back + n ≡ length s
unfolding split_bytes
length-split_bytes zero s front back h = ground arith
length-split_bytes (suc n) [] front back h = cc
length-split_bytes (suc n) (byte ∷ s) front back h = elim (Option-cases (split_bytes n s)) [
  | inl none_left ↦ ground arith
  | inr ((f, b), e) ↦ ground (arith, length-split_bytes n s f b e)
]

size_of-positive : (t : ElementType) → 0 < size_of t
size_of-positive element32 = omega arith
size_of-positive element64 = omega arith

module _ {S : Type 0} (check : VisitEvent → S → AdmissionDecision × S) (t : ElementType)
    (field : ℕ) where
  after_element-ends :
      (visit_rest : Text → S → Outcome × S) (body : Text) (s : S)
      → ((rest : Text) → length rest < length body → (u : S) → (visit_rest rest u).0 ≢ out_of_fuel)
      → (after_element check t field visit_rest (split_bytes (size_of t) body) s).0 ≢ out_of_fuel
  after_element-ends visit_rest body s h = elim (Option-cases (split_bytes (size_of t) body)) [
    | inl none_left ↦ rw none_left (λ e. cc)
    | inr ((raw, rest), e) ↦ rw e (
        unless_dropped-ends check double_zero (visit_rest rest) _ (
          h rest
            (omega (arith, size_of-positive t, length-split_bytes (size_of t) body raw rest e))))
  ]

  visit_elements-ends :
      (fuel : ℕ) (body : Text) (s : S)
      → length body ≤ fuel
      → (visit_elements check t field fuel body s).0 ≢ out_of_fuel
  unfolding visit_elements
  visit_elements-ends zero body s le =
      after_element-ends (λ rest u. (out_of_fuel, u)) body s (λ rest lt u. absurd (omega arith))
  visit_elements-ends (suc fuel) body s le =
      after_element-ends (visit_elements check t field fuel) body s
        (λ rest lt u. visit_elements-ends fuel rest u (omega arith))

-- The fuel is enough, for a message and for packed fields: the model comes to a decision, to the end
-- of the bytes or to undefined behaviour, where it stops.
visits_end :
    {S : Type 0} (check : VisitEvent → S → AdmissionDecision × S) (cost : Double) (bytes : Text)
    (field : ℕ) (t : ElementType) (s : S)
    → ((visit_protobuf check cost bytes s).0 ≢ out_of_fuel)
      × ((visit_packed_varint check cost field bytes s).0 ≢ out_of_fuel)
      × ((visit_packed_fixed check t field bytes s).0 ≢ out_of_fuel)
unfolding visit_packed_fixed
visits_end check cost bytes field t s = (
  visit_protobuf-ends check cost bytes s,
  visit_packed_varint-ends check cost field bytes s,
  visit_elements-ends check t field (length bytes) bytes s (omega arith),
)
