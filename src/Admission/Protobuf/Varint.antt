-- ===== src/Admission/Protobuf/Varint.antt =====
-- include/admissionspec/ProtobufVisitor.hpp: `readVarint`, and the encoding that it reads.
use rpc_spec.Prelude.{
  ℕ, zero, suc, ◌+◌, ◌*◌, ◌/◌, ◌%◌, ◌^◌, ◌<◌, ◌≡◌, refl, ◌∙◌, ap, subst, true, false, inl, inr,
  Bool-cases, ltb→lt, Text, [], ◌∷◌, ◌++◌, arith, ltb, leb, if◌then◌else◌,
}
use native.Mathlib.Nat.{add-mul, mul_comm, mul_assoc, pow-succ'}

-- What `readVarint` gives: the value with the bytes that follow it, or false. A shift by the width of
-- the type or more is undefined behaviour.
pub data VarintRead : Type 0 where
  value_read : ℕ → Text → VarintRead
  truncated : VarintRead
  undefined_shift : VarintRead

-- The loop, on the bytes from `pos` on. The bits below `shift` are those that `result` has, so the
-- bits added by `|=` are added as a number.
unfoldable pub read_from : ℕ → ℕ → Text → VarintRead
read_from shift result [] = truncated
read_from shift result (byte ∷ bytes) =
    let next = result + ((byte % 128) * 2 ^ shift) % 2 ^ 64 in
    let rest = read_from (shift + 7) next bytes in
    if leb 64 shift
    then undefined_shift
    else if ltb (byte % 256) 128
    then value_read next bytes
    else rest

-- `readVarint`
unfoldable pub read_varint : Text → VarintRead
unfolding read_from
read_varint bytes = read_from 0 0 bytes

-- The encoding of a number in groups of seven bits, the lowest first, with at most `k` before the last.
unfoldable pub encode_groups : ℕ → ℕ → Text
encode_groups zero n = n % 128 ∷ []
encode_groups (suc k) n =
    let rest = encode_groups k (n / 128) in if ltb n 128 then n ∷ [] else (128 + n % 128) ∷ rest

unfoldable pub encode_varint : ℕ → Text
unfolding encode_groups
encode_varint n = encode_groups 9 n

scaled_split : (n p : ℕ) → (n % 128) * p + (n / 128) * (128 * p) ≡ n * p
scaled_split n p =
    let e : n ≡ 128 * (n / 128) + n % 128 = omega arith in
    let d : (128 * (n / 128) + n % 128) * p ≡ 128 * (n / 128) * p + (n % 128) * p =
      add-mul (128 * (n / 128)) (n % 128) p in
    let a : 128 * (n / 128) * p ≡ (n / 128) * (128 * p) =
      ap (λ z. z * p) (mul_comm 128 (n / 128)) ∙ mul_assoc (n / 128) 128 p in
    omega (arith, ap (λ z. z * p) e, d, a)

power_step : (s : ℕ) → 2 ^ (s + 7) ≡ 128 * 2 ^ s
power_step s =
    let e : s + 7 ≡ suc (suc (suc (suc (suc (suc (suc s)))))) = omega arith in
    ap (λ z. 2 ^ z) e
    ∙ omega (
      arith,
      pow-succ' 2 s,
      pow-succ' 2 (suc s),
      pow-succ' 2 (suc (suc s)),
      pow-succ' 2 (suc (suc (suc s))),
      pow-succ' 2 (suc (suc (suc (suc s)))),
      pow-succ' 2 (suc (suc (suc (suc (suc s))))),
      pow-succ' 2 (suc (suc (suc (suc (suc (suc s)))))),
    )

-- The last group is a byte below 128.
read_last :
    (n shift r : ℕ) (rest : Text)
    → n < 128
    → shift < 64
    → n * 2 ^ shift < 2 ^ 64
    → read_from shift r (n ∷ rest) ≡ value_read (r + n * 2 ^ shift) rest
unfolding read_from
read_last n shift r rest small s h =
    let a : n % 128 ≡ n = omega arith in
    let b : n % 256 ≡ n = omega arith in
    let c : (n * 2 ^ shift) % 2 ^ 64 ≡ n * 2 ^ shift = omega (arith, h) in
    let t : ltb n 128 ≡ true = ground arith in
    let u : leb 64 shift ≡ false = ground arith in rw (u, b, t, a, c) refl

-- A byte above 127 adds its group, and the reading goes on.
read_more :
    (n shift r : ℕ) (bytes : Text)
    → shift < 64
    → n * 2 ^ shift < 2 ^ 64
    → read_from shift r ((128 + n % 128) ∷ bytes)
      ≡ read_from (shift + 7) (r + (n % 128) * 2 ^ shift) bytes
unfolding read_from
read_more n shift r bytes s h =
    let a : (128 + n % 128) % 128 ≡ n % 128 = omega arith in
    let b : ltb ((128 + n % 128) % 256) 128 ≡ false = ground arith in
    let c : ((n % 128) * 2 ^ shift) % 2 ^ 64 ≡ (n % 128) * 2 ^ shift =
      omega (arith, h, scaled_split n (2 ^ shift)) in
    let u : leb 64 shift ≡ false = ground arith in rw (u, b, a, c) refl

read_from-encode_groups :
    (k n shift r : ℕ) (rest : Text)
    → shift + 7 * k ≡ 63
    → n * 2 ^ shift < 2 ^ 64
    → read_from shift r (encode_groups k n ++ rest) ≡ value_read (r + n * 2 ^ shift) rest
unfolding encode_groups
read_from-encode_groups zero n shift r rest e h =
    let at_63 : shift ≡ 63 = omega arith in
    let bit : n * 2 ^ 63 < 2 ^ 64 = subst (λ z. n * 2 ^ z < 2 ^ 64) at_63 h in
    let a : n % 128 ≡ n = omega (arith, bit) in
    rw a (read_last n shift r rest (omega (arith, bit)) (omega arith) h)
read_from-encode_groups (suc k) n shift r rest e h = elim (Bool-cases (ltb n 128)) [
  | inl small ↦ rw small (read_last n shift r rest (ltb→lt n 128 small) (omega arith) h)
  | inr large ↦
      let split = scaled_split n (2 ^ shift) in
      let scaled : (n / 128) * 2 ^ (shift + 7) ≡ (n / 128) * (128 * 2 ^ shift) =
        ap (λ z. (n / 128) * z) (power_step shift) in
      let later =
        read_from-encode_groups k (n / 128) (shift + 7) (r + (n % 128) * 2 ^ shift) rest
          (omega arith) (omega (arith, scaled, split, h)) in
      let total : r + (n % 128) * 2 ^ shift + (n / 128) * 2 ^ (shift + 7) ≡ r + n * 2 ^ shift =
        omega (arith, scaled, split) in
      rw large (
        read_more n shift r (encode_groups k (n / 128) ++ rest) (omega arith) h
        ∙ later
        ∙ ap (λ z. value_read z rest) total)
]

-- Reading gives back every number of 64 bits from its encoding, with the bytes that follow it.
pub read_varint-encode_varint :
    (n : ℕ) (rest : Text) → n < 2 ^ 64 → read_varint (encode_varint n ++ rest) ≡ value_read n rest
unfolding read_varint encode_varint
read_varint-encode_varint n rest h =
    let whole : n * 2 ^ 0 < 2 ^ 64 = omega (arith, h) in
    read_from-encode_groups 9 n 0 0 rest refl whole ∙ ap (λ z. value_read z rest) (omega arith)
