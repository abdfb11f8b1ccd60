-- ===== src/Validators/Chars/Decimal.antt =====
-- include/rpcspec/Validators.hpp: the decimal numbers in messages, and their reading.
use rpc_spec.Prelude.{
  ℕ, zero, suc, ◌+◌, ◌-◌, ◌*◌, ◌/◌, ◌%◌, ◌≤◌, ◌≡◌, ◌≢◌, refl, ap, ◌∙◌, Text, true, some, [], ◌∷◌,
  ◌++◌, all, arith, ltb, inl, inr, Bool-cases,
}
use rpc_spec.View.{uint32_max}
use rpc_spec.Validators.Chars.{
  is_digit, digits_value, decimal_from, format_number, drop_plus, lexical_uint32,
}
use rpc_spec.Validators.Chars.Numerals.{IsNumeral, lexical_uint32_iff}

digits_value-append :
    (acc c : ℕ) (s : Text) → digits_value acc (s ++ c ∷ []) ≡ 10 * digits_value acc s + (c - b'0')
unfolding digits_value
digits_value-append acc c [] = refl
digits_value-append acc c (d ∷ s) = digits_value-append (10 * acc + (d - b'0')) c s

all-append :
    (c : ℕ) (s : Text)
    → all is_digit s ≡ true
    → is_digit c ≡ true
    → all is_digit (s ++ c ∷ []) ≡ true
all-append c [] h k = ground arith
all-append c (d ∷ s) h k = ground (arith, all-append c s)

append-nonempty : (c : ℕ) (s : Text) → (s ++ c ∷ []) ≢ []
append-nonempty c [] e = cc
append-nonempty c (d ∷ s) e = cc

decimal_from-IsNumeral :
    (fuel n : ℕ)
    → n ≤ fuel
    → IsNumeral (decimal_from fuel n) × (digits_value 0 (decimal_from fuel n) ≡ n)
unfolding decimal_from digits_value
decimal_from-IsNumeral zero n le = (((λ e. cc), ground arith), omega arith)
decimal_from-IsNumeral (suc fuel) n le = elim (Bool-cases (ltb n 10)) [
  | inl one ↦ rw one (((λ e. cc), ground arith), omega arith)
  | inr more ↦
      let front = decimal_from fuel (n / 10) in
      let ((_, digits), value) = decimal_from-IsNumeral fuel (n / 10) (ground arith) in
      rw more (
        (
          append-nonempty (b'0' + n % 10) front,
          all-append (b'0' + n % 10) front digits (ground arith),
        ),
        omega (arith, digits_value-append 0 (b'0' + n % 10) front, value),
      )
]

drop_plus-digits : (s : Text) → all is_digit s ≡ true → drop_plus s ≡ s
drop_plus-digits [] h = refl
drop_plus-digits (c ∷ s) h = ground arith

-- The decimal form of every number of 32 bits is read back by `lexicalUint32` as that number.
pub lexical_uint32-format_number :
    (n : ℕ) → n ≤ uint32_max → lexical_uint32 (format_number n) ≡ some n
unfolding format_number
lexical_uint32-format_number n le =
    let (numeral, value) = decimal_from-IsNumeral n n (omega arith) in
    let same = drop_plus-digits (decimal_from n n) numeral.1 in
    (lexical_uint32_iff n (decimal_from n n)).1
      (rw same numeral, (ap (digits_value 0) same ∙ value), le)
