-- ===== src/Validators/Chars/Numerals.antt =====
-- include/rpcspec/Validators.hpp: which texts the number parsers read, and as what.
use rpc_spec.Prelude.{
  ℕ, ◌≤◌, ◌≡◌, ◌≢◌, ◌↔◌, refl, ap, Text, true, false, some, [], ◌∷◌, all, arith, is_empty,
}
use rpc_spec.View.{uint32_max}
use rpc_spec.Validators.Chars.{
  is_digit, span_digits, digits_value, number_within, from_chars, all_read, lexical_uint32,
  drop_plus,
}

-- A numeral: one digit or more, and nothing else.
abbrev pub IsNumeral : Text → Type 0
IsNumeral s = (s ≢ []) × (all is_digit s ≡ true)

span_digits-all : (s : Text) → all is_digit s ≡ true → span_digits s ≡ (s, [])
unfolding span_digits
span_digits-all [] h = refl
span_digits-all (c ∷ s) h = ground (arith, span_digits-all s)

span_digits-rest : (s : Text) → (span_digits s).1 ≡ [] → all is_digit s ≡ true
unfolding span_digits
span_digits-rest [] h = refl
span_digits-rest (c ∷ s) h = ground (arith, span_digits-rest s)

is_empty-false : (s : Text) → is_empty s ≡ false → s ≢ []
is_empty-false [] h e = cc
is_empty-false (c ∷ s) h e = cc

is_empty-true : (s : Text) → is_empty s ≡ true → s ≡ []
is_empty-true [] h = refl
is_empty-true (c ∷ s) h = cc

ne-is_empty : (s : Text) → s ≢ [] → is_empty s ≡ false
ne-is_empty [] h = absurd (h refl)
ne-is_empty (c ∷ s) h = refl

all_read-number_within :
    (limit n : ℕ) (ds rest : Text)
    → all_read (number_within limit (ds, rest)) ≡ some n
    → (ds ≢ []) × (rest ≡ []) × (digits_value 0 ds ≡ n) × (n ≤ limit)
all_read-number_within limit n ds rest h =
    let (a, b, c, d) = parts in (is_empty-false ds a, is_empty-true rest b, c, d)
  where
    parts : (is_empty ds ≡ false) × (is_empty rest ≡ true) × (digits_value 0 ds ≡ n) × (n ≤ limit)
    parts = ground arith

-- A text is read whole as `n` exactly if it is a numeral for `n`, and `n` is within the limit.
pub from_chars_iff :
    (limit n : ℕ) (s : Text)
    → (all_read (from_chars limit s) ≡ some n)
      ↔ (IsNumeral s × (digits_value 0 s ≡ n) × (n ≤ limit))
unfolding from_chars
from_chars_iff limit n s = (forth, back)
  where
    forth :
        all_read (number_within limit (span_digits s)) ≡ some n
        → IsNumeral s × (digits_value 0 s ≡ n) × (n ≤ limit)
    forth h =
        let (nonempty, rest, value, le) =
          all_read-number_within limit n (span_digits s).0 (span_digits s).1 h in
        let digits = span_digits-rest s rest in
        let same : (span_digits s).0 ≡ s = ap (λ p. p.0) (span_digits-all s digits) in
        ((rw same at nonempty, digits), rw same at value, le)

    back :
        IsNumeral s × (digits_value 0 s ≡ n) × (n ≤ limit)
        → all_read (number_within limit (span_digits s)) ≡ some n
    back (numeral, value, le) =
        rw (span_digits-all s numeral.1) (ground (arith, ne-is_empty s numeral.0))

-- `lexicalUint32` reads one plus sign at most, and then a numeral for a number of 32 bits.
pub lexical_uint32_iff :
    (n : ℕ) (s : Text)
    → (lexical_uint32 s ≡ some n)
      ↔ (IsNumeral (drop_plus s) × (digits_value 0 (drop_plus s) ≡ n) × (n ≤ uint32_max))
unfolding lexical_uint32
lexical_uint32_iff n s = from_chars_iff uint32_max n (drop_plus s)
