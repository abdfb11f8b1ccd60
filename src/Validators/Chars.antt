-- ===== src/Validators/Chars.antt =====
-- `std::from_chars` for decimal numbers, `std::tolower` and the other byte functions of the standard
-- library that include/rpcspec/Validators.hpp calls, and its helpers on text.
pub mod Numerals
pub mod Decimal
use rpc_spec.Prelude.{
  ℕ, ◌+◌, ◌-◌, ◌*◌, ◌/◌, ◌%◌, zero, suc, ◌++◌, Text, Bool, true, false, ◌&&◌, ◌||◌, Option, none,
  some, List, [], ◌∷◌, leb, ltb, ◌==◌, is_empty, if◌then◌else◌,
}
use rpc_spec.Prelude.Int.{ℤ, pos, negsuc}
use rpc_spec.View.{int64_max, uint32_max}

abbrev pub is_digit : ℕ → Bool
is_digit c = leb b'0' c && leb c b'9'

-- The longest run of digits at the front, and what follows it.
unfoldable pub span_digits : Text → Text × Text
span_digits [] = ([], [])
span_digits (c ∷ s) =
    let rest = span_digits s in if is_digit c then (c ∷ rest.0, rest.1) else ([], c ∷ s)

-- The number that a run of digits stands for, read from the left.
unfoldable pub digits_value : ℕ → Text → ℕ
digits_value acc [] = acc
digits_value acc (c ∷ s) = digits_value (10 * acc + (c - b'0')) s

-- `std::format` of a number, in decimal; the number is fuel enough for its digits.
unfoldable pub decimal_from : ℕ → ℕ → Text
decimal_from zero n = (b'0' + n % 10) ∷ []
decimal_from (suc fuel) n =
    let front = decimal_from fuel (n / 10) in
    if ltb n 10 then (b'0' + n) ∷ [] else front ++ (b'0' + n % 10) ∷ []

unfoldable pub format_number : ℕ → Text
unfolding decimal_from
format_number n = decimal_from n n

-- `none`: there are no digits, or the number is above the limit of the type. Otherwise the number,
-- with the text from `ptr` on.
abbrev pub number_within : ℕ → Text × Text → Option (ℕ × Text)
number_within limit (digits, rest) =
    if is_empty digits
    then none
    else if leb (digits_value 0 digits) limit
    then some (digits_value 0 digits, rest)
    else none

-- `from_chars` into an unsigned type.
unfoldable pub from_chars : ℕ → Text → Option (ℕ × Text)
unfolding span_digits digits_value
from_chars limit s = number_within limit (span_digits s)

-- The value, if the whole text is read: `ec == std::errc() and ptr == end`.
abbrev pub all_read {ℓ} : {A : Type ℓ} → Option (A × Text) → Option A
all_read none = none
all_read (some (a, rest)) = if is_empty rest then some a else none

-- `-n`
abbrev pub negated : ℕ → ℤ
negated n = if n == 0 then pos 0 else negsuc (n - 1)

abbrev pub map_value {ℓ κ} :
    {A : Type ℓ} {B : Type κ} → (A → B) → Option (A × Text) → Option (B × Text)
map_value f none = none
map_value f (some (a, rest)) = some (f a, rest)

-- `from_chars` into `int64_t`: a minus sign may stand in front.
unfoldable pub from_chars_int64 : Text → Option (ℤ × Text)
unfolding from_chars
from_chars_int64 [] = none
from_chars_int64 (c ∷ s) =
    if c == b'-'
    then map_value negated (from_chars (int64_max + 1) s)
    else map_value pos (from_chars int64_max (c ∷ s))

-- `checkIsU32Numeric`
unfoldable pub check_is_u32_numeric : Text → Bool
unfolding from_chars
check_is_u32_numeric s = elim (all_read (from_chars uint32_max s)) [ some n ↦ true | none ↦ false ]

abbrev pub drop_plus : Text → Text
drop_plus [] = []
drop_plus (c ∷ s) = if c == b'+' then s else c ∷ s

-- `detail::lexicalUint32`
unfoldable pub lexical_uint32 : Text → Option ℕ
unfolding from_chars
lexical_uint32 s = all_read (from_chars uint32_max (drop_plus s))

-- `sv.find(c)`, as the texts before and after the first `c`.
unfoldable pub split_at : ℕ → Text → Option (Text × Text)
split_at d [] = none
split_at d (c ∷ s) =
    let rest = map_value (λ t. c ∷ t) (split_at d s) in if c == d then some ([], s) else rest

unfoldable pub contains_byte : ℕ → Text → Bool
contains_byte d [] = false
contains_byte d (c ∷ s) = (c == d) || contains_byte d s

-- What `c_str` gives to a function that takes a C string.
unfoldable pub c_str : Text → Text
c_str [] = []
c_str (c ∷ s) = if c == 0 then [] else c ∷ c_str s

-- `std::tolower` in the C locale.
unfoldable pub to_lower : ℕ → ℕ
to_lower c = if leb b'A' c && leb c b'Z' then c + 32 else c

-- `std::isalnum` in the C locale.
unfoldable pub is_alnum : ℕ → Bool
is_alnum c = is_digit c || (leb b'A' c && leb c b'Z') || (leb b'a' c && leb c b'z')
