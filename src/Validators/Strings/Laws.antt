-- ===== src/Validators/Strings/Laws.antt =====
-- include/rpcspec/Validators.hpp: the modifiers of strings: what they write, and which texts they
-- refuse.
use rpc_spec.Prelude.{
  ℕ, ◌≤◌, ◌≡◌, ◌↔◌, refl, ap, Text, Bool, true, false, Option, none, some, [], ◌∷◌, map, all, arith,
  ◌==◌,
}
use rpc_spec.Prelude.Int.{ℤ, pos, negsuc}
use rpc_spec.Json.{Value, int64, string}
use rpc_spec.Status.{success}
use rpc_spec.View.{FieldView, set, uint32_max, int64_max}
use rpc_spec.Validators.Chars.{
  is_digit, from_chars, from_chars_int64, all_read, contains_byte, to_lower, digits_value,
  map_value,
}
use rpc_spec.Validators.Chars.Numerals.{IsNumeral, from_chars_iff}
use rpc_spec.Validators.Numeric.{uint32_bound, numeric_value}
use rpc_spec.Validators.Strings.{
  set_or_reject, fits_uint32, number_text, to_number, to_lower_modify,
}

to_lower_idem : (c : ℕ) → to_lower (to_lower c) ≡ to_lower c
unfolding to_lower
to_lower_idem c = ground arith

map-to_lower_idem : (s : Text) → map to_lower (map to_lower s) ≡ map to_lower s
map-to_lower_idem [] = refl
map-to_lower_idem (c ∷ s) = cc (to_lower_idem c, map-to_lower_idem s)

to_lower_modify_twice :
    (k : Text) (o : Option Value)
    → let v : FieldView = record { key = k; value = o } in
      to_lower_modify (to_lower_modify v).1 ≡ to_lower_modify v
unfolding to_lower_modify set
to_lower_modify_twice k none = refl
to_lower_modify_twice k (some (string s)) =
    ap (λ t. (success, record { key = k; value = some (string t) })) (map-to_lower_idem s)
to_lower_modify_twice k (some _) = refl

-- Lowering a field's letters a second time changes nothing.
pub to_lower_modify_idem :
    (v : FieldView) → to_lower_modify (to_lower_modify v).1 ≡ to_lower_modify v
to_lower_modify_idem v = to_lower_modify_twice v.key v.value

digits-no_byte :
    (d : ℕ) (s : Text) → is_digit d ≡ false → all is_digit s ≡ true → contains_byte d s ≡ false
unfolding contains_byte
digits-no_byte d [] h k = refl
digits-no_byte d (c ∷ s) h k = ground (arith, digits-no_byte d s h)

read_positive :
    (o : Option (ℕ × Text)) (n : ℕ)
    → (fits_uint32 (all_read (map_value pos o)) ≡ some (pos n))
      ↔ ((all_read o ≡ some n) × (n ≤ uint32_max))
read_positive none n = ((λ h. cc), (λ h. cc))
read_positive (some (m, [])) n = ground arith
read_positive (some (m, c ∷ s)) n = ((λ h. cc), (λ h. cc))

abbrev pub starts_with_minus : Text → Bool
starts_with_minus [] = false
starts_with_minus (c ∷ s) = c == b'-'

from_chars_int64-pos :
    (s : Text)
    → starts_with_minus s ≡ false
    → from_chars_int64 s ≡ map_value pos (from_chars int64_max s)
unfolding from_chars_int64 from_chars
from_chars_int64-pos [] h = refl
from_chars_int64-pos (c ∷ s) h = rw h

number_text_iff :
    (s : Text) (n : ℕ)
    → starts_with_minus s ≡ false
    → (number_text s ≡ some (pos n)) ↔ (IsNumeral s × (digits_value 0 s ≡ n) × (n ≤ uint32_max))
number_text_iff s n h = (forth, back)
  where
    value :
        (fits_uint32 (all_read (from_chars_int64 s)) ≡ some (pos n))
        ↔ ((all_read (from_chars int64_max s) ≡ some n) × (n ≤ uint32_max))
    value = rw (from_chars_int64-pos s h) (read_positive (from_chars int64_max s) n)

    forth : number_text s ≡ some (pos n) → IsNumeral s × (digits_value 0 s ≡ n) × (n ≤ uint32_max)
    forth e =
        let (read, le) = value.0 (ground arith) in
        let (numeral, same, _) = (from_chars_iff int64_max n s).0 read in (numeral, same, le)

    back : IsNumeral s × (digits_value 0 s ≡ n) × (n ≤ uint32_max) → number_text s ≡ some (pos n)
    back (numeral, same, le) =
        rw (digits-no_byte b'.' s refl numeral.1)
          (value.1 ((from_chars_iff int64_max n s).1 (numeral, same, omega arith), le))

abbrev pub text_field : Text → Text → FieldView
text_field k s = record { key = k; value = some (string s) }

to_number-written :
    (k s : Text) (o : Option ℤ) (n : ℕ)
    → number_text s ≡ o
    → (to_number (text_field k s) ≡ (success, record { key = k; value = some (int64 (pos n)) }))
      ↔ (o ≡ some (pos n))
unfolding to_number set
to_number-written k s none n e = rw e ((λ h. cc), (λ h. cc))
to_number-written k s (some x) n e = rw e ((λ h. ground arith), (λ h. ground arith))

-- A string with no minus sign becomes the number `n` exactly if it is a numeral for `n` and `n` fits
-- 32 bits.
pub to_number_iff :
    (k s : Text) (n : ℕ)
    → starts_with_minus s ≡ false
    → (to_number (text_field k s) ≡ (success, record { key = k; value = some (int64 (pos n)) }))
      ↔ (IsNumeral s × (digits_value 0 s ≡ n) × (n ≤ uint32_max))
to_number_iff k s n h =
    let (a, b) = to_number-written k s (number_text s) n refl in
    let (c, d) = number_text_iff s n h in ((λ e. c (a e)), (λ p. b (d p)))

fits_uint32-pos :
    (o : Option ℤ) (x : ℤ) → fits_uint32 o ≡ some x → (n : ℕ) × (x ≡ pos n) × (n ≤ uint32_max)
fits_uint32-pos none x h = cc
fits_uint32-pos (some (pos n)) x h = (n, ground arith, ground arith)
fits_uint32-pos (some (negsuc n)) x h = cc

number_text-pos :
    (s : Text) (x : ℤ) → number_text s ≡ some x → (n : ℕ) × (x ≡ pos n) × (n ≤ uint32_max)
number_text-pos s x h = fits_uint32-pos (all_read (from_chars_int64 s)) x (ground arith)

written_in_range :
    (k s : Text) (o : Option ℤ)
    → ((x : ℤ) → o ≡ some x → (n : ℕ) × (x ≡ pos n) × (n ≤ uint32_max))
    → (set_or_reject int64 (text_field k s) o).0 ≡ success
    → (n : ℕ) × (n ≤ uint32_max)
      × (numeric_value uint32_bound (set_or_reject int64 (text_field k s) o).1 ≡ some n)
unfolding numeric_value set
written_in_range k s none range h = cc
written_in_range k s (some (pos n)) range h =
    let (m, same, le) = range (pos n) refl in (n, ground arith, ground arith)
written_in_range k s (some (negsuc n)) range h = let (m, same, le) = range (negsuc n) refl in cc

-- Whatever the string, if its conversion succeeds then the field reads as a number of 32 bits.
pub to_number-in_range :
    (k s : Text)
    → (to_number (text_field k s)).0 ≡ success
    → (n : ℕ) × (n ≤ uint32_max)
      × (numeric_value uint32_bound (to_number (text_field k s)).1 ≡ some n)
unfolding to_number
to_number-in_range k s h = written_in_range k s (number_text s) (number_text-pos s) h
