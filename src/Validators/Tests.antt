-- ===== src/Validators/Tests.antt =====
-- include/rpcspec/Validators.hpp: the validators on sample fields, with simple functions in place
-- of libxrpl's, and the theorems on them applied.
use rpc_spec.Prelude.{ℕ, ◌≤◌, ◌<◌, ◌≡◌, ◌↔◌, refl, Text, true, some, [], ◌∷◌}
use mathlib.Core.Option
use rpc_spec.Prelude.Int.{pos}
use rpc_spec.Json.{int64, string, array, nil, cons}
use rpc_spec.Status.{clio, success}
use rpc_spec.View.{FieldView, is_array, array_size, element, set, uint32_max}
use rpc_spec.Validators.Chars.{
  span_digits, digits_value, from_chars, all_read, from_chars_int64, contains_byte,
}
use rpc_spec.Validators.Chars.Numerals.{IsNumeral, from_chars_iff}
use rpc_spec.Validators.Numeric.{
  int64_bound, uint32_bound, numeric_value, std_clamp, clamp_as, target_int32, target_uint32,
}
use rpc_spec.Validators.Numeric.Bounds.{nearest_uint32, numeric_value-clamp_as}
use rpc_spec.Validators.Strings.{to_number}
use rpc_spec.Validators.Strings.Laws.{text_field, to_number_iff}
use rpc_spec.Validators.Samples.{sample_libxrpl}
use rpc_spec.Validators.Accounts.{authorize_credential}
use rpc_spec.Validators.Accounts.Credentials.{IsCredential, authorize_credential_iff}

abbrev limit_key : Text
limit_key = 108 ∷ []

abbrev large_limit : FieldView
large_limit = record { key = limit_key; value = some (int64 (pos 5000)) }

abbrev accounts : FieldView
accounts = record { key = limit_key; value = some (array (cons (string (114 ∷ 49 ∷ [])) nil)) }

from_chars_iff_example :
    (all_read (from_chars 100 (52 ∷ 50 ∷ [])) ≡ some 42)
    ↔ (IsNumeral (52 ∷ 50 ∷ []) × (digits_value 0 (52 ∷ 50 ∷ []) ≡ 42) × (42 ≤ 100))
from_chars_iff_example = from_chars_iff 100 42 (52 ∷ 50 ∷ [])

to_number_iff_example :
    let s : Text = 52 ∷ 50 ∷ [] in
    (to_number (text_field limit_key s)
      ≡ (success, record { key = limit_key; value = some (int64 (pos 42)) }))
    ↔ (IsNumeral s × (digits_value 0 s ≡ 42) × (42 ≤ uint32_max))
to_number_iff_example = to_number_iff limit_key (52 ∷ 50 ∷ []) 42 refl

to_number_sample : (to_number (text_field limit_key (52 ∷ 50 ∷ []))).0 ≡ success
unfolding to_number set from_chars_int64 from_chars span_digits digits_value contains_byte
to_number_sample = refl

numeric_value-clamp_as_example :
    (numeric_value int64_bound (clamp_as target_int32 large_limit).1
      ≡ Option.map
          (λ x. std_clamp int64_bound x target_int32.k_lo target_int32.k_hi)
          (numeric_value int64_bound large_limit))
    × (numeric_value uint32_bound (clamp_as target_uint32 large_limit).1
        ≡ Option.map nearest_uint32 (numeric_value int64_bound large_limit))
numeric_value-clamp_as_example = numeric_value-clamp_as large_limit

authorize_credential_iff_example : (authorize_credential clio sample_libxrpl accounts ≡ success) ↔ (
    (is_array accounts ≡ true)
    × (1 ≤ array_size accounts)
    × (array_size accounts ≤ 8)
    × ((i : ℕ) → i < array_size accounts → IsCredential clio sample_libxrpl (element accounts i)))
authorize_credential_iff_example = authorize_credential_iff clio sample_libxrpl accounts refl
