-- ===== src/Validators/Strings.antt =====
-- include/rpcspec/Validators.hpp: the modifiers that read or rewrite a string.
pub mod Laws
use rpc_spec.Prelude.{
  ℕ, Text, Bool, true, false, not, ◌||◌, Option, none, some, List, map, leb, ltb, if◌then◌else◌,
}
use rpc_spec.Prelude.Int.{ℤ, pos, negsuc}
use rpc_spec.Json.{Value, int64, uint64, string}
use rpc_spec.Status.{status, invalid_params, MaybeError, success, unexpected}
use rpc_spec.View.{FieldView, present, is_string, as_string, set, uint32_max}
use rpc_spec.Field.{Processor}
use rpc_spec.Validators.Chars.{from_chars_int64, all_read, lexical_uint32, contains_byte, to_lower}

-- A failure for a value that is not the number wanted, or the number written.
abbrev pub set_or_reject :
    {A : Type 0} → (A → Value) → FieldView → Option A → MaybeError × FieldView
set_or_reject f v none = (unexpected (status invalid_params), v)
set_or_reject f v (some a) = (success, set v (f a))

-- The value that fits 32 bits without a sign.
abbrev pub fits_uint32 : Option ℤ → Option ℤ
fits_uint32 (some (pos n)) = if leb n uint32_max then some (pos n) else none
fits_uint32 _ = none

abbrev pub number_text : Text → Option ℤ
number_text s = if contains_byte b'.' s then none else fits_uint32 (all_read (from_chars_int64 s))

-- What a modifier of strings does with the text, if there is one.
abbrev pub on_text : FieldView → (Text → MaybeError × FieldView) → MaybeError × FieldView
on_text v f = elim (as_string v) [ none ↦ (success, v) | some s ↦ f s ]

-- `ToNumberModifier::modify`
unfoldable pub to_number : Processor FieldView
to_number v =
    if not (present v) || not (is_string v)
    then (success, v)
    else on_text v (λ s. set_or_reject int64 v (number_text s))

-- `LexicalUint32Modifier::modify`
unfoldable pub lexical_uint32_modify : Processor FieldView
lexical_uint32_modify v =
    if not (present v) || not (is_string v)
    then (success, v)
    else on_text v (λ s. set_or_reject uint64 v (lexical_uint32 s))

-- `ToLowerModifier::modify`
unfoldable pub to_lower_modify : Processor FieldView
to_lower_modify v =
    if not (present v) || not (is_string v)
    then (success, v)
    else on_text v (λ s. (success, set v (string (map to_lower s))))
