-- ===== src/Converters.antt =====
-- include/rpcspec/Converters.hpp: the converters from a field to the value that a handler's input has.
-- Those that run after a validator may throw where it has not run: `none` is the exception.
pub mod Agreement
pub mod Booleans
pub mod Vectors
pub mod Markers
pub mod Deferred
mod Tests
use rpc_spec.Prelude.{
  ℕ, zero, suc, ◌+◌, ◌^◌, ◌-◌, Text, Bool, true, false, not, ◌&&◌, Option, none, some, List, [],
  ◌∷◌, ◌++◌, ◌==◌, str, is_empty, if◌then◌else◌,
}
use rpc_spec.Prelude.Int.{ℤ, pos, negsuc}
use rpc_spec.Prelude.Float.{Double, magnitude}
use rpc_spec.Status.{
  Server, is_xrpld_build, CombinedError, Status, status, status_with, invalid_params, xrpld_error,
  rpc_act_malformed, malformed_field, Result, ok, unexpected, not_string_field_message,
  malformed_field_message, malformed_cursor_message, expected_field_message,
}
use rpc_spec.View.{
  FieldView, is_string, as_string, is_bool, as_bool, is_uint32, as_uint32, is_int64, as_int64,
  is_double, as_double, is_array, array_size, is_object, object_size, element,
}
use rpc_spec.Validators.Chars.{split_at, c_str, from_chars, all_read, drop_plus}
use rpc_spec.Validators.Libxrpl.{
  Libxrpl, account_from_string_strict, hex_from, account_from_validated, uint192_from_validated,
}

-- What most converters begin with: a value that is no string is refused.
abbrev pub from_string {ℓ} : {A : Type ℓ} → Result A → (Text → Result A) → FieldView → Result A
from_string refusal f v =
    if not (is_string v) then refusal else elim (as_string v) [ none ↦ refusal | some s ↦ f s ]

abbrev pub or_status {ℓ} : {A : Type ℓ} → Status → Option A → Result A
or_status e none = unexpected e
or_status e (some a) = ok a

-- `JsonBool`
pub record JsonBool : Type 0 where
  pub value : Bool

abbrev pub json_bool_of : Bool → JsonBool
json_bool_of b = record { value = b }

-- The comparisons with zero.
abbrev pub int_nonzero : ℤ → Bool
int_nonzero (pos n) = not (n == 0)
int_nonzero (negsuc n) = true

abbrev pub double_nonzero : Double → Bool
double_nonzero d = not (magnitude d == 0)

abbrev pub text_true : Text → Bool
text_true [] = false
text_true (c ∷ s) = not (c == 0)

abbrev pub holds {ℓ} : {A : Type ℓ} → (A → Bool) → Option A → Bool
holds p none = false
holds p (some a) = p a

-- `JsonBoolConverterT<true>` and `JsonBoolConverterT<false>`
unfoldable pub json_bool_strict : FieldView → Result JsonBool
json_bool_strict v =
    if not (is_bool v)
    then unexpected (status invalid_params)
    else ok (json_bool_of (holds (λ b. b) (as_bool v)))

unfoldable pub json_bool : FieldView → Result JsonBool
json_bool v =
    if is_bool v
    then ok (json_bool_of (holds (λ b. b) (as_bool v)))
    else if is_uint32 v
    then ok (json_bool_of (holds (λ n. not (n == 0)) (as_uint32 v)))
    else if is_int64 v
    then ok (json_bool_of (holds int_nonzero (as_int64 v)))
    else if is_double v
    then ok (json_bool_of (holds double_nonzero (as_double v)))
    else if is_string v
    then ok (json_bool_of (holds text_true (as_string v)))
    else if is_array v
    then ok (json_bool_of (not (array_size v == 0)))
    else if is_object v
    then ok (json_bool_of (not (object_size v == 0)))
    else ok (json_bool_of false)

-- `Uint32Converter`
unfoldable pub as_uint32_value : FieldView → Result ℕ
as_uint32_value v =
    if not (is_uint32 v)
    then unexpected (status invalid_params)
    else or_status (status invalid_params) (as_uint32 v)

-- `StringConverter`
unfoldable pub as_string_value : FieldView → Result Text
as_string_value v = from_string (unexpected (status invalid_params)) (λ s. ok s) v

-- `MalformedMarker`
pub data MalformedMarker : Type 0 where
  names_field invalid_params_only : MalformedMarker

abbrev pub names_the_field : MalformedMarker → Bool
names_the_field names_field = true
names_the_field invalid_params_only = false

abbrev pub uint64_max : ℕ
uint64_max = 2 ^ 64 - 1

-- `hintPart.substr(0, hintPart.find(','))`
abbrev pub before_comma : Text → Option (Text × Text) → Text
before_comma s none = s
before_comma s (some (front, back)) = front

abbrev pub push_front {ℓ} : {A : Type ℓ} → Option A → Option (List A) → Option (List A)
push_front none later = none
push_front (some a) none = none
push_front (some a) (some rest) = some (a ∷ rest)

-- The rounds `i` up to `i + n` of a loop that pushes the elements back; a conversion that fails ends it.
unfoldable pub collect {ℓ} :
    {A : Type ℓ} → (FieldView → Option A) → FieldView → ℕ → ℕ → Option (List A)
collect f v i zero = some []
collect f v i (suc n) = push_front (f (element v i)) (collect f v (i + 1) n)

-- `fieldView.element(i).asString()`, which is undefined where the element is no string.
abbrev pub element_text {ℓ} : {A : Type ℓ} → (Text → Option A) → FieldView → Option A
element_text f elem = elim (as_string elem) [ none ↦ none | some s ↦ f s ]

module _ (server : Server) (x : Libxrpl) where
  abbrev pub account_refusal : Text → Status
  account_refusal key =
      if is_xrpld_build server
      then status (xrpld_error rpc_act_malformed)
      else status_with (xrpld_error rpc_act_malformed) (key ++ str "Malformed")

  abbrev pub decode_account : Text → Option x.AccountId
  decode_account s =
      if is_xrpld_build server then x.parse_account_id s else account_from_string_strict x s

  -- `AccountIdConverter`
  unfoldable pub account_id : FieldView → Result x.AccountId
  account_id v =
      from_string (unexpected (status_with invalid_params (not_string_field_message server v.key)))
        (λ s. or_status (account_refusal v.key) (decode_account s)) v

  -- `AccountIdActMalformedConverter`
  unfoldable pub account_id_act_malformed : FieldView → Result x.AccountId
  account_id_act_malformed v =
      from_string (unexpected (status (xrpld_error rpc_act_malformed)))
        (λ s. or_status (status (xrpld_error rpc_act_malformed)) (account_from_string_strict x s)) v

  abbrev pub from_hex {ℓ} : {A : Type ℓ} → ℕ → (Text → x.HexNumber → A) → FieldView → Result A
  from_hex bits f v =
      from_string (unexpected (status_with malformed_field (not_string_field_message server v.key)))
        (λ s. elim (hex_from x bits (c_str s)) [
          | none ↦ unexpected (status_with malformed_field (malformed_field_message server v.key))
          | some n ↦ ok (f s n)
        ])
        v

  -- `HexConverterBase<HexType, HexType>`, for the type with so many bits: `Uint256HexConverter` and
  -- `Uint192HexConverter`.
  unfoldable pub as_hex : ℕ → FieldView → Result x.HexNumber
  unfolding c_str
  as_hex bits v = from_hex bits (λ s n. n) v

  -- `LedgerHashConverter`
  unfoldable pub ledger_hash_hex : FieldView → Result Text
  unfolding c_str
  ledger_hash_hex v = from_hex 256 (λ s n. s) v

  -- `AccountIdVecConverter` and `Uint192VecConverter`
  unfoldable pub account_id_vec : FieldView → Option (List x.AccountId)
  unfolding collect account_from_validated
  account_id_vec v = collect (element_text (account_from_validated x)) v 0 (array_size v)

  unfoldable pub uint192_vec : FieldView → Option (List x.HexNumber)
  unfolding collect uint192_from_validated
  uint192_vec v = collect (element_text (uint192_from_validated x)) v 0 (array_size v)

  abbrev pub marker_refusal : MalformedMarker → Text → Status
  marker_refusal on_xrpld key =
      if is_xrpld_build server && not (names_the_field on_xrpld)
      then status invalid_params
      else status_with malformed_field (malformed_cursor_message server key)

  abbrev pub hint_text : Text → Text
  hint_text s = if is_xrpld_build server then drop_plus (before_comma s (split_at b',' s)) else s

  abbrev pub marker_text : Status → Text → Option (Text × Text) → Result Text
  marker_text malformed s none = unexpected malformed
  marker_text malformed s (some (hex_part, hint_part)) =
      if not (x.parse_hex 256 (c_str hex_part))
      then unexpected malformed
      else elim (all_read (from_chars uint64_max (hint_text hint_part))) [
        | none ↦ unexpected malformed
        | some n ↦ ok s
      ]

  -- `AccountMarkerStrConverterT<OnXrpld>`
  unfoldable pub account_marker_str : MalformedMarker → FieldView → Result Text
  account_marker_str on_xrpld v =
      from_string
        (unexpected (
          status_with invalid_params (
            if is_xrpld_build server
            then expected_field_message v.key (str "string")
            else not_string_field_message server v.key)))
        (λ s. marker_text (marker_refusal on_xrpld v.key) s (split_at b',' s)) v

  abbrev pub reads_as_absent : FieldView → Bool
  reads_as_absent v = is_string v && holds is_empty (as_string v)

  -- `EmptyAsAbsentConverter`; `absent` is `AbsentValue<T>::get()`, and `wrap` makes the value of the
  -- wrapped converter one of `AbsentValue<T>::Type`.
  unfoldable pub empty_as_absent {ℓ κ} :
      {A : Type ℓ} {B : Type κ} → B → (A → B) → (FieldView → Result A) → FieldView → Result B
  empty_as_absent absent wrap conv v =
      if is_xrpld_build server && reads_as_absent v
      then ok absent
      else elim (conv v) [ ok a ↦ ok (wrap a) | unexpected e ↦ unexpected e ]
