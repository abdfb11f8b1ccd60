-- ===== src/Validators/Numeric.antt =====
-- include/rpcspec/Validators.hpp: bounds on numbers and on lengths.
pub mod Bounds
use rpc_spec.Prelude.{
  ℕ, ◌+◌, ◌-◌, ◌*◌, ◌%◌, ◌^◌, Text, Bool, true, false, not, ◌&&◌, ◌||◌, Option, none, some, leb,
  ltb, ◌==◌, if◌then◌else◌,
}
use rpc_spec.Prelude.Int.{ℤ, pos, negsuc, ltb_ℤ}
use rpc_spec.Prelude.Float.{Double, double_lt}
use rpc_spec.Json.{Value, int64, uint64, double}
use rpc_spec.Status.{status, invalid_params, MaybeError, success, unexpected}
use rpc_spec.View.{
  FieldView, present, is_int64, as_int64, is_uint32, as_uint32, is_double, as_double, is_array,
  array_size, set, to_uint32,
}
use rpc_spec.Field.{Processor}

-- `SomeNumericBound`
pub data NumericType : Type 0 where
  int64_bound uint32_bound double_bound : NumericType

abbrev pub Number : NumericType → Type 0
Number int64_bound = ℤ
Number uint32_bound = ℕ
Number double_bound = Double

abbrev pub number_lt : (t : NumericType) → Number t → Number t → Bool
number_lt int64_bound = ltb_ℤ
number_lt uint32_bound = ltb
number_lt double_bound = double_lt

abbrev pub has_type : NumericType → FieldView → Bool
has_type int64_bound = is_int64
has_type uint32_bound = is_uint32
has_type double_bound = is_double

abbrev pub read_number : (t : NumericType) → FieldView → Option (Number t)
read_number int64_bound = as_int64
read_number uint32_bound = as_uint32
read_number double_bound = as_double

-- The overloads of `set`: boost::json stores unsigned as uint64.
abbrev pub stored : (t : NumericType) → Number t → Value
stored int64_bound = int64
stored uint32_bound = uint64
stored double_bound = double

-- `detail::numericValue`
unfoldable pub numeric_value : (t : NumericType) → FieldView → Option (Number t)
numeric_value t v = if not (present v) || not (has_type t v) then none else read_number t v

abbrev pub reject_if : {A : Type 0} → (A → Bool) → Option A → MaybeError
reject_if p none = success
reject_if p (some x) = if p x then unexpected (status invalid_params) else success

-- `Min::verify`
unfoldable pub min : (t : NumericType) → Number t → FieldView → MaybeError
min t bound v = reject_if (λ x. number_lt t x bound) (numeric_value t v)

-- `Between::verify`
unfoldable pub between : (t : NumericType) → Number t → Number t → FieldView → MaybeError
between t lo hi v = reject_if (λ x. number_lt t x lo || number_lt t hi x) (numeric_value t v)

-- `std::clamp`
abbrev pub std_clamp : (t : NumericType) → Number t → Number t → Number t → Number t
std_clamp t x lo hi = if number_lt t x lo then lo else if number_lt t hi x then hi else x

-- `Clamp::modify`
abbrev pub set_clamped :
    (t : NumericType) → Number t → Number t → FieldView → Option (Number t) → FieldView
set_clamped t lo hi v none = v
set_clamped t lo hi v (some x) = set v (stored t (std_clamp t x lo hi))

unfoldable pub clamp : (t : NumericType) → Number t → Number t → Processor FieldView
clamp t lo hi v = (success, set_clamped t lo hi v (numeric_value t v))

-- `MinArrayLength::verify` and `MaxArrayLength::verify`
unfoldable pub min_array_length : ℕ → FieldView → MaybeError
min_array_length bound v =
    if present v && is_array v && ltb (array_size v) bound
    then unexpected (status invalid_params)
    else success

unfoldable pub max_array_length : ℕ → FieldView → MaybeError
max_array_length bound v =
    if present v && is_array v && ltb bound (array_size v)
    then unexpected (status invalid_params)
    else success

-- The type to which `ClampAs` clamps, with `kLo` and `kHi`.
pub record Target : Type 0 where
  pub is_unsigned : Bool
  pub k_lo : ℤ
  pub k_hi : ℤ

abbrev pub target_int32 : Target
target_int32 = record { is_unsigned = false; k_lo = negsuc (2 ^ 31 - 1); k_hi = pos (2 ^ 31 - 1) }

abbrev pub target_uint32 : Target
target_uint32 = record { is_unsigned = true; k_lo = pos 0; k_hi = pos (2 ^ 32 - 1) }

abbrev pub clamp_ℤ : ℤ → ℤ → ℤ → ℤ
clamp_ℤ = std_clamp int64_bound

-- `if (value < 0) value = 0;`
abbrev pub floor_zero : ℤ → ℤ
floor_zero x = if ltb_ℤ x (pos 0) then pos 0 else x

-- `std::min<int64_t>`
abbrev pub std_min : ℤ → ℤ → ℤ
std_min x y = if ltb_ℤ y x then y else x

abbrev pub narrowed : Target → ℤ → Value
narrowed t x = if t.is_unsigned then uint64 (to_uint32 x) else int64 x

abbrev pub set_int64 : Target → FieldView → Option ℤ → FieldView
set_int64 t v none = v
set_int64 t v (some x) =
    let value = clamp_ℤ x t.k_lo t.k_hi in
    set v (narrowed t (if t.is_unsigned then floor_zero value else value))

abbrev pub set_uint32 : Target → FieldView → Option ℕ → FieldView
set_uint32 t v none = v
set_uint32 t v (some x) = set v (narrowed t (std_min (pos x) t.k_hi))

-- `ClampAs::modify`
unfoldable pub clamp_as : Target → Processor FieldView
clamp_as t v =
    if not (present v)
    then (success, v)
    else if is_int64 v
    then (success, set_int64 t v (as_int64 v))
    else if is_uint32 v
    then (success, set_uint32 t v (as_uint32 v))
    else (success, v)
