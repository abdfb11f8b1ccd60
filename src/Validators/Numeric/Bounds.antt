-- ===== src/Validators/Numeric/Bounds.antt =====
-- include/rpcspec/Validators.hpp: what a clamped field holds, and what the bound checks say of it.
use rpc_spec.Prelude.{
  ℕ, ◌≤◌, ◌≡◌, refl, sym, subst, Text, false, ◌||◌, Option, none, some, arith, leb, if◌then◌else◌,
}
use mathlib.Core.Option
use rpc_spec.Prelude.Int.{ℤ, pos, negsuc}
use rpc_spec.Prelude.Float.{Double, double_lt_irrefl}
use rpc_spec.Json.{Value, int64, uint64, double}
use rpc_spec.Status.{success}
use rpc_spec.View.{FieldView, set, uint32_max}
use rpc_spec.Validators.Numeric.{
  NumericType, int64_bound, uint32_bound, double_bound, Number, number_lt, numeric_value, reject_if,
  between, std_clamp, clamp, target_int32, target_uint32, clamp_as,
}

-- The numbers of the C++ type: `uint32_t` holds the numbers up to its maximum.
abbrev pub InType : (t : NumericType) → Number t → Type 0
InType int64_bound x = Unit
InType uint32_bound x = x ≤ uint32_max
InType double_bound x = Unit

numeric_value-set_int64 :
    (lo hi : ℤ) (k : Text) (o : Option Value)
    → let v : FieldView = record { key = k; value = o } in
      numeric_value int64_bound (clamp int64_bound lo hi v).1
      ≡ Option.map (λ x. std_clamp int64_bound x lo hi) (numeric_value int64_bound v)
unfolding numeric_value clamp set
numeric_value-set_int64 lo hi k none = refl
numeric_value-set_int64 lo hi k (some (int64 i)) = refl
numeric_value-set_int64 lo hi k (some (uint64 u)) = ground arith
numeric_value-set_int64 lo hi k (some _) = refl

numeric_value-set_uint32 :
    (lo hi : ℕ) (k : Text) (o : Option Value)
    → lo ≤ uint32_max
    → hi ≤ uint32_max
    → let v : FieldView = record { key = k; value = o } in
      numeric_value uint32_bound (clamp uint32_bound lo hi v).1
      ≡ Option.map (λ x. std_clamp uint32_bound x lo hi) (numeric_value uint32_bound v)
unfolding numeric_value clamp set
numeric_value-set_uint32 lo hi k none p q = refl
numeric_value-set_uint32 lo hi k (some (int64 (pos n))) p q = ground arith
numeric_value-set_uint32 lo hi k (some (uint64 u)) p q = ground arith
numeric_value-set_uint32 lo hi k (some _) p q = refl

numeric_value-set_double :
    (lo hi : Double) (k : Text) (o : Option Value)
    → let v : FieldView = record { key = k; value = o } in
      numeric_value double_bound (clamp double_bound lo hi v).1
      ≡ Option.map (λ x. std_clamp double_bound x lo hi) (numeric_value double_bound v)
unfolding numeric_value clamp set
numeric_value-set_double lo hi k none = refl
numeric_value-set_double lo hi k (some (double d)) = refl
numeric_value-set_double lo hi k (some _) = refl

-- The number of a clamped field is the number that it had, clamped; a field with no such number has
-- none afterwards.
pub numeric_value-clamp :
    (t : NumericType) (lo hi : Number t) (v : FieldView)
    → InType t lo
    → InType t hi
    → numeric_value t (clamp t lo hi v).1
      ≡ Option.map (λ x. std_clamp t x lo hi) (numeric_value t v)
numeric_value-clamp int64_bound lo hi v p q = numeric_value-set_int64 lo hi v.key v.value
numeric_value-clamp uint32_bound lo hi v p q = numeric_value-set_uint32 lo hi v.key v.value p q
numeric_value-clamp double_bound lo hi v p q = numeric_value-set_double lo hi v.key v.value

number_lt_irrefl : (t : NumericType) (x : Number t) → number_lt t x x ≡ false
number_lt_irrefl int64_bound x = ground arith
number_lt_irrefl uint32_bound x = ground arith
number_lt_irrefl double_bound x = double_lt_irrefl x

reject_if-std_clamp :
    (t : NumericType) (lo hi : Number t) (o : Option (Number t))
    → number_lt t hi lo ≡ false
    → reject_if
        (λ x. number_lt t x lo || number_lt t hi x)
        (Option.map (λ x. std_clamp t x lo hi) o)
      ≡ success
reject_if-std_clamp t lo hi none h = refl
reject_if-std_clamp t lo hi (some x) h =
    ground (arith, number_lt_irrefl t lo, number_lt_irrefl t hi)

-- Where the upper bound is not below the lower one, a clamped field passes the check for its bounds.
-- Doubles are ordered as IEEE 754 has it, and not a number passes too.
pub between-clamp :
    (t : NumericType) (lo hi : Number t) (v : FieldView)
    → InType t lo
    → InType t hi
    → number_lt t hi lo ≡ false
    → between t lo hi (clamp t lo hi v).1 ≡ success
unfolding between
between-clamp t lo hi v p q h =
    subst (λ o. reject_if (λ x. number_lt t x lo || number_lt t hi x) o ≡ success)
      (sym (numeric_value-clamp t lo hi v p q)) (reject_if-std_clamp t lo hi (numeric_value t v) h)

-- The number of 32 bits without a sign that is nearest.
abbrev pub nearest_uint32 : ℤ → ℕ
nearest_uint32 (pos n) = if leb n uint32_max then n else uint32_max
nearest_uint32 (negsuc n) = 0

clamp_as_value :
    (k : Text) (o : Option Value)
    → let v : FieldView = record { key = k; value = o } in
      (numeric_value int64_bound (clamp_as target_int32 v).1
        ≡ Option.map
            (λ x. std_clamp int64_bound x target_int32.k_lo target_int32.k_hi)
            (numeric_value int64_bound v))
      × (numeric_value uint32_bound (clamp_as target_uint32 v).1
          ≡ Option.map nearest_uint32 (numeric_value int64_bound v))
unfolding numeric_value clamp_as set
clamp_as_value k none = (refl, refl)
clamp_as_value k (some (int64 (pos n))) = (ground arith, ground arith)
clamp_as_value k (some (int64 (negsuc n))) = (ground arith, ground arith)
clamp_as_value k (some (uint64 u)) = (ground arith, ground arith)
clamp_as_value k (some _) = (refl, refl)

-- Clamping to `int32_t` gives the nearest number of that type, and clamping to `uint32_t` the nearest
-- of that one, for every field that holds a number within `int64_t`; a field that holds none has no
-- number of the type afterwards.
pub numeric_value-clamp_as :
    (v : FieldView)
    → (numeric_value int64_bound (clamp_as target_int32 v).1
        ≡ Option.map
            (λ x. std_clamp int64_bound x target_int32.k_lo target_int32.k_hi)
            (numeric_value int64_bound v))
      × (numeric_value uint32_bound (clamp_as target_uint32 v).1
          ≡ Option.map nearest_uint32 (numeric_value int64_bound v))
numeric_value-clamp_as v = clamp_as_value v.key v.value
