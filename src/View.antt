-- ===== src/View.antt =====
-- include/rpcspec/backends/BoostJson.hpp, include/rpcspec/Concepts.hpp: the views through which
-- validators read and write a request. A field view is the key with the value that the pointer
-- reaches, if there is one; `set` gives the view with the new value, and `put_child` writes a child
-- back into its parent, which the pointers of the code do by aliasing.
use rpc_spec.Prelude.{ℕ, ◌-◌, ◌%◌, ◌^◌, Text, Bool, true, false, Option, none, some, leb}
use rpc_spec.Prelude.Int.{ℤ, pos, negsuc}
use rpc_spec.Prelude.Float.{Double}
use rpc_spec.Json.{
  Value, null, boolean, int64, uint64, double, string, array, object, find, assign, count_items,
  count_fields, at,
}

abbrev pub int64_max : ℕ
int64_max = 2 ^ 63 - 1

abbrev pub uint32_max : ℕ
uint32_max = 2 ^ 32 - 1

pub record FieldView : Type 0 where
  pub key : Text
  pub value : Option Value

abbrev pub present : FieldView → Bool
present v = elim v.value [ none ↦ false | some x ↦ true ]

-- The tests on a value.
abbrev pub is_null_value : Value → Bool
is_null_value null = true
is_null_value _ = false

abbrev pub is_int64_value : Value → Bool
is_int64_value (int64 i) = true
is_int64_value (uint64 u) = leb u int64_max
is_int64_value _ = false

abbrev pub is_uint32_value : Value → Bool
is_uint32_value (uint64 u) = leb u uint32_max
is_uint32_value (int64 (pos n)) = leb n uint32_max
is_uint32_value _ = false

abbrev pub is_bool_value : Value → Bool
is_bool_value (boolean b) = true
is_bool_value _ = false

abbrev pub is_string_value : Value → Bool
is_string_value (string s) = true
is_string_value _ = false

abbrev pub is_double_value : Value → Bool
is_double_value (double d) = true
is_double_value _ = false

abbrev pub is_object_value : Value → Bool
is_object_value (object m) = true
is_object_value _ = false

abbrev pub is_array_value : Value → Bool
is_array_value (array vs) = true
is_array_value _ = false

-- A test of a view: false for an absent field.
abbrev pub reads : (Value → Bool) → FieldView → Bool
reads p v = elim v.value [ none ↦ false | some x ↦ p x ]

abbrev pub is_null : FieldView → Bool
is_null = reads is_null_value

abbrev pub is_int64 : FieldView → Bool
is_int64 = reads is_int64_value

abbrev pub is_uint32 : FieldView → Bool
is_uint32 = reads is_uint32_value

abbrev pub is_bool : FieldView → Bool
is_bool = reads is_bool_value

abbrev pub is_string : FieldView → Bool
is_string = reads is_string_value

abbrev pub is_double : FieldView → Bool
is_double = reads is_double_value

abbrev pub is_object : FieldView → Bool
is_object = reads is_object_value

abbrev pub is_array : FieldView → Bool
is_array = reads is_array_value

-- The accessors, `none` where the code's access is undefined or throws.
abbrev pub int64_of : Value → Option ℤ
int64_of (int64 i) = some i
int64_of (uint64 u) = some (pos u)
int64_of _ = none

-- `static_cast<uint32_t>`
abbrev pub to_uint32 : ℤ → ℕ
to_uint32 (pos n) = n % 2 ^ 32
to_uint32 (negsuc n) = 2 ^ 32 - 1 - n % 2 ^ 32

abbrev pub uint32_of : Value → Option ℕ
uint32_of (uint64 u) = some (to_uint32 (pos u))
uint32_of (int64 i) = some (to_uint32 i)
uint32_of _ = none

abbrev pub bool_of : Value → Option Bool
bool_of (boolean b) = some b
bool_of _ = none

abbrev pub string_of : Value → Option Text
string_of (string s) = some s
string_of _ = none

abbrev pub double_of : Value → Option Double
double_of (double d) = some d
double_of _ = none

abbrev pub access {ℓ} : {A : Type ℓ} → (Value → Option A) → FieldView → Option A
access f v = elim v.value [ none ↦ none | some x ↦ f x ]

abbrev pub as_int64 : FieldView → Option ℤ
as_int64 = access int64_of

abbrev pub as_uint32 : FieldView → Option ℕ
as_uint32 = access uint32_of

abbrev pub as_bool : FieldView → Option Bool
as_bool = access bool_of

abbrev pub as_string : FieldView → Option Text
as_string = access string_of

abbrev pub as_double : FieldView → Option Double
as_double = access double_of

abbrev pub size_of_array : Value → ℕ
size_of_array (array vs) = count_items vs
size_of_array _ = 0

abbrev pub array_size : FieldView → ℕ
array_size v = elim v.value [ none ↦ 0 | some x ↦ size_of_array x ]

abbrev pub size_of_object : Value → ℕ
size_of_object (object m) = count_fields m
size_of_object _ = 0

abbrev pub object_size : FieldView → ℕ
object_size v = elim v.value [ none ↦ 0 | some x ↦ size_of_object x ]

abbrev pub member_of : Text → Value → Option Value
member_of k (object m) = find k m
member_of k _ = none

abbrev pub element_of : ℕ → Value → Option Value
element_of i (array vs) = at i vs
element_of i _ = none

unfoldable pub child : FieldView → Text → FieldView
child v k = record { key = k; value = access (member_of k) v }

unfoldable pub element : FieldView → ℕ → FieldView
element v i = record { key = v.key; value = access (element_of i) v }

-- A write through the view. Where the field is absent the code has no pointer to write through,
-- and its callers make no such write.
unfoldable pub set : FieldView → Value → FieldView
set v x = elim v.value [ none ↦ v | some _ ↦ record v { value = some x } ]

abbrev pub with_member : Text → Option Value → Value → Value
with_member k (some x) (object m) = object (assign k x m)
with_member k _ v = v

-- The parent once its child at `k` has been written through `c`.
unfoldable pub put_child : FieldView → Text → FieldView → FieldView
put_child v k c = elim v.value [
  | none ↦ v
  | some x ↦ record v { value = some (with_member k c.value x) }
]

-- The request root.
pub record ObjectView : Type 0 where
  pub document : Value

unfoldable pub root_child : ObjectView → Text → FieldView
root_child r k = record { key = k; value = member_of k r.document }

unfoldable pub put_root : ObjectView → Text → FieldView → ObjectView
put_root r k c = record { document = with_member k c.value r.document }
