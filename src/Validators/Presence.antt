-- ===== src/Validators/Presence.antt =====
-- include/rpcspec/Validators.hpp: the items that look at presence, at the JSON type, or at one of a
-- few allowed values.
use rpc_spec.Prelude.{
  Text, Bool, true, false, not, ◌||◌, Option, none, some, List, ◌++◌, any, str, text_eq,
  if◌then◌else◌,
}
use rpc_spec.Json.{Value}
use rpc_spec.Status.{
  Server, is_clio_build, status, status_with, invalid_params, xrpld_error, rpc_not_supported,
  MaybeError, success, unexpected, Warning, warn_rpc_deprecated, missing_field_message,
}
use rpc_spec.View.{FieldView, present, is_bool, as_bool, is_null, is_string, as_string, set}
use rpc_spec.Field.{Processor}
use rpc_spec.Combinators.{JsonType, is_type}

-- `Required::verify`
unfoldable pub required : Server → FieldView → MaybeError
required server v =
    if not (present v)
    then unexpected (status_with invalid_params (missing_field_message server v.key))
    else success

-- `Type<T>::verify`; the types of `Type<T1, T2, Rest...>` stand in the list.
unfoldable pub type_of : List JsonType → FieldView → MaybeError
type_of types v =
    if not (present v)
    then success
    else if any (λ t. is_type t v) types
    then success
    else unexpected (status invalid_params)

-- `Deprecated::check`
abbrev pub deprecated_message : Server → Text → Text
deprecated_message server key =
    if is_clio_build server
    then str "Field '" ++ (key ++ str "' is deprecated.")
    else str "Field `" ++ (key ++ str "` is deprecated.")

unfoldable pub deprecated : Server → FieldView → Option Warning
deprecated server v =
    if present v
    then some (record {
      code = warn_rpc_deprecated;
      field = v.key;
      message = deprecated_message server v.key;
    })
    else none

-- `NotSupported::verify`
unfoldable pub not_supported : FieldView → MaybeError
not_supported v =
    if present v
    then unexpected (
        status_with (xrpld_error rpc_not_supported)
          (str "Not supported field '" ++ (v.key ++ str "'")))
    else success

abbrev pub bool_text : Bool → Text
bool_text true = str "true"
bool_text false = str "false"

abbrev pub same_bool : Bool → Bool → Bool
same_bool true b = b
same_bool false b = not b

-- `NotSupportedIfEqual<bool>::verify`
abbrev pub not_supported_if_read : Bool → Text → Option Bool → MaybeError
not_supported_if_read value key none = success
not_supported_if_read value key (some b) =
    if same_bool b value
    then unexpected (
        status_with (xrpld_error rpc_not_supported) (
          str "Not supported field '"
          ++ (key ++ (str "'s value '" ++ (bool_text value ++ str "'")))))
    else success

unfoldable pub not_supported_if : Bool → FieldView → MaybeError
not_supported_if value v =
    if not (present v) || not (is_bool v)
    then success
    else not_supported_if_read value v.key (as_bool v)

-- `OneOfValidator::verify`
abbrev pub is_listed : List Text → Option Text → Bool
is_listed values none = false
is_listed values (some s) = any (λ x. text_eq x s) values

unfoldable pub one_of : List Text → FieldView → MaybeError
one_of values v =
    if not (present v)
    then success
    else if not (is_string v)
    then unexpected (status invalid_params)
    else if is_listed values (as_string v)
    then success
    else unexpected (status invalid_params)

-- `CustomValidator::verify` and `CustomModifier::modify`
unfoldable pub custom_validator : (FieldView → MaybeError) → FieldView → MaybeError
custom_validator fn v = if not (present v) then success else fn v

unfoldable pub custom_modifier : Processor FieldView → Processor FieldView
custom_modifier fn v = if not (present v) then (success, v) else fn v

-- `NullAs::modify`
unfoldable pub null_as : Value → Processor FieldView
null_as value v = if is_null v then (success, set v value) else (success, v)
