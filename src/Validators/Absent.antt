-- ===== src/Validators/Absent.antt =====
-- include/rpcspec/Validators.hpp: the items on an absent field.
use rpc_spec.Prelude.{ℕ, ◌≡◌, refl, Text, Bool, none, List}
use rpc_spec.Json.{Value}
use rpc_spec.Status.{Server, Status, MaybeError, success, unexpected}
use rpc_spec.View.{FieldView}
use rpc_spec.Field.{Processor, FieldSpec, Item}
use rpc_spec.Combinators.{JsonType, section_modify, if_type_modify}
use rpc_spec.Validators.Presence.{
  required, type_of, not_supported, not_supported_if, one_of, custom_validator, custom_modifier,
  null_as,
}
use rpc_spec.Validators.Numeric.{
  NumericType, Number, min, between, clamp, min_array_length, max_array_length, Target, clamp_as,
  numeric_value,
}
use rpc_spec.Validators.Strings.{to_number, lexical_uint32_modify, to_lower_modify}
use rpc_spec.Validators.Libxrpl.{Libxrpl}
use rpc_spec.Validators.Accounts.{
  account_format, hex_string, ledger_index, account_base58, currency, strict_currency, issuer,
  currency_issue, credential_type, authorize_credential,
}
use rpc_spec.Validators.Arrays.{account_id_array, hex256_array, uint192_array}
use rpc_spec.Validators.Entries.{account_marker, account_type, ledger_entry_type}

abbrev pub absent : Text → FieldView
absent k = record { key = k; value = none }

-- What each requirement says of an absent field.
abbrev pub AbsentPasses :
    (server : Server) (x : Libxrpl) (k : Text) (types : List JsonType) (value : Bool)
    (values : List Text) (fn : FieldView → MaybeError) (t : NumericType) (lo hi : Number t)
    (bound bits : ℕ)
    → Type 0
AbsentPasses server x k types value values fn t lo hi bound bits =
    let v = absent k in
    (type_of types v ≡ success)
    × (not_supported v ≡ success)
    × (not_supported_if value v ≡ success)
    × (one_of values v ≡ success)
    × (custom_validator fn v ≡ success)
    × (min t lo v ≡ success)
    × (between t lo hi v ≡ success)
    × (min_array_length bound v ≡ success)
    × (max_array_length bound v ≡ success)
    × (account_format server x v ≡ success)
    × (hex_string server x bits v ≡ success)
    × (ledger_index server x v ≡ success)
    × (account_base58 server x v ≡ success)
    × (currency server x v ≡ success)
    × (strict_currency server x v ≡ success)
    × (issuer server x v ≡ success)
    × (currency_issue server x v ≡ success)
    × (credential_type server x v ≡ success)
    × (authorize_credential server x v ≡ success)
    × (account_id_array server x bound v ≡ success)
    × (hex256_array server x v ≡ success)
    × (uint192_array server x v ≡ success)
    × (account_marker server x v ≡ success)
    × (account_type server x v ≡ success)
    × (ledger_entry_type server x v ≡ success)
    × ((e : Status) × (required server v ≡ unexpected e))

-- What each modifier does to an absent field.
abbrev pub AbsentUnchanged :
    (k : Text) (fn : Processor FieldView) (value : Value) (t : NumericType) (lo hi : Number t)
    (target : Target) (fields : List FieldSpec) (type : JsonType) (V : Type 0)
    (items : List (Item V))
    → Type 0
AbsentUnchanged k fn value t lo hi target fields type V items =
    let v = absent k in
    (custom_modifier fn v ≡ (success, v))
    × (null_as value v ≡ (success, v))
    × (clamp t lo hi v ≡ (success, v))
    × (clamp_as target v ≡ (success, v))
    × (to_number v ≡ (success, v))
    × (lexical_uint32_modify v ≡ (success, v))
    × (to_lower_modify v ≡ (success, v))
    × (section_modify fields v ≡ (success, v))
    × (if_type_modify type items v ≡ (success, v))

-- On the view of an absent field each requirement succeeds, but for `required`, which fails.
pub absent_passes :
    (server : Server) (x : Libxrpl) (k : Text) (types : List JsonType) (value : Bool)
    (values : List Text) (fn : FieldView → MaybeError) (t : NumericType) (lo hi : Number t)
    (bound bits : ℕ)
    → AbsentPasses server x k types value values fn t lo hi bound bits
unfolding type_of not_supported not_supported_if one_of custom_validator min between
    min_array_length max_array_length account_format hex_string ledger_index account_base58 currency
    strict_currency issuer currency_issue credential_type authorize_credential account_id_array
    hex256_array uint192_array account_marker account_type ledger_entry_type required numeric_value
absent_passes server x k types value values fn t lo hi bound bits = (
  refl,
  refl,
  refl,
  refl,
  refl,
  refl,
  refl,
  refl,
  refl,
  refl,
  refl,
  refl,
  refl,
  refl,
  refl,
  refl,
  refl,
  refl,
  refl,
  refl,
  refl,
  refl,
  refl,
  refl,
  refl,
  (_, refl),
)

-- Each modifier succeeds on it and writes nothing, so no modifier writes through a null pointer.
pub absent_unchanged :
    (k : Text) (fn : Processor FieldView) (value : Value) (t : NumericType) (lo hi : Number t)
    (target : Target) (fields : List FieldSpec) (type : JsonType) (V : Type 0)
    (items : List (Item V))
    → AbsentUnchanged k fn value t lo hi target fields type V items
unfolding custom_modifier null_as clamp clamp_as to_number lexical_uint32_modify to_lower_modify
    section_modify if_type_modify numeric_value
absent_unchanged k fn value t lo hi target fields type V items =
    (refl, refl, refl, refl, refl, refl, refl, refl, refl)
