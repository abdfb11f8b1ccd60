-- ===== src/Validators/Arrays.antt =====
-- include/rpcspec/Validators.hpp: arrays of accounts and of hashes.
pub mod Accepted
use rpc_spec.Prelude.{
  ℕ, zero, suc, ◌+◌, Text, Bool, true, false, not, ◌&&◌, ◌||◌, Option, none, some, List, [], ◌∷◌,
  ◌++◌, ltb, ◌==◌, str, text_eq, is_empty, length, if◌then◌else◌,
}
use rpc_spec.Status.{
  Server, is_clio_build, is_xrpld_build, CombinedError, status, status_with, invalid_params,
  xrpld_error, rpc_act_malformed, malformed_address, malformed_currency, malformed_request,
  malformed_authorized_credentials, malformed_field, MaybeError, success, ok, unexpected, has_value,
  not_string_field_message, malformed_field_message, malformed_ledger_index_message,
  malformed_cursor_message, expected_field_message, invalid_field_message,
}
use rpc_spec.View.{
  FieldView, present, is_string, as_string, is_object, is_array, array_size, is_int64, is_uint32,
  child, element,
}
use rpc_spec.Combinators.{and_then}
use rpc_spec.LedgerTypes.{
  LedgerEntryType, is_any, account_owned_ledger_type_from_str, ledger_entry_type_from_str,
}
use rpc_spec.Validators.Chars.{
  check_is_u32_numeric, format_number, split_at, c_str, from_chars, all_read,
}
use rpc_spec.Validators.Libxrpl.{Libxrpl, account_from_string_strict, parse_base58_account}
use rpc_spec.Validators.Accounts.{
  reject, reject_with, on_string, succeeds, not_string, for_elements,
}

module _ (server : Server) (x : Libxrpl) where
  -- `AccountIdArrayValidator<MaxSize>::verify`
  abbrev pub account_element : Text → FieldView → MaybeError
  account_element key elem =
      let refusal =
        reject_with malformed_field (expected_field_message key (str "an array of account IDs")) in
      elim (as_string elem) [
        | none ↦ refusal
        | some s ↦ if succeeds (account_from_string_strict x s) then success else refusal
      ]

  unfoldable pub account_id_array : ℕ → FieldView → MaybeError
  account_id_array max_size v =
      if not (present v)
      then success
      else if not (is_array v)
      then reject_with malformed_field (expected_field_message v.key (str "array"))
      else if array_size v == 0 || ltb max_size (array_size v)
      then reject_with malformed_field (
          expected_field_message v.key
            (str "an array of 1 to " ++ (format_number max_size ++ str " account IDs")))
      else for_elements (account_element v.key) v 0 (array_size v)

  abbrev pub hex_element : ℕ → MaybeError → FieldView → MaybeError
  hex_element bits refusal elem = elim (as_string elem) [
    | none ↦ refusal
    | some s ↦ if x.parse_hex bits (c_str s) then success else refusal
  ]

  -- `Hex256ArrayValidator::verify`
  unfoldable pub hex256_array : FieldView → MaybeError
  hex256_array v =
      if not (present v)
      then success
      else if not (is_array v)
      then reject invalid_params
      else for_elements
          (hex_element 256 (reject_with invalid_params (str "Item is not a valid uint256 type."))) v
          0 (array_size v)

  -- `Uint192ArrayValidator::verify`
  unfoldable pub uint192_array : FieldView → MaybeError
  uint192_array v =
      if not (present v)
      then success
      else if not (is_array v) || (array_size v == 0)
      then reject invalid_params
      else for_elements (hex_element 192 (reject invalid_params)) v 0 (array_size v)
