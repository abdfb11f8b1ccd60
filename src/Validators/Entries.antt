-- ===== src/Validators/Entries.antt =====
-- include/rpcspec/Validators.hpp: markers, and the types of ledger entries.
use rpc_spec.Prelude.{ℕ, ◌-◌, ◌^◌, Text, not, Option, none, some, ◌++◌, str, if◌then◌else◌}
use rpc_spec.Status.{
  Server, invalid_params, malformed_field, MaybeError, success, malformed_cursor_message,
  invalid_field_message,
}
use rpc_spec.View.{FieldView}
use rpc_spec.LedgerTypes.{
  LedgerEntryType, is_any, account_owned_ledger_type_from_str, ledger_entry_type_from_str,
}
use rpc_spec.Validators.Chars.{split_at, c_str, from_chars, all_read}
use rpc_spec.Validators.Libxrpl.{Libxrpl}
use rpc_spec.Validators.Accounts.{reject_with, on_string, succeeds, not_string}

abbrev uint64_max : ℕ
uint64_max = 2 ^ 64 - 1

module _ (server : Server) (x : Libxrpl) where
  abbrev pub check_marker : MaybeError → Option (Text × Text) → MaybeError
  check_marker malformed none = malformed
  check_marker malformed (some (hex_part, hint_part)) =
      if not (x.parse_hex 256 (c_str hex_part))
      then malformed
      else if succeeds (all_read (from_chars uint64_max hint_part))
      then success
      else malformed

  -- `AccountMarkerValidator::verify`
  unfoldable pub account_marker : FieldView → MaybeError
  account_marker v =
      on_string (not_string v)
        (λ s.
          check_marker (reject_with malformed_field (malformed_cursor_message server v.key))
            (split_at b',' s))
        v

  abbrev pub entry_type : (Text → LedgerEntryType) → FieldView → MaybeError
  entry_type type_from_str v =
      on_string
        (reject_with invalid_params (str "Invalid field '" ++ (v.key ++ str "', not string.")))
        (λ s.
          if is_any (type_from_str s)
          then reject_with invalid_params (invalid_field_message v.key)
          else success)
        v

  -- `AccountTypeValidator::verify`
  unfoldable pub account_type : FieldView → MaybeError
  unfolding account_owned_ledger_type_from_str
  account_type v = entry_type account_owned_ledger_type_from_str v

  -- `LedgerEntryTypeValidator::verify`
  unfoldable pub ledger_entry_type : FieldView → MaybeError
  unfolding ledger_entry_type_from_str
  ledger_entry_type v = entry_type ledger_entry_type_from_str v
