-- ===== src/Handlers/AccountInfo.antt =====
-- include/rpcspec/handlers/account_info: what the ledger has of an account.
pub mod Chosen
use rpc_spec.Prelude.{
  ℕ, ◌≡◌, refl, Text, Bool, true, false, Option, none, some, List, [], ◌∷◌, ◌++◌, str, arith, not,
  ◌&&◌, ◌||◌, ◌-◌, leb, map, if◌then◌else◌,
}
use rpc_spec.Prelude.Strings.{text_eq}
use rpc_spec.Json.{Value, string}
use rpc_spec.Status.{
  Server, clio, xrpld, is_clio_build, is_xrpld_build, Status, status, status_with, invalid_params,
  malformed_field, MaybeError, success, Result, ok, unexpected, expected_field_message,
  invalid_field_message, malformed_field_message, per_server, clio_error,
  rpc_field_not_found_transaction,
}
use rpc_spec.View.{
  FieldView, ObjectView, set, present, is_bool, as_bool, is_string, as_string, is_uint32, as_uint32,
}
use rpc_spec.Field.{Item, Processor}
use rpc_spec.Combinators.{
  requirement, modifier, default_to, uint32_type, string_type, bool_type, if_server_clio,
  if_server_xrpld, with_custom_error_verify,
}
use rpc_spec.LedgerTypes.{
  LedgerEntryType, is_any, account_owned_ledger_type_from_str, ledger_entry_type_from_str,
}
use rpc_spec.Spec.{extend}
use rpc_spec.Spec.Override.{effective, put_all, put}
use rpc_spec.Typed.{
  BoundField, TypedField, bound, custom, validated, field_key, parse, if_absent, never,
}
use rpc_spec.Typed.Stored.{parse-Settled}
use rpc_spec.Validators.Chars.{c_str}
use rpc_spec.Validators.Libxrpl.{Libxrpl, hex_from}
use rpc_spec.Validators.Presence.{required, type_of, not_supported_if, one_of}
use rpc_spec.Validators.Accounts.{hex_string}
use rpc_spec.Validators.Entries.{account_marker}
use rpc_spec.Converters.{
  from_string, or_status, JsonBool, json_bool, json_bool_strict, as_uint32_value, as_string_value,
  account_id, account_id_act_malformed, as_hex, account_marker_str, names_field,
  invalid_params_only, empty_as_absent,
}
use rpc_spec.Converters.Deferred.{Deferred, value, failed, missing, malformed, deferred_account_id}
use rpc_spec.Ledger.{LedgerSpecifier, ledger_selector}
use rpc_spec.Handlers.{
  is_required, has_json_type, at_least, clamped, with_invalid_params, is_deprecated, field,
  bound_field, ledger_field, limit_key,
}
use rpc_spec.Handlers.Limits.{
  front, back, paged_limit, paged_limit_default_first, clamped_limit, IsRange, Within, IsAllowed,
  paged-IsAllowed, default_first-IsAllowed, clamped-Within,
}

pub record Input (x : Libxrpl) : Type 0 where
  pub ledger : LedgerSpecifier x
  pub account : Deferred x.AccountId
  pub signer_lists : JsonBool
  pub queue : JsonBool

module _ (server : Server) (x : Libxrpl) where
  abbrev pub ident_field : BoundField (Input x)
  ident_field =
      (bound_field (Deferred x.AccountId) (str "ident") 1 (λ v out. record out { account = v })
        (if_server_xrpld server (
            if_absent (Deferred x.AccountId) (str "account")
            ∷ with_invalid_params (Deferred x.AccountId) (required server)
                (str "Missing field 'account'.")
            ∷ [])
          ∷ if_server_clio server (is_deprecated (Deferred x.AccountId) server ∷ [])
          ∷ [])
        (deferred_account_id server x))

  abbrev pub account_field : BoundField (Input x)
  account_field =
      (bound_field (Deferred x.AccountId) (str "account") 1 (λ v out. record out { account = v })
        ([]) (deferred_account_id server x))

  unfoldable pub input_spec : List (TypedField (Input x))
  input_spec =
      ledger_field server x (λ l out. record out { ledger = l })
      ∷ bound ident_field
      ∷ bound account_field
      ∷ bound (
          bound_field JsonBool (str "signer_lists") 2 (λ v out. record out { signer_lists = v })
            ([]) (json_bool))
      ∷ bound (
          bound_field JsonBool (str "queue") 3 (λ v out. record out { queue = v }) ([]) (json_bool))
      ∷ field (str "ledger") (if_server_clio server (is_deprecated (Unit {0}) server ∷ []) ∷ [])
      ∷ field (str "strict") (if_server_clio server (is_deprecated (Unit {0}) server ∷ []) ∷ [])
      ∷ []

  -- `JsonBoolConverterT<kIsClioBuild>`
  abbrev pub json_bool_on_clio : FieldView → Result JsonBool
  json_bool_on_clio v = if is_clio_build server then json_bool_strict v else json_bool v

  unfoldable pub input_spec_v2 : List (TypedField (Input x))
  unfolding input_spec extend
  input_spec_v2 = extend input_spec (
      bound (
        bound_field JsonBool (str "signer_lists") 2 (λ v out. record out { signer_lists = v }) ([])
          (json_bool_on_clio))
      ∷ [])
