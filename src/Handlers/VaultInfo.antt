-- ===== src/Handlers/VaultInfo.antt =====
-- include/rpcspec/handlers/vault_info: a vault.
use rpc_spec.Prelude.{ℕ, Text, Option, some, List, [], ◌∷◌, str}
use rpc_spec.Status.{
  Server, CombinedError, per_server, malformed_request, xrpld_error, rpc_act_malformed, Result,
  unexpected,
}
use rpc_spec.View.{FieldView}
use rpc_spec.Combinators.{
  requirement, with_custom_error_verify, make_status, uint32_type, if_server_clio,
}
use rpc_spec.Typed.{TypedField, bound}
use rpc_spec.Validators.Accounts.{hex_string, account_base58}
use rpc_spec.Validators.Presence.{type_of}
use rpc_spec.Validators.Libxrpl.{Libxrpl, account_from_string_strict}
use rpc_spec.Converters.{or_status, from_string, as_hex, as_uint32_value}
use rpc_spec.Ledger.{LedgerSpecifier}
use rpc_spec.Handlers.{bound_field, ledger_field}

pub record Input (x : Libxrpl) : Type 0 where
  pub ledger : LedgerSpecifier x
  pub vault_id : Option x.HexNumber
  pub owner : Option x.AccountId
  pub tnx_sequence : Option ℕ

module _ (server : Server) where
  -- `kVaultFieldError`, `kVaultIdMessage`, `kOwnerError`, `kOwnerMessage` and `kSeqMessage`
  abbrev pub vault_field_error : CombinedError
  vault_field_error = malformed_request server

  abbrev pub vault_id_message : Text
  vault_id_message = per_server server [] (str "Invalid field 'vault_id', not hex string.")

  abbrev pub owner_error : CombinedError
  owner_error = per_server server (malformed_request server) (xrpld_error rpc_act_malformed)

  abbrev pub owner_message : Text
  owner_message =
      per_server server (str "OwnerNotHexString") (str "Invalid field 'owner', not AccountID.")

  abbrev pub seq_message : Text
  seq_message = per_server server [] (str "Invalid field 'seq', not a positive 32-bit integer.")

  module _ (x : Libxrpl) where
    -- `OwnerConverter::parse`
    unfoldable pub owner_value : FieldView → Result x.AccountId
    unfolding account_from_string_strict str
    owner_value v =
        from_string (unexpected (make_status owner_error owner_message))
          (λ s. or_status (make_status owner_error owner_message) (account_from_string_strict x s))
          v

    unfoldable pub input_spec : List (TypedField (Input x))
    input_spec =
        ledger_field server x (λ l out. record out { ledger = l })
        ∷ bound (
            bound_field x.HexNumber (str "vault_id") 1 (λ v out. record out { vault_id = some v })
              (requirement x.HexNumber (
                  with_custom_error_verify (hex_string server x 256) vault_field_error
                    vault_id_message)
                ∷ [])
              (as_hex server x 256))
        ∷ bound (
            bound_field x.AccountId (str "owner") 2 (λ v out. record out { owner = some v })
              (if_server_clio server (
                  requirement x.AccountId
                    (with_custom_error_verify (account_base58 server x) owner_error owner_message)
                  ∷ [])
                ∷ [])
              owner_value)
        ∷ bound (
            bound_field ℕ (str "seq") 3 (λ v out. record out { tnx_sequence = some v })
              (requirement ℕ (
                  with_custom_error_verify (type_of (uint32_type ∷ [])) vault_field_error
                    seq_message)
                ∷ [])
              as_uint32_value)
        ∷ []
