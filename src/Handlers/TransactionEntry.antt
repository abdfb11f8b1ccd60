-- ===== src/Handlers/TransactionEntry.antt =====
-- include/rpcspec/handlers/transaction_entry: a transaction in one ledger.
use rpc_spec.Prelude.{Option, none, some, List, [], ◌∷◌, str}
use rpc_spec.Status.{
  Server, invalid_params, Result, ok, per_server, clio_error, rpc_field_not_found_transaction,
}
use rpc_spec.View.{FieldView}
use rpc_spec.Combinators.{requirement, if_server_clio, with_custom_error_verify}
use rpc_spec.Typed.{TypedField, bound}
use rpc_spec.Validators.Chars.{c_str}
use rpc_spec.Validators.Libxrpl.{Libxrpl, hex_from}
use rpc_spec.Validators.Presence.{required}
use rpc_spec.Validators.Accounts.{hex_string}
use rpc_spec.Converters.{from_string}
use rpc_spec.Ledger.{LedgerSpecifier}
use rpc_spec.Handlers.{bound_field, ledger_field}

-- `TxHashError`, and `std::expected<xrpl::uint256, TxHashError>`.
pub data TxHashError : Type 0 where
  hash_missing hash_malformed : TxHashError

pub data TxHash (x : Libxrpl) : Type 0 where
  tx_hash_of : x.HexNumber → TxHash x
  tx_hash_error : TxHashError → TxHash x

pub record Input (x : Libxrpl) : Type 0 where
  pub ledger : LedgerSpecifier x
  pub tx_hash : TxHash x

module _ (server : Server) (x : Libxrpl) where
  abbrev pub or_malformed : Option x.HexNumber → TxHash x
  or_malformed none = tx_hash_error hash_malformed
  or_malformed (some n) = tx_hash_of n

  -- `TxHashConverter`
  unfoldable pub tx_hash_value : FieldView → Result (TxHash x)
  unfolding c_str
  tx_hash_value v =
      from_string (ok (tx_hash_error hash_malformed))
        (λ s. ok (or_malformed (hex_from x 256 (c_str s)))) v

  unfoldable pub input_spec : List (TypedField (Input x))
  input_spec =
      ledger_field server x (λ l out. record out { ledger = l })
      ∷ bound (
          bound_field (TxHash x) (str "tx_hash") 1 (λ v out. record out { tx_hash = v })
            (if_server_clio server (
                requirement (TxHash x) (
                  with_custom_error_verify (required server)
                    (per_server server (clio_error rpc_field_not_found_transaction) invalid_params)
                    [])
                ∷ requirement (TxHash x) (hex_string server x 256)
                ∷ [])
              ∷ [])
            (tx_hash_value))
      ∷ []
