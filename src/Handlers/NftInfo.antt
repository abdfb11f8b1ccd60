-- ===== src/Handlers/NftInfo.antt =====
-- include/rpcspec/handlers/nft_info: a token.
use rpc_spec.Prelude.{List, [], ◌∷◌, str}
use rpc_spec.Status.{Server}
use rpc_spec.Typed.{TypedField, bound}
use rpc_spec.Validators.Libxrpl.{Libxrpl}
use rpc_spec.Converters.{as_hex}
use rpc_spec.Ledger.{LedgerSpecifier}
use rpc_spec.Handlers.{is_required, bound_field, ledger_field}

pub record Input (x : Libxrpl) : Type 0 where
  pub ledger : LedgerSpecifier x
  pub nft_id : x.HexNumber

module _ (server : Server) (x : Libxrpl) where
  unfoldable pub input_spec : List (TypedField (Input x))
  input_spec =
      ledger_field server x (λ l out. record out { ledger = l })
      ∷ bound (
          bound_field x.HexNumber (str "nft_id") 1 (λ v out. record out { nft_id = v })
            (is_required x.HexNumber server ∷ []) (as_hex server x 256))
      ∷ []
