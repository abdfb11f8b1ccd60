-- ===== src/Handlers.antt =====
-- include/rpcspec/handlers: the specs of single requests. What their files share: the items of
-- Validators.hpp and the fields of Typed.hpp as those files write them.
mod Tests
pub mod Limits
pub mod Pages
pub mod AccountChannels
pub mod AccountCurrencies
pub mod AccountInfo
pub mod AccountLines
pub mod AccountMptokenIssuances
pub mod AccountMptokens
pub mod AccountNfts
pub mod AccountObjects
pub mod AccountOffers
pub mod AccountTx
pub mod BookOffers
pub mod GatewayBalances
pub mod Ledger
pub mod LedgerData
pub mod LedgerEntry
pub mod NftInfo
pub mod NftOffers
pub mod NftsByIssuer
pub mod NorippleCheck
pub mod TransactionEntry
pub mod Tx
pub mod VaultInfo
use rpc_spec.Prelude.{ℕ, Text, Option, List, [], ◌∷◌, str}
use rpc_spec.Json.{Value, uint64}
use rpc_spec.Status.{Server, MaybeError, Result, invalid_params}
use rpc_spec.View.{FieldView}
use rpc_spec.Field.{Item}
use rpc_spec.Combinators.{
  requirement, modifier, checker, default_to, JsonType, uint32_type, with_custom_error_verify,
  if_server_clio, if_server_xrpld,
}
use rpc_spec.Validators.Presence.{required, type_of, deprecated, null_as}
use rpc_spec.Validators.Numeric.{uint32_bound, min, clamp}
use rpc_spec.Typed.{BoundField, TypedField, bound, custom, validated}
use rpc_spec.Validators.Libxrpl.{Libxrpl}
use rpc_spec.Ledger.{LedgerSpecifier, ledger_selector}

module _ (V : Type 0) where
  abbrev pub is_required : Server → Item V
  is_required server = requirement V (required server)

  abbrev pub has_json_type : JsonType → Item V
  has_json_type t = requirement V (type_of (t ∷ []))

  abbrev pub at_least : ℕ → Item V
  at_least n = requirement V (min uint32_bound n)

  abbrev pub clamped : ℕ → ℕ → Item V
  clamped lo hi = modifier V (clamp uint32_bound lo hi)

  abbrev pub with_invalid_params : (FieldView → MaybeError) → Text → Item V
  with_invalid_params verify message =
      requirement V (with_custom_error_verify verify invalid_params message)

  abbrev pub is_deprecated : Server → Item V
  is_deprecated server = checker V (deprecated server)

-- `field(key, items...)`
abbrev pub field : {I : Type 0} → Text → List (Item (Unit {0})) → TypedField I
field k items = validated (record { key = k; items = items })

-- `field(key, &Input::member, items..., converter)`
abbrev pub bound_field :
    {I : Type 0}
    → (V : Type 0) → Text
    → ℕ
    → (V → I → I)
    → List (Item V)
    → (FieldView → Result V)
    → BoundField I
bound_field V k slot store items conv = record {
  ValueType = V;
  key = k;
  slot = slot;
  store = store;
  conv = conv;
  items = items;
}

abbrev pub limit_key : Text
limit_key = str "limit"

-- `ledgerSelector(&Input::ledger)`, for the first member.
abbrev pub ledger_field :
    {I : Type 0} → Server → (x : Libxrpl) → (LedgerSpecifier x → I → I) → TypedField I
ledger_field server x store = custom (ledger_selector x server store 0)
