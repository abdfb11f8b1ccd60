-- ===== src/Handlers/GatewayBalances.antt =====
-- include/rpcspec/handlers/gateway_balances: the balances that an issuer owes.
pub mod Sets
pub mod Wallets
use rpc_spec.Prelude.{
  zero, suc, ◌+◌, ℕ, Text, Bool, false, ◌||◌, ◌&&◌, not, Option, none, some, List, [], ◌∷◌, ◌++◌,
  str, if◌then◌else◌,
}
use rpc_spec.Status.{
  Server, CombinedError, xrpld_error, rpc_invalid_hotwallet, invalid_params, Status, status,
  status_with, MaybeError, success, Result, ok, unexpected,
}
use rpc_spec.View.{FieldView, is_string, is_array, as_string, array_size, element}
use rpc_spec.Combinators.{requirement}
use rpc_spec.Spec.{extend}
use rpc_spec.Typed.{TypedField, bound}
use rpc_spec.Validators.Accounts.{succeeds, for_elements}
use rpc_spec.Validators.Presence.{custom_validator}
use rpc_spec.Validators.Libxrpl.{
  Libxrpl, parse_base58_account, parse_base58_public_key, account_from_string_strict,
}
use rpc_spec.Converters.{account_id}
use rpc_spec.Ledger.{LedgerSpecifier}
use rpc_spec.Handlers.{is_required, bound_field, ledger_field}

-- `std::set<xrpl::AccountID>` is the list of its elements in their order.
pub record Input (x : Libxrpl) : Type 0 where
  pub ledger : LedgerSpecifier x
  pub account : x.AccountId
  pub hot_wallets : List x.AccountId

module _ (x : Libxrpl) where
  abbrev pub names_account : Text → Bool
  names_account s = succeeds (parse_base58_public_key x s) || succeeds (parse_base58_account x s)

  -- The local `getAccountID`
  unfoldable pub get_account_id : FieldView → Bool
  unfolding parse_base58_public_key parse_base58_account
  get_account_id elem =
      if not (is_string elem)
      then false
      else elim (as_string elem) [ none ↦ false | some s ↦ names_account s ]

  abbrev pub malformed : CombinedError → Text → Status
  malformed code key = status_with code (key ++ str "Malformed")

  abbrev pub check_wallet : Status → FieldView → MaybeError
  check_wallet refusal elem = if not (get_account_id elem) then unexpected refusal else success

  abbrev pub check_wallets : CombinedError → FieldView → MaybeError
  check_wallets code v =
      if not (is_string v) && not (is_array v)
      then unexpected (status_with code (v.key ++ str "NotStringOrArray"))
      else if is_array v
      then for_elements (check_wallet (malformed code v.key)) v 0 (array_size v)
      else check_wallet (malformed code v.key) v

  -- `kHotWalletV1` and `kHotWalletV2`, which differ in the code of their errors.
  unfoldable pub hot_wallet : CombinedError → FieldView → MaybeError
  unfolding get_account_id
  hot_wallet code v = custom_validator (check_wallets code) v

  -- The local `parseOne`: the account that it inserts.
  unfoldable pub parse_one_wallet : FieldView → Option x.AccountId
  unfolding account_from_string_strict
  parse_one_wallet elem =
      if not (is_string elem)
      then none
      else elim (as_string elem) [ none ↦ none | some s ↦ account_from_string_strict x s ]

  -- `std::set<xrpl::AccountID>::insert`
  unfoldable pub insert_account : x.AccountId → List x.AccountId → List x.AccountId
  insert_account a [] = a ∷ []
  insert_account a (b ∷ bs) =
      let later = insert_account a bs in
      if x.account_less a b then a ∷ b ∷ bs else if x.account_less b a then b ∷ later else b ∷ bs

  abbrev pub insert_next :
      (x.AccountId → Option (List x.AccountId)) → Option x.AccountId → Option (List x.AccountId)
  insert_next rounds none = none
  insert_next rounds (some a) = rounds a

  -- The rounds `i` up to `i + n` of the loop over the elements; a value that is no account ends it.
  unfoldable pub insert_wallets : FieldView → ℕ → ℕ → List x.AccountId → Option (List x.AccountId)
  unfolding parse_one_wallet insert_account
  insert_wallets v i zero result = some result
  insert_wallets v i (suc n) result =
      insert_next (λ a. insert_wallets v (i + 1) n (insert_account a result))
        (parse_one_wallet (element v i))

  abbrev pub inserted : Option (List x.AccountId) → Result (List x.AccountId)
  inserted none = unexpected (status invalid_params)
  inserted (some xs) = ok xs

  abbrev pub only : Option x.AccountId → Option (List x.AccountId)
  only none = none
  only (some a) = some (a ∷ [])

  -- `HotWalletConverter::parse`
  unfoldable pub hot_wallets_value : FieldView → Result (List x.AccountId)
  unfolding insert_wallets parse_one_wallet
  hot_wallets_value v =
      inserted
        (if is_string v then only (parse_one_wallet v) else insert_wallets v 0 (array_size v) [])

module _ (server : Server) (x : Libxrpl) where
  abbrev pub hot_wallet_field : CombinedError → TypedField (Input x)
  hot_wallet_field code = bound (
      bound_field (List x.AccountId) (str "hotwallet") 2 (λ v out. record out { hot_wallets = v })
        (requirement (List x.AccountId) (hot_wallet x code) ∷ []) (hot_wallets_value x))

  unfoldable pub input_spec : List (TypedField (Input x))
  input_spec =
      ledger_field server x (λ l out. record out { ledger = l })
      ∷ bound (
          bound_field x.AccountId (str "account") 1 (λ v out. record out { account = v })
            (is_required x.AccountId server ∷ []) (account_id server x))
      ∷ hot_wallet_field (xrpld_error rpc_invalid_hotwallet)
      ∷ []

  unfoldable pub input_spec_v2 : List (TypedField (Input x))
  unfolding input_spec extend
  input_spec_v2 = extend input_spec (hot_wallet_field invalid_params ∷ [])
