-- ===== src/Handlers/Ledger.antt =====
-- include/rpcspec/handlers/ledger: a ledger.
use rpc_spec.Prelude.{true, List, [], ◌∷◌, str}
use rpc_spec.Status.{Server}
use rpc_spec.Combinators.{requirement, bool_type, if_server_clio}
use rpc_spec.Spec.{extend}
use rpc_spec.Typed.{TypedField, bound}
use rpc_spec.Validators.Libxrpl.{Libxrpl}
use rpc_spec.Validators.Presence.{not_supported_if}
use rpc_spec.Converters.{JsonBool, json_bool, json_bool_strict}
use rpc_spec.Ledger.{LedgerSpecifier}
use rpc_spec.Handlers.{has_json_type, is_deprecated, field, bound_field, ledger_field}

pub record Input (x : Libxrpl) : Type 0 where
  pub ledger : LedgerSpecifier x
  pub binary : JsonBool
  pub expand : JsonBool
  pub owner_funds : JsonBool
  pub transactions : JsonBool
  pub diff : JsonBool
  pub full : JsonBool
  pub accounts : JsonBool
  pub queue : JsonBool

module _ (server : Server) (x : Libxrpl) where
  unfoldable pub input_spec : List (TypedField (Input x))
  input_spec =
      ledger_field server x (λ l out. record out { ledger = l })
      ∷ bound (
          bound_field JsonBool (str "full") 6 (λ v out. record out { full = v })
            (has_json_type JsonBool bool_type
              ∷ if_server_clio server (
                  requirement JsonBool (not_supported_if true) ∷ is_deprecated JsonBool server ∷ [])
              ∷ [])
            (json_bool))
      ∷ bound (
          bound_field JsonBool (str "accounts") 7 (λ v out. record out { accounts = v })
            (has_json_type JsonBool bool_type
              ∷ if_server_clio server (
                  requirement JsonBool (not_supported_if true) ∷ is_deprecated JsonBool server ∷ [])
              ∷ [])
            (json_bool))
      ∷ bound (
          bound_field JsonBool (str "owner_funds") 3 (λ v out. record out { owner_funds = v })
            (has_json_type JsonBool bool_type ∷ []) (json_bool))
      ∷ bound (
          bound_field JsonBool (str "queue") 8 (λ v out. record out { queue = v })
            (has_json_type JsonBool bool_type
              ∷ if_server_clio server (requirement JsonBool (not_supported_if true) ∷ [])
              ∷ [])
            (json_bool))
      ∷ bound (
          bound_field JsonBool (str "transactions") 4 (λ v out. record out { transactions = v })
            (has_json_type JsonBool bool_type ∷ []) (json_bool))
      ∷ bound (
          bound_field JsonBool (str "expand") 2 (λ v out. record out { expand = v })
            (has_json_type JsonBool bool_type ∷ []) (json_bool))
      ∷ bound (
          bound_field JsonBool (str "binary") 1 (λ v out. record out { binary = v })
            (has_json_type JsonBool bool_type ∷ []) (json_bool))
      ∷ bound (
          bound_field JsonBool (str "diff") 5 (λ v out. record out { diff = v })
            (if_server_clio server (has_json_type JsonBool bool_type ∷ []) ∷ []) (json_bool))
      ∷ field (str "ledger") (if_server_clio server (is_deprecated (Unit {0}) server ∷ []) ∷ [])
      ∷ field (str "type") (is_deprecated (Unit {0}) server ∷ [])
      ∷ []

  unfoldable pub input_spec_v2 : List (TypedField (Input x))
  unfolding input_spec extend
  input_spec_v2 = extend input_spec (
      bound (
        bound_field JsonBool (str "transactions") 4 (λ v out. record out { transactions = v }) ([])
          (json_bool_strict))
      ∷ bound (
          bound_field JsonBool (str "expand") 2 (λ v out. record out { expand = v }) ([])
            (json_bool_strict))
      ∷ bound (
          bound_field JsonBool (str "binary") 1 (λ v out. record out { binary = v }) ([])
            (json_bool_strict))
      ∷ bound (
          bound_field JsonBool (str "owner_funds") 3 (λ v out. record out { owner_funds = v }) ([])
            (json_bool_strict))
      ∷ [])
