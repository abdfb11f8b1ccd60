-- ===== src/Handlers/AccountMptokens.antt =====
-- include/rpcspec/handlers/account_mptokens: the multi-purpose tokens of an account.
use rpc_spec.Prelude.{ℕ, ◌≡◌, refl, Text, Option, some, List, [], ◌∷◌, str, arith}
use rpc_spec.Prelude.Strings.{text_eq}
use rpc_spec.Status.{Server, ok}
use rpc_spec.View.{ObjectView}
use rpc_spec.Combinators.{requirement}
use rpc_spec.Spec.{extend}
use rpc_spec.Spec.Override.{effective, put_all, put}
use rpc_spec.Typed.{BoundField, TypedField, bound, parse}
use rpc_spec.Typed.Stored.{parse-Settled}
use rpc_spec.Validators.Libxrpl.{Libxrpl}
use rpc_spec.Validators.Entries.{account_marker}
use rpc_spec.Converters.{as_uint32_value, as_string_value, account_id_act_malformed}
use rpc_spec.Ledger.{LedgerSpecifier, ledger_selector}
use rpc_spec.Handlers.{is_required, is_deprecated, field, bound_field, ledger_field, limit_key}
use rpc_spec.Handlers.Limits.{front, back, clamped_limit, IsRange, Within, clamped-Within}

abbrev pub limit_min : ℕ
limit_min = 10

abbrev pub limit_max : ℕ
limit_max = 400

abbrev pub limit_default : ℕ
limit_default = 200

range : IsRange limit_min limit_max limit_default
range = record {
  ordered = omega arith;
  fits = omega arith;
  positive = omega arith;
  default_inside = (omega arith, omega arith);
}

pub record Input (x : Libxrpl) : Type 0 where
  pub ledger : LedgerSpecifier x
  pub account : x.AccountId
  pub limit : ℕ
  pub marker : Option Text

module _ (server : Server) (x : Libxrpl) where
  abbrev pub limit_field : BoundField (Input x)
  limit_field =
      bound_field ℕ limit_key 2 (λ n out. record out { limit = n })
        (clamped_limit 1 limit_min limit_max limit_default) as_uint32_value

  unfoldable pub input_spec : List (TypedField (Input x))
  input_spec =
      ledger_field server x (λ l out. record out { ledger = l })
      ∷ bound (
          bound_field x.AccountId (str "account") 1 (λ v out. record out { account = v })
            (is_required x.AccountId server ∷ []) (account_id_act_malformed server x))
      ∷ bound limit_field
      ∷ bound (
          bound_field Text (str "marker") 3 (λ v out. record out { marker = some v })
            (requirement Text (account_marker server x) ∷ []) (as_string_value))
      ∷ field (str "ledger") (is_deprecated (Unit {0}) server ∷ [])
      ∷ []

  -- The limit of a request that is parsed.
  pub limit-Within :
      (empty : Input x) (root : ObjectView) (input : Input x)
      → (parse empty input_spec root).0 ≡ ok input
      → Within limit_min limit_max input.limit
  unfolding effective put_all put text_eq str input_spec extend ledger_selector
  limit-Within empty root input h =
      let (t, before, settled) =
        parse-Settled (λ i. i.limit) limit_field empty input_spec (front 2 input_spec)
          (back 3 input_spec) root input refl ((λ v out. refl), (tt, tt)) h in
      clamped-Within limit_min limit_max limit_default range limit_key 2
        (λ n out. record out { limit = n }) (λ i. i.limit) (λ n out. refl) t input.limit 1 settled
