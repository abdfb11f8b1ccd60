-- ===== src/Handlers/AccountLines.antt =====
-- include/rpcspec/handlers/account_lines: the trust lines of an account.
use rpc_spec.Prelude.{
  ℕ, ◌≡◌, refl, Text, Bool, false, Option, some, List, [], ◌∷◌, str, arith, not, if◌then◌else◌,
}
use rpc_spec.Prelude.Strings.{text_eq}
use rpc_spec.Status.{Server, is_xrpld_build, status, invalid_params, Result, ok, unexpected}
use rpc_spec.View.{FieldView, ObjectView, is_bool, as_bool}
use rpc_spec.Combinators.{bool_type, if_server_clio}
use rpc_spec.Spec.{extend}
use rpc_spec.Spec.Override.{effective, put_all, put}
use rpc_spec.Typed.{BoundField, TypedField, bound, parse}
use rpc_spec.Typed.Stored.{parse-Settled}
use rpc_spec.Validators.Libxrpl.{Libxrpl}
use rpc_spec.Converters.{
  or_status, JsonBool, json_bool, as_uint32_value, account_id_act_malformed, account_marker_str,
  invalid_params_only, empty_as_absent,
}
use rpc_spec.Converters.Deferred.{Deferred, value, failed, missing, deferred_account_id}
use rpc_spec.Ledger.{LedgerSpecifier, ledger_selector}
use rpc_spec.Handlers.{
  is_required, has_json_type, is_deprecated, field, bound_field, ledger_field, limit_key,
}
use rpc_spec.Handlers.Limits.{front, back, paged_limit, IsRange, IsAllowed, paged-IsAllowed}

abbrev pub limit_min : ℕ
limit_min = 10

abbrev pub limit_max : ℕ
limit_max = 400

abbrev pub limit_default : ℕ
limit_default = 200

range : IsRange limit_min limit_max limit_default
range = record {
  ordered = omega arith;
  fits = omega arith;
  positive = omega arith;
  default_inside = (omega arith, omega arith);
}

pub record Input (x : Libxrpl) : Type 0 where
  pub ledger : LedgerSpecifier x
  pub account : Deferred x.AccountId
  pub peer : Deferred x.AccountId
  pub ignore_default : Bool
  pub limit : ℕ
  pub marker : Option Text

module _ (server : Server) (x : Libxrpl) where
  -- `LinesAccountConverter`
  unfoldable pub lines_account : FieldView → Result (Deferred x.AccountId)
  unfolding deferred_account_id account_id_act_malformed
  lines_account v =
      if is_xrpld_build server
      then deferred_account_id server x v
      else elim (account_id_act_malformed server x v) [
        | ok a ↦ ok (value a)
        | unexpected e ↦ unexpected e
      ]

  -- `AsBoolConverter`
  abbrev pub coerced : Result JsonBool → Result Bool
  coerced (ok b) = ok b.value
  coerced (unexpected e) = ok false

  unfoldable pub as_bool_value : FieldView → Result Bool
  unfolding json_bool
  as_bool_value v =
      if is_xrpld_build server
      then coerced (json_bool v)
      else if not (is_bool v)
      then unexpected (status invalid_params)
      else or_status (status invalid_params) (as_bool v)

  abbrev pub limit_field : BoundField (Input x)
  limit_field =
      bound_field ℕ limit_key 4 (λ n out. record out { limit = n })
        (paged_limit server limit_min limit_max limit_default) as_uint32_value

  unfoldable pub input_spec : List (TypedField (Input x))
  input_spec =
      ledger_field server x (λ l out. record out { ledger = l })
      ∷ bound (
          bound_field (Deferred x.AccountId) (str "account") 1 (λ v out. record out { account = v })
            (is_required (Deferred x.AccountId) server ∷ []) (lines_account))
      ∷ bound (
          bound_field (Deferred x.AccountId) (str "peer") 2 (λ v out. record out { peer = v }) ([])
            (empty_as_absent server x (failed missing) (λ a. a) lines_account))
      ∷ bound (
          bound_field Bool (str "ignore_default") 3 (λ v out. record out { ignore_default = v })
            (if_server_clio server (has_json_type Bool bool_type ∷ []) ∷ []) (as_bool_value))
      ∷ bound limit_field
      ∷ bound (
          bound_field Text (str "marker") 5 (λ v out. record out { marker = some v }) ([])
            (account_marker_str server x invalid_params_only))
      ∷ field (str "ledger") (if_server_clio server (is_deprecated (Unit {0}) server ∷ []) ∷ [])
      ∷ field (str "peer_index") (if_server_clio server (is_deprecated (Unit {0}) server ∷ []) ∷ [])
      ∷ []

  -- The limit of a request that is parsed.
  pub limit-IsAllowed :
      (empty : Input x) (root : ObjectView) (input : Input x)
      → (parse empty input_spec root).0 ≡ ok input
      → IsAllowed server limit_min limit_max input.limit
  unfolding effective put_all put text_eq str input_spec extend ledger_selector
  limit-IsAllowed empty root input h =
      let (t, before, settled) =
        parse-Settled (λ i. i.limit) limit_field empty input_spec (front 4 input_spec)
          (back 5 input_spec) root input refl ((λ v out. refl), (tt, (tt, tt))) h in
      paged-IsAllowed limit_min limit_max limit_default range limit_key 4
        (λ n out. record out { limit = n }) (λ i. i.limit) (λ n out. refl) t input.limit server
        settled
