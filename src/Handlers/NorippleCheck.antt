-- ===== src/Handlers/NorippleCheck.antt =====
-- include/rpcspec/handlers/noripple_check: the check of an account's no-ripple flags.
use rpc_spec.Prelude.{ℕ, ◌≡◌, refl, Bool, List, [], ◌∷◌, str, arith}
use rpc_spec.Prelude.Strings.{text_eq}
use rpc_spec.Status.{Server, status, invalid_params, Result, ok, unexpected}
use rpc_spec.View.{FieldView, ObjectView}
use rpc_spec.Spec.{extend}
use rpc_spec.Spec.Override.{effective, put_all, put}
use rpc_spec.Typed.{BoundField, TypedField, bound, parse}
use rpc_spec.Typed.Stored.{parse-Settled}
use rpc_spec.Validators.Libxrpl.{Libxrpl}
use rpc_spec.Validators.Presence.{one_of}
use rpc_spec.Converters.{
  from_string, JsonBool, json_bool, json_bool_strict, as_uint32_value, account_id,
}
use rpc_spec.Ledger.{LedgerSpecifier, ledger_selector}
use rpc_spec.Handlers.{is_required, with_invalid_params, bound_field, ledger_field, limit_key}
use rpc_spec.Handlers.Limits.{front, back, clamped_limit, IsRange, Within, clamped-Within}

abbrev pub limit_min : ℕ
limit_min = 1

abbrev pub limit_max : ℕ
limit_max = 500

abbrev pub limit_default : ℕ
limit_default = 300

range : IsRange limit_min limit_max limit_default
range = record {
  ordered = omega arith;
  fits = omega arith;
  positive = omega arith;
  default_inside = (omega arith, omega arith);
}

pub record Input (x : Libxrpl) : Type 0 where
  pub ledger : LedgerSpecifier x
  pub account : x.AccountId
  pub role_gateway : Bool
  pub limit : ℕ
  pub transactions : Bool

module _ (server : Server) (x : Libxrpl) where
  -- `RoleGatewayConverter`, which runs after the field is known to be a string.
  unfoldable pub role_gateway : FieldView → Result Bool
  unfolding text_eq
  role_gateway v =
      from_string (unexpected (status invalid_params)) (λ s. ok (text_eq s (str "gateway"))) v

  abbrev pub limit_field : BoundField (Input x)
  limit_field =
      bound_field ℕ limit_key 3 (λ n out. record out { limit = n })
        (clamped_limit 1 limit_min limit_max limit_default) as_uint32_value

  unfoldable pub input_spec : List (TypedField (Input x))
  input_spec =
      ledger_field server x (λ l out. record out { ledger = l })
      ∷ bound (
          bound_field x.AccountId (str "account") 1 (λ v out. record out { account = v })
            (is_required x.AccountId server ∷ []) (account_id server x))
      ∷ bound (
          bound_field Bool (str "role") 2 (λ v out. record out { role_gateway = v })
            (is_required Bool server
              ∷ with_invalid_params Bool (one_of (str "gateway" ∷ str "user" ∷ []))
                  (str "role field is invalid")
              ∷ [])
            (role_gateway))
      ∷ bound limit_field
      ∷ bound (
          bound_field JsonBool (str "transactions") 4
            (λ v out. record out { transactions = v.value }) ([]) (json_bool))
      ∷ []

  unfoldable pub input_spec_v2 : List (TypedField (Input x))
  unfolding input_spec extend
  input_spec_v2 = extend input_spec (
      bound (
        bound_field JsonBool (str "transactions") 4 (λ v out. record out { transactions = v.value })
          ([]) (json_bool_strict))
      ∷ [])

  -- The limit of a request that is parsed.
  pub limit-Within :
      (empty : Input x) (root : ObjectView) (input : Input x)
      → (parse empty input_spec root).0 ≡ ok input
      → Within limit_min limit_max input.limit
  unfolding effective put_all put text_eq str input_spec extend ledger_selector
  limit-Within empty root input h =
      let (t, before, settled) =
        parse-Settled (λ i. i.limit) limit_field empty input_spec (front 3 input_spec)
          (back 4 input_spec) root input refl ((λ v out. refl), tt) h in
      clamped-Within limit_min limit_max limit_default range limit_key 3
        (λ n out. record out { limit = n }) (λ i. i.limit) (λ n out. refl) t input.limit 1 settled

  -- The limit of a request that is parsed.
  pub limit_v2-Within :
      (empty : Input x) (root : ObjectView) (input : Input x)
      → (parse empty input_spec_v2 root).0 ≡ ok input
      → Within limit_min limit_max input.limit
  unfolding effective put_all put text_eq str input_spec_v2 input_spec extend ledger_selector
  limit_v2-Within empty root input h =
      let (t, before, settled) =
        parse-Settled (λ i. i.limit) limit_field empty input_spec_v2 (front 3 input_spec_v2)
          (back 5 input_spec_v2) root input refl ((λ v out. refl), tt) h in
      clamped-Within limit_min limit_max limit_default range limit_key 3
        (λ n out. record out { limit = n }) (λ i. i.limit) (λ n out. refl) t input.limit 1 settled
