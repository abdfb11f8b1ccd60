-- ===== src/Handlers/AccountObjects.antt =====
-- include/rpcspec/handlers/account_objects: the ledger objects of an account.
use rpc_spec.Prelude.{
  ℕ, ◌≡◌, refl, Text, Bool, Option, some, List, [], ◌∷◌, str, arith, if◌then◌else◌,
}
use rpc_spec.Prelude.Strings.{text_eq}
use rpc_spec.Status.{
  Server, status, status_with, invalid_params, malformed_field, Result, ok, unexpected,
  expected_field_message, invalid_field_message,
}
use rpc_spec.View.{FieldView, ObjectView}
use rpc_spec.Combinators.{requirement}
use rpc_spec.LedgerTypes.{LedgerEntryType, is_any, account_owned_ledger_type_from_str}
use rpc_spec.Spec.{extend}
use rpc_spec.Spec.Override.{effective, put_all, put}
use rpc_spec.Typed.{BoundField, TypedField, bound, parse}
use rpc_spec.Typed.Stored.{parse-Settled}
use rpc_spec.Validators.Libxrpl.{Libxrpl}
use rpc_spec.Validators.Entries.{account_marker}
use rpc_spec.Converters.{from_string, JsonBool, json_bool_strict, as_uint32_value, account_id}
use rpc_spec.Ledger.{LedgerSpecifier, ledger_selector}
use rpc_spec.Handlers.{is_required, bound_field, ledger_field, limit_key}
use rpc_spec.Handlers.Limits.{front, back, clamped_limit, IsRange, Within, clamped-Within}

abbrev pub limit_min : ℕ
limit_min = 10

abbrev pub limit_max : ℕ
limit_max = 400

abbrev pub limit_default : ℕ
limit_default = 200

range : IsRange limit_min limit_max limit_default
range = record {
  ordered = omega arith;
  fits = omega arith;
  positive = omega arith;
  default_inside = (omega arith, omega arith);
}

pub record Input (x : Libxrpl) : Type 0 where
  pub ledger : LedgerSpecifier x
  pub account : x.AccountId
  pub limit : ℕ
  pub marker : Option Text
  pub type : Option LedgerEntryType
  pub deletion_blockers_only : Bool
  pub sponsored : Option JsonBool

module _ (server : Server) (x : Libxrpl) where
  abbrev pub unless_any : Text → LedgerEntryType → Result LedgerEntryType
  unless_any key t =
      if is_any t
      then unexpected (status_with malformed_field (invalid_field_message key))
      else ok t

  -- `AccountOwnedTypeConverter`
  unfoldable pub account_owned_type : FieldView → Result LedgerEntryType
  unfolding account_owned_ledger_type_from_str
  account_owned_type v =
      from_string
        (unexpected (status_with malformed_field (expected_field_message v.key (str "string"))))
        (λ s. unless_any v.key (account_owned_ledger_type_from_str s)) v

  -- `MarkerStringConverter`, which runs after the field is known to be a string.
  unfoldable pub marker_string : FieldView → Result Text
  marker_string v = from_string (unexpected (status invalid_params)) (λ s. ok s) v

  abbrev pub limit_field : BoundField (Input x)
  limit_field =
      bound_field ℕ limit_key 2 (λ n out. record out { limit = n })
        (clamped_limit 1 limit_min limit_max limit_default) as_uint32_value

  unfoldable pub input_spec : List (TypedField (Input x))
  input_spec =
      ledger_field server x (λ l out. record out { ledger = l })
      ∷ bound (
          bound_field x.AccountId (str "account") 1 (λ v out. record out { account = v })
            (is_required x.AccountId server ∷ []) (account_id server x))
      ∷ bound limit_field
      ∷ bound (
          bound_field LedgerEntryType (str "type") 4 (λ v out. record out { type = some v }) ([])
            (account_owned_type))
      ∷ bound (
          bound_field Text (str "marker") 3 (λ v out. record out { marker = some v })
            (requirement Text (account_marker server x) ∷ []) (marker_string))
      ∷ bound (
          bound_field JsonBool (str "deletion_blockers_only") 5
            (λ v out. record out { deletion_blockers_only = v.value }) ([]) (json_bool_strict))
      ∷ bound (
          bound_field JsonBool (str "sponsored") 6 (λ v out. record out { sponsored = some v }) ([])
            (json_bool_strict))
      ∷ []

  -- The limit of a request that is parsed.
  pub limit-Within :
      (empty : Input x) (root : ObjectView) (input : Input x)
      → (parse empty input_spec root).0 ≡ ok input
      → Within limit_min limit_max input.limit
  unfolding effective put_all put text_eq str input_spec extend ledger_selector
  limit-Within empty root input h =
      let (t, before, settled) =
        parse-Settled (λ i. i.limit) limit_field empty input_spec (front 2 input_spec)
          (back 3 input_spec) root input refl
          ((λ v out. refl), ((λ v out. refl), ((λ v out. refl), ((λ v out. refl), tt)))) h in
      clamped-Within limit_min limit_max limit_default range limit_key 2
        (λ n out. record out { limit = n }) (λ i. i.limit) (λ n out. refl) t input.limit 1 settled
