-- ===== src/Handlers/AccountTx.antt =====
-- include/rpcspec/handlers/account_tx and include/rpcspec/TxTypes.hpp: the validators and converters
-- that a request for the transactions of an account has of its own. Its list of fields is not
-- modelled, since three of the converters can throw.
pub mod Converted
use rpc_spec.Prelude.{
  ℕ, ◌-◌, ◌^◌, Text, Bool, true, false, ◌&&◌, ◌||◌, not, Option, none, some, List, [], ◌++◌, str,
  map, ltb, ◌==◌, any, if◌then◌else◌,
}
use rpc_spec.Prelude.Int.{ℤ, pos, negsuc}
use rpc_spec.Prelude.Strings.{text_eq}
use rpc_spec.Status.{
  Server, xrpld_error, rpc_act_malformed, invalid_params, Status, status_with, MaybeError, success,
  ok, unexpected,
}
use rpc_spec.View.{
  FieldView, present, is_string, is_object, as_string, as_int64, as_uint32, to_uint32, child,
}
use rpc_spec.Combinators.{replace_error}
use rpc_spec.Validators.Accounts.{reject, reject_with, account_format}
use rpc_spec.Validators.Chars.{to_lower}
use rpc_spec.Validators.Presence.{custom_validator, is_listed}
use rpc_spec.Validators.Libxrpl.{Libxrpl}

-- `txTypesInLowercase`; the names are those of `xrpl::TxFormats`.
unfoldable pub tx_types_in_lowercase : List Text → List Text
unfolding to_lower
tx_types_in_lowercase names = map (map to_lower) names

abbrev pub check_tx_type : List Text → FieldView → MaybeError
check_tx_type names v =
    if not (is_string v)
    then reject invalid_params
    else if not (is_listed (tx_types_in_lowercase names) (as_string v))
    then reject_with invalid_params (str "Invalid field '" ++ (v.key ++ str "'."))
    else success

-- `kTxTypeValidator`
unfoldable pub tx_type_validator : List Text → FieldView → MaybeError
unfolding tx_types_in_lowercase str
tx_type_validator names v = custom_validator (check_tx_type names) v

-- `static_cast<int32_t>` of a number of 64 bits.
unfoldable pub to_int32 : ℤ → ℤ
to_int32 z =
    if ltb (to_uint32 z) (2 ^ 31) then pos (to_uint32 z) else negsuc (2 ^ 32 - 1 - to_uint32 z)

-- The bound that a number gives: -1 stands for none.
abbrev pub bound_of : ℤ → Option ℤ
bound_of (pos n) = some (pos n)
bound_of (negsuc n) = if n == 0 then none else some (negsuc n)

-- `Int32BoundConverter::parse`; `none` is the exception of `asInt64` on a value that is no number.
unfoldable pub int32_bound_value : FieldView → Option (Option ℤ)
unfolding to_int32
int32_bound_value v = elim (as_int64 v) [ none ↦ none | some z ↦ some (bound_of (to_int32 z)) ]

pub record Marker : Type 0 where
  pub ledger : ℕ
  pub seq : ℕ

abbrev pub marker_of : Option ℕ → Option ℕ → Option Marker
marker_of none seq = none
marker_of (some l) none = none
marker_of (some l) (some s) = some (record { ledger = l; seq = s })

-- `MarkerConverter::parse`; `none` is the exception of `asUint32`.
unfoldable pub marker_value : FieldView → Option Marker
unfolding str
marker_value v = marker_of (as_uint32 (child v (str "ledger"))) (as_uint32 (child v (str "seq")))

-- `DelegateFilter::Role`
pub data Role : Type 0 where
  actor authorizer : Role

pub record DelegateFilter : Type 0 where
  pub delegate_type : Role
  pub counter_party : Option Text

abbrev pub is_role : Option Text → Bool
is_role none = false
is_role (some s) = text_eq s (str "actor") || text_eq s (str "authorizer")

module _ (server : Server) (x : Libxrpl) where
  abbrev pub check_counter_party : FieldView → MaybeError
  check_counter_party v =
      if present v
      then replace_error
          (status_with (xrpld_error rpc_act_malformed)
            (str "Field 'counter_party' value must be a valid account."))
          (account_format server x v)
      else success

  abbrev pub check_delegate : FieldView → MaybeError
  check_delegate v =
      if not (is_object v)
      then reject_with invalid_params (v.key ++ str "NotObject")
      else if not (present (child v (str "delegate_filter")))
      then reject_with invalid_params (str "Field 'delegate_filter' is required but missing.")
      else if not (is_string (child v (str "delegate_filter")))
          || not (is_role (as_string (child v (str "delegate_filter"))))
      then reject_with invalid_params
          (str "Field 'delegate_filter' value must be 'actor' or 'authorizer'.")
      else check_counter_party (child v (str "counter_party"))

  -- `kDelegateValidator`
  unfoldable pub delegate_validator : FieldView → MaybeError
  unfolding text_eq str
  delegate_validator v = custom_validator check_delegate v

abbrev pub role_of : Text → Role
role_of s = if text_eq s (str "actor") then actor else authorizer

abbrev pub with_counter_party : Role → FieldView → Option DelegateFilter
with_counter_party r v =
    if not (present v)
    then some (record { delegate_type = r; counter_party = none })
    else elim (as_string v) [
      | none ↦ none
      | some s ↦ some (record { delegate_type = r; counter_party = some s })
    ]

-- `DelegateConverter::parse`; `none` is the exception of `asString`.
unfoldable pub delegate_value : FieldView → Option DelegateFilter
unfolding text_eq str
delegate_value v = elim (as_string (child v (str "delegate_filter"))) [
  | none ↦ none
  | some s ↦ with_counter_party (role_of s) (child v (str "counter_party"))
]
