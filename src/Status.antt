-- ===== src/Status.antt =====
-- include/rpcspec/Errors.hpp and include/rpcspec/Types.hpp: statuses, warnings, and the results
-- that processors give. The server for which the library is compiled is an argument.
use rpc_spec.Prelude.{ℕ, Text, Bool, true, false, Option, none, List, [], ◌++◌, str, not}
use rpc_spec.Prelude.Int.{ℤ}
use rpc_spec.Prelude.Float.{Double}

-- `RPCSPEC_IS_CLIO` or `RPCSPEC_IS_XRPLD`.
pub data Server : Type 0 where
  clio xrpld : Server

abbrev pub is_clio_build : Server → Bool
is_clio_build clio = true
is_clio_build xrpld = false

abbrev pub is_xrpld_build : Server → Bool
is_xrpld_build s = not (is_clio_build s)

-- `xrpl::ErrorCodeI`: the codes that the library names; any other is `other_code`.
pub data XrpldError : Type 0 where
  rpc_success rpc_unknown rpc_invalid_params rpc_act_malformed rpc_not_supported : XrpldError
  rpc_invalid_hotwallet rpc_src_cur_malformed rpc_src_isr_malformed : XrpldError
  rpc_dst_amt_malformed rpc_dst_isr_malformed : XrpldError
  other_code : ℤ → XrpldError

pub data ClioError : Type 0 where
  rpc_malformed_currency rpc_malformed_request rpc_malformed_owner : ClioError
  rpc_malformed_address rpc_unknown_option rpc_field_not_found_transaction : ClioError
  rpc_malformed_oracle_document_id rpc_malformed_authorized_credentials : ClioError
  rpc_invalid_api_version rpc_command_is_missing rpc_command_not_string : ClioError
  rpc_command_is_empty rpc_params_unparsable rpc_forwarding_connection_error : ClioError
  rpc_forwarding_request_error rpc_forwarding_timeout : ClioError
  rpc_forwarding_invalid_response : ClioError

pub data CombinedError : Type 0 where
  xrpld_error : XrpldError → CombinedError
  clio_error : ClioError → CombinedError

-- The code of one server or of the other.
abbrev pub per_server {ℓ} : {A : Type ℓ} → Server → A → A → A
per_server clio a b = a
per_server xrpld a b = b

abbrev pub invalid_params : CombinedError
invalid_params = xrpld_error rpc_invalid_params

abbrev pub malformed_request : Server → CombinedError
malformed_request s = per_server s (clio_error rpc_malformed_request) invalid_params

abbrev pub malformed_address : Server → CombinedError
malformed_address s = per_server s (clio_error rpc_malformed_address) invalid_params

abbrev pub malformed_owner : Server → CombinedError
malformed_owner s = per_server s (clio_error rpc_malformed_owner) invalid_params

abbrev pub malformed_currency : Server → CombinedError
malformed_currency s = per_server s (clio_error rpc_malformed_currency) invalid_params

abbrev pub malformed_authorized_credentials : Server → CombinedError
malformed_authorized_credentials s =
    per_server s (clio_error rpc_malformed_authorized_credentials) invalid_params

abbrev pub malformed_field : CombinedError
malformed_field = invalid_params

unfoldable pub missing_field_message : Server → Text → Text
unfolding str
missing_field_message s field =
    per_server s (str "Required field '" ++ (field ++ str "' missing"))
      (str "Missing field '" ++ (field ++ str "'."))

unfoldable pub expected_field_message : Text → Text → Text
unfolding str
expected_field_message field type =
    str "Invalid field '" ++ (field ++ (str "', not " ++ (type ++ str ".")))

unfoldable pub invalid_field_message : Text → Text
unfolding str
invalid_field_message field = str "Invalid field '" ++ (field ++ str "'.")

unfoldable pub not_string_field_message : Server → Text → Text
unfolding str
not_string_field_message s field =
    per_server s (field ++ str "NotString") (invalid_field_message field)

unfoldable pub malformed_field_message : Server → Text → Text
unfolding str
malformed_field_message s field =
    per_server s (field ++ str "Malformed") (invalid_field_message field)

unfoldable pub malformed_ledger_index_message : Server → Text
unfolding str
malformed_ledger_index_message s =
    per_server s (str "ledgerIndexMalformed")
      (expected_field_message (str "ledger_index") (str "string or number"))

unfoldable pub malformed_cursor_message : Server → Text → Text
unfolding str
malformed_cursor_message s field =
    per_server s (str "Malformed cursor.") (invalid_field_message field)

pub data ExtraValue : Type 0 where
  bool_value : Bool → ExtraValue
  int64_value : ℤ → ExtraValue
  uint64_value : ℕ → ExtraValue
  double_value : Double → ExtraValue
  string_value : Text → ExtraValue

abbrev pub ExtraInfo : Type 0
ExtraInfo = List (Text × ExtraValue)

pub record Status : Type 0 where
  pub code : CombinedError
  pub error : Text
  pub message : Text
  pub extra_info : Option ExtraInfo

-- `Status{code}`
abbrev pub status : CombinedError → Status
status c = record { code = c; error = []; message = []; extra_info = none }

-- `Status{code, message}`
abbrev pub status_with : CombinedError → Text → Status
status_with c m = record { code = c; error = []; message = m; extra_info = none }

is_failure : CombinedError → Bool
is_failure (xrpld_error rpc_success) = false
is_failure _ = true

-- `operator bool`: whether it is an error.
unfoldable pub is_error : Status → Bool
unfolding is_failure
is_error s = is_failure s.code

pub data Result {ℓ} (A : Type ℓ) : Type ℓ where
  ok : A → Result A
  unexpected : Status → Result A

abbrev pub MaybeError : Type 0
MaybeError = Result (Unit {0})

abbrev pub success : MaybeError
success = ok tt

abbrev pub has_value {ℓ} : {A : Type ℓ} → Result A → Bool
has_value (ok a) = true
has_value (unexpected e) = false

pub data WarningCode : Type 0 where
  warn_unknown warn_rpc_clio warn_rpc_outdated warn_rpc_rate_limit warn_rpc_deprecated : WarningCode

pub record Warning : Type 0 where
  pub code : WarningCode
  pub field : Text
  pub message : Text

abbrev pub Warnings : Type 0
Warnings = List Warning
