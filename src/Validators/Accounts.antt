-- ===== src/Validators/Accounts.antt =====
-- include/rpcspec/Validators.hpp: accounts, currencies, issuers, hashes and credentials.
pub mod Loops
pub mod Credentials
pub mod Currencies
use rpc_spec.Prelude.{
  ℕ, zero, suc, ◌+◌, Text, Bool, true, false, not, ◌&&◌, ◌||◌, Option, none, some, List, [], ◌∷◌,
  ◌++◌, ltb, ◌==◌, str, text_eq, is_empty, length, if◌then◌else◌,
}
use rpc_spec.Status.{
  Server, is_clio_build, is_xrpld_build, CombinedError, status, status_with, invalid_params,
  xrpld_error, rpc_act_malformed, malformed_address, malformed_currency, malformed_request,
  malformed_authorized_credentials, malformed_field, MaybeError, success, ok, unexpected, has_value,
  not_string_field_message, malformed_field_message, malformed_ledger_index_message,
  malformed_cursor_message, expected_field_message, invalid_field_message,
}
use rpc_spec.View.{
  FieldView, present, is_string, as_string, is_object, is_array, array_size, is_int64, is_uint32,
  child, element,
}
use rpc_spec.Combinators.{and_then}
use rpc_spec.LedgerTypes.{
  LedgerEntryType, is_any, account_owned_ledger_type_from_str, ledger_entry_type_from_str,
}
use rpc_spec.Validators.Chars.{
  check_is_u32_numeric, format_number, split_at, c_str, from_chars, all_read,
}
use rpc_spec.Validators.Libxrpl.{Libxrpl, account_from_string_strict, parse_base58_account}

abbrev pub reject : CombinedError → MaybeError
reject c = unexpected (status c)

abbrev pub reject_with : CombinedError → Text → MaybeError
reject_with c m = unexpected (status_with c m)

-- What most validators begin with: an absent field passes, and a value that is no string is refused.
abbrev pub on_string : MaybeError → (Text → MaybeError) → FieldView → MaybeError
on_string refusal f v =
    if not (present v)
    then success
    else if not (is_string v)
    then refusal
    else elim (as_string v) [ none ↦ refusal | some s ↦ f s ]

abbrev pub succeeds {ℓ} : {A : Type ℓ} → Option A → Bool
succeeds none = false
succeeds (some a) = true

abbrev pub not_string : FieldView → MaybeError
not_string v = reject_with invalid_params (v.key ++ str "NotString")

-- The rounds `i` up to `i + n` of a loop over the elements, which returns at the first failure.
unfoldable pub for_elements : (FieldView → MaybeError) → FieldView → ℕ → ℕ → MaybeError
for_elements f v i zero = success
for_elements f v i (suc n) =
    let later = for_elements f v (i + 1) n in and_then (f (element v i)) later

module _ (server : Server) (x : Libxrpl) where
  -- `AccountFormat::verify`
  unfoldable pub account_format : FieldView → MaybeError
  account_format v =
      on_string (not_string v)
        (λ s.
          if succeeds (account_from_string_strict x s)
          then success
          else reject_with (xrpld_error rpc_act_malformed) (v.key ++ str "Malformed"))
        v

  -- `HexStringValidator<HexType>::verify`, for the type with so many bits.
  unfoldable pub hex_string : ℕ → FieldView → MaybeError
  hex_string bits v =
      on_string (reject_with malformed_field (not_string_field_message server v.key))
        (λ s.
          if x.parse_hex bits (c_str s)
          then success
          else reject_with malformed_field (malformed_field_message server v.key))
        v

  abbrev pub unrecognised_index : MaybeError
  unrecognised_index = reject_with invalid_params (malformed_ledger_index_message server)

  -- `LedgerIndexValidator::verify`
  abbrev pub ledger_index_text : Text → MaybeError
  ledger_index_text s =
      if text_eq s (str "validated") || check_is_u32_numeric s
      then success
      else if is_xrpld_build server && (text_eq s (str "closed") || text_eq s (str "current"))
      then success
      else unrecognised_index

  unfoldable pub ledger_index : FieldView → MaybeError
  ledger_index v =
      if not (present v)
      then success
      else if is_int64 v || is_uint32 v
      then success
      else on_string (if is_clio_build server then unrecognised_index else reject invalid_params)
          ledger_index_text v

  abbrev pub is_usable_account : Option x.AccountId → Bool
  is_usable_account none = false
  is_usable_account (some a) = not (x.is_zero a)

  -- `AccountBase58Validator::verify`
  unfoldable pub account_base58 : FieldView → MaybeError
  account_base58 v =
      on_string (not_string v)
        (λ s.
          if is_usable_account (parse_base58_account x s)
          then success
          else reject (malformed_address server))
        v

  abbrev pub bad_currency : MaybeError
  bad_currency = reject_with (malformed_currency server) (str "malformedCurrency")

  -- `CurrencyValidator::verify`
  unfoldable pub currency : FieldView → MaybeError
  currency v =
      on_string (not_string v)
        (λ s.
          if is_empty s
          then reject_with invalid_params (v.key ++ str "IsEmpty")
          else if succeeds (x.to_currency s)
          then success
          else bad_currency)
        v

  abbrev pub is_strict : Option x.Currency → Bool
  is_strict none = false
  is_strict (some c) = not (x.is_bad_currency c || x.is_no_currency c)

  -- `StrictCurrencyValidator::verify`
  unfoldable pub strict_currency : FieldView → MaybeError
  strict_currency v =
      and_then (currency v)
        (on_string success (λ s. if is_strict (x.to_currency s) then success else bad_currency) v)

  abbrev pub check_issuer : Text → Option x.AccountId → MaybeError
  check_issuer key none =
      reject_with invalid_params (str "Invalid field '" ++ (key ++ str "', bad issuer."))
  check_issuer key (some a) =
      if x.is_no_account a
      then reject_with invalid_params
          (str "Invalid field '" ++ (key ++ str "', bad issuer account one."))
      else success

  -- `IssuerValidator::verify`
  unfoldable pub issuer : FieldView → MaybeError
  issuer v = on_string (not_string v) (λ s. check_issuer v.key (x.to_issuer s)) v

  abbrev pub bad_request : MaybeError
  bad_request = reject (malformed_request server)

  abbrev pub string_or : FieldView → (Text → MaybeError) → MaybeError
  string_or v f = elim (as_string v) [ none ↦ bad_request | some s ↦ f s ]

  abbrev pub check_issue : FieldView → Option x.Currency → MaybeError
  check_issue issuer_view none = bad_request
  check_issue issuer_view (some c) =
      if x.is_xrp c
      then (if present issuer_view then bad_request else success)
      else string_or issuer_view (λ s. if succeeds (x.to_issuer s) then success else bad_request)

  -- `CurrencyIssueValidator::verify`
  unfoldable pub currency_issue : FieldView → MaybeError
  currency_issue v =
      if not (present v)
      then success
      else if not (is_object v)
      then reject_with invalid_params (v.key ++ str "NotObject")
      else string_or (child v (str "currency"))
          (λ s. check_issue (child v (str "issuer")) (x.to_currency s))

  abbrev pub bad_credentials : Text → MaybeError
  bad_credentials m = reject_with (malformed_authorized_credentials server) m

  abbrev pub check_decoded : Text → Option (List ℕ) → MaybeError
  check_decoded key none = bad_credentials (key ++ str " NotHexString")
  check_decoded key (some decoded) =
      if is_empty decoded
      then bad_credentials (key ++ str " is empty")
      else if ltb x.max_credential_type_length (length decoded)
      then bad_credentials (key ++ str " greater than max length")
      else success

  -- `CredentialTypeValidator::verify`
  unfoldable pub credential_type : FieldView → MaybeError
  credential_type v =
      on_string (bad_credentials (v.key ++ str " NotString"))
        (λ s. check_decoded v.key (x.str_unhex s)) v

  -- One round of the loop of `AuthorizeCredentialValidator::verify`.
  unfoldable pub credential_element : FieldView → MaybeError
  unfolding credential_type account_base58
  credential_element elem =
      let issuer_view = child elem (str "issuer") in
      let cred_view = child elem (str "credential_type") in
      if not (is_object elem)
      then bad_credentials (str "authorized_credentials elements in array are not objects.")
      else if not (present issuer_view)
      then bad_credentials (str "Field 'Issuer' is required but missing.")
      else if not (has_value (account_base58 issuer_view))
      then bad_credentials (str "issuer NotString")
      else if not (present cred_view)
      then bad_credentials (str "Field 'CredentialType' is required but missing.")
      else credential_type cred_view

  -- `AuthorizeCredentialValidator::verify`
  unfoldable pub authorize_credential : FieldView → MaybeError
  authorize_credential v =
      if not (present v)
      then success
      else if not (is_array v)
      then reject_with (malformed_request server) (v.key ++ str " not array")
      else if array_size v == 0
      then bad_credentials (str "Requires at least one element in authorized_credentials array.")
      else if ltb x.max_credentials_array_size (array_size v)
      then bad_credentials (
          str "Max "
          ++ (format_number x.max_credentials_array_size
              ++ str " number of credentials in authorized_credentials array"))
      else for_elements credential_element v 0 (array_size v)
