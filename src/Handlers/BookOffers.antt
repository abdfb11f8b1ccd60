-- ===== src/Handlers/BookOffers.antt =====
-- include/rpcspec/handlers/book_offers: the assets and the account of a request for offers. Its
-- list of fields is not modelled, since the converters of assets can throw.
pub mod Takers
use rpc_spec.Prelude.{
  ℕ, Text, Bool, true, false, ◌||◌, ◌&&◌, not, Option, none, some, List, [], ◌∷◌, ◌++◌, str,
  if◌then◌else◌,
}
use rpc_spec.Status.{
  Server, is_xrpld_build, XrpldError, xrpld_error, invalid_params, status, status_with, MaybeError,
  success, Result, ok, unexpected,
}
use rpc_spec.View.{FieldView, present, is_null, is_string, is_object, as_string, child}
use rpc_spec.Validators.Accounts.{reject_with}
use rpc_spec.Validators.Presence.{custom_validator}
use rpc_spec.Validators.Libxrpl.{Libxrpl, hex_from, account_from_string_strict}
use rpc_spec.Converters.{from_string, or_status}
use rpc_spec.Converters.Deferred.{Asset, xrp_issue, issue, mpt_issue}

-- `"Invalid field '" + key + rest`
abbrev pub invalid_field : Text → Text → Text
invalid_field key rest = str "Invalid field '" ++ (key ++ rest)

-- `"Unneeded field '" + key + ".issuer' for XRP currency specification."`
abbrev pub unneeded_issuer : Text → Text
unneeded_issuer key =
    str "Unneeded field '" ++ (key ++ str ".issuer' for XRP currency specification.")

module _ (x : Libxrpl) (amt_err isr_err : XrpldError) where
  -- The account of an issue: `xrpAccount()` where the field has no issuer.
  abbrev pub issuer_account : Text → Option x.AccountId → Result x.AccountId
  issuer_account key none =
      unexpected
        (status_with (xrpld_error isr_err) (invalid_field key (str ".issuer', bad issuer.")))
  issuer_account key (some a) =
      if x.is_no_account a
      then unexpected (
          status_with (xrpld_error isr_err)
            (invalid_field key (str ".issuer', bad issuer account one.")))
      else ok a

  abbrev pub xrpld_issuer : Text → FieldView → Result x.AccountId
  xrpld_issuer key issuer_view =
      if not (present issuer_view)
      then ok x.xrp_account
      else from_string
          (unexpected
            (status_with invalid_params (invalid_field key (str ".issuer', not string."))))
          (λ s. issuer_account key (x.to_issuer s)) issuer_view

  abbrev pub xrpld_issue : Text → x.Currency → Result x.AccountId → Result (Asset x)
  xrpld_issue key c (unexpected e) = unexpected e
  xrpld_issue key c (ok a) =
      if x.is_xrp c && not (x.is_xrp_account a)
      then unexpected (status_with (xrpld_error isr_err) (unneeded_issuer key))
      else if not (x.is_xrp c) && x.is_xrp_account a
      then unexpected (
          status_with (xrpld_error isr_err)
            (invalid_field key (str ".issuer', expected non-XRP issuer.")))
      else ok (issue c a)

  abbrev pub xrpld_asset : Text → FieldView → Option x.Currency → Result (Asset x)
  xrpld_asset key issuer_view none =
      unexpected
        (status_with (xrpld_error amt_err) (invalid_field key (str ".currency', bad currency.")))
  xrpld_asset key issuer_view (some c) = xrpld_issue key c (xrpld_issuer key issuer_view)

  -- `parseXrpld`; `none` is the exception of `asString` on a value that is no string.
  unfoldable pub parse_xrpld : FieldView → Option (Result (Asset x))
  unfolding str
  parse_xrpld v = elim (as_string (child v (str "currency"))) [
    | none ↦ none
    | some s ↦ some (xrpld_asset v.key (child v (str "issuer")) (x.to_currency s))
  ]

  abbrev pub clio_issue : x.Currency → Option x.AccountId → Result (Asset x)
  clio_issue c none = unexpected (status (xrpld_error isr_err))
  clio_issue c (some a) = ok (issue c a)

  abbrev pub clio_asset : Text → FieldView → Option x.Currency → Option (Result (Asset x))
  clio_asset key issuer_view none = some (unexpected (status (xrpld_error isr_err)))
  clio_asset key issuer_view (some c) =
      if x.is_xrp c
      then some (
          if present issuer_view
          then unexpected (status_with (xrpld_error isr_err) (unneeded_issuer key))
          else ok xrp_issue)
      else if not (present issuer_view)
      then some (ok (issue c x.xrp_account))
      else elim (as_string issuer_view) [
        | none ↦ none
        | some s ↦ some (clio_issue c (x.to_issuer s))
      ]

  -- `parseClio`
  unfoldable pub parse_clio : FieldView → Option (Result (Asset x))
  unfolding str
  parse_clio v = elim (as_string (child v (str "currency"))) [
    | none ↦ none
    | some s ↦ clio_asset v.key (child v (str "issuer")) (x.to_currency s)
  ]

  abbrev pub mpt_asset : Option x.HexNumber → Result (Asset x)
  mpt_asset none = unexpected (status (xrpld_error isr_err))
  mpt_asset (some n) = ok (mpt_issue n)

  -- `TakerAssetConverter<AmtErr, IsrErr>::parse`
  unfoldable pub taker_asset : Server → FieldView → Option (Result (Asset x))
  unfolding parse_xrpld parse_clio
  taker_asset server v =
      if present (child v (str "mpt_issuance_id"))
      then elim (as_string (child v (str "mpt_issuance_id"))) [
        | none ↦ none
        | some s ↦ some (mpt_asset (hex_from x 192 s))
      ]
      else if is_xrpld_build server
      then parse_xrpld v
      else parse_clio v

module _ (server : Server) where
  -- `TakerConverter::parse`
  unfoldable pub taker_account : (x : Libxrpl) → FieldView → Result x.AccountId
  unfolding account_from_string_strict str
  taker_account x v =
      from_string (unexpected (status_with invalid_params (str "Invalid field 'taker'.")))
        (λ s.
          or_status (status_with invalid_params (str "Invalid field 'taker'.")) (
            if is_xrpld_build server then x.parse_account_id s else account_from_string_strict x s))
        v

  abbrev pub check_members : Text → FieldView → FieldView → FieldView → MaybeError
  check_members key currency_view mpt_view issuer_view =
      if not (present currency_view) && not (present mpt_view)
      then reject_with invalid_params (str "Missing field '" ++ (key ++ str ".currency'."))
      else if present mpt_view && (present currency_view || present issuer_view)
      then reject_with invalid_params (invalid_field key (str "'."))
      else if present currency_view && not (is_string currency_view)
      then reject_with invalid_params (invalid_field key (str ".currency', not string."))
      else if present mpt_view && not (is_string mpt_view)
      then reject_with invalid_params (
          invalid_field key (
            (if is_xrpld_build server then str ".currency" else str ".mpt_issuance_id")
            ++ str "', not string."))
      else success

  abbrev pub checked_members : FieldView → MaybeError
  checked_members v =
      check_members v.key (child v (str "currency")) (child v (str "mpt_issuance_id"))
        (child v (str "issuer"))

  abbrev pub check_taker : FieldView → MaybeError
  check_taker v =
      if is_xrpld_build server
      then (if not (is_null v) && not (is_object v)
          then reject_with invalid_params (invalid_field v.key (str "', not object."))
          else checked_members v)
      else if not (is_object v)
      then success
      else checked_members v

  -- `kTakerValidator`
  unfoldable pub taker_validator : FieldView → MaybeError
  unfolding str
  taker_validator v = custom_validator check_taker v
