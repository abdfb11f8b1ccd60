-- ===== src/Converters/Deferred.antt =====
-- include/rpcspec/DeferredTypes.hpp, Account.hpp and Asset.hpp: values that a handler judges itself,
-- since the error depends on the rest of its request.
pub mod Accounts
pub mod Assets
use rpc_spec.Prelude.{
  ℕ, ◌≡◌, ◌↔◌, refl, Text, Bool, true, false, not, ◌&&◌, ◌||◌, Option, none, some, str, arith,
  if◌then◌else◌, Option-cases, Bool-cases, inl, inr,
}
use rpc_spec.Status.{Server, clio, xrpld, is_xrpld_build, Status, Result, ok, unexpected}
use rpc_spec.View.{FieldView, present, is_string, as_string, is_object, is_null, child}
use rpc_spec.Validators.Libxrpl.{Libxrpl, hex_from}
use rpc_spec.Converters.{account_id, account_id_act_malformed}

-- `DeferredError`
pub data DeferredError : Type 0 where
  missing malformed invalid : DeferredError

-- `Deferred<T>`
pub data Deferred (A : Type 0) : Type 0 where
  value : A → Deferred A
  failed : DeferredError → Deferred A

-- `NonStringAccount`
pub data NonStringAccount : Type 0 where
  fails deferred : NonStringAccount

abbrev pub is_deferred : NonStringAccount → Bool
is_deferred fails = false
is_deferred deferred = true

-- `xrpl::Asset`: XRP, an issue of a currency, or an issue of a multi-purpose token.
pub data Asset (x : Libxrpl) : Type 0 where
  xrp_issue : Asset x
  issue : x.Currency → x.AccountId → Asset x
  mpt_issue : x.HexNumber → Asset x

module _ (x : Libxrpl) where
  abbrev pub text_or {ℓ} : {A : Type ℓ} → A → (Text → A) → FieldView → A
  text_or refusal f v = elim (as_string v) [ none ↦ refusal | some s ↦ f s ]

  abbrev pub issued_by : x.Currency → Option x.AccountId → Deferred (Asset x)
  issued_by c none = failed malformed
  issued_by c (some a) =
      if x.is_no_account a || x.is_xrp_account a then failed malformed else value (issue c a)

  abbrev pub asset_of_currency : FieldView → Option x.Currency → Deferred (Asset x)
  asset_of_currency issuer_view none = failed malformed
  asset_of_currency issuer_view (some c) =
      if x.is_bad_currency c || x.is_no_currency c
      then failed malformed
      else if x.is_xrp c
      then (if present issuer_view && not (is_null issuer_view)
          then failed malformed
          else value xrp_issue)
      else if not (is_string issuer_view)
      then failed malformed
      else text_or (failed malformed) (λ s. issued_by c (x.parse_account_id s)) issuer_view

  abbrev pub asset_of_mpt : Option x.HexNumber → Deferred (Asset x)
  asset_of_mpt none = failed malformed
  asset_of_mpt (some n) = value (mpt_issue n)

  abbrev pub asset_of_members : FieldView → FieldView → FieldView → Deferred (Asset x)
  asset_of_members currency_view mpt_view issuer_view =
      if present currency_view
      then (if present mpt_view || not (is_string currency_view)
          then failed malformed
          else text_or (failed malformed) (λ s. asset_of_currency issuer_view (x.to_currency s))
              currency_view)
      else if not (present mpt_view) || present issuer_view || not (is_string mpt_view)
      then failed malformed
      else text_or (failed malformed) (λ s. asset_of_mpt (hex_from x 192 s)) mpt_view

  -- `assetFromView`
  unfoldable pub asset_from_view : FieldView → Deferred (Asset x)
  asset_from_view v =
      if not (is_object v)
      then failed malformed
      else asset_of_members (child v (str "currency")) (child v (str "mpt_issuance_id"))
          (child v (str "issuer"))

module _ (server : Server) (x : Libxrpl) where
  abbrev pub deferred_result :
      NonStringAccount → FieldView → Result x.AccountId → Result (Deferred x.AccountId)
  deferred_result non_string v (ok a) = ok (value a)
  deferred_result non_string v (unexpected e) =
      if is_string v || is_deferred non_string then ok (failed malformed) else unexpected e

  abbrev pub carried : Result x.AccountId → Result (Deferred x.AccountId)
  carried (ok a) = ok (value a)
  carried (unexpected e) = unexpected e

  -- `DeferredAccountIdConverter<ClioConv>`
  unfoldable pub deferred_account :
      (FieldView → Result x.AccountId)
      → NonStringAccount
      → FieldView
      → Result (Deferred x.AccountId)
  unfolding account_id
  deferred_account clio_conv non_string v =
      if is_xrpld_build server
      then deferred_result non_string v (account_id server x v)
      else carried (clio_conv v)

  -- `deferredAccountId` and `deferredAccountIdActMalformed`
  unfoldable pub deferred_account_id : FieldView → Result (Deferred x.AccountId)
  unfolding deferred_account account_id
  deferred_account_id v = deferred_account (account_id server x) fails v

  unfoldable pub deferred_account_id_act_malformed : FieldView → Result (Deferred x.AccountId)
  unfolding deferred_account account_id_act_malformed
  deferred_account_id_act_malformed v =
      deferred_account (account_id_act_malformed server x) deferred v

  abbrev pub carried_asset : Result (Asset x) → Result (Deferred (Asset x))
  carried_asset (ok a) = ok (value a)
  carried_asset (unexpected e) = unexpected e

  -- `DeferredAssetConverter<ClioConv>`
  unfoldable pub deferred_asset :
      (FieldView → Result (Asset x)) → FieldView → Result (Deferred (Asset x))
  unfolding asset_from_view
  deferred_asset clio_conv v =
      if is_xrpld_build server then ok (asset_from_view x v) else carried_asset (clio_conv v)
