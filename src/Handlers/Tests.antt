-- ===== src/Handlers/Tests.antt =====
-- include/rpcspec/handlers: requests parsed by the specs, and the theorems on the specs applied.
use rpc_spec.Prelude.{ℕ, arith, Option, ◌≡◌, refl, inl, none, some, ◌^◌, str, false}
use rpc_spec.Prelude.Strings.{text_eq}
use rpc_spec.Prelude.Int.{ℤ, pos, negsuc}
use rpc_spec.Json.{
  int64, string, array, cons, nil, count_items, at, object, end, member, find, assign,
}
use rpc_spec.Status.{
  clio, xrpld, ok, success, invalid_params, rpc_src_cur_malformed, rpc_src_isr_malformed,
}
use rpc_spec.View.{FieldView, child, element, ObjectView, root_child, put_root, set}
use rpc_spec.Field.{process_field, run_processors, call_if_processor, skips_field}
use rpc_spec.Combinators.{
  if_server_clio, if_server_xrpld, server_conditional, verify_inners, modify_inners,
  with_custom_error_verify,
}
use rpc_spec.Validators.Chars.{is_alnum}
use rpc_spec.Validators.Libxrpl.{
  account_from_string_strict, parse_base58_account, parse_base58_public_key,
}
use rpc_spec.Validators.Numeric.{min, clamp, numeric_value}
use rpc_spec.Validators.Presence.{required, type_of}
use rpc_spec.Validators.Samples.{sample_libxrpl}
use rpc_spec.Converters.{json_bool_of, account_id, as_uint32_value}
use rpc_spec.Converters.Deferred.{value, failed, missing, deferred_account, deferred_account_id}
use rpc_spec.Ledger.{
  unspecified, ledger_selector, parse_ledger, xrpld_ledger_from_request, xrpld_ledger_from_views,
}
use rpc_spec.Spec.{
  for_each_effective_field, walk, build_override_plan, plan_from, is_first, dispatch, last_index,
}
use rpc_spec.Typed.{parse, parse_one, parse_into, finish_field, apply_defaults, if_absent_skips}
use rpc_spec.Validators.Accounts.{account_base58, account_format, issuer, for_elements}
use rpc_spec.Validators.Numeric.{clamp_as, target_int32}
use rpc_spec.Validators.Presence.{custom_validator}
use rpc_spec.Handlers.GatewayBalances.{get_account_id, hot_wallet, hot_wallets_value}
use rpc_spec.Handlers.GatewayBalances.Wallets.{IsSetOf, hot_wallets_value-IsSetOf}
use rpc_spec.Handlers.BookOffers.{taker_asset, taker_validator}
use rpc_spec.Handlers.BookOffers.Takers.{Accepted, Gives, taker_asset-Gives}
use rpc_spec.Handlers.AccountTx.{delegate_validator, delegate_value, int32_bound_value}
use rpc_spec.Handlers.AccountTx.Converted.{
  IsRead, delegate_value-IsRead, IsBound, int32_bound_value-IsBound,
}
use rpc_spec.Combinators.{if_type_modify, section_modify, run_sub_fields}
use rpc_spec.Field.{process_nested}
use rpc_spec.View.{put_child}
use rpc_spec.Handlers.LedgerEntry.{Locator, OfferEntry, offer_value}
use rpc_spec.Handlers.LedgerEntry.Fields.{
  offer_items, offer_members, malformed_request_int, malformed_request_hex_string,
}
use rpc_spec.Handlers.LedgerEntry.Members.{HasValue, Reads}
use rpc_spec.Handlers.LedgerEntry.Entries.{Locates, IsEntry, value_of, items_of}
use rpc_spec.Handlers.LedgerEntry.Located.{value_of-Reads}
use rpc_spec.Handlers.Limits.{paged_limit}
use rpc_spec.Handlers.AccountNfts
use rpc_spec.Handlers.AccountInfo
use rpc_spec.Handlers.AccountInfo.Chosen.{NamesAccount, parse-NamesAccount}
use rpc_spec.Handlers.Pages.{PagedCommand, paged_fields, IsLimit, limit_of-IsLimit}

-- `{"account": "r1", "limit": 5000}`
abbrev large_page : ObjectView
large_page = record {
  document =
      object
        (member (str "account") (string (str "r1")) (member (str "limit") (int64 (pos 5000)) end));
}

abbrev no_nfts : AccountNfts.Input sample_libxrpl
no_nfts = record { ledger = unspecified; account = 0; limit = 0; marker = none }

abbrev nfts_input : AccountNfts.Input sample_libxrpl
nfts_input = record { ledger = unspecified; account = 1; limit = 400; marker = none }

parse-large_page :
    (parse no_nfts (AccountNfts.input_spec clio sample_libxrpl) large_page).0 ≡ ok nfts_input
unfolding parse for_each_effective_field walk build_override_plan plan_from is_first dispatch
    last_index text_eq parse_one parse_into finish_field apply_defaults skips_field run_processors
    call_if_processor required root_child put_root find assign str AccountNfts.input_spec
    if_server_clio if_server_xrpld server_conditional verify_inners modify_inners type_of min clamp
    numeric_value set account_id as_uint32_value ledger_selector parse_ledger paged_limit
    account_from_string_strict parse_base58_account parse_base58_public_key is_alnum
parse-large_page = refl

limit_of-IsLimit_example : IsLimit PagedCommand.account_nfts clio 400
unfolding paged_fields
limit_of-IsLimit_example =
    limit_of-IsLimit PagedCommand.account_nfts clio sample_libxrpl no_nfts large_page nfts_input
      parse-large_page

-- `{"ident": "r1"}`
abbrev by_ident_only : ObjectView
by_ident_only = record { document = object (member (str "ident") (string (str "r1")) end) }

abbrev no_info : AccountInfo.Input sample_libxrpl
no_info = record {
  ledger = unspecified;
  account = failed missing;
  signer_lists = json_bool_of false;
  queue = json_bool_of false;
}

abbrev info_input : AccountInfo.Input sample_libxrpl
info_input = record no_info { account = value 1 }

parse-by_ident_only :
    (parse no_info (AccountInfo.input_spec xrpld sample_libxrpl) by_ident_only).0 ≡ ok info_input
unfolding parse for_each_effective_field walk build_override_plan plan_from is_first dispatch
    last_index text_eq parse_one parse_into finish_field apply_defaults skips_field run_processors
    call_if_processor required root_child put_root find assign str AccountInfo.input_spec
    if_server_clio if_server_xrpld server_conditional verify_inners modify_inners
    with_custom_error_verify account_id deferred_account deferred_account_id ledger_selector
    parse_ledger xrpld_ledger_from_request xrpld_ledger_from_views if_absent_skips process_field
parse-by_ident_only = refl

parse-NamesAccount_example : NamesAccount xrpld sample_libxrpl no_info by_ident_only (value 1)
parse-NamesAccount_example =
    parse-NamesAccount sample_libxrpl xrpld no_info by_ident_only info_input
      (inl parse-by_ident_only)

-- `["r1", "r1"]`
abbrev wallets : FieldView
wallets = record {
  key = str "hotwallet";
  value = some (array (cons (string (str "r1")) (cons (string (str "r1")) nil)));
}

wallets_accepted : hot_wallet sample_libxrpl invalid_params wallets ≡ success
unfolding hot_wallet custom_validator get_account_id for_elements element parse_base58_account
    parse_base58_public_key is_alnum str count_items at
wallets_accepted = refl

sample_order :
    (a b : ℕ)
    → sample_libxrpl.account_less a b ≡ false
    → sample_libxrpl.account_less b a ≡ false
    → a ≡ b
sample_order a b h k = ground arith

-- The two equal accounts of the array are one of the set.
hot_wallets_value-IsSetOf_example :
    IsSetOf sample_libxrpl wallets (hot_wallets_value sample_libxrpl wallets)
hot_wallets_value-IsSetOf_example =
    hot_wallets_value-IsSetOf sample_libxrpl sample_order invalid_params wallets refl
      wallets_accepted

-- `{"currency": "USD", "issuer": "r1"}`
abbrev taker_pays : FieldView
taker_pays = record {
  key = str "taker_pays";
  value = some (
      object (
        member (str "currency") (string (str "USD"))
          (member (str "issuer") (string (str "r1")) end)));
}

taker_pays-Accepted : Accepted clio sample_libxrpl taker_pays
unfolding taker_validator custom_validator type_of issuer child find str text_eq
taker_pays-Accepted = (refl, refl, refl)

taker_asset-Gives_example :
    Gives sample_libxrpl rpc_src_cur_malformed rpc_src_isr_malformed clio
      (taker_asset sample_libxrpl rpc_src_cur_malformed rpc_src_isr_malformed clio taker_pays)
taker_asset-Gives_example =
    taker_asset-Gives sample_libxrpl rpc_src_cur_malformed rpc_src_isr_malformed clio taker_pays
      refl taker_pays-Accepted

-- `{"delegate_filter": "actor", "counter_party": "r1"}`
abbrev delegate : FieldView
delegate = record {
  key = str "delegate";
  value = some (
      object (
        member (str "delegate_filter") (string (str "actor"))
          (member (str "counter_party") (string (str "r1")) end)));
}

delegate_accepted : delegate_validator xrpld sample_libxrpl delegate ≡ success
unfolding delegate_validator custom_validator account_format account_from_string_strict
    parse_base58_account parse_base58_public_key is_alnum child find str text_eq
delegate_accepted = refl

delegate_value-IsRead_example : IsRead delegate (delegate_value delegate)
delegate_value-IsRead_example =
    delegate_value-IsRead xrpld sample_libxrpl delegate refl delegate_accepted

-- A bound beyond 32 bits.
abbrev early_bound : FieldView
early_bound = record { key = str "ledger_index_min"; value = some (int64 (negsuc (2 ^ 40))) }

int32_bound_value-IsBound_example :
    (o : Option ℤ) × (int32_bound_value (clamp_as target_int32 early_bound).1 ≡ some o)
    × IsBound (negsuc (2 ^ 40)) o
unfolding type_of
int32_bound_value-IsBound_example =
    int32_bound_value-IsBound early_bound (negsuc (2 ^ 40)) refl refl refl

-- `{"account": "r1", "seq": 7}`
abbrev offer : FieldView
offer = record {
  key = str "offer";
  value = some (
      object (member (str "account") (string (str "r1")) (member (str "seq") (int64 (pos 7)) end)));
}

offer_accepted :
    run_processors
      (offer_items xrpld sample_libxrpl
        (Locator sample_libxrpl.HexNumber (OfferEntry sample_libxrpl)))
      offer
    ≡ (success, offer)
unfolding run_processors call_if_processor offer_items offer_members malformed_request_int
    malformed_request_hex_string if_type_modify section_modify run_sub_fields process_nested
    with_custom_error_verify account_base58 parse_base58_account is_alnum type_of required child
    put_child find assign str text_eq
offer_accepted = refl

value_of-Reads_example :
    HasValue
      (Reads sample_libxrpl (IsEntry sample_libxrpl Locates.offer offer) offer)
      (offer_value sample_libxrpl offer)
unfolding value_of items_of
value_of-Reads_example =
    value_of-Reads xrpld sample_libxrpl Locates.offer offer offer refl offer_accepted
