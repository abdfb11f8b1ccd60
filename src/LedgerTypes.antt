-- ===== src/LedgerTypes.antt =====
-- include/rpcspec/LedgerTypes.hpp: the table of ledger objects, and the lookup of one by its name.
pub mod Lookup
mod Tests
use rpc_spec.Prelude.{
  Text, Bool, true, false, not, Option, none, some, List, [], ◌∷◌, map, str, text_eq, if◌then◌else◌,
}
use rpc_spec.Validators.Chars.{to_lower}

pub data LedgerCategory : Type 0 where
  account_owned chain deletion_blocker : LedgerCategory

-- `xrpl::LedgerEntryType`: the types that the table names, and `ltANY`.
pub data LedgerEntryType : Type 0 where
  lt_any : LedgerEntryType
  lt_account_root lt_amendments lt_check lt_deposit_preauth lt_dir_node lt_escrow : LedgerEntryType
  lt_fee_settings lt_ledger_hashes lt_offer lt_paychan lt_signer_list lt_ripple_state :
      LedgerEntryType
  lt_ticket lt_nftoken_offer lt_nftoken_page lt_amm lt_bridge lt_xchain_owned_claim_id :
      LedgerEntryType
  lt_xchain_owned_create_account_claim_id lt_did lt_oracle lt_credential lt_vault : LedgerEntryType
  lt_loan_broker lt_loan lt_negative_unl lt_mptoken_issuance lt_mptoken : LedgerEntryType
  lt_permissioned_domain lt_delegate lt_sponsorship : LedgerEntryType

pub record LedgerTypeEntry : Type 0 where
  pub name : Text
  pub rpc_name : Text
  pub type : LedgerEntryType
  pub category : LedgerCategory

pub record LedgerTypeInfo : Type 0 where
  pub type : LedgerEntryType
  pub category : LedgerCategory

abbrev pub row : Text → Text → LedgerEntryType → LedgerCategory → LedgerTypeEntry
row name rpc_name type category = record {
  name = name;
  rpc_name = rpc_name;
  type = type;
  category = category;
}

-- `kLedgerTypesTable`
unfoldable abbrev pub ledger_types_table : List LedgerTypeEntry
unfolding str
ledger_types_table =
    row (str "AccountRoot") (str "account") lt_account_root account_owned
    ∷ row (str "Amendments") (str "amendments") lt_amendments chain
    ∷ row (str "Check") (str "check") lt_check deletion_blocker
    ∷ row (str "DepositPreauth") (str "deposit_preauth") lt_deposit_preauth account_owned
    ∷ row (str "DirectoryNode") (str "directory") lt_dir_node chain
    ∷ row (str "Escrow") (str "escrow") lt_escrow deletion_blocker
    ∷ row (str "FeeSettings") (str "fee") lt_fee_settings chain
    ∷ row (str "LedgerHashes") (str "hashes") lt_ledger_hashes chain
    ∷ row (str "Offer") (str "offer") lt_offer account_owned
    ∷ row (str "PayChannel") (str "payment_channel") lt_paychan deletion_blocker
    ∷ row (str "SignerList") (str "signer_list") lt_signer_list account_owned
    ∷ row (str "RippleState") (str "state") lt_ripple_state deletion_blocker
    ∷ row (str "Ticket") (str "ticket") lt_ticket account_owned
    ∷ row (str "NFTokenOffer") (str "nft_offer") lt_nftoken_offer account_owned
    ∷ row (str "NFTokenPage") (str "nft_page") lt_nftoken_page deletion_blocker
    ∷ row (str "AMM") (str "amm") lt_amm account_owned
    ∷ row (str "Bridge") (str "bridge") lt_bridge deletion_blocker
    ∷ row (str "XChainOwnedClaimID") (str "xchain_owned_claim_id") lt_xchain_owned_claim_id
        deletion_blocker
    ∷ row (str "XChainOwnedCreateAccountClaimID") (str "xchain_owned_create_account_claim_id")
        lt_xchain_owned_create_account_claim_id deletion_blocker
    ∷ row (str "DID") (str "did") lt_did account_owned
    ∷ row (str "Oracle") (str "oracle") lt_oracle account_owned
    ∷ row (str "Credential") (str "credential") lt_credential account_owned
    ∷ row (str "Vault") (str "vault") lt_vault account_owned
    ∷ row (str "LoanBroker") (str "loan_broker") lt_loan_broker account_owned
    ∷ row (str "Loan") (str "loan") lt_loan deletion_blocker
    ∷ row (str "NegativeUNL") (str "nunl") lt_negative_unl chain
    ∷ row (str "MPTokenIssuance") (str "mpt_issuance") lt_mptoken_issuance deletion_blocker
    ∷ row (str "MPToken") (str "mptoken") lt_mptoken deletion_blocker
    ∷ row (str "PermissionedDomain") (str "permissioned_domain") lt_permissioned_domain
        deletion_blocker
    ∷ row (str "Delegate") (str "delegate") lt_delegate account_owned
    ∷ row (str "Sponsorship") (str "sponsorship") lt_sponsorship deletion_blocker
    ∷ []

abbrev pub info_of : LedgerTypeEntry → LedgerTypeInfo
info_of e = record { type = e.type; category = e.category }

abbrev pub lower_text : Text → Text
lower_text s = map to_lower s

-- The maps that are built from the table: `emplace` keeps the first row with a key, so the lookup
-- gives the first.
unfoldable pub find_row :
    (LedgerTypeEntry → Text) → Text → List LedgerTypeEntry → Option LedgerTypeInfo
find_row key s [] = none
find_row key s (e ∷ table) =
    let later = find_row key s table in if text_eq (key e) s then some (info_of e) else later

abbrev pub or_else_info : Option LedgerTypeInfo → Option LedgerTypeInfo → Option LedgerTypeInfo
or_else_info none later = later
or_else_info (some e) later = some e

-- `ledgerTypeInfoFromStr`, over a table.
unfoldable pub ledger_type_info_in : List LedgerTypeEntry → Text → Option LedgerTypeInfo
unfolding find_row to_lower
ledger_type_info_in table entry_name =
    or_else_info (find_row (λ e. e.rpc_name) entry_name table)
      (find_row (λ e. lower_text e.name) (lower_text entry_name) table)

unfoldable pub ledger_type_info_from_str : Text → Option LedgerTypeInfo
unfolding ledger_type_info_in
ledger_type_info_from_str entry_name = ledger_type_info_in ledger_types_table entry_name

-- `ledgerEntryTypeFromStr`
abbrev pub type_or_any : Option LedgerTypeInfo → LedgerEntryType
type_or_any none = lt_any
type_or_any (some info) = info.type

unfoldable pub ledger_entry_type_from_str : Text → LedgerEntryType
unfolding ledger_type_info_from_str
ledger_entry_type_from_str name = type_or_any (ledger_type_info_from_str name)

-- `accountOwnedLedgerTypeFromStr`
abbrev pub is_chain : LedgerCategory → Bool
is_chain chain = true
is_chain _ = false

abbrev pub owned_or_any : Option LedgerTypeInfo → LedgerEntryType
owned_or_any none = lt_any
owned_or_any (some info) = if is_chain info.category then lt_any else info.type

unfoldable pub account_owned_ledger_type_from_str : Text → LedgerEntryType
unfolding ledger_type_info_from_str
account_owned_ledger_type_from_str name = owned_or_any (ledger_type_info_from_str name)

-- `type == xrpl::ltANY`
abbrev pub is_any : LedgerEntryType → Bool
is_any lt_any = true
is_any _ = false
