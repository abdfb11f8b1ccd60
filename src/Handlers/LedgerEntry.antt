-- ===== src/Handlers/LedgerEntry.antt =====
-- include/rpcspec/handlers/ledger_entry: the converters of the locators that are either the key of a
-- ledger entry or an object that names it. Fields has the items of their fields, but for those of
-- oracle. The other converters and the list of fields are not modelled.
pub mod Fields
pub mod Sections
pub mod Entries
pub mod Members
pub mod Located
use rpc_spec.Prelude.{ℕ, Text, Option, none, some, str, if◌then◌else◌}
use rpc_spec.View.{FieldView, is_string, as_uint32, child}
use rpc_spec.Validators.Chars.{c_str}
use rpc_spec.Validators.Libxrpl.{Libxrpl, hex_from, account_from_validated, uint256_from_validated}
use rpc_spec.Converters.{element_text}

-- `std::variant<xrpl::uint256, Entry>`
pub data Locator (K E : Type 0) : Type 0 where
  direct_key : K → Locator K E
  unpacked : E → Locator K E

pub record OfferEntry (x : Libxrpl) : Type 0 where
  pub account : x.AccountId
  pub seq : ℕ

pub record EscrowEntry (x : Libxrpl) : Type 0 where
  pub owner : x.AccountId
  pub seq : ℕ

pub record TicketEntry (x : Libxrpl) : Type 0 where
  pub account : x.AccountId
  pub ticket_seq : ℕ

pub record PermissionedDomainEntry (x : Libxrpl) : Type 0 where
  pub account : x.AccountId
  pub seq : ℕ

pub record VaultEntry (x : Libxrpl) : Type 0 where
  pub owner : x.AccountId
  pub seq : ℕ

pub record LoanBrokerEntry (x : Libxrpl) : Type 0 where
  pub owner : x.AccountId
  pub seq : ℕ

pub record LoanEntry (x : Libxrpl) : Type 0 where
  pub loan_broker_id : x.HexNumber
  pub loan_seq : ℕ

pub record DelegateEntry (x : Libxrpl) : Type 0 where
  pub account : x.AccountId
  pub authorize : x.AccountId

pub record SponsorshipEntry (x : Libxrpl) : Type 0 where
  pub sponsor : x.AccountId
  pub sponsee : x.AccountId

pub record MptokenEntry (x : Libxrpl) : Type 0 where
  pub account : x.AccountId
  pub mpt_issuance_id : x.HexNumber

pub record OracleEntry (x : Libxrpl) : Type 0 where
  pub account : x.AccountId
  pub oracle_document_id : ℕ

pub record CredentialEntry (x : Libxrpl) : Type 0 where
  pub subject : x.AccountId
  pub issuer : x.AccountId
  pub credential_type : Text

-- Both values, or the first exception.
abbrev pub both : {A B C : Type 0} → (A → B → C) → Option A → Option B → Option C
both f (some a) (some b) = some (f a b)
both f _ _ = none

module _ (x : Libxrpl) where
  -- `accountFromValidated(fieldView.child(key).asString())` and the like; `none` is an exception.
  unfoldable pub account_member : FieldView → Text → Option x.AccountId
  unfolding account_from_validated
  account_member v key = element_text (account_from_validated x) (child v key)

  unfoldable pub hex_member : ℕ → FieldView → Text → Option x.HexNumber
  unfolding c_str
  hex_member bits v key = element_text (λ s. hex_from x bits (c_str s)) (child v key)

  unfoldable pub text_member : FieldView → Text → Option Text
  text_member v key = element_text (λ s. some s) (child v key)

  unfoldable pub uint32_member : FieldView → Text → Option ℕ
  uint32_member v key = as_uint32 (child v key)

  abbrev pub as_direct : {E : Type 0} → Option x.HexNumber → Option (Locator x.HexNumber E)
  as_direct none = none
  as_direct (some k) = some (direct_key k)

  abbrev pub as_unpacked : {E : Type 0} → Option E → Option (Locator x.HexNumber E)
  as_unpacked none = none
  as_unpacked (some e) = some (unpacked e)

  -- A string is the key; from any other value the entry is read.
  unfoldable pub located : {E : Type 0} → FieldView → Option E → Option (Locator x.HexNumber E)
  unfolding uint256_from_validated
  located v entry =
      if is_string v
      then as_direct (element_text (uint256_from_validated x) v)
      else as_unpacked entry

  -- `OfferConverter::parse`
  unfoldable pub offer_value : FieldView → Option (Locator x.HexNumber (OfferEntry x))
  unfolding located account_member uint32_member str
  offer_value v = located v (
      both (λ a b. record { account = a; seq = b }) (account_member v (str "account"))
        (uint32_member v (str "seq")))

  -- `EscrowConverter::parse`
  unfoldable pub escrow_value : FieldView → Option (Locator x.HexNumber (EscrowEntry x))
  unfolding located account_member uint32_member str
  escrow_value v = located v (
      both (λ a b. record { owner = a; seq = b }) (account_member v (str "owner"))
        (uint32_member v (str "seq")))

  -- `TicketConverter::parse`
  unfoldable pub ticket_value : FieldView → Option (Locator x.HexNumber (TicketEntry x))
  unfolding located account_member uint32_member str
  ticket_value v = located v (
      both (λ a b. record { account = a; ticket_seq = b }) (account_member v (str "account"))
        (uint32_member v (str "ticket_seq")))

  -- `PermissionedDomainConverter::parse`
  unfoldable pub permissioned_domain_value :
      FieldView → Option (Locator x.HexNumber (PermissionedDomainEntry x))
  unfolding located account_member uint32_member str
  permissioned_domain_value v = located v (
      both (λ a b. record { account = a; seq = b }) (account_member v (str "account"))
        (uint32_member v (str "seq")))

  -- `VaultConverter::parse`
  unfoldable pub vault_value : FieldView → Option (Locator x.HexNumber (VaultEntry x))
  unfolding located account_member uint32_member str
  vault_value v = located v (
      both (λ a b. record { owner = a; seq = b }) (account_member v (str "owner"))
        (uint32_member v (str "seq")))

  -- `LoanBrokerConverter::parse`
  unfoldable pub loan_broker_value : FieldView → Option (Locator x.HexNumber (LoanBrokerEntry x))
  unfolding located account_member uint32_member str
  loan_broker_value v = located v (
      both (λ a b. record { owner = a; seq = b }) (account_member v (str "owner"))
        (uint32_member v (str "seq")))

  -- `LoanConverter::parse`
  unfoldable pub loan_value : FieldView → Option (Locator x.HexNumber (LoanEntry x))
  unfolding located hex_member uint32_member str
  loan_value v = located v (
      both (λ a b. record { loan_broker_id = a; loan_seq = b })
        (hex_member 256 v (str "loan_broker_id")) (uint32_member v (str "loan_seq")))

  -- `DelegateConverter::parse`
  unfoldable pub delegate_value : FieldView → Option (Locator x.HexNumber (DelegateEntry x))
  unfolding located account_member str
  delegate_value v = located v (
      both (λ a b. record { account = a; authorize = b }) (account_member v (str "account"))
        (account_member v (str "authorize")))

  -- `SponsorshipConverter::parse`
  unfoldable pub sponsorship_value : FieldView → Option (Locator x.HexNumber (SponsorshipEntry x))
  unfolding located account_member str
  sponsorship_value v = located v (
      both (λ a b. record { sponsor = a; sponsee = b }) (account_member v (str "sponsor"))
        (account_member v (str "sponsee")))

  -- `MptokenConverter::parse`
  unfoldable pub mptoken_value : FieldView → Option (Locator x.HexNumber (MptokenEntry x))
  unfolding located account_member hex_member str
  mptoken_value v = located v (
      both (λ a b. record { account = a; mpt_issuance_id = b }) (account_member v (str "account"))
        (hex_member 192 v (str "mpt_issuance_id")))

  -- `OracleConverter::parse`
  unfoldable pub oracle_value : FieldView → Option (Locator x.HexNumber (OracleEntry x))
  unfolding located account_member uint32_member str
  oracle_value v = located v (
      both (λ a b. record { account = a; oracle_document_id = b })
        (account_member v (str "account")) (uint32_member v (str "oracle_document_id")))

  -- `CredentialConverter::parse`
  unfoldable pub credential_value : FieldView → Option (Locator x.HexNumber (CredentialEntry x))
  unfolding located account_member text_member str
  credential_value v = located v (
      both (λ (f : Text → CredentialEntry x) t. f t)
        (both (λ a b t. record { subject = a; issuer = b; credential_type = t })
          (account_member v (str "subject")) (account_member v (str "issuer")))
        (text_member v (str "credential_type")))
