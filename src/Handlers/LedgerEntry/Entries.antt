-- ===== src/Handlers/LedgerEntry/Entries.antt =====
-- include/rpcspec/handlers/ledger_entry: the locators, their fields and what they are to be read as.
use rpc_spec.Prelude.{Option, List, str}
use rpc_spec.Status.{Server}
use rpc_spec.View.{FieldView, child}
use rpc_spec.Field.{Item}
use rpc_spec.Validators.Libxrpl.{Libxrpl}
use rpc_spec.Handlers.LedgerEntry.{
  Locator, OfferEntry, EscrowEntry, TicketEntry, PermissionedDomainEntry, VaultEntry,
  LoanBrokerEntry, LoanEntry, DelegateEntry, SponsorshipEntry, MptokenEntry, CredentialEntry,
  offer_value, escrow_value, ticket_value, permissioned_domain_value, vault_value,
  loan_broker_value, loan_value, delegate_value, sponsorship_value, mptoken_value, credential_value,
}
use rpc_spec.Handlers.LedgerEntry.Fields.{
  offer_items, escrow_items, ticket_items, permissioned_domain_items, vault_items,
  loan_broker_items, loan_items, delegate_items, sponsorship_items, mptoken_items, credential_items,
}
use rpc_spec.Handlers.LedgerEntry.Members.{IsAccount, IsHex, IsNumber, IsText}

-- The locators whose members are verified alone, by the keys of their fields.
pub data Locates : Type 0 where
  offer escrow ticket permissioned_domain vault loan_broker : Locates
  loan delegate sponsorship mptoken credential : Locates

abbrev pub EntryOf : Locates → Libxrpl → Type 0
EntryOf offer x = OfferEntry x
EntryOf escrow x = EscrowEntry x
EntryOf ticket x = TicketEntry x
EntryOf permissioned_domain x = PermissionedDomainEntry x
EntryOf vault x = VaultEntry x
EntryOf loan_broker x = LoanBrokerEntry x
EntryOf loan x = LoanEntry x
EntryOf delegate x = DelegateEntry x
EntryOf sponsorship x = SponsorshipEntry x
EntryOf mptoken x = MptokenEntry x
EntryOf credential x = CredentialEntry x

-- What an entry is to be: each part as the member of the object with the part's name has it.
abbrev pub IsEntry : (x : Libxrpl) (l : Locates) → FieldView → EntryOf l x → Type 0
IsEntry x offer v e =
    IsAccount x (child v (str "account")) e.account × IsNumber (child v (str "seq")) e.seq
IsEntry x escrow v e =
    IsAccount x (child v (str "owner")) e.owner × IsNumber (child v (str "seq")) e.seq
IsEntry x ticket v e =
    IsAccount x (child v (str "account")) e.account
    × IsNumber (child v (str "ticket_seq")) e.ticket_seq
IsEntry x permissioned_domain v e =
    IsAccount x (child v (str "account")) e.account × IsNumber (child v (str "seq")) e.seq
IsEntry x vault v e =
    IsAccount x (child v (str "owner")) e.owner × IsNumber (child v (str "seq")) e.seq
IsEntry x loan_broker v e =
    IsAccount x (child v (str "owner")) e.owner × IsNumber (child v (str "seq")) e.seq
IsEntry x loan v e =
    IsHex x 256 (child v (str "loan_broker_id")) e.loan_broker_id
    × IsNumber (child v (str "loan_seq")) e.loan_seq
IsEntry x delegate v e =
    IsAccount x (child v (str "account")) e.account
    × IsAccount x (child v (str "authorize")) e.authorize
IsEntry x sponsorship v e =
    IsAccount x (child v (str "sponsor")) e.sponsor
    × IsAccount x (child v (str "sponsee")) e.sponsee
IsEntry x mptoken v e =
    IsAccount x (child v (str "account")) e.account
    × IsHex x 192 (child v (str "mpt_issuance_id")) e.mpt_issuance_id
IsEntry x credential v e =
    IsAccount x (child v (str "subject")) e.subject
    × IsAccount x (child v (str "issuer")) e.issuer
    × IsText (child v (str "credential_type")) e.credential_type

module _ (server : Server) (x : Libxrpl) where
  -- The items of the locator's field, whatever it binds.
  unfoldable pub items_of : Locates → (V : Type 0) → List (Item V)
  unfolding offer_items escrow_items ticket_items permissioned_domain_items vault_items
      loan_broker_items loan_items delegate_items sponsorship_items mptoken_items credential_items
  items_of offer V = offer_items server x V
  items_of escrow V = escrow_items server x V
  items_of ticket V = ticket_items server x V
  items_of permissioned_domain V = permissioned_domain_items server x V
  items_of vault V = vault_items server x V
  items_of loan_broker V = loan_broker_items server x V
  items_of loan V = loan_items server x V
  items_of delegate V = delegate_items server x V
  items_of sponsorship V = sponsorship_items server x V
  items_of mptoken V = mptoken_items server x V
  items_of credential V = credential_items server x V

  unfoldable pub value_of : (l : Locates) → FieldView → Option (Locator x.HexNumber (EntryOf l x))
  unfolding offer_value escrow_value ticket_value permissioned_domain_value vault_value
      loan_broker_value loan_value delegate_value sponsorship_value mptoken_value credential_value
  value_of offer v = offer_value x v
  value_of escrow v = escrow_value x v
  value_of ticket v = ticket_value x v
  value_of permissioned_domain v = permissioned_domain_value x v
  value_of vault v = vault_value x v
  value_of loan_broker v = loan_broker_value x v
  value_of loan v = loan_value x v
  value_of delegate v = delegate_value x v
  value_of sponsorship v = sponsorship_value x v
  value_of mptoken v = mptoken_value x v
  value_of credential v = credential_value x v
