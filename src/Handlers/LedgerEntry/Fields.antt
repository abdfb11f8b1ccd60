-- ===== src/Handlers/LedgerEntry/Fields.antt =====
-- include/rpcspec/handlers/ledger_entry: the items of the fields for locators.
use rpc_spec.Prelude.{Text, List, [], ◌∷◌, map, str}
use rpc_spec.Status.{Server, MaybeError, malformed_request, malformed_address, malformed_owner}
use rpc_spec.View.{FieldView}
use rpc_spec.Field.{Item, FieldSpec}
use rpc_spec.Combinators.{
  requirement, modifier, section_modify, if_type_modify, with_custom_error_verify, uint32_type,
  string_type, object_type,
}
use rpc_spec.Validators.Accounts.{account_base58, hex_string, credential_type}
use rpc_spec.Validators.Presence.{required, type_of}
use rpc_spec.Validators.Libxrpl.{Libxrpl}

-- A sub-field of a section with requirements alone.
pub record Member : Type 0 where
  pub key : Text
  pub requirements : List (FieldView → MaybeError)

abbrev pub sub_field : Member → FieldSpec
sub_field m = record { key = m.key; items = map (requirement (Unit {0})) m.requirements }

-- `type<std::string, JsonObject>`
abbrev pub string_or_object : FieldView → MaybeError
string_or_object = type_of (string_type ∷ object_type ∷ [])

-- `ifType<std::string>(hex), ifType<JsonObject>(section(members...))` after the test of the type
abbrev pub locator_items :
    (V : Type 0) (types hex : FieldView → MaybeError) (members : List Member) → List (Item V)
locator_items V types hex members =
    requirement V types
    ∷ modifier V (if_type_modify string_type (requirement V hex ∷ []))
    ∷ modifier V
        (if_type_modify object_type (modifier V (section_modify (map sub_field members)) ∷ []))
    ∷ []

abbrev pub section_field : Text → List (FieldView → MaybeError) → Member
section_field k fs = record { key = k; requirements = fs }

module _ (server : Server) where
  unfoldable pub malformed_request_int : FieldView → MaybeError
  malformed_request_int =
      with_custom_error_verify (type_of (uint32_type ∷ [])) (malformed_request server) []

  -- `withCustomError(type<std::string, JsonObject>, rpc::kMalformedRequest)`
  abbrev pub string_or_object_request : FieldView → MaybeError
  string_or_object_request = with_custom_error_verify string_or_object (malformed_request server) []

  -- `withCustomError(required, rpc::kMalformedRequest)`
  abbrev pub required_request : FieldView → MaybeError
  required_request = with_custom_error_verify (required server) (malformed_request server) []

module _ (server : Server) (x : Libxrpl) where
  unfoldable pub malformed_request_hex_string : FieldView → MaybeError
  malformed_request_hex_string =
      with_custom_error_verify (hex_string server x 256) (malformed_request server) []

  -- `withCustomError(accountBase58, rpc::kMalformedAddress)`
  abbrev pub account_address : FieldView → MaybeError
  account_address = with_custom_error_verify (account_base58 server x) (malformed_address server) []

  -- `withCustomError(accountBase58, rpc::kMalformedOwner)`
  abbrev pub account_owner : FieldView → MaybeError
  account_owner = with_custom_error_verify (account_base58 server x) (malformed_owner server) []

  -- `withCustomError(kMalformedRequestHexStringValidator, rpc::kMalformedAddress)`
  abbrev pub hex_string_address : FieldView → MaybeError
  hex_string_address =
      with_custom_error_verify malformed_request_hex_string (malformed_address server) []

  unfoldable pub escrow_members : List Member
  escrow_members =
      section_field (str "owner") (required server ∷ account_owner ∷ [])
      ∷ section_field (str "seq") (required server ∷ malformed_request_int server ∷ [])
      ∷ []

  unfoldable pub escrow_items : (V : Type 0) → List (Item V)
  unfolding escrow_members
  escrow_items V = locator_items V string_or_object malformed_request_hex_string escrow_members

  unfoldable pub offer_members : List Member
  offer_members =
      section_field (str "account") (required server ∷ account_base58 server x ∷ [])
      ∷ section_field (str "seq") (required server ∷ malformed_request_int server ∷ [])
      ∷ []

  unfoldable pub offer_items : (V : Type 0) → List (Item V)
  unfolding offer_members
  offer_items V = locator_items V string_or_object malformed_request_hex_string offer_members

  unfoldable pub ticket_members : List Member
  ticket_members =
      section_field (str "account") (required server ∷ account_base58 server x ∷ [])
      ∷ section_field (str "ticket_seq") (required server ∷ malformed_request_int server ∷ [])
      ∷ []

  unfoldable pub ticket_items : (V : Type 0) → List (Item V)
  unfolding ticket_members
  ticket_items V = locator_items V string_or_object malformed_request_hex_string ticket_members

  unfoldable pub credential_members : List Member
  credential_members =
      section_field (str "subject") (required_request server ∷ account_address ∷ [])
      ∷ section_field (str "issuer") (required_request server ∷ account_address ∷ [])
      ∷ section_field (str "credential_type") (
          required_request server
          ∷ with_custom_error_verify (type_of (string_type ∷ [])) (malformed_request server) []
          ∷ credential_type server x
          ∷ [])
      ∷ []

  unfoldable pub credential_items : (V : Type 0) → List (Item V)
  unfolding credential_members
  credential_items V =
      locator_items V (string_or_object_request server) hex_string_address credential_members

  unfoldable pub mptoken_members : List Member
  mptoken_members =
      section_field (str "account") (required_request server ∷ account_address ∷ [])
      ∷ section_field (str "mpt_issuance_id") (
          required_request server
          ∷ with_custom_error_verify (hex_string server x 192) (malformed_request server) []
          ∷ [])
      ∷ []

  unfoldable pub mptoken_items : (V : Type 0) → List (Item V)
  unfolding mptoken_members
  mptoken_items V =
      locator_items V (string_or_object_request server) malformed_request_hex_string mptoken_members

  unfoldable pub permissioned_domain_members : List Member
  permissioned_domain_members =
      section_field (str "seq") (required_request server ∷ malformed_request_int server ∷ [])
      ∷ section_field (str "account") (required_request server ∷ account_address ∷ [])
      ∷ []

  unfoldable pub permissioned_domain_items : (V : Type 0) → List (Item V)
  unfolding permissioned_domain_members
  permissioned_domain_items V =
      locator_items V (string_or_object_request server) malformed_request_hex_string
        permissioned_domain_members

  unfoldable pub vault_members : List Member
  vault_members =
      section_field (str "seq") (required_request server ∷ malformed_request_int server ∷ [])
      ∷ section_field (str "owner") (required_request server ∷ account_owner ∷ [])
      ∷ []

  unfoldable pub vault_items : (V : Type 0) → List (Item V)
  unfolding vault_members
  vault_items V =
      locator_items V (string_or_object_request server) malformed_request_hex_string vault_members

  unfoldable pub loan_broker_members : List Member
  loan_broker_members =
      section_field (str "seq") (required_request server ∷ malformed_request_int server ∷ [])
      ∷ section_field (str "owner") (required_request server ∷ account_owner ∷ [])
      ∷ []

  unfoldable pub loan_broker_items : (V : Type 0) → List (Item V)
  unfolding loan_broker_members
  loan_broker_items V =
      locator_items V (string_or_object_request server) malformed_request_hex_string
        loan_broker_members

  unfoldable pub loan_members : List Member
  loan_members =
      section_field (str "loan_seq") (required_request server ∷ malformed_request_int server ∷ [])
      ∷ section_field (str "loan_broker_id")
          (required_request server ∷ malformed_request_hex_string ∷ [])
      ∷ []

  unfoldable pub loan_items : (V : Type 0) → List (Item V)
  unfolding loan_members
  loan_items V =
      locator_items V (string_or_object_request server) malformed_request_hex_string loan_members

  unfoldable pub delegate_members : List Member
  delegate_members =
      section_field (str "account") (required_request server ∷ account_address ∷ [])
      ∷ section_field (str "authorize") (required_request server ∷ account_address ∷ [])
      ∷ []

  unfoldable pub delegate_items : (V : Type 0) → List (Item V)
  unfolding delegate_members
  delegate_items V =
      locator_items V (string_or_object_request server) malformed_request_hex_string
        delegate_members

  unfoldable pub sponsorship_members : List Member
  sponsorship_members =
      section_field (str "sponsor") (required_request server ∷ account_address ∷ [])
      ∷ section_field (str "sponsee") (required_request server ∷ account_address ∷ [])
      ∷ []

  unfoldable pub sponsorship_items : (V : Type 0) → List (Item V)
  unfolding sponsorship_members
  sponsorship_items V =
      locator_items V (string_or_object_request server) malformed_request_hex_string
        sponsorship_members
