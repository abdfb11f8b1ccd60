-- ===== src/Handlers/LedgerEntry/Located.antt =====
-- include/rpcspec/handlers/ledger_entry: the converters of locators after the items of their fields.
use rpc_spec.Prelude.{
  ◌≡◌, refl, Text, true, false, Option, none, some, List, [], ◌∷◌, str, arith, inl, inr, Bool-cases,
}
use rpc_spec.Json.{Value, string, object}
use rpc_spec.Status.{Server, MaybeError, CombinedError, success, malformed_request}
use rpc_spec.View.{FieldView, present, is_string, is_object, child}
use rpc_spec.Field.{run_processors}
use rpc_spec.Combinators.{uint32_type, with_custom_error_verify}
use rpc_spec.Validators.Accounts.{account_base58, hex_string}
use rpc_spec.Validators.Presence.{required, type_of}
use rpc_spec.Validators.Libxrpl.{Libxrpl}
use rpc_spec.Handlers.LedgerEntry.{
  Locator, account_member, uint32_member, CredentialEntry, offer_value, escrow_value, ticket_value,
  permissioned_domain_value, vault_value, loan_broker_value, loan_value, delegate_value,
  sponsorship_value, mptoken_value, credential_value,
}
use rpc_spec.Handlers.LedgerEntry.Fields.{
  Member, string_or_object, string_or_object_request, required_request,
  malformed_request_hex_string, malformed_request_int, locator_items, offer_items, escrow_items,
  ticket_items, permissioned_domain_items, vault_items, loan_broker_items, loan_items,
  delegate_items, sponsorship_items, mptoken_items, credential_items, offer_members, escrow_members,
  ticket_members, permissioned_domain_members, vault_members, loan_broker_members, loan_members,
  delegate_members, sponsorship_members, mptoken_members, credential_members,
}
use rpc_spec.Handlers.LedgerEntry.Sections.{
  Passes, AllPass, run_processors-locator_items, with_custom_error_verify-success,
}
use rpc_spec.Handlers.LedgerEntry.Members.{
  IsAccount, IsNumber, IsText, HasValue, Reads, Readable, located_pair-Reads, both-HasValue,
  account_member-IsAccount, hex_member-IsHex, text_member-IsText, uint32_member-IsNumber,
}
use rpc_spec.Handlers.LedgerEntry.Entries.{
  Locates, offer, escrow, ticket, permissioned_domain, vault, loan_broker, loan, delegate,
  sponsorship, mptoken, credential, EntryOf, IsEntry, items_of, value_of,
}

typed_object :
    (k : Text) (o : Option Value)
    → present (record { key = k; value = o }) ≡ true
    → string_or_object (record { key = k; value = o }) ≡ success
    → is_string (record { key = k; value = o }) ≡ false
    → is_object (record { key = k; value = o }) ≡ true
unfolding type_of
typed_object k none p h n = absurd (cc)
typed_object k (some (string s)) p h n = absurd (cc)
typed_object k (some (object m)) p h n = refl
typed_object k (some _) p h n = absurd (cc)

required-present :
    (server : Server) (v : FieldView) → required server v ≡ success → present v ≡ true
unfolding required
required-present server v h = elim (Bool-cases (present v)) [
  | inl there ↦ there
  | inr absent ↦ absurd (ground arith)
]

module _ (server : Server) (x : Libxrpl) where
  -- `ifType<std::string>` and the section, for the items of one field.
  Readable-items :
      (V : Type 0) {M : Type 0} (types hex : FieldView → MaybeError) (ms : List Member)
      (v w : FieldView)
      → present v ≡ true
      → run_processors (locator_items V types hex ms) v ≡ (success, w)
      → ((u : FieldView) → types u ≡ success → string_or_object u ≡ success)
      → ((u : FieldView) → hex u ≡ success → hex_string server x 256 u ≡ success)
      → (AllPass ms w → M)
      → Readable server x w M
  Readable-items V types hex ms v w p h typed hexed members =
      let (same, t, text, obj) = run_processors-locator_items V types hex ms v w p h in
      rw same (elim (Bool-cases (is_string v)) [
        | inl is_text ↦ inl (is_text, hexed v (text is_text))
        | inr other ↦
            let is_obj = typed_object v.key v.value p (typed v t) other in
            inr (is_obj, members (rw same (obj is_obj)))
      ])

  -- A credential before its type.
  abbrev IsUntyped : FieldView → (Text → CredentialEntry x) → Type 0
  IsUntyped w g =
      (t : Text) → IsText (child w (str "credential_type")) t → IsEntry x credential w (g t)

  -- `withCustomError(required, rpc::kMalformedRequest)`
  required_request-present :
      (v : FieldView)
      → with_custom_error_verify (required server) (malformed_request server) [] v ≡ success
      → present v ≡ true
  required_request-present v h =
      required-present server v
        (with_custom_error_verify-success (required server) (malformed_request server) [] v h)

  malformed_request_hex_string-success :
      (v : FieldView)
      → malformed_request_hex_string server x v ≡ success
      → hex_string server x 256 v ≡ success
  unfolding malformed_request_hex_string
  malformed_request_hex_string-success v h =
      with_custom_error_verify-success (hex_string server x 256) (malformed_request server) [] v h

  malformed_request_int-success :
      (v : FieldView)
      → malformed_request_int server v ≡ success
      → type_of (uint32_type ∷ []) v ≡ success
  unfolding malformed_request_int
  malformed_request_int-success v h =
      with_custom_error_verify-success (type_of (uint32_type ∷ [])) (malformed_request server) [] v
        h

  string_or_object_request-success :
      (v : FieldView) → string_or_object_request server v ≡ success → string_or_object v ≡ success
  string_or_object_request-success v h =
      with_custom_error_verify-success string_or_object (malformed_request server) [] v h

  -- A member with an account, and one with a number.
  account_member-Passes :
      (w : FieldView) (key : Text) (code : CombinedError)
      → Passes
          (required_request server
            ∷ with_custom_error_verify (account_base58 server x) code []
            ∷ [])
          (child w key)
      → HasValue (IsAccount x (child w key)) (account_member x w key)
  account_member-Passes w key code (r, (a, _)) =
      account_member-IsAccount server x w key (required_request-present _ r)
        (with_custom_error_verify-success _ _ _ _ a)

  uint32_member-Passes :
      (w : FieldView) (key : Text)
      → Passes (required_request server ∷ malformed_request_int server ∷ []) (child w key)
      → HasValue (IsNumber (child w key)) (uint32_member x w key)
  uint32_member-Passes w key (r, (a, _)) =
      uint32_member-IsNumber server x w key (required_request-present _ r)
        (malformed_request_int-success _ a)

  -- After the items of its field have accepted a value that is present, the converter of a locator does
  -- not throw: a string gives the number of 256 bits that it is in hexadecimal, and an object an entry,
  -- each part of which is what the object's member of that name stands for. The locators are offer,
  -- escrow, ticket, permissioned_domain, vault, loan_broker, loan, delegate, sponsorship, mptoken and
  -- credential.
  pub value_of-Reads :
      (l : Locates) (v w : FieldView)
      → present v ≡ true
      → run_processors (items_of server x l (Locator x.HexNumber (EntryOf l x))) v ≡ (success, w)
      → HasValue (Reads x (IsEntry x l w) w) (value_of server x l w)
  unfolding items_of value_of offer_members escrow_members ticket_members
      permissioned_domain_members vault_members loan_broker_members loan_members delegate_members
      sponsorship_members mptoken_members credential_members offer_items escrow_items ticket_items
      permissioned_domain_items vault_items loan_broker_items loan_items delegate_items
      sponsorship_items mptoken_items credential_items offer_value escrow_value ticket_value
      permissioned_domain_value vault_value loan_broker_value loan_value delegate_value
      sponsorship_value mptoken_value credential_value
  value_of-Reads offer v w p h =
      located_pair-Reads server x _ _ w _ _ (λ a b ha hb. (ha, hb))
        (Readable-items _ _ _ (offer_members server x) v w p h (λ u t. t)
          malformed_request_hex_string-success
          (λ m. (
            account_member-IsAccount server x w _ (required-present server _ m.0.0) m.0.1.0,
            uint32_member-IsNumber server x w _ (required-present server _ m.1.0.0)
                (malformed_request_int-success _ m.1.0.1.0),
          )))
  value_of-Reads escrow v w p h =
      located_pair-Reads server x _ _ w _ _ (λ a b ha hb. (ha, hb))
        (Readable-items _ _ _ (escrow_members server x) v w p h (λ u t. t)
          malformed_request_hex_string-success
          (λ m. (
            account_member-IsAccount server x w _ (required-present server _ m.0.0)
                (with_custom_error_verify-success _ _ _ _ m.0.1.0),
            uint32_member-IsNumber server x w _ (required-present server _ m.1.0.0)
                (malformed_request_int-success _ m.1.0.1.0),
          )))
  value_of-Reads ticket v w p h =
      located_pair-Reads server x _ _ w _ _ (λ a b ha hb. (ha, hb))
        (Readable-items _ _ _ (ticket_members server x) v w p h (λ u t. t)
          malformed_request_hex_string-success
          (λ m. (
            account_member-IsAccount server x w _ (required-present server _ m.0.0) m.0.1.0,
            uint32_member-IsNumber server x w _ (required-present server _ m.1.0.0)
                (malformed_request_int-success _ m.1.0.1.0),
          )))
  value_of-Reads permissioned_domain v w p h =
      located_pair-Reads server x _ _ w _ _ (λ a b ha hb. (ha, hb))
        (Readable-items _ _ _ (permissioned_domain_members server x) v w p h
          string_or_object_request-success malformed_request_hex_string-success
          (λ m. (account_member-Passes w _ _ m.1.0, uint32_member-Passes w _ m.0)))
  value_of-Reads vault v w p h =
      located_pair-Reads server x _ _ w _ _ (λ a b ha hb. (ha, hb))
        (Readable-items _ _ _ (vault_members server x) v w p h string_or_object_request-success
          malformed_request_hex_string-success
          (λ m. (account_member-Passes w _ _ m.1.0, uint32_member-Passes w _ m.0)))
  value_of-Reads loan_broker v w p h =
      located_pair-Reads server x _ _ w _ _ (λ a b ha hb. (ha, hb))
        (Readable-items _ _ _ (loan_broker_members server x) v w p h
          string_or_object_request-success malformed_request_hex_string-success
          (λ m. (account_member-Passes w _ _ m.1.0, uint32_member-Passes w _ m.0)))
  value_of-Reads loan v w p h =
      located_pair-Reads server x _ _ w _ _ (λ a b ha hb. (ha, hb))
        (Readable-items _ _ _ (loan_members server x) v w p h string_or_object_request-success
          malformed_request_hex_string-success
          (λ m. (
            hex_member-IsHex server x w _ 256 (required_request-present _ m.1.0.0)
                (malformed_request_hex_string-success _ m.1.0.1.0),
            uint32_member-Passes w _ m.0,
          )))
  value_of-Reads delegate v w p h =
      located_pair-Reads server x _ _ w _ _ (λ a b ha hb. (ha, hb))
        (Readable-items _ _ _ (delegate_members server x) v w p h string_or_object_request-success
          malformed_request_hex_string-success
          (λ m. (account_member-Passes w _ _ m.0, account_member-Passes w _ _ m.1.0)))
  value_of-Reads sponsorship v w p h =
      located_pair-Reads server x _ _ w _ _ (λ a b ha hb. (ha, hb))
        (Readable-items _ _ _ (sponsorship_members server x) v w p h
          string_or_object_request-success malformed_request_hex_string-success
          (λ m. (account_member-Passes w _ _ m.0, account_member-Passes w _ _ m.1.0)))
  value_of-Reads mptoken v w p h =
      located_pair-Reads server x _ _ w _ _ (λ a b ha hb. (ha, hb))
        (Readable-items _ _ _ (mptoken_members server x) v w p h string_or_object_request-success
          malformed_request_hex_string-success
          (λ m. (
            account_member-Passes w _ _ m.0,
            hex_member-IsHex server x w _ 192 (required_request-present _ m.1.0.0)
                (with_custom_error_verify-success _ _ _ _ m.1.0.1.0),
          )))
  value_of-Reads credential v w p h =
      located_pair-Reads server x {P = IsUntyped w} (IsEntry x credential w) (λ g t. g t) w _ _
        (λ g t hg ht. hg t ht)
        (Readable-items _ _ _ (credential_members server x) v w p h string_or_object_request-success
          (λ u t.
            malformed_request_hex_string-success u (with_custom_error_verify-success _ _ _ _ t))
          (λ m. (
            both-HasValue {P = IsAccount x (child w (str "subject"))}
                {Q = IsAccount x (child w (str "issuer"))} (IsUntyped w) _ _ _
                (λ a b ha hb t ht. (ha, hb, ht)) (account_member-Passes w _ _ m.0)
                (account_member-Passes w _ _ m.1.0),
            text_member-IsText server x w _ (required_request-present _ m.1.1.0.0)
                (with_custom_error_verify-success _ _ _ _ m.1.1.0.1.0),
          )))
