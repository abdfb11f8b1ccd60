-- ===== src/Validators/Accounts/Credentials.antt =====
-- include/rpcspec/Validators.hpp: which arrays of credentials are accepted.
use rpc_spec.Prelude.{
  ℕ, ◌≤◌, ◌<◌, ◌≡◌, ◌≢◌, ◌↔◌, refl, ◌∙◌, Text, true, false, Option, none, some, List, [], ◌∷◌,
  arith, str, length,
}
use rpc_spec.Status.{Server, success, has_value}
use rpc_spec.View.{FieldView, present, is_object, is_array, array_size, child, element}
use rpc_spec.Validators.Libxrpl.{Libxrpl, parse_base58_account}
use rpc_spec.Validators.Accounts.{
  for_elements, account_base58, credential_type, credential_element, authorize_credential,
  is_usable_account, check_decoded,
}
use rpc_spec.Validators.Accounts.Loops.{
  for_elements-success, HasText, on_string-text, on_string_sound, has_value-success,
}

module _ (server : Server) (x : Libxrpl) where
  -- A text that decodes to an account other than zero.
  abbrev pub IsAccount : Text → Type 0
  IsAccount s = (a : x.AccountId) × (parse_base58_account x s ≡ some a) × (x.is_zero a ≡ false)

  -- A text that decodes from hexadecimal to a credential type of an allowed length.
  abbrev pub IsCredentialType : Text → Type 0
  IsCredentialType s =
      (d : List ℕ) × (x.str_unhex s ≡ some d) × (d ≢ []) × (length d ≤ x.max_credential_type_length)

  is_usable_account-true :
      (o : Option x.AccountId)
      → is_usable_account server x o ≡ true
      → (a : x.AccountId) × (o ≡ some a) × (x.is_zero a ≡ false)
  is_usable_account-true none h = cc
  is_usable_account-true (some a) h = (a, refl, ground arith)

  account_base58_sound :
      (v : FieldView)
      → present v ≡ true
      → account_base58 server x v ≡ success
      → (s : Text) × HasText v s × IsAccount s
  unfolding account_base58
  account_base58_sound v p h =
      let (s, t, k) = on_string_sound _ _ v p h in
      (s, t, is_usable_account-true (parse_base58_account x s) (ground arith))

  account_base58_complete :
      (v : FieldView) (s : Text) → HasText v s → IsAccount s → account_base58 server x v ≡ success
  unfolding account_base58
  account_base58_complete v s t (a, e, z) = on_string-text _ _ v s t ∙ rw (e, z)

  check_decoded-success :
      (k : Text) (o : Option (List ℕ))
      → check_decoded server x k o ≡ success
      → (d : List ℕ) × (o ≡ some d) × (d ≢ []) × (length d ≤ x.max_credential_type_length)
  check_decoded-success k none h = cc
  check_decoded-success k (some []) h = cc
  check_decoded-success k (some (c ∷ d)) h = (c ∷ d, refl, (λ e. cc), ground arith)

  credential_type_sound :
      (v : FieldView)
      → present v ≡ true
      → credential_type server x v ≡ success
      → (s : Text) × HasText v s × IsCredentialType s
  unfolding credential_type
  credential_type_sound v p h =
      let (s, t, k) = on_string_sound _ _ v p h in
      (s, t, check_decoded-success v.key (x.str_unhex s) k)

  check_decoded_complete :
      (k : Text) (d : List ℕ)
      → d ≢ []
      → length d ≤ x.max_credential_type_length
      → check_decoded server x k (some d) ≡ success
  check_decoded_complete k [] n le = absurd (n refl)
  check_decoded_complete k (c ∷ d) n le = ground arith

  credential_type_complete :
      (v : FieldView) (s : Text)
      → HasText v s
      → IsCredentialType s
      → credential_type server x v ≡ success
  unfolding credential_type
  credential_type_complete v s t (d, e, n, le) =
      on_string-text _ _ v s t ∙ rw e (check_decoded_complete v.key d n le)

  -- An element of the array: an object with an account for its issuer and a credential type.
  pub record IsCredential (elem : FieldView) : Type 0 where
    pub an_object : is_object elem ≡ true
    pub issuer_text : Text
    pub has_issuer : HasText (child elem (str "issuer")) issuer_text
    pub an_account : IsAccount issuer_text
    pub type_text : Text
    pub has_type : HasText (child elem (str "credential_type")) type_text
    pub a_type : IsCredentialType type_text

  credential_element_sound :
      (elem : FieldView) → credential_element server x elem ≡ success → IsCredential elem
  unfolding credential_element
  credential_element_sound elem h =
      let tests : (is_object elem ≡ true)
          × (present (child elem (str "issuer")) ≡ true)
          × (has_value (account_base58 server x (child elem (str "issuer"))) ≡ true)
          × (present (child elem (str "credential_type")) ≡ true)
          × (credential_type server x (child elem (str "credential_type")) ≡ success) =
        ground arith in
      let (s, has_s, ok_s) =
        account_base58_sound (child elem (str "issuer")) tests.1 (has_value-success _ tests.2) in
      let (t, has_t, ok_t) =
        credential_type_sound (child elem (str "credential_type")) tests.3 tests.4 in
      record {
        an_object = tests.0;
        issuer_text = s;
        has_issuer = has_s;
        an_account = ok_s;
        type_text = t;
        has_type = has_t;
        a_type = ok_t;
      }

  credential_element_complete :
      (elem : FieldView) → IsCredential elem → credential_element server x elem ≡ success
  unfolding credential_element
  credential_element_complete elem c = ground (
    arith,
    c.an_object,
    c.has_issuer,
    c.has_type,
    account_base58_complete (child elem (str "issuer")) c.issuer_text c.has_issuer c.an_account,
    credential_type_complete (child elem (str "credential_type")) c.type_text c.has_type c.a_type,
  )

  -- A field that is present passes exactly if it is an array of one element at least and no more
  -- than the limit, and each element is an object with an account under `issuer` and a credential
  -- type under `credential_type`.
  pub authorize_credential_iff :
      (v : FieldView)
      → present v ≡ true
      → (authorize_credential server x v ≡ success) ↔ (
          (is_array v ≡ true)
          × (1 ≤ array_size v)
          × (array_size v ≤ x.max_credentials_array_size)
          × ((i : ℕ) → i < array_size v → IsCredential (element v i)))
  unfolding authorize_credential
  authorize_credential_iff v p = (forth, back)
    where
      forth :
          authorize_credential server x v ≡ success
          → (is_array v ≡ true)
            × (1 ≤ array_size v)
            × (array_size v ≤ x.max_credentials_array_size)
            × ((i : ℕ) → i < array_size v → IsCredential (element v i))
      forth h =
          let tests : (is_array v ≡ true)
              × (1 ≤ array_size v)
              × (array_size v ≤ x.max_credentials_array_size)
              × (for_elements (credential_element server x) v 0 (array_size v) ≡ success) =
            ground arith in
          (
            tests.0,
            tests.1,
            tests.2,
            λ i lt. credential_element_sound (element v i) (
                (for_elements-success (credential_element server x) v (array_size v)).0 tests.3 i
                  lt),
          )

      back :
          (is_array v ≡ true)
            × (1 ≤ array_size v)
            × (array_size v ≤ x.max_credentials_array_size)
            × ((i : ℕ) → i < array_size v → IsCredential (element v i))
          → authorize_credential server x v ≡ success
      back (a, lo, hi, each) = ground (
        arith,
        (for_elements-success (credential_element server x) v (array_size v)).1
            (λ i lt. credential_element_complete (element v i) (each i lt)),
      )
