-- ===== src/Handlers/LedgerEntry/Members.antt =====
-- include/rpcspec/handlers/ledger_entry: the members of locators after their validators.
use rpc_spec.Prelude.{
  ℕ, ◌≡◌, ◌⊎◌, ◌||◌, refl, Text, true, Option, none, some, [], ◌∷◌, arith, inl, inr, false, leb, ap,
}
use rpc_spec.Json.{Value, string, object, int64, uint64}
use rpc_spec.Prelude.Int.{pos, negsuc}
use rpc_spec.Status.{Server, success}
use rpc_spec.View.{
  FieldView, present, is_string, is_object, as_string, as_uint32, uint32_max, child,
}
use rpc_spec.Combinators.{uint32_type, string_type}
use rpc_spec.Validators.Accounts.{account_base58, hex_string, is_usable_account, succeeds}
use rpc_spec.Validators.Presence.{type_of}
use rpc_spec.Validators.Chars.{c_str}
use rpc_spec.Validators.Libxrpl.{
  Libxrpl, hex_from, account_from_string_strict, parse_base58_account, parse_base58_public_key,
  account_from_validated, uint256_from_validated,
}
use rpc_spec.Converters.{element_text}
use rpc_spec.Handlers.GatewayBalances.{names_account}
use rpc_spec.Handlers.GatewayBalances.Wallets.{key_of_blob-some}
use rpc_spec.Handlers.LedgerEntry.{
  Locator, direct_key, unpacked, both, located, account_member, hex_member, text_member,
  uint32_member,
}

-- What a value stands for: an account, a number of so many bits in hexadecimal, a number, a text.
module _ (x : Libxrpl) where
  abbrev pub IsAccount : FieldView → x.AccountId → Type 0
  IsAccount w a = (s : Text) × (as_string w ≡ some s) × (account_from_validated x s ≡ some a)

  abbrev pub IsHex : ℕ → FieldView → x.HexNumber → Type 0
  IsHex bits w n =
      (s : Text) × (as_string w ≡ some s)
      × (x.parse_hex bits (c_str s) ≡ true)
      × (x.hex_number bits (c_str s) ≡ n)

  -- A key comes from a string, an entry from an object.
  abbrev pub Reads : {E : Type 0} → (E → Type 0) → FieldView → Locator x.HexNumber E → Type 0
  Reads P v (direct_key k) = (is_string v ≡ true) × IsHex 256 v k
  Reads P v (unpacked e) = (is_object v ≡ true) × P e

abbrev pub IsNumber : FieldView → ℕ → Type 0
IsNumber w n = (w.value ≡ some (uint64 n)) ⊎ (w.value ≡ some (int64 (pos n)))

abbrev pub IsText : FieldView → Text → Type 0
IsText w s = w.value ≡ some (string s)

-- A conversion gives a value that is as it should be.
abbrev pub HasValue : {A : Type 0} → (A → Type 0) → Option A → Type 0
HasValue {A = A} P o = (a : A) × (o ≡ some a) × P a

-- Two conversions, each of which gives a value that is as it should be.
pub both-HasValue :
    {A B C : Type 0} {P : A → Type 0} {Q : B → Type 0} (R : C → Type 0) (f : A → B → C)
    (ma : Option A) (mb : Option B)
    → ((a : A) (b : B) → P a → Q b → R (f a b))
    → HasValue P ma
    → HasValue Q mb
    → HasValue R (both f ma mb)
both-HasValue R f ma mb made (a, ea, pa) (b, eb, pb) = rw (ea, eb) (f a b, refl, made a b pa pb)

module _ (server : Server) (x : Libxrpl) where
  usable_account-succeeds :
      (key : Option x.PublicKey) (id : Option x.AccountId)
      → is_usable_account server x id ≡ true
      → succeeds key || succeeds id ≡ true
  usable_account-succeeds none none h = absurd (cc)
  usable_account-succeeds none (some a) h = refl
  usable_account-succeeds (some key) id h = refl

  element_text-IsAccount :
      (k : Text) (o : Option Value)
      → present (record { key = k; value = o }) ≡ true
      → account_base58 server x (record { key = k; value = o }) ≡ success
      → HasValue
          (IsAccount x (record { key = k; value = o }))
          (element_text (account_from_validated x) (record { key = k; value = o }))
  unfolding account_base58 account_from_validated account_from_string_strict
  element_text-IsAccount k none p h = absurd (cc)
  element_text-IsAccount k (some (string s)) p h =
      let named : names_account x s ≡ true =
        usable_account-succeeds (parse_base58_public_key x s) (parse_base58_account x s)
          (ground arith) in
      let (a, e) = key_of_blob-some x s (x.str_unhex s) named in (a, e, (s, refl, e))
  element_text-IsAccount k (some _) p h = absurd (cc)

  element_text-IsHex :
      (bits : ℕ) (k : Text) (o : Option Value)
      → present (record { key = k; value = o }) ≡ true
      → hex_string server x bits (record { key = k; value = o }) ≡ success
      → HasValue
          (IsHex x bits (record { key = k; value = o }))
          (element_text (λ s. hex_from x bits (c_str s)) (record { key = k; value = o }))
  unfolding hex_string
  element_text-IsHex bits k none p h = absurd (cc)
  element_text-IsHex bits k (some (string s)) p h =
      let good : x.parse_hex bits (c_str s) ≡ true = ground arith in
      (x.hex_number bits (c_str s), rw good refl, (s, refl, good, refl))
  element_text-IsHex bits k (some _) p h = absurd (cc)

  element_text-IsText :
      (k : Text) (o : Option Value)
      → present (record { key = k; value = o }) ≡ true
      → type_of (string_type ∷ []) (record { key = k; value = o }) ≡ success
      → HasValue
          (IsText (record { key = k; value = o }))
          (element_text (λ s. some s) (record { key = k; value = o }))
  unfolding type_of
  element_text-IsText k none p h = absurd (cc)
  element_text-IsText k (some (string s)) p h = (s, refl, refl)
  element_text-IsText k (some _) p h = absurd (cc)

  as_uint32-IsNumber :
      (k : Text) (o : Option Value)
      → present (record { key = k; value = o }) ≡ true
      → type_of (uint32_type ∷ []) (record { key = k; value = o }) ≡ success
      → HasValue
          (IsNumber (record { key = k; value = o }))
          (as_uint32 (record { key = k; value = o }))
  unfolding type_of
  as_uint32-IsNumber k none p h = absurd (cc)
  as_uint32-IsNumber k (some (int64 (pos n))) p h =
      let small : leb n uint32_max ≡ true = ground arith in (n, ap some (ground arith), inr refl)
  as_uint32-IsNumber k (some (int64 (negsuc n))) p h = absurd (cc)
  as_uint32-IsNumber k (some (uint64 n)) p h =
      let small : leb n uint32_max ≡ true = ground arith in (n, ap some (ground arith), inl refl)
  as_uint32-IsNumber k (some _) p h = absurd (cc)

  object-no_string :
      (k : Text) (o : Option Value)
      → is_object (record { key = k; value = o }) ≡ true
      → is_string (record { key = k; value = o }) ≡ false
  object-no_string k none h = absurd (cc)
  object-no_string k (some (object m)) h = refl
  object-no_string k (some _) h = absurd (cc)

  -- What a locator is read from: a number in hexadecimal, or an object with members to read.
  abbrev pub Readable : FieldView → Type 0 → Type 0
  Readable v M =
      ((is_string v ≡ true) × (hex_string server x 256 v ≡ success)) ⊎ ((is_object v ≡ true) × M)

  -- A locator of two members.
  pub located_pair-Reads :
      {A B E : Type 0} {P : A → Type 0} {Q : B → Type 0} (R : E → Type 0) (f : A → B → E)
      (v : FieldView) (ma : Option A) (mb : Option B)
      → ((a : A) (b : B) → P a → Q b → R (f a b))
      → Readable v (HasValue P ma × HasValue Q mb)
      → HasValue (Reads x R v) (located x v (both f ma mb))
  unfolding located uint256_from_validated
  located_pair-Reads R f v ma mb made (inl (text, accepted)) =
      let (n, e, h) = element_text-IsHex 256 v.key v.value (ground arith) accepted in
      rw (text, e) (direct_key n, refl, (text, h))
  located_pair-Reads R f v ma mb made (inr (obj, ((a, ea, pa), (b, eb, pb)))) =
      rw (object-no_string v.key v.value obj, ea, eb)
        (unpacked (f a b), refl, (obj, made a b pa pb))

  module _ (v : FieldView) (key : Text) where
    pub account_member-IsAccount :
        present (child v key) ≡ true
        → account_base58 server x (child v key) ≡ success
        → HasValue (IsAccount x (child v key)) (account_member x v key)
    unfolding account_member
    account_member-IsAccount p h = element_text-IsAccount (child v key).key (child v key).value p h

    pub hex_member-IsHex :
        (bits : ℕ)
        → present (child v key) ≡ true
        → hex_string server x bits (child v key) ≡ success
        → HasValue (IsHex x bits (child v key)) (hex_member x bits v key)
    unfolding hex_member
    hex_member-IsHex bits p h = element_text-IsHex bits (child v key).key (child v key).value p h

    pub text_member-IsText :
        present (child v key) ≡ true
        → type_of (string_type ∷ []) (child v key) ≡ success
        → HasValue (IsText (child v key)) (text_member x v key)
    unfolding text_member
    text_member-IsText p h = element_text-IsText (child v key).key (child v key).value p h

    pub uint32_member-IsNumber :
        present (child v key) ≡ true
        → type_of (uint32_type ∷ []) (child v key) ≡ success
        → HasValue (IsNumber (child v key)) (uint32_member x v key)
    unfolding uint32_member
    uint32_member-IsNumber p h = as_uint32-IsNumber (child v key).key (child v key).value p h
