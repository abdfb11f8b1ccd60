-- ===== src/Handlers/GatewayBalances/Wallets.antt =====
-- include/rpcspec/handlers/gateway_balances: the converter of hot wallets after their validator.
use rpc_spec.Prelude.{
  zero, suc, sym, ◌<◌, ◌+◌, ◌≤◌, ◌==◌, ◌↔◌, ap, ◌∙◌, ℕ, ◌||◌, ◌⊎◌, ◌≡◌, refl, Text, true, false,
  Option, none, some, List, [], ◌∷◌, arith, inl, inr, Bool-cases,
}
use rpc_spec.Json.{Value, string}
use rpc_spec.Status.{CombinedError, success, ok, Result}
use rpc_spec.View.{FieldView, present, is_string, is_array, array_size, element}
use rpc_spec.Validators.Libxrpl.{
  Libxrpl, parse_base58_account, parse_base58_public_key, account_from_string_strict, key_of_blob,
  account_of_key,
}
use rpc_spec.Validators.Accounts.{succeeds, for_elements}
use rpc_spec.Validators.Accounts.Loops.{for_elements-success}
use rpc_spec.Validators.Presence.{custom_validator}
use rpc_spec.Handlers.GatewayBalances.{
  get_account_id, names_account, check_wallet, malformed, hot_wallet, parse_one_wallet,
  hot_wallets_value, insert_account, insert_wallets, insert_next, inserted, only,
}
use rpc_spec.Handlers.GatewayBalances.Sets.{
  IsMember, Increasing, insert_account-Increasing, IsMember-insert_account,
}

no_array :
    (k : Text) (o : Option Value)
    → is_string (record { key = k; value = o }) ≡ true
    → is_array (record { key = k; value = o }) ≡ false
no_array k none h = absurd (cc)
no_array k (some (string s)) h = refl
no_array k (some _) h = absurd (cc)

module _ (x : Libxrpl) where
  account_of_key-some :
      (s : Text) (key : Option x.PublicKey) (id : Option x.AccountId)
      → succeeds key || succeeds id ≡ true
      → parse_base58_account x s ≡ id
      → (a : x.AccountId) × (account_of_key x s key ≡ some a)
  account_of_key-some s none none h e = absurd (cc)
  account_of_key-some s none (some a) h e = (a, e)
  account_of_key-some s (some key) id h e = (x.calc_account_id key, refl)

  pub key_of_blob-some :
      (s : Text) (blob : Option (List ℕ))
      → names_account x s ≡ true
      → (a : x.AccountId) × (account_of_key x s (key_of_blob x s blob) ≡ some a)
  key_of_blob-some s none h =
      account_of_key-some s (parse_base58_public_key x s) (parse_base58_account x s) h refl
  key_of_blob-some s (some blob) h = elim (Bool-cases (x.is_public_key blob)) [
    | inl good ↦ rw good (x.calc_account_id (x.public_key blob), refl)
    | inr bad ↦
        rw bad
          (account_of_key-some s (parse_base58_public_key x s) (parse_base58_account x s) h refl)
  ]

  -- A value that the validator takes for an account gives one.
  parse_one_wallet-some :
      (k : Text) (o : Option Value)
      → get_account_id x (record { key = k; value = o }) ≡ true
      → (a : x.AccountId) × (parse_one_wallet x (record { key = k; value = o }) ≡ some a)
  unfolding get_account_id parse_one_wallet account_from_string_strict
  parse_one_wallet-some k none h = absurd (cc)
  parse_one_wallet-some k (some (string s)) h = key_of_blob-some s (x.str_unhex s) h
  parse_one_wallet-some k (some _) h = absurd (cc)

  check_wallet-success :
      (code : CombinedError) (key : Text) (elem : FieldView)
      → check_wallet x (malformed x code key) elem ≡ success
      → (a : x.AccountId) × (parse_one_wallet x elem ≡ some a)
  check_wallet-success code key elem h = parse_one_wallet-some elem.key elem.value (ground arith)

  text_value :
      (v : FieldView) (a : x.AccountId)
      → is_string v ≡ true
      → parse_one_wallet x v ≡ some a
      → hot_wallets_value x v ≡ ok (a ∷ [])
  unfolding hot_wallets_value
  text_value v a text e =
      let single : hot_wallets_value x v ≡ inserted x (only x (parse_one_wallet x v)) =
        rw text refl in
      single ∙ ap (λ o. inserted x (only x o)) e

  list_value :
      (v : FieldView) (xs : List x.AccountId)
      → is_string v ≡ false
      → insert_wallets x v 0 (array_size v) [] ≡ some xs
      → hot_wallets_value x v ≡ ok xs
  unfolding hot_wallets_value
  list_value v xs other e = rw (other, e) refl

  same_some : (a b : x.AccountId) → some a ≡ some b → a ≡ b
  same_some a b h = cc

  -- The accounts that a field names: its own text, or its elements.
  abbrev pub Names : FieldView → x.AccountId → Type 0
  Names v a =
      ((is_string v ≡ true) × (parse_one_wallet x v ≡ some a))
      ⊎ ((is_string v ≡ false)
          × (j : ℕ) × (j < array_size v)
          × (parse_one_wallet x (element v j) ≡ some a))

  abbrev pub IsSetOf : FieldView → Result (List x.AccountId) → Type 0
  IsSetOf v result =
      (xs : List x.AccountId) × (result ≡ ok xs)
      × Increasing x xs
      × ((a : x.AccountId) → IsMember x a xs ↔ Names v a)

  -- `operator<` of AccountID is a total order: of two different accounts, one is less.
  module _
      (total : (a b : x.AccountId)
        → x.account_less a b ≡ false
        → x.account_less b a ≡ false
        → a ≡ b) where
    -- The accounts that the rounds from `i` on insert.
    abbrev InRange : FieldView → ℕ → ℕ → x.AccountId → Type 0
    InRange v i n a = (j : ℕ) × (i ≤ j) × (j < i + n) × (parse_one_wallet x (element v j) ≡ some a)

    insert_wallets_round :
        (v : FieldView) (i n : ℕ) (result : List x.AccountId) (a : x.AccountId)
        → parse_one_wallet x (element v i) ≡ some a
        → insert_wallets x v i (suc n) result
          ≡ insert_wallets x v (i + 1) n (insert_account x a result)
    unfolding insert_wallets
    insert_wallets_round v i n result a e =
        ap (insert_next x (λ b. insert_wallets x v (i + 1) n (insert_account x b result))) e

    IsMember-insert_wallets :
        (v : FieldView) (i n : ℕ) (result xs : List x.AccountId) (a0 a : x.AccountId)
        → parse_one_wallet x (element v i) ≡ some a0
        → IsMember x a xs ↔ (IsMember x a (insert_account x a0 result) ⊎ InRange v (i + 1) n a)
        → IsMember x a xs ↔ (IsMember x a result ⊎ InRange v i (suc n) a)
    IsMember-insert_wallets v i n result xs a0 a e0 (to, from) =
        let (split, join) = IsMember-insert_account x total a a0 result in
        (
          (λ m. elim (to m) [
            | inl here ↦ elim (split here) [
              | inl e ↦ inr (i, omega arith, omega arith, e0 ∙ ap some (sym e))
              | inr before ↦ inl before
            ]
            | inr (j, lo, hi, e) ↦ inr (j, omega (arith, lo), omega (arith, hi), e)
          ]),
          (λ m. elim m [
            | inl before ↦ from (inl (join (inr before)))
            | inr (j, lo, hi, e) ↦ elim (Bool-cases (i == j)) [
              | inl same ↦
                  let at_i : i ≡ j = ground arith in
                  from (
                    inl (
                      join (
                        inl (
                          same_some a a0
                            (sym e ∙ ap (λ k. parse_one_wallet x (element v k)) (sym at_i) ∙ e0)))))
              | inr other ↦ from (inr (j, ground (arith, lo), omega (arith, hi), e))
            ]
          ]),
        )

    insert_wallets-IsMember :
        (v : FieldView) (i n : ℕ) (result : List x.AccountId)
        → ((j : ℕ)
            → i ≤ j
            → j < i + n
            → (a : x.AccountId) × (parse_one_wallet x (element v j) ≡ some a))
        → Increasing x result
        → (xs : List x.AccountId) × (insert_wallets x v i n result ≡ some xs)
          × Increasing x xs
          × ((a : x.AccountId) → IsMember x a xs ↔ (IsMember x a result ⊎ InRange v i n a))
    unfolding insert_wallets
    insert_wallets-IsMember v i zero result h s = (
      result,
      refl,
      s,
      (λ a. (
        (λ m. inl m),
        (λ m. elim m [ inl n ↦ n | inr (j, lo, hi, e) ↦ absurd (omega (arith, lo, hi)) ]),
      )),
    )
    insert_wallets-IsMember v i (suc n) result h s =
        let (a0, e0) = h i (omega arith) (omega arith) in
        let (xs, e, inc, m) =
          insert_wallets-IsMember v (i + 1) n (insert_account x a0 result)
            (λ j lo hi. h j (omega (arith, lo)) (omega (arith, hi)))
            (insert_account-Increasing x a0 result s) in
        (
          xs,
          insert_wallets_round v i n result a0 e0 ∙ e,
          inc,
          (λ a. IsMember-insert_wallets v i n result xs a0 a e0 (m a)),
        )

    -- After either validator of hot wallets has accepted a field that is present, the converter
    -- succeeds, and gives the set of the accounts that the field names, where the order of accounts is
    -- total: its own text or its elements, each account once, in order.
    pub hot_wallets_value-IsSetOf :
        (code : CombinedError) (v : FieldView)
        → present v ≡ true
        → hot_wallet x code v ≡ success
        → IsSetOf v (hot_wallets_value x v)
    unfolding hot_wallet custom_validator
    hot_wallets_value-IsSetOf code v p h = elim (Bool-cases (is_string v)) [
      | inl text ↦
          let array : is_array v ≡ false = no_array v.key v.value text in
          let checked : check_wallet x (malformed x code v.key) v ≡ success = ground arith in
          let (a, e) = check_wallet-success code v.key v checked in
          (
            a ∷ [],
            text_value v a text e,
            (tt, tt),
            (λ b. (
              (λ m. elim m [
                | inl same ↦ inl (text, e ∙ ap some (sym same))
                | inr none_left ↦ absurd none_left
              ]),
              (λ named. elim named [
                | inl (t, f) ↦ inl (same_some b a (sym f ∙ e))
                | inr (t, j, lt, f) ↦ absurd (cc)
              ]),
            )),
          )
      | inr other ↦
          let array : is_array v ≡ true = ground arith in
          let looped : for_elements (check_wallet x (malformed x code v.key)) v 0 (array_size v)
              ≡ success =
            ground arith in
          let (xs, e, s, m) =
            insert_wallets-IsMember v 0 (array_size v) []
              (λ j lo hi. check_wallet-success code v.key (element v j) (
                (for_elements-success (check_wallet x (malformed x code v.key)) v (array_size v)).0
                  looped j (omega (arith, hi))))
              tt in
          (
            xs,
            list_value v xs other e,
            s,
            (λ b. (
              (λ n. elim ((m b).0 n) [
                | inl none_before ↦ absurd none_before
                | inr (j, lo, hi, f) ↦ inr (other, j, omega (arith, hi), f)
              ]),
              (λ named. elim named [
                | inl (t, f) ↦ absurd (cc)
                | inr (t, j, lt, f) ↦ (m b).1 (inr (j, omega arith, omega (arith, lt), f))
              ]),
            )),
          )
    ]
