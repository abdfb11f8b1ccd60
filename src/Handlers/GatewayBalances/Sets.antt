-- ===== src/Handlers/GatewayBalances/Sets.antt =====
-- include/rpcspec/handlers/gateway_balances: `std::set<xrpl::AccountID>` as its elements in order.
use rpc_spec.Prelude.{◌≡◌, ◌⊎◌, ◌↔◌, ◌∙◌, true, false, List, [], ◌∷◌, inl, inr, Bool-cases}
use rpc_spec.Validators.Libxrpl.{Libxrpl}
use rpc_spec.Handlers.GatewayBalances.{insert_account}

module _ (x : Libxrpl) where
  abbrev pub IsMember : x.AccountId → List x.AccountId → Type 0
  IsMember a [] = ⊥
  IsMember a (b ∷ bs) = (a ≡ b) ⊎ IsMember a bs

  abbrev pub Precedes : x.AccountId → List x.AccountId → Type 0
  Precedes a [] = Unit
  Precedes a (b ∷ bs) = x.account_less a b ≡ true

  -- The elements of a set stand in their order, each once.
  abbrev pub Increasing : List x.AccountId → Type 0
  Increasing [] = Unit
  Increasing (a ∷ bs) = Precedes a bs × Increasing bs

  Precedes-insert_account :
      (b a : x.AccountId) (bs : List x.AccountId)
      → x.account_less b a ≡ true
      → Precedes b bs
      → Precedes b (insert_account x a bs)
  unfolding insert_account
  Precedes-insert_account b a [] h p = h
  Precedes-insert_account b a (c ∷ cs) h p = elim (Bool-cases (x.account_less a c)) [
    | inl first ↦ rw first h
    | inr other ↦ elim (Bool-cases (x.account_less c a)) [
      | inl later ↦ rw (other, later) p
      | inr same ↦ rw (other, same) p
    ]
  ]

  pub insert_account-Increasing :
      (a : x.AccountId) (bs : List x.AccountId) → Increasing bs → Increasing (insert_account x a bs)
  unfolding insert_account
  insert_account-Increasing a [] h = (tt, tt)
  insert_account-Increasing a (b ∷ bs) (p, h) = elim (Bool-cases (x.account_less a b)) [
    | inl first ↦ rw first (first, (p, h))
    | inr other ↦ elim (Bool-cases (x.account_less b a)) [
      | inl later ↦
          rw (other, later)
            (Precedes-insert_account b a bs later p, insert_account-Increasing a bs h)
      | inr same ↦ rw (other, same) (p, h)
    ]
  ]

  -- `operator<` of AccountID is a total order: of two different accounts, one is less.
  module _
      (total : (a b : x.AccountId)
        → x.account_less a b ≡ false
        → x.account_less b a ≡ false
        → a ≡ b) where
    pub IsMember-insert_account :
        (c a : x.AccountId) (bs : List x.AccountId)
        → IsMember c (insert_account x a bs) ↔ ((c ≡ a) ⊎ IsMember c bs)
    unfolding insert_account
    IsMember-insert_account c a [] = ((λ h. h), (λ h. h))
    IsMember-insert_account c a (b ∷ bs) = elim (Bool-cases (x.account_less a b)) [
      | inl first ↦ rw first ((λ h. h), (λ h. h))
      | inr other ↦ elim (Bool-cases (x.account_less b a)) [
        | inl later ↦
            let (to, from) = IsMember-insert_account c a bs in
            rw (other, later)
              (
                (λ h. elim h [
                  | inl e ↦ inr (inl e)
                  | inr m ↦ elim (to m) [ inl e ↦ inl e | inr n ↦ inr (inr n) ]
                ]),
                (λ h. elim h [
                  | inl e ↦ inr (from (inl e))
                  | inr m ↦ elim m [ inl e ↦ inl e | inr n ↦ inr (from (inr n)) ]
                ]),
              )
        | inr same ↦
            let e = total a b other same in
            rw (other, same) ((λ h. inr h), (λ h. elim h [ inl c_a ↦ inl (c_a ∙ e) | inr m ↦ m ]))
      ]
    ]
