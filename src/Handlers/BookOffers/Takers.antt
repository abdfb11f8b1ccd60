-- ===== src/Handlers/BookOffers/Takers.antt =====
-- include/rpcspec/handlers/book_offers: the converter of an asset after its validators.
use rpc_spec.Prelude.{
  ◌≡◌, ◌∙◌, sym, ◌⊎◌, refl, Text, true, false, Option, none, some, [], ◌∷◌, str, arith, inl, inr,
  Bool-cases,
}
use rpc_spec.Json.{Value, string}
use rpc_spec.Status.{Server, clio, xrpld, XrpldError, Result, ok, unexpected, success}
use rpc_spec.View.{FieldView, present, is_string, is_object, as_string, child}
use rpc_spec.Combinators.{object_type}
use rpc_spec.Validators.Accounts.{issuer}
use rpc_spec.Validators.Presence.{type_of, custom_validator}
use rpc_spec.Validators.Libxrpl.{Libxrpl, hex_from}
use rpc_spec.Converters.Deferred.{Asset, issue}
use rpc_spec.Handlers.BookOffers.{
  xrpld_issue, xrpld_asset, xrpld_issuer, parse_xrpld, clio_asset, parse_clio, mpt_asset,
  taker_asset, check_members, taker_validator,
}

string_text :
    (k : Text) (o : Option Value)
    → is_string (record { key = k; value = o }) ≡ true
    → (s : Text) × (as_string (record { key = k; value = o }) ≡ some s)
string_text k none h = absurd (cc)
string_text k (some (string s)) h = (s, refl)
string_text k (some _) h = absurd (cc)

-- What the members of an accepted field are: a currency that is a string, or an issuance that is.
abbrev pub HasAsset : FieldView → FieldView → Type 0
HasAsset currency_view mpt_view =
    ((present mpt_view ≡ false) × (is_string currency_view ≡ true))
    ⊎ ((present mpt_view ≡ true) × (is_string mpt_view ≡ true))

check_members-HasAsset :
    (server : Server) (key : Text) (currency_view mpt_view issuer_view : FieldView)
    → check_members server key currency_view mpt_view issuer_view ≡ success
    → HasAsset currency_view mpt_view
check_members-HasAsset server key currency_view mpt_view issuer_view h =
    elim (Bool-cases (present mpt_view)) [
      | inl mpt ↦ inr (mpt, ground arith)
      | inr other ↦ inl (other, ground arith)
    ]

taker_validator-HasAsset :
    (server : Server) (v : FieldView)
    → present v ≡ true
    → taker_validator server v ≡ success
    → (server ≡ clio → is_object v ≡ true)
    → HasAsset (child v (str "currency")) (child v (str "mpt_issuance_id"))
unfolding taker_validator custom_validator
taker_validator-HasAsset clio v p h o =
    let object = o refl in
    check_members-HasAsset clio v.key (child v (str "currency")) (child v (str "mpt_issuance_id"))
      (child v (str "issuer")) (ground arith)
taker_validator-HasAsset xrpld v p h o =
    check_members-HasAsset xrpld v.key (child v (str "currency")) (child v (str "mpt_issuance_id"))
      (child v (str "issuer")) (ground arith)

is_object-accepted :
    (v : FieldView) → present v ≡ true → type_of (object_type ∷ []) v ≡ success → is_object v ≡ true
unfolding type_of
is_object-accepted v p h = ground arith

-- What the spec has accepted before the converter runs: on Clio an object, whose issuer is one.
abbrev pub Accepted : Server → Libxrpl → FieldView → Type 0
Accepted clio x v =
    (type_of (object_type ∷ []) v ≡ success)
    × (taker_validator clio v ≡ success)
    × (issuer clio x (child v (str "issuer")) ≡ success)
Accepted xrpld x v = taker_validator xrpld v ≡ success

module _ (x : Libxrpl) (amt_err isr_err : XrpldError) where
  -- On xrpld, an issue is of XRP exactly if its account is the one of XRP.
  abbrev pub IsCoherent : Server → Result (Asset x) → Type 0
  IsCoherent xrpld (ok (issue c a)) = x.is_xrp c ≡ x.is_xrp_account a
  IsCoherent _ _ = Unit

  abbrev pub Gives : Server → Option (Result (Asset x)) → Type 0
  Gives server o = (r : Result (Asset x)) × (o ≡ some r) × IsCoherent server r

  xrpld_issue-IsCoherent :
      (key : Text) (c : x.Currency) (r : Result x.AccountId)
      → IsCoherent xrpld (xrpld_issue x amt_err isr_err key c r)
  xrpld_issue-IsCoherent key c (unexpected e) = tt
  xrpld_issue-IsCoherent key c (ok a) = elim (Bool-cases (x.is_xrp c)) [
    | inl p ↦ elim (Bool-cases (x.is_xrp_account a)) [
      | inl q ↦ rw (p, q) (p ∙ sym q)
      | inr q ↦ rw (p, q) tt
    ]
    | inr p ↦ elim (Bool-cases (x.is_xrp_account a)) [
      | inl q ↦ rw (p, q) tt
      | inr q ↦ rw (p, q) (p ∙ sym q)
    ]
  ]

  xrpld_asset-IsCoherent :
      (key : Text) (issuer_view : FieldView) (o : Option x.Currency)
      → IsCoherent xrpld (xrpld_asset x amt_err isr_err key issuer_view o)
  xrpld_asset-IsCoherent key issuer_view none = tt
  xrpld_asset-IsCoherent key issuer_view (some c) =
      xrpld_issue-IsCoherent key c (xrpld_issuer x amt_err isr_err key issuer_view)

  mpt_asset-IsCoherent :
      (server : Server) (o : Option x.HexNumber) → IsCoherent server (mpt_asset x amt_err isr_err o)
  mpt_asset-IsCoherent clio o = tt
  mpt_asset-IsCoherent xrpld none = tt
  mpt_asset-IsCoherent xrpld (some n) = tt

  clio_asset-Gives :
      (key k : Text) (w : Option Value) (o : Option x.Currency)
      → issuer clio x (record { key = k; value = w }) ≡ success
      → Gives clio (clio_asset x amt_err isr_err key (record { key = k; value = w }) o)
  unfolding issuer
  clio_asset-Gives key k w none h = (_, refl, tt)
  clio_asset-Gives key k none (some c) h = elim (Bool-cases (x.is_xrp c)) [
    | inl p ↦ rw p (_, refl, tt)
    | inr p ↦ rw p (_, refl, tt)
  ]
  clio_asset-Gives key k (some (string s)) (some c) h = elim (Bool-cases (x.is_xrp c)) [
    | inl p ↦ rw p (_, refl, tt)
    | inr p ↦ rw p (_, refl, tt)
  ]
  clio_asset-Gives key k (some _) (some c) h = absurd (cc)

  parse_xrpld-Gives :
      (v : FieldView)
      → is_string (child v (str "currency")) ≡ true
      → Gives xrpld (parse_xrpld x amt_err isr_err v)
  unfolding parse_xrpld
  parse_xrpld-Gives v text =
      let currency_view = child v (str "currency") in
      let (s, e) = string_text currency_view.key currency_view.value text in
      rw (e, parse_xrpld)
        (_, refl, xrpld_asset-IsCoherent v.key (child v (str "issuer")) (x.to_currency s))

  parse_clio-Gives :
      (v : FieldView)
      → is_string (child v (str "currency")) ≡ true
      → issuer clio x (child v (str "issuer")) ≡ success
      → Gives clio (parse_clio x amt_err isr_err v)
  unfolding parse_clio
  parse_clio-Gives v text accepted =
      let currency_view = child v (str "currency") in
      let issuer_view = child v (str "issuer") in
      let (s, e) = string_text currency_view.key currency_view.value text in
      rw (e, parse_clio)
        (clio_asset-Gives v.key issuer_view.key issuer_view.value (x.to_currency s) accepted)

  mpt-Gives :
      (server : Server) (v : FieldView)
      → present (child v (str "mpt_issuance_id")) ≡ true
      → is_string (child v (str "mpt_issuance_id")) ≡ true
      → Gives server (taker_asset x amt_err isr_err server v)
  unfolding taker_asset
  mpt-Gives server v p text =
      let mpt_view = child v (str "mpt_issuance_id") in
      let (s, e) = string_text mpt_view.key mpt_view.value text in
      rw (p, e) (_, refl, mpt_asset-IsCoherent server (hex_from x 192 s))

  -- After its validators have accepted a field that is present, the converter of an asset does not
  -- throw, on either server; and an issue that it gives on xrpld is of XRP exactly if its account
  -- is the one of XRP.
  pub taker_asset-Gives :
      (server : Server) (v : FieldView)
      → present v ≡ true
      → Accepted server x v
      → Gives server (taker_asset x amt_err isr_err server v)
  unfolding taker_asset
  taker_asset-Gives clio v p (object, members, issued) =
      elim (taker_validator-HasAsset clio v p members (λ e. is_object-accepted v p object)) [
        | inl (other, text) ↦ rw other (parse_clio-Gives v text issued)
        | inr (mpt, text) ↦ mpt-Gives clio v mpt text
      ]
  taker_asset-Gives xrpld v p members =
      elim (taker_validator-HasAsset xrpld v p members (λ e. absurd (cc))) [
        | inl (other, text) ↦ rw other (parse_xrpld-Gives v text)
        | inr (mpt, text) ↦ mpt-Gives xrpld v mpt text
      ]
