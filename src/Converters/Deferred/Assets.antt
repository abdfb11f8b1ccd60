-- ===== src/Converters/Deferred/Assets.antt =====
-- include/rpcspec/Asset.hpp: which requests name an asset, and deferred values against the others.
use rpc_spec.Prelude.{
  ◌≡◌, ◌↔◌, ◌⊎◌, refl, subst, Text, true, false, not, ◌&&◌, ◌||◌, Option, none, some, str,
  if◌then◌else◌, Option-cases, Bool-cases, inl, inr,
}
use rpc_spec.Json.{Value, string}
use rpc_spec.View.{FieldView, present, is_string, is_object, is_null, child}
use rpc_spec.Validators.Libxrpl.{Libxrpl}
use rpc_spec.Validators.Accounts.Loops.{HasText}
use rpc_spec.Converters.Deferred.{
  malformed, value, failed, Asset, xrp_issue, issue, mpt_issue, issued_by, asset_of_currency,
  text_or, asset_of_members, asset_from_view,
}

-- A field whose value is a string.
text_cases : (v : FieldView) → (is_string v ≡ false) ⊎ ((s : Text) × HasText v s)
text_cases v = go v.key v.value
  where
    go :
        (k : Text) (o : Option Value)
        → (is_string (record { key = k; value = o }) ≡ false) ⊎ ((s : Text) × (o ≡ some (string s)))
    go k none = inl refl
    go k (some (string s)) = inr (s, refl)
    go k (some _) = inl refl

module _ (x : Libxrpl) where
  -- The members of an object that names an asset: a currency, with an issuer unless it is XRP, or
  -- else the number of an issuance of a multi-purpose token alone.
  pub data Names (currency_view issuer_view mpt_view : FieldView) : Asset x → Type 0 where
    xrp :
        (s : Text) (c : x.Currency)
        → HasText currency_view s
        → x.to_currency s ≡ some c
        → (x.is_bad_currency c || x.is_no_currency c) ≡ false
        → x.is_xrp c ≡ true
        → present mpt_view ≡ false
        → (present issuer_view && not (is_null issuer_view)) ≡ false
        → Names currency_view issuer_view mpt_view xrp_issue
    issued :
        (s t : Text) (c : x.Currency) (a : x.AccountId)
        → HasText currency_view s
        → x.to_currency s ≡ some c
        → (x.is_bad_currency c || x.is_no_currency c) ≡ false
        → x.is_xrp c ≡ false
        → present mpt_view ≡ false
        → HasText issuer_view t
        → x.parse_account_id t ≡ some a
        → (x.is_no_account a || x.is_xrp_account a) ≡ false
        → Names currency_view issuer_view mpt_view (issue c a)
    token :
        (s : Text)
        → present currency_view ≡ false
        → present issuer_view ≡ false
        → HasText mpt_view s
        → x.parse_hex 192 s ≡ true
        → Names currency_view issuer_view mpt_view (mpt_issue (x.hex_number 192 s))

  abbrev pub NamesAsset : FieldView → Asset x → Type 0
  NamesAsset v a =
      (is_object v ≡ true)
      × Names (child v (str "currency")) (child v (str "issuer")) (child v (str "mpt_issuance_id"))
          a

  asset_from_view_complete :
      (v : FieldView) (a : Asset x) → NamesAsset v a → asset_from_view x v ≡ value a
  unfolding asset_from_view
  asset_from_view_complete v _ (o, xrp s c e d strict is m i) = rw (o, e, m, d, strict, is, i) refl
  asset_from_view_complete v _ (o, issued s t c a e d strict is m i p other) =
      rw (o, e, m, d, strict, is, i, p, other) refl
  asset_from_view_complete v _ (o, token s c i m h) = rw (o, c, m, i, h) refl

  abbrev at : Text → Option Value → FieldView
  at k o = record { key = k; value = o }

  issued_sound :
      (c : x.Currency) (a : Asset x) (o : Option x.AccountId)
      → issued_by x c o ≡ value a
      → (b : x.AccountId) × (o ≡ some b)
        × ((x.is_no_account b || x.is_xrp_account b) ≡ false)
        × (issue c b ≡ a)
  issued_sound c a none h = absurd (cc)
  issued_sound c a (some b) h = elim (Bool-cases (x.is_no_account b || x.is_xrp_account b)) [
    | inl e ↦ (let h = rw e at h in absurd (cc))
    | inr e ↦ (let h = rw e at h in (b, refl, e, (let same : issue c b ≡ a = cc in same)))
  ]

  -- A currency with an issuer, or none.
  currency_sound :
      (ck ik mk s : Text) (i : Option Value) (a : Asset x) (c : x.Currency)
      → x.to_currency s ≡ some c
      → asset_of_currency x (at ik i) (some c) ≡ value a
      → Names (at ck (some (string s))) (at ik i) (at mk none) a
  currency_sound ck ik mk s i a c e h =
      elim (Bool-cases (x.is_bad_currency c || x.is_no_currency c)) [
        | inl bad ↦ (let h = rw bad at h in absurd (cc))
        | inr strict ↦ elim (Bool-cases (x.is_xrp c)) [
          | inl is ↦ (let h = rw (strict, is) at h in xrp_case strict is i h)
          | inr other ↦ (let h = rw (strict, other) at h in issued_case strict other i h)
        ]
      ]
    where
      xrp_case :
          (x.is_bad_currency c || x.is_no_currency c) ≡ false
          → x.is_xrp c ≡ true
          → (i : Option Value)
          → (if present (at ik i) && not (is_null (at ik i))
              then failed malformed
              else value (xrp_issue))
            ≡ value a
          → Names (at ck (some (string s))) (at ik i) (at mk none) a
      xrp_case strict is i h = elim (Bool-cases (present (at ik i) && not (is_null (at ik i)))) [
        | inl there ↦ (let h = rw there at h in absurd (cc))
        | inr fine ↦
            (let h = rw fine at h in
              let same : xrp_issue ≡ a = cc in
              subst (Names (at ck (some (string s))) (at ik i) (at mk none)) same
                (xrp s c refl e strict is refl fine))
      ]

      issued_case :
          (x.is_bad_currency c || x.is_no_currency c) ≡ false
          → x.is_xrp c ≡ false
          → (i : Option Value)
          → (if not (is_string (at ik i))
              then failed malformed
              else text_or x
                  (failed malformed)
                  (λ t. issued_by x c (x.parse_account_id t))
                  (at ik i))
            ≡ value a
          → Names (at ck (some (string s))) (at ik i) (at mk none) a
      issued_case strict other none h = absurd (cc)
      issued_case strict other (some (string t)) h =
          let (b, p, good, same) = issued_sound c a (x.parse_account_id t) h in
          subst (Names (at ck (some (string s))) (at ik (some (string t))) (at mk none)) same
            (issued s t c b refl e strict other refl refl p good)
      issued_case strict other (some _) h = absurd (cc)

  members_sound :
      (ck ik mk : Text) (c i m : Option Value) (a : Asset x)
      → asset_of_members x (at ck c) (at mk m) (at ik i) ≡ value a
      → Names (at ck c) (at ik i) (at mk m) a
  members_sound ck ik mk none none (some (string s)) a h = elim (Bool-cases (x.parse_hex 192 s)) [
    | inl good ↦
        (let h = rw good at h in
          let same : mpt_issue (x.hex_number 192 s) ≡ a = cc in
          subst (Names (at ck none) (at ik none) (at mk (some (string s)))) same
            (token s refl refl refl good))
    | inr bad ↦ (let h = rw bad at h in absurd (cc))
  ]
  members_sound ck ik mk none none none a h = absurd (cc)
  members_sound ck ik mk none none (some _) a h = absurd (cc)
  members_sound ck ik mk none (some i) none a h = absurd (cc)
  members_sound ck ik mk none (some i) (some m) a h = absurd (cc)
  members_sound ck ik mk (some c) i (some m) a h = absurd (cc)
  members_sound ck ik mk (some (string s)) i none a h = elim (Option-cases (x.to_currency s)) [
    | inl e ↦ (let h = rw e at h in absurd (cc))
    | inr (c, e) ↦ (let h = rw e at h in currency_sound ck ik mk s i a c e h)
  ]
  members_sound ck ik mk (some _) i none a h = absurd (cc)

  -- A field names an asset exactly if it is an object whose members do: a currency that is no
  -- placeholder, for XRP without an issuer other than null and otherwise with the address of one that
  -- is no placeholder, or the number of an issuance of a token alone. Anything else is malformed.
  pub asset_from_view_iff :
      (v : FieldView) (a : Asset x) → (asset_from_view x v ≡ value a) ↔ NamesAsset v a
  unfolding asset_from_view
  asset_from_view_iff v a = (
    (λ h. elim (Bool-cases (is_object v)) [
      | inl is ↦ (let h = rw is at h in (is, members_sound _ _ _ _ _ _ a h))
      | inr other ↦ (let h = rw other at h in absurd (cc))
    ]),
    asset_from_view_complete v a,
  )
