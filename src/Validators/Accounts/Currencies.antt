-- ===== src/Validators/Accounts/Currencies.antt =====
-- include/rpcspec/Validators.hpp: what the validators of hashes and of currencies accept.
use rpc_spec.Prelude.{
  ℕ, ◌≡◌, ◌↔◌, refl, Text, true, false, Option, none, some, [], ◌∷◌, ◌++◌, arith, if◌then◌else◌,
}
use rpc_spec.Json.{string}
use rpc_spec.Status.{Server, success}
use rpc_spec.View.{FieldView}
use rpc_spec.Validators.Chars.{c_str}
use rpc_spec.Validators.Libxrpl.{Libxrpl}
use rpc_spec.Validators.Accounts.{hex_string, currency, strict_currency, is_strict, bad_currency}
use rpc_spec.Validators.Accounts.Loops.{and_then-success}

module _ (server : Server) (x : Libxrpl) where
  c_str-append : (s t : Text) → c_str (s ++ 0 ∷ t) ≡ c_str s
  unfolding c_str
  c_str-append [] t = refl
  c_str-append (c ∷ s) t = ground (arith, c_str-append s t)

  -- A string of hexadecimal digits is accepted or refused by what stands in front of its first zero
  -- byte: whatever follows such a byte is not looked at.
  pub hex_string-zero_byte :
      (bits : ℕ) (k s t : Text)
      → hex_string server x bits (record { key = k; value = some (string (s ++ 0 ∷ t)) })
        ≡ hex_string server x bits (record { key = k; value = some (string s) })
  unfolding hex_string
  hex_string-zero_byte bits k s t = rw (c_str-append s t)

  -- A text that names a currency, and none of the two that stand for bad input.
  abbrev pub IsStrictCurrency : Text → Type 0
  IsStrictCurrency s =
      (c : x.Currency) × (x.to_currency s ≡ some c)
      × (x.is_bad_currency c ≡ false)
      × (x.is_no_currency c ≡ false)

  is_strict_sound :
      (o : Option x.Currency)
      → is_strict server x o ≡ true
      → (c : x.Currency) × (o ≡ some c)
        × (x.is_bad_currency c ≡ false)
        × (x.is_no_currency c ≡ false)
  is_strict_sound none h = cc
  is_strict_sound (some c) h = (c, refl, ground arith, ground arith)

  strict_test :
      (o : Option x.Currency)
      → (if is_strict server x o then success else bad_currency server x) ≡ success
      → is_strict server x o ≡ true
  strict_test o h = ground arith

  -- The strict validator accepts a string exactly if the other one does and the currency that it
  -- names is neither of the two that stand for bad input.
  pub strict_currency_iff :
      (k s : Text)
      → let v : FieldView = record { key = k; value = some (string s) } in
        (strict_currency server x v ≡ success)
        ↔ ((currency server x v ≡ success) × IsStrictCurrency s)
  unfolding strict_currency
  strict_currency_iff k s =
      let v : FieldView = record { key = k; value = some (string s) } in
      (
        (λ h.
            let (first, second) = (and_then-success (currency server x v) _).0 h in
            (first, is_strict_sound (x.to_currency s) (strict_test (x.to_currency s) second))),
        (λ (first, (c, e, bad, neither)).
            (and_then-success (currency server x v) _).1 (first, rw (e, bad, neither))),
      )
