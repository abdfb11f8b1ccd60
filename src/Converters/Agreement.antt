-- ===== src/Converters/Agreement.antt =====
-- include/rpcspec/Converters.hpp: converters against the validators that read the same fields.
use rpc_spec.Prelude.{ℕ, ◌≡◌, refl, Text, true, Option, none, some, arith, Option-cases, inl, inr}
use rpc_spec.Json.{Value, string}
use rpc_spec.Status.{
  clio, Server, not_string_field_message, Result, ok, unexpected, MaybeError, success,
}
use rpc_spec.View.{FieldView, present}
use rpc_spec.Validators.Chars.{split_at}
use rpc_spec.Validators.Libxrpl.{Libxrpl}
use rpc_spec.Validators.Accounts.{account_format, hex_string}
use rpc_spec.Validators.Entries.{account_marker}
use rpc_spec.Converters.{MalformedMarker, account_id, as_hex, ledger_hash_hex, account_marker_str}

-- What a conversion says of the field, without the value.
abbrev pub verdict {ℓ} : {A : Type ℓ} → Result A → MaybeError
verdict (ok a) = success
verdict (unexpected e) = unexpected e

module _ (x : Libxrpl) where
  as_hex-hex_string :
      (server : Server) (bits : ℕ) (k : Text) (o : Value)
      → verdict (as_hex server x bits (record { key = k; value = some o }))
        ≡ hex_string server x bits (record { key = k; value = some o })
  unfolding as_hex hex_string
  as_hex-hex_string server bits k (string s) = ground arith
  as_hex-hex_string server bits k _ = refl

  ledger_hash_hex-hex_string :
      (server : Server) (k : Text) (o : Value)
      → verdict (ledger_hash_hex server x (record { key = k; value = some o }))
        ≡ hex_string server x 256 (record { key = k; value = some o })
  unfolding ledger_hash_hex hex_string
  ledger_hash_hex-hex_string server k (string s) = ground arith
  ledger_hash_hex-hex_string server k _ = refl

  account_id-account_format :
      (k : Text) (o : Value)
      → verdict (account_id clio x (record { key = k; value = some o }))
        ≡ account_format clio x (record { key = k; value = some o })
  unfolding account_id account_format not_string_field_message
  account_id-account_format k (string s) = ground arith
  account_id-account_format k _ = refl

  account_marker_str-account_marker :
      (m : MalformedMarker) (k : Text) (o : Value)
      → verdict (account_marker_str clio x m (record { key = k; value = some o }))
        ≡ account_marker clio x (record { key = k; value = some o })
  unfolding account_marker_str account_marker not_string_field_message
  account_marker_str-account_marker m k (string s) = elim (Option-cases (split_at b',' s)) [
    | inl e ↦ rw e
    | inr ((hex_part, hint_part), e) ↦ rw e (ground arith)
  ]
  account_marker_str-account_marker m k _ = refl

  -- The converters refuse what the validators of the same fields refuse, with the same error.
  pub record Agrees (server : Server) (m : MalformedMarker) (bits : ℕ) (v : FieldView)
      : Type 0 where
    pub hex : verdict (as_hex server x bits v) ≡ hex_string server x bits v
    pub hash : verdict (ledger_hash_hex server x v) ≡ hex_string server x 256 v
    pub account : verdict (account_id clio x v) ≡ account_format clio x v
    pub marker : verdict (account_marker_str clio x m v) ≡ account_marker clio x v

  Agrees-value :
      (server : Server) (m : MalformedMarker) (bits : ℕ) (k : Text) (o : Option Value)
      → present (record { key = k; value = o }) ≡ true
      → Agrees server m bits (record { key = k; value = o })
  Agrees-value server m bits k none p = absurd (cc)
  Agrees-value server m bits k (some o) p = record {
    hex = as_hex-hex_string server bits k o;
    hash = ledger_hash_hex-hex_string server k o;
    account = account_id-account_format k o;
    marker = account_marker_str-account_marker m k o;
  }

  -- On a field that is present, the converters of hexadecimal numbers and of ledger hashes succeed
  -- exactly if the validator of such a field does, and fail with its error, on either server; so do
  -- the converters of accounts and of markers on Clio.
  pub converters-Agrees :
      (server : Server) (m : MalformedMarker) (bits : ℕ) (v : FieldView)
      → present v ≡ true
      → Agrees server m bits v
  converters-Agrees server m bits v p = Agrees-value server m bits v.key v.value p
