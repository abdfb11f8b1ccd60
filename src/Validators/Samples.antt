-- ===== src/Validators/Samples.antt =====
-- Simple functions in place of libxrpl's, for runs on small inputs.
use rpc_spec.Prelude.{
  ℕ, Text, Option, none, some, [], ◌∷◌, length, ◌*◌, if◌then◌else◌, ltb, ◌==◌, false,
}
use rpc_spec.Prelude.Strings.{text_eq}
use rpc_spec.Validators.Libxrpl.{Libxrpl}

-- A text is an account if it begins with the letter r.
abbrev pub account_of : Text → Option ℕ
account_of [] = none
account_of (c ∷ s) = if c == 114 then some (length s) else none

abbrev pub sample_libxrpl : Libxrpl
sample_libxrpl = record {
  AccountId = ℕ;
  account_less = λ a b. ltb a b;
  PublicKey = Text;
  Currency = Text;
  str_unhex = λ s. some s;
  is_public_key = λ blob. false;
  public_key = λ blob. blob;
  calc_account_id = λ key. length key;
  parse_account_id = account_of;
  parse_public_key = λ s. none;
  is_zero = λ a. a == 0;
  parse_hex = λ bits s. (length s * 4) == bits;
  HexNumber = Text;
  hex_number = λ bits s. s;
  to_currency = λ s. if length s == 3 then some s else none;
  is_bad_currency = λ c. text_eq c (88 ∷ 82 ∷ 80 ∷ []);
  is_no_currency = λ c. false;
  is_xrp = λ c. false;
  to_issuer = account_of;
  is_no_account = λ a. false;
  is_xrp_account = λ a. a == 0;
  xrp_account = 0;
  max_credential_type_length = 64;
  max_credentials_array_size = 8;
}
