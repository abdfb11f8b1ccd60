-- ===== src/Validators/Libxrpl.antt =====
-- The functions of libxrpl that the library calls, which are parameters of the model, and
-- include/rpcspec/detail/XrplParse.hpp, which calls them.
use rpc_spec.Prelude.{ℕ, Text, Bool, Option, none, some, List, all, if◌then◌else◌}
use rpc_spec.Validators.Chars.{is_alnum, c_str}

pub record Libxrpl : Type 1 where
  pub AccountId : Type 0
  -- `a < b`
  pub account_less : AccountId → AccountId → Bool
  pub PublicKey : Type 0
  pub Currency : Type 0
  -- `strUnHex`
  pub str_unhex : Text → Option (List ℕ)
  -- `publicKeyType(...)` has a value.
  pub is_public_key : List ℕ → Bool
  pub public_key : List ℕ → PublicKey
  pub calc_account_id : PublicKey → AccountId
  -- `parseBase58<AccountID>` and `parseBase58<PublicKey>(TokenType::AccountPublic, ...)`
  pub parse_account_id : Text → Option AccountId
  pub parse_public_key : Text → Option PublicKey
  pub is_zero : AccountId → Bool
  -- `parseHex` of the unsigned type with so many bits, on a C string: whether it succeeds.
  pub parse_hex : ℕ → Text → Bool
  -- The number that it leaves where it succeeds.
  pub HexNumber : Type 0
  pub hex_number : ℕ → Text → HexNumber
  pub to_currency : Text → Option Currency
  pub is_bad_currency : Currency → Bool
  pub is_no_currency : Currency → Bool
  pub is_xrp : Currency → Bool
  pub to_issuer : Text → Option AccountId
  pub is_no_account : AccountId → Bool
  pub is_xrp_account : AccountId → Bool
  -- `xrpAccount()`
  pub xrp_account : AccountId
  pub max_credential_type_length : ℕ
  pub max_credentials_array_size : ℕ

abbrev pub when_alnum {ℓ} : {A : Type ℓ} → Text → Option A → Option A
when_alnum s o = if all is_alnum s then o else none

module _ (x : Libxrpl) where
  -- `parseBase58Wrapper<AccountID>` and `parseBase58Wrapper<PublicKey>`
  unfoldable pub parse_base58_account : Text → Option x.AccountId
  unfolding is_alnum
  parse_base58_account s = when_alnum s (x.parse_account_id s)

  unfoldable pub parse_base58_public_key : Text → Option x.PublicKey
  unfolding is_alnum
  parse_base58_public_key s = when_alnum s (x.parse_public_key s)

  abbrev pub key_of_blob : Text → Option (List ℕ) → Option x.PublicKey
  key_of_blob s none = parse_base58_public_key s
  key_of_blob s (some blob) =
      if x.is_public_key blob then some (x.public_key blob) else parse_base58_public_key s

  abbrev pub account_of_key : Text → Option x.PublicKey → Option x.AccountId
  account_of_key s none = parse_base58_account s
  account_of_key s (some key) = some (x.calc_account_id key)

  -- `accountFromStringStrict`
  unfoldable pub account_from_string_strict : Text → Option x.AccountId
  unfolding parse_base58_account parse_base58_public_key
  account_from_string_strict s = account_of_key s (key_of_blob s (x.str_unhex s))

  -- `parseHex` into a number of so many bits.
  abbrev pub hex_from : ℕ → Text → Option x.HexNumber
  hex_from bits s = if x.parse_hex bits s then some (x.hex_number bits s) else none

  -- The conversions of texts that a validator has accepted; `none` is the exception they throw.
  unfoldable pub account_from_validated : Text → Option x.AccountId
  unfolding account_from_string_strict
  account_from_validated s = account_from_string_strict s

  unfoldable pub uint192_from_validated : Text → Option x.HexNumber
  unfolding c_str
  uint192_from_validated s = hex_from 192 (c_str s)

  unfoldable pub uint256_from_validated : Text → Option x.HexNumber
  unfolding c_str
  uint256_from_validated s = hex_from 256 (c_str s)

  unfoldable pub currency_from_validated : Text → Option x.Currency
  currency_from_validated s = x.to_currency s

  unfoldable pub issuer_from_validated : Text → Option x.AccountId
  issuer_from_validated s = x.to_issuer s
