-- ===== src/Ledger.antt =====
-- include/rpcspec/Ledger.hpp: the ledger that a request is about.
pub mod Indices
pub mod Requests
pub mod Clio
pub mod Selector
mod Tests
use rpc_spec.Prelude.{
  ℕ, ◌+◌, Text, Bool, true, false, not, ◌&&◌, ◌||◌, Option, none, some, [], ltb, ◌==◌, length, str,
  text_eq, is_empty, if◌then◌else◌,
}
use rpc_spec.Status.{
  Server, is_clio_build, is_xrpld_build, Status, status_with, malformed_field, Result, MaybeError,
  success, ok, unexpected, malformed_ledger_index_message, not_string_field_message,
  malformed_field_message, expected_field_message,
}
use rpc_spec.View.{
  FieldView, ObjectView, present, is_string, as_string, is_uint32, as_uint32, is_int64, root_child,
  uint32_max,
}
use rpc_spec.Validators.Chars.{c_str, from_chars, all_read, drop_plus}
use rpc_spec.Validators.Libxrpl.{Libxrpl, hex_from}
use rpc_spec.Typed.{CustomField}
use rpc_spec.Converters.{or_status}

pub data LedgerShortcut : Type 0 where
  validated current closed : LedgerShortcut

-- `kDefaultLedgerShortcut`
abbrev pub default_ledger_shortcut : Server → LedgerShortcut
default_ledger_shortcut server = if is_clio_build server then validated else current

module _ (x : Libxrpl) where
  -- `LedgerSpecifier`
  pub data LedgerSpecifier : Type 0 where
    unspecified : LedgerSpecifier
    shortcut : LedgerShortcut → LedgerSpecifier
    hash : x.HexNumber → LedgerSpecifier
    sequence : ℕ → LedgerSpecifier

  -- `resolved`
  unfoldable pub resolved : Server → LedgerSpecifier → LedgerSpecifier
  resolved server unspecified = shortcut (default_ledger_shortcut server)
  resolved server (shortcut s) = shortcut s
  resolved server (hash h) = hash h
  resolved server (sequence n) = sequence n

  abbrev pub sequence_or : Status → Option ℕ → Result LedgerSpecifier
  sequence_or e none = unexpected e
  sequence_or e (some n) = ok (sequence n)

  abbrev pub hash_or : Status → Option x.HexNumber → Result LedgerSpecifier
  hash_or e none = unexpected e
  hash_or e (some h) = ok (hash h)

  abbrev pub text_or : Status → (Text → Result LedgerSpecifier) → FieldView → Result LedgerSpecifier
  text_or e f v = elim (as_string v) [ none ↦ unexpected e | some s ↦ f s ]

  module _ (server : Server) where
    abbrev pub invalid_index : Status
    invalid_index = status_with malformed_field (malformed_ledger_index_message server)

    abbrev pub index_text : Text → Result LedgerSpecifier
    index_text s =
        if text_eq s (str "validated")
        then ok (shortcut validated)
        else sequence_or invalid_index (all_read (from_chars uint32_max s))

    -- `ledgerSpecifierFromIndex`
    unfoldable pub ledger_specifier_from_index : FieldView → Result LedgerSpecifier
    ledger_specifier_from_index v =
        if is_uint32 v
        then sequence_or invalid_index (as_uint32 v)
        else if is_int64 v
        then unexpected invalid_index
        else if not (is_string v)
        then unexpected invalid_index
        else text_or invalid_index index_text v

    abbrev pub bad_hash : Status
    bad_hash = status_with malformed_field (malformed_field_message server (str "ledger_hash"))

    -- `ledgerSpecifierFromHash`
    unfoldable pub ledger_specifier_from_hash : FieldView → Result LedgerSpecifier
    unfolding c_str
    ledger_specifier_from_hash v =
        if not (is_string v)
        then unexpected
            (status_with malformed_field (not_string_field_message server (str "ledger_hash")))
        else text_or bad_hash (λ s. hash_or bad_hash (hex_from x 256 (c_str s))) v

  abbrev pub expected : Text → Text → Status
  expected key what = status_with malformed_field (expected_field_message key what)

  -- `xrpldLedgerFromHash`
  unfoldable pub xrpld_ledger_from_hash : FieldView → Result LedgerSpecifier
  unfolding c_str
  xrpld_ledger_from_hash v =
      let refusal = expected v.key (str "hex string") in
      text_or refusal (λ s. hash_or refusal (hex_from x 256 (c_str s))) v

  abbrev pub xrpld_index_text : Status → Text → Result LedgerSpecifier
  xrpld_index_text refusal s =
      if text_eq s (str "current") || is_empty s
      then ok (shortcut current)
      else if text_eq s (str "validated")
      then ok (shortcut validated)
      else if text_eq s (str "closed")
      then ok (shortcut closed)
      else sequence_or refusal (all_read (from_chars uint32_max (drop_plus s)))

  -- `xrpldLedgerFromIndex`
  unfoldable pub xrpld_ledger_from_index : FieldView → Result LedgerSpecifier
  unfolding from_chars
  xrpld_ledger_from_index v =
      let refusal = expected v.key (str "string or number") in
      if not (is_string v)
      then (if is_uint32 v then sequence_or refusal (as_uint32 v) else unexpected refusal)
      else text_or refusal (xrpld_index_text refusal) v

  abbrev pub one_if : Bool → ℕ
  one_if b = if b then 1 else 0

  abbrev pub is_string_or_integer : FieldView → Bool
  is_string_or_integer v = is_string v || is_int64 v

  abbrev pub has_length : ℕ → Option Text → Bool
  has_length n none = false
  has_length n (some s) = length s == n

  abbrev pub too_many : Bool → Status
  too_many legacy = status_with malformed_field (
      if legacy
      then str "Exactly one of 'ledger', 'ledger_hash', or 'ledger_index' can be specified."
      else str "Exactly one of 'ledger_hash' or 'ledger_index' can be specified.")

  -- `xrpldLedgerFromRequest`, on the views of `ledger`, `ledger_hash` and `ledger_index`.
  unfoldable pub xrpld_ledger_from_views :
      FieldView → FieldView → FieldView → Result LedgerSpecifier
  unfolding xrpld_ledger_from_hash xrpld_ledger_from_index
  xrpld_ledger_from_views legacy_view hash_view index_view =
      if ltb 1
        ((one_if (present legacy_view) + one_if (present hash_view)) + one_if (present index_view))
      then unexpected (too_many (present legacy_view))
      else if present legacy_view
      then (if not (is_string_or_integer legacy_view)
          then unexpected (expected (str "ledger") (str "string or number"))
          else if is_string legacy_view && has_length 64 (as_string legacy_view)
          then xrpld_ledger_from_hash legacy_view
          else xrpld_ledger_from_index legacy_view)
      else if present hash_view
      then (if not (is_string hash_view)
          then unexpected (expected (str "ledger_hash") (str "hex string"))
          else xrpld_ledger_from_hash hash_view)
      else if present index_view
      then (if not (is_string_or_integer index_view)
          then unexpected (expected (str "ledger_index") (str "string or number"))
          else xrpld_ledger_from_index index_view)
      else ok unspecified

  unfoldable pub xrpld_ledger_from_request : ObjectView → Result LedgerSpecifier
  unfolding xrpld_ledger_from_views
  xrpld_ledger_from_request root =
      xrpld_ledger_from_views (root_child root (str "ledger")) (root_child root (str "ledger_hash"))
        (root_child root (str "ledger_index"))

  module _ {I : Type 0} (server : Server) (store : LedgerSpecifier → I → I) where
    abbrev pub stored : Result LedgerSpecifier → ObjectView × I → MaybeError × (ObjectView × I)
    stored (ok l) (root, out) = (success, (root, store l out))
    stored (unexpected e) s = (unexpected e, s)

    abbrev pub after_index :
        Result LedgerSpecifier → Result LedgerSpecifier → Result LedgerSpecifier
    after_index (ok l) res = res
    after_index (unexpected e) res = unexpected e

    -- The hash goes first, and the index beside it is validated and dropped.
    abbrev pub clio_ledger : FieldView → FieldView → ObjectView × I → MaybeError × (ObjectView × I)
    clio_ledger hash_view index_view s =
        let hashed = ledger_specifier_from_hash server hash_view in
        let indexed = ledger_specifier_from_index server index_view in
        if present hash_view
        then elim hashed [
          | unexpected e ↦ (unexpected e, s)
          | ok l ↦ stored (if present index_view then after_index indexed (ok l) else ok l) s
        ]
        else if present index_view
        then stored indexed s
        else (success, s)

    -- `LedgerSelectorField::parseInto`
    unfoldable pub parse_ledger : ObjectView × I → MaybeError × (ObjectView × I)
    unfolding ledger_specifier_from_hash ledger_specifier_from_index xrpld_ledger_from_request
    parse_ledger (root, out) =
        if is_xrpld_build server
        then stored (xrpld_ledger_from_request root) (root, out)
        else clio_ledger (root_child root (str "ledger_hash"))
            (root_child root (str "ledger_index")) (root, out)

    -- `ledgerSelector`, for a member with such a number.
    unfoldable pub ledger_selector : ℕ → CustomField I
    unfolding parse_ledger
    ledger_selector slot = record {
      key = str "ledger_index";
      slot = slot;
      parse_custom = parse_ledger;
      check_custom = λ root. [];
    }
