-- ===== src/Handlers/LedgerData.antt =====
-- include/rpcspec/handlers/ledger_data: the objects of a ledger.
use rpc_spec.Prelude.{ℕ, Text, Bool, Option, none, some, List, [], ◌∷◌, str, if◌then◌else◌}
use rpc_spec.Status.{
  Server, is_clio_build, Status, status, status_with, malformed_field, Result, ok, unexpected,
  expected_field_message, invalid_field_message, malformed_field_message,
}
use rpc_spec.View.{FieldView, is_string, as_string, is_uint32, as_uint32}
use rpc_spec.Combinators.{uint32_type}
use rpc_spec.LedgerTypes.{LedgerEntryType, is_any, ledger_entry_type_from_str}
use rpc_spec.Typed.{TypedField, bound}
use rpc_spec.Validators.Chars.{c_str}
use rpc_spec.Validators.Libxrpl.{Libxrpl, hex_from}
use rpc_spec.Converters.{from_string, JsonBool, json_bool_strict, as_uint32_value}
use rpc_spec.Ledger.{LedgerSpecifier}
use rpc_spec.Handlers.{has_json_type, at_least, is_deprecated, field, bound_field, ledger_field}

-- `MarkerValue`
pub data MarkerValue (x : Libxrpl) : Type 0 where
  hash_marker : x.HexNumber → MarkerValue x
  sequence_marker : ℕ → MarkerValue x

pub record Input (x : Libxrpl) : Type 0 where
  pub ledger : LedgerSpecifier x
  pub binary : Bool
  pub limit : Option ℕ
  pub marker : Option (MarkerValue x)
  pub out_of_order : Bool
  pub type : LedgerEntryType

module _ (server : Server) (x : Libxrpl) where
  abbrev pub hash_marker_or : Status → Option x.HexNumber → Result (MarkerValue x)
  hash_marker_or e none = unexpected e
  hash_marker_or e (some n) = ok (hash_marker n)

  abbrev pub sequence_marker_or : Status → Option ℕ → Result (MarkerValue x)
  sequence_marker_or e none = unexpected e
  sequence_marker_or e (some n) = ok (sequence_marker n)

  -- `MarkerConverter`
  unfoldable pub marker_value : FieldView → Result (MarkerValue x)
  unfolding c_str
  marker_value v =
      let malformed = status_with malformed_field (malformed_field_message server (str "marker")) in
      let refusal =
        if is_clio_build server
        then status malformed_field
        else status_with malformed_field (str "markerNotString") in
      if is_string v
      then elim (as_string v) [
        | none ↦ unexpected malformed
        | some s ↦ hash_marker_or malformed (hex_from x 256 (c_str s))
      ]
      else if is_uint32 v
      then sequence_marker_or refusal (as_uint32 v)
      else unexpected refusal

  abbrev pub unless_any : Text → LedgerEntryType → Result LedgerEntryType
  unless_any key t =
      if is_any t
      then unexpected (status_with malformed_field (invalid_field_message key))
      else ok t

  -- `LedgerEntryTypeConverter`
  unfoldable pub ledger_entry_type_value : FieldView → Result LedgerEntryType
  unfolding ledger_entry_type_from_str
  ledger_entry_type_value v =
      from_string
        (unexpected (status_with malformed_field (expected_field_message v.key (str "string"))))
        (λ s. unless_any v.key (ledger_entry_type_from_str s)) v

  unfoldable pub input_spec : List (TypedField (Input x))
  input_spec =
      ledger_field server x (λ l out. record out { ledger = l })
      ∷ bound (
          bound_field JsonBool (str "binary") 1 (λ v out. record out { binary = v.value }) ([])
            (json_bool_strict))
      ∷ bound (
          bound_field ℕ (str "limit") 2 (λ v out. record out { limit = some v })
            (has_json_type ℕ uint32_type ∷ at_least ℕ 1 ∷ []) (as_uint32_value))
      ∷ bound (
          bound_field (MarkerValue x) (str "marker") 3 (λ v out. record out { marker = some v })
            ([]) (marker_value))
      ∷ bound (
          bound_field JsonBool (str "out_of_order") 4
            (λ v out. record out { out_of_order = v.value }) ([]) (json_bool_strict))
      ∷ bound (
          bound_field LedgerEntryType (str "type") 5 (λ v out. record out { type = v }) ([])
            (ledger_entry_type_value))
      ∷ field (str "ledger") (is_deprecated (Unit {0}) server ∷ [])
      ∷ []
