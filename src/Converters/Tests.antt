-- ===== src/Converters/Tests.antt =====
-- include/rpcspec/Converters.hpp: fields converted, and the theorems on converters applied.
use rpc_spec.Prelude.{◌≡◌, ◌↔◌, refl, Bool, false, some, [], ◌∷◌, str, ◌^◌}
use rpc_spec.Json.{
  Value, boolean, uint64, string, object, array, nil, cons, end, member, count_items, at,
}
use rpc_spec.Status.{clio, xrpld, ok}
use rpc_spec.View.{FieldView, element}
use rpc_spec.Validators.Chars.{split_at, c_str, from_chars, span_digits, digits_value, is_alnum}
use rpc_spec.Validators.Libxrpl.{
  account_from_validated, account_from_string_strict, parse_base58_account, parse_base58_public_key,
}
use rpc_spec.Validators.Accounts.{for_elements}
use rpc_spec.Validators.Arrays.{account_id_array}
use rpc_spec.Validators.Samples.{sample_libxrpl}
use rpc_spec.Converters.{
  names_field, json_bool, json_bool_of, json_bool_strict, account_marker_str, account_id,
  account_id_vec,
}
use rpc_spec.Converters.Agreement.{Agrees, converters-Agrees}
use rpc_spec.Converters.Booleans.{Reads, json_bool_iff}
use rpc_spec.Converters.Vectors.{Decodes, account_id_vec-Decodes}
use rpc_spec.Converters.Markers.{account_marker_str-xrpld}
use rpc_spec.Converters.Deferred.{value, asset_from_view, issue, deferred_account_id}
use rpc_spec.Converters.Deferred.Assets.{NamesAsset, asset_from_view_iff}
use rpc_spec.Converters.Deferred.Accounts.{deferral, deferred_account_id-account_id}

abbrev field_of : Value → FieldView
field_of v = record { key = str "f"; value = some v }

converters-Agrees_example :
    Agrees sample_libxrpl xrpld names_field 192 (field_of (string (114 ∷ [])))
converters-Agrees_example =
    converters-Agrees sample_libxrpl xrpld names_field 192 (field_of (string (114 ∷ []))) refl

-- A string that is not empty, so true for the lenient converter, and no Boolean for the strict one.
json_bool_iff_example :
    Reads (str "f") (some (string (48 ∷ [])))
    × ((b : Bool)
        → (json_bool_strict (field_of (string (48 ∷ []))) ≡ ok (json_bool_of b))
          ↔ (some (string (48 ∷ [])) ≡ some (boolean b)))
json_bool_iff_example = json_bool_iff (str "f") (some (string (48 ∷ []))) tt

-- The number is not zero, and reads as false.
large_false : json_bool (field_of (uint64 (2 ^ 63))) ≡ ok (json_bool_of false)
unfolding json_bool
large_false = refl

abbrev sample_accounts : FieldView
sample_accounts = field_of (array (cons (string (114 ∷ 49 ∷ [])) nil))

account_id_vec-Decodes_example :
    Decodes clio sample_libxrpl
      (account_from_validated sample_libxrpl)
      sample_accounts
      (account_id_vec clio sample_libxrpl sample_accounts)
unfolding account_id_array for_elements count_items element at account_from_string_strict
    parse_base58_account parse_base58_public_key is_alnum
account_id_vec-Decodes_example =
    account_id_vec-Decodes clio sample_libxrpl 4 sample_accounts refl refl

-- A hash of 64 digits, and the hint 7.
abbrev sample_marker : FieldView
sample_marker =
    field_of (string (str "0000000000000000000000000000000000000000000000000000000000000000,7"))

marker_clio :
    account_marker_str clio sample_libxrpl names_field sample_marker
    ≡ ok (str "0000000000000000000000000000000000000000000000000000000000000000,7")
unfolding account_marker_str split_at c_str from_chars span_digits digits_value str
marker_clio = refl

marker_xrpld :
    account_marker_str xrpld sample_libxrpl names_field sample_marker
    ≡ ok (str "0000000000000000000000000000000000000000000000000000000000000000,7")
marker_xrpld =
    account_marker_str-xrpld sample_libxrpl names_field sample_marker
      (str "0000000000000000000000000000000000000000000000000000000000000000,7") marker_clio

asset_from_view_iff_example :
    let v = field_of (
      object (
        member
          (str "currency")
          (string (str "USD"))
          (member (str "issuer") (string (114 ∷ 49 ∷ [])) end))) in
    (asset_from_view sample_libxrpl v ≡ value (issue (str "USD") 1))
    ↔ NamesAsset sample_libxrpl v (issue (str "USD") 1)
asset_from_view_iff_example =
    asset_from_view_iff sample_libxrpl
      (field_of (
        object (
          member (str "currency") (string (str "USD"))
            (member (str "issuer") (string (114 ∷ 49 ∷ [])) end))))
      (issue (str "USD") 1)

account_deferred :
    deferred_account_id xrpld sample_libxrpl (field_of (string (120 ∷ [])))
    ≡ deferral sample_libxrpl
        (field_of (string (120 ∷ [])))
        xrpld
        (account_id xrpld sample_libxrpl (field_of (string (120 ∷ []))))
account_deferred =
    deferred_account_id-account_id sample_libxrpl (field_of (string (120 ∷ []))) xrpld
