-- ===== src/Ledger/Tests.antt =====
-- include/rpcspec/Ledger.hpp: requests that name a ledger, and the theorems on them applied.
use rpc_spec.Prelude.{◌≡◌, ◌↔◌, refl, none, some, str}
use rpc_spec.Prelude.Strings.{text_eq}
use rpc_spec.Json.{string, object, end, member, find}
use rpc_spec.Status.{clio, ok, success}
use rpc_spec.View.{ObjectView, root_child}
use rpc_spec.Validators.Chars.{from_chars, span_digits, digits_value}
use rpc_spec.Validators.Samples.{sample_libxrpl}
use rpc_spec.Ledger.{
  ledger_specifier_from_index, parse_ledger, sequence, xrpld_ledger_from_request,
  xrpld_ledger_from_views, xrpld_ledger_from_index,
}
use rpc_spec.Ledger.Clio.{keep, ClioSelects, parse_ledger_iff}
use rpc_spec.Ledger.Requests.{Selects, xrpld_ledger_from_request_iff}

-- `{"ledger_index": "+42"}`
abbrev by_numeral : ObjectView
by_numeral = record { document = object (member (str "ledger_index") (string (str "+42")) end) }

select_numeral : xrpld_ledger_from_request sample_libxrpl by_numeral ≡ ok (sequence 42)
unfolding xrpld_ledger_from_request xrpld_ledger_from_views xrpld_ledger_from_index root_child find
    str text_eq from_chars span_digits digits_value
select_numeral = refl

xrpld_ledger_from_request_iff_example :
    (xrpld_ledger_from_request sample_libxrpl by_numeral ≡ ok (sequence 42))
    ↔ Selects sample_libxrpl
        (root_child by_numeral (str "ledger"))
        (root_child by_numeral (str "ledger_hash"))
        (root_child by_numeral (str "ledger_index"))
        (sequence 42)
xrpld_ledger_from_request_iff_example =
    xrpld_ledger_from_request_iff sample_libxrpl by_numeral (sequence 42)

-- `{"ledger_index": "42"}`
abbrev by_digits : ObjectView
by_digits = record { document = object (member (str "ledger_index") (string (str "42")) end) }

select_digits :
    parse_ledger sample_libxrpl clio (keep sample_libxrpl) (by_digits, none)
    ≡ (success, (by_digits, some (sequence 42)))
unfolding parse_ledger ledger_specifier_from_index root_child find str text_eq from_chars
    span_digits digits_value
select_digits = refl

parse_ledger_iff_example :
    (parse_ledger sample_libxrpl clio (keep sample_libxrpl) (by_digits, none)
      ≡ (success, (by_digits, some (sequence 42))))
    ↔ ClioSelects sample_libxrpl
        (root_child by_digits (str "ledger_hash"))
        (root_child by_digits (str "ledger_index"))
        (some (sequence 42))
parse_ledger_iff_example = parse_ledger_iff sample_libxrpl by_digits (some (sequence 42))
