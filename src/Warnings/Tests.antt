-- ===== src/Warnings/Tests.antt =====
-- include/rpcspec/backends/BoostJson.hpp: warnings written out.
use rpc_spec.Prelude.{◌≡◌, ℕ, List, some, [], ◌∷◌, ◌++◌, str}
use rpc_spec.Json.{object, nil, cons}
use rpc_spec.Status.{WarningCode, warn_rpc_deprecated, warn_rpc_outdated, Warning, Warnings}
use rpc_spec.Warnings.{deprecated_info, outdated_info, to_json_array}
use rpc_spec.Warnings.Grouped.{messages_of}
use rpc_spec.Warnings.Format.{wire_object, to_json_array-wire_format}

abbrev warning : WarningCode → List ℕ → Warning
warning c m = record { code = c; field = []; message = m }

abbrev three_warnings : Warnings
three_warnings =
    warning warn_rpc_deprecated (str "a")
    ∷ warning warn_rpc_outdated (str "b")
    ∷ warning warn_rpc_deprecated (str "c")
    ∷ []

-- The later code first in the request, and twice.
to_json_array-wire_format_example :
    to_json_array three_warnings
    ≡ some (
        cons (object (wire_object warn_rpc_outdated (outdated_info.message ++ str " b"))) (
          cons
            (object (wire_object warn_rpc_deprecated (deprecated_info.message ++ str " a c")))
            nil))
unfolding messages_of str
to_json_array-wire_format_example = to_json_array-wire_format three_warnings
