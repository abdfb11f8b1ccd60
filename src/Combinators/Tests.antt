-- ===== src/Combinators/Tests.antt =====
-- include/rpcspec/ServerConditional.hpp: wrapped items in the build of either server, and the
-- theorems on them applied.
use rpc_spec.Prelude.{◌≡◌, refl, true, some, List, [], ◌∷◌, str}
use rpc_spec.Json.{null, object, end, member}
use rpc_spec.Status.{clio}
use rpc_spec.View.{FieldView, ObjectView}
use rpc_spec.Field.{FieldSpec, Item, call_if_processor, run_processors}
use rpc_spec.Combinators.Sections.{as_field, section_modify-process_all}
use rpc_spec.Spec.Walk.{process_all}
use rpc_spec.Combinators.{section_modify, requirement, checker, server_conditional}
use rpc_spec.Validators.Presence.{required, deprecated, not_supported}
use rpc_spec.Typed.{if_absent}
use rpc_spec.Combinators.Wrappers.{call_if_processor-server_conditional}

-- A field that the Clio server requires and does not support otherwise.
abbrev sample_inners : List (Item (Unit {0}))
sample_inners =
    requirement Unit (required clio)
    ∷ checker Unit (deprecated clio)
    ∷ if_absent Unit (str "ledger_hash")
    ∷ requirement Unit not_supported
    ∷ []

abbrev null_field : FieldView
null_field = record { key = str "ledger"; value = some null }

abbrev empty_request : ObjectView
empty_request = record { document = object end }

call_if_processor-server_conditional_example :
    call_if_processor (server_conditional true sample_inners) null_field
    ≡ run_processors sample_inners null_field
call_if_processor-server_conditional_example =
    call_if_processor-server_conditional sample_inners null_field refl

abbrev marker_sub_fields : List FieldSpec
marker_sub_fields =
    record { key = str "ledger"; items = requirement Unit (required clio) ∷ [] }
    ∷ record { key = str "seq"; items = requirement Unit not_supported ∷ [] }
    ∷ []

section_modify-process_all_example :
    section_modify marker_sub_fields
      (record { key = str "marker"; value = some (object (member (str "ledger") null end)) })
    ≡ as_field (str "marker") (
        process_all marker_sub_fields
          (record { document = object (member (str "ledger") null end) }))
section_modify-process_all_example =
    section_modify-process_all (str "marker") marker_sub_fields (member (str "ledger") null end)
