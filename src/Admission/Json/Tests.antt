-- ===== src/Admission/Json/Tests.antt =====
-- include/admissionspec/JsonVisitor.hpp: a small document visited, and the theorems on visits applied.
use rpc_spec.Prelude.{
  ℕ, ◌+◌, ◌≡◌, refl, Text, true, some, [], ◌∷◌, ltb, str, arith, length, if◌then◌else◌,
}
use rpc_spec.Prelude.Int.{pos}
use rpc_spec.Prelude.Float.{double_zero}
use rpc_spec.Admission.Decision.{AdmissionDecision, VisitEvent, admit_free, drop_with}
use rpc_spec.Admission.Json.{
  ParserRun, consumed, error_code, VisitJsonOptions, visit_json, handle, handle_all, emit,
  emit_leaf, begin_container, end_container, has_error, new_visitor, on_document_begin,
  on_array_begin, on_null,
}
use rpc_spec.Admission.Json.Document.{
  Document, truth, number, text, items, fields, no_elements, element, no_members, member, signed,
  document_calls, calls, part_calls, calls_of, count_elements, count_members, size_of, events,
  nesting,
}
use rpc_spec.Admission.Json.Document.Emits.{judge}
use rpc_spec.Admission.Json.Document.Visited.{visit_json-events}
use rpc_spec.Admission.Json.Nesting.{open_after}
use rpc_spec.Admission.Json.Verdict.{IsDropped, visit_json-IsDropped}

-- The check counts the events, and drops one deeper than 1.
abbrev count_shallow : VisitEvent → ℕ → AdmissionDecision × ℕ
count_shallow e n =
    if ltb 1 e.depth then (drop_with (str "deep") double_zero, n) else (admit_free, n + 1)

abbrev options : VisitJsonOptions
options = record { cost_for_invalid_payload = double_zero; max_depth = 32 }

-- `{"ab":true,"c":"de"}`, in which the key `ab` is read in two pieces.
abbrev flat : Document
flat = fields (
    member (record { parts = (97 ∷ []) ∷ []; last = 98 ∷ [] }) (truth true)
      (member (record { parts = []; last = 99 ∷ [] })
        (text (record { parts = []; last = 100 ∷ 101 ∷ [] })) no_members))

-- `[[7]]`
abbrev deep : Document
deep = items (element (items (element (number [] (signed (pos 7))) no_elements)) no_elements)

abbrev parser_of : Document → ℕ → Text → ParserRun
parser_of v limit bytes = record {
  callbacks = document_calls v;
  parse_end = consumed (length bytes);
}

visit_flat : visit_json (parser_of flat) count_shallow options (1 ∷ 2 ∷ []) 0 ≡ some (admit_free, 7)
unfolding visit_json handle_all handle emit emit_leaf begin_container end_container has_error calls
    part_calls calls_of count_elements count_members size_of
visit_flat = refl

visit_deep :
    visit_json (parser_of deep) count_shallow options [] 0
    ≡ some (drop_with (str "deep") double_zero, 2)
unfolding visit_json handle_all handle emit emit_leaf begin_container end_container has_error calls
    part_calls calls_of count_elements count_members size_of
visit_deep = refl

visit_json-events_example :
    visit_json (parser_of deep) count_shallow options (91 ∷ 91 ∷ 55 ∷ 93 ∷ 93 ∷ []) 0
    ≡ judge count_shallow (events 0 [] deep) (λ d u. some (d, u)) admit_free 0
unfolding nesting
visit_json-events_example =
    visit_json-events count_shallow (parser_of deep) options (91 ∷ 91 ∷ 55 ∷ 93 ∷ 93 ∷ []) 0 deep
      refl (omega arith)

-- `[null x`: the parser has called for `[` and `null` when it finds the error.
abbrev broken : ℕ → Text → ParserRun
broken limit bytes = record {
  callbacks = on_document_begin ∷ on_array_begin ∷ on_null ∷ [];
  parse_end = error_code;
}

visit_json-IsDropped_example :
    IsDropped count_shallow options
      (handle_all count_shallow (on_document_begin ∷ on_array_begin ∷ on_null ∷ []) (new_visitor 0))
      (visit_json broken count_shallow options (91 ∷ 120 ∷ []) 0)
unfolding open_after has_error
visit_json-IsDropped_example =
    visit_json-IsDropped count_shallow broken options (91 ∷ 120 ∷ []) 0 1 refl (λ h. cc)
