-- ===== src/Admission/Json/Document/Visited.antt =====
-- include/admissionspec/JsonVisitor.hpp: the visitor run on the calls for a document.
use rpc_spec.Prelude.{
  ℕ, ◌+◌, ◌<◌, ◌^◌, ◌≡◌, refl, ◌∙◌, Text, true, false, Option, none, some, List, [], ◌∷◌, ◌++◌,
  arith, length, Bool-cases, inl, inr, ◌==◌,
}
use rpc_spec.Admission.Decision.{AdmissionDecision, admit_free, dropped, VisitEvent}
use rpc_spec.Prelude.Float.{Double}
use rpc_spec.Admission.Json.{
  on_document_end, on_null, on_bool, handle, handle_all, emit, emit_leaf, ParserRun, consumed,
  has_error, VisitJsonOptions, visit_json, visited, final_decision, new_visitor, JsonVisitor,
}
use rpc_spec.Admission.Json.Document.{
  Document, nothing, truth, number, text, items, fields, commented, Elements, no_elements, element,
  Members, no_members, member, count_elements, count_members, calls, document_calls, element_calls,
  member_calls, key_of, events, element_events, member_events, nesting, element_nesting,
  member_nesting,
}
use rpc_spec.Admission.Json.Document.Emits.{place, judge, Emits, Emits-append, call-Emits}
use rpc_spec.Admission.Json.Document.Parts.{
  key-Emits, text-Emits, number-Emits, comment-Emits, array-Emits, object-Emits,
}

module _ {S : Type 0} (check : VisitEvent → S → AdmissionDecision × S) where
  mutual
    unfolding calls events nesting handle emit emit_leaf judge

    document-Emits :
        (depth : ℕ) (keys : List Text) (k : Text) (v : Document)
        → depth + nesting v < 2 ^ 32
        → Emits check (calls v) (events depth k v) (place depth keys k) (place depth keys [])
    document-Emits depth keys k nothing h =
        call-Emits check on_null _ (place depth keys k) (place depth keys []) (λ d s. refl)
    document-Emits depth keys k (truth b) h =
        call-Emits check (on_bool b) _ (place depth keys k) (place depth keys []) (λ d s. refl)
    document-Emits depth keys k (number parts n) h = number-Emits check depth keys k parts n
    document-Emits depth keys k (text p) h = text-Emits check depth keys k p
    document-Emits depth keys k (items vs) h =
        array-Emits check depth (element_nesting vs) (count_elements vs) keys k _ _ h
          (elements-Emits (depth + 1) (k ∷ keys) vs (omega (arith, h)))
    document-Emits depth keys k (fields m) h =
        object-Emits check depth (member_nesting m) (count_members m) keys k _ _ h
          (members-Emits (depth + 1) (k ∷ keys) m (omega (arith, h)))
    document-Emits depth keys k (commented p v) h =
        Emits-append check _ (calls v) _ (events depth k v) (place depth keys k)
          (place depth keys k) (place depth keys []) (comment-Emits check depth keys k p)
          (document-Emits depth keys k v h)

    elements-Emits :
        (depth : ℕ) (keys : List Text) (vs : Elements)
        → depth + element_nesting vs < 2 ^ 32
        → Emits check
            (element_calls vs)
            (element_events depth vs)
            (place depth keys [])
            (place depth keys [])
    elements-Emits depth keys no_elements h rest d s = refl
    elements-Emits depth keys (element v vs) h rest d s =
        Emits-append check (calls v) (element_calls vs) (events depth [] v)
          (element_events depth vs) (place depth keys []) (place depth keys [])
          (place depth keys []) (document-Emits depth keys [] v (omega (arith, h)))
          (elements-Emits depth keys vs (omega (arith, h))) rest d s

    members-Emits :
        (depth : ℕ) (keys : List Text) (m : Members)
        → depth + member_nesting m < 2 ^ 32
        → Emits check
            (member_calls m)
            (member_events depth m)
            (place depth keys [])
            (place depth keys [])
    members-Emits depth keys no_members h rest d s = refl
    members-Emits depth keys (member k v m) h rest d s =
        let here = place depth keys [] in
        Emits-append check _ (calls v ++ member_calls m) _
          (events depth (key_of k) v ++ member_events depth m) here (place depth keys (key_of k))
          here (key-Emits check depth keys k)
          (Emits-append check (calls v) (member_calls m) (events depth (key_of k) v)
            (member_events depth m) (place depth keys (key_of k)) here here
            (document-Emits depth keys (key_of k) v (omega (arith, h)))
            (members-Emits depth keys m (omega (arith, h))))
          rest d s

  visited-final_decision :
      (cost : Double) (v : Option (JsonVisitor S))
      → visited (final_decision false cost) v ≡ visited (λ d. d) v
  visited-final_decision cost none = refl
  visited-final_decision cost (some v) = elim (Bool-cases (dropped v.decision)) [
    | inl drops ↦ rw drops refl
    | inr goes_on ↦ rw goes_on refl
  ]

  -- Visiting a document, all of whose bytes the parser reads, gives the check the document's events in
  -- order, each with the key of the member that it belongs to, the number of containers around it and
  -- the size that the parser gives, up to the first event that the check does not admit; the last
  -- decision is the outcome. The containers are not nested deeper than the numbers of `uint32_t`.
  pub visit_json-events :
      (parser : ℕ → Text → ParserRun) (options : VisitJsonOptions) (bytes : Text) (s : S)
      (v : Document)
      → parser options.max_depth bytes
        ≡ record { callbacks = document_calls v; parse_end = consumed (length bytes) }
      → nesting v < 2 ^ 32
      → visit_json parser check options bytes s
        ≡ judge check (events 0 [] v) (λ d u. some (d, u)) admit_free s
  unfolding visit_json handle handle_all has_error
  visit_json-events parser options bytes s v e h =
      let exact : (length bytes == length bytes) ≡ true = ground arith in
      rw (e, exact)
        (visited-final_decision options.cost_for_invalid_payload
            (handle_all check (document_calls v) (new_visitor s))
          ∙ document-Emits 0 [] [] v (omega (arith, h)) (on_document_end ∷ []) admit_free s)
