-- ===== src/Admission/Json/Verdict.antt =====
-- include/admissionspec/JsonVisitor.hpp: what a payload that is not valid JSON comes to.
use rpc_spec.Prelude.{
  ℕ, ◌≡◌, ◌≢◌, refl, ap, ◌==◌, length, arith, Text, true, Option, some, str, if◌then◌else◌,
  Bool-cases, inl, inr,
}
use rpc_spec.Admission.Decision.{AdmissionDecision, dropped, drop_with, VisitEvent}
use rpc_spec.Admission.Json.{
  ParserRun, ParseEnd, consumed, error_code, system_error, other_exception, JsonVisitor, has_error,
  VisitJsonOptions, visit_json, handle_all, new_visitor,
}
use rpc_spec.Admission.Json.Nesting.{open_after, nested, handle_all-EndsNested}

abbrev pub invalid_json : VisitJsonOptions → AdmissionDecision
invalid_json options = drop_with (str "Invalid JSON payload") options.cost_for_invalid_payload

has_error-true :
    (bytes : Text) (e : ParseEnd) → e ≢ consumed (length bytes) → has_error bytes e ≡ true
unfolding has_error
has_error-true bytes (consumed n) h = elim (Bool-cases (n == length bytes)) [
  | inl same ↦ absurd (h (ap consumed (let e : n ≡ length bytes = ground arith in e)))
  | inr other ↦ rw other refl
]
has_error-true bytes error_code h = refl
has_error-true bytes system_error h = refl
has_error-true bytes other_exception h = refl

module _ {S : Type 0} (check : VisitEvent → S → AdmissionDecision × S) where
  -- The decision that the visit of the parser's calls ends with, and the state of the check.
  abbrev pub IsDropped :
      VisitJsonOptions → Option (JsonVisitor S) → Option (AdmissionDecision × S) → Type 0
  IsDropped options calls result =
      (v : JsonVisitor S) × (d : AdmissionDecision) × (calls ≡ some v)
      × (result ≡ some (d, v.checker))
      × (dropped d ≡ true)
      × (d ≡ (if dropped v.decision then v.decision else invalid_json options))

  -- Where the parser does not end with all bytes read and no error, the payload is dropped: by the
  -- check, if it has dropped one of the events before, and as invalid JSON otherwise. The calls of the
  -- parser end no container that they have not begun.
  pub visit_json-IsDropped :
      (parser : ℕ → Text → ParserRun) (options : VisitJsonOptions) (bytes : Text) (s : S) (m : ℕ)
      → open_after (parser options.max_depth bytes).callbacks 0 ≡ some m
      → (parser options.max_depth bytes).parse_end ≢ consumed (length bytes)
      → IsDropped options
          (handle_all check (parser options.max_depth bytes).callbacks (new_visitor s))
          (visit_json parser check options bytes s)
  unfolding visit_json
  visit_json-IsDropped parser options bytes s m h ends =
      let run = parser options.max_depth bytes in
      let e = has_error-true bytes run.parse_end ends in
      let (v, called, n, inside) =
        handle_all-EndsNested check run.callbacks 0 m (new_visitor s)
          (nested 0 (new_visitor s) refl refl) h in
      rw (called, e)
        (elim (Bool-cases (dropped v.decision)) [
          | inl drops ↦ (v, v.decision, refl, rw drops refl, drops, rw drops refl)
          | inr goes_on ↦ (v, invalid_json options, refl, rw goes_on refl, refl, rw goes_on refl)
        ])
