-- ===== src/Admission/Json.antt =====
-- include/admissionspec/JsonVisitor.hpp: the visitor that turns the callbacks of Boost.JSON's parser
-- into events for a check. The parser is a parameter: what it calls, and how it ends.
pub mod Document
pub mod Nesting
pub mod Verdict
mod Tests
use rpc_spec.Prelude.{
  ℕ, ◌+◌, ◌-◌, ◌%◌, ◌^◌, Text, Bool, true, false, not, Option, none, some, List, [], ◌∷◌, ◌++◌,
  ◌==◌, length, str, if◌then◌else◌,
}
use rpc_spec.Prelude.Int.{ℤ}
use rpc_spec.Prelude.Float.{Double}
use rpc_spec.Admission.Decision.{
  AdmissionDecision, admit_free, drop_with, admitted, dropped, VisitEvent, EventKind, event,
  EventValue, monostate, bool_value, int64_value, uint64_value, double_value, text_value,
}

-- The calls that the parser makes. The texts that it gives beside a number are not read.
pub data Callback : Type 0 where
  on_document_begin on_document_end on_array_begin on_object_begin on_null : Callback
  on_array_end on_object_end : ℕ → Callback
  on_string_part on_string on_key_part on_key : Text → ℕ → Callback
  on_number_part on_comment_part on_comment : Text → Callback
  on_int64 : ℤ → Callback
  on_uint64 : ℕ → Callback
  on_double : Double → Callback
  on_bool : Bool → Callback

-- The visitor, with the state `S` of the check that it refers to. The innermost container's key is
-- the first of `container_keys`.
pub record JsonVisitor (S : Type 0) : Type 0 where
  pub checker : S
  pub decision : AdmissionDecision
  pub depth : ℕ
  pub container_keys : List Text
  pub pending_key : Text

-- The constructor, with the decision of `visitJson`.
abbrev pub new_visitor : {S : Type 0} → S → JsonVisitor S
new_visitor s = record {
  checker = s;
  decision = admit_free;
  depth = 0;
  container_keys = [];
  pending_key = [];
}

-- `depth_ + 1` and `depth_ - 1`, in the arithmetic of `uint32_t`.
abbrev pub deeper : ℕ → ℕ
deeper d = (d + 1) % 2 ^ 32

abbrev pub shallower : ℕ → ℕ
shallower d = (d + (2 ^ 32 - 1)) % 2 ^ 32

-- An event of a text, with the size that the parser gives.
abbrev pub text_event : EventKind → Text → ℕ → VisitEvent
text_event kind s n = record (event kind) { size = n; value = text_value s }

abbrev pub value_event : EventKind → EventValue → VisitEvent
value_event kind v = record (event kind) { value = v }

-- The event at its key and depth.
abbrev pub placed : Text → ℕ → VisitEvent → VisitEvent
placed k d e = record e { key = k; depth = d }

module _ {S : Type 0} (check : VisitEvent → S → AdmissionDecision × S) where
  abbrev pub decided : JsonVisitor S → AdmissionDecision × S → Bool × JsonVisitor S
  decided v (d, s) = (admitted d, record v { checker = s; decision = d })

  unfoldable pub emit : VisitEvent → JsonVisitor S → Bool × JsonVisitor S
  emit e v = decided v (check e v.checker)

  abbrev pub key_cleared : Bool × JsonVisitor S → Bool × JsonVisitor S
  key_cleared (keep_going, v) = (keep_going, record v { pending_key = [] })

  unfoldable pub emit_leaf : VisitEvent → JsonVisitor S → Bool × JsonVisitor S
  unfolding emit
  emit_leaf e v = key_cleared (emit (placed v.pending_key v.depth e) v)

  unfoldable pub begin_container : EventKind → JsonVisitor S → Bool × JsonVisitor S
  unfolding emit
  begin_container kind v = emit (placed v.pending_key v.depth (event kind)) (record v {
    container_keys = v.pending_key ∷ v.container_keys;
    pending_key = [];
    depth = deeper v.depth;
  })

  abbrev pub popped : List Text → Bool × JsonVisitor S → Bool × JsonVisitor S
  popped keys (keep_going, v) = (keep_going, record v { container_keys = keys })

  abbrev pub end_innermost :
      EventKind → ℕ → List Text → JsonVisitor S → Option (Bool × JsonVisitor S)
  end_innermost kind n [] v = none
  end_innermost kind n (k ∷ keys) v =
      let d = shallower v.depth in
      let e = placed k d (record (event kind) { size = n }) in
      some (popped keys (emit e (record v { depth = d })))

  -- `none` is the undefined behaviour of `back()` on no keys.
  unfoldable pub end_container : EventKind → ℕ → JsonVisitor S → Option (Bool × JsonVisitor S)
  unfolding emit
  end_container kind n v = end_innermost kind n v.container_keys v

  -- `pendingKey_ += s`
  abbrev pub key_grown : Text → JsonVisitor S → JsonVisitor S
  key_grown s v = record v { pending_key = v.pending_key ++ s }

  -- The handlers of the visitor. What one returns tells the parser whether to go on.
  unfoldable pub handle : Callback → JsonVisitor S → Option (Bool × JsonVisitor S)
  unfolding emit emit_leaf begin_container end_container
  handle on_document_begin v = some (true, v)
  handle on_document_end v = some (true, v)
  handle on_array_begin v = some (begin_container EventKind.array_begin v)
  handle (on_array_end n) v = end_container EventKind.array_end n v
  handle on_object_begin v = some (begin_container EventKind.object_begin v)
  handle (on_object_end n) v = end_container EventKind.object_end n v
  handle (on_string_part s n) v =
      some (emit (placed v.pending_key v.depth (text_event EventKind.string_part s n)) v)
  handle (on_string s n) v = some (emit_leaf (text_event EventKind.string s n) v)
  handle (on_key_part s n) v =
      some (emit (placed [] v.depth (text_event EventKind.key_part s n)) (key_grown s v))
  handle (on_key s n) v =
      some (emit (placed [] v.depth (text_event EventKind.key s n)) (key_grown s v))
  handle (on_number_part s) v =
      some
        (emit (placed v.pending_key v.depth (value_event EventKind.number_part (text_value s))) v)
  handle (on_int64 i) v = some (emit_leaf (value_event EventKind.int64 (int64_value i)) v)
  handle (on_uint64 u) v = some (emit_leaf (value_event EventKind.uint64 (uint64_value u)) v)
  handle (on_double d) v = some (emit_leaf (value_event EventKind.double (double_value d)) v)
  handle (on_bool b) v = some (emit_leaf (value_event EventKind.boolean (bool_value b)) v)
  handle on_null v = some (emit_leaf (event EventKind.null) v)
  handle (on_comment_part s) v =
      some (emit (placed [] v.depth (value_event EventKind.comment_part (text_value s))) v)
  handle (on_comment s) v =
      some (emit (placed [] v.depth (value_event EventKind.comment (text_value s))) v)

  abbrev pub unless_stopped :
      (JsonVisitor S → Option (JsonVisitor S))
      → Option (Bool × JsonVisitor S)
      → Option (JsonVisitor S)
  unless_stopped k none = none
  unless_stopped k (some (true, v)) = k v
  unless_stopped k (some (false, v)) = some v

  -- The parser stops at the first handler that returns `false`.
  unfoldable pub handle_all : List Callback → JsonVisitor S → Option (JsonVisitor S)
  unfolding handle
  handle_all [] v = some v
  handle_all (c ∷ cs) v = unless_stopped (handle_all cs) (handle c v)

-- How `write_some` ends: it gives the number of bytes that it has read, sets `ec`, or throws.
pub data ParseEnd : Type 0 where
  consumed : ℕ → ParseEnd
  error_code system_error other_exception : ParseEnd

-- A run of the parser on bytes: its calls as long as the handlers return `true`, and its end.
pub record ParserRun : Type 0 where
  pub callbacks : List Callback
  pub parse_end : ParseEnd

pub record VisitJsonOptions : Type 0 where
  pub cost_for_invalid_payload : Double
  pub max_depth : ℕ

-- `if (ec)` after the calls and the handlers of the exceptions.
unfoldable pub has_error : Text → ParseEnd → Bool
has_error bytes (consumed n) = not (n == length bytes)
has_error bytes _ = true

abbrev pub final_decision : Bool → Double → AdmissionDecision → AdmissionDecision
final_decision ec cost d =
    if dropped d then d else if ec then drop_with (str "Invalid JSON payload") cost else d

abbrev pub visited :
    {S : Type 0}
    → (AdmissionDecision → AdmissionDecision)
    → Option (JsonVisitor S)
    → Option (AdmissionDecision × S)
visited final none = none
visited final (some v) = some (final v.decision, v.checker)

-- `visitJson`; `parser` is `basic_parser` with the limit of depth that it is given.
unfoldable pub visit_json :
    {S : Type 0}
    → (ℕ → Text → ParserRun)
    → (VisitEvent → S → AdmissionDecision × S)
    → VisitJsonOptions
    → Text
    → S
    → Option (AdmissionDecision × S)
unfolding handle_all has_error
visit_json parser check options bytes s =
    let run = parser options.max_depth bytes in
    visited (final_decision (has_error bytes run.parse_end) options.cost_for_invalid_payload)
      (handle_all check run.callbacks (new_visitor s))
