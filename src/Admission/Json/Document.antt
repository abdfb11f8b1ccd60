-- ===== src/Admission/Json/Document.antt =====
-- include/admissionspec/JsonVisitor.hpp: a document as the parser reads it, with the calls that it
-- makes for it, and the events that a check is to be given.
pub mod Emits
pub mod Parts
pub mod Visited
use Prim.Native.Nat.{max}
use rpc_spec.Prelude.{ℕ, suc, ◌+◌, Text, List, [], ◌∷◌, ◌++◌, length}
use rpc_spec.Prelude.Int.{ℤ}
use rpc_spec.Prelude.Float.{Double}
use rpc_spec.Prelude.{Bool}
use rpc_spec.Admission.Decision.{
  VisitEvent, EventKind, event, EventValue, bool_value, int64_value, uint64_value, double_value,
  text_value,
}
use rpc_spec.Admission.Json.{
  Callback, on_document_begin, on_document_end, on_array_begin, on_object_begin, on_null,
  on_array_end, on_object_end, on_string_part, on_string, on_key_part, on_key, on_number_part,
  on_comment_part, on_comment, on_int64, on_uint64, on_double, on_bool, text_event, value_event,
  placed,
}

-- A text that the parser gives in pieces, the last one apart.
pub record Pieces : Type 0 where
  pub parts : List Text
  pub last : Text

pub data Number : Type 0 where
  signed : ℤ → Number
  unsigned : ℕ → Number
  floating : Double → Number

-- Values. Those of strings and numbers have the pieces in which they are read, and a value may have a
-- comment before it.
mutual
  pub data Document : Type 0 where
    nothing : Document
    truth : Bool → Document
    number : List Text → Number → Document
    text : Pieces → Document
    items : Elements → Document
    fields : Members → Document
    commented : Pieces → Document → Document

  pub data Elements : Type 0 where
    no_elements : Elements
    element : Document → Elements → Elements

  pub data Members : Type 0 where
    no_members : Members
    member : Pieces → Document → Members → Members

unfoldable pub count_elements : Elements → ℕ
count_elements no_elements = 0
count_elements (element v vs) = suc (count_elements vs)

unfoldable pub count_members : Members → ℕ
count_members no_members = 0
count_members (member k v m) = suc (count_members m)

-- The calls for a text: a size is that of the text up to the piece's end.
unfoldable pub part_calls : (Text → ℕ → Callback) → ℕ → List Text → List Callback
part_calls on_part n [] = []
part_calls on_part n (s ∷ parts) =
    on_part s (n + length s) ∷ part_calls on_part (n + length s) parts

unfoldable pub size_of : List Text → ℕ
size_of [] = 0
size_of (s ∷ parts) = length s + size_of parts

abbrev pub total : Pieces → ℕ
total p = size_of p.parts + length p.last

abbrev pub text_calls : (Text → ℕ → Callback) → (Text → ℕ → Callback) → Pieces → List Callback
text_calls on_part on_last p = part_calls on_part 0 p.parts ++ on_last p.last (total p) ∷ []

unfoldable pub calls_of : (Text → Callback) → List Text → List Callback
calls_of call [] = []
calls_of call (s ∷ parts) = call s ∷ calls_of call parts

abbrev pub number_call : Number → Callback
number_call (signed i) = on_int64 i
number_call (unsigned u) = on_uint64 u
number_call (floating d) = on_double d

unfoldable mutual
  pub calls : Document → List Callback
  calls nothing = on_null ∷ []
  calls (truth b) = on_bool b ∷ []
  calls (number parts n) = calls_of on_number_part parts ++ number_call n ∷ []
  calls (text p) = text_calls on_string_part on_string p
  calls (items vs) = on_array_begin ∷ (element_calls vs ++ on_array_end (count_elements vs) ∷ [])
  calls (fields m) = on_object_begin ∷ (member_calls m ++ on_object_end (count_members m) ∷ [])
  calls (commented p v) = (calls_of on_comment_part p.parts ++ on_comment p.last ∷ []) ++ calls v

  pub element_calls : Elements → List Callback
  element_calls no_elements = []
  element_calls (element v vs) = calls v ++ element_calls vs

  pub member_calls : Members → List Callback
  member_calls no_members = []
  member_calls (member k v m) = text_calls on_key_part on_key k ++ (calls v ++ member_calls m)

abbrev pub document_calls : Document → List Callback
document_calls v = on_document_begin ∷ (calls v ++ on_document_end ∷ [])

-- What the check is to be given: the events of a value at a depth, under a key, which is that of the
-- member whose value it is, and empty otherwise.
unfoldable pub part_events : (Text → ℕ → VisitEvent) → ℕ → List Text → List VisitEvent
part_events part_event n [] = []
part_events part_event n (s ∷ parts) =
    part_event s (n + length s) ∷ part_events part_event (n + length s) parts

abbrev pub text_events : Text → ℕ → EventKind → EventKind → Pieces → List VisitEvent
text_events k d part last p =
    part_events (λ s n. placed k d (text_event part s n)) 0 p.parts
    ++ placed k d (text_event last p.last (total p)) ∷ []

unfoldable pub events_of : (Text → VisitEvent) → List Text → List VisitEvent
events_of part_event [] = []
events_of part_event (s ∷ parts) = part_event s ∷ events_of part_event parts

abbrev pub number_event : Number → VisitEvent
number_event (signed i) = value_event EventKind.int64 (int64_value i)
number_event (unsigned u) = value_event EventKind.uint64 (uint64_value u)
number_event (floating d) = value_event EventKind.double (double_value d)

abbrev pub piece_event : EventKind → Text → VisitEvent
piece_event kind s = value_event kind (text_value s)

unfoldable pub joined : List Text → Text
joined [] = []
joined (s ∷ parts) = s ++ joined parts

-- A member's key, its pieces together.
abbrev pub key_of : Pieces → Text
key_of p = joined p.parts ++ p.last

abbrev pub end_event : Text → ℕ → EventKind → ℕ → VisitEvent
end_event k d kind n = placed k d (record (event kind) { size = n })

unfoldable mutual
  pub events : ℕ → Text → Document → List VisitEvent
  events d k nothing = placed k d (event EventKind.null) ∷ []
  events d k (truth b) = placed k d (value_event EventKind.boolean (bool_value b)) ∷ []
  events d k (number parts n) =
      events_of (λ s. placed k d (piece_event EventKind.number_part s)) parts
      ++ placed k d (number_event n) ∷ []
  events d k (text p) = text_events k d EventKind.string_part EventKind.string p
  events d k (items vs) =
      placed k d (event EventKind.array_begin)
      ∷ (element_events (d + 1) vs ++ end_event k d EventKind.array_end (count_elements vs) ∷ [])
  events d k (fields m) =
      placed k d (event EventKind.object_begin)
      ∷ (member_events (d + 1) m ++ end_event k d EventKind.object_end (count_members m) ∷ [])
  events d k (commented p v) =
      (events_of (λ s. placed [] d (piece_event EventKind.comment_part s)) p.parts
        ++ placed [] d (piece_event EventKind.comment p.last) ∷ [])
      ++ events d k v

  pub element_events : ℕ → Elements → List VisitEvent
  element_events d no_elements = []
  element_events d (element v vs) = events d [] v ++ element_events d vs

  pub member_events : ℕ → Members → List VisitEvent
  member_events d no_members = []
  member_events d (member k v m) =
      text_events [] d EventKind.key_part EventKind.key k
      ++ (events d (key_of k) v ++ member_events d m)

-- How many containers are open at once, at most.
unfoldable mutual
  pub nesting : Document → ℕ
  nesting nothing = 0
  nesting (truth b) = 0
  nesting (number parts n) = 0
  nesting (text p) = 0
  nesting (items vs) = suc (element_nesting vs)
  nesting (fields m) = suc (member_nesting m)
  nesting (commented p v) = nesting v

  pub element_nesting : Elements → ℕ
  element_nesting no_elements = 0
  element_nesting (element v vs) = max (nesting v) (element_nesting vs)

  pub member_nesting : Members → ℕ
  member_nesting no_members = 0
  member_nesting (member k v m) = max (nesting v) (member_nesting m)
