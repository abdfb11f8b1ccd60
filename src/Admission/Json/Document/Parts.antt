-- ===== src/Admission/Json/Document/Parts.antt =====
-- include/admissionspec/JsonVisitor.hpp: the visitor run on the calls for texts, numbers, comments and
-- containers.
use mathlib.Core.List.{append_assoc, append-nil}
use rpc_spec.Prelude.{
  ℕ, suc, ◌+◌, ◌<◌, ◌^◌, ◌≡◌, refl, ap, ◌∙◌, Text, List, [], ◌∷◌, ◌++◌, arith, length,
}
use rpc_spec.Admission.Decision.{AdmissionDecision, VisitEvent, EventKind, event}
use rpc_spec.Admission.Json.{
  Callback, on_array_begin, on_object_begin, on_array_end, on_object_end, on_string_part, on_string,
  on_key_part, on_key, on_number_part, on_comment_part, on_comment, text_event, placed, emit,
  emit_leaf, begin_container, end_container, handle, deeper, shallower,
}
use rpc_spec.Admission.Json.Document.{
  Pieces, Number, signed, unsigned, floating, part_calls, total, text_calls, calls_of, number_call,
  part_events, text_events, events_of, number_event, piece_event, joined, key_of, end_event,
}
use rpc_spec.Admission.Json.Document.Emits.{
  Place, place, judge, outcome, Emits, Emits-append, Calls, call-Emits, parts-Emits, calls_of-Emits,
}

module _ {S : Type 0} (check : VisitEvent → S → AdmissionDecision × S) where
  -- The pieces of a key are put together.
  key_parts-Emits :
      (n depth : ℕ) (keys : List Text) (k : Text) (parts : List Text)
      → Emits check
          (part_calls on_key_part n parts)
          (part_events (λ s m. placed [] depth (text_event EventKind.key_part s m)) n parts)
          (place depth keys k)
          (place depth keys (k ++ joined parts))
  unfolding part_calls part_events judge joined handle emit
  key_parts-Emits n depth keys k [] rest d s = rw (append-nil k) refl
  key_parts-Emits n depth keys k (t ∷ parts) rest d s =
      let m = n + length t in
      let part : Text → ℕ → VisitEvent =
        (λ u i. placed [] depth (text_event EventKind.key_part u i)) in
      let grown = place depth keys (k ++ t) in
      let together : (k ++ t) ++ joined parts ≡ k ++ (t ++ joined parts) =
        append_assoc k t (joined parts) in
      Emits-append check (on_key_part t m ∷ []) (part_calls on_key_part m parts) (part t m ∷ [])
        (part_events part m parts) (place depth keys k) grown
        (place depth keys ((k ++ t) ++ joined parts))
        (call-Emits check (on_key_part t m) (part t m) (place depth keys k) grown (λ d s. refl))
        (key_parts-Emits m depth keys (k ++ t) parts) rest d s
      ∙ ap
          (λ z.
            judge check (part_events part n (t ∷ parts)) (outcome check rest (place depth keys z)) d
              s)
          together

  pub key-Emits :
      (depth : ℕ) (keys : List Text) (p : Pieces)
      → Emits check
          (text_calls on_key_part on_key p)
          (text_events [] depth EventKind.key_part EventKind.key p)
          (place depth keys [])
          (place depth keys (key_of p))
  unfolding handle emit
  key-Emits depth keys p =
      Emits-append check (part_calls on_key_part 0 p.parts) (on_key p.last (total p) ∷ []) _ _
        (place depth keys []) (place depth keys (joined p.parts)) (place depth keys (key_of p))
        (key_parts-Emits 0 depth keys [] p.parts)
        (call-Emits check (on_key p.last (total p)) _ _ _ (λ d s. refl))

  pub text-Emits :
      (depth : ℕ) (keys : List Text) (k : Text) (p : Pieces)
      → Emits check
          (text_calls on_string_part on_string p)
          (text_events k depth EventKind.string_part EventKind.string p)
          (place depth keys k)
          (place depth keys [])
  unfolding handle emit emit_leaf
  text-Emits depth keys k p =
      Emits-append check (part_calls on_string_part 0 p.parts) (on_string p.last (total p) ∷ []) _ _
        (place depth keys k) (place depth keys k) (place depth keys [])
        (parts-Emits check on_string_part _ 0 (place depth keys k) p.parts (λ s m d u. refl))
        (call-Emits check (on_string p.last (total p)) _ _ _ (λ d s. refl))

  number_call-Calls :
      (depth : ℕ) (keys : List Text) (k : Text) (n : Number)
      → Calls check
          (number_call n)
          (placed k depth (number_event n))
          (place depth keys k)
          (place depth keys [])
  unfolding handle emit emit_leaf
  number_call-Calls depth keys k (signed i) d s = refl
  number_call-Calls depth keys k (unsigned u) d s = refl
  number_call-Calls depth keys k (floating x) d s = refl

  pub number-Emits :
      (depth : ℕ) (keys : List Text) (k : Text) (parts : List Text) (n : Number)
      → Emits check
          (calls_of on_number_part parts ++ number_call n ∷ [])
          (events_of (λ s. placed k depth (piece_event EventKind.number_part s)) parts
            ++ placed k depth (number_event n) ∷ [])
          (place depth keys k)
          (place depth keys [])
  unfolding handle emit
  number-Emits depth keys k parts n =
      Emits-append check (calls_of on_number_part parts) (number_call n ∷ []) _ _
        (place depth keys k) (place depth keys k) (place depth keys [])
        (calls_of-Emits check on_number_part _ (place depth keys k) parts (λ s d u. refl))
        (call-Emits check (number_call n) _ _ _ (number_call-Calls depth keys k n))

  pub comment-Emits :
      (depth : ℕ) (keys : List Text) (k : Text) (p : Pieces)
      → Emits check
          (calls_of on_comment_part p.parts ++ on_comment p.last ∷ [])
          (events_of (λ s. placed [] depth (piece_event EventKind.comment_part s)) p.parts
            ++ placed [] depth (piece_event EventKind.comment p.last) ∷ [])
          (place depth keys k)
          (place depth keys k)
  unfolding handle emit
  comment-Emits depth keys k p =
      Emits-append check (calls_of on_comment_part p.parts) (on_comment p.last ∷ []) _ _
        (place depth keys k) (place depth keys k) (place depth keys k)
        (calls_of-Emits check on_comment_part _ (place depth keys k) p.parts (λ s d u. refl))
        (call-Emits check (on_comment p.last) _ _ _ (λ d s. refl))

  -- A container, whose begin and end emit the one key, at the one depth.
  container-Emits :
      (begin end : Callback) (e f : VisitEvent) (cs : List Callback) (es : List VisitEvent)
      (p q r : Place)
      → Calls check begin e p q
      → Calls check end f q r
      → Emits check cs es q q
      → Emits check (begin ∷ (cs ++ end ∷ [])) (e ∷ (es ++ f ∷ [])) p r
  container-Emits begin end e f cs es p q r h k inner =
      Emits-append check (begin ∷ []) (cs ++ end ∷ []) (e ∷ []) (es ++ f ∷ []) p q r
        (call-Emits check begin e p q h)
        (Emits-append check cs (end ∷ []) es (f ∷ []) q q r inner (call-Emits check end f q r k))

  deeper_lem : (d n : ℕ) → d + suc n < 2 ^ 32 → deeper d ≡ d + 1
  deeper_lem d n h = omega arith

  shallower_lem : (d n : ℕ) → d + suc n < 2 ^ 32 → shallower (d + 1) ≡ d
  shallower_lem d n h = omega arith

  pub array-Emits :
      (depth n size : ℕ) (keys : List Text) (k : Text) (cs : List Callback) (es : List VisitEvent)
      → depth + suc n < 2 ^ 32
      → Emits check cs es (place (depth + 1) (k ∷ keys) []) (place (depth + 1) (k ∷ keys) [])
      → Emits check
          (on_array_begin ∷ (cs ++ on_array_end size ∷ []))
          (placed k depth (event EventKind.array_begin)
            ∷ (es ++ end_event k depth EventKind.array_end size ∷ []))
          (place depth keys k)
          (place depth keys [])
  unfolding handle emit begin_container end_container
  array-Emits depth n size keys k cs es h inner =
      container-Emits on_array_begin (on_array_end size) _ _ cs es (place depth keys k)
        (place (depth + 1) (k ∷ keys) []) (place depth keys [])
        (λ d s. rw (deeper_lem depth n h) refl) (λ d s. rw (shallower_lem depth n h) refl) inner

  pub object-Emits :
      (depth n size : ℕ) (keys : List Text) (k : Text) (cs : List Callback) (es : List VisitEvent)
      → depth + suc n < 2 ^ 32
      → Emits check cs es (place (depth + 1) (k ∷ keys) []) (place (depth + 1) (k ∷ keys) [])
      → Emits check
          (on_object_begin ∷ (cs ++ on_object_end size ∷ []))
          (placed k depth (event EventKind.object_begin)
            ∷ (es ++ end_event k depth EventKind.object_end size ∷ []))
          (place depth keys k)
          (place depth keys [])
  unfolding handle emit begin_container end_container
  object-Emits depth n size keys k cs es h inner =
      container-Emits on_object_begin (on_object_end size) _ _ cs es (place depth keys k)
        (place (depth + 1) (k ∷ keys) []) (place depth keys [])
        (λ d s. rw (deeper_lem depth n h) refl) (λ d s. rw (shallower_lem depth n h) refl) inner
