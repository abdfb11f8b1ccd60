-- ===== src/Admission/Json/Nesting.antt =====
-- include/admissionspec/JsonVisitor.hpp: the keys and the depth that the visitor keeps of the
-- containers that are open.
use rpc_spec.Prelude.{
  ℕ, zero, suc, ◌%◌, ◌^◌, ◌≡◌, refl, sym, ap, ◌∙◌, Text, Bool, true, false, Option, none, some,
  List, [], ◌∷◌, arith, length, Option-cases, inl, inr,
}
use rpc_spec.Admission.Decision.{AdmissionDecision, VisitEvent, EventKind}
use rpc_spec.Admission.Json.{
  Callback, on_document_begin, on_document_end, on_array_begin, on_object_begin, on_null,
  on_array_end, on_object_end, on_string_part, on_string, on_key_part, on_key, on_number_part,
  on_comment_part, on_comment, on_int64, on_uint64, on_double, on_bool, JsonVisitor, emit,
  emit_leaf, begin_container, end_container, end_innermost, handle, handle_all, unless_stopped,
}

-- How many containers are open after a call; `none` where it ends one that no call has begun.
abbrev closed : ℕ → Option ℕ
closed zero = none
closed (suc n) = some n

abbrev pub open_after_call : Callback → ℕ → Option ℕ
open_after_call on_array_begin n = some (suc n)
open_after_call on_object_begin n = some (suc n)
open_after_call (on_array_end m) n = closed n
open_after_call (on_object_end m) n = closed n
open_after_call _ n = some n

abbrev then : Option ℕ → (ℕ → Option ℕ) → Option ℕ
then none k = none
then (some n) k = k n

unfoldable pub open_after : List Callback → ℕ → Option ℕ
open_after [] n = some n
open_after (c ∷ cs) n = then (open_after_call c n) (open_after cs)

some-inj : {n m : ℕ} → some n ≡ some m → n ≡ m
some-inj e = cc

module _ {S : Type 0} where
  -- There is a key for each open container, and the depth counts them, in 32 bits.
  pub record IsNested (n : ℕ) (v : JsonVisitor S) : Type 0 where
    pub keys_open : length v.container_keys ≡ n
    pub depth_open : v.depth ≡ n % 2 ^ 32

  pub nested :
      (n : ℕ) (v : JsonVisitor S)
      → length v.container_keys ≡ n
      → v.depth ≡ n % 2 ^ 32
      → IsNested n v
  nested n v k d = record { keys_open = k; depth_open = d }

  kept :
      (n m : ℕ) (v w : JsonVisitor S)
      → some n ≡ some m
      → v.container_keys ≡ w.container_keys
      → v.depth ≡ w.depth
      → IsNested n v
      → IsNested m w
  kept n m v w e keys depth h =
      nested m w (ap length (sym keys) ∙ h.keys_open ∙ some-inj e)
        (sym depth ∙ h.depth_open ∙ ap (λ i. i % 2 ^ 32) (some-inj e))

module _ {S : Type 0} (check : VisitEvent → S → AdmissionDecision × S) where
  -- A handler is defined, and leaves `n` containers open.
  abbrev Leaves : ℕ → Option (Bool × JsonVisitor S) → Type 0
  Leaves n r = (b : Bool) × (w : JsonVisitor S) × (r ≡ some (b, w)) × IsNested n w

  end_innermost-Leaves :
      (kind : EventKind) (size n m : ℕ) (keys : List Text) (v : JsonVisitor S)
      → length keys ≡ n
      → v.depth ≡ n % 2 ^ 32
      → closed n ≡ some m
      → Leaves m (end_innermost check kind size keys v)
  unfolding emit
  end_innermost-Leaves kind size zero m keys v k d e = absurd (cc)
  end_innermost-Leaves kind size (suc n) m [] v k d e = absurd (omega arith)
  end_innermost-Leaves kind size (suc n) m (key ∷ keys) v k d e =
      let same : n ≡ m = ground arith in
      (_, _, refl, nested m _ (omega (arith, same, k)) (omega (arith, same, d)))

  begun :
      (kind : EventKind) (n m : ℕ) (v : JsonVisitor S)
      → IsNested n v
      → some (suc n) ≡ some m
      → Leaves m (some (begin_container check kind v))
  unfolding begin_container emit
  begun kind n m v h e =
      let same = some-inj e in
      (
        _,
        _,
        refl,
        nested m _ (omega (arith, same, h.keys_open)) (omega (arith, same, h.depth_open)),
      )

  handle-Leaves :
      (c : Callback) (n m : ℕ) (v : JsonVisitor S)
      → IsNested n v
      → open_after_call c n ≡ some m
      → Leaves m (handle check c v)
  unfolding handle emit emit_leaf end_container
  handle-Leaves on_array_begin n m v h e = begun EventKind.array_begin n m v h e
  handle-Leaves on_object_begin n m v h e = begun EventKind.object_begin n m v h e
  handle-Leaves (on_array_end i) n m v h e =
      end_innermost-Leaves EventKind.array_end i n m v.container_keys v h.keys_open h.depth_open e
  handle-Leaves (on_object_end i) n m v h e =
      end_innermost-Leaves EventKind.object_end i n m v.container_keys v h.keys_open h.depth_open e
  handle-Leaves on_document_begin n m v h e = (_, _, refl, kept n m v _ e refl refl h)
  handle-Leaves on_document_end n m v h e = (_, _, refl, kept n m v _ e refl refl h)
  handle-Leaves on_null n m v h e = (_, _, refl, kept n m v _ e refl refl h)
  handle-Leaves (on_string_part s i) n m v h e = (_, _, refl, kept n m v _ e refl refl h)
  handle-Leaves (on_string s i) n m v h e = (_, _, refl, kept n m v _ e refl refl h)
  handle-Leaves (on_key_part s i) n m v h e = (_, _, refl, kept n m v _ e refl refl h)
  handle-Leaves (on_key s i) n m v h e = (_, _, refl, kept n m v _ e refl refl h)
  handle-Leaves (on_number_part s) n m v h e = (_, _, refl, kept n m v _ e refl refl h)
  handle-Leaves (on_int64 i) n m v h e = (_, _, refl, kept n m v _ e refl refl h)
  handle-Leaves (on_uint64 u) n m v h e = (_, _, refl, kept n m v _ e refl refl h)
  handle-Leaves (on_double d) n m v h e = (_, _, refl, kept n m v _ e refl refl h)
  handle-Leaves (on_bool b) n m v h e = (_, _, refl, kept n m v _ e refl refl h)
  handle-Leaves (on_comment_part s) n m v h e = (_, _, refl, kept n m v _ e refl refl h)
  handle-Leaves (on_comment s) n m v h e = (_, _, refl, kept n m v _ e refl refl h)

  -- The visitor that the calls leave, all of them or those up to the one that stops the parser.
  abbrev pub EndsNested : Option (JsonVisitor S) → Type 0
  EndsNested r = (w : JsonVisitor S) × (r ≡ some w) × (k : ℕ) × IsNested k w

  unless_stopped-EndsNested :
      (k : JsonVisitor S → Option (JsonVisitor S)) (n : ℕ) (r : Option (Bool × JsonVisitor S))
      → Leaves n r
      → ((w : JsonVisitor S) → IsNested n w → EndsNested (k w))
      → EndsNested (unless_stopped check k r)
  unless_stopped-EndsNested k n r (true, w, e, h) f = rw e (f w h)
  unless_stopped-EndsNested k n r (false, w, e, h) f = rw e (w, refl, n, h)

  -- As long as the calls end no container that they have not begun, each handler is defined, and the
  -- visitor has a key for each container that is open, and their number as its depth.
  pub handle_all-EndsNested :
      (cs : List Callback) (n m : ℕ) (v : JsonVisitor S)
      → IsNested n v
      → open_after cs n ≡ some m
      → EndsNested (handle_all check cs v)
  unfolding open_after handle_all
  handle_all-EndsNested [] n m v h e = (v, refl, n, h)
  handle_all-EndsNested (c ∷ cs) n m v h e = elim (Option-cases (open_after_call c n)) [
    | inl ends ↦ (let e = rw ends at e in absurd (cc))
    | inr (i, opens) ↦
        (let e = rw opens at e in
          unless_stopped-EndsNested (handle_all check cs) i (handle check c v)
            (handle-Leaves c n i v h opens) (λ w hw. handle_all-EndsNested cs i m w hw e))
  ]
