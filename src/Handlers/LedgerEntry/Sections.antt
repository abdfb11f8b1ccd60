-- ===== src/Handlers/LedgerEntry/Sections.antt =====
-- include/rpcspec/Section.hpp, IfType.hpp and handlers/ledger_entry: what the items of a locator
-- accept.
use rpc_spec.Prelude.{
  ◌≡◌, ◌∙◌, refl, sym, ap, Text, true, none, some, Option, List, [], ◌∷◌, map, text_eq, arith, inl,
  inr, Bool-cases, Option-cases,
}
use rpc_spec.Json.{Value, Fields, object, end, member, find, assign}
use rpc_spec.Status.{MaybeError, success, ok, unexpected, CombinedError}
use rpc_spec.View.{FieldView, present, is_string, is_object, child, put_child}
use rpc_spec.Field.{Processor, next, Item, run_processors, call_if_processor, process_nested}
use rpc_spec.Combinators.{
  JsonType, string_type, object_type, is_type, requirement, modifier, run_sub_fields,
  section_modify, if_type_modify, with_custom_error_verify, replace_error, make_status,
}
use rpc_spec.Handlers.LedgerEntry.Fields.{Member, sub_field, locator_items}

next-success :
    (out : MaybeError × FieldView) (k : Processor FieldView) (w : FieldView)
    → next out k ≡ (success, w)
    → (out.0 ≡ success) × (k out.1 ≡ (success, w))
next-success (ok _, v) k w h = (refl, h)
next-success (unexpected e, v) k w h = absurd (cc)

assign-find : (k : Text) (v : Value) (m : Fields) → find k m ≡ some v → assign k v m ≡ m
unfolding find assign
assign-find k v end h = refl
assign-find k v (member j u m) h = elim (Bool-cases (text_eq j k)) [
  | inl same ↦ ground arith
  | inr other ↦ ground (arith, assign-find k v m)
]

-- A child that is written back as it was leaves its parent.
put_child-object :
    (key k : Text) (m : Fields)
    → put_child
        (record { key = key; value = some (object m) })
        k
        (child (record { key = key; value = some (object m) }) k)
      ≡ record { key = key; value = some (object m) }
unfolding put_child child
put_child-object key k m = elim (Option-cases (find k m)) [
  | inl none_left ↦ rw none_left refl
  | inr (u, e) ↦ rw (e, assign-find k u m e) refl
]

put_child-child :
    (key : Text) (o : Option Value) (k : Text)
    → put_child (record { key = key; value = o }) k (child (record { key = key; value = o }) k)
      ≡ record { key = key; value = o }
unfolding put_child child
put_child-child key none k = refl
put_child-child key (some (object m)) k = put_child-object key k m
put_child-child key (some _) k = refl

abbrev pub Passes : List (FieldView → MaybeError) → FieldView → Type 0
Passes [] v = Unit
Passes (f ∷ fs) v = (f v ≡ success) × Passes fs v

-- Each member passes its requirements.
abbrev pub AllPass : List Member → FieldView → Type 0
AllPass [] v = Unit
AllPass (m ∷ ms) v = Passes m.requirements (child v m.key) × AllPass ms v

-- What a processor comes to that only reads.
abbrev Tests : MaybeError × FieldView → FieldView → Type 0 → Type 0
Tests out v P = (out.1 ≡ v) × (out.0 ≡ success → P)

next-Tests :
    {P Q : Type 0} (out : MaybeError × FieldView) (k : Processor FieldView) (v : FieldView)
    → Tests out v P
    → Tests (k v) v Q
    → Tests (next out k) v (P × Q)
next-Tests (ok _, u) k v (same, p) (kept, q) = rw same (kept, (λ e. (p refl, q e)))
next-Tests (unexpected e, u) k v (same, p) _ = (same, (λ h. absurd (cc)))

module _ (V : Type 0) where
  run_processors-Passes :
      (fs : List (FieldView → MaybeError)) (v : FieldView)
      → Tests (run_processors (map (requirement V) fs) v) v (Passes fs v)
  unfolding run_processors call_if_processor
  run_processors-Passes [] v = (refl, (λ h. tt))
  run_processors-Passes (f ∷ fs) v =
      next-Tests (f v, v) (run_processors (map (requirement V) fs)) v (refl, (λ h. h))
        (run_processors-Passes fs v)

  -- A last item.
  only-Tests :
      {P : Type 0} (out : MaybeError × FieldView) (v : FieldView)
      → Tests out v P
      → Tests (next out (run_processors {V = V} [])) v P
  unfolding run_processors
  only-Tests (ok _, u) v h = h
  only-Tests (unexpected e, u) v h = h

process_nested-Passes :
    (m : Member) (v : FieldView)
    → Tests (process_nested (sub_field m) v) v (Passes m.requirements (child v m.key))
unfolding process_nested
process_nested-Passes m v =
    let (same, passes) = run_processors-Passes (Unit {0}) m.requirements (child v m.key) in
    (ap (put_child v m.key) same ∙ put_child-child v.key v.value m.key, passes)

run_sub_fields-AllPass :
    (ms : List Member) (v : FieldView)
    → Tests (run_sub_fields (map sub_field ms) v) v (AllPass ms v)
unfolding run_sub_fields
run_sub_fields-AllPass [] v = (refl, (λ h. tt))
run_sub_fields-AllPass (m ∷ ms) v =
    next-Tests (process_nested (sub_field m) v) (run_sub_fields (map sub_field ms)) v
      (process_nested-Passes m v) (run_sub_fields-AllPass ms v)

section_modify-AllPass :
    (ms : List Member) (v : FieldView)
    → Tests
        (section_modify (map sub_field ms) v)
        v
        (present v ≡ true → is_object v ≡ true → AllPass ms v)
unfolding section_modify
section_modify-AllPass ms v = elim (Bool-cases (present v)) [
  | inl there ↦ elim (Bool-cases (is_object v)) [
    | inl obj ↦
        let (same, all) = run_sub_fields-AllPass ms v in rw (there, obj) (same, (λ h p o. all h))
    | inr other ↦ rw (there, other) (refl, (λ h. absurd (cc)))
  ]
  | inr absent ↦ rw absent (refl, (λ h p o. absurd (cc)))
]

module _ {V : Type 0} where
  if_type_modify-Tests :
      {P : Type 0} (t : JsonType) (items : List (Item V)) (v : FieldView)
      → Tests (run_processors items v) v P
      → Tests (if_type_modify t items v) v (present v ≡ true → is_type t v ≡ true → P)
  unfolding if_type_modify
  if_type_modify-Tests t items v (same, p) = elim (Bool-cases (present v)) [
    | inl there ↦ elim (Bool-cases (is_type t v)) [
      | inl typed ↦ rw (there, typed) (same, (λ h i j. p h))
      | inr other ↦ rw (there, other) (refl, (λ h i j. absurd (cc)))
    ]
    | inr absent ↦ rw absent (refl, (λ h i j. absurd (cc)))
  ]

module _ (V : Type 0) where
  -- What the items of a locator accept they leave as it was: a value of an accepted type, a number in
  -- hexadecimal if it is a string, and members that pass if it is an object.
  pub run_processors-locator_items :
      (types hex : FieldView → MaybeError) (ms : List Member) (v w : FieldView)
      → present v ≡ true
      → run_processors (locator_items V types hex ms) v ≡ (success, w)
      → (w ≡ v)
        × (types v ≡ success)
        × (is_string v ≡ true → hex v ≡ success)
        × (is_object v ≡ true → AllPass ms v)
  unfolding run_processors call_if_processor
  run_processors-locator_items types hex ms v w p h =
      let (same, all) =
        next-Tests (types v, v) _ v (refl, (λ e. e))
          (next-Tests (if_type_modify string_type (requirement V hex ∷ []) v) _ v
            (if_type_modify-Tests string_type (requirement V hex ∷ []) v
              (run_processors-Passes V (hex ∷ []) v))
            (only-Tests V _ v (
              if_type_modify-Tests object_type (modifier V (section_modify (map sub_field ms)) ∷ [])
                v (only-Tests V _ v (section_modify-AllPass ms v))))) in
      let (typed, (text, obj)) = all (ap (λ o. o.0) h) in
      (sym (ap (λ o. o.1) h) ∙ same, typed, (λ s. (text p s).0), (λ o. obj p o p o))

-- An error that is replaced stays an error.
pub with_custom_error_verify-success :
    (f : FieldView → MaybeError) (code : CombinedError) (message : Text) (v : FieldView)
    → with_custom_error_verify f code message v ≡ success
    → f v ≡ success
unfolding with_custom_error_verify
with_custom_error_verify-success f code message v h = replaced (f v) h
  where
    replaced : (r : MaybeError) → replace_error (make_status code message) r ≡ success → r ≡ success
    replaced (ok _) e = refl
    replaced (unexpected s) e = absurd (cc)
