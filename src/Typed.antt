-- ===== src/Typed.antt =====
-- include/rpcspec/Typed.hpp: fields bound to the members of a handler's input, and the spec that
-- reads a request into it. A member pointer is the assignment through it, with a number that tells
-- it from the others; the value that `InputT{}` gives is an argument.
pub mod Laws
pub mod Coverage
pub mod Fields
pub mod Stored
pub mod Frame
mod Tests
use rpc_spec.Prelude.{
  ℕ, zero, suc, ◌+◌, ◌≡◌, Text, Bool, true, false, not, ◌&&◌, ◌||◌, Option, none, some, List, [],
  ◌∷◌, ◌++◌, any, ◌==◌, str, text_eq, if◌then◌else◌,
}
use rpc_spec.Status.{
  status_with, invalid_params, Result, MaybeError, success, ok, unexpected, has_value, Warnings,
}
use rpc_spec.View.{FieldView, ObjectView, present, root_child, put_root}
use rpc_spec.Field.{
  Processor, Item, FieldSpec, process_field, check_field, run_processors, run_checks, skips_field,
}
use rpc_spec.Combinators.{guard}
use rpc_spec.Spec.{Visit, for_each_effective_field}

pub record BoundField (I : Type 0) : Type 1 where
  pub ValueType : Type 0
  pub key : Text
  pub slot : ℕ
  pub store : ValueType → I → I
  pub conv : FieldView → Result ValueType
  pub items : List (Item ValueType)

module _ {I : Type 0} where
  -- `applyIfDefault` over the items.
  unfoldable pub apply_defaults : {V : Type 0} → (V → I → I) → List (Item V) → I → I
  apply_defaults store [] out = out
  apply_defaults store (item ∷ items) out =
      apply_defaults store items (elim item.default [ some v ↦ store v out | none ↦ out ])

  abbrev pub store_result :
      {V : Type 0} → (V → I → I) → Result V → ObjectView → I → MaybeError × (ObjectView × I)
  store_result store (ok v) root out = (success, (root, store v out))
  store_result store (unexpected e) root out = (unexpected e, (root, out))

  -- What follows the processors.
  unfoldable pub finish_field :
      BoundField I → MaybeError × FieldView → ObjectView → I → MaybeError × (ObjectView × I)
  finish_field f (unexpected e, v) root out = (unexpected e, (root, out))
  finish_field f (ok _, v) root out =
      if not (present v)
      then (success, (root, apply_defaults f.store f.items out))
      else store_result f.store (f.conv v) root out

  -- `BoundField::parseInto`
  unfoldable pub parse_into : BoundField I → Processor (ObjectView × I)
  parse_into f (root, out) =
      let pre = run_processors f.items (root_child root f.key) in
      if skips_field f.items root
      then (success, (root, out))
      else finish_field f pre (put_root root f.key pre.1) out

  -- `BoundField::check`
  unfoldable pub check_bound : BoundField I → ObjectView → Warnings
  check_bound f root =
      if skips_field f.items root then [] else run_checks f.items (root_child root f.key) []

  -- The check of the constructor: no item guards the field's own key.
  abbrev pub GuardsNoOwnKey : BoundField I → Type 0
  GuardsNoOwnKey f = any (λ item. item.guards f.key) f.items ≡ false

  abbrev pub with_key : Text → BoundField I → BoundField I
  with_key k f = record f { key = k }

  -- `AliasedField::parseInto`
  unfoldable pub parse_aliased : Text → BoundField I → Processor (ObjectView × I)
  parse_aliased alternate f (root, out) =
      if present (root_child root alternate)
      then (if present (root_child root f.key)
          then (
            unexpected (status_with invalid_params (str "Too many fields provided.")),
            (root, out),
          )
          else parse_into (with_key alternate f) (root, out))
      else parse_into f (root, out)

  -- `AliasedField::check`
  unfoldable pub check_aliased : Text → BoundField I → ObjectView → Warnings
  check_aliased alternate f root =
      if present (root_child root alternate)
      then check_bound (with_key alternate f) root
      else check_bound f root

-- A bound field of another class, with its own `parseInto` and `check`.
pub record CustomField (I : Type 0) : Type 1 where
  pub key : Text
  pub slot : ℕ
  pub parse_custom : Processor (ObjectView × I)
  pub check_custom : ObjectView → Warnings

-- The fields of a typed spec. A field that is not bound is validated, and stored nowhere.
pub data TypedField (I : Type 0) : Type 1 where
  bound : BoundField I → TypedField I
  aliased : Text → BoundField I → TypedField I
  custom : CustomField I → TypedField I
  validated : FieldSpec → TypedField I

abbrev pub same_slot : Option ℕ → Option ℕ → Bool
same_slot (some m) (some n) = m == n
same_slot _ _ = false

module _ {I : Type 0} where
  abbrev pub field_key : TypedField I → Text
  field_key (bound f) = f.key
  field_key (aliased alternate f) = f.key
  field_key (custom f) = f.key
  field_key (validated f) = f.key

  abbrev pub beside {ℓ} : {S : Type ℓ} → I → MaybeError × S → MaybeError × (S × I)
  beside out (r, s) = (r, (s, out))

  -- `TypedSpec::parseOne`
  unfoldable pub parse_one : TypedField I → Processor (ObjectView × I)
  parse_one (bound f) s = parse_into f s
  parse_one (aliased alternate f) s = parse_aliased alternate f s
  parse_one (custom f) s = f.parse_custom s
  parse_one (validated f) (root, out) = beside out (process_field f root)

  abbrev pub parse_visit : Visit (TypedField I) (MaybeError × (ObjectView × I))
  parse_visit f (_, s) = let out = parse_one f s in (has_value out.0, out)

  abbrev pub parsed : MaybeError × (ObjectView × I) → Result I × ObjectView
  parsed (ok _, (root, out)) = (ok out, root)
  parsed (unexpected e, (root, out)) = (unexpected e, root)

  -- `TypedSpec::parseImpl`, with the root as its writes leave it.
  unfoldable pub parse : I → List (TypedField I) → ObjectView → Result I × ObjectView
  parse empty fields root =
      parsed (for_each_effective_field field_key parse_visit fields (success, (root, empty)))

  unfoldable pub check_one : TypedField I → ObjectView → Warnings
  check_one (bound f) root = check_bound f root
  check_one (aliased alternate f) root = check_aliased alternate f root
  check_one (custom f) root = f.check_custom root
  check_one (validated f) root = check_field f root

  abbrev pub check_one_visit : ObjectView → Visit (TypedField I) Warnings
  check_one_visit root f out = (true, out ++ check_one f root)

  -- `TypedSpec::checkImpl`
  unfoldable pub check_typed : List (TypedField I) → ObjectView → Warnings
  check_typed fields root = for_each_effective_field field_key (check_one_visit root) fields []

  -- `detail::bindsSameMember` and `bindsEarlierMember`
  abbrev pub slot_of : TypedField I → Option ℕ
  slot_of (bound f) = some f.slot
  slot_of (aliased alternate f) = some f.slot
  slot_of (custom f) = some f.slot
  slot_of (validated f) = none

  unfoldable pub binds_earlier_member : TypedField I → List (TypedField I) → Bool
  binds_earlier_member f before = any (λ g. same_slot (slot_of f) (slot_of g)) before

  abbrev pub is_bound_field : TypedField I → Bool
  is_bound_field f = elim (slot_of f) [ some m ↦ true | none ↦ false ]

  -- `detail::countDistinctBoundMembers`; `before` holds the fields to the left.
  unfoldable pub count_from : List (TypedField I) → List (TypedField I) → ℕ
  count_from before [] = 0
  count_from before (f ∷ fs) =
      (if is_bound_field f && not (binds_earlier_member f before) then 1 else 0)
      + count_from (before ++ f ∷ []) fs

  unfoldable pub distinct_bound_member_count : List (TypedField I) → ℕ
  unfolding count_from
  distinct_bound_member_count fields = count_from [] fields

-- `IfAbsent::skips` and `Never::skips`
unfoldable pub if_absent_skips : Text → ObjectView → Bool
if_absent_skips guard_key root = present (root_child root guard_key)

unfoldable pub never_skips : ObjectView → Bool
never_skips root = true

-- `ifAbsent` and `never`
abbrev pub if_absent : (V : Type 0) → Text → Item V
if_absent V guard_key = guard V (if_absent_skips guard_key) (text_eq guard_key)

abbrev pub never : (V : Type 0) → Item V
never V = guard V never_skips (λ k. false)
