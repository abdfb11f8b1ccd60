-- ===== src/Typed/Laws.antt =====
-- include/rpcspec/Typed.hpp: the typed spec: one pass over the fields that validates the request
-- and fills the input.
use rpc_spec.Prelude.{
  ◌≡◌, refl, sym, ap, ◌∙◌, inl, inr, List, [], ◌∷◌, All, arith, Bool-cases, Option-cases,
}
use rpc_spec.Status.{Result, MaybeError, success, ok, unexpected, has_value}
use rpc_spec.View.{FieldView, ObjectView}
use rpc_spec.Field.{Processor, Item, next, skips_field}
use rpc_spec.Spec.{go_on}
use rpc_spec.Spec.Override.{effective, effective-All, visit_all, for_each_effective_field-effective}
use rpc_spec.Typed.{
  BoundField, apply_defaults, store_result, finish_field, parse_into, with_key, parse_aliased,
  TypedField, bound, aliased, custom, validated, field_key, parse_one, parse_visit, parsed, parse,
}

module _ {I : Type 0} where
  -- The fields in order, up to the first error.
  unfoldable pub parse_all : List (TypedField I) → Processor (ObjectView × I)
  parse_all [] s = (success, s)
  parse_all (f ∷ fs) s = next (parse_one f s) (parse_all fs)

  go_on-parse :
      (fs : List (TypedField I))
      → ((s : ObjectView × I) → visit_all parse_visit fs (success, s) ≡ parse_all fs s)
      → (out : MaybeError × (ObjectView × I))
      → go_on (visit_all parse_visit fs) (has_value out.0, out) ≡ next out (parse_all fs)
  go_on-parse fs ih (ok _, s) = ih s
  go_on-parse fs ih (unexpected e, s) = refl

  visit_all-parse_visit :
      (fs : List (TypedField I)) (s : ObjectView × I)
      → visit_all parse_visit fs (success, s) ≡ parse_all fs s
  unfolding visit_all parse_all
  visit_all-parse_visit [] s = refl
  visit_all-parse_visit (f ∷ fs) s = go_on-parse fs (visit_all-parse_visit fs) (parse_one f s)

  -- Parsing runs the effective fields in order on the request and the input, up to the first error:
  -- the input is given if none fails, and the first error otherwise.
  pub parse-parse_all :
      (empty : I) (fields : List (TypedField I)) (root : ObjectView)
      → parse empty fields root ≡ parsed (parse_all (effective field_key fields) (root, empty))
  unfolding parse
  parse-parse_all empty fields root = ap parsed (
      for_each_effective_field-effective field_key parse_visit fields (success, (root, empty))
      ∙ visit_all-parse_visit (effective field_key fields) (root, empty))

  module _ {A : Type 0} (get : I → A) where
    -- The field's assignment leaves what `get` reads.
    abbrev pub LeavesField : BoundField I → Type 0
    LeavesField f = (v : f.ValueType) (out : I) → get (f.store v out) ≡ get out

    abbrev pub Leaves : TypedField I → Type 0
    Leaves (bound f) = LeavesField f
    Leaves (aliased alternate f) = LeavesField f
    Leaves (custom f) = (s : ObjectView × I) → get (f.parse_custom s).1.1 ≡ get s.1
    Leaves (validated f) = Unit

    apply_defaults-get :
        {V : Type 0} (store : V → I → I) (items : List (Item V)) (out : I)
        → ((v : V) (o : I) → get (store v o) ≡ get o)
        → get (apply_defaults store items out) ≡ get out
    unfolding apply_defaults
    apply_defaults-get store [] out h = refl
    apply_defaults-get store (item ∷ items) out h = elim (Option-cases item.default) [
      | inl e ↦ rw e (apply_defaults-get store items out h)
      | inr (v, e) ↦ rw e (apply_defaults-get store items (store v out) h ∙ h v out)
    ]

    store_result-get :
        {V : Type 0} (store : V → I → I) (r : Result V) (root : ObjectView) (out : I)
        → ((v : V) (o : I) → get (store v o) ≡ get o)
        → get (store_result store r root out).1.1 ≡ get out
    store_result-get store (ok v) root out h = h v out
    store_result-get store (unexpected e) root out h = refl

    finish_field-get :
        (f : BoundField I) (pre : MaybeError × FieldView) (root : ObjectView) (out : I)
        → LeavesField f
        → get (finish_field f pre root out).1.1 ≡ get out
    unfolding finish_field
    finish_field-get f (unexpected e, v) root out h = refl
    finish_field-get f (ok _, v) root out h = ground (
      arith,
      apply_defaults-get f.store f.items out h,
      store_result-get f.store (f.conv v) root out h,
    )

    parse_into-get :
        (f : BoundField I) (s : ObjectView × I) → LeavesField f → get (parse_into f s).1.1 ≡ get s.1
    unfolding parse_into
    parse_into-get f (root, out) h = elim (Bool-cases (skips_field f.items root)) [
      | inl skipped ↦ rw skipped
      | inr runs ↦ rw runs (finish_field-get f _ _ out h)
    ]

    parse_one-get :
        (f : TypedField I) (s : ObjectView × I) → Leaves f → get (parse_one f s).1.1 ≡ get s.1
    unfolding parse_one parse_aliased
    parse_one-get (bound f) s h = parse_into-get f s h
    parse_one-get (aliased alternate f) (root, out) h =
        ground (
          arith,
          parse_into-get f (root, out) h,
          parse_into-get (with_key alternate f) (root, out) h,
        )
    parse_one-get (custom f) s h = h s
    parse_one-get (validated f) (root, out) h = refl

    pub parse_all-get :
        (fs : List (TypedField I)) (s : ObjectView × I)
        → All Leaves fs
        → get (parse_all fs s).1.1 ≡ get s.1
    unfolding parse_all
    parse_all-get [] s h = refl
    parse_all-get (f ∷ fs) s (h, hs) =
        next-get (parse_one f s) (λ t. parse_all-get fs t hs) ∙ parse_one-get f s h
      where
        next-get :
            (out : MaybeError × (ObjectView × I))
            → ((t : ObjectView × I) → get (parse_all fs t).1.1 ≡ get t.1)
            → get (next out (parse_all fs)).1.1 ≡ get out.1.1
        next-get (ok _, t) k = k t
        next-get (unexpected e, t) k = refl

    parsed-get :
        (out : MaybeError × (ObjectView × I)) (input : I)
        → (parsed out).0 ≡ ok input
        → get input ≡ get out.1.1
    parsed-get (ok _, (root, out)) input e = ap get (cc)
    parsed-get (unexpected x, s) input e = cc

    -- A member of the input to which no field assigns keeps the value that it starts with.
    pub parse_unassigned :
        (empty : I) (fields : List (TypedField I)) (root : ObjectView) (input : I)
        → All Leaves fields
        → (parse empty fields root).0 ≡ ok input
        → get input ≡ get empty
    parse_unassigned empty fields root input h e =
        parsed-get (parse_all (effective field_key fields) (root, empty)) input
          (ap (λ r. r.0) (sym (parse-parse_all empty fields root)) ∙ e)
        ∙ parse_all-get (effective field_key fields) (root, empty)
            (effective-All field_key Leaves fields h)
