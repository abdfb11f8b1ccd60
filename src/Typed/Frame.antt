-- ===== src/Typed/Frame.antt =====
-- include/rpcspec/Typed.hpp: what parsing a request leaves as it was.
use rpc_spec.Prelude.{
  ◌≡◌, ◌≢◌, refl, ap, ◌∙◌, Text, List, [], ◌∷◌, All, Bool-cases, inl, inr, arith,
}
use rpc_spec.Status.{Result, MaybeError, ok, unexpected}
use rpc_spec.View.{FieldView, ObjectView, present, root_child}
use rpc_spec.Field.{Processor, next, skips_field}
use rpc_spec.Spec.Frame.{put_root-root_child, process_field-root_child}
use rpc_spec.Spec.Override.{effective, effective-All}
use rpc_spec.Typed.{
  BoundField, store_result, finish_field, parse_into, with_key, parse_aliased, TypedField, bound,
  aliased, custom, validated, field_key, parse_one, parsed, parse,
}
use rpc_spec.Typed.Laws.{parse_all, parse-parse_all}

module _ {I : Type 0} (k : Text) where
  -- The field has another key, and a field of another class does not write to the member.
  abbrev pub LeavesKey : TypedField I → Type 0
  LeavesKey (bound f) = f.key ≢ k
  LeavesKey (aliased alternate f) = (f.key ≢ k) × (alternate ≢ k)
  LeavesKey (custom f) =
      (s : ObjectView × I) → root_child (f.parse_custom s).1.0 k ≡ root_child s.0 k
  LeavesKey (validated f) = f.key ≢ k

  finish_field-root :
      (f : BoundField I) (pre : MaybeError × FieldView) (root : ObjectView) (out : I)
      → (finish_field f pre root out).1.0 ≡ root
  unfolding finish_field
  finish_field-root f (unexpected e, v) root out = refl
  finish_field-root f (ok _, v) root out = elim (Bool-cases (present v)) [
    | inl there ↦ rw there (stored (f.conv v))
    | inr absent ↦ rw absent refl
  ]
    where
      stored : (r : Result f.ValueType) → (store_result f.store r root out).1.0 ≡ root
      stored (ok w) = refl
      stored (unexpected e) = refl

  parse_into-root_child :
      (f : BoundField I) (s : ObjectView × I)
      → f.key ≢ k
      → root_child (parse_into f s).1.0 k ≡ root_child s.0 k
  unfolding parse_into
  parse_into-root_child f (root, out) h = elim (Bool-cases (skips_field f.items root)) [
    | inl skipped ↦ rw skipped refl
    | inr runs ↦ rw runs (
        ap (λ r. root_child r k) (finish_field-root f _ _ out)
        ∙ put_root-root_child f.key k _ root h)
  ]

  parse_one-root_child :
      (f : TypedField I) (s : ObjectView × I)
      → LeavesKey f
      → root_child (parse_one f s).1.0 k ≡ root_child s.0 k
  unfolding parse_one parse_aliased
  parse_one-root_child (bound f) s h = parse_into-root_child f s h
  parse_one-root_child (aliased alternate f) (root, out) (h, g) = ground (
    arith,
    parse_into-root_child f (root, out) h,
    parse_into-root_child (with_key alternate f) (root, out) g,
  )
  parse_one-root_child (custom f) s h = h s
  parse_one-root_child (validated f) (root, out) h = process_field-root_child f root k h

  next-root_child :
      (out : MaybeError × (ObjectView × I)) (p : Processor (ObjectView × I))
      → ((s : ObjectView × I) → root_child (p s).1.0 k ≡ root_child s.0 k)
      → root_child (next out p).1.0 k ≡ root_child out.1.0 k
  next-root_child (ok _, s) p h = h s
  next-root_child (unexpected e, s) p h = refl

  pub parse_all-root_child :
      (fs : List (TypedField I)) (s : ObjectView × I)
      → All LeavesKey fs
      → root_child (parse_all fs s).1.0 k ≡ root_child s.0 k
  unfolding parse_all
  parse_all-root_child [] s h = refl
  parse_all-root_child (f ∷ fs) s (h, hs) =
      next-root_child (parse_one f s) (parse_all fs) (λ t. parse_all-root_child fs t hs)
      ∙ parse_one-root_child f s h

  parsed-root : (out : MaybeError × (ObjectView × I)) → (parsed out).1 ≡ out.1.0
  parsed-root (ok _, (root, x)) = refl
  parsed-root (unexpected e, (root, x)) = refl

  -- Whether it fails or not, parsing a request changes no member of it whose key is neither the key nor
  -- the other key of a field of the spec, if fields of other classes do not write to it.
  pub parse-root_child :
      (empty : I) (fields : List (TypedField I)) (root : ObjectView)
      → All LeavesKey fields
      → root_child (parse empty fields root).1 k ≡ root_child root k
  parse-root_child empty fields root h =
      ap (λ r. root_child r.1 k) (parse-parse_all empty fields root)
      ∙ ap (λ r. root_child r k) (parsed-root _)
      ∙ parse_all-root_child (effective field_key fields) (root, empty)
          (effective-All field_key LeavesKey fields h)
