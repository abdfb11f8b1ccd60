-- ===== src/Typed/Stored.antt =====
-- include/rpcspec/Typed.hpp: what a parse that succeeds has stored for a field.
use rpc_spec.Prelude.{
  ◌≡◌, refl, sym, ap, subst, ◌∙◌, ◌⊎◌, inl, inr, true, false, List, [], ◌∷◌, ◌++◌, All, Bool-cases,
}
use rpc_spec.Status.{Result, MaybeError, success, ok, unexpected}
use rpc_spec.View.{FieldView, ObjectView, present, root_child}
use rpc_spec.Field.{Processor, next, run_processors, skips_field}
use rpc_spec.Spec.Override.{effective}
use rpc_spec.Typed.{
  BoundField, apply_defaults, store_result, finish_field, parse_into, TypedField, bound, field_key,
  parse_one, parsed, parse,
}
use rpc_spec.Typed.Laws.{parse_all, parse-parse_all, Leaves, parse_all-get}

pub next-success :
    {S : Type 0} (out : MaybeError × S) (k : Processor S)
    → (next out k).0 ≡ success
    → (t : S) × (out ≡ (success, t)) × (next out k ≡ k t)
next-success (ok _, t) k h = (t, refl, refl)
next-success (unexpected e, t) k h = cc

module _ {I : Type 0} where
  parsed-ok :
      (out : MaybeError × (ObjectView × I)) (input : I)
      → (parsed out).0 ≡ ok input
      → (out.0 ≡ success) × (out.1.1 ≡ input)
  parsed-ok (ok _, (root, x)) input h = (refl, cc)
  parsed-ok (unexpected e, s) input h = cc

  -- A success of all fields is one of each, and what follows a field starts from what it leaves.
  parse_all-success :
      (before : List (TypedField I)) (f : TypedField I) (after : List (TypedField I))
      (s : ObjectView × I)
      → (parse_all (before ++ f ∷ after) s).0 ≡ success
      → (t : ObjectView × I) × (u : ObjectView × I) × (parse_all before s ≡ (success, t))
        × (parse_one f t ≡ (success, u))
        × (parse_all (before ++ f ∷ after) s ≡ parse_all after u)
  unfolding parse_all
  parse_all-success [] f after s h =
      let (u, e, rest) = next-success (parse_one f s) (parse_all after) h in (s, u, refl, e, rest)
  parse_all-success (g ∷ before) f after s h =
      let (r, e, rest) = next-success (parse_one g s) (parse_all (before ++ f ∷ after)) h in
      let (t, u, first, here, later) =
        parse_all-success before f after r (ap (λ o. o.0) (sym rest) ∙ h) in
      (t, u, ap (λ o. next o (parse_all before)) e ∙ first, here, rest ∙ later)

  module _ {A : Type 0} (get : I → A) (f : BoundField I) where
    -- The view of the field once its items have run.
    abbrev pub processed : ObjectView → FieldView
    processed root = (run_processors f.items (root_child root f.key)).1

    -- What the member is: as it was, where a guard skips the field; or else its items succeed, and it is
    -- the default, where the field is absent, or what the converter makes of the field.
    abbrev pub Settled : ObjectView × I → A → Type 0
    Settled (root, out) x =
        ((skips_field f.items root ≡ true) × (x ≡ get out))
        ⊎ ((skips_field f.items root ≡ false)
            × ((run_processors f.items (root_child root f.key)).0 ≡ success)
            × (((present (processed root) ≡ false) × (x ≡ get (apply_defaults f.store f.items out)))
                ⊎ ((w : f.ValueType) × (f.conv (processed root) ≡ ok w)
                    × (x ≡ get (f.store w out)))))

    store_result-ok :
        (r : Result f.ValueType) (root : ObjectView) (out : I) (u : ObjectView × I)
        → store_result f.store r root out ≡ (success, u)
        → (w : f.ValueType) × (r ≡ ok w) × (u.1 ≡ f.store w out)
    store_result-ok (ok w) root out u h = (w, refl, sym (ap (λ o. o.1.1) h))
    store_result-ok (unexpected e) root out u h = cc (ap (λ o. o.0) h)

    finish_field-Settled :
        (pre : MaybeError × FieldView) (root : ObjectView) (out : I) (u : ObjectView × I)
        → finish_field f pre root out ≡ (success, u)
        → (pre.0 ≡ success)
          × (((present pre.1 ≡ false) × (get u.1 ≡ get (apply_defaults f.store f.items out)))
              ⊎ ((w : f.ValueType) × (f.conv pre.1 ≡ ok w) × (get u.1 ≡ get (f.store w out))))
    unfolding finish_field
    finish_field-Settled (unexpected e, v) root out u h = cc (ap (λ o. o.0) h)
    finish_field-Settled (ok _, v) root out u h = elim (Bool-cases (present v)) [
      | inl there ↦
          let (w, e, same) = store_result-ok (f.conv v) root out u (rw there at h) in
          (refl, inr (w, e, ap get same))
      | inr absent ↦ (refl, inl (absent, ap (λ o. get o.1.1) (sym (rw absent at h))))
    ]

    pub parse_into-Settled :
        (root : ObjectView) (out : I) (u : ObjectView × I)
        → parse_into f (root, out) ≡ (success, u)
        → Settled (root, out) (get u.1)
    unfolding parse_into
    parse_into-Settled root out u h = elim (Bool-cases (skips_field f.items root)) [
      | inl skipped ↦ inl (skipped, ap (λ o. get o.1.1) (sym (rw skipped at h)))
      | inr runs ↦
          let (good, rest) = finish_field-Settled _ _ out u (rw runs at h) in inr (runs, good, rest)
    ]

    -- Where a parse succeeds, and no effective field after a bound one assigns to its member, the
    -- fields before it succeed, and the member is what the field settles on from the request and the
    -- input that they leave: unchanged if a guard skips the field; or else the items of the field
    -- succeed, and it is the default if the field is absent, and what its converter makes of it
    -- otherwise.
    pub parse-Settled :
        (empty : I) (fields before after : List (TypedField I)) (root : ObjectView) (input : I)
        → effective field_key fields ≡ before ++ bound f ∷ after
        → All (Leaves get) after
        → (parse empty fields root).0 ≡ ok input
        → (t : ObjectView × I) × (parse_all before (root, empty) ≡ (success, t))
          × Settled t (get input)
    unfolding parse_one
    parse-Settled empty fields before after root input e h k =
        let all = before ++ bound f ∷ after in
        let ends : (parsed (parse_all all (root, empty))).0 ≡ ok input =
          ap (λ fs. (parsed (parse_all fs (root, empty))).0) (sym e)
          ∙ ap (λ r. r.0) (sym (parse-parse_all empty fields root))
          ∙ k in
        let (good, same) = parsed-ok (parse_all all (root, empty)) input ends in
        let (t, u, first, here, later) =
          parse_all-success before (bound f) after (root, empty) good in
        let kept : get u.1 ≡ get input =
          sym (parse_all-get get after u h) ∙ ap (λ o. get o.1.1) (sym later) ∙ ap get same in
        (t, first, subst (λ x. Settled t x) kept (parse_into-Settled t.0 t.1 u here))
