-- ===== src/Typed/Fields.antt =====
-- include/rpcspec/Typed.hpp: guards of a bound field, and the two keys of an aliased one.
use rpc_spec.Prelude.{◌≡◌, refl, ◌⊎◌, inl, inr, Text, true, List, [], ◌∷◌, ◌++◌, any, arith}
use rpc_spec.Status.{success}
use rpc_spec.View.{ObjectView, present, root_child}
use rpc_spec.Field.{Item, item_skips, skips_field}
use rpc_spec.Typed.{
  BoundField, parse_into, check_bound, if_absent, if_absent_skips, never, never_skips,
}

skips_field-guard :
    {V : Type 0} (before after : List (Item V)) (item : Item V) (root : ObjectView)
    → item_skips root item ≡ true
    → any (item_skips root) (before ++ item ∷ after) ≡ true
skips_field-guard [] after item root h = ground arith
skips_field-guard (i ∷ before) after item root h =
    ground (arith, skips_field-guard before after item root h)

module _ {I : Type 0} (f : BoundField I) (before after : List (Item f.ValueType)) where
  -- A field that a guard skips is neither parsed nor checked, wherever the guard stands among its
  -- items: the request, the input and the warnings stay as they are. `ifAbsent` skips it where the
  -- other key is present, and `never` always.
  pub parse_into-guard :
      (root : ObjectView) (out : I) (k : Text)
      → ((f.items ≡ before ++ if_absent f.ValueType k ∷ after)
          × (present (root_child root k) ≡ true))
        ⊎ (f.items ≡ before ++ never f.ValueType ∷ after)
      → (parse_into f (root, out) ≡ (success, (root, out))) × (check_bound f root ≡ [])
  unfolding parse_into check_bound skips_field if_absent_skips never_skips
  parse_into-guard root out k (inl (e, p)) =
      rw e (rw (skips_field-guard before after (if_absent f.ValueType k) root p) (refl, refl))
  parse_into-guard root out k (inr e) =
      rw e (rw (skips_field-guard before after (never f.ValueType) root refl) (refl, refl))
