-- ===== src/Spec/Frame.antt =====
-- include/rpcspec/RpcSpec.hpp: what processing a request leaves as it was.
use rpc_spec.Prelude.{
  ◌≡◌, ◌≢◌, refl, ap, ◌∙◌, Text, Option, none, some, List, [], ◌∷◌, All, arith, text_eq_iff,
}
use rpc_spec.Json.{Value, object, Fields, end, member, find, assign}
use rpc_spec.Status.{MaybeError, ok, unexpected}
use rpc_spec.View.{FieldView, ObjectView, member_of, with_member, root_child, put_root}
use rpc_spec.Field.{Processor, FieldSpec, process_field, next}
use rpc_spec.Spec.{process}
use rpc_spec.Spec.Override.{effective, effective-All}
use rpc_spec.Spec.Walk.{process_all, process-process_all}

find-assign : (k j : Text) (v : Value) (m : Fields) → k ≢ j → find j (assign k v m) ≡ find j m
unfolding find assign
find-assign k j v end h = refl
find-assign k j v (member i w m) h =
    ground (arith, text_eq_iff i k, text_eq_iff i j, find-assign k j v m)

member_of-with_member :
    (k j : Text) (o : Option Value) (v : Value)
    → k ≢ j
    → member_of j (with_member k o v) ≡ member_of j v
member_of-with_member k j (some x) (object m) h = find-assign k j x m h
member_of-with_member k j none (object m) h = refl
member_of-with_member k j (some x) _ h = refl
member_of-with_member k j none _ h = refl

pub put_root-root_child :
    (k j : Text) (c : FieldView) (root : ObjectView)
    → k ≢ j
    → root_child (put_root root k c) j ≡ root_child root j
unfolding root_child put_root
put_root-root_child k j c root h =
    ap (λ o. record { key = j; value = o }) (member_of-with_member k j c.value root.document h)

pub process_field-root_child :
    (f : FieldSpec) (root : ObjectView) (k : Text)
    → f.key ≢ k
    → root_child (process_field f root).1 k ≡ root_child root k
unfolding process_field
process_field-root_child f root k h = put_root-root_child f.key k _ root h

next-root_child :
    (out : MaybeError × ObjectView) (p : Processor ObjectView) (k : Text)
    → ((r : ObjectView) → root_child (p r).1 k ≡ root_child r k)
    → root_child (next out p).1 k ≡ root_child out.1 k
next-root_child (ok _, r) p k h = h r
next-root_child (unexpected e, r) p k h = refl

process_all-root_child :
    (fs : List FieldSpec) (k : Text)
    → All (λ f. f.key ≢ k) fs
    → (root : ObjectView) → root_child (process_all fs root).1 k ≡ root_child root k
unfolding process_all
process_all-root_child [] k h root = refl
process_all-root_child (f ∷ fs) k (h, hs) root =
    next-root_child (process_field f root) (process_all fs) k (process_all-root_child fs k hs)
    ∙ process_field-root_child f root k h

-- Whether it fails or not, processing a request changes no member of it whose key is the key of no
-- field of the spec.
pub process-root_child :
    (fields : List FieldSpec) (root : ObjectView) (k : Text)
    → All (λ f. f.key ≢ k) fields
    → root_child (process fields root).1 k ≡ root_child root k
process-root_child fields root k h =
    ap (λ out. root_child out.1 k) (process-process_all fields root)
    ∙ process_all-root_child (effective (λ f. f.key) fields) k
        (effective-All (λ f. f.key) (λ f. f.key ≢ k) fields h) root
