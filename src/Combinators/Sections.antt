-- ===== src/Combinators/Sections.antt =====
-- include/rpcspec/Section.hpp: the sub-fields of a section against the fields of a spec.
use rpc_spec.Prelude.{◌≡◌, refl, ap, ◌∙◌, Text, some, List, [], ◌∷◌}
use rpc_spec.Json.{Fields, object}
use rpc_spec.Status.{MaybeError, ok, unexpected}
use rpc_spec.View.{FieldView, ObjectView, child, put_child, root_child, put_root}
use rpc_spec.Field.{FieldSpec, Processor, next, process_field, process_nested}
use rpc_spec.Spec.Walk.{process_all}
use rpc_spec.Combinators.{run_sub_fields, section_modify}

-- The view of a field with the document for its value.
abbrev pub as_field : Text → MaybeError × ObjectView → MaybeError × FieldView
as_field k (r, root) = (r, record { key = k; value = some root.document })

next-as_field :
    (k : Text) (out : MaybeError × ObjectView) (p : Processor ObjectView) (q : Processor FieldView)
    → ((root : ObjectView)
        → q (record { key = k; value = some root.document }) ≡ as_field k (p root))
    → next (as_field k out) q ≡ as_field k (next out p)
next-as_field k (ok _, root) p q h = h root
next-as_field k (unexpected e, root) p q h = refl

process_nested-as_field :
    (k : Text) (f : FieldSpec) (root : ObjectView)
    → process_nested f (record { key = k; value = some root.document })
      ≡ as_field k (process_field f root)
unfolding process_nested process_field child put_child root_child put_root
process_nested-as_field k f root = refl

run_sub_fields-process_all :
    (k : Text) (fs : List FieldSpec) (root : ObjectView)
    → run_sub_fields fs (record { key = k; value = some root.document })
      ≡ as_field k (process_all fs root)
unfolding run_sub_fields process_all
run_sub_fields-process_all k [] root = refl
run_sub_fields-process_all k (f ∷ fs) root =
    ap (λ out. next out (run_sub_fields fs)) (process_nested-as_field k f root)
    ∙ next-as_field k (process_field f root) (process_all fs) (run_sub_fields fs)
        (run_sub_fields-process_all k fs)

-- A section on a field that holds an object runs its sub-fields as a spec runs its fields, with that
-- object as the document: in order, each on what those before it wrote, up to the first error.
pub section_modify-process_all :
    (k : Text) (sub_fields : List FieldSpec) (m : Fields)
    → section_modify sub_fields (record { key = k; value = some (object m) })
      ≡ as_field k (process_all sub_fields (record { document = object m }))
unfolding section_modify
section_modify-process_all k sub_fields m =
    run_sub_fields-process_all k sub_fields (record { document = object m })
