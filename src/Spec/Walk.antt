-- ===== src/Spec/Walk.antt =====
-- include/rpcspec/RpcSpec.hpp: which fields `process` and `check` run, and with which effect.
use rpc_spec.Prelude.{
  ◌≡◌, refl, sym, ap, ◌∙◌, Text, true, Option, none, some, List, [], ◌∷◌, ◌++◌, arith, text_eq,
  text_eq_iff, if◌then◌else◌,
}
use mathlib.Core.List.{append_assoc}
use rpc_spec.Status.{has_value, MaybeError, success, ok, unexpected, Warnings}
use rpc_spec.View.{ObjectView}
use rpc_spec.Field.{Processor, FieldSpec, process_field, check_field, next}
use rpc_spec.Spec.{
  Visit, go_on, for_each_effective_field, process_visit, process, check_visit, check, extend,
}
use rpc_spec.Spec.Override.{put, put_all, effective, visit_all, for_each_effective_field-effective}

module _ {ℓ} {F : Type ℓ} (key : F → Text) where
  -- The field with the key, from the left.
  abbrev pub first_with : Text → List F → Option F
  first_with k [] = none
  first_with k (f ∷ fs) = if text_eq (key f) k then some f else first_with k fs

  -- The last field with the key.
  abbrev pub last_with : Text → Option F → List F → Option F
  last_with k found [] = found
  last_with k found (f ∷ fs) = last_with k (if text_eq (key f) k then some f else found) fs

  -- No two fields have one key.
  abbrev pub IsDistinct : List F → Type ℓ
  IsDistinct [] = Unit
  IsDistinct (f ∷ fs) = (first_with (key f) fs ≡ none) × IsDistinct fs

  first_with-put :
      (k : Text) (f : F) (gs : List F)
      → first_with k (put key f gs) ≡ (if text_eq (key f) k then some f else first_with k gs)
  unfolding put
  first_with-put k f [] = refl
  first_with-put k f (g ∷ gs) = ground (
    arith,
    text_eq_iff (key f) k,
    text_eq_iff (key g) k,
    text_eq_iff (key g) (key f),
    first_with-put k f gs,
  )

  put-IsDistinct : (f : F) (gs : List F) → IsDistinct gs → IsDistinct (put key f gs)
  unfolding put
  put-IsDistinct f [] d = (refl, tt)
  put-IsDistinct f (g ∷ gs) (n, d) = ground (
    arith,
    first_with-put (key g) f gs,
    put-IsDistinct f gs d,
    text_eq_iff (key g) (key f),
    text_eq_iff (key f) (key g),
  )

  put_all-IsDistinct : (gs fs : List F) → IsDistinct gs → IsDistinct (put_all key gs fs)
  unfolding put_all
  put_all-IsDistinct gs [] d = d
  put_all-IsDistinct gs (f ∷ fs) d = put_all-IsDistinct (put key f gs) fs (put-IsDistinct f gs d)

  first_with-put_all :
      (k : Text) (gs fs : List F)
      → first_with k (put_all key gs fs) ≡ last_with k (first_with k gs) fs
  unfolding put_all
  first_with-put_all k gs [] = refl
  first_with-put_all k gs (f ∷ fs) =
      first_with-put_all k (put key f gs) fs ∙ ap (λ o. last_with k o fs) (first_with-put k f gs)

  -- The visit that writes down the field.
  abbrev pub note : Visit F (List F)
  note f seen = (true, seen ++ f ∷ [])

  visit_all-note : (fs seen : List F) → visit_all note fs seen ≡ seen ++ fs
  unfolding visit_all
  visit_all-note [] seen = sym (mathlib.Core.List.append-nil seen)
  visit_all-note (f ∷ fs) seen = visit_all-note fs (seen ++ f ∷ []) ∙ append_assoc seen (f ∷ []) fs

  -- A walk that nothing stops visits each key once, with the last field that has the key, and visits
  -- no key that no field has.
  pub for_each_effective_field-last :
      (fields : List F)
      → let visited = for_each_effective_field key note fields [] in
        IsDistinct visited × ((k : Text) → first_with k visited ≡ last_with k none fields)
  unfolding effective
  for_each_effective_field-last fields =
      rw
        (
          for_each_effective_field-effective key note fields [],
          visit_all-note (effective key fields) [],
        )
        (put_all-IsDistinct [] fields tt, λ k. first_with-put_all k [] fields)

  put_all-append :
      (gs fs : List F) (f : F) → put_all key gs (fs ++ f ∷ []) ≡ put key f (put_all key gs fs)
  unfolding put_all
  put_all-append gs [] f = refl
  put_all-append gs (h ∷ fs) f = put_all-append (put key h gs) fs f

-- The fields' processors in order, up to the first error; each sees what those before it wrote.
unfoldable pub process_all : List FieldSpec → Processor ObjectView
process_all [] root = (success, root)
process_all (f ∷ fs) root = next (process_field f root) (process_all fs)

go_on-process :
    (fs : List FieldSpec)
    → ((root : ObjectView) → visit_all process_visit fs (success, root) ≡ process_all fs root)
    → (out : MaybeError × ObjectView)
    → go_on (visit_all process_visit fs) (has_value out.0, out) ≡ next out (process_all fs)
go_on-process fs ih (ok _, r) = ih r
go_on-process fs ih (unexpected e, r) = refl

visit_all-process_visit :
    (fs : List FieldSpec) (root : ObjectView)
    → visit_all process_visit fs (success, root) ≡ process_all fs root
unfolding visit_all process_all
visit_all-process_visit [] root = refl
visit_all-process_visit (f ∷ fs) root =
    go_on-process fs (visit_all-process_visit fs) (process_field f root)

-- Processing a request runs the fields of the dictionary into which the spec's fields are put, in its
-- order, each on what those before it wrote, and stops at the first that fails.
pub process-process_all :
    (fields : List FieldSpec) (root : ObjectView)
    → process fields root ≡ process_all (effective (λ f. f.key) fields) root
unfolding process
process-process_all fields root =
    for_each_effective_field-effective (λ f. f.key) process_visit fields (success, root)
    ∙ visit_all-process_visit (effective (λ f. f.key) fields) root

-- A field that extends a spec takes the place of the field with its key, and is run there; if no
-- field has its key, it is run last.
pub process-extend :
    (base : List FieldSpec) (f : FieldSpec) (root : ObjectView)
    → process (extend base (f ∷ [])) root
      ≡ process_all (put (λ g. g.key) f (effective (λ g. g.key) base)) root
unfolding extend effective
process-extend base f root =
    process-process_all (base ++ f ∷ []) root
    ∙ ap (λ fs. process_all fs root) (put_all-append (λ g. g.key) [] base f)

-- The warnings of the fields, one field after another.
unfoldable pub check_all : ObjectView → List FieldSpec → Warnings
check_all root [] = []
check_all root (f ∷ fs) = check_field f root ++ check_all root fs

visit_all-check_visit :
    (root : ObjectView) (fs : List FieldSpec) (out : Warnings)
    → visit_all (check_visit root) fs out ≡ out ++ check_all root fs
unfolding visit_all check_all
visit_all-check_visit root [] out = sym (mathlib.Core.List.append-nil out)
visit_all-check_visit root (f ∷ fs) out =
    visit_all-check_visit root fs (out ++ check_field f root)
    ∙ append_assoc out (check_field f root) (check_all root fs)

-- The warnings of a request are those of the fields of the dictionary, in its order, and no field
-- stops the others.
pub check-check_all :
    (fields : List FieldSpec) (root : ObjectView)
    → check fields root ≡ check_all root (effective (λ f. f.key) fields)
unfolding check
check-check_all fields root =
    for_each_effective_field-effective (λ f. f.key) (check_visit root) fields []
    ∙ visit_all-check_visit root (effective (λ f. f.key) fields) []
