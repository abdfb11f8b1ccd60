-- ===== src/Spec/Override.antt =====
-- include/rpcspec/RpcSpec.hpp: the walk over the fields of a spec against an ordered dictionary,
-- into which the fields are put one by one.
use rpc_spec.Prelude.{
  ℕ, ◌+◌, ◌≡◌, refl, sym, ap, ◌∙◌, Text, false, inl, inr, some, List, [], ◌∷◌, ◌++◌, map, fun_ext,
  All, arith, text_eq, text_eq_iff, get_elem?, length, length-append, if◌then◌else◌, Bool-cases,
}
use mathlib.Core.List.{append_assoc, append-nil, map-append}
use rpc_spec.Spec.{
  is_first, last_index, plan_from, build_override_plan, Visit, go_on, dispatch, walk,
  for_each_effective_field,
}

-- The visits of a list of fields, up to the one that stops the walk.
unfoldable pub visit_all {ℓ κ} : {F : Type ℓ} {S : Type κ} → Visit F S → List F → S → S
visit_all visit [] s = s
visit_all visit (f ∷ fs) s = go_on (visit_all visit fs) (visit f s)

module _ {ℓ} {F : Type ℓ} (key : F → Text) where
  -- A field takes the place of the one with its key, or comes last.
  unfoldable pub put : F → List F → List F
  put f [] = f ∷ []
  put f (g ∷ gs) = if text_eq (key g) (key f) then f ∷ gs else g ∷ put f gs

  unfoldable pub put_all : List F → List F → List F
  put_all fs [] = fs
  put_all fs (f ∷ more) = put_all (put f fs) more

  unfoldable pub effective : List F → List F
  unfolding put put_all
  effective fs = put_all [] fs

  -- The last field with the key, from `current` on.
  last_of : Text → F → List F → F
  last_of k current [] = current
  last_of k current (g ∷ rest) = last_of k (if text_eq (key g) k then g else current) rest

  -- What holds of each field holds of each field of the dictionary.
  put-All {κ} : (P : F → Type κ) (f : F) (gs : List F) → P f → All P gs → All P (put f gs)
  unfolding put
  put-All P f [] h k = (h, tt)
  put-All P f (g ∷ gs) h (k, ks) = elim (Bool-cases (text_eq (key g) (key f))) [
    | inl same ↦ rw same (h, ks)
    | inr other ↦ rw other (k, put-All P f gs h ks)
  ]

  put_all-All {κ} : (P : F → Type κ) (gs fs : List F) → All P gs → All P fs → All P (put_all gs fs)
  unfolding put_all
  put_all-All P gs [] k h = k
  put_all-All P gs (f ∷ fs) k (h, hs) = put_all-All P (put f gs) fs (put-All P f gs h k) hs

  pub effective-All {κ} : (P : F → Type κ) (fs : List F) → All P fs → All P (effective fs)
  unfolding effective
  effective-All P fs h = put_all-All P [] fs tt h

  -- What the plan selects, without indices.
  resolve : List F → List F → List F
  resolve before [] = []
  resolve before (f ∷ rest) =
      let later = resolve (before ++ f ∷ []) rest in
      if is_first (key f) (map key before) then last_of (key f) f rest ∷ later else later

  is_first-append :
      (k : Text) (before : List F) (f : F)
      → is_first k (map key (before ++ f ∷ []))
        ≡ (if text_eq (key f) k then false else is_first k (map key before))
  unfolding is_first
  is_first-append k [] f = ground arith
  is_first-append k (g ∷ before) f = ground (arith, is_first-append k before f)

  last_of-append :
      (k : Text) (current : F) (rest : List F) (g : F)
      → last_of k current (rest ++ g ∷ [])
        ≡ (if text_eq (key g) k then g else last_of k current rest)
  unfolding last_of
  last_of-append k current [] g = refl
  last_of-append k current (h ∷ rest) g =
      last_of-append k (if text_eq (key h) k then h else current) rest g

  key-last_of : (f : F) (rest : List F) (k : Text) → key f ≡ k → key (last_of k f rest) ≡ k
  unfolding last_of
  key-last_of f [] k e = e
  key-last_of f (g ∷ rest) k e = elim (Bool-cases (text_eq (key g) k)) [
    | inl same ↦ rw same (key-last_of g rest k ((text_eq_iff (key g) k).0 same))
    | inr other ↦ rw other (key-last_of f rest k e)
  ]

  -- A field put at the end of the spec is put into what the fields before it give.
  resolve-append :
      (before rest : List F) (g : F)
      → resolve before (rest ++ g ∷ []) ≡ (
          if is_first (key g) (map key before)
          then put g (resolve before rest)
          else resolve before rest)
  unfolding resolve put last_of
  resolve-append before [] g = refl
  resolve-append before (f ∷ rest) g = ground (
    arith,
    resolve-append (before ++ f ∷ []) rest g,
    is_first-append (key g) before f,
    last_of-append (key f) f rest g,
    key-last_of f rest (key f) refl,
    text_eq_iff (key f) (key g),
    text_eq_iff (key g) (key f),
  )

  put_all-resolve :
      (before fs : List F) → put_all (resolve [] before) fs ≡ resolve [] (before ++ fs)
  unfolding put_all is_first
  put_all-resolve before [] = ap (resolve []) (sym (append-nil before))
  put_all-resolve before (f ∷ fs) =
      ap (λ gs. put_all gs fs) (sym (resolve-append [] before f))
      ∙ put_all-resolve (before ++ f ∷ []) fs
      ∙ ap (resolve []) (append_assoc before (f ∷ []) fs)

  effective-resolve : (fs : List F) → effective fs ≡ resolve [] fs
  unfolding effective resolve
  effective-resolve fs = put_all-resolve [] fs

  get_elem?-middle :
      (before rest : List F) (g : F) → get_elem? (before ++ g ∷ rest) (length before) ≡ some g
  get_elem?-middle [] rest g = refl
  get_elem?-middle (f ∷ before) rest g = get_elem?-middle before rest g

  -- The entry of the plan for a field finds the last field with its key.
  get_elem?-last_index :
      (fields before rest : List F) (k : Text) (last j : ℕ) (current : F)
      → fields ≡ before ++ rest
      → j ≡ length before
      → get_elem? fields last ≡ some current
      → get_elem? fields (last_index k last j (map key rest)) ≡ some (last_of k current rest)
  unfolding last_index last_of
  get_elem?-last_index fields before [] k last j current e d h = h
  get_elem?-last_index fields before (g ∷ rest) k last j current e d h =
      get_elem?-last_index fields (before ++ g ∷ []) rest k (if text_eq (key g) k then j else last)
        (j + 1) (if text_eq (key g) k then g else current)
        (e ∙ sym (append_assoc before (g ∷ []) rest)) (omega (arith, length-append before (g ∷ [])))
        (ground (
          arith,
          ap (λ l. get_elem? l j) e,
          ap (get_elem? (before ++ g ∷ rest)) d,
          get_elem?-middle before rest g,
        ))

  -- The field that an entry of the plan selects.
  get_elem?-effective_idx :
      (fields before rest : List F) (f : F) (i : ℕ)
      → fields ≡ before ++ f ∷ rest
      → i ≡ length before
      → get_elem? fields (last_index (key f) i (i + 1) (map key rest))
        ≡ some (last_of (key f) f rest)
  get_elem?-effective_idx fields before rest f i e d =
      get_elem?-last_index fields (before ++ f ∷ []) rest (key f) i (i + 1) f
        (e ∙ sym (append_assoc before (f ∷ []) rest)) (omega (arith, length-append before (f ∷ [])))
        (ap (λ l. get_elem? l i) e
          ∙ ap (get_elem? (before ++ f ∷ rest)) d
          ∙ get_elem?-middle before rest f)

  walk-plan_from {κ} :
      {S : Type κ} (visit : Visit F S) (fields before rest : List F) (i : ℕ) (s : S)
      → fields ≡ before ++ rest
      → i ≡ length before
      → walk visit fields (plan_from (map key before) i (map key rest)) s
        ≡ visit_all visit (resolve before rest) s
  unfolding walk plan_from resolve visit_all dispatch
  walk-plan_from visit fields before [] i s e d = refl
  walk-plan_from visit fields before (f ∷ rest) i s e d =
      let later : (t : _)
          → walk visit fields (plan_from (map key before ++ key f ∷ []) (i + 1) (map key rest)) t
            ≡ visit_all visit (resolve (before ++ f ∷ []) rest) t =
        λ t. rw (← map-append key before (f ∷ [])) (
          walk-plan_from visit fields (before ++ f ∷ []) rest (i + 1) t
            (e ∙ sym (append_assoc before (f ∷ []) rest))
            (omega (arith, length-append before (f ∷ [])))) in
      elim (Bool-cases (is_first (key f) (map key before))) [
        | inl first ↦
            rw (first, get_elem?-effective_idx fields before rest f i e d, dispatch)
              (ap (λ k. go_on k (visit (last_of (key f) f rest) s)) (fun_ext later))
        | inr again ↦ rw again (later s)
      ]

  -- Whatever a visit does, the walk visits the fields of the dictionary into which the spec's fields
  -- are put in declaration order, and stops where a visit says so.
  pub for_each_effective_field-effective {κ} :
      {S : Type κ} (visit : Visit F S) (fields : List F) (s : S)
      → for_each_effective_field key visit fields s ≡ visit_all visit (effective fields) s
  unfolding for_each_effective_field build_override_plan
  for_each_effective_field-effective visit fields s =
      walk-plan_from visit fields [] fields 0 s refl refl
      ∙ ap (λ fs. visit_all visit fs s) (sym (effective-resolve fields))
