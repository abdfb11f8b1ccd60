-- ===== src/Combinators/Wrappers.antt =====
-- include/rpcspec/ServerConditional.hpp: wrapped items against the items that they hold.
use rpc_spec.Prelude.{
  ◌≡◌, refl, sym, ap, fun_ext, true, false, inl, inr, none, some, List, [], ◌∷◌, ◌++◌, any, arith,
  Bool-cases, Option-cases,
}
use mathlib.Core.List.{head?}
use rpc_spec.Status.{MaybeError, success, ok, unexpected, Warnings, Warning}
use rpc_spec.View.{FieldView, ObjectView}
use rpc_spec.Field.{
  Processor, next, Item, call_if_processor, call_if_checker, run_processors, run_checks, item_skips,
  skips_field,
}
use rpc_spec.Combinators.{
  has_verify, has_modify, has_skips, verify_inners, modify_inners, check_inners, server_conditional,
  IsConditional, and_then,
}

next-verify :
    (r : MaybeError) (v : FieldView) (k : Processor FieldView) (l : MaybeError)
    → k v ≡ (l, v)
    → next (r, v) k ≡ (and_then r l, v)
next-verify (ok _) v k l e = e
next-verify (unexpected s) v k l e = refl

module _ {V : Type 0} where
  run_processors-verify :
      (inners : List (Item V)) (v : FieldView)
      → any has_modify inners ≡ false
      → run_processors inners v ≡ (verify_inners inners v, v)
  unfolding run_processors verify_inners call_if_processor
  run_processors-verify [] v h = refl
  run_processors-verify (item ∷ items) v h = elim (Option-cases item.verify) [
    | inl e ↦ ground (arith, run_processors-verify items v)
    | inr (f, e) ↦ rw e (
        next-verify (f v) v (run_processors items) (verify_inners items v)
          (run_processors-verify items v (ground arith)))
  ]

  run_processors-modify :
      (inners : List (Item V)) (v : FieldView)
      → any has_verify inners ≡ false
      → run_processors inners v ≡ modify_inners inners v
  unfolding run_processors modify_inners call_if_processor
  run_processors-modify [] v h = refl
  run_processors-modify (item ∷ items) v h =
      let no_verify : item.verify ≡ none = ground arith in
      let later : (w : FieldView) → run_processors items w ≡ modify_inners items w =
        λ w. run_processors-modify items w (ground arith) in
      elim (Option-cases item.modify) [
        | inl e ↦ rw (no_verify, e) (later v)
        | inr (g, e) ↦ rw (no_verify, e) (ap (next (g v)) (fun_ext later))
      ]

  verify_inners-none :
      (inners : List (Item V)) (v : FieldView)
      → any has_verify inners ≡ false
      → verify_inners inners v ≡ success
  unfolding verify_inners
  verify_inners-none [] v h = refl
  verify_inners-none (item ∷ items) v h = ground (arith, verify_inners-none items v)

  -- An active wrapper of items that do not both verify and modify, as it demands of them, processes
  -- a field as the items do one after another.
  pub call_if_processor-server_conditional :
      (inners : List (Item V)) (v : FieldView)
      → IsConditional inners
      → call_if_processor (server_conditional true inners) v ≡ run_processors inners v
  unfolding server_conditional call_if_processor
  call_if_processor-server_conditional inners v h = elim (Bool-cases (any has_modify inners)) [
    | inl some_modify ↦ ground (arith, run_processors-modify inners v)
    | inr no_modify ↦
        ground (arith, run_processors-verify inners v no_modify, verify_inners-none inners v)
  ]

  any-item_skips :
      (inners : List (Item V)) (root : ObjectView)
      → any has_skips inners ≡ false
      → any (item_skips root) inners ≡ false
  any-item_skips [] root h = refl
  any-item_skips (item ∷ items) root h = ground (arith, any-item_skips items root)

  -- An active wrapper skips a field exactly where one of its items does.
  pub item_skips-server_conditional :
      (inners : List (Item V)) (root : ObjectView)
      → item_skips root (server_conditional true inners) ≡ skips_field inners root
  unfolding server_conditional skips_field
  item_skips-server_conditional inners root = ground (arith, any-item_skips inners root)

  -- An inactive wrapper succeeds and writes nothing, adds no warning, and skips no field, whatever its
  -- items.
  pub server_conditional_inactive :
      (inners : List (Item V)) (v : FieldView) (root : ObjectView) (out : Warnings)
      → (call_if_processor (server_conditional false inners) v ≡ (success, v))
        × (call_if_checker (server_conditional false inners) v out ≡ out)
        × (item_skips root (server_conditional false inners) ≡ false)
  unfolding server_conditional call_if_processor call_if_checker
  server_conditional_inactive inners v root out = ground arith

  head?-run_checks :
      (items : List (Item V)) (v : FieldView) (w : Warning) (out : Warnings)
      → head? (run_checks items v (w ∷ out)) ≡ some w
  unfolding run_checks call_if_checker
  head?-run_checks [] v w out = refl
  head?-run_checks (item ∷ items) v w out = elim (Option-cases item.check) [
    | inl e ↦ rw e (head?-run_checks items v w out)
    | inr (f, e) ↦ elim (Option-cases (f v)) [
      | inl n ↦ rw (e, n) (head?-run_checks items v w out)
      | inr (x, n) ↦ rw (e, n) (head?-run_checks items v w (out ++ x ∷ []))
    ]
  ]

  -- An active wrapper gives the first of the warnings that its items give, and no other.
  pub check_inners-head? :
      (inners : List (Item V)) (v : FieldView)
      → check_inners inners v ≡ head? (run_checks inners v [])
  unfolding check_inners run_checks call_if_checker
  check_inners-head? [] v = refl
  check_inners-head? (item ∷ items) v = elim (Option-cases item.check) [
    | inl e ↦ rw e (check_inners-head? items v)
    | inr (f, e) ↦ elim (Option-cases (f v)) [
      | inl n ↦ rw (e, n) (check_inners-head? items v)
      | inr (w, n) ↦ rw (e, n) (sym (head?-run_checks items v w []))
    ]
  ]
