-- ===== src/Field.antt =====
-- include/rpcspec/FieldSpec.hpp and include/rpcspec/Concepts.hpp: the items of a field, and how a
-- field runs them. An item has the operations whose concepts its type satisfies.
use rpc_spec.Prelude.{Text, Bool, false, Option, none, some, List, [], ◌∷◌, ◌++◌, any}
use rpc_spec.Status.{MaybeError, success, ok, unexpected, Warning, Warnings}
use rpc_spec.View.{FieldView, ObjectView, child, put_child, root_child, put_root}

-- An operation that may write to `S` and may fail; what follows a failure does not run.
abbrev pub Processor {ℓ} : Type ℓ → Type ℓ
Processor S = S → MaybeError × S

abbrev pub next {ℓ} : {S : Type ℓ} → MaybeError × S → Processor S → MaybeError × S
next (ok _, s) k = k s
next (unexpected e, s) k = (unexpected e, s)

-- `SomeRequirement`, `SomeModifier`, `SomeCheck`, `SomeGuard` and `SomeDefault`: an operation is
-- there if the concept holds. `guards` is `detail::guardsKey`.
pub record Item (V : Type 0) : Type 0 where
  pub verify : Option (FieldView → MaybeError)
  pub modify : Option (Processor FieldView)
  pub check : Option (FieldView → Option Warning)
  pub skips : Option (ObjectView → Bool)
  pub default : Option V
  pub guards : Text → Bool

abbrev pub call_verify : (FieldView → MaybeError) → Processor FieldView
call_verify f v = (f v, v)

abbrev pub push_back : Warnings → Option Warning → Warnings
push_back out none = out
push_back out (some w) = out ++ w ∷ []

module _ {V : Type 0} where
  unfoldable pub call_if_processor : Item V → Processor FieldView
  call_if_processor item v = elim item.verify [
    | some f ↦ call_verify f v
    | none ↦ elim item.modify [ some g ↦ g v | none ↦ (success, v) ]
  ]

  unfoldable pub call_if_checker : Item V → FieldView → Warnings → Warnings
  call_if_checker item v out = elim item.check [ some f ↦ push_back out (f v) | none ↦ out ]

  -- The items in order, up to the first error.
  unfoldable pub run_processors : List (Item V) → Processor FieldView
  run_processors [] v = (success, v)
  run_processors (item ∷ items) v = next (call_if_processor item v) (run_processors items)

  unfoldable pub run_checks : List (Item V) → FieldView → Warnings → Warnings
  run_checks [] v out = out
  run_checks (item ∷ items) v out = run_checks items v (call_if_checker item v out)

  abbrev pub item_skips : ObjectView → Item V → Bool
  item_skips root item = elim item.skips [ some f ↦ f root | none ↦ false ]

  unfoldable pub skips_field : List (Item V) → ObjectView → Bool
  skips_field items root = any (item_skips root) items

pub record FieldSpec : Type 0 where
  pub key : Text
  pub items : List (Item (Unit {0}))

-- `FieldSpec::operator|`
unfoldable pub append_item : FieldSpec → Item (Unit {0}) → FieldSpec
append_item f item = record f { items = f.items ++ item ∷ [] }

abbrev pub written {ℓ} : {S : Type ℓ} → (FieldView → S) → MaybeError × FieldView → MaybeError × S
written put (r, v) = (r, put v)

-- `FieldSpec::process`
unfoldable pub process_field : FieldSpec → Processor ObjectView
process_field f root =
    written (put_root root f.key) (run_processors f.items (root_child root f.key))

-- `FieldSpec::check`
unfoldable pub check_field : FieldSpec → ObjectView → Warnings
check_field f root = run_checks f.items (root_child root f.key) []

-- `FieldSpec::processNested`
unfoldable pub process_nested : FieldSpec → Processor FieldView
process_nested f parent =
    written (put_child parent f.key) (run_processors f.items (child parent f.key))

-- `FieldSpec::checkNested`
unfoldable pub check_nested : FieldSpec → FieldView → Warnings
check_nested f parent = run_checks f.items (child parent f.key) []
