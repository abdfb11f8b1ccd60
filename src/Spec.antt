-- ===== src/Spec.antt =====
-- include/rpcspec/RpcSpec.hpp: the walk over the fields of a spec, in which of the fields with one
-- key the last wins, at the place of the first.
pub mod Override
pub mod Walk
pub mod Frame
mod Tests
use rpc_spec.Prelude.{
  ℕ, ◌+◌, Text, Bool, true, false, not, ◌||◌, Option, none, some, List, [], ◌∷◌, ◌++◌, map, text_eq,
  get_elem?, any, if◌then◌else◌,
}
use rpc_spec.Status.{MaybeError, success, Warnings, has_value}
use rpc_spec.View.{ObjectView}
use rpc_spec.Field.{Processor, FieldSpec, process_field, check_field}

-- An entry of the plan: `shouldRun[i]` and `effectiveIdx[i]`.
pub record Entry : Type 0 where
  pub should_run : Bool
  pub effective_idx : ℕ

-- The loop over `j < i`, which stops at an equal key.
unfoldable pub is_first : Text → List Text → Bool
is_first k [] = true
is_first k (j ∷ before) = elim (text_eq j k) [ true ↦ false | false ↦ is_first k before ]

-- The loop over `j > i`: `j` is the index of the first key of the list.
unfoldable pub last_index : Text → ℕ → ℕ → List Text → ℕ
last_index k last j [] = last
last_index k last j (l ∷ rest) = last_index k (if text_eq l k then j else last) (j + 1) rest

abbrev pub entry : Text → List Text → ℕ → List Text → Entry
entry k before i rest = record {
  should_run = is_first k before;
  effective_idx = if is_first k before then last_index k i (i + 1) rest else 0;
}

-- The loop over `i`; `before` holds the keys below `i`.
unfoldable pub plan_from : List Text → ℕ → List Text → List Entry
plan_from before i [] = []
plan_from before i (k ∷ rest) = entry k before i rest ∷ plan_from (before ++ k ∷ []) (i + 1) rest

unfoldable pub build_override_plan : List Text → List Entry
build_override_plan keys = plan_from [] 0 keys

-- A visit of a field says whether the walk goes on, and may change the state that it captures.
abbrev pub Visit {ℓ κ} : Type ℓ → Type κ → Type (ℓ ⊔ κ)
Visit F S = F → S → Bool × S

abbrev pub go_on {κ} : {S : Type κ} → (S → S) → Bool × S → S
go_on rest (true, s) = rest s
go_on rest (false, s) = s

module _ {ℓ κ} {F : Type ℓ} {S : Type κ} where
  -- `kDispatch[idx](fields, visit)`
  unfoldable pub dispatch : Visit F S → List F → ℕ → S → Bool × S
  dispatch visit fields idx s = elim (get_elem? fields idx) [
    | none ↦ (true, s)
    | some f ↦ visit f s
  ]

  unfoldable pub walk : Visit F S → List F → List Entry → S → S
  walk visit fields [] s = s
  walk visit fields (e ∷ plan) s =
      let rest = walk visit fields plan in
      if e.should_run then go_on rest (dispatch visit fields e.effective_idx s) else rest s

  unfoldable pub for_each_effective_field : (F → Text) → Visit F S → List F → S → S
  for_each_effective_field key visit fields s =
      walk visit fields (build_override_plan (map key fields)) s

abbrev pub process_visit : Visit FieldSpec (MaybeError × ObjectView)
process_visit f (_, root) = let out = process_field f root in (has_value out.0, out)

-- `RpcSpec::process`: the fields of the spec are its list.
unfoldable pub process : List FieldSpec → Processor ObjectView
process fields root = for_each_effective_field (λ f. f.key) process_visit fields (success, root)

abbrev pub check_visit : ObjectView → Visit FieldSpec Warnings
check_visit root f out = (true, out ++ check_field f root)

unfoldable pub check : List FieldSpec → ObjectView → Warnings
check fields root = for_each_effective_field (λ f. f.key) (check_visit root) fields []

-- `extend` and `operator+`
unfoldable pub extend {ℓ} : {F : Type ℓ} → List F → List F → List F
extend base extra = base ++ extra
