-- ===== src/Versioned/Select.antt =====
-- include/rpcspec/VersionedSpec.hpp: the spec that is selected, for every API version.
use rpc_spec.Prelude.{
  ℕ, zero, suc, ◌+◌, ◌-◌, ◌≡◌, ◌≤◌, ◌<◌, ◌⊎◌, refl, List, [], ◌∷◌, some, arith, length, get_elem?,
}
use mathlib.Core.Option
use rpc_spec.Versioned.{index_for, select_from, selected}

-- The index stays below the number of specs.
index_for-lt : (count api_version : ℕ) → 0 < count → index_for count api_version < count
unfolding index_for
index_for-lt count api_version h = ground arith

module _ {ℓ κ} {Spec : Type ℓ} {R : Type κ} where
  select_from-get_elem? :
      (index i k : ℕ) (first : Spec) (rest : List Spec) (fn : Spec → R)
      → i + k ≡ index
      → k < length (first ∷ rest)
      → some (select_from index i first rest fn) ≡ Option.map fn (get_elem? (first ∷ rest) k)
  unfolding select_from
  select_from-get_elem? index i zero first [] fn e h = refl
  select_from-get_elem? index i (suc k) first [] fn e h = absurd (omega arith)
  select_from-get_elem? index i zero first (second ∷ rest) fn e h = ground arith
  select_from-get_elem? index i (suc k) first (second ∷ rest) fn e h =
      ground (arith, select_from-get_elem? index (i + 1) k second rest fn)

  -- A request for one of the versions from 1 up to the number of specs is given the spec of that
  -- version.
  pub selected-get_elem? :
      (api_version : ℕ) (first : Spec) (rest : List Spec) (fn : Spec → R)
      → 1 ≤ api_version
      → api_version ≤ length (first ∷ rest)
      → some (selected api_version first rest fn)
        ≡ Option.map fn (get_elem? (first ∷ rest) (api_version - 1))
  unfolding selected
  selected-get_elem? api_version first rest fn lo hi =
      select_from-get_elem? _ 0 (api_version - 1) first rest fn (ground arith) (omega arith)

  -- A request for version 0, or for one above the number of specs, is given the last spec.
  pub selected_latest :
      (api_version : ℕ) (first : Spec) (rest : List Spec) (fn : Spec → R)
      → (api_version ≡ 0) ⊎ (length (first ∷ rest) < api_version)
      → some (selected api_version first rest fn)
        ≡ Option.map fn (get_elem? (first ∷ rest) (length rest))
  unfolding selected
  selected_latest api_version first rest fn h =
      select_from-get_elem? _ 0 (length rest) first rest fn (ground arith) (omega arith)
