-- ===== src/Versioned.antt =====
-- include/rpcspec/VersionedSpec.hpp: the spec that an API version selects.
pub mod Select
mod Tests
use rpc_spec.Prelude.{ℕ, ◌-◌, ◌+◌, Bool, ◌&&◌, List, [], ◌∷◌, leb, ◌==◌, length, if◌then◌else◌}

-- `indexFor`, of `kCount` specs.
unfoldable pub index_for : ℕ → ℕ → ℕ
index_for count api_version =
    if leb 1 api_version && leb api_version count then api_version - 1 else count - 1

module _ {ℓ κ} {Spec : Type ℓ} {R : Type κ} where
  -- `selected<I>`: `first` is spec `I`, `rest` holds those after it.
  unfoldable pub select_from : ℕ → ℕ → Spec → List Spec → (Spec → R) → R
  select_from index i first [] fn = fn first
  select_from index i first (second ∷ rest) fn =
      let later = select_from index (i + 1) second rest fn in if i == index then fn first else later

  -- The specs are the first one and the others: there is at least one.
  unfoldable pub selected : ℕ → Spec → List Spec → (Spec → R) → R
  unfolding index_for
  selected api_version first rest fn =
      select_from (index_for (length (first ∷ rest)) api_version) 0 first rest fn
