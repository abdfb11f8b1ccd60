-- ===== src/Admission/Ramp.antt =====
-- include/admissionspec/Types.hpp: the ramp from the size of a payload to its cost.
pub mod Order
use rpc_spec.Prelude.{ℕ, List, [], ◌∷◌, leb, if◌then◌else◌}
use rpc_spec.Prelude.Float.{Double, double_zero}

pub record SizeTier : Type 0 where
  pub up_to_bytes : ℕ
  pub cost : Double

abbrev pub back : SizeTier → List SizeTier → SizeTier
back t [] = t
back t (u ∷ tiers) = back u tiers

-- The loop of `costFor`: `last` is what follows it.
unfoldable pub cost_in : List SizeTier → ℕ → Double → Double
cost_in [] bytes last = last
cost_in (t ∷ tiers) bytes last =
    let rest = cost_in tiers bytes last in if leb bytes t.up_to_bytes then t.cost else rest

abbrev pub back_cost : List SizeTier → Double
back_cost [] = double_zero
back_cost (t ∷ tiers) = (back t tiers).cost

-- `costFor`
unfoldable pub cost_for : List SizeTier → ℕ → Double
unfolding cost_in
cost_for tiers bytes = cost_in tiers bytes (back_cost tiers)
