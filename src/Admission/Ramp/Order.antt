-- ===== src/Admission/Ramp/Order.antt =====
-- include/admissionspec/Types.hpp: the costs on an ascending ramp.
use rpc_spec.Prelude.{ℕ, ◌≤◌, ◌≡◌, true, List, [], ◌∷◌, All, arith}
use rpc_spec.Prelude.Float.{Double, double_le}
use rpc_spec.Admission.Ramp.{SizeTier, back, cost_in, cost_for}

-- The costs ascend, and none is not a number.
abbrev pub Ascends : List SizeTier → Type 0
Ascends [] = Unit
Ascends (t ∷ tiers) =
    (double_le t.cost t.cost ≡ true)
    × All (λ u. double_le t.cost u.cost ≡ true) tiers
    × Ascends tiers

All-back :
    (P : SizeTier → Type 0) (t : SizeTier) (tiers : List SizeTier)
    → P t
    → All P tiers
    → P (back t tiers)
All-back P t [] h k = h
All-back P t (u ∷ tiers) h (k, ks) = All-back P u tiers k ks

module _ (c : Double) where
  -- What the loop gives is not below `c`, if neither the tiers nor the last cost are.
  cost_in-le :
      (tiers : List SizeTier) (bytes : ℕ) (last : Double)
      → All (λ u. double_le c u.cost ≡ true) tiers
      → double_le c last ≡ true
      → double_le c (cost_in tiers bytes last) ≡ true
  unfolding cost_in
  cost_in-le [] bytes last h l = l
  cost_in-le (t ∷ tiers) bytes last (k, ks) l = ground (arith, cost_in-le tiers bytes last ks l)

cost_in_mono :
    (tiers : List SizeTier) (m n : ℕ) (last : Double)
    → Ascends tiers
    → All (λ u. double_le u.cost last ≡ true) tiers
    → double_le last last ≡ true
    → m ≤ n
    → double_le (cost_in tiers m last) (cost_in tiers n last) ≡ true
unfolding cost_in
cost_in_mono [] m n last a b l h = l
cost_in_mono (t ∷ tiers) m n last (r, above, a) (b, bs) l h =
    ground (arith, cost_in_mono tiers m n last a bs l h, cost_in-le t.cost tiers n last above b)

-- Each tier of an ascending ramp costs no more than the last.
Ascends-back :
    (t : SizeTier) (tiers : List SizeTier)
    → Ascends (t ∷ tiers)
    → All (λ u. double_le u.cost (back t tiers).cost ≡ true) (t ∷ tiers)
Ascends-back t [] (r, _, _) = (r, tt)
Ascends-back t (u ∷ tiers) (r, above, a) =
    (All-back (λ w. double_le t.cost w.cost ≡ true) u tiers above.0 above.1, Ascends-back u tiers a)

back_self :
    (t : SizeTier) (tiers : List SizeTier)
    → Ascends (t ∷ tiers)
    → double_le (back t tiers).cost (back t tiers).cost ≡ true
back_self t [] (r, _, _) = r
back_self t (u ∷ tiers) (r, above, a) = back_self u tiers a

-- On a ramp whose costs ascend and are numbers, a payload with more bytes costs no less, also where
-- it lies beyond the last tier.
pub cost_for_mono :
    (t : SizeTier) (tiers : List SizeTier) (m n : ℕ)
    → Ascends (t ∷ tiers)
    → m ≤ n
    → double_le (cost_for (t ∷ tiers) m) (cost_for (t ∷ tiers) n) ≡ true
unfolding cost_for
cost_for_mono t tiers m n a h =
    cost_in_mono (t ∷ tiers) m n (back t tiers).cost a (Ascends-back t tiers a)
      (back_self t tiers a) h
