-- ===== src/Converters/Booleans.antt =====
-- include/rpcspec/Converters.hpp: the converters to a Boolean.
use rpc_spec.Prelude.{
  zero, suc, not, ◌==◌, ◌≡◌, ◌≢◌, ◌↔◌, ◌≤◌, refl, Text, Bool, true, false, Option, none, some, ◌∷◌,
  [], arith,
}
use rpc_spec.Prelude.Int.{pos, negsuc}
use rpc_spec.Prelude.Float.{magnitude}
use rpc_spec.Json.{
  Value, null, boolean, int64, uint64, double, string, array, object, nil, cons, end, member,
  count_items, count_fields,
}
use rpc_spec.Status.{ok}
use rpc_spec.View.{int64_max}
use rpc_spec.Converters.{json_bool_of, json_bool, json_bool_strict}

abbrev pub StartsNonzero : Text → Type 0
StartsNonzero [] = ⊥
StartsNonzero (c ∷ s) = c ≢ 0

-- The fields that stand for true: a number that is no zero of either sign, a string that is neither
-- empty nor begins with a zero byte, and an array or an object that is not empty.
abbrev pub IsTrue : Option Value → Type 0
IsTrue none = ⊥
IsTrue (some null) = ⊥
IsTrue (some (boolean b)) = b ≡ true
IsTrue (some (int64 i)) = i ≢ pos 0
IsTrue (some (uint64 n)) = n ≢ 0
IsTrue (some (double d)) = magnitude d ≢ 0
IsTrue (some (string s)) = StartsNonzero s
IsTrue (some (array vs)) = vs ≢ nil
IsTrue (some (object m)) = m ≢ end

-- The number of a field, where it has an unsigned one, is one of `int64_t` too.
abbrev pub IsSigned : Option Value → Type 0
IsSigned (some (uint64 n)) = n ≤ int64_max
IsSigned _ = Unit

abbrev pub Reads : Text → Option Value → Type 0
Reads k o =
    (b : Bool) × (json_bool (record { key = k; value = o }) ≡ ok (json_bool_of b))
    × ((b ≡ true) ↔ IsTrue o)

json_bool-Reads : (k : Text) (o : Option Value) → IsSigned o → Reads k o
unfolding json_bool count_items count_fields
json_bool-Reads k none s = (false, refl, ((λ h. cc), (λ h. absurd h)))
json_bool-Reads k (some null) s = (false, refl, ((λ h. cc), (λ h. absurd h)))
json_bool-Reads k (some (boolean b)) s = (b, refl, ((λ h. h), (λ h. h)))
json_bool-Reads k (some (int64 (pos zero))) s = (false, refl, ((λ h. cc), (λ h. absurd (h refl))))
json_bool-Reads k (some (int64 (pos (suc n)))) s = (true, ground arith, ((λ h e. cc), (λ h. refl)))
json_bool-Reads k (some (int64 (negsuc n))) s = (true, refl, ((λ h e. cc), (λ h. refl)))
json_bool-Reads k (some (uint64 zero)) s = (false, refl, ((λ h. cc), (λ h. absurd (h refl))))
json_bool-Reads k (some (uint64 (suc n))) s = (true, ground arith, ((λ h e. cc), (λ h. refl)))
json_bool-Reads k (some (double d)) s =
    (not (magnitude d == 0), refl, ((λ h. ground arith), (λ h. ground arith)))
json_bool-Reads k (some (string [])) s = (false, refl, ((λ h. cc), (λ h. absurd h)))
json_bool-Reads k (some (string (c ∷ t))) s =
    (not (c == 0), refl, ((λ h. ground arith), (λ h. ground arith)))
json_bool-Reads k (some (array nil)) s = (false, refl, ((λ h. cc), (λ h. absurd (h refl))))
json_bool-Reads k (some (array (cons v vs))) s = (true, ground arith, ((λ h e. cc), (λ h. refl)))
json_bool-Reads k (some (object end)) s = (false, refl, ((λ h. cc), (λ h. absurd (h refl))))
json_bool-Reads k (some (object (member j v m))) s =
    (true, ground arith, ((λ h e. cc), (λ h. refl)))

json_bool_strict_iff :
    (k : Text) (o : Option Value) (b : Bool)
    → (json_bool_strict (record { key = k; value = o }) ≡ ok (json_bool_of b))
      ↔ (o ≡ some (boolean b))
unfolding json_bool_strict
json_bool_strict_iff k (some (boolean c)) b = ((λ h. cc), (λ h. cc))
json_bool_strict_iff k none b = ((λ h. absurd (cc)), (λ h. absurd (cc)))
json_bool_strict_iff k (some _) b = ((λ h. absurd (cc)), (λ h. absurd (cc)))

-- The lenient converter to a Boolean succeeds on every field whose number, where it has an unsigned
-- one, is within `int64_t`, and gives true exactly for the fields that stand for true. The strict one
-- gives a Boolean exactly for that Boolean.
pub json_bool_iff :
    (k : Text) (o : Option Value)
    → IsSigned o
    → Reads k o
      × ((b : Bool)
          → (json_bool_strict (record { key = k; value = o }) ≡ ok (json_bool_of b))
            ↔ (o ≡ some (boolean b)))
json_bool_iff k o s = (json_bool-Reads k o s, json_bool_strict_iff k o)
