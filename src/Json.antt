-- ===== src/Json.antt =====
-- include/rpcspec/backends/BoostJson.hpp reads and writes `boost::json::value`: its kinds of values.
use rpc_spec.Prelude.{ℕ, Text, Bool, Option, none, some, text_eq, if◌then◌else◌, zero, suc}
use rpc_spec.Prelude.Int.{ℤ}
use rpc_spec.Prelude.Float.{Double}

mutual
  pub data Value : Type 0 where
    null : Value
    boolean : Bool → Value
    int64 : ℤ → Value
    uint64 : ℕ → Value
    double : Double → Value
    string : Text → Value
    array : Items → Value
    object : Fields → Value

  pub data Items : Type 0 where
    nil : Items
    cons : Value → Items → Items

  -- The members of an object; `find` takes the first with the key.
  pub data Fields : Type 0 where
    end : Fields
    member : Text → Value → Fields → Fields

unfoldable pub find : Text → Fields → Option Value
find k end = none
find k (member j v m) = if text_eq j k then some v else find k m

-- `it->value() = v`, through the iterator that `find` gives; no member is added.
unfoldable pub assign : Text → Value → Fields → Fields
assign k v end = end
assign k v (member j w m) = if text_eq j k then member j v m else member j w (assign k v m)

unfoldable pub count_items : Items → ℕ
count_items nil = 0
count_items (cons v vs) = suc (count_items vs)

unfoldable pub count_fields : Fields → ℕ
count_fields end = 0
count_fields (member k v m) = suc (count_fields m)

unfoldable pub at : ℕ → Items → Option Value
at i nil = none
at zero (cons v vs) = some v
at (suc i) (cons v vs) = at i vs
