-- ===== src/Versioned/Tests.antt =====
-- include/rpcspec/VersionedSpec.hpp: three versions of a spec, and the one that each request
-- selects.
use rpc_spec.Prelude.{ℕ, ◌-◌, ◌≡◌, List, [], ◌∷◌, some, get_elem?, arith}
use mathlib.Core.Option
use rpc_spec.Versioned.{selected}
use rpc_spec.Versioned.Select.{selected-get_elem?}

abbrev later_specs : List ℕ
later_specs = 20 ∷ 30 ∷ []

abbrev itself : ℕ → ℕ
itself spec = spec

selected-get_elem?_example :
    some (selected 2 10 later_specs itself)
    ≡ Option.map itself (get_elem? (10 ∷ later_specs) (2 - 1))
selected-get_elem?_example = selected-get_elem? 2 10 later_specs itself (omega arith) (omega arith)
