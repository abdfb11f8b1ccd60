-- ===== src/Handlers/Limits.antt =====
-- include/rpcspec/handlers: the limits of the requests that give their results in pages.
use rpc_spec.Prelude.{
  ℕ, zero, suc, ◌≤◌, ◌≡◌, sym, subst, ◌∙◌, inl, inr, Text, Option, none, some, List, [], ◌∷◌, str,
  arith,
}
use rpc_spec.Prelude.Int.{pos, negsuc}
use rpc_spec.Json.{Value, null, int64, uint64}
use rpc_spec.Status.{Server, clio, xrpld, success, ok}
use rpc_spec.View.{ObjectView, uint32_max, root_child, set}
use rpc_spec.Field.{Item, run_processors, call_if_processor, skips_field}
use rpc_spec.Combinators.{
  modifier, default_to, uint32_type, if_server_clio, if_server_xrpld, server_conditional,
  verify_inners, modify_inners, with_custom_error_verify,
}
use rpc_spec.Validators.Presence.{type_of, null_as}
use rpc_spec.Validators.Numeric.{uint32_bound, min, clamp, numeric_value}
use rpc_spec.Converters.{as_uint32_value}
use rpc_spec.Typed.{apply_defaults}
use rpc_spec.Typed.Stored.{Settled}
use rpc_spec.Handlers.{has_json_type, at_least, clamped, with_invalid_params, bound_field}

-- `limit` that xrpld leaves to its handler to clamp.
unfoldable pub paged_limit : Server → ℕ → ℕ → ℕ → List (Item ℕ)
unfolding if_server_xrpld if_server_clio
paged_limit server lo hi value =
    if_server_xrpld server (modifier ℕ (null_as (uint64 value)) ∷ [])
    ∷ if_server_xrpld server (
        with_invalid_params ℕ (type_of (uint32_type ∷ []))
          (str "Invalid field 'limit', not unsigned integer.")
        ∷ with_invalid_params ℕ (min uint32_bound 1) (str "Invalid field 'limit'.")
        ∷ [])
    ∷ if_server_clio server (has_json_type ℕ uint32_type ∷ at_least ℕ 1 ∷ [])
    ∷ if_server_clio server (clamped ℕ lo hi ∷ [])
    ∷ default_to ℕ value
    ∷ []

-- The same, where the default stands before the clamp.
unfoldable pub paged_limit_default_first : Server → ℕ → ℕ → ℕ → List (Item ℕ)
unfolding if_server_xrpld if_server_clio
paged_limit_default_first server lo hi value =
    if_server_xrpld server (modifier ℕ (null_as (uint64 value)) ∷ [])
    ∷ if_server_xrpld server (
        with_invalid_params ℕ (type_of (uint32_type ∷ []))
          (str "Invalid field 'limit', not unsigned integer.")
        ∷ with_invalid_params ℕ (min uint32_bound 1) (str "Invalid field 'limit'.")
        ∷ [])
    ∷ if_server_clio server (has_json_type ℕ uint32_type ∷ at_least ℕ 1 ∷ [])
    ∷ default_to ℕ value
    ∷ if_server_clio server (clamped ℕ lo hi ∷ [])
    ∷ []

-- `limit` that both servers clamp.
unfoldable pub clamped_limit : ℕ → ℕ → ℕ → ℕ → List (Item ℕ)
clamped_limit least lo hi value =
    has_json_type ℕ uint32_type ∷ at_least ℕ least ∷ clamped ℕ lo hi ∷ default_to ℕ value ∷ []

abbrev pub Within : ℕ → ℕ → ℕ → Type 0
Within lo hi n = (lo ≤ n) × (n ≤ hi)

-- The fields before one, and those from one on.
abbrev pub front {ℓ} : {A : Type ℓ} → ℕ → List A → List A
front zero fs = []
front (suc n) [] = []
front (suc n) (f ∷ fs) = f ∷ front n fs

abbrev pub back {ℓ} : {A : Type ℓ} → ℕ → List A → List A
back zero fs = fs
back (suc n) [] = []
back (suc n) (f ∷ fs) = back n fs

-- What a server lets a limit be.
abbrev pub IsAllowed : Server → ℕ → ℕ → ℕ → Type 0
IsAllowed clio lo hi n = Within lo hi n
IsAllowed xrpld lo hi n = Within 1 uint32_max n

-- The default is a limit itself.
pub record IsRange (lo hi value : ℕ) : Type 0 where
  pub ordered : lo ≤ hi
  pub fits : hi ≤ uint32_max
  pub positive : 1 ≤ lo
  pub default_inside : Within lo hi value

module _ (lo hi value : ℕ) (r : IsRange lo hi value) where
  clamped_value :
      (least : ℕ) (k : Text) (o : Option Value) (n : ℕ)
      → (run_processors (clamped_limit least lo hi value) (record { key = k; value = o })).0
        ≡ success
      → as_uint32_value
          (run_processors (clamped_limit least lo hi value) (record { key = k; value = o })).1
        ≡ ok n
      → Within lo hi n
  unfolding run_processors call_if_processor clamped_limit type_of min clamp numeric_value set
      as_uint32_value
  clamped_value least k none n h e = absurd (cc)
  clamped_value least k (some (uint64 u)) n h e = ground arith
  clamped_value least k (some (int64 (pos u))) n h e = ground arith
  clamped_value least k (some (int64 (negsuc u))) n h e = absurd (cc)
  clamped_value least k (some _) n h e = absurd (cc)

  paged_value :
      (server : Server) (k : Text) (o : Option Value) (n : ℕ)
      → (run_processors (paged_limit server lo hi value) (record { key = k; value = o })).0
        ≡ success
      → as_uint32_value
          (run_processors (paged_limit server lo hi value) (record { key = k; value = o })).1
        ≡ ok n
      → IsAllowed server lo hi n
  unfolding run_processors call_if_processor paged_limit type_of min clamp numeric_value set
      as_uint32_value if_server_clio if_server_xrpld server_conditional verify_inners modify_inners
      with_custom_error_verify null_as
  paged_value clio k none n h e = absurd (cc)
  paged_value clio k (some (uint64 u)) n h e = ground arith
  paged_value clio k (some (int64 (pos u))) n h e = ground arith
  paged_value clio k (some (int64 (negsuc u))) n h e = absurd (cc)
  paged_value clio k (some _) n h e = absurd (cc)
  paged_value xrpld k none n h e = absurd (cc)
  paged_value xrpld k (some null) n h e = ground arith
  paged_value xrpld k (some (uint64 u)) n h e = ground arith
  paged_value xrpld k (some (int64 (pos u))) n h e = ground arith
  paged_value xrpld k (some (int64 (negsuc u))) n h e = absurd (cc)
  paged_value xrpld k (some _) n h e = absurd (cc)

  default_first_value :
      (server : Server) (k : Text) (o : Option Value) (n : ℕ)
      → (run_processors
          (paged_limit_default_first server lo hi value)
          (record { key = k; value = o })).0
        ≡ success
      → as_uint32_value
          (run_processors
            (paged_limit_default_first server lo hi value)
            (record { key = k; value = o })).1
        ≡ ok n
      → IsAllowed server lo hi n
  unfolding run_processors call_if_processor paged_limit_default_first type_of min clamp
      numeric_value set as_uint32_value if_server_clio if_server_xrpld server_conditional
      verify_inners modify_inners with_custom_error_verify null_as
  default_first_value clio k none n h e = absurd (cc)
  default_first_value clio k (some (uint64 u)) n h e = ground arith
  default_first_value clio k (some (int64 (pos u))) n h e = ground arith
  default_first_value clio k (some (int64 (negsuc u))) n h e = absurd (cc)
  default_first_value clio k (some _) n h e = absurd (cc)
  default_first_value xrpld k none n h e = absurd (cc)
  default_first_value xrpld k (some null) n h e = ground arith
  default_first_value xrpld k (some (uint64 u)) n h e = ground arith
  default_first_value xrpld k (some (int64 (pos u))) n h e = ground arith
  default_first_value xrpld k (some (int64 (negsuc u))) n h e = absurd (cc)
  default_first_value xrpld k (some _) n h e = absurd (cc)

  module _ {I : Type 0} (k : Text) (slot : ℕ) (store : ℕ → I → I) (get : I → ℕ)
      (stored : (n : ℕ) (out : I) → get (store n out) ≡ n) (t : ObjectView × I) (n : ℕ) where
    IsAllowed-default : (server : Server) → n ≡ value → IsAllowed server lo hi n
    IsAllowed-default clio e = ground arith
    IsAllowed-default xrpld e = ground arith

    -- What a field with such a limit settles on.
    pub paged-IsAllowed :
        (server : Server)
        → Settled get
            (bound_field ℕ k slot store (paged_limit server lo hi value) as_uint32_value)
            t
            n
        → IsAllowed server lo hi n
    unfolding skips_field apply_defaults paged_limit paged_limit_default_first clamped_limit
        if_server_clio if_server_xrpld server_conditional
    paged-IsAllowed server (inl (skipped, e)) = absurd (cc)
    paged-IsAllowed server (inr (runs, good, inl (absent, e))) =
        IsAllowed-default server (e ∙ stored value t.1)
    paged-IsAllowed server (inr (runs, good, inr (w, e, same))) =
        subst (λ m. IsAllowed server lo hi m) (sym (same ∙ stored w t.1))
          (paged_value server (root_child t.0 k).key (root_child t.0 k).value w good e)

    -- What a field with such a limit settles on.
    pub default_first-IsAllowed :
        (server : Server)
        → Settled get
            (bound_field ℕ k slot store
              (paged_limit_default_first server lo hi value)
              as_uint32_value)
            t
            n
        → IsAllowed server lo hi n
    unfolding skips_field apply_defaults paged_limit paged_limit_default_first clamped_limit
        if_server_clio if_server_xrpld server_conditional
    default_first-IsAllowed server (inl (skipped, e)) = absurd (cc)
    default_first-IsAllowed server (inr (runs, good, inl (absent, e))) =
        IsAllowed-default server (e ∙ stored value t.1)
    default_first-IsAllowed server (inr (runs, good, inr (w, e, same))) =
        subst (λ m. IsAllowed server lo hi m) (sym (same ∙ stored w t.1))
          (default_first_value server (root_child t.0 k).key (root_child t.0 k).value w good e)

    -- What a field with such a limit settles on.
    pub clamped-Within :
        (least : ℕ)
        → Settled get
            (bound_field ℕ k slot store (clamped_limit least lo hi value) as_uint32_value)
            t
            n
        → Within lo hi n
    unfolding skips_field apply_defaults paged_limit paged_limit_default_first clamped_limit
        if_server_clio if_server_xrpld server_conditional
    clamped-Within least (inl (skipped, e)) = absurd (cc)
    clamped-Within least (inr (runs, good, inl (absent, e))) =
        subst (Within lo hi) (sym (e ∙ stored value t.1)) r.default_inside
    clamped-Within least (inr (runs, good, inr (w, e, same))) =
        subst (λ m. Within lo hi m) (sym (same ∙ stored w t.1))
          (clamped_value least (root_child t.0 k).key (root_child t.0 k).value w good e)
