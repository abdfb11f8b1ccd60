-- ===== src/Handlers/AccountTx/Converted.antt =====
-- include/rpcspec/handlers/account_tx: the converters after the items in front of them.
use rpc_spec.Prelude.{
  zero, suc, ◌≢◌, ◌⊎◌, ◌-◌, ◌^◌, ltb, ◌≡◌, ◌∙◌, ap, subst, refl, [], ◌∷◌, Text, true, Option, none,
  some, str, arith, inl, inr, Bool-cases,
}
use rpc_spec.Prelude.Int.{ℤ, pos, negsuc, ◌≤ℤ◌, ◌<ℤ◌}
use rpc_spec.Prelude.Strings.{text_eq, text_eq_iff}
use rpc_spec.Json.{Value, string, int64, uint64}
use rpc_spec.Status.{Server, success}
use rpc_spec.View.{FieldView, present, is_int64, as_string, as_int64, child, set}
use rpc_spec.Validators.Accounts.{account_format}
use rpc_spec.Validators.Numeric.{clamp_as, clamp_ℤ, target_int32}
use rpc_spec.Validators.Presence.{custom_validator, type_of}
use rpc_spec.Combinators.{int64_type}
use rpc_spec.Validators.Libxrpl.{Libxrpl}
use rpc_spec.Handlers.AccountTx.{
  to_int32, bound_of, int32_bound_value, Role, actor, authorizer, DelegateFilter,
  delegate_validator, role_of, is_role, with_counter_party, check_counter_party, delegate_value,
}

-- The conversion to 32 bits keeps a number that is clamped to them.
to_int32-clamp_ℤ :
    (z : ℤ)
    → to_int32 (clamp_ℤ z target_int32.k_lo target_int32.k_hi)
      ≡ clamp_ℤ z target_int32.k_lo target_int32.k_hi
unfolding to_int32
to_int32-clamp_ℤ (pos n) = ground arith
to_int32-clamp_ℤ (negsuc n) = ground arith

abbrev pub role_text : Role → Text
role_text actor = str "actor"
role_text authorizer = str "authorizer"

-- The filter has the role that the first member names, and the second member as it stands.
abbrev pub IsRead : FieldView → Option DelegateFilter → Type 0
IsRead v o =
    (d : DelegateFilter) × (o ≡ some d)
    × (as_string (child v (str "delegate_filter")) ≡ some (role_text d.delegate_type))
    × (as_string (child v (str "counter_party")) ≡ d.counter_party)

role_read :
    (k : Text) (o : Option Value)
    → is_role (as_string (record { key = k; value = o })) ≡ true
    → (s : Text) × (as_string (record { key = k; value = o }) ≡ some s)
      × (s ≡ role_text (role_of s))
role_read k none h = absurd (cc)
role_read k (some (string s)) h = (
  s,
  refl,
  elim (Bool-cases (text_eq s (str "actor"))) [
    | inl named ↦ rw named ((text_eq_iff s (str "actor")).0 named)
    | inr other ↦ rw other ((text_eq_iff s (str "authorizer")).0 (ground arith))
  ],
)
role_read k (some _) h = absurd (cc)

module _ (server : Server) (x : Libxrpl) where
  counter_party_read :
      (r : Role) (k : Text) (o : Option Value)
      → check_counter_party server x (record { key = k; value = o }) ≡ success
      → with_counter_party r (record { key = k; value = o })
        ≡ some (record {
          delegate_type = r;
          counter_party = as_string (record { key = k; value = o });
        })
  unfolding account_format
  counter_party_read r k none h = refl
  counter_party_read r k (some (string s)) h = refl
  counter_party_read r k (some _) h = absurd (cc)

  delegate_validator_sound :
      (v : FieldView)
      → present v ≡ true
      → delegate_validator server x v ≡ success
      → (is_role (as_string (child v (str "delegate_filter"))) ≡ true)
        × (check_counter_party server x (child v (str "counter_party")) ≡ success)
  unfolding delegate_validator custom_validator
  delegate_validator_sound v p h = (ground arith, ground arith)

  delegate-IsRead :
      (v : FieldView) (s : Text)
      → as_string (child v (str "delegate_filter")) ≡ some s
      → s ≡ role_text (role_of s)
      → with_counter_party (role_of s) (child v (str "counter_party"))
        ≡ some (record {
          delegate_type = role_of s;
          counter_party = as_string (child v (str "counter_party"));
        })
      → IsRead v (delegate_value v)
  unfolding delegate_value
  delegate-IsRead v s e named read = (
    record { delegate_type = role_of s; counter_party = as_string (child v (str "counter_party")) },
    rw (e, delegate_value) read,
    e ∙ ap some named,
    refl,
  )

  -- After its validator has accepted a field that is present, the converter of a delegate does not
  -- throw: its filter has the role that the first member names, and the second member as it stands.
  pub delegate_value-IsRead :
      (v : FieldView)
      → present v ≡ true
      → delegate_validator server x v ≡ success
      → IsRead v (delegate_value v)
  delegate_value-IsRead v p h =
      let filter_view = child v (str "delegate_filter") in
      let party_view = child v (str "counter_party") in
      let (role, party) = delegate_validator_sound v p h in
      let (s, e, named) = role_read filter_view.key filter_view.value role in
      delegate-IsRead v s e named
        (counter_party_read (role_of s) party_view.key party_view.value party)

int64_read :
    (z : ℤ)
    → bound_of (to_int32 (clamp_ℤ z target_int32.k_lo target_int32.k_hi))
      ≡ bound_of (clamp_ℤ z target_int32.k_lo target_int32.k_hi)
int64_read z = ap bound_of (to_int32-clamp_ℤ z)

clamped_value :
    (k : Text) (o : Option Value) (z : ℤ)
    → is_int64 (record { key = k; value = o }) ≡ true
    → as_int64 (record { key = k; value = o }) ≡ some z
    → int32_bound_value (clamp_as target_int32 (record { key = k; value = o })).1
      ≡ some (bound_of (clamp_ℤ z target_int32.k_lo target_int32.k_hi))
unfolding clamp_as set int32_bound_value
clamped_value k none z t e = absurd (cc)
clamped_value k (some (int64 i)) z t e = let same : i ≡ z = cc in ap some (rw same (int64_read z))
clamped_value k (some (uint64 n)) z t e =
    let same : pos n ≡ z = cc in
    subst
      (λ w.
        int32_bound_value (clamp_as target_int32 (record { key = k; value = some (uint64 n) })).1
        ≡ some (bound_of (clamp_ℤ w target_int32.k_lo target_int32.k_hi)))
      same (rw (t, clamp_as) (ap some (int64_read (pos n))))
clamped_value k (some _) z t e = absurd (cc)

-- The bound of ledgers that a number stands for: the nearest number of 32 bits, and none for -1.
abbrev pub IsBound : ℤ → Option ℤ → Type 0
IsBound z o =
    ((z <ℤ negsuc (2 ^ 31 - 1)) × (o ≡ some (negsuc (2 ^ 31 - 1))))
    ⊎ (((pos (2 ^ 31 - 1) <ℤ z) × (o ≡ some (pos (2 ^ 31 - 1))))
        ⊎ (((z ≡ negsuc 0) × (o ≡ none))
            ⊎ ((z ≢ negsuc 0)
                × (negsuc (2 ^ 31 - 1) ≤ℤ z)
                × (z ≤ℤ pos (2 ^ 31 - 1))
                × (o ≡ some z))))

bound_of-IsBound : (z : ℤ) → IsBound z (bound_of (clamp_ℤ z target_int32.k_lo target_int32.k_hi))
bound_of-IsBound (pos n) = elim (Bool-cases (ltb (2 ^ 31 - 1) n)) [
  | inl large ↦ inr (inl (ground arith, ground arith))
  | inr small ↦ inr (inr (inr ((λ e. cc), ground arith, ground arith, ground arith)))
]
bound_of-IsBound (negsuc zero) = inr (inr (inl (refl, refl)))
bound_of-IsBound (negsuc (suc n)) = elim (Bool-cases (ltb (2 ^ 31 - 1) (suc n))) [
  | inl large ↦ inl (ground arith, ground arith)
  | inr small ↦ inr (inr (inr ((λ e. cc), ground arith, ground arith, ground arith)))
]

-- After the test of its type and the clamp, the converter of a bound of ledgers does not throw. It
-- gives the number itself where that has 32 bits, the nearest end of their range where it has not,
-- and no bound for -1.
pub int32_bound_value-IsBound :
    (v : FieldView) (z : ℤ)
    → present v ≡ true
    → type_of (int64_type ∷ []) v ≡ success
    → as_int64 v ≡ some z
    → (o : Option ℤ) × (int32_bound_value (clamp_as target_int32 v).1 ≡ some o) × IsBound z o
unfolding type_of
int32_bound_value-IsBound v z p t e =
    let typed : is_int64 v ≡ true = ground arith in
    (_, clamped_value v.key v.value z typed e, bound_of-IsBound z)
