-- ===== src/Handlers/Tx.antt =====
-- include/rpcspec/handlers/tx: a transaction.
use rpc_spec.Prelude.{
  ℕ, Text, Option, none, some, List, [], ◌∷◌, str, not, ◌&&◌, ◌||◌, ◌-◌, leb, map, if◌then◌else◌,
}
use rpc_spec.Json.{string}
use rpc_spec.Status.{Server, success}
use rpc_spec.View.{FieldView, set, present, is_string, as_string}
use rpc_spec.Field.{Processor}
use rpc_spec.Combinators.{modifier}
use rpc_spec.Spec.{extend}
use rpc_spec.Typed.{TypedField, bound}
use rpc_spec.Validators.Libxrpl.{Libxrpl}
use rpc_spec.Converters.{
  JsonBool, json_bool, json_bool_strict, as_uint32_value, as_string_value, as_hex,
}
use rpc_spec.Handlers.{bound_field}

-- `std::toupper` in the C locale.
abbrev pub to_upper : ℕ → ℕ
to_upper c = if leb b'a' c && leb c b'z' then c - 32 else c

-- `ToUpperModifier::modify`
abbrev pub upper_text : Option Text → FieldView → FieldView
upper_text none v = v
upper_text (some s) v = set v (string (map to_upper s))

unfoldable pub to_upper_modify : Processor FieldView
unfolding set
to_upper_modify v =
    if not (present v) || not (is_string v)
    then (success, v)
    else (success, upper_text (as_string v) v)

pub record Input (x : Libxrpl) : Type 0 where
  pub transaction : Option x.HexNumber
  pub ctid : Option Text
  pub binary : JsonBool
  pub min_ledger : Option ℕ
  pub max_ledger : Option ℕ

module _ (server : Server) (x : Libxrpl) where
  unfoldable pub input_spec : List (TypedField (Input x))
  input_spec =
      bound (
        bound_field x.HexNumber (str "transaction") 0 (λ v out. record out { transaction = some v })
          ([]) (as_hex server x 256))
      ∷ bound (
          bound_field Text (str "ctid") 1 (λ v out. record out { ctid = some v })
            (modifier Text to_upper_modify ∷ []) (as_string_value))
      ∷ bound (
          bound_field JsonBool (str "binary") 2 (λ v out. record out { binary = v }) ([])
            (json_bool))
      ∷ bound (
          bound_field ℕ (str "min_ledger") 3 (λ v out. record out { min_ledger = some v }) ([])
            (as_uint32_value))
      ∷ bound (
          bound_field ℕ (str "max_ledger") 4 (λ v out. record out { max_ledger = some v }) ([])
            (as_uint32_value))
      ∷ []

  unfoldable pub input_spec_v2 : List (TypedField (Input x))
  unfolding input_spec extend
  input_spec_v2 = extend input_spec (
      bound (
        bound_field JsonBool (str "binary") 2 (λ v out. record out { binary = v }) ([])
          (json_bool_strict))
      ∷ [])
