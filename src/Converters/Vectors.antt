-- ===== src/Converters/Vectors.antt =====
-- include/rpcspec/Converters.hpp: the converters of arrays, after the validators of arrays.
use rpc_spec.Prelude.{
  ℕ, zero, suc, ◌+◌, ◌<◌, ◌≤◌, ◌≡◌, refl, ap, ◌∙◌, Text, true, Option, none, some, List, [], ◌∷◌,
  arith, length,
}
use rpc_spec.Status.{Server, Status, status, invalid_params, success, unexpected}
use rpc_spec.View.{FieldView, present, array_size, element}
use rpc_spec.Validators.Chars.{c_str}
use rpc_spec.Validators.Libxrpl.{
  Libxrpl, account_from_string_strict, account_from_validated, uint192_from_validated,
}
use rpc_spec.Validators.Accounts.{succeeds, for_elements}
use rpc_spec.Validators.Accounts.Loops.{for_elements-success}
use rpc_spec.Validators.Arrays.{account_id_array, uint192_array, hex_element}
use rpc_spec.Validators.Arrays.Accepted.{IsAccountElement, account_id_array_iff}
use rpc_spec.Json.{Value, string}
use rpc_spec.Converters.{push_front, collect, element_text, account_id_vec, uint192_vec}

-- The list holds what the conversion makes of the elements from `i` on, in order.
abbrev pub Holds {ℓ} : {A : Type ℓ} → (FieldView → Option A) → FieldView → ℕ → List A → Type ℓ
Holds f v i [] = Unit
Holds f v i (a ∷ rest) = (f (element v i) ≡ some a) × Holds f v (i + 1) rest

pub collect-Holds {ℓ} :
    {A : Type ℓ} (f : FieldView → Option A) (v : FieldView) (i n : ℕ)
    → ((j : ℕ) → i ≤ j → j < i + n → (a : A) × (f (element v j) ≡ some a))
    → (xs : List A) × (collect f v i n ≡ some xs) × (length xs ≡ n) × Holds f v i xs
unfolding collect
collect-Holds f v i zero h = ([], refl, refl, tt)
collect-Holds f v i (suc n) h =
    let (a, e) = h i (omega arith) (omega arith) in
    let (rest, later, size, each) =
      collect-Holds f v (i + 1) n (λ j lo hi. h j (omega (arith, lo)) (omega (arith, hi))) in
    (
      a ∷ rest,
      ap (λ o. push_front o (collect f v (i + 1) n)) e ∙ ap (push_front (some a)) later,
      omega (arith, size),
      (e, each),
    )

succeeds-some {ℓ} : {A : Type ℓ} (o : Option A) → succeeds o ≡ true → (a : A) × (o ≡ some a)
succeeds-some none h = absurd (cc)
succeeds-some (some a) h = (a, refl)

module _ (server : Server) (x : Libxrpl) where
  account_element-converts :
      (elem : FieldView)
      → IsAccountElement server x elem
      → (a : x.AccountId) × (element_text (account_from_validated x) elem ≡ some a)
  unfolding account_from_validated
  account_element-converts elem (s, e, good) =
      let (a, decoded) = succeeds-some (account_from_string_strict x s) good in
      (a, rw (e, decoded) refl)

  hex_element-converts :
      (refusal : Status) (k : Text) (o : Option Value)
      → hex_element server x 192 (unexpected refusal) (record { key = k; value = o }) ≡ success
      → (a : x.HexNumber) × (element_text (uint192_from_validated x) (record { key = k; value = o })
          ≡ some a)
  unfolding uint192_from_validated
  hex_element-converts refusal k none h = absurd (cc)
  hex_element-converts refusal k (some (string s)) h =
      let good : x.parse_hex 192 (c_str s) ≡ true = ground arith in
      (x.hex_number 192 (c_str s), rw good refl)
  hex_element-converts refusal k (some _) h = absurd (cc)

  -- What the array's converter gives: each element decoded, in order.
  abbrev pub Decodes : {A : Type 0} → (Text → Option A) → FieldView → Option (List A) → Type 0
  Decodes {A = A} f v result =
      (xs : List A) × (result ≡ some xs)
      × (length xs ≡ array_size v)
      × Holds (element_text f) v 0 xs

  -- After the validator of an array of accounts has accepted a field that is present, its converter
  -- does not throw, and gives each element decoded, in order.
  pub account_id_vec-Decodes :
      (max_size : ℕ) (v : FieldView)
      → present v ≡ true
      → account_id_array server x max_size v ≡ success
      → Decodes (account_from_validated x) v (account_id_vec server x v)
  unfolding account_id_vec
  account_id_vec-Decodes max_size v p h =
      let (a, lo, hi, each) = (account_id_array_iff server x max_size v p).0 h in
      collect-Holds (element_text (account_from_validated x)) v 0 (array_size v)
        (λ j lo hi. account_element-converts (element v j) (each j (omega (arith, hi))))

  -- The same for an array of numbers of 192 bits.
  pub uint192_vec-Decodes :
      (v : FieldView)
      → present v ≡ true
      → uint192_array server x v ≡ success
      → Decodes (uint192_from_validated x) v (uint192_vec server x v)
  unfolding uint192_vec uint192_array
  uint192_vec-Decodes v p h =
      let looped : for_elements (hex_element server x 192 (unexpected (status invalid_params))) v 0
            (array_size v)
          ≡ success =
        ground arith in
      collect-Holds (element_text (uint192_from_validated x)) v 0 (array_size v) (λ j lo hi.
        hex_element-converts (status invalid_params) (element v j).key (element v j).value (
          (for_elements-success (hex_element server x 192 (unexpected (status invalid_params))) v
              (array_size v)).0
            looped j (omega (arith, hi))))
