-- ===== src/Validators/Arrays/Accepted.antt =====
-- include/rpcspec/Validators.hpp: which arrays of accounts are accepted.
use rpc_spec.Prelude.{ℕ, ◌≤◌, ◌<◌, ◌≡◌, ◌↔◌, refl, Text, true, Option, none, some, arith}
use rpc_spec.Json.{Value, string}
use rpc_spec.Status.{Server, success}
use rpc_spec.View.{FieldView, present, is_array, array_size, element}
use rpc_spec.Validators.Libxrpl.{Libxrpl, account_from_string_strict}
use rpc_spec.Validators.Accounts.{for_elements, succeeds}
use rpc_spec.Validators.Arrays.{account_element, account_id_array}
use rpc_spec.Validators.Accounts.Loops.{for_elements-success, HasText}

module _ (server : Server) (x : Libxrpl) where
  -- An element of an array of accounts: a string that decodes to an account.
  abbrev pub IsAccountElement : FieldView → Type 0
  IsAccountElement elem =
      (s : Text) × HasText elem s × (succeeds (account_from_string_strict x s) ≡ true)

  account_element_sound :
      (key k : Text) (o : Option Value)
      → account_element server x key (record { key = k; value = o }) ≡ success
      → IsAccountElement (record { key = k; value = o })
  account_element_sound key k none h = cc
  account_element_sound key k (some (string s)) h = (s, refl, ground arith)
  account_element_sound key k (some _) h = cc

  account_element_complete :
      (key : Text) (elem : FieldView)
      → IsAccountElement elem
      → account_element server x key elem ≡ success
  account_element_complete key elem (s, e, good) = rw (e, good)

  -- A field that is present passes exactly if it is an array with one element at least and no more
  -- than `max_size`, and each element is a string that decodes to an account.
  pub account_id_array_iff :
      (max_size : ℕ) (v : FieldView)
      → present v ≡ true
      → (account_id_array server x max_size v ≡ success) ↔ (
          (is_array v ≡ true)
          × (1 ≤ array_size v)
          × (array_size v ≤ max_size)
          × ((i : ℕ) → i < array_size v → IsAccountElement (element v i)))
  unfolding account_id_array
  account_id_array_iff max_size v p = (forth, back)
    where
      forth :
          account_id_array server x max_size v ≡ success
          → (is_array v ≡ true)
            × (1 ≤ array_size v)
            × (array_size v ≤ max_size)
            × ((i : ℕ) → i < array_size v → IsAccountElement (element v i))
      forth h =
          let tests : (is_array v ≡ true)
              × (1 ≤ array_size v)
              × (array_size v ≤ max_size)
              × (for_elements (account_element server x v.key) v 0 (array_size v) ≡ success) =
            ground arith in
          (
            tests.0,
            tests.1,
            tests.2,
            λ i lt. account_element_sound v.key (element v i).key (element v i).value (
                (for_elements-success (account_element server x v.key) v (array_size v)).0 tests.3 i
                  lt),
          )

      back :
          (is_array v ≡ true)
            × (1 ≤ array_size v)
            × (array_size v ≤ max_size)
            × ((i : ℕ) → i < array_size v → IsAccountElement (element v i))
          → account_id_array server x max_size v ≡ success
      back (a, lo, hi, each) = ground (
        arith,
        (for_elements-success (account_element server x v.key) v (array_size v)).1
            (λ i lt. account_element_complete v.key (element v i) (each i lt)),
      )
