-- ===== src/Validators/Accounts/Loops.antt =====
-- include/rpcspec/Validators.hpp: the parts that the validators of strings and of arrays share.
use rpc_spec.Prelude.{
  ℕ, zero, suc, ◌+◌, ◌≤◌, ◌<◌, ◌≡◌, ◌↔◌, refl, ap, ◌∙◌, subst, Text, true, inl, inr, some, arith,
  ◌==◌, Bool-cases, Option-cases,
}
use rpc_spec.Json.{Value, null, string}
use rpc_spec.Status.{Status, MaybeError, success, ok, unexpected, has_value}
use rpc_spec.View.{FieldView, present, element}
use rpc_spec.Combinators.{and_then}
use rpc_spec.Validators.Accounts.{for_elements, on_string}

pub and_then-success :
    (a b : MaybeError) → (and_then a b ≡ success) ↔ ((a ≡ success) × (b ≡ success))
and_then-success (ok _) b = ((λ h. (refl, h)), (λ h. h.1))
and_then-success (unexpected e) b = ((λ h. cc), (λ h. cc))

module _ (f : FieldView → MaybeError) (v : FieldView) where
  for_elements_sound :
      (i n : ℕ)
      → for_elements f v i n ≡ success
      → (j : ℕ) → i ≤ j
      → j < i + n
      → f (element v j) ≡ success
  unfolding for_elements
  for_elements_sound i zero h j p q = absurd (omega arith)
  for_elements_sound i (suc n) h j p q =
      let (here, later) = (and_then-success (f (element v i)) (for_elements f v (i + 1) n)).0 h in
      elim (Bool-cases (i == j)) [
        | inl same ↦ let e : i ≡ j = ground arith in subst (λ k. f (element v k) ≡ success) e here
        | inr other ↦ for_elements_sound (i + 1) n later j (ground arith) (omega arith)
      ]

  for_elements_complete :
      (i n : ℕ)
      → ((j : ℕ) → i ≤ j → j < i + n → f (element v j) ≡ success)
      → for_elements f v i n ≡ success
  unfolding for_elements
  for_elements_complete i zero h = refl
  for_elements_complete i (suc n) h =
      (and_then-success (f (element v i)) (for_elements f v (i + 1) n)).1 (
        h i (omega arith) (omega arith),
        for_elements_complete (i + 1) n (λ j p q. h j (omega arith) (omega arith)),
      )

  -- The loop over all elements succeeds exactly if each round does.
  pub for_elements-success :
      (n : ℕ) → (for_elements f v 0 n ≡ success) ↔ ((j : ℕ) → j < n → f (element v j) ≡ success)
  for_elements-success n = (
    (λ h j q. for_elements_sound 0 n h j (omega arith) (omega arith)),
    (λ h. for_elements_complete 0 n (λ j p q. h j (omega arith))),
  )

-- The field holds the text.
abbrev pub HasText : FieldView → Text → Type 0
HasText v s = v.value ≡ some (string s)

pub on_string-text :
    (r : MaybeError) (f : Text → MaybeError) (v : FieldView) (s : Text)
    → HasText v s
    → on_string r f v ≡ f s
on_string-text r f v s e = rw e

-- A value that passes is a string.
on_string_value :
    (e : Status) (f : Text → MaybeError) (k : Text) (j : Value)
    → on_string (unexpected e) f (record { key = k; value = some j }) ≡ success
    → (s : Text) × (j ≡ string s) × (f s ≡ success)
on_string_value e f k (string s) h = (s, refl, h)
on_string_value e f k (null) h = cc
on_string_value e f k _ h = cc

pub on_string_sound :
    (e : Status) (f : Text → MaybeError) (v : FieldView)
    → present v ≡ true
    → on_string (unexpected e) f v ≡ success
    → (s : Text) × HasText v s × (f s ≡ success)
on_string_sound e f v p h = elim (Option-cases v.value) [
  | inl n ↦ absurd (ground arith)
  | inr (j, n) ↦
      let (s, same, ok_s) = on_string_value e f v.key j (rw n at h) in (s, n ∙ ap some same, ok_s)
]

pub has_value-success : (r : MaybeError) → has_value r ≡ true → r ≡ success
has_value-success (ok _) h = refl
has_value-success (unexpected e) h = cc
