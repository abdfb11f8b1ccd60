-- ===== src/Typed/Coverage.antt =====
-- include/rpcspec/Typed.hpp: the count of bound members that the constructor of a typed spec
-- compares with the number of members of the input.
use rpc_spec.Prelude.{
  ℕ, zero, suc, ◌+◌, ◌<◌, ◌≤◌, ◌≡◌, ◌↔◌, refl, ap, ◌∙◌, Bool, true, false, not, ◌&&◌, ◌||◌, inl,
  inr, Option, none, some, List, [], ◌∷◌, ◌++◌, All, any, arith, ◌==◌, Bool-cases, Option-cases,
  if◌then◌else◌,
}
use mathlib.Core.List.{append_assoc, append-nil}
use rpc_spec.Typed.{
  TypedField, slot_of, same_slot, binds_earlier_member, is_bound_field, count_from,
  distinct_bound_member_count,
}

-- How many of the numbers below `n` pass the test.
tally : ℕ → (ℕ → Bool) → ℕ
tally zero p = 0
tally (suc n) p = (if p n then 1 else 0) + tally n p

tally-le : (n : ℕ) (p : ℕ → Bool) → tally n p ≤ n
unfolding tally
tally-le zero p = omega arith
tally-le (suc n) p = ground (arith, tally-le n p)

tally-ext : (n : ℕ) (p q : ℕ → Bool) → ((m : ℕ) → m < n → p m ≡ q m) → tally n p ≡ tally n q
unfolding tally
tally-ext zero p q h = refl
tally-ext (suc n) p q h =
    ground (arith, h n (omega arith), tally-ext n p q (λ m lt. h m (omega arith)))

-- Every number passes exactly when the tally is full.
tally-full : (n : ℕ) (p : ℕ → Bool) → tally n p ≡ n → (m : ℕ) → m < n → p m ≡ true
unfolding tally
tally-full zero p e m lt = absurd (omega arith)
tally-full (suc n) p e m lt =
    ground (arith, tally-le n p, tally-full n p (ground (arith, tally-le n p)) m)

tally_all : (n : ℕ) (p : ℕ → Bool) → ((m : ℕ) → m < n → p m ≡ true) → tally n p ≡ n
unfolding tally
tally_all zero p h = refl
tally_all (suc n) p h = ground (arith, h n (omega arith), tally_all n p (λ m lt. h m (omega arith)))

tally-add :
    (n : ℕ) (p : ℕ → Bool) (a : ℕ)
    → a < n
    → tally n (λ m. p m || (m == a)) ≡ (if p a then 0 else 1) + tally n p
unfolding tally
tally-add zero p a lt = absurd (omega arith)
tally-add (suc n) p a lt = elim (Bool-cases (n == a)) [
  | inl same ↦ ground (
    arith,
    ap p (let e : n ≡ a = ground arith in e),
    tally-ext n (λ m. p m || (m == a)) p (λ m h. ground arith),
  )
  | inr other ↦ ground (arith, tally-add n p a)
]

tally-false : (n : ℕ) → tally n (λ m. false) ≡ 0
unfolding tally
tally-false zero = refl
tally-false (suc n) = omega (arith, tally-false n)

module _ {I : Type 0} where
  -- Some field is bound to the member.
  abbrev pub binds : List (TypedField I) → ℕ → Bool
  binds fields m = any (λ g. same_slot (some m) (slot_of g)) fields

  -- The slot of a bound field is one of the input's members.
  abbrev pub InRange : ℕ → TypedField I → Type 0
  InRange n f = (m : ℕ) → slot_of f ≡ some m → m < n

  binds-append :
      (before : List (TypedField I)) (f : TypedField I) (m : ℕ)
      → binds (before ++ f ∷ []) m ≡ (binds before m || same_slot (some m) (slot_of f))
  binds-append [] f m = ground arith
  binds-append (g ∷ before) f m = ground (arith, binds-append before f m)

  binds_slot :
      (before : List (TypedField I)) (f : TypedField I) (o : Option ℕ)
      → slot_of f ≡ o
      → (m : ℕ) → binds (before ++ f ∷ []) m ≡ (binds before m || same_slot (some m) o)
  binds_slot before f o e m = rw (← e) (binds-append before f m)

  tally-binds-append :
      (n : ℕ) (before : List (TypedField I)) (f : TypedField I)
      → InRange n f
      → tally n (binds (before ++ f ∷ []))
        ≡ (if is_bound_field f && not (binds_earlier_member f before) then 1 else 0)
          + tally n (binds before)
  unfolding binds_earlier_member
  tally-binds-append n before f h = elim (Option-cases (slot_of f)) [
    | inl e ↦ ground (
      arith,
      tally-ext n (binds (before ++ f ∷ [])) (binds before)
          (λ m lt. ground (arith, binds_slot before f none e m)),
    )
    | inr (a, e) ↦ rw e (
        tally-ext n (binds (before ++ f ∷ [])) (λ m. binds before m || (m == a))
          (λ m lt. binds_slot before f (some a) e m)
        ∙ tally-add n (binds before) a (h a e)
        ∙ ground arith)
  ]

  count_from-tally :
      (n : ℕ) (before fs : List (TypedField I))
      → All (InRange n) fs
      → count_from before fs + tally n (binds before) ≡ tally n (binds (before ++ fs))
  unfolding count_from
  count_from-tally n before [] h = omega (arith, ap (λ fs. tally n (binds fs)) (append-nil before))
  count_from-tally n before (f ∷ fs) (h, hs) = omega (
    arith,
    count_from-tally n (before ++ f ∷ []) fs hs,
    tally-binds-append n before f h,
    ap (λ gs. tally n (binds gs)) (append_assoc before (f ∷ []) fs),
  )

  -- The count that the constructor demands, that of the members of the input, is reached exactly if
  -- each member is bound by some field, where the fields bind members of that input alone.
  pub distinct_bound_member_count_iff :
      (n : ℕ) (fields : List (TypedField I))
      → All (InRange n) fields
      → (distinct_bound_member_count fields ≡ n) ↔ ((m : ℕ) → m < n → binds fields m ≡ true)
  unfolding distinct_bound_member_count
  distinct_bound_member_count_iff n fields h =
      let e : count_from [] fields ≡ tally n (binds fields) =
        omega (arith, count_from-tally n [] fields h, tally-false n) in
      (λ c. tally-full n (binds fields) (omega arith), λ all. e ∙ tally_all n (binds fields) all)
