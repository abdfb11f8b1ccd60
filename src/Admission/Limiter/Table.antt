-- ===== src/Admission/Limiter/Table.antt =====
-- include/admissionspec/ConnectionLimiter.hpp: lookup in the table after each change of it.
use rpc_spec.Prelude.{
  suc, ◌≤◌, ◌≡◌, refl, sym, subst, none, if◌then◌else◌, true, false, none, some, [], ◌∷◌, length,
  arith, Bool-cases, inl, inr,
}
use rpc_spec.Admission.Bucket.{Folly}
use rpc_spec.Admission.Limiter.{Eq, BucketEntry, Buckets, find, update, erase}

module _ {K : Type 0} (eq : Eq K) where
  pub beq_self : (a : K) → eq.beq a a ≡ true
  beq_self a = (eq.beq_iff a a).1 refl

  pub beq_same : (a b : K) → eq.beq a b ≡ true → a ≡ b
  beq_same a b h = (eq.beq_iff a b).0 h

  pub beq_sym : (a b : K) → eq.beq a b ≡ false → eq.beq b a ≡ false
  beq_sym a b h = elim (Bool-cases (eq.beq b a)) [
    | inl same ↦ absurd (ground (arith, sym (beq_same b a same), beq_self a))
    | inr other ↦ other
  ]

module _ (folly : Folly) {K : Type 0} (eq : Eq K) where
  -- No key stands twice in the table.
  abbrev pub IsDistinct : Buckets folly eq → Type 0
  IsDistinct [] = Unit
  IsDistinct ((k, e) ∷ m) = (find folly eq k m ≡ none) × IsDistinct m

  pub find-update_other :
      (k c : K) (e : BucketEntry folly eq) (m : Buckets folly eq)
      → eq.beq k c ≡ false
      → find folly eq c (update folly eq k e m) ≡ find folly eq c m
  unfolding find update
  find-update_other k c e [] h = refl
  find-update_other k c e ((j, d) ∷ m) h = elim (Bool-cases (eq.beq j k)) [
    | inl same ↦ ground (arith, beq_same eq j k same)
    | inr other ↦ ground (arith, find-update_other k c e m h)
  ]

  pub find-update :
      (k : K) (d e : BucketEntry folly eq) (m : Buckets folly eq)
      → find folly eq k m ≡ some d
      → find folly eq k (update folly eq k e m) ≡ some e
  unfolding find update
  find-update k d e [] h = cc
  find-update k d e ((j, b) ∷ m) h = ground (arith, find-update k d e m)

  pub find-erase_other :
      (k c : K) (m : Buckets folly eq)
      → eq.beq k c ≡ false
      → find folly eq c (erase folly eq k m) ≡ find folly eq c m
  unfolding find erase
  find-erase_other k c [] h = refl
  find-erase_other k c ((j, d) ∷ m) h = elim (Bool-cases (eq.beq j k)) [
    | inl same ↦ ground (arith, beq_same eq j k same)
    | inr other ↦ ground (arith, find-erase_other k c m h)
  ]

  pub find-erase :
      (k : K) (m : Buckets folly eq) → IsDistinct m → find folly eq k (erase folly eq k m) ≡ none
  unfolding find erase
  find-erase k [] h = refl
  find-erase k ((j, d) ∷ m) (n, h) = elim (Bool-cases (eq.beq j k)) [
    | inl same ↦ ground (arith, beq_same eq j k same)
    | inr other ↦ ground (arith, find-erase k m h)
  ]

  pub find-erase_iff :
      (k c : K) (m : Buckets folly eq)
      → IsDistinct m
      → find folly eq c (erase folly eq k m) ≡ (if eq.beq k c then none else find folly eq c m)
  find-erase_iff k c m h = elim (Bool-cases (eq.beq k c)) [
    | inl same ↦
        subst
          (λ z.
            find folly eq z (erase folly eq k m) ≡ (if eq.beq k z then none else find folly eq z m))
          (beq_same eq k c same) (rw (beq_self eq k) (find-erase k m h))
    | inr other ↦ rw other (find-erase_other k c m other)
  ]

  -- What a key was not in, no write and no removal puts it in.
  pub find-update-none :
      (k c : K) (e : BucketEntry folly eq) (m : Buckets folly eq)
      → find folly eq c m ≡ none
      → find folly eq c (update folly eq k e m) ≡ none
  unfolding find update
  find-update-none k c e [] h = refl
  find-update-none k c e ((j, d) ∷ m) h = ground (arith, find-update-none k c e m)

  pub find-erase-none :
      (k c : K) (m : Buckets folly eq)
      → find folly eq c m ≡ none
      → find folly eq c (erase folly eq k m) ≡ none
  unfolding find erase
  find-erase-none k c [] h = refl
  find-erase-none k c ((j, d) ∷ m) h = ground (arith, find-erase-none k c m)

  pub length-update :
      (k : K) (e : BucketEntry folly eq) (m : Buckets folly eq)
      → length (update folly eq k e m) ≡ length m
  unfolding update
  length-update k e [] = refl
  length-update k e ((j, d) ∷ m) = ground (arith, length-update k e m)

  pub length-erase :
      (k : K) (d : BucketEntry folly eq) (m : Buckets folly eq)
      → find folly eq k m ≡ some d
      → suc (length (erase folly eq k m)) ≡ length m
  unfolding find erase
  length-erase k d [] h = cc
  length-erase k d ((j, b) ∷ m) h = ground (arith, length-erase k d m)

  pub length-erase_le : (k : K) (m : Buckets folly eq) → length (erase folly eq k m) ≤ length m
  unfolding erase
  length-erase_le k [] = omega arith
  length-erase_le k ((j, b) ∷ m) = ground (arith, length-erase_le k m)

  pub update-IsDistinct :
      (k : K) (e : BucketEntry folly eq) (m : Buckets folly eq)
      → IsDistinct m
      → IsDistinct (update folly eq k e m)
  unfolding update
  update-IsDistinct k e [] h = h
  update-IsDistinct k e ((j, d) ∷ m) (n, h) = elim (Bool-cases (eq.beq j k)) [
    | inl same ↦ rw same (n, h)
    | inr other ↦ rw other (find-update-none k j e m n, update-IsDistinct k e m h)
  ]

  pub erase-IsDistinct :
      (k : K) (m : Buckets folly eq) → IsDistinct m → IsDistinct (erase folly eq k m)
  unfolding erase
  erase-IsDistinct k [] h = h
  erase-IsDistinct k ((j, d) ∷ m) (n, h) = elim (Bool-cases (eq.beq j k)) [
    | inl same ↦ rw same h
    | inr other ↦ rw other (find-erase-none k j m n, erase-IsDistinct k m h)
  ]
