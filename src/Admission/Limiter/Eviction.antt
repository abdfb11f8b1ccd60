-- ===== src/Admission/Limiter/Eviction.antt =====
-- include/admissionspec/ConnectionLimiter.hpp: `evictOldest` and the room it makes.
use rpc_spec.Prelude.{
  ℕ, suc, ◌-◌, ◌≤◌, ◌≡◌, refl, sym, subst, ◌∙◌, none, some, [], ◌∷◌, length, arith, leb, leb→le,
  Bool-cases, inl, inr, if◌then◌else◌, ◌⊎◌,
}
use rpc_spec.Prelude.Int.{ℤ, ltb_ℤ, ◌≤ℤ◌}
use rpc_spec.Admission.Bucket.{Folly}
use rpc_spec.Admission.Limiter.{Eq, BucketEntry, Buckets, find, oldest_of, evict_oldest, make_room}
use rpc_spec.Admission.Limiter.Table.{
  IsDistinct, beq_self, beq_same, find-erase_iff, length-erase, erase-IsDistinct,
}

≤ℤ_trans : (a b c : ℤ) → a ≤ℤ b → b ≤ℤ c → a ≤ℤ c
≤ℤ_trans a b c h k = omega arith

module _ (folly : Folly) {K : Type 0} (eq : Eq K) where
  -- The loop never takes an entry that was seen later than the one it has.
  oldest_of-le :
      (o : K × BucketEntry folly eq) (m : Buckets folly eq)
      → (oldest_of folly eq o m).1.last_seen ≤ℤ o.1.last_seen
  unfolding oldest_of
  oldest_of-le o [] = omega arith
  oldest_of-le o ((k, e) ∷ m) =
      let next = if ltb_ℤ e.last_seen o.1.last_seen then (k, e) else o in
      ≤ℤ_trans (oldest_of folly eq next m).1.last_seen next.1.last_seen o.1.last_seen
        (oldest_of-le next m) (ground arith)

  pub oldest_of-least :
      (o : K × BucketEntry folly eq) (m : Buckets folly eq) (c : K) (d : BucketEntry folly eq)
      → find folly eq c m ≡ some d
      → (oldest_of folly eq o m).1.last_seen ≤ℤ d.last_seen
  unfolding find oldest_of
  oldest_of-least o [] c d h = cc
  oldest_of-least o ((k, e) ∷ m) c d h =
      let next = if ltb_ℤ e.last_seen o.1.last_seen then (k, e) else o in
      elim (Bool-cases (eq.beq k c)) [
        | inl same ↦
            let e_d : e ≡ d = ground arith in
            let first : next.1.last_seen ≤ℤ e.last_seen = ground arith in
            rw (sym e_d) (
              ≤ℤ_trans (oldest_of folly eq next m).1.last_seen next.1.last_seen e.last_seen
                (oldest_of-le next m) first)
        | inr other ↦ oldest_of-least next m c d (ground arith)
      ]

  -- The entry that the loop ends with is the one it had, or one of the table.
  oldest_of-found :
      (o : K × BucketEntry folly eq) (m : Buckets folly eq)
      → IsDistinct folly eq m
      → (oldest_of folly eq o m ≡ o)
        ⊎ (find folly eq (oldest_of folly eq o m).0 m ≡ some (oldest_of folly eq o m).1)
  unfolding find oldest_of
  oldest_of-found o [] h = inl refl
  oldest_of-found o ((k, e) ∷ m) (n, h) =
      let next = if ltb_ℤ e.last_seen o.1.last_seen then (k, e) else o in
      elim (oldest_of-found next m h) [
        | inl stays ↦ elim (Bool-cases (ltb_ℤ e.last_seen o.1.last_seen)) [
          | inl older ↦ inr (rw (stays, older, beq_self eq k))
          | inr younger ↦ inl (stays ∙ rw younger)
        ]
        | inr found ↦ elim (Bool-cases (eq.beq k (oldest_of folly eq next m).0)) [
          | inl same ↦ absurd (ground (arith, beq_same eq k (oldest_of folly eq next m).0 same))
          | inr other ↦ inr (rw other found)
        ]
      ]

  -- The entry `w` stands in the table with the record `d`, and no other was seen earlier.
  pub record IsOldest (m : Buckets folly eq) (w : K) (d : BucketEntry folly eq) : Type 0 where
    pub stands : find folly eq w m ≡ some d
    pub least :
        (c : K) (x : BucketEntry folly eq) → find folly eq c m ≡ some x → d.last_seen ≤ℤ x.last_seen

  oldest_of-IsOldest :
      (k : K) (e : BucketEntry folly eq) (m : Buckets folly eq)
      → IsDistinct folly eq ((k, e) ∷ m)
      → let o = oldest_of folly eq (k, e) ((k, e) ∷ m) in IsOldest ((k, e) ∷ m) o.0 o.1
  unfolding oldest_of find
  oldest_of-IsOldest k e m h = record {
    stands =
        let o = oldest_of folly eq (k, e) ((k, e) ∷ m) in
        elim (oldest_of-found (k, e) ((k, e) ∷ m) h) [
          | inl first ↦
              subst (λ w. find folly eq w.0 ((k, e) ∷ m) ≡ some w.1) (sym first)
                (rw (beq_self eq k))
          | inr found ↦ found
        ];
    least = λ c x f. oldest_of-least (k, e) ((k, e) ∷ m) c x f;
  }

  -- In a table with an entry, `evictOldest` removes one connection, that stands in it and was seen
  -- no later than any other of the table; every other connection keeps its record, and the table is
  -- shorter by one.
  pub evict_oldest-IsOldest :
      (k : K) (e : BucketEntry folly eq) (m : Buckets folly eq)
      → IsDistinct folly eq ((k, e) ∷ m)
      → let after = evict_oldest folly eq ((k, e) ∷ m) in
        (w : K) × (d : BucketEntry folly eq) × IsOldest ((k, e) ∷ m) w d
        × ((c : K)
            → find folly eq c after ≡ (if eq.beq w c then none else find folly eq c ((k, e) ∷ m)))
        × (suc (length after) ≡ length ((k, e) ∷ m))
  unfolding evict_oldest
  evict_oldest-IsOldest k e m h =
      let o = oldest_of folly eq (k, e) ((k, e) ∷ m) in
      let least = oldest_of-IsOldest k e m h in
      (
        o.0,
        o.1,
        least,
        (λ c. find-erase_iff folly eq o.0 c ((k, e) ∷ m) h),
        length-erase folly eq o.0 o.1 ((k, e) ∷ m) least.stands,
      )

  pub make_room-IsDistinct :
      (n : ℕ) (m : Buckets folly eq)
      → IsDistinct folly eq m
      → IsDistinct folly eq (make_room folly eq n m)
  unfolding make_room evict_oldest
  make_room-IsDistinct n [] h = elim (Bool-cases (leb n 0)) [
    | inl full ↦ rw full tt
    | inr room ↦ rw room tt
  ]
  make_room-IsDistinct n ((k, e) ∷ m) h = elim (Bool-cases (leb n (length ((k, e) ∷ m)))) [
    | inl full ↦
        rw full
          (erase-IsDistinct folly eq (oldest_of folly eq (k, e) ((k, e) ∷ m)).0 ((k, e) ∷ m) h)
    | inr room ↦ rw room h
  ]

  evict_oldest_shorter :
      (k : K) (e : BucketEntry folly eq) (m : Buckets folly eq)
      → IsDistinct folly eq ((k, e) ∷ m)
      → suc (length (evict_oldest folly eq ((k, e) ∷ m))) ≡ length ((k, e) ∷ m)
  evict_oldest_shorter k e m h =
      let (w, d, least, after, shorter) = evict_oldest-IsOldest k e m h in shorter

  -- Where the table is within its limit, one more entry has room in it; a limit of zero counts as one.
  pub length-make_room :
      (n : ℕ) (m : Buckets folly eq)
      → IsDistinct folly eq m
      → length m ≤ suc (n - 1)
      → length (make_room folly eq n m) ≤ n - 1
  unfolding make_room evict_oldest
  length-make_room n [] h le = ground arith
  length-make_room n ((k, e) ∷ m) h le = ground (arith, evict_oldest_shorter k e m h)

  -- The connection is the one that the full table loses.
  pub record IsEvicted (n : ℕ) (m : Buckets folly eq) (c : K) : Type 0 where
    pub full : n ≤ length m
    pub entry : BucketEntry folly eq
    pub oldest : IsOldest m c entry

  find-evict_empty : (c : K) → find folly eq c (evict_oldest folly eq []) ≡ find folly eq c []
  unfolding evict_oldest
  find-evict_empty c = refl

  -- A connection keeps its record, or it is the one that the full table loses.
  pub find-make_room :
      (n : ℕ) (m : Buckets folly eq) (c : K)
      → IsDistinct folly eq m
      → (find folly eq c (make_room folly eq n m) ≡ find folly eq c m)
        ⊎ ((find folly eq c (make_room folly eq n m) ≡ none) × IsEvicted n m c)
  unfolding make_room
  find-make_room n [] c h = elim (Bool-cases (leb n 0)) [
    | inl full ↦ inl (rw full (find-evict_empty c))
    | inr room ↦ inl (rw room refl)
  ]
  find-make_room n ((k, e) ∷ m) c h = elim (Bool-cases (leb n (length ((k, e) ∷ m)))) [
    | inr room ↦ inl (rw room refl)
    | inl full ↦
        let (w, d, least, after, shorter) = evict_oldest-IsOldest k e m h in
        elim (Bool-cases (eq.beq w c)) [
          | inr other ↦ inl (rw full (after c ∙ rw other))
          | inl same ↦
              let gone = after w ∙ rw (beq_self eq w) in
              let w_c : w ≡ c = beq_same eq w c same in
              inr (
                rw full (
                    subst (λ z. find folly eq z (evict_oldest folly eq ((k, e) ∷ m)) ≡ none) w_c
                      gone),
                record {
                  full = leb→le n (length ((k, e) ∷ m)) full;
                  entry = d;
                  oldest = subst (λ z. IsOldest ((k, e) ∷ m) z d) w_c least;
                },
              )
        ]
  ]
