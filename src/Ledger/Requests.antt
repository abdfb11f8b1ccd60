-- ===== src/Ledger/Requests.antt =====
-- include/rpcspec/Ledger.hpp: the ledger that a request to xrpld is about.
use rpc_spec.Prelude.{
  ◌+◌, ◌≡◌, ◌↔◌, refl, ap, Text, Bool, true, false, ◌&&◌, Option, none, some, ltb, str, arith,
  Bool-cases, inl, inr,
}
use rpc_spec.Json.{Value, string}
use rpc_spec.Status.{ok}
use rpc_spec.View.{FieldView, ObjectView, present, is_string, as_string, root_child}
use rpc_spec.Validators.Chars.{c_str}
use rpc_spec.Validators.Accounts.Loops.{HasText}
use rpc_spec.Validators.Libxrpl.{Libxrpl}
use rpc_spec.Ledger.{
  LedgerSpecifier, unspecified, hash, one_if, xrpld_ledger_from_hash, xrpld_ledger_from_views,
  xrpld_ledger_from_request, has_length, is_string_or_integer,
}
use rpc_spec.Ledger.Indices.{
  Index, Index-is_string_or_integer, xrpld_ledger_from_index_complete,
  xrpld_ledger_from_index_sound,
}

module _ (x : Libxrpl) where
  -- A field that names a ledger by its hash.
  abbrev pub IsHash : FieldView → LedgerSpecifier x → Type 0
  IsHash v l =
      (s : Text) × HasText v s
      × (x.parse_hex 256 (c_str s) ≡ true)
      × (hash (x.hex_number 256 (c_str s)) ≡ l)

  -- A text of 64 bytes is read as a hash.
  abbrev pub is_hash_text : FieldView → Bool
  is_hash_text v = is_string v && has_length x 64 (as_string v)

  -- The three fields that may name a ledger, of which at most one is there.
  pub data Selects (legacy hashed index : FieldView) (l : LedgerSpecifier x) : Type 0 where
    by_none :
        present legacy ≡ false
        → present hashed ≡ false
        → present index ≡ false
        → unspecified ≡ l
        → Selects legacy hashed index l
    by_legacy_hash :
        present hashed ≡ false
        → present index ≡ false
        → is_hash_text legacy ≡ true
        → IsHash legacy l
        → Selects legacy hashed index l
    by_legacy_index :
        present hashed ≡ false
        → present index ≡ false
        → is_hash_text legacy ≡ false
        → Index x legacy l
        → Selects legacy hashed index l
    by_hash :
        present legacy ≡ false
        → present index ≡ false
        → IsHash hashed l
        → Selects legacy hashed index l
    by_index :
        present legacy ≡ false
        → present hashed ≡ false
        → Index x index l
        → Selects legacy hashed index l

  IsHash-value :
      (k : Text) (o : Option Value) (l : LedgerSpecifier x)
      → xrpld_ledger_from_hash x (record { key = k; value = o }) ≡ ok l
      → IsHash (record { key = k; value = o }) l
  unfolding xrpld_ledger_from_hash
  IsHash-value k none l h = absurd (cc)
  IsHash-value k (some (string s)) l h = elim (Bool-cases (x.parse_hex 256 (c_str s))) [
    | inl good ↦
        (let h = rw good at h in
          (s, refl, good, (let same : hash (x.hex_number 256 (c_str s)) ≡ l = cc in same)))
    | inr bad ↦ (let h = rw bad at h in absurd (cc))
  ]
  IsHash-value k (some _) l h = absurd (cc)

  xrpld_ledger_from_hash_complete :
      (v : FieldView) (l : LedgerSpecifier x) → IsHash v l → xrpld_ledger_from_hash x v ≡ ok l
  unfolding xrpld_ledger_from_hash
  xrpld_ledger_from_hash_complete v l (s, e, good, same) = rw (e, good) (ap ok same)

  string_present : (v : FieldView) → is_string v ≡ true → present v ≡ true
  string_present v h = ground arith

  string_or_integer_present : (v : FieldView) → is_string_or_integer x v ≡ true → present v ≡ true
  string_or_integer_present v h = ground arith

  IsHash-is_string : (v : FieldView) (l : LedgerSpecifier x) → IsHash v l → is_string v ≡ true
  IsHash-is_string v l (s, e, good, same) = rw e refl

  hash_text_string : (v : FieldView) → is_hash_text v ≡ true → is_string v ≡ true
  hash_text_string v h = ground arith

  xrpld_ledger_from_views_complete :
      (legacy hashed index : FieldView) (l : LedgerSpecifier x)
      → Selects legacy hashed index l
      → xrpld_ledger_from_views x legacy hashed index ≡ ok l
  unfolding xrpld_ledger_from_views
  xrpld_ledger_from_views_complete legacy hashed index l (by_none a b c e) = rw (a, b, c) (ap ok e)
  xrpld_ledger_from_views_complete legacy hashed index l (by_legacy_hash b c t h) =
      let is = hash_text_string legacy t in
      let here = string_present legacy is in
      let either : is_string_or_integer x legacy ≡ true = ground arith in
      rw (here, b, c, either, t) (xrpld_ledger_from_hash_complete legacy l h)
  xrpld_ledger_from_views_complete legacy hashed index l (by_legacy_index b c t h) =
      let either = Index-is_string_or_integer x legacy l h in
      let here = string_or_integer_present legacy either in
      rw (here, b, c, either, t) (xrpld_ledger_from_index_complete x legacy l h)
  xrpld_ledger_from_views_complete legacy hashed index l (by_hash a c h) =
      let is = IsHash-is_string hashed l h in
      let here = string_present hashed is in
      rw (a, here, c, is) (xrpld_ledger_from_hash_complete hashed l h)
  xrpld_ledger_from_views_complete legacy hashed index l (by_index a b h) =
      let either = Index-is_string_or_integer x index l h in
      let here = string_or_integer_present index either in
      rw (a, b, here, either) (xrpld_ledger_from_index_complete x index l h)

  legacy_sound :
      (legacy hashed index : FieldView) (l : LedgerSpecifier x)
      → present hashed ≡ false
      → present index ≡ false
      → present legacy ≡ true
      → xrpld_ledger_from_views x legacy hashed index ≡ ok l
      → Selects legacy hashed index l
  unfolding xrpld_ledger_from_views
  legacy_sound legacy hashed index l b c here h =
      let h = rw (here, b, c) at h in
      elim (Bool-cases (is_string_or_integer x legacy)) [
        | inr neither ↦ (let h = rw neither at h in absurd (cc))
        | inl either ↦ elim (Bool-cases (is_hash_text legacy)) [
          | inl t ↦
              (let h = rw (either, t) at h in
                by_legacy_hash b c t (IsHash-value legacy.key legacy.value l h))
          | inr t ↦
              (let h = rw (either, t) at h in
                by_legacy_index b c t (xrpld_ledger_from_index_sound x legacy l h))
        ]
      ]

  hash_sound :
      (legacy hashed index : FieldView) (l : LedgerSpecifier x)
      → present legacy ≡ false
      → present index ≡ false
      → present hashed ≡ true
      → xrpld_ledger_from_views x legacy hashed index ≡ ok l
      → Selects legacy hashed index l
  unfolding xrpld_ledger_from_views
  hash_sound legacy hashed index l a c here h =
      let h = rw (a, here, c) at h in
      elim (Bool-cases (is_string hashed)) [
        | inr other ↦ (let h = rw other at h in absurd (cc))
        | inl is ↦ (let h = rw is at h in by_hash a c (IsHash-value hashed.key hashed.value l h))
      ]

  index_sound :
      (legacy hashed index : FieldView) (l : LedgerSpecifier x)
      → present legacy ≡ false
      → present hashed ≡ false
      → present index ≡ true
      → xrpld_ledger_from_views x legacy hashed index ≡ ok l
      → Selects legacy hashed index l
  unfolding xrpld_ledger_from_views
  index_sound legacy hashed index l a b here h =
      let h = rw (a, b, here) at h in
      elim (Bool-cases (is_string_or_integer x index)) [
        | inr neither ↦ (let h = rw neither at h in absurd (cc))
        | inl either ↦
            (let h = rw either at h in by_index a b (xrpld_ledger_from_index_sound x index l h))
      ]

  pub xrpld_ledger_from_views_sound :
      (legacy hashed index : FieldView) (l : LedgerSpecifier x)
      → xrpld_ledger_from_views x legacy hashed index ≡ ok l
      → Selects legacy hashed index l
  unfolding xrpld_ledger_from_views
  xrpld_ledger_from_views_sound legacy hashed index l h = elim (Bool-cases (present legacy)) [
    | inl a ↦ elim (Bool-cases (present hashed)) [
      | inl b ↦ absurd (two (ground arith) h)
      | inr b ↦ elim (Bool-cases (present index)) [
        | inl c ↦ absurd (two (ground arith) h)
        | inr c ↦ legacy_sound legacy hashed index l b c a h
      ]
    ]
    | inr a ↦ elim (Bool-cases (present hashed)) [
      | inl b ↦ elim (Bool-cases (present index)) [
        | inl c ↦ absurd (two (ground arith) h)
        | inr c ↦ hash_sound legacy hashed index l a c b h
      ]
      | inr b ↦ elim (Bool-cases (present index)) [
        | inl c ↦ index_sound legacy hashed index l a b c h
        | inr c ↦
            (let h = rw (a, b, c) at h in by_none a b c (let same : unspecified ≡ l = cc in same))
      ]
    ]
  ]
    where
      two :
          ltb 1 ((one_if x (present legacy) + one_if x (present hashed)) + one_if x (present index))
            ≡ true
          → xrpld_ledger_from_views x legacy hashed index ≡ ok l
          → ⊥
      two many h = (let h = rw many at h in cc)

  -- A request to xrpld selects a ledger exactly if at most one of `ledger`, `ledger_hash` and
  -- `ledger_index` is there, and that one names it: a hash of 256 bits, for `ledger` in 64 bytes; a
  -- number of 32 bits or a numeral for one, a plus sign before it or not; the word current, closed or
  -- validated, or the empty text, which is current. Without any, the ledger is unspecified.
  pub xrpld_ledger_from_request_iff :
      (root : ObjectView) (l : LedgerSpecifier x)
      → (xrpld_ledger_from_request x root ≡ ok l)
        ↔ Selects
            (root_child root (str "ledger"))
            (root_child root (str "ledger_hash"))
            (root_child root (str "ledger_index"))
            l
  unfolding xrpld_ledger_from_request
  xrpld_ledger_from_request_iff root l =
      (xrpld_ledger_from_views_sound _ _ _ l, xrpld_ledger_from_views_complete _ _ _ l)
