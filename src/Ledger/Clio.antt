-- ===== src/Ledger/Clio.antt =====
-- include/rpcspec/Ledger.hpp: the ledger that a request to Clio is about.
use rpc_spec.Prelude.{
  ℕ, ◌≤◌, ◌≡◌, ◌↔◌, ◌⊎◌, refl, ap, subst, Text, Bool, true, false, Option, none, some, all, str,
  text_eq_iff, text_eq-false, arith, Bool-cases, inl, inr, if◌then◌else◌,
}
use rpc_spec.Prelude.Strings.{text_eq}
use rpc_spec.Json.{Value, string, int64, uint64}
use rpc_spec.Status.{Status, Result, clio, ok, unexpected, success}
use rpc_spec.View.{
  FieldView, ObjectView, present, is_string, is_uint32, is_int64, as_uint32, uint32_max, root_child,
}
use rpc_spec.Validators.Chars.{c_str, is_digit, from_chars, all_read, digits_value}
use rpc_spec.Validators.Chars.Numerals.{IsNumeral, from_chars_iff}
use rpc_spec.Validators.Accounts.Loops.{HasText}
use rpc_spec.Validators.Libxrpl.{Libxrpl}
use rpc_spec.Ledger.{
  validated, LedgerSpecifier, shortcut, sequence, hash, sequence_or, index_text, after_index,
  stored, ledger_specifier_from_index, ledger_specifier_from_hash, parse_ledger,
}
use rpc_spec.Ledger.Requests.{IsHash}

numeral_other : (s t : Text) → IsNumeral s → all is_digit t ≡ false → text_eq s t ≡ false
numeral_other s t (some_digits, digits) other =
    text_eq-false s t (λ e. (let same = ap (λ z. all is_digit z) e in absurd (cc)))

module _ (x : Libxrpl) where
  -- The values of `ledger_index`: a number of 32 bits, the word or a numeral.
  pub data IndexOf (v : FieldView) : LedgerSpecifier x → Type 0 where
    by_number : (n : ℕ) → is_uint32 v ≡ true → as_uint32 v ≡ some n → IndexOf v (sequence n)
    by_word : HasText v (str "validated") → IndexOf v (shortcut validated)
    by_numeral :
        (s : Text) (n : ℕ)
        → HasText v s
        → IsNumeral s
        → digits_value 0 s ≡ n
        → n ≤ uint32_max
        → IndexOf v (sequence n)

  sequence_or_sound :
      (e : Status) (o : Option ℕ) (l : LedgerSpecifier x)
      → sequence_or x e o ≡ ok l
      → (n : ℕ) × (o ≡ some n) × (sequence n ≡ l)
  sequence_or_sound e none l h = absurd (cc)
  sequence_or_sound e (some n) l h = (n, refl, (let same : sequence n ≡ l = cc in same))

  index_text_sound :
      (k s : Text) (l : LedgerSpecifier x)
      → index_text x clio s ≡ ok l
      → IndexOf (record { key = k; value = some (string s) }) l
  index_text_sound k s l h = elim (Bool-cases (text_eq s (str "validated"))) [
    | inl is ↦
        (let h = rw is at h in
          let word = (text_eq_iff s (str "validated")).0 is in
          subst (IndexOf (record { key = k; value = some (string s) }))
            (let same : shortcut validated ≡ l = cc in same)
            (by_word (ap (λ t. some (string t)) word)))
    | inr other ↦
        (let h = rw other at h in
          let (n, read, same) = sequence_or_sound _ (all_read (from_chars uint32_max s)) l h in
          let (d, v, le) = (from_chars_iff uint32_max n s).0 read in
          subst (IndexOf (record { key = k; value = some (string s) })) same
            (by_numeral s n refl d v le))
  ]

  number_sound :
      (k : Text) (o : Value) (l : LedgerSpecifier x)
      → is_string (record { key = k; value = some o }) ≡ false
      → ledger_specifier_from_index x clio (record { key = k; value = some o }) ≡ ok l
      → IndexOf (record { key = k; value = some o }) l
  unfolding ledger_specifier_from_index
  number_sound k o l t h = elim (Bool-cases (is_uint32 (record { key = k; value = some o }))) [
    | inl is ↦
        (let h = rw is at h in
          let (n, read, same) =
            sequence_or_sound _ (as_uint32 (record { key = k; value = some o })) l h in
          subst (IndexOf (record { key = k; value = some o })) same (by_number n is read))
    | inr other ↦ elim (Bool-cases (is_int64 (record { key = k; value = some o }))) [
      | inl is ↦ (let h = rw (other, is) at h in absurd (cc))
      | inr neither ↦ (let h = rw (other, neither, t) at h in absurd (cc))
    ]
  ]

  index_sound :
      (k : Text) (o : Option Value) (l : LedgerSpecifier x)
      → ledger_specifier_from_index x clio (record { key = k; value = o }) ≡ ok l
      → IndexOf (record { key = k; value = o }) l
  unfolding ledger_specifier_from_index
  index_sound k none l h = absurd (cc)
  index_sound k (some (string s)) l h = index_text_sound k s l h
  index_sound k (some (int64 i)) l h = number_sound k (int64 i) l refl h
  index_sound k (some (uint64 n)) l h = number_sound k (uint64 n) l refl h
  index_sound k (some _) l h = absurd (cc)

  index_complete :
      (v : FieldView) (l : LedgerSpecifier x)
      → IndexOf v l
      → (ledger_specifier_from_index x clio v ≡ ok l) × (present v ≡ true)
  unfolding ledger_specifier_from_index str text_eq
  index_complete v _ (by_number n is e) = (rw (is, e) refl, ground arith)
  index_complete v _ (by_word h) = (rw h refl, rw h refl)
  index_complete v _ (by_numeral s n h d e le) = (
    rw (h, numeral_other s (str "validated") d refl, (from_chars_iff uint32_max n s).1 (d, e, le))
        refl,
    rw h refl,
  )

  IsHash-value :
      (k : Text) (o : Option Value) (l : LedgerSpecifier x)
      → ledger_specifier_from_hash x clio (record { key = k; value = o }) ≡ ok l
      → IsHash x (record { key = k; value = o }) l
  unfolding ledger_specifier_from_hash
  IsHash-value k none l h = absurd (cc)
  IsHash-value k (some (string s)) l h = elim (Bool-cases (x.parse_hex 256 (c_str s))) [
    | inl good ↦
        (let h = rw good at h in
          (s, refl, good, (let same : hash (x.hex_number 256 (c_str s)) ≡ l = cc in same)))
    | inr bad ↦ (let h = rw bad at h in absurd (cc))
  ]
  IsHash-value k (some _) l h = absurd (cc)

  hash_complete :
      (v : FieldView) (l : LedgerSpecifier x)
      → IsHash x v l
      → (ledger_specifier_from_hash x clio v ≡ ok l) × (present v ≡ true)
  unfolding ledger_specifier_from_hash
  hash_complete v l (s, e, good, same) = (rw (e, good) (ap ok same), rw e refl)

  -- The two fields that Clio reads, and the ledger that is stored.
  pub data ClioSelects (hashed index : FieldView) : Option (LedgerSpecifier x) → Type 0 where
    by_none : present hashed ≡ false → present index ≡ false → ClioSelects hashed index none
    by_hash :
        (l : LedgerSpecifier x)
        → IsHash x hashed l
        → present index ≡ false
        → ClioSelects hashed index (some l)
    by_both :
        (l j : LedgerSpecifier x)
        → IsHash x hashed l
        → IndexOf index j
        → ClioSelects hashed index (some l)
    by_index :
        (l : LedgerSpecifier x)
        → present hashed ≡ false
        → IndexOf index l
        → ClioSelects hashed index (some l)

  -- An input that is the ledger alone.
  abbrev pub keep : LedgerSpecifier x → Option (LedgerSpecifier x) → Option (LedgerSpecifier x)
  keep l _ = some l

  module _ (root : ObjectView) where
    stored_sound :
        (r : Result (LedgerSpecifier x)) (o : Option (LedgerSpecifier x))
        → stored x clio keep r (root, none) ≡ (success, (root, o))
        → (l : LedgerSpecifier x) × (r ≡ ok l) × (some l ≡ o)
    stored_sound (ok l) o h = (l, refl, ap (λ p. p.1.1) h)
    stored_sound (unexpected e) o h = absurd (cc)

    after_hash_sound :
        (there : Bool) (r i : Result (LedgerSpecifier x)) (o : Option (LedgerSpecifier x))
        → (elim r [
          | unexpected e ↦ (unexpected e, (root, none))
          | ok l ↦
              stored x clio keep
                (if there then after_index x clio keep i (ok l) else ok l)
                (root, none)
        ])
          ≡ (success, (root, o))
        → (l : LedgerSpecifier x) × (r ≡ ok l)
          × (some l ≡ o)
          × ((there ≡ false) ⊎ ((j : LedgerSpecifier x) × (i ≡ ok j)))
    after_hash_sound there (unexpected e) i o h = absurd (cc)
    after_hash_sound true (ok l) (ok j) o h = (l, refl, ap (λ p. p.1.1) h, inr (j, refl))
    after_hash_sound true (ok l) (unexpected e) o h = absurd (cc)
    after_hash_sound false (ok l) i o h = (l, refl, ap (λ p. p.1.1) h, inl refl)

    parse_ledger_complete :
        (o : Option (LedgerSpecifier x))
        → ClioSelects (root_child root (str "ledger_hash")) (root_child root (str "ledger_index")) o
        → parse_ledger x clio keep (root, none) ≡ (success, (root, o))
    unfolding parse_ledger
    parse_ledger_complete _ (by_none a b) = rw (a, b) refl
    parse_ledger_complete _ (by_hash l h b) =
        let (e, here) = hash_complete (root_child root (str "ledger_hash")) l h in
        rw (here, e, b) refl
    parse_ledger_complete _ (by_both l j h i) =
        let (e, here) = hash_complete (root_child root (str "ledger_hash")) l h in
        let (f, there) = index_complete (root_child root (str "ledger_index")) j i in
        rw (here, e, there, f) refl
    parse_ledger_complete _ (by_index l a i) =
        let (f, there) = index_complete (root_child root (str "ledger_index")) l i in
        rw (a, there, f) refl

    parse_ledger_sound :
        (o : Option (LedgerSpecifier x))
        → parse_ledger x clio keep (root, none) ≡ (success, (root, o))
        → ClioSelects (root_child root (str "ledger_hash")) (root_child root (str "ledger_index")) o
    unfolding parse_ledger
    parse_ledger_sound o h =
        let hashed = root_child root (str "ledger_hash") in
        let index = root_child root (str "ledger_index") in
        elim (Bool-cases (present hashed)) [
          | inl here ↦
              (let h = rw here at h in
                let (l, e, same, beside) = after_hash_sound _ _ _ o h in
                let named = IsHash-value hashed.key hashed.value l e in
                subst (ClioSelects hashed index) same (elim beside [
                  | inl absent ↦ by_hash l named absent
                  | inr (j, f) ↦ by_both l j named (index_sound index.key index.value j f)
                ]))
          | inr a ↦ elim (Bool-cases (present index)) [
            | inl there ↦
                (let h = rw (a, there) at h in
                  let (l, e, same) = stored_sound _ o h in
                  subst (ClioSelects hashed index) same
                    (by_index l a (index_sound index.key index.value l e)))
            | inr b ↦
                (let h = rw (a, b) at h in
                  let same : none ≡ o = ap (λ p. p.1.1) h in
                  subst (ClioSelects hashed index) same (by_none a b))
          ]
        ]

    -- On Clio the field that selects a ledger succeeds on an input that holds none, and leaves `o`
    -- there, exactly in these cases: neither `ledger_hash` nor `ledger_index` is there, and `o` is no
    -- ledger; `ledger_hash` is a hash of 256 bits, which is `o`, and `ledger_index`, where it is there,
    -- is a number of 32 bits, a numeral for one or the word validated; or that alone is there, and `o`
    -- is what it names.
    pub parse_ledger_iff :
        (o : Option (LedgerSpecifier x))
        → (parse_ledger x clio keep (root, none) ≡ (success, (root, o)))
          ↔ ClioSelects
              (root_child root (str "ledger_hash"))
              (root_child root (str "ledger_index"))
              o
    parse_ledger_iff o = (parse_ledger_sound o, parse_ledger_complete o)
