-- ===== src/Ledger/Indices.antt =====
-- include/rpcspec/Ledger.hpp: the fields that name a ledger by its state or its number, on xrpld.
use rpc_spec.Prelude.{
  ℕ, ◌≤◌, ◌≡◌, refl, ap, subst, Text, true, false, Option, none, some, [], ◌∷◌, all, str,
  text_eq_iff, text_eq-false, is_empty, arith, Bool-cases, inl, inr,
}
use rpc_spec.Prelude.Strings.{text_eq}
use rpc_spec.Json.{Value, string, int64, uint64}
use rpc_spec.Status.{Status, ok}
use rpc_spec.View.{FieldView, is_string, is_uint32, as_uint32, uint32_max}
use rpc_spec.Validators.Chars.{is_digit, from_chars, all_read, drop_plus, digits_value}
use rpc_spec.Validators.Chars.Numerals.{IsNumeral, from_chars_iff}
use rpc_spec.Validators.Accounts.Loops.{HasText}
use rpc_spec.Validators.Libxrpl.{Libxrpl}
use rpc_spec.Ledger.{
  validated, current, closed, LedgerSpecifier, shortcut, sequence, sequence_or, xrpld_index_text,
  xrpld_ledger_from_index, is_string_or_integer,
}

module _ (x : Libxrpl) where
  -- The texts that name a ledger by its state or its number.
  pub data IndexText (s : Text) : LedgerSpecifier x → Type 0 where
    current_text : s ≡ str "current" → IndexText s (shortcut current)
    empty_text : s ≡ [] → IndexText s (shortcut current)
    validated_text : s ≡ str "validated" → IndexText s (shortcut validated)
    closed_text : s ≡ str "closed" → IndexText s (shortcut closed)
    numeral :
        (n : ℕ)
        → IsNumeral (drop_plus s)
        → digits_value 0 (drop_plus s) ≡ n
        → n ≤ uint32_max
        → IndexText s (sequence n)

  sequence_or_sound :
      (e : Status) (o : Option ℕ) (l : LedgerSpecifier x)
      → sequence_or x e o ≡ ok l
      → (n : ℕ) × (o ≡ some n) × (sequence n ≡ l)
  sequence_or_sound e none l h = absurd (cc)
  sequence_or_sound e (some n) l h = (n, refl, (let same : sequence n ≡ l = cc in same))

  -- No numeral is one of the words, or empty.
  numeral_other :
      (s t : Text)
      → IsNumeral (drop_plus s)
      → all is_digit (drop_plus t) ≡ false
      → text_eq s t ≡ false
  numeral_other s t (some_digits, digits) other =
      text_eq-false s t (λ e. (let same = ap (λ z. all is_digit (drop_plus z)) e in absurd (cc)))

  numeral_not_empty : (s : Text) → IsNumeral (drop_plus s) → is_empty s ≡ false
  numeral_not_empty [] (some_digits, digits) = absurd (some_digits refl)
  numeral_not_empty (c ∷ s) h = refl

  xrpld_index_text_complete :
      (e : Status) (s : Text) (l : LedgerSpecifier x)
      → IndexText s l
      → xrpld_index_text x e s ≡ ok l
  unfolding str text_eq
  xrpld_index_text_complete e s _ (current_text h) = rw h refl
  xrpld_index_text_complete e s _ (empty_text h) = rw h refl
  xrpld_index_text_complete e s _ (validated_text h) = rw h refl
  xrpld_index_text_complete e s _ (closed_text h) = rw h refl
  xrpld_index_text_complete e s _ (numeral n d v le) =
      rw
        (
          numeral_other s (str "current") d refl,
          numeral_not_empty s d,
          numeral_other s (str "validated") d refl,
          numeral_other s (str "closed") d refl,
          (from_chars_iff uint32_max n (drop_plus s)).1 (d, v, le),
        )
        refl

  xrpld_index_text_sound :
      (e : Status) (s : Text) (l : LedgerSpecifier x)
      → xrpld_index_text x e s ≡ ok l
      → IndexText s l
  xrpld_index_text_sound e s l h = elim (Bool-cases (text_eq s (str "current"))) [
    | inl is ↦
        (let h = rw is at h in
          subst (IndexText s) (let same : shortcut current ≡ l = cc in same)
            (current_text ((text_eq_iff s (str "current")).0 is)))
    | inr n1 ↦ elim (Bool-cases (is_empty s)) [
      | inl is ↦
          (let h = rw (n1, is) at h in
            subst (IndexText s) (let same : shortcut current ≡ l = cc in same)
              (empty_text (empty s is)))
      | inr n2 ↦ elim (Bool-cases (text_eq s (str "validated"))) [
        | inl is ↦
            (let h = rw (n1, n2, is) at h in
              subst (IndexText s) (let same : shortcut validated ≡ l = cc in same)
                (validated_text ((text_eq_iff s (str "validated")).0 is)))
        | inr n3 ↦ elim (Bool-cases (text_eq s (str "closed"))) [
          | inl is ↦
              (let h = rw (n1, n2, n3, is) at h in
                subst (IndexText s) (let same : shortcut closed ≡ l = cc in same)
                  (closed_text ((text_eq_iff s (str "closed")).0 is)))
          | inr n4 ↦
              (let h = rw (n1, n2, n3, n4) at h in
                let (n, read, same) =
                  sequence_or_sound e (all_read (from_chars uint32_max (drop_plus s))) l h in
                let (d, v, le) = (from_chars_iff uint32_max n (drop_plus s)).0 read in
                subst (IndexText s) same (numeral n d v le))
        ]
      ]
    ]
  ]
    where
      empty : (t : Text) → is_empty t ≡ true → t ≡ []
      empty [] h = refl
      empty (c ∷ t) h = absurd (cc)

  -- The fields that do so.
  pub data Index (v : FieldView) : LedgerSpecifier x → Type 0 where
    by_number : (n : ℕ) → is_uint32 v ≡ true → as_uint32 v ≡ some n → Index v (sequence n)
    by_text : (s : Text) (l : LedgerSpecifier x) → HasText v s → IndexText s l → Index v l

  uint32_string :
      (k : Text) (o : Option Value)
      → is_uint32 (record { key = k; value = o }) ≡ true
      → (is_string (record { key = k; value = o }) ≡ false)
        × (is_string_or_integer x (record { key = k; value = o }) ≡ true)
  uint32_string k none h = absurd (cc)
  uint32_string k (some (int64 i)) h = (refl, refl)
  uint32_string k (some (uint64 n)) h = (refl, ground arith)
  uint32_string k (some _) h = absurd (cc)

  pub Index-is_string_or_integer :
      (v : FieldView) (l : LedgerSpecifier x) → Index v l → is_string_or_integer x v ≡ true
  Index-is_string_or_integer v _ (by_number n is e) = (uint32_string v.key v.value is).1
  Index-is_string_or_integer v l (by_text s _ h t) = rw h refl

  pub xrpld_ledger_from_index_complete :
      (v : FieldView) (l : LedgerSpecifier x) → Index v l → xrpld_ledger_from_index x v ≡ ok l
  unfolding xrpld_ledger_from_index
  xrpld_ledger_from_index_complete v _ (by_number n is e) =
      rw ((uint32_string v.key v.value is).0, is, e) refl
  xrpld_ledger_from_index_complete v l (by_text s _ h t) = rw h (xrpld_index_text_complete _ s l t)

  number_value :
      (k : Text) (o : Value) (l : LedgerSpecifier x)
      → is_string (record { key = k; value = some o }) ≡ false
      → xrpld_ledger_from_index x (record { key = k; value = some o }) ≡ ok l
      → Index (record { key = k; value = some o }) l
  unfolding xrpld_ledger_from_index
  number_value k o l t h = elim (Bool-cases (is_uint32 (record { key = k; value = some o }))) [
    | inl is ↦
        (let h = rw (t, is) at h in
          let (n, read, same) =
            sequence_or_sound _ (as_uint32 (record { key = k; value = some o })) l h in
          subst (Index (record { key = k; value = some o })) same (by_number n is read))
    | inr other ↦ (let h = rw (t, other) at h in absurd (cc))
  ]

  Index-value :
      (k : Text) (o : Option Value) (l : LedgerSpecifier x)
      → xrpld_ledger_from_index x (record { key = k; value = o }) ≡ ok l
      → Index (record { key = k; value = o }) l
  unfolding xrpld_ledger_from_index
  Index-value k none l h = absurd (cc)
  Index-value k (some (string s)) l h = by_text s l refl (xrpld_index_text_sound _ s l h)
  Index-value k (some (int64 i)) l h = number_value k (int64 i) l refl h
  Index-value k (some (uint64 n)) l h = number_value k (uint64 n) l refl h
  Index-value k (some _) l h = absurd (cc)

  pub xrpld_ledger_from_index_sound :
      (v : FieldView) (l : LedgerSpecifier x) → xrpld_ledger_from_index x v ≡ ok l → Index v l
  xrpld_ledger_from_index_sound v l h = Index-value v.key v.value l h
