-- ===== src/Ledger/Selector.antt =====
-- include/rpcspec/Ledger.hpp: what the field that selects a ledger does to the input, on either server.
use rpc_spec.Prelude.{
  ℕ, ◌≤◌, ◌≡◌, refl, subst, Text, Bool, true, false, Option, none, some, arith, str, text_eq,
  if◌then◌else◌, Bool-cases, inl, inr,
}
use rpc_spec.Prelude.Int.{pos, negsuc}
use rpc_spec.Json.{Value, string, int64, uint64}
use rpc_spec.Status.{Server, clio, xrpld, Status, Result, MaybeError, success, ok, unexpected}
use rpc_spec.View.{
  FieldView, ObjectView, present, as_uint32, root_child, uint32_max, is_uint32, is_int64, is_string,
}
use rpc_spec.Validators.Chars.{c_str, from_chars, all_read}
use rpc_spec.Validators.Chars.Numerals.{from_chars_iff}
use rpc_spec.Validators.Libxrpl.{Libxrpl}
use rpc_spec.Ledger.{
  LedgerSpecifier, sequence, sequence_or, index_text, stored, after_index,
  ledger_specifier_from_index, ledger_specifier_from_hash, xrpld_ledger_from_request, parse_ledger,
}
use rpc_spec.Ledger.Indices.{
  Index, by_number, by_text, numeral, IndexText, current_text, empty_text, validated_text,
  closed_text,
}
use rpc_spec.Ledger.Requests.{
  Selects, by_none, by_legacy_hash, by_legacy_index, by_hash, by_index,
  xrpld_ledger_from_request_iff,
}

module _ (x : Libxrpl) where
  -- A sequence has 32 bits.
  abbrev pub IsSpecifier : LedgerSpecifier x → Type 0
  IsSpecifier (sequence n) = n ≤ uint32_max
  IsSpecifier _ = Unit

  abbrev Good : Result (LedgerSpecifier x) → Type 0
  Good (ok l) = IsSpecifier l
  Good (unexpected e) = Unit

  as_uint32-le :
      (k : Text) (o : Option Value) (n : ℕ)
      → as_uint32 (record { key = k; value = o }) ≡ some n
      → n ≤ uint32_max
  as_uint32-le k none n h = absurd (cc)
  as_uint32-le k (some (uint64 u)) n h = ground arith
  as_uint32-le k (some (int64 (pos m))) n h = ground arith
  as_uint32-le k (some (int64 (negsuc m))) n h = ground arith
  as_uint32-le k (some _) n h = absurd (cc)

  sequence_or-Good :
      (e : Status) (o : Option ℕ)
      → ((n : ℕ) → o ≡ some n → n ≤ uint32_max)
      → Good (sequence_or x e o)
  sequence_or-Good e none h = tt
  sequence_or-Good e (some n) h = h n refl

  index_text-Good : (server : Server) (s : Text) → Good (index_text x server s)
  index_text-Good server s = elim (Bool-cases (text_eq s (str "validated"))) [
    | inl is ↦ rw is tt
    | inr other ↦ rw other (
        sequence_or-Good _ (all_read (from_chars uint32_max s))
          (λ n e. ((from_chars_iff uint32_max n s).0 e).2))
  ]

  number_value :
      (server : Server) (k : Text) (o : Value)
      → is_string (record { key = k; value = some o }) ≡ false
      → Good (ledger_specifier_from_index x server (record { key = k; value = some o }))
  unfolding ledger_specifier_from_index
  number_value server k o t = elim (Bool-cases (is_uint32 (record { key = k; value = some o }))) [
    | inl is ↦ rw is (sequence_or-Good _ _ (λ n e. as_uint32-le k (some o) n e))
    | inr other ↦ elim (Bool-cases (is_int64 (record { key = k; value = some o }))) [
      | inl is ↦ rw (other, is) tt
      | inr neither ↦ rw (other, neither, t) tt
    ]
  ]

  text_value :
      (server : Server) (k : Text) (o : Option Value)
      → Good (ledger_specifier_from_index x server (record { key = k; value = o }))
  unfolding ledger_specifier_from_index
  text_value server k none = tt
  text_value server k (some (string s)) = index_text-Good server s
  text_value server k (some (int64 i)) = number_value server k (int64 i) refl
  text_value server k (some (uint64 n)) = number_value server k (uint64 n) refl
  text_value server k (some _) = tt

  hash_value :
      (server : Server) (k : Text) (o : Option Value)
      → Good (ledger_specifier_from_hash x server (record { key = k; value = o }))
  unfolding ledger_specifier_from_hash
  hash_value server k none = tt
  hash_value server k (some (string s)) = elim (Bool-cases (x.parse_hex 256 (c_str s))) [
    | inl good ↦ rw good tt
    | inr bad ↦ rw bad tt
  ]
  hash_value server k (some _) = tt

  IndexText-IsSpecifier : (s : Text) (l : LedgerSpecifier x) → IndexText x s l → IsSpecifier l
  IndexText-IsSpecifier s _ (current_text h) = tt
  IndexText-IsSpecifier s _ (empty_text h) = tt
  IndexText-IsSpecifier s _ (validated_text h) = tt
  IndexText-IsSpecifier s _ (closed_text h) = tt
  IndexText-IsSpecifier s _ (numeral n d v le) = le

  Index-IsSpecifier : (v : FieldView) (l : LedgerSpecifier x) → Index x v l → IsSpecifier l
  Index-IsSpecifier v _ (by_number n is e) = as_uint32-le v.key v.value n e
  Index-IsSpecifier v l (by_text s _ h t) = IndexText-IsSpecifier s l t

  Selects-IsSpecifier :
      (legacy hashed index : FieldView) (l : LedgerSpecifier x)
      → Selects x legacy hashed index l
      → IsSpecifier l
  Selects-IsSpecifier legacy hashed index l (by_none a b c e) = subst IsSpecifier e tt
  Selects-IsSpecifier legacy hashed index l (by_legacy_hash b c t (s, h, good, e)) =
      subst IsSpecifier e tt
  Selects-IsSpecifier legacy hashed index l (by_legacy_index b c t h) = Index-IsSpecifier legacy l h
  Selects-IsSpecifier legacy hashed index l (by_hash a c (s, h, good, e)) = subst IsSpecifier e tt
  Selects-IsSpecifier legacy hashed index l (by_index a b h) = Index-IsSpecifier index l h

  Good-result :
      (r : Result (LedgerSpecifier x))
      → ((l : LedgerSpecifier x) → r ≡ ok l → IsSpecifier l)
      → Good r
  Good-result (ok l) h = h l refl
  Good-result (unexpected e) h = tt

  module _ {I : Type 0} (store : LedgerSpecifier x → I → I) (root : ObjectView) (out : I) where
    -- The request is as it was. The input is so too, where the parse fails or no field is there, and
    -- otherwise has one ledger stored, by a number of 32 bits if it is one by number.
    pub data Assigned : MaybeError × (ObjectView × I) → Type 0 where
      assigned : (l : LedgerSpecifier x) → IsSpecifier l → Assigned (success, (root, store l out))
      left : (r : MaybeError) → Assigned (r, (root, out))

    stored-Assigned :
        (server : Server) (r : Result (LedgerSpecifier x))
        → Good r
        → Assigned (stored x server store r (root, out))
    stored-Assigned server (ok l) good = assigned l good
    stored-Assigned server (unexpected e) good = left (unexpected e)

    after_index-Good :
        (server : Server) (i : Result (LedgerSpecifier x)) (l : LedgerSpecifier x)
        → IsSpecifier l
        → Good (after_index x server store i (ok l))
    after_index-Good server (ok j) l good = good
    after_index-Good server (unexpected e) l good = tt

    after_hash-Assigned :
        (there : Bool) (r i : Result (LedgerSpecifier x))
        → Good r
        → Assigned (elim r [
          | unexpected e ↦ (unexpected e, (root, out))
          | ok l ↦
              stored x clio store
                (if there then after_index x clio store i (ok l) else ok l)
                (root, out)
        ])
    after_hash-Assigned there (unexpected e) i good = left (unexpected e)
    after_hash-Assigned true (ok l) i good = stored-Assigned clio _ (after_index-Good clio i l good)
    after_hash-Assigned false (ok l) i good = assigned l good

    -- The field that selects a ledger writes nothing to the request, and either leaves the input as it
    -- was or stores one ledger in it, whose number, where it has one, is within 32 bits.
    pub parse_ledger-Assigned :
        (server : Server) → Assigned (parse_ledger x server store (root, out))
    unfolding parse_ledger
    parse_ledger-Assigned xrpld = stored-Assigned xrpld (xrpld_ledger_from_request x root) (
        Good-result _
          (λ l e. Selects-IsSpecifier _ _ _ l ((xrpld_ledger_from_request_iff x root l).0 e)))
    parse_ledger-Assigned clio =
        let hash_view = root_child root (str "ledger_hash") in
        let index_view = root_child root (str "ledger_index") in
        elim (Bool-cases (present hash_view)) [
          | inl hashed ↦
              rw hashed (after_hash-Assigned _ _ _ (hash_value clio hash_view.key hash_view.value))
          | inr other ↦ elim (Bool-cases (present index_view)) [
            | inl there ↦
                rw (other, there)
                  (stored-Assigned clio _ (text_value clio index_view.key index_view.value))
            | inr none_there ↦ rw (other, none_there) (left success)
          ]
        ]

    Assigned-root : (r : MaybeError × (ObjectView × I)) → Assigned r → r.1.0 ≡ root
    Assigned-root _ (assigned l good) = refl
    Assigned-root _ (left r) = refl

    pub parse_ledger-root : (server : Server) → (parse_ledger x server store (root, out)).1.0 ≡ root
    parse_ledger-root server = Assigned-root _ (parse_ledger-Assigned server)

    -- What no store changes, the field leaves.
    pub parse_ledger-get :
        {A : Type 0} (get : I → A)
        → ((l : LedgerSpecifier x) → get (store l out) ≡ get out)
        → (server : Server) → get (parse_ledger x server store (root, out)).1.1 ≡ get out
    parse_ledger-get get h server = go _ (parse_ledger-Assigned server)
      where
        go : (r : MaybeError × (ObjectView × I)) → Assigned r → get r.1.1 ≡ get out
        go _ (assigned l good) = h l
        go _ (left r) = refl
