-- ===== src/LedgerTypes/Lookup.antt =====
-- include/rpcspec/LedgerTypes.hpp: what a lookup by name finds.
use rpc_spec.Prelude.{
  ℕ, zero, suc, ◌+◌, ◌≡◌, ◌≢◌, ◌⊎◌, inl, inr, refl, sym, ap, subst, ◌∙◌, Text, Bool, true, false,
  not, ◌&&◌, ◌||◌, none, some, List, [], ◌∷◌, get_elem?, ◌==◌, arith, text_eq_iff, Bool-cases,
  Option-cases,
}
use rpc_spec.Prelude.Strings.{text_eq}
use rpc_spec.LedgerTypes.{
  LedgerTypeEntry, LedgerTypeInfo, ledger_types_table, info_of, find_row, ledger_type_info_in,
  ledger_type_info_from_str, lower_text,
}
use rpc_spec.Validators.Chars.{to_lower}

-- A name of one row is a name of the other.
clash : LedgerTypeEntry → LedgerTypeEntry → Bool
clash d e =
    text_eq d.rpc_name e.rpc_name
    || text_eq (lower_text d.rpc_name) (lower_text e.name)
    || text_eq (lower_text d.name) (lower_text e.name)

-- No row from the `j`-th on but the `i`-th has a name of `e`.
clean_from : ℕ → LedgerTypeEntry → ℕ → List LedgerTypeEntry → Bool
unfolding clash
clean_from j e i [] = true
clean_from j e i (d ∷ rest) = (j == i || not (clash d e)) && clean_from (j + 1) e i rest

-- No name is one of two rows.
consistent_from : List LedgerTypeEntry → ℕ → List LedgerTypeEntry → Bool
unfolding clean_from
consistent_from table i [] = true
consistent_from table i (e ∷ rest) = clean_from 0 e i table && consistent_from table (i + 1) rest

ledger_types_table-consistent : consistent_from ledger_types_table 0 ledger_types_table ≡ true
unfolding consistent_from clean_from clash text_eq to_lower ledger_types_table
ledger_types_table-consistent = refl

clean_from-get_elem? :
    (j i k : ℕ) (e d : LedgerTypeEntry) (rest : List LedgerTypeEntry)
    → clean_from j e i rest ≡ true
    → get_elem? rest k ≡ some d
    → (j + k ≡ i) ⊎ (clash d e ≡ false)
unfolding clean_from
clean_from-get_elem? j i k e d [] h g = cc
clean_from-get_elem? j i zero e d (c ∷ rest) h g =
    let same : c ≡ d = ground arith in
    elim (Bool-cases (j == i)) [
      | inl here ↦ inl (ground arith)
      | inr there ↦ inr (rw (sym same) (ground arith))
    ]
clean_from-get_elem? j i (suc k) e d (c ∷ rest) h g =
    elim (clean_from-get_elem? (j + 1) i k e d rest (ground arith) g) [
      | inl same ↦ inl (omega (arith, same))
      | inr apart ↦ inr apart
    ]

consistent_from-get_elem? :
    (table : List LedgerTypeEntry) (i k : ℕ) (e : LedgerTypeEntry) (rest : List LedgerTypeEntry)
    → consistent_from table i rest ≡ true
    → get_elem? rest k ≡ some e
    → clean_from 0 e (i + k) table ≡ true
unfolding consistent_from
consistent_from-get_elem? table i k e [] h g = cc
consistent_from-get_elem? table i zero e (c ∷ rest) h g =
    let same : c ≡ e = ground arith in
    let first : clean_from 0 c i table ≡ true = ground arith in
    subst (λ n. clean_from 0 e n table ≡ true) (let z : i ≡ i + 0 = omega arith in z)
      (subst (λ z. clean_from 0 z i table ≡ true) same first)
consistent_from-get_elem? table i (suc k) e (c ∷ rest) h g =
    subst (λ n. clean_from 0 e n table ≡ true) (let z : (i + 1) + k ≡ i + suc k = omega arith in z)
      (consistent_from-get_elem? table (i + 1) k e rest (ground arith) g)

-- What a lookup gives is a row with the key.
find_row-some :
    (key : LedgerTypeEntry → Text) (s : Text) (table : List LedgerTypeEntry) (x : LedgerTypeInfo)
    → find_row key s table ≡ some x
    → (j : ℕ) × (d : LedgerTypeEntry) × (get_elem? table j ≡ some d) × (key d ≡ s) × (info_of d ≡ x)
unfolding find_row
find_row-some key s [] x h = cc
find_row-some key s (c ∷ table) x h = elim (Bool-cases (text_eq (key c) s)) [
  | inl same ↦ (0, c, refl, (text_eq_iff (key c) s).0 same, ground arith)
  | inr other ↦
      let (j, d, g, k, e) = find_row-some key s table x (ground arith) in (suc j, d, g, k, e)
]

-- A lookup that fails fails for each row.
find_row-none :
    (key : LedgerTypeEntry → Text) (s : Text) (table : List LedgerTypeEntry) (i : ℕ)
    (e : LedgerTypeEntry)
    → find_row key s table ≡ none
    → get_elem? table i ≡ some e
    → key e ≢ s
unfolding find_row
find_row-none key s [] i e h g = λ k. cc
find_row-none key s (c ∷ table) zero e h g =
    λ k. ground (arith, text_eq_iff (key c) s, text_eq_iff (key e) s)
find_row-none key s (c ∷ table) (suc i) e h g = find_row-none key s table i e (ground arith) g

-- The text is the row's name for requests, or its canonical one but for the case of letters.
abbrev pub IsNameOf : Text → LedgerTypeEntry → Type 0
IsNameOf s e = (s ≡ e.rpc_name) ⊎ (lower_text s ≡ lower_text e.name)

clash-rpc_name :
    (s : Text) (d e : LedgerTypeEntry) → d.rpc_name ≡ s → IsNameOf s e → clash d e ≡ true
unfolding clash
clash-rpc_name s d e a (inl b) = ground (arith, (text_eq_iff d.rpc_name e.rpc_name).1 (a ∙ b))
clash-rpc_name s d e a (inr b) =
    let same = (text_eq_iff (lower_text d.rpc_name) (lower_text e.name)).1 (ap lower_text a ∙ b) in
    ground (arith, same)

clash-name : (d e : LedgerTypeEntry) → lower_text d.name ≡ lower_text e.name → clash d e ≡ true
unfolding clash
clash-name d e a =
    let same = (text_eq_iff (lower_text d.name) (lower_text e.name)).1 a in ground (arith, same)

module _ (table : List LedgerTypeEntry) (consistent : consistent_from table 0 table ≡ true) where
  clash-same :
      (i j : ℕ) (e d : LedgerTypeEntry)
      → get_elem? table i ≡ some e
      → get_elem? table j ≡ some d
      → clash d e ≡ true
      → d ≡ e
  clash-same i j e d g k c =
      elim (clean_from-get_elem? 0 i j e d table
        (subst (λ n. clean_from 0 e n table ≡ true) (let z : 0 + i ≡ i = omega arith in z)
          (consistent_from-get_elem? table 0 i e table consistent g))
        k) [
          | inl same ↦
              let j_i : j ≡ i = omega (arith, same) in
              let both : some d ≡ some e = sym k ∙ ap (get_elem? table) j_i ∙ g in cc both
          | inr apart ↦ absurd (ground (arith, c, apart))
        ]

  -- A name for requests that the first map does not have is no such name.
  canonical :
      (i : ℕ) (e : LedgerTypeEntry) (s : Text)
      → get_elem? table i ≡ some e
      → IsNameOf s e
      → find_row (λ r. r.rpc_name) s table ≡ none
      → lower_text s ≡ lower_text e.name
  canonical i e s g (inl a) absent =
      absurd (find_row-none (λ r. r.rpc_name) s table i e absent g (sym a))
  canonical i e s g (inr b) absent = b

  by_name :
      (i : ℕ) (e : LedgerTypeEntry) (s : Text)
      → get_elem? table i ≡ some e
      → lower_text s ≡ lower_text e.name
      → find_row (λ r. lower_text r.name) (lower_text s) table ≡ some (info_of e)
  by_name i e s g b = elim (Option-cases (find_row (λ r. lower_text r.name) (lower_text s) table)) [
    | inl absent ↦
        absurd (find_row-none (λ r. lower_text r.name) (lower_text s) table i e absent g (sym b))
    | inr (x, found) ↦
        let (j, d, k, name, info) =
          find_row-some (λ r. lower_text r.name) (lower_text s) table x found in
        found ∙ ap some (sym info ∙ ap info_of (clash-same i j e d g k (clash-name d e (name ∙ b))))
  ]

  ledger_type_info_in-IsNameOf :
      (i : ℕ) (e : LedgerTypeEntry) (s : Text)
      → get_elem? table i ≡ some e
      → IsNameOf s e
      → ledger_type_info_in table s ≡ some (info_of e)
  unfolding ledger_type_info_in
  ledger_type_info_in-IsNameOf i e s g n =
      elim (Option-cases (find_row (λ r. r.rpc_name) s table)) [
        | inr (x, found) ↦
            let (j, d, k, name, info) = find_row-some (λ r. r.rpc_name) s table x found in
            rw found (
              ap some
                (sym info ∙ ap info_of (clash-same i j e d g k (clash-rpc_name s d e name n))))
        | inl absent ↦ rw absent (by_name i e s g (canonical i e s g n absent))
      ]

-- For each row of the table, looking up its name for requests, or its canonical name in any case of
-- letters, gives the type and the category of that row.
pub ledger_type_info_from_str-IsNameOf :
    (i : ℕ) (e : LedgerTypeEntry) (s : Text)
    → get_elem? ledger_types_table i ≡ some e
    → IsNameOf s e
    → ledger_type_info_from_str s ≡ some (info_of e)
unfolding ledger_type_info_from_str
ledger_type_info_from_str-IsNameOf i e s g n =
    ledger_type_info_in-IsNameOf ledger_types_table ledger_types_table-consistent i e s g n
