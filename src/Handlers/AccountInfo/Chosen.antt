-- ===== src/Handlers/AccountInfo/Chosen.antt =====
-- include/rpcspec/handlers/account_info: the account that a request is about.
use rpc_spec.Prelude.{
  ◌≡◌, ◌≢◌, ◌⊎◌, refl, sym, ap, Text, subst, ◌∙◌, inl, inr, true, false, Option, none, some, List,
  [], ◌∷◌, ◌++◌, str, text_eq_iff, arith,
}
use rpc_spec.Prelude.Strings.{text_eq}
use rpc_spec.Json.{Value}
use rpc_spec.Status.{Server, clio, xrpld, success, ok}
use rpc_spec.View.{FieldView, ObjectView, present, root_child}
use rpc_spec.Field.{run_processors, call_if_processor, skips_field}
use rpc_spec.Combinators.{
  if_server_clio, if_server_xrpld, server_conditional, verify_inners, with_custom_error_verify,
}
use rpc_spec.Validators.Presence.{required}
use rpc_spec.Validators.Libxrpl.{Libxrpl}
use rpc_spec.Converters.{account_id}
use rpc_spec.Converters.Deferred.{Deferred, deferred_account, deferred_account_id}
use rpc_spec.Ledger.{ledger_selector, parse_ledger}
use rpc_spec.Ledger.Selector.{parse_ledger-root, parse_ledger-get}
use rpc_spec.Spec.{extend}
use rpc_spec.Spec.Override.{effective, put_all, put}
use rpc_spec.Typed.{TypedField, bound, parse, parse_one, apply_defaults, if_absent_skips}
use rpc_spec.Typed.Laws.{parse_all}
use rpc_spec.Typed.Stored.{Settled, next-success, parse_into-Settled, parse-Settled}
use rpc_spec.Typed.Frame.{parse_all-root_child}
use rpc_spec.Handlers.{ledger_field}
use rpc_spec.Handlers.Limits.{front, back}
use rpc_spec.Handlers.AccountInfo.{Input, ident_field, account_field, input_spec, input_spec_v2}

module _ (server : Server) (x : Libxrpl) (empty : Input x) (root : ObjectView) where
  abbrev account_view : FieldView
  account_view = root_child root (str "account")

  abbrev ident_view : FieldView
  ident_view = root_child root (str "ident")

  -- The account of a request: that of `account`, or of `ident` where there is no `account`. Only Clio
  -- takes a request with neither.
  pub data NamesAccount (a : Deferred x.AccountId) : Type 0 where
    by_account :
        present account_view ≡ true
        → deferred_account_id server x account_view ≡ ok a
        → NamesAccount a
    by_ident :
        present account_view ≡ false
        → present ident_view ≡ true
        → deferred_account_id server x ident_view ≡ ok a
        → NamesAccount a
    by_default :
        server ≡ clio
        → present account_view ≡ false
        → present ident_view ≡ false
        → a ≡ empty.account
        → NamesAccount a

deferred_value :
    (s : Server) (x : Libxrpl) (k : Text) (o : Option Value) (a : Deferred x.AccountId)
    → deferred_account_id s x (record { key = k; value = o }) ≡ ok a
    → present (record { key = k; value = o }) ≡ true
unfolding deferred_account_id deferred_account account_id
deferred_value clio x k none a h = absurd (cc)
deferred_value xrpld x k none a h = absurd (cc)
deferred_value s x k (some v) a h = refl

deferred_present :
    (s : Server) (x : Libxrpl) (v : FieldView) (a : Deferred x.AccountId)
    → deferred_account_id s x v ≡ ok a
    → present v ≡ true
deferred_present s x v a h = deferred_value s x v.key v.value a h

module _ (x : Libxrpl) where
  settled_ident :
      (server : Server) (empty : Input x) (root r : ObjectView) (a w : Deferred x.AccountId)
      → r ≡ root
      → present (root_child root (str "account")) ≡ false
      → deferred_account_id server x (root_child r (str "ident")) ≡ ok w
      → a ≡ w
      → NamesAccount server x empty root a
  settled_ident server empty root r a w same absent conv e =
      let here : deferred_account_id server x (root_child root (str "ident")) ≡ ok a =
        subst (λ z. deferred_account_id server x (root_child z (str "ident")) ≡ ok w) same conv
        ∙ ap ok (sym e) in
      by_ident absent (deferred_present server x _ a here) here

  -- On xrpld the items of `ident` let a field pass that is there, as it is.
  ident_run :
      (k : Text) (o : Option Value)
      → (run_processors (ident_field xrpld x).items (record { key = k; value = o })).0 ≡ success
      → (present (record { key = k; value = o }) ≡ true)
        × ((run_processors (ident_field xrpld x).items (record { key = k; value = o })).1
            ≡ record { key = k; value = o })
  unfolding if_server_clio if_server_xrpld server_conditional run_processors call_if_processor
      verify_inners with_custom_error_verify required
  ident_run k none h = absurd (cc)
  ident_run k (some v) h = (refl, refl)

  -- What `ident` settles on, where there is no `account`.
  ident-NamesAccount :
      (server : Server) (empty : Input x) (root : ObjectView) (u : ObjectView × Input x)
      (a : Deferred x.AccountId)
      → u.0 ≡ root
      → u.1.account ≡ empty.account
      → present (root_child root (str "account")) ≡ false
      → Settled (λ i. i.account) (ident_field server x) u a
      → NamesAccount server x empty root a
  unfolding skips_field if_server_clio if_server_xrpld server_conditional if_absent_skips
      run_processors call_if_processor verify_inners with_custom_error_verify required
      apply_defaults
  ident-NamesAccount clio empty root (r, out) a same kept absent (inl (skipped, e)) = absurd (cc)
  ident-NamesAccount clio empty root (r, out) a same kept absent
        (inr (runs, good, inl (none_there, e))) =
      by_default refl absent
        (subst (λ z. present (root_child z (str "ident")) ≡ false) same none_there) (e ∙ kept)
  ident-NamesAccount clio empty root (r, out) a same kept absent
        (inr (runs, good, inr (w, conv, e))) =
      settled_ident clio empty root r a w same absent conv e
  ident-NamesAccount xrpld empty root (r, out) a same kept absent (inl (skipped, e)) =
      let gone = ap (λ z. present (root_child z (str "account"))) same ∙ absent in
      absurd (ground arith)
  ident-NamesAccount xrpld empty root (r, out) a same kept absent
        (inr (runs, good, inl (none_there, e))) =
      let (there, left) =
        ident_run (root_child r (str "ident")).key (root_child r (str "ident")).value good in
      let none_there = sym (ap present left) ∙ none_there in absurd (cc)
  ident-NamesAccount xrpld empty root (r, out) a same kept absent
        (inr (runs, good, inr (w, conv, e))) =
      let (there, left) =
        ident_run (root_child r (str "ident")).key (root_child r (str "ident")).value good in
      settled_ident xrpld empty root r a w same absent
        (sym (ap (deferred_account_id xrpld x) left) ∙ conv) e

  -- The two fields before `account`.
  abbrev first_two : Server → List (TypedField (Input x))
  first_two server =
      ledger_field server x (λ l out. record out { ledger = l }) ∷ bound (ident_field server x) ∷ []

  ident_key : str "ident" ≢ str "account"
  unfolding text_eq str
  ident_key h = let e = (text_eq_iff (str "ident") (str "account")).1 h in absurd (cc)

  choose :
      (server : Server) (empty : Input x) (root r : ObjectView) (out : Input x)
      (a : Deferred x.AccountId) (u w : ObjectView × Input x)
      → u.0 ≡ root
      → u.1.account ≡ empty.account
      → root_child r (str "account") ≡ root_child root (str "account")
      → w.1.account ≡ out.account
      → Settled (λ i. i.account) (ident_field server x) u w.1.account
      → Settled (λ i. i.account) (account_field server x) (r, out) a
      → NamesAccount server x empty root a
  unfolding skips_field run_processors apply_defaults
  choose server empty root r out a u w same kept view last ident (inl (skipped, e)) = absurd (cc)
  choose server empty root r out a u w same kept view last ident
        (inr (runs, good, inl (absent, e))) =
      ident-NamesAccount server empty root u a same kept (sym (ap present view) ∙ absent)
        (subst (λ z. Settled (λ i. i.account) (ident_field server x) u z) (last ∙ sym e) ident)
  choose server empty root r out a u w same kept view last ident
        (inr (runs, good, inr (b, conv, e))) =
      let here = sym (ap (deferred_account_id server x) view) ∙ conv ∙ ap ok (sym e) in
      by_account (deferred_present server x _ a here) here

  account-NamesAccount :
      (server : Server) (empty : Input x) (root : ObjectView) (t : ObjectView × Input x)
      (a : Deferred x.AccountId)
      → parse_all (first_two server) (root, empty) ≡ (success, t)
      → Settled (λ i. i.account) (account_field server x) t a
      → NamesAccount server x empty root a
  unfolding parse_all parse_one ledger_selector
  account-NamesAccount server empty root (r, out) a e settled =
      let s = parse_ledger x server (λ l (o : Input x). record o { ledger = l }) (root, empty) in
      let (u, first, rest) =
        next-success s (parse_all (bound (ident_field server x) ∷ [])) (ap (λ o. o.0) e) in
      let (w, second, done) =
        next-success (parse_one (bound (ident_field server x)) u) (parse_all [])
          (ap (λ o. o.0) (sym rest ∙ e)) in
      let last : w ≡ (r, out) = ap (λ o. o.1) (sym done ∙ sym rest ∙ e) in
      let same_root : u.0 ≡ root =
        ap (λ o. o.1.0) (sym first)
        ∙ parse_ledger-root x (λ l (o : Input x). record o { ledger = l }) root empty server in
      let kept : u.1.account ≡ empty.account =
        ap (λ o. o.1.1.account) (sym first)
        ∙ parse_ledger-get x (λ l (o : Input x). record o { ledger = l }) root empty
            (λ o. o.account) (λ l. refl) server in
      let view : root_child r (str "account") ≡ root_child root (str "account") =
        ap (λ o. root_child o.1.0 (str "account")) (sym e)
        ∙ parse_all-root_child (str "account") (first_two server) (root, empty)
            (
              (λ s.
                  ap (λ z. root_child z (str "account"))
                    (parse_ledger-root x (λ l (o : Input x). record o { ledger = l }) s.0 s.1
                      server)),
              (ident_key, tt),
            ) in
      let ident = parse_into-Settled (λ i. i.account) (ident_field server x) u.0 u.1 w second in
      choose server empty root r out a u w same_root kept view (ap (λ z. z.1.account) last) ident
        settled

  -- The account of an `account_info` request that is parsed, by either version of the API: that of
  -- `account`, and else that of `ident`. xrpld takes no request with neither, and Clio leaves the
  -- account then as the input has it.
  pub parse-NamesAccount :
      (server : Server) (empty : Input x) (root : ObjectView) (input : Input x)
      → ((parse empty (input_spec server x) root).0 ≡ ok input)
        ⊎ ((parse empty (input_spec_v2 server x) root).0 ≡ ok input)
      → NamesAccount server x empty root input.account
  unfolding effective put_all put text_eq str input_spec input_spec_v2 extend ledger_selector
  parse-NamesAccount server empty root input (inl h) =
      let fs = input_spec server x in
      let (t, before, settled) =
        parse-Settled (λ i. i.account) (account_field server x) empty fs (first_two server)
          (back 3 fs) root input refl ((λ v out. refl), ((λ v out. refl), (tt, (tt, tt)))) h in
      account-NamesAccount server empty root t input.account before settled
  parse-NamesAccount server empty root input (inr h) =
      let fs = input_spec_v2 server x in
      let (t, before, settled) =
        parse-Settled (λ i. i.account) (account_field server x) empty fs (first_two server)
          (back 7 fs ++ back 4 (front 7 fs)) root input refl
          ((λ v out. refl), ((λ v out. refl), (tt, (tt, tt)))) h in
      account-NamesAccount server empty root t input.account before settled
