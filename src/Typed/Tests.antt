-- ===== src/Typed/Tests.antt =====
-- include/rpcspec/Typed.hpp: a spec with two bound fields on small requests, and the theorems on
-- typed specs applied.
use rpc_spec.Prelude.{
  ◌++◌, ℕ, ◌<◌, ◌≡◌, ◌↔◌, ◌≢◌, text_eq_iff, refl, Text, true, Option, none, some, List, [], ◌∷◌,
  arith, All,
}
use rpc_spec.Prelude.Strings.{text_eq}
use rpc_spec.Json.{string, boolean, object, end, member, find, assign}
use rpc_spec.Status.{Result, ok, unexpected, status, invalid_params, success, xrpld}
use rpc_spec.View.{ObjectView, as_uint32, as_string, root_child, put_root}
use rpc_spec.Field.{run_processors, call_if_processor, skips_field}
use rpc_spec.Combinators.{default_to, requirement}
use rpc_spec.Validators.Presence.{required}
use rpc_spec.Spec.{
  for_each_effective_field, walk, build_override_plan, plan_from, is_first, dispatch, last_index,
}
use rpc_spec.Spec.Override.{effective, put, put_all}
use rpc_spec.Typed.Stored.{Settled, parse-Settled}
use rpc_spec.Typed.{
  BoundField, TypedField, bound, field_key, parse, parsed, parse_one, parse_into, finish_field,
  apply_defaults, if_absent, distinct_bound_member_count,
}
use rpc_spec.Typed.Laws.{parse_all, parse-parse_all}
use rpc_spec.Typed.Coverage.{binds, InRange, distinct_bound_member_count_iff}
use rpc_spec.Typed.Frame.{parse-root_child}

pub record Input : Type 0 where
  pub limit : ℕ
  pub account : Text

abbrev or_invalid {ℓ} : {A : Type ℓ} → Option A → Result A
or_invalid (some a) = ok a
or_invalid none = unexpected (status invalid_params)

abbrev limit_key : Text
limit_key = 108 ∷ []

abbrev account_key : Text
account_key = 97 ∷ []

abbrev limit_field : BoundField Input
limit_field = record {
  ValueType = ℕ;
  key = limit_key;
  slot = 0;
  store = λ n input. record input { limit = n };
  conv = λ v. or_invalid (as_uint32 v);
  items = default_to ℕ 200 ∷ [];
}

abbrev account_field : BoundField Input
account_field = record {
  ValueType = Text;
  key = account_key;
  slot = 1;
  store = λ s input. record input { account = s };
  conv = λ v. or_invalid (as_string v);
  items = requirement Text (required xrpld) ∷ [];
}

-- The limit is read only without a marker.
abbrev guarded_limit : BoundField Input
guarded_limit = record limit_field { items = default_to ℕ 200 ∷ if_absent ℕ (109 ∷ []) ∷ [] }

abbrev empty_input : Input
empty_input = record { limit = 0; account = [] }

abbrev sample_fields : List (TypedField Input)
sample_fields = bound limit_field ∷ bound account_field ∷ []

abbrev sample_request : ObjectView
sample_request = record { document = object (member account_key (string (114 ∷ [])) end) }

abbrev with_marker : ObjectView
with_marker = record { document = object (member (109 ∷ []) (boolean true) end) }

-- The account is read from the request, and the limit is the default one.
parse_sample :
    (parse empty_input sample_fields sample_request).0
    ≡ ok (record { limit = 200; account = 114 ∷ [] })
unfolding parse for_each_effective_field walk build_override_plan plan_from is_first dispatch
    last_index text_eq parse_one parse_into finish_field apply_defaults skips_field run_processors
    call_if_processor required root_child put_root find assign
parse_sample = refl

parse-parse_all_example :
    parse empty_input sample_fields sample_request
    ≡ parsed (parse_all (effective field_key sample_fields) (sample_request, empty_input))
parse-parse_all_example = parse-parse_all empty_input sample_fields sample_request

abbrev limit_only : List (TypedField Input)
limit_only = bound limit_field ∷ []

abbrev limit_only_input : Input
limit_only_input = record { limit = 200; account = [] }

parse-limit_only : (parse empty_input limit_only sample_request).0 ≡ ok limit_only_input
unfolding parse for_each_effective_field walk build_override_plan plan_from is_first dispatch
    last_index text_eq parse_one parse_into finish_field apply_defaults skips_field run_processors
    call_if_processor required root_child put_root find assign
parse-limit_only = refl

sample_fields-InRange : All (InRange 2) sample_fields
sample_fields-InRange = ((λ m e. ground arith), ((λ m e. ground arith), tt))

distinct_bound_member_count_iff_example :
    (distinct_bound_member_count sample_fields ≡ 2)
    ↔ ((m : ℕ) → m < 2 → binds sample_fields m ≡ true)
distinct_bound_member_count_iff_example =
    distinct_bound_member_count_iff 2 sample_fields sample_fields-InRange

sample_fields-effective : effective field_key sample_fields ≡ [] ++ sample_fields
unfolding effective put_all put text_eq
sample_fields-effective = refl

abbrev sample_input : Input
sample_input = record { limit = 200; account = 114 ∷ [] }

abbrev limit_of : Input → ℕ
limit_of input = input.limit

parse-Settled_example :
    (t : ObjectView × Input) × (parse_all [] (sample_request, empty_input) ≡ (success, t))
    × Settled limit_of limit_field t 200
parse-Settled_example =
    parse-Settled limit_of limit_field empty_input sample_fields [] (bound account_field ∷ [])
      sample_request sample_input sample_fields-effective ((λ v out. refl), tt) parse_sample

-- A parse that reads the limit and the account leaves the marker.
parse-root_child_example :
    root_child (parse empty_input sample_fields with_marker).1 (109 ∷ [])
    ≡ root_child with_marker (109 ∷ [])
unfolding text_eq
parse-root_child_example =
    parse-root_child (109 ∷ []) empty_input sample_fields with_marker
      (limit_other, (account_other, tt))
  where
    limit_other : limit_key ≢ 109 ∷ []
    limit_other h = let e = (text_eq_iff limit_key (109 ∷ [])).1 h in absurd (cc)

    account_other : account_key ≢ 109 ∷ []
    account_other h = let e = (text_eq_iff account_key (109 ∷ [])).1 h in absurd (cc)
