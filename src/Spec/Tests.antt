-- ===== src/Spec/Tests.antt =====
-- include/rpcspec/RpcSpec.hpp: specs run on small requests, and the theorems on them applied.
use rpc_spec.Prelude.{◌≡◌, ◌≢◌, refl, Text, true, false, none, List, [], ◌∷◌, arith}
use rpc_spec.Prelude.Strings.{text_eq}
use rpc_spec.Prelude.Int.{pos}
use rpc_spec.Json.{null, boolean, int64, object, end, member, find, assign}
use rpc_spec.Status.{success, xrpld, has_value}
use rpc_spec.View.{ObjectView, root_child, put_root, set}
use rpc_spec.Field.{FieldSpec, process_field, run_processors, call_if_processor}
use rpc_spec.Combinators.{requirement, modifier, checker}
use rpc_spec.Validators.Presence.{required, null_as, deprecated}
use rpc_spec.Spec.{
  walk, build_override_plan, plan_from, is_first, dispatch, last_index, process,
  for_each_effective_field,
}
use rpc_spec.Spec.Override.{effective, visit_all, for_each_effective_field-effective}
use rpc_spec.Spec.Walk.{
  IsDistinct, note, first_with, last_with, for_each_effective_field-last, process_all,
  process-process_all,
}

abbrev account_key : Text
account_key = 97 ∷ []

abbrev limit_key : Text
limit_key = 108 ∷ []

abbrev other_key : Text
other_key = 111 ∷ []

abbrev required_account : FieldSpec
required_account = record { key = account_key; items = requirement Unit (required xrpld) ∷ [] }

abbrev default_limit : FieldSpec
default_limit = record { key = limit_key; items = modifier Unit (null_as (int64 (pos 200))) ∷ [] }

abbrev deprecated_account : FieldSpec
deprecated_account = record { key = account_key; items = checker Unit (deprecated xrpld) ∷ [] }

-- The account is declared twice: its second declaration counts.
abbrev sample_fields : List FieldSpec
sample_fields = required_account ∷ default_limit ∷ deprecated_account ∷ []

abbrev sample_request : ObjectView
sample_request = record {
  document = object (member limit_key null (member other_key (boolean true) end));
}

-- A null limit becomes the default one, and the requirement of the account is overridden.
process_sample : process sample_fields sample_request ≡ (
  success,
  record {
    document = object (member limit_key (int64 (pos 200)) (member other_key (boolean true) end));
  },
)
unfolding process for_each_effective_field walk build_override_plan plan_from is_first dispatch
    last_index text_eq process_field run_processors call_if_processor required null_as root_child
    put_root find set assign
process_sample = refl

-- Where the requirement is in force, nothing after it runs.
process_required :
    has_value (process (required_account ∷ default_limit ∷ []) sample_request).0 ≡ false
unfolding process for_each_effective_field walk build_override_plan plan_from is_first dispatch
    last_index text_eq process_field run_processors call_if_processor required null_as root_child
    put_root find set assign
process_required = refl

for_each_effective_field-effective_example :
    for_each_effective_field (λ f. f.key) (note (λ f. f.key)) sample_fields []
    ≡ visit_all (note (λ f. f.key)) (effective (λ f. f.key) sample_fields) []
for_each_effective_field-effective_example =
    for_each_effective_field-effective (λ f. f.key) (note (λ f. f.key)) sample_fields []

for_each_effective_field-last_example :
    let visited = for_each_effective_field (λ f. f.key) (note (λ f. f.key)) sample_fields [] in
    IsDistinct (λ f. f.key) visited
    × ((k : Text) → first_with (λ f. f.key) k visited ≡ last_with (λ f. f.key) k none sample_fields)
for_each_effective_field-last_example = for_each_effective_field-last (λ f. f.key) sample_fields

process-process_all_example :
    process sample_fields sample_request
    ≡ process_all (effective (λ f. f.key) sample_fields) sample_request
process-process_all_example = process-process_all sample_fields sample_request

account-other : account_key ≢ other_key
account-other e = ground arith

limit-other : limit_key ≢ other_key
limit-other e = ground arith
