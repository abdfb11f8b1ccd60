-- ===== src/Combinators.antt =====
-- include/rpcspec/Section.hpp, IfType.hpp, WithCustomError.hpp and ServerConditional.hpp: the items
-- that hold other items.
pub mod Wrappers
pub mod Sections
mod Tests
use rpc_spec.Prelude.{
  ◌≡◌, ◌&&◌, Text, Bool, true, false, not, ◌||◌, Option, none, some, List, [], ◌∷◌, any, is_empty,
  if◌then◌else◌,
}
use rpc_spec.Status.{
  Server, is_clio_build, is_xrpld_build, CombinedError, Status, status, status_with, invalid_params,
  MaybeError, success, ok, unexpected, Warning,
}
use rpc_spec.Json.{Value}
use rpc_spec.View.{
  FieldView, ObjectView, present, is_object, reads, is_int64_value, is_uint32_value, is_bool_value,
  is_string_value, is_double_value, is_object_value, is_array_value,
}
use rpc_spec.Field.{Processor, next, Item, FieldSpec, process_nested, run_processors, item_skips}

module _ (V : Type 0) where
  -- An item with no operation, to which each kind of item adds its own.
  abbrev pub no_item : Item V
  no_item = record {
    verify = none;
    modify = none;
    check = none;
    skips = none;
    default = none;
    guards = λ k. false;
  }

  abbrev pub requirement : (FieldView → MaybeError) → Item V
  requirement f = record no_item { verify = some f }

  abbrev pub modifier : Processor FieldView → Item V
  modifier f = record no_item { modify = some f }

  abbrev pub checker : (FieldView → Option Warning) → Item V
  checker f = record no_item { check = some f }

  abbrev pub guard : (ObjectView → Bool) → (Text → Bool) → Item V
  guard f g = record no_item { skips = some f; guards = g }

  abbrev pub default_to : V → Item V
  default_to v = record no_item { default = some v }

-- `Section::modify`: the sub-fields in order, each on a child of the field.
unfoldable pub run_sub_fields : List FieldSpec → Processor FieldView
run_sub_fields [] v = (success, v)
run_sub_fields (f ∷ fs) v = next (process_nested f v) (run_sub_fields fs)

unfoldable pub section_modify : List FieldSpec → Processor FieldView
section_modify sub_fields v =
    if not (present v)
    then (success, v)
    else if not (is_object v)
    then (unexpected (status invalid_params), v)
    else run_sub_fields sub_fields v

-- The types that `is<T>()` tests.
pub data JsonType : Type 0 where
  int64_type uint32_type bool_type double_type string_type object_type array_type : JsonType

abbrev pub value_test : JsonType → Value → Bool
value_test int64_type = is_int64_value
value_test uint32_type = is_uint32_value
value_test bool_type = is_bool_value
value_test double_type = is_double_value
value_test string_type = is_string_value
value_test object_type = is_object_value
value_test array_type = is_array_value

-- `BoostJsonFieldView::is<T>`
abbrev pub is_type : JsonType → FieldView → Bool
is_type t = reads (value_test t)

-- `IfType::modify`
unfoldable pub if_type_modify : {V : Type 0} → JsonType → List (Item V) → Processor FieldView
if_type_modify t items v =
    if not (present v) || not (is_type t v) then (success, v) else run_processors items v

-- `WithCustomError::makeStatus`
abbrev pub make_status : CombinedError → Text → Status
make_status code message = if is_empty message then status code else status_with code message

abbrev pub replace_error : Status → MaybeError → MaybeError
replace_error s (ok a) = ok a
replace_error s (unexpected e) = unexpected s

-- `WithCustomError`: the wrapped requirement or modifier, with its error replaced.
unfoldable pub with_custom_error_verify :
    (FieldView → MaybeError) → CombinedError → Text → FieldView → MaybeError
with_custom_error_verify verify code message v = replace_error (make_status code message) (verify v)

unfoldable pub with_custom_error_modify :
    Processor FieldView → CombinedError → Text → Processor FieldView
with_custom_error_modify modify code message v =
    let (r, w) = modify v in (replace_error (make_status code message) r, w)

abbrev pub and_then : MaybeError → MaybeError → MaybeError
and_then (ok _) later = later
and_then (unexpected e) later = unexpected e

abbrev pub or_else : Option Warning → Option Warning → Option Warning
or_else (some w) later = some w
or_else none later = later

module _ {V : Type 0} where
  abbrev pub has_verify : Item V → Bool
  has_verify item = elim item.verify [ some f ↦ true | none ↦ false ]

  abbrev pub has_modify : Item V → Bool
  has_modify item = elim item.modify [ some f ↦ true | none ↦ false ]

  abbrev pub has_check : Item V → Bool
  has_check item = elim item.check [ some f ↦ true | none ↦ false ]

  abbrev pub has_skips : Item V → Bool
  has_skips item = elim item.skips [ some f ↦ true | none ↦ false ]

  -- `tryVerify` over the inner items: those that are no requirement are passed over.
  unfoldable pub verify_inners : List (Item V) → FieldView → MaybeError
  verify_inners [] v = success
  verify_inners (item ∷ items) v =
      let later = verify_inners items v in
      elim item.verify [ some f ↦ and_then (f v) later | none ↦ later ]

  -- `tryModify`
  unfoldable pub modify_inners : List (Item V) → Processor FieldView
  modify_inners [] v = (success, v)
  modify_inners (item ∷ items) v = elim item.modify [
    | some f ↦ next (f v) (modify_inners items)
    | none ↦ modify_inners items v
  ]

  -- `tryCheck`: the first warning.
  unfoldable pub check_inners : List (Item V) → FieldView → Option Warning
  check_inners [] v = none
  check_inners (item ∷ items) v =
      let later = check_inners items v in
      elim item.check [ some f ↦ or_else (f v) later | none ↦ later ]

  abbrev pub when_any {ℓ} : {A : Type ℓ} → (Item V → Bool) → List (Item V) → A → Option A
  when_any p inners a = if any p inners then some a else none

  -- `ServerConditionalValidator<Active, Vs...>`
  unfoldable pub server_conditional : Bool → List (Item V) → Item V
  server_conditional active inners = record {
    verify = when_any has_verify inners (λ v. if active then verify_inners inners v else success);
    modify =
        when_any has_modify inners (λ v. if active then modify_inners inners v else (success, v));
    check = when_any has_check inners (λ v. if active then check_inners inners v else none);
    skips = when_any has_skips inners (λ r. if active then any (item_skips r) inners else false);
    default = none;
    guards = λ k. any (λ item. item.guards k) inners;
  }

  unfoldable pub if_server_clio : Server → List (Item V) → Item V
  unfolding server_conditional
  if_server_clio s inners = server_conditional (is_clio_build s) inners

  unfoldable pub if_server_xrpld : Server → List (Item V) → Item V
  unfolding server_conditional
  if_server_xrpld s inners = server_conditional (is_xrpld_build s) inners

  -- The static assertion on the wrapper.
  abbrev pub IsConditional : List (Item V) → Type 0
  IsConditional inners = (any has_verify inners && any has_modify inners) ≡ false
