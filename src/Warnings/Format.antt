-- ===== src/Warnings/Format.antt =====
-- include/rpcspec/backends/BoostJson.hpp: what the wire format of warnings holds.
use mathlib.Core.List.{append_assoc, append-nil}
use rpc_spec.Prelude.{◌≡◌, refl, sym, ap, ◌∙◌, Text, some, List, [], ◌∷◌, ◌++◌, str}
use rpc_spec.Prelude.Strings.{text_eq}
use rpc_spec.Json.{int64, string, object, Items, nil, cons, Fields, end, member, find, assign}
use rpc_spec.Status.{
  WarningCode, warn_unknown, warn_rpc_clio, warn_rpc_outdated, warn_rpc_rate_limit,
  warn_rpc_deprecated, Warnings,
}
use rpc_spec.Warnings.{
  code_id, WarningInfo, unknown_info, clio_info, outdated_info, rate_limit_info, deprecated_info,
  Groups, get_warning_info, make_warning, append_messages, warning_object, push_object, objects,
  to_json_array,
}
use rpc_spec.Warnings.Grouped.{entry, messages_of, group-messages_of}

abbrev pub info_of : WarningCode → WarningInfo
info_of warn_unknown = unknown_info
info_of warn_rpc_clio = clio_info
info_of warn_rpc_outdated = outdated_info
info_of warn_rpc_rate_limit = rate_limit_info
info_of warn_rpc_deprecated = deprecated_info

-- The messages, a space in front of each.
abbrev pub spaced : List Text → Text
spaced [] = []
spaced (e ∷ es) = str " " ++ (e ++ spaced es)

append_messages-spaced : (msg : Text) (es : List Text) → append_messages msg es ≡ msg ++ spaced es
unfolding append_messages
append_messages-spaced msg [] = sym (append-nil msg)
append_messages-spaced msg (e ∷ es) =
    append_messages-spaced ((msg ++ str " ") ++ e) es
    ∙ append_assoc (msg ++ str " ") e (spaced es)
    ∙ append_assoc msg (str " ") (e ++ spaced es)

abbrev pub wire_object : WarningCode → Text → Fields
wire_object code text =
    member (str "id") (int64 (code_id code)) (member (str "message") (string text) end)

warning_object-wire_object :
    (code : WarningCode) (messages : List Text)
    → warning_object code messages
      ≡ some (wire_object code ((info_of code).message ++ spaced messages))
unfolding warning_object make_warning get_warning_info find assign text_eq str
warning_object-wire_object warn_unknown messages =
    ap (λ t. some (wire_object warn_unknown t))
      (append_messages-spaced unknown_info.message messages)
warning_object-wire_object warn_rpc_clio messages =
    ap (λ t. some (wire_object warn_rpc_clio t)) (append_messages-spaced clio_info.message messages)
warning_object-wire_object warn_rpc_outdated messages =
    ap (λ t. some (wire_object warn_rpc_outdated t))
      (append_messages-spaced outdated_info.message messages)
warning_object-wire_object warn_rpc_rate_limit messages =
    ap (λ t. some (wire_object warn_rpc_rate_limit t))
      (append_messages-spaced rate_limit_info.message messages)
warning_object-wire_object warn_rpc_deprecated messages =
    ap (λ t. some (wire_object warn_rpc_deprecated t))
      (append_messages-spaced deprecated_info.message messages)

-- The object of a code, in front of others, if the code has messages.
abbrev pub wire_entry : WarningCode → List Text → Items → Items
wire_entry code [] rest = rest
wire_entry code (m ∷ ms) rest =
    cons (object (wire_object code ((info_of code).message ++ spaced (m ∷ ms)))) rest

-- The objects of the codes, in the order of their numbers.
abbrev pub wire_format : (WarningCode → List Text) → Items
wire_format f = wire_entry warn_unknown (f warn_unknown) (
    wire_entry warn_rpc_clio (f warn_rpc_clio) (
      wire_entry warn_rpc_outdated (f warn_rpc_outdated) (
        wire_entry warn_rpc_rate_limit (f warn_rpc_rate_limit)
          (wire_entry warn_rpc_deprecated (f warn_rpc_deprecated) nil))))

objects-entry :
    (code : WarningCode) (l : List Text) (g : Groups) (items : Items)
    → objects g ≡ some items
    → objects (entry code l g) ≡ some (wire_entry code l items)
unfolding objects
objects-entry code [] g items h = h
objects-entry code (m ∷ ms) g items h =
    ap (λ o. push_object o (objects g)) (warning_object-wire_object code (m ∷ ms))
    ∙ ap (push_object (some (wire_object code ((info_of code).message ++ spaced (m ∷ ms))))) h

-- Writing warnings out does not fail: it gives one object for each code that a warning has, in the
-- order of the codes' numbers, with the number and the standard message of the code and after it the
-- messages of the warnings with that code, in their order, a space in front of each.
pub to_json_array-wire_format :
    (ws : Warnings) → to_json_array ws ≡ some (wire_format (messages_of ws))
unfolding to_json_array objects
to_json_array-wire_format ws =
    ap objects (group-messages_of ws (λ d. []))
    ∙ objects-entry warn_unknown (messages_of ws warn_unknown) _ _ (
        objects-entry warn_rpc_clio (messages_of ws warn_rpc_clio) _ _ (
          objects-entry warn_rpc_outdated (messages_of ws warn_rpc_outdated) _ _ (
            objects-entry warn_rpc_rate_limit (messages_of ws warn_rpc_rate_limit) _ _ (
              objects-entry warn_rpc_deprecated (messages_of ws warn_rpc_deprecated) [] nil refl))))
