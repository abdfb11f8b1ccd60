-- ===== src/Warnings.antt =====
-- include/rpcspec/Errors.hpp and include/rpcspec/backends/BoostJson.hpp: the wire format of warnings.
pub mod Format
pub mod Grouped
mod Tests
use rpc_spec.Prelude.{
  ℕ, Text, Bool, true, false, Option, none, some, List, [], ◌∷◌, ◌++◌, str, if◌then◌else◌,
}
use rpc_spec.Prelude.Int.{ℤ, pos, negsuc, ltb_ℤ}
use rpc_spec.Prelude.Strings.{text_eq}
use rpc_spec.Json.{
  Value, int64, string, object, Items, nil, cons, Fields, end, member, find, assign,
}
use rpc_spec.Status.{
  WarningCode, warn_unknown, warn_rpc_clio, warn_rpc_outdated, warn_rpc_rate_limit,
  warn_rpc_deprecated, Warning, Warnings,
}

-- The number of a code, by which the codes are ordered.
abbrev pub code_id : WarningCode → ℤ
code_id warn_unknown = negsuc 0
code_id warn_rpc_clio = pos 2001
code_id warn_rpc_outdated = pos 2002
code_id warn_rpc_rate_limit = pos 2003
code_id warn_rpc_deprecated = pos 2004

abbrev pub code_less : WarningCode → WarningCode → Bool
code_less c d = ltb_ℤ (code_id c) (code_id d)

abbrev pub same_code : WarningCode → WarningCode → Bool
same_code warn_unknown warn_unknown = true
same_code warn_rpc_clio warn_rpc_clio = true
same_code warn_rpc_outdated warn_rpc_outdated = true
same_code warn_rpc_rate_limit warn_rpc_rate_limit = true
same_code warn_rpc_deprecated warn_rpc_deprecated = true
same_code _ _ = false

pub record WarningInfo : Type 0 where
  pub code : WarningCode
  pub message : Text

abbrev pub unknown_info : WarningInfo
unknown_info = record { code = warn_unknown; message = str "Unknown warning" }

abbrev pub clio_info : WarningInfo
clio_info = record {
  code = warn_rpc_clio;
  message =
      str "This is a clio server. clio only serves validated data. If you want to talk to xrpld, "
      ++ str "include 'ledger_index':'current' in your request";
}

abbrev pub outdated_info : WarningInfo
outdated_info = record { code = warn_rpc_outdated; message = str "This server may be out of date" }

abbrev pub rate_limit_info : WarningInfo
rate_limit_info = record {
  code = warn_rpc_rate_limit;
  message = str "You are about to be rate limited";
}

abbrev pub deprecated_info : WarningInfo
deprecated_info = record {
  code = warn_rpc_deprecated;
  message =
      str "Some fields from your request are deprecated. Please check the documentation at "
      ++ str "https://xrpl.org/docs/references/http-websocket-apis/ and update your request.";
}

-- `kInfos`
abbrev pub infos : List WarningInfo
infos = unknown_info ∷ clio_info ∷ outdated_info ∷ rate_limit_info ∷ deprecated_info ∷ []

abbrev pub find_info : WarningCode → List WarningInfo → Option WarningInfo
find_info code [] = none
find_info code (info ∷ rest) =
    let later = find_info code rest in if same_code info.code code then some info else later

-- `getWarningInfo`; `none` is the exception.
unfoldable pub get_warning_info : WarningCode → Option WarningInfo
unfolding str
get_warning_info code = find_info code infos

-- `makeWarning`
unfoldable pub make_warning : WarningCode → Option Fields
unfolding get_warning_info
make_warning code = elim (get_warning_info code) [
  | none ↦ none
  | some info ↦
      some (
        member (str "id") (int64 (code_id code)) (member (str "message") (string info.message) end))
]

-- `std::map<WarningCode, std::vector<std::string>>`, in the order of its iteration.
abbrev pub Groups : Type 0
Groups = List (WarningCode × List Text)

-- `grouped[code].push_back(message)`
unfoldable pub push_message : WarningCode → Text → Groups → Groups
push_message c m [] = (c, m ∷ []) ∷ []
push_message c m ((d, ms) ∷ rest) =
    let later = push_message c m rest in
    if code_less c d
    then (c, m ∷ []) ∷ (d, ms) ∷ rest
    else if code_less d c
    then (d, ms) ∷ later
    else (d, ms ++ (m ∷ [])) ∷ rest

-- The first loop of `toJsonArray`.
unfoldable pub group : Groups → Warnings → Groups
unfolding push_message
group grouped [] = grouped
group grouped (w ∷ ws) = group (push_message w.code w.message grouped) ws

-- The loop that appends to the message.
unfoldable pub append_messages : Text → List Text → Text
append_messages msg [] = msg
append_messages msg (extra ∷ messages) = append_messages ((msg ++ str " ") ++ extra) messages

abbrev pub with_messages : List Text → Fields → Option Value → Option Fields
with_messages messages obj (some (string msg)) =
    some (assign (str "message") (string (append_messages msg messages)) obj)
with_messages messages obj _ = none

-- The body of the second loop: the object of one code.
unfoldable pub warning_object : WarningCode → List Text → Option Fields
unfolding make_warning append_messages find assign text_eq str
warning_object code messages = elim (make_warning code) [
  | none ↦ none
  | some obj ↦ with_messages messages obj (find (str "message") obj)
]

abbrev pub push_object : Option Fields → Option Items → Option Items
push_object (some obj) (some rest) = some (cons (object obj) rest)
push_object _ _ = none

unfoldable pub objects : Groups → Option Items
unfolding warning_object
objects [] = some nil
objects ((code, messages) ∷ rest) = push_object (warning_object code messages) (objects rest)

-- `toJsonArray`
unfoldable pub to_json_array : Warnings → Option Items
unfolding group objects
to_json_array warnings = objects (group [] warnings)
