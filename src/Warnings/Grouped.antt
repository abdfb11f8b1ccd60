-- ===== src/Warnings/Grouped.antt =====
-- include/rpcspec/backends/BoostJson.hpp: the map that the wire format of warnings goes through.
use mathlib.Core.List.{append_assoc, append-nil}
use rpc_spec.Prelude.{
  ◌≡◌, refl, sym, ap, ◌∙◌, fun_ext, Text, true, false, inl, inr, List, [], ◌∷◌, ◌++◌, if◌then◌else◌,
  Bool-cases,
}
use rpc_spec.Status.{
  WarningCode, warn_unknown, warn_rpc_clio, warn_rpc_outdated, warn_rpc_rate_limit,
  warn_rpc_deprecated, Warning, Warnings,
}
use rpc_spec.Warnings.{code_less, same_code, Groups, push_message, group}

-- One row of the map, which it has only where the code has messages.
abbrev pub entry : WarningCode → List Text → Groups → Groups
entry d [] rest = rest
entry d (m ∷ ms) rest = (d, m ∷ ms) ∷ rest

-- The map that holds the messages of each code.
abbrev pub table : (WarningCode → List Text) → Groups
table f = entry warn_unknown (f warn_unknown) (
    entry warn_rpc_clio (f warn_rpc_clio) (
      entry warn_rpc_outdated (f warn_rpc_outdated) (
        entry warn_rpc_rate_limit (f warn_rpc_rate_limit)
          (entry warn_rpc_deprecated (f warn_rpc_deprecated) []))))

module _ (c : WarningCode) (m : Text) where
  push_message_later :
      (d : WarningCode) (l : List Text) (rest : Groups)
      → code_less c d ≡ false
      → code_less d c ≡ true
      → push_message c m (entry d l rest) ≡ entry d l (push_message c m rest)
  unfolding push_message
  push_message_later d [] rest p q = refl
  push_message_later d (n ∷ ns) rest p q = rw (p, q) refl

  push_message_first :
      (d : WarningCode) (l : List Text) (rest : Groups)
      → code_less c d ≡ true
      → push_message c m rest ≡ (c, m ∷ []) ∷ rest
      → push_message c m (entry d l rest) ≡ (c, m ∷ []) ∷ entry d l rest
  unfolding push_message
  push_message_first d [] rest p h = h
  push_message_first d (n ∷ ns) rest p h = rw p refl

  push_message_here :
      (l : List Text) (rest : Groups)
      → code_less c c ≡ false
      → push_message c m rest ≡ (c, m ∷ []) ∷ rest
      → push_message c m (entry c l rest) ≡ entry c (l ++ (m ∷ [])) rest
  unfolding push_message
  push_message_here [] rest p h = h
  push_message_here (n ∷ ns) rest p h = rw p refl

-- The messages of each code after one more.
abbrev pub pushed : WarningCode → Text → (WarningCode → List Text) → WarningCode → List Text
pushed c m f d = if same_code c d then f d ++ (m ∷ []) else f d

push_message-table :
    (c : WarningCode) (m : Text) (f : WarningCode → List Text)
    → push_message c m (table f) ≡ table (pushed c m f)
unfolding push_message
push_message-table warn_unknown m f = push_message_here warn_unknown m (f warn_unknown) _ refl (
    push_message_first warn_unknown m warn_rpc_clio (f warn_rpc_clio) _ refl (
      push_message_first warn_unknown m warn_rpc_outdated (f warn_rpc_outdated) _ refl (
        push_message_first warn_unknown m warn_rpc_rate_limit (f warn_rpc_rate_limit) _ refl (
          push_message_first warn_unknown m warn_rpc_deprecated (f warn_rpc_deprecated) [] refl
            refl))))
push_message-table warn_rpc_clio m f =
    push_message_later warn_rpc_clio m warn_unknown (f warn_unknown) _ refl refl
    ∙ ap (entry warn_unknown (f warn_unknown)) (
        push_message_here warn_rpc_clio m (f warn_rpc_clio) _ refl (
          push_message_first warn_rpc_clio m warn_rpc_outdated (f warn_rpc_outdated) _ refl (
            push_message_first warn_rpc_clio m warn_rpc_rate_limit (f warn_rpc_rate_limit) _ refl (
              push_message_first warn_rpc_clio m warn_rpc_deprecated (f warn_rpc_deprecated) [] refl
                refl))))
push_message-table warn_rpc_outdated m f =
    push_message_later warn_rpc_outdated m warn_unknown (f warn_unknown) _ refl refl
    ∙ ap (entry warn_unknown (f warn_unknown)) (
        push_message_later warn_rpc_outdated m warn_rpc_clio (f warn_rpc_clio) _ refl refl
        ∙ ap (entry warn_rpc_clio (f warn_rpc_clio)) (
            push_message_here warn_rpc_outdated m (f warn_rpc_outdated) _ refl (
              push_message_first warn_rpc_outdated m warn_rpc_rate_limit (f warn_rpc_rate_limit) _
                refl
                (push_message_first warn_rpc_outdated m warn_rpc_deprecated (f warn_rpc_deprecated)
                  [] refl refl))))
push_message-table warn_rpc_rate_limit m f =
    push_message_later warn_rpc_rate_limit m warn_unknown (f warn_unknown) _ refl refl
    ∙ ap (entry warn_unknown (f warn_unknown)) (
        push_message_later warn_rpc_rate_limit m warn_rpc_clio (f warn_rpc_clio) _ refl refl
        ∙ ap (entry warn_rpc_clio (f warn_rpc_clio)) (
            push_message_later warn_rpc_rate_limit m warn_rpc_outdated (f warn_rpc_outdated) _ refl
              refl
            ∙ ap (entry warn_rpc_outdated (f warn_rpc_outdated)) (
                push_message_here warn_rpc_rate_limit m (f warn_rpc_rate_limit) _ refl (
                  push_message_first warn_rpc_rate_limit m warn_rpc_deprecated
                    (f warn_rpc_deprecated) [] refl refl))))
push_message-table warn_rpc_deprecated m f =
    push_message_later warn_rpc_deprecated m warn_unknown (f warn_unknown) _ refl refl
    ∙ ap (entry warn_unknown (f warn_unknown)) (
        push_message_later warn_rpc_deprecated m warn_rpc_clio (f warn_rpc_clio) _ refl refl
        ∙ ap (entry warn_rpc_clio (f warn_rpc_clio)) (
            push_message_later warn_rpc_deprecated m warn_rpc_outdated (f warn_rpc_outdated) _ refl
              refl
            ∙ ap (entry warn_rpc_outdated (f warn_rpc_outdated)) (
                push_message_later warn_rpc_deprecated m warn_rpc_rate_limit (f warn_rpc_rate_limit)
                  _ refl refl
                ∙ ap (entry warn_rpc_rate_limit (f warn_rpc_rate_limit)) (
                    push_message_here warn_rpc_deprecated m (f warn_rpc_deprecated) [] refl refl))))

-- The messages of the warnings with a code, in order.
unfoldable pub messages_of : Warnings → WarningCode → List Text
messages_of [] d = []
messages_of (w ∷ ws) d =
    let later = messages_of ws d in if same_code w.code d then w.message ∷ later else later

pushed-messages_of :
    (w : Warning) (ws : Warnings) (f : WarningCode → List Text) (d : WarningCode)
    → pushed w.code w.message f d ++ messages_of ws d ≡ f d ++ messages_of (w ∷ ws) d
unfolding messages_of
pushed-messages_of w ws f d = elim (Bool-cases (same_code w.code d)) [
  | inl same ↦ rw same (append_assoc (f d) (w.message ∷ []) (messages_of ws d))
  | inr other ↦ rw other refl
]

-- Grouping adds to the messages of each code those of the warnings with it, in order.
pub group-messages_of :
    (ws : Warnings) (f : WarningCode → List Text)
    → group (table f) ws ≡ table (λ d. f d ++ messages_of ws d)
unfolding group messages_of
group-messages_of [] f = ap table (fun_ext (λ d. sym (append-nil (f d))))
group-messages_of (w ∷ ws) f =
    ap (λ g. group g ws) (push_message-table w.code w.message f)
    ∙ group-messages_of ws (pushed w.code w.message f)
    ∙ ap table (fun_ext (pushed-messages_of w ws f))
