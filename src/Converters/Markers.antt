-- ===== src/Converters/Markers.antt =====
-- include/rpcspec/Converters.hpp: the markers of the two servers.
use rpc_spec.Prelude.{
  ◌≡◌, refl, Text, true, Option, none, some, [], ◌∷◌, all, arith, Option-cases, Bool-cases, inl,
  inr,
}
use rpc_spec.Json.{Value, string}
use rpc_spec.Status.{clio, xrpld, Status, ok}
use rpc_spec.View.{FieldView}
use rpc_spec.Validators.Chars.{is_digit, split_at, c_str, from_chars, all_read, drop_plus}
use rpc_spec.Validators.Chars.Numerals.{from_chars_iff}
use rpc_spec.Validators.Libxrpl.{Libxrpl}
use rpc_spec.Converters.{MalformedMarker, account_marker_str, marker_text, hint_text, uint64_max}

split_at-digits : (s : Text) → all is_digit s ≡ true → split_at b',' s ≡ none
unfolding split_at
split_at-digits [] h = refl
split_at-digits (c ∷ s) h = ground (arith, split_at-digits s)

drop_plus-digits : (s : Text) → all is_digit s ≡ true → drop_plus s ≡ s
drop_plus-digits [] h = refl
drop_plus-digits (c ∷ s) h = ground arith

module _ (x : Libxrpl) where
  marker_text-xrpld :
      (e f : Status) (s : Text) (o : Option (Text × Text)) (t : Text)
      → marker_text clio x e s o ≡ ok t
      → marker_text xrpld x f s o ≡ ok t
  marker_text-xrpld e f s none t h = absurd (cc)
  marker_text-xrpld e f s (some (hex_part, hint_part)) t h =
      elim (Bool-cases (x.parse_hex 256 (c_str hex_part))) [
        | inr bad ↦ (let h = rw bad at h in absurd (cc))
        | inl good ↦ elim (Option-cases (all_read (from_chars uint64_max hint_part))) [
          | inl none_read ↦ (let h = rw (good, none_read) at h in absurd (cc))
          | inr (n, read) ↦
              (let digits = ((from_chars_iff uint64_max n hint_part).0 read).0.1 in
                let same : hint_text xrpld x hint_part ≡ hint_part =
                  rw (split_at-digits hint_part digits) (drop_plus-digits hint_part digits) in
                let h = rw (good, read) at h in rw (good, same, read) h)
        ]
      ]

  marker_value :
      (m : MalformedMarker) (k : Text) (o : Option Value) (t : Text)
      → account_marker_str clio x m (record { key = k; value = o }) ≡ ok t
      → account_marker_str xrpld x m (record { key = k; value = o }) ≡ ok t
  unfolding account_marker_str
  marker_value m k none t h = absurd (cc)
  marker_value m k (some (string s)) t h = marker_text-xrpld _ _ s (split_at b',' s) t h
  marker_value m k (some _) t h = absurd (cc)

  -- A marker that the build for Clio reads is read by the one for xrpld as well, to the same text,
  -- whichever error that one gives for a malformed marker.
  pub account_marker_str-xrpld :
      (m : MalformedMarker) (v : FieldView) (t : Text)
      → account_marker_str clio x m v ≡ ok t
      → account_marker_str xrpld x m v ≡ ok t
  account_marker_str-xrpld m v t h = marker_value m v.key v.value t h
