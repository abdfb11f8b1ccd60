-- ===== src/Admission/Json/Document/Emits.antt =====
-- include/admissionspec/JsonVisitor.hpp: the visitor run on the calls for the pieces of a document.
use mathlib.Core.List.{append_assoc}
use rpc_spec.Prelude.{
  ℕ, ◌+◌, ◌≡◌, refl, sym, ap, fun_ext, ◌∙◌, Text, Option, some, List, [], ◌∷◌, ◌++◌, length,
  if◌then◌else◌, Bool-cases, inl, inr,
}
use rpc_spec.Admission.Decision.{AdmissionDecision, admitted, VisitEvent}
use rpc_spec.Admission.Json.{Callback, JsonVisitor, handle, handle_all, unless_stopped, visited}
use rpc_spec.Admission.Json.Document.{part_calls, calls_of, part_events, events_of}

-- Where the visitor is in a document.
pub record Place : Type 0 where
  pub depth : ℕ
  pub keys : List Text
  pub key : Text

abbrev pub place : ℕ → List Text → Text → Place
place d keys k = record { depth = d; keys = keys; key = k }

abbrev pub visitor : {S : Type 0} → Place → AdmissionDecision → S → JsonVisitor S
visitor p d s = record {
  checker = s;
  decision = d;
  depth = p.depth;
  container_keys = p.keys;
  pending_key = p.key;
}

module _ {S : Type 0} (check : VisitEvent → S → AdmissionDecision × S) where
  abbrev pub Rest : Type 0
  Rest = AdmissionDecision → S → Option (AdmissionDecision × S)

  abbrev pub unless_refused : Rest → AdmissionDecision × S → Option (AdmissionDecision × S)
  unless_refused k (d, s) = if admitted d then k d s else some (d, s)

  -- The check is given the events in order, up to the first that it does not admit; what follows has
  -- the last decision.
  unfoldable pub judge : List VisitEvent → Rest → Rest
  judge [] k d s = k d s
  judge (e ∷ es) k d s = unless_refused (judge es k) (check e s)

  pub judge-append :
      (es fs : List VisitEvent) (k : Rest) (d : AdmissionDecision) (s : S)
      → judge (es ++ fs) k d s ≡ judge es (judge fs k) d s
  unfolding judge
  judge-append [] fs k d s = refl
  judge-append (e ∷ es) fs k d s =
      ap (λ j. unless_refused j (check e s)) (fun_ext λ x. fun_ext λ u. judge-append es fs k x u)

  judge_congr :
      (es : List VisitEvent) (j k : Rest) (d : AdmissionDecision) (s : S)
      → ((x : AdmissionDecision) (u : S) → j x u ≡ k x u)
      → judge es j d s ≡ judge es k d s
  judge_congr es j k d s h = ap (λ r. judge es r d s) (fun_ext λ x. fun_ext λ u. h x u)

  -- What becomes of the calls, from a visitor.
  abbrev pub outcome : List Callback → Place → Rest
  outcome cs p d s = visited (λ x. x) (handle_all check cs (visitor p d s))

  -- Calls that give the check the events and take the visitor to another place, whatever follows.
  abbrev pub Emits : List Callback → List VisitEvent → Place → Place → Type 0
  Emits cs es p q =
      (rest : List Callback) (d : AdmissionDecision) (s : S)
      → outcome (cs ++ rest) p d s ≡ judge es (outcome rest q) d s

  pub Emits-append :
      (cs ds : List Callback) (es fs : List VisitEvent) (p q r : Place)
      → Emits cs es p q
      → Emits ds fs q r
      → Emits (cs ++ ds) (es ++ fs) p r
  Emits-append cs ds es fs p q r f g rest d s =
      ap (λ z. outcome z p d s) (append_assoc cs ds rest)
      ∙ f (ds ++ rest) d s
      ∙ judge_congr es _ _ d s (g rest)
      ∙ sym (judge-append es fs _ d s)

  unless_stopped-visitor :
      (x : AdmissionDecision × S) (q : Place) (rest : List Callback)
      → visited
          (λ z. z)
          (unless_stopped check (handle_all check rest) (some (admitted x.0, visitor q x.0 x.1)))
        ≡ unless_refused (outcome rest q) x
  unless_stopped-visitor (d, s) q rest = elim (Bool-cases (admitted d)) [
    | inl goes_on ↦ rw goes_on refl
    | inr stops ↦ rw stops refl
  ]

  -- One call that emits one event.
  abbrev pub Calls : Callback → VisitEvent → Place → Place → Type 0
  Calls call e p q =
      (d : AdmissionDecision) (s : S)
      → handle check call (visitor p d s)
        ≡ some (admitted (check e s).0, visitor q (check e s).0 (check e s).1)

  pub call-Emits :
      (call : Callback) (e : VisitEvent) (p q : Place)
      → Calls call e p q
      → Emits (call ∷ []) (e ∷ []) p q
  unfolding handle_all judge
  call-Emits call e p q h rest d s =
      ap (λ r. visited (λ z. z) (unless_stopped check (handle_all check rest) r)) (h d s)
      ∙ unless_stopped-visitor (check e s) q rest

  pub parts-Emits :
      (on_part : Text → ℕ → Callback) (part_event : Text → ℕ → VisitEvent) (n : ℕ) (p : Place)
      (parts : List Text)
      → ((s : Text) (m : ℕ) → Calls (on_part s m) (part_event s m) p p)
      → Emits (part_calls on_part n parts) (part_events part_event n parts) p p
  unfolding part_calls part_events judge
  parts-Emits on_part part_event n p [] h rest d s = refl
  parts-Emits on_part part_event n p (t ∷ parts) h rest d s =
      let m = n + length t in
      Emits-append (on_part t m ∷ []) (part_calls on_part m parts) (part_event t m ∷ [])
        (part_events part_event m parts) p p p
        (call-Emits (on_part t m) (part_event t m) p p (h t m))
        (parts-Emits on_part part_event m p parts h) rest d s

  pub calls_of-Emits :
      (call : Text → Callback) (part_event : Text → VisitEvent) (p : Place) (parts : List Text)
      → ((s : Text) → Calls (call s) (part_event s) p p)
      → Emits (calls_of call parts) (events_of part_event parts) p p
  unfolding calls_of events_of judge
  calls_of-Emits call part_event p [] h rest d s = refl
  calls_of-Emits call part_event p (t ∷ parts) h rest d s =
      Emits-append (call t ∷ []) (calls_of call parts) (part_event t ∷ [])
        (events_of part_event parts) p p p (call-Emits (call t) (part_event t) p p (h t))
        (calls_of-Emits call part_event p parts h) rest d s
