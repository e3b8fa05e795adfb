-- ===== src/Verify/Tally.antt =====
-- What the tally of an entry leaves as it was.
use cloakpipe.Base.{◌≡◌, refl, ◌∙◌, inl, inr, String, not, ◌||◌, ◌==◌, arith, Bool-cases}
use cloakpipe.Json.{Value}
use cloakpipe.Verify.Decisions.{
  DecisionSummary, str_or_empty, tally_decision, tally_outcome, tally_mode, tally_event, tally,
}

tally_decision-entries :
    (d : String) (s : DecisionSummary) → (tally_decision d s).entries ≡ s.entries
unfolding tally_decision
tally_decision-entries d s = ground arith

tally_outcome-entries : (o : String) (s : DecisionSummary) → (tally_outcome o s).entries ≡ s.entries
unfolding tally_outcome
tally_outcome-entries o s = ground arith

tally_mode-entries : (m : String) (s : DecisionSummary) → (tally_mode m s).entries ≡ s.entries
tally_mode-entries m s = ground arith

tally_event-entries :
    (ev d : String) (s : DecisionSummary) → (tally_event ev d s).entries ≡ s.entries
tally_event-entries ev d s = elim (Bool-cases (ev == "call" || ev == "replay")) [
  | inl decided ↦ rw decided (tally_decision-entries d s)
  | inr other ↦ elim (Bool-cases (ev == "reconcile")) [
    | inl settled ↦ rw (other, settled) refl
    | inr neither ↦ rw (other, neither) refl
  ]
]

pub tally-entries : (s : DecisionSummary) (v : Value) → (tally s v).entries ≡ s.entries
unfolding tally
tally-entries s v =
    let ev = str_or_empty "event" v in
    let shadowed = tally_mode (str_or_empty "mode" v) s in
    let counted = tally_event ev (str_or_empty "decision" v) shadowed in
    let kept =
      tally_event-entries ev (str_or_empty "decision" v) shadowed
      ∙ tally_mode-entries (str_or_empty "mode" v) s in
    elim (Bool-cases (not (ev == "reconcile" || ev == "replay"))) [
      | inl new ↦ rw new (tally_outcome-entries (str_or_empty "outcome" v) counted ∙ kept)
      | inr old ↦ rw old kept
    ]
