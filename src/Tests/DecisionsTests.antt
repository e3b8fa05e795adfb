-- ===== src/Tests/DecisionsTests.antt =====
-- Three decisions, two of them sealed in an epoch, written and verified.
use cloakpipe.Base.{
  ℕ, zero, suc, ◌≤◌, ◌<◌, ◌≡◌, refl, Bool, true, false, Option, none, some, List, [], ◌∷◌, length,
  map, replicate, All, Bytes, ltb, if◌then◌else◌, arith,
}
use cloakpipe.Base.Results.{ok}
use cloakpipe.Ledger.Canonical.{hex_lower}
use cloakpipe.Decisions.Hex.{
  IsByte, decode_pairs, decode_pairs-hex_lower, decode_hex_32, decode_hex_32-hex_lower,
}
use cloakpipe.Decisions.Entry.{Encodings, DecisionDraft, DecisionEntry, call, new_draft, to_value}
use cloakpipe.Decisions.Epoch.{EpochHead, ExternalReceipt, StoredEpoch, rfc3161}
use cloakpipe.Decisions.Store.{
  GateKey, Texts, LedgerStore, decisions_from, stored_epochs, next_unsealed_seq,
}
use cloakpipe.Decisions.Steps.{Operation, append, seal, anchor, step, run, empty_store}
use cloakpipe.Decisions.Spec.{spec_run, empty_spec}
use cloakpipe.Decisions.Refinement.{Sound}
use cloakpipe.Decisions.Promise.{run-spec_run}
use cloakpipe.Decisions.Tiles.{covering}
use cloakpipe.Decisions.Sealing.{covering-run, step-seal-next_unsealed_seq}
use cloakpipe.Verify.Decisions.{DecisionSummary, keyid, key_named, verify_decisions}
use cloakpipe.Verify.Hashes.{crypto}
use cloakpipe.Verify.Accepts.{Trusts, verify_decisions-run}

-- A text is what was written.
data Text : Type 0 where
  entry : DecisionEntry → Text
  epoch_head : EpochHead → Text
  receipts : List ExternalReceipt → Text

abbrev entry_of : Text → Option DecisionEntry
entry_of (entry x) = some x
entry_of _ = none

abbrev head_of : Text → Option EpochHead
head_of (epoch_head h) = some h
head_of _ = none

abbrev receipts_of : Text → Option (List ExternalReceipt)
receipts_of (receipts rs) = some rs
receipts_of _ = none

abbrev texts : Texts Text
texts = record {
  entry_text = entry;
  read_entry = entry_of;
  head_text = epoch_head;
  read_head = head_of;
  anchors_text = receipts;
  read_anchors = receipts_of;
  no_anchors = receipts [];
}

-- Stand-ins that print nothing and give one digest and one signature.
abbrev encodings : Encodings
encodings = record {
  quoted = λ s. [];
  scalar = λ v. [];
  into_bytes = λ s. [];
  sha256 = λ b. replicate 32 7;
  hex_encode = hex_lower;
  hex_decode = decode_pairs;
  to_rfc3339_secs = λ n. "2026-07-02T12:00:00Z";
  preserve_order = true;
}

abbrev any_key : Bytes → Bool
any_key key = true

abbrev any_signature : Bytes → Bytes → Bytes → Bool
any_signature key message sig = true

abbrev gate_public : Bytes
gate_public = replicate 32 3

abbrev gate_key : GateKey
gate_key = record { keyid = "ed25519:0707070707070707"; sign = λ message. replicate 64 1 }

All-replicate : (n b : ℕ) → b < 256 → All IsByte (replicate n b)
All-replicate zero b lt = tt
All-replicate (suc n) b lt = (lt, All-replicate n b lt)

sound : Sound encodings texts
sound = record {
  reads_entry = λ x. refl;
  reads_head = λ h. refl;
  reads_anchors = λ rs. refl;
  reads_none = refl;
  encodes = λ b. refl;
  digest_size = λ b. refl;
  digest_bytes = λ b. All-replicate 32 7 (omega arith);
}

gate_key_named :
    key_named (crypto encodings any_key any_signature false) gate_key.keyid (gate_public ∷ [])
    ≡ some gate_public
unfolding key_named keyid hex_lower
gate_key_named = refl

trusts : Trusts encodings any_key any_signature false gate_key gate_public (gate_public ∷ [])
trusts = record {
  named = gate_key_named;
  verifies = λ message. refl;
  signature_bytes = λ message. All-replicate 64 1 (omega arith);
  signature_size = λ message. refl;
  decodes = decode_pairs-hex_lower;
}

abbrev draft : DecisionDraft
draft = new_draft call "ok"

abbrev operations : List Operation
operations =
    append 5 draft
    ∷ append 6 draft
    ∷ seal 7
    ∷ anchor 0 (rfc3161 "epoch-0" "" "" "" "" ∷ []) none
    ∷ append 8 draft
    ∷ []

run-spec_run_example :
    ((run encodings gate_key texts operations empty_store).0
      ≡ (spec_run encodings gate_key operations empty_spec).0)
    × (decisions_from encodings gate_key texts 0
          (run encodings gate_key texts operations empty_store).1
        ≡ ok (spec_run encodings gate_key operations empty_spec).1.entries)
    × (stored_epochs encodings gate_key texts
          (run encodings gate_key texts operations empty_store).1
        ≡ ok (spec_run encodings gate_key operations empty_spec).1.sealed)
run-spec_run_example = run-spec_run encodings gate_key texts sound operations

covering-run_example :
    let s = (run encodings gate_key texts operations empty_store).1 in
    (ss : List StoredEpoch) × (stored_epochs encodings gate_key texts s ≡ ok ss)
    × (covering 1 ss ≡ (if ltb 1 (next_unsealed_seq s) then 1 else 0))
    × (next_unsealed_seq s ≤ length s.decisions)
covering-run_example = covering-run encodings gate_key texts sound operations 1

step-seal-next_unsealed_seq_example :
    let s = (run encodings gate_key texts operations empty_store).1 in
    (s' : LedgerStore Text) × (step encodings gate_key texts (seal 9) s ≡ ok s')
    × (length s'.decisions ≡ length s.decisions)
    × (next_unsealed_seq s' ≡ length s.decisions)
step-seal-next_unsealed_seq_example =
    step-seal-next_unsealed_seq encodings gate_key texts sound operations 9

verify_decisions-run_example :
    (xs : List DecisionEntry) × (decisions_from encodings gate_key texts 0
        (run encodings gate_key texts operations empty_store).1
      ≡ ok xs)
    × (s : DecisionSummary) × (verify_decisions
          (crypto encodings any_key any_signature false)
          (map (to_value false) xs)
          (gate_public ∷ [])
        ≡ ok s)
    × (s.entries ≡ length xs)
verify_decisions-run_example =
    verify_decisions-run encodings any_key any_signature false gate_key gate_public
      (gate_public ∷ []) trusts texts sound operations

decode_hex_32-hex_lower_example : decode_hex_32 (hex_lower (replicate 32 7)) ≡ some (replicate 32 7)
decode_hex_32-hex_lower_example =
    decode_hex_32-hex_lower (replicate 32 7) refl (All-replicate 32 7 (omega arith))

two_sealed : next_unsealed_seq (run encodings gate_key texts operations empty_store).1 ≡ 2
unfolding next_unsealed_seq run decode_pairs hex_lower
two_sealed = refl
