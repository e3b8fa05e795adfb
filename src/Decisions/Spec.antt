-- ===== src/Decisions/Spec.antt =====
-- What the two tables promise, without rows or JSON: a list of entries, each chained onto the one
-- before it, and a list of sealed epochs, each from where the one before it ends.
use cloakpipe.Base.{
  ℕ, suc, ◌-◌, String, Option, none, some, List, [], ◌∷◌, ◌++◌, length, ltb, nat_eq, if◌then◌else◌,
}
use cloakpipe.Base.Results.{Result, ok, err}
use cloakpipe.Ledger.Canonical.{hex_lower}
use cloakpipe.Decisions.Entry.{
  Encodings, genesis, DecisionDraft, DecisionEntry, entry_hash_of, to_value, unhashed,
}
use cloakpipe.Decisions.Epoch.{
  epoch_kind, epoch_genesis, EpochHead, epoch_hash_of, head_value, ExternalReceipt, StoredEpoch,
}
use cloakpipe.Decisions.Table.{last}
use cloakpipe.Decisions.Store.{StoreError, no_epoch, GateKey, push_receipts}
use cloakpipe.Decisions.Steps.{Operation, append, seal, anchor}

pub record Spec : Type 0 where
  pub entries : List DecisionEntry
  pub sealed : List StoredEpoch

abbrev pub hash_before : Option DecisionEntry → String
hash_before none = genesis
hash_before (some x) = x.entry_hash

-- How many entries the epochs cover.
abbrev pub covered_by : Option StoredEpoch → ℕ
covered_by none = 0
covered_by (some s) = suc s.head.last_seq

abbrev pub epoch_before : Option StoredEpoch → String
epoch_before none = epoch_genesis
epoch_before (some s) = s.head.epoch_hash

module _ (e : Encodings) (key : GateKey) where
  -- An entry with its hash, and the signature over that hash.
  abbrev pub chained : ℕ → DecisionDraft → List DecisionEntry → DecisionEntry
  chained now draft xs =
      let x = unhashed e now draft (length xs) (hash_before (last xs)) key.keyid in
      let digest = entry_hash_of e (to_value e.preserve_order x) in
      record x { entry_hash = e.hex_encode digest; sig = hex_lower (key.sign digest) }

  -- The head of the epoch from the first entry that no epoch covers to the last entry.
  abbrev pub next_head : ℕ → List DecisionEntry → List StoredEpoch → EpochHead
  next_head now xs hs =
      let h : EpochHead = record {
        kind = epoch_kind;
        epoch = length hs;
        first_seq = covered_by (last hs);
        last_seq = length xs - 1;
        entries_head = hash_before (last xs);
        prev_epoch = epoch_before (last hs);
        sealed_at = e.to_rfc3339_secs now;
        signer = key.keyid;
        epoch_hash = "";
        sig = "";
      } in
      let digest = epoch_hash_of e (head_value e.preserve_order h) in
      record h { epoch_hash = e.hex_encode digest; sig = hex_lower (key.sign digest) }

  abbrev pub fresh_epoch : EpochHead → StoredEpoch
  fresh_epoch h = record { head = h; anchors = []; last_error = none }

  abbrev pub add_receipts : List ExternalReceipt → Option String → StoredEpoch → StoredEpoch
  add_receipts receipts error s = record s {
    anchors = push_receipts s.anchors receipts;
    last_error = error;
  }

  -- The epochs from number `m` on, of which number `n` gets the receipts.
  unfoldable pub anchor_at :
      ℕ → ℕ → List ExternalReceipt → Option String → List StoredEpoch → List StoredEpoch
  anchor_at m n receipts error [] = []
  anchor_at m n receipts error (s ∷ ss) =
      let rest = anchor_at (suc m) n receipts error ss in
      (if nat_eq m n then add_receipts receipts error s else s) ∷ rest

  unfoldable pub spec_step : Operation → Spec → Result Spec StoreError
  unfolding anchor_at
  spec_step (append now draft) p =
      ok (record p { entries = p.entries ++ chained now draft p.entries ∷ [] })
  spec_step (seal now) p =
      if ltb (covered_by (last p.sealed)) (length p.entries)
      then ok
          (record p { sealed = p.sealed ++ fresh_epoch (next_head now p.entries p.sealed) ∷ [] })
      else ok p
  spec_step (anchor n receipts error) p =
      if ltb n (length p.sealed)
      then ok (record p { sealed = anchor_at 0 n receipts error p.sealed })
      else err (no_epoch n)

  unfoldable pub spec_run : List Operation → Spec → List StoreError × Spec
  unfolding spec_step
  spec_run [] p = ([], p)
  spec_run (o ∷ os) p = elim (spec_step o p) [
    | ok p' ↦ spec_run os p'
    | err x ↦ let (errors, end) = spec_run os p in (x ∷ errors, end)
  ]

abbrev pub empty_spec : Spec
empty_spec = record { entries = []; sealed = [] }
