-- ===== src/Decisions/Store.antt =====
-- crates/cloakpipe-ledger/src/store.rs: the tables `decisions` and `epochs`. A sequence number and a
-- time are natural numbers.
use cloakpipe.Base.{
  ℕ, suc, String, not, Option, none, some, List, [], ◌∷◌, ◌++◌, ◌==◌, any, filter, Bytes, leb,
  nat_eq, if◌then◌else◌,
}
use cloakpipe.Base.Results.{Result, ok, ◌>>=◌, ok_or}
use cloakpipe.Ledger.Canonical.{hex_lower}
use cloakpipe.Decisions.Hex.{decode_hex_32}
use cloakpipe.Decisions.Entry.{Encodings, genesis, DecisionDraft, DecisionEntry, link}
use cloakpipe.Decisions.Epoch.{
  epoch_kind, epoch_genesis, EpochHead, compute_head_hash, ExternalReceipt, receipt_kind,
  StoredEpoch,
}
use cloakpipe.Decisions.Table.{order_by, last, max_by}

-- The errors of the store, and a panic.
pub data StoreError : Type 0 where
  corrupt_decision : ℕ → StoreError
  corrupt_epoch : ℕ → StoreError
  no_epoch : ℕ → StoreError
  panicked : StoreError

-- The gate's signing key.
pub record GateKey : Type 0 where
  pub keyid : String
  pub sign : Bytes → Bytes

-- What the crate `serde_json` writes in the tables and reads from them, over a type of texts;
-- `no_anchors` is the text `[]`.
pub record Texts (T : Type 0) : Type 0 where
  pub entry_text : DecisionEntry → T
  pub read_entry : T → Option DecisionEntry
  pub head_text : EpochHead → T
  pub read_head : T → Option EpochHead
  pub anchors_text : List ExternalReceipt → T
  pub read_anchors : T → Option (List ExternalReceipt)
  pub no_anchors : T

pub record DecisionRow (T : Type 0) : Type 0 where
  pub seq : ℕ
  pub entry_hash : String
  pub prev_hash : String
  pub entry_json : T

pub record EpochRow (T : Type 0) : Type 0 where
  pub epoch : ℕ
  pub first_seq : ℕ
  pub last_seq : ℕ
  pub epoch_json : T
  pub anchors_json : T
  pub last_error : Option String

pub record LedgerStore (T : Type 0) : Type 0 where
  pub decisions : List (DecisionRow T)
  pub epochs : List (EpochRow T)

-- The sequence number and the previous hash of the next entry.
abbrev pub next_entry : Option (ℕ × String) → ℕ × String
next_entry none = (0, genesis)
next_entry (some (seq, hash)) = (suc seq, hash)

abbrev pub after_last : Option ℕ → ℕ
after_last none = 0
after_last (some l) = suc l

-- The tail of the chain, where it is at or past a sequence number.
abbrev pub tail_from : ℕ → Option (ℕ × String) → Option (ℕ × String)
tail_from first none = none
tail_from first (some (seq, hash)) = if leb first seq then some (seq, hash) else none

-- `take_while(|e| e.seq <= last)`
unfoldable pub take_until : ℕ → List DecisionEntry → List DecisionEntry
take_until limit [] = []
take_until limit (x ∷ xs) =
    let rest = take_until limit xs in if leb x.seq limit then x ∷ rest else []

-- The receipts kept: the first of each kind.
unfoldable pub push_receipts : List ExternalReceipt → List ExternalReceipt → List ExternalReceipt
unfolding receipt_kind
push_receipts anchors [] = anchors
push_receipts anchors (r ∷ rs) =
    push_receipts
      (if not (any (λ a. receipt_kind a == receipt_kind r) anchors)
        then anchors ++ r ∷ []
        else anchors)
      rs

module _ {T : Type 0} where
  abbrev pub decisions_by_seq : List (DecisionRow T) → List (DecisionRow T)
  decisions_by_seq rows = order_by (λ (r : DecisionRow T). r.seq) rows

  abbrev pub epochs_by_number : List (EpochRow T) → List (EpochRow T)
  epochs_by_number rows = order_by (λ (r : EpochRow T). r.epoch) rows

  -- The sequence number and the hash of a row.
  abbrev pub seq_and_hash : Option (DecisionRow T) → Option (ℕ × String)
  seq_and_hash none = none
  seq_and_hash (some r) = some (r.seq, r.entry_hash)

  -- `decision_head_seq`
  unfoldable pub decision_head_seq : LedgerStore T → Option ℕ
  unfolding max_by
  decision_head_seq s = max_by (λ (r : DecisionRow T). r.seq) s.decisions

  unfoldable pub next_unsealed_seq : LedgerStore T → ℕ
  unfolding max_by
  next_unsealed_seq s = after_last (max_by (λ (r : EpochRow T). r.last_seq) s.epochs)

  unfoldable pub find_epoch : ℕ → List (EpochRow T) → Option (EpochRow T)
  find_epoch n [] = none
  find_epoch n (r ∷ rs) = let rest = find_epoch n rs in if nat_eq r.epoch n then some r else rest

  -- `UPDATE epochs SET anchors_json, last_error WHERE epoch`
  unfoldable pub update_epoch : ℕ → T → Option String → List (EpochRow T) → List (EpochRow T)
  update_epoch n anchors error [] = []
  update_epoch n anchors error (r ∷ rs) =
      let rest = update_epoch n anchors error rs in
      (if nat_eq r.epoch n then record r { anchors_json = anchors; last_error = error } else r)
      ∷ rest

module _ {T : Type 0} (e : Encodings) (key : GateKey) (t : Texts T) where
  -- The signature over the bytes that a hash stands for.
  unfoldable pub sign_hash : String → Result String StoreError
  unfolding decode_hex_32 hex_lower
  sign_hash h = do digest ← ok_or (decode_hex_32 h) panicked; ok (hex_lower (key.sign digest))

  -- What `append_decision` does once it has found the sequence number and the previous hash.
  unfoldable pub append_after :
      ℕ
      → DecisionDraft
      → LedgerStore T
      → ℕ × String
      → Result (DecisionEntry × LedgerStore T) StoreError
  unfolding link sign_hash
  append_after now draft s (seq, prev) = do
    let entry = link e now draft seq prev key.keyid
    sig ← sign_hash entry.entry_hash
    let signed = record entry { sig = sig }
    ok (
      signed,
      record s {
        decisions =
            s.decisions
            ++ record {
              seq = seq;
              entry_hash = signed.entry_hash;
              prev_hash = signed.prev_hash;
              entry_json = t.entry_text signed;
            }
              ∷ [];
      },
    )

  unfoldable pub append_decision :
      ℕ → DecisionDraft → LedgerStore T → Result (DecisionEntry × LedgerStore T) StoreError
  unfolding order_by append_after
  append_decision now draft s =
      append_after now draft s (next_entry (seq_and_hash (last (decisions_by_seq s.decisions))))

  -- The rows read back, in order.
  unfoldable pub read_entries : List (DecisionRow T) → Result (List DecisionEntry) StoreError
  read_entries [] = ok []
  read_entries (r ∷ rs) = do
    entry ← ok_or (t.read_entry r.entry_json) (corrupt_decision r.seq)
    rest ← read_entries rs
    ok (entry ∷ rest)

  unfoldable pub decisions_from : ℕ → LedgerStore T → Result (List DecisionEntry) StoreError
  unfolding read_entries order_by
  decisions_from seq s =
      read_entries (decisions_by_seq (filter (λ (r : DecisionRow T). leb seq r.seq) s.decisions))

  unfoldable pub decisions_between : ℕ → ℕ → LedgerStore T → Result (List DecisionEntry) StoreError
  unfolding decisions_from take_until
  decisions_between first limit s = do
    entries ← decisions_from first s
    ok (take_until limit entries)

  -- The number, the first sequence number and the previous hash of the next epoch.
  abbrev pub next_epoch : Option (EpochRow T) → Result (ℕ × ℕ × String) StoreError
  next_epoch none = ok (0, 0, epoch_genesis)
  next_epoch (some r) = do
    head ← ok_or (t.read_head r.epoch_json) (corrupt_epoch r.epoch)
    ok (suc r.epoch, suc r.last_seq, head.epoch_hash)

  -- The head of an epoch, without hash and signature.
  abbrev pub new_head : ℕ → ℕ × ℕ × String → ℕ × String → EpochHead
  new_head now (epoch, first_seq, prev_epoch) (last_seq, entries_head) = record {
    kind = epoch_kind;
    epoch = epoch;
    first_seq = first_seq;
    last_seq = last_seq;
    entries_head = entries_head;
    prev_epoch = prev_epoch;
    sealed_at = e.to_rfc3339_secs now;
    signer = key.keyid;
    epoch_hash = "";
    sig = "";
  }

  abbrev pub hashed_head : EpochHead → EpochHead
  hashed_head h = record h { epoch_hash = compute_head_hash e h }

  abbrev pub epoch_row : EpochHead → EpochRow T
  epoch_row h = record {
    epoch = h.epoch;
    first_seq = h.first_seq;
    last_seq = h.last_seq;
    epoch_json = t.head_text h;
    anchors_json = t.no_anchors;
    last_error = none;
  }

  -- What `seal_epoch` does once it has found what is to be sealed.
  unfoldable pub seal_tail :
      ℕ
      → ℕ × ℕ × String
      → LedgerStore T
      → Option (ℕ × String)
      → Result (Option EpochHead × LedgerStore T) StoreError
  unfolding compute_head_hash sign_hash
  seal_tail now next s none = ok (none, s)
  seal_tail now next s (some tail) = do
    let head = hashed_head (new_head now next tail)
    sig ← sign_hash head.epoch_hash
    let signed = record head { sig = sig }
    ok (some signed, record s { epochs = s.epochs ++ epoch_row signed ∷ [] })

  unfoldable pub seal_epoch :
      ℕ → LedgerStore T → Result (Option EpochHead × LedgerStore T) StoreError
  unfolding seal_tail order_by
  seal_epoch now s = do
    next ← next_epoch (last (epochs_by_number s.epochs))
    seal_tail now next s (tail_from next.1 (seq_and_hash (last (decisions_by_seq s.decisions))))

  unfoldable pub read_epochs : List (EpochRow T) → Result (List StoredEpoch) StoreError
  read_epochs [] = ok []
  read_epochs (r ∷ rs) = do
    head ← ok_or (t.read_head r.epoch_json) (corrupt_epoch r.epoch)
    anchors ← ok_or (t.read_anchors r.anchors_json) (corrupt_epoch r.epoch)
    rest ← read_epochs rs
    ok (record { head = head; anchors = anchors; last_error = r.last_error } ∷ rest)

  unfoldable pub stored_epochs : LedgerStore T → Result (List StoredEpoch) StoreError
  unfolding read_epochs order_by
  stored_epochs s = read_epochs (epochs_by_number s.epochs)

  unfoldable pub add_epoch_anchors :
      ℕ → List ExternalReceipt → Option String → LedgerStore T → Result (LedgerStore T) StoreError
  unfolding push_receipts find_epoch update_epoch
  add_epoch_anchors n receipts error s = do
    row ← ok_or (find_epoch n s.epochs) (no_epoch n)
    anchors ← ok_or (t.read_anchors row.anchors_json) (corrupt_epoch n)
    let kept = push_receipts anchors receipts
    ok (record s { epochs = update_epoch n (t.anchors_text kept) error s.epochs })
