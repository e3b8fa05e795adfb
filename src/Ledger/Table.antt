-- ===== src/Ledger/Table.antt =====
-- crates/cloakpipe-ledger/src/store.rs: the table `records`. The database takes every row.
use cloakpipe.Base.{
  ℕ, suc, String, Bool, Option, none, some, List, [], ◌∷◌, ◌++◌, ◌==◌, filter, Bytes, bytes_eq,
  nat_eq, if◌then◌else◌,
}
use cloakpipe.Base.Results.{Result, ok, err, ◌>>=◌, ok_or}
use cloakpipe.Ledger.Record.{LedgerRecord}
use cloakpipe.Ledger.Canonical.{Formats, hex_lower}
use cloakpipe.Ledger.Chain.{genesis_hash, compute_hash, link_and_hash}
use cloakpipe.Decisions.Hex.{decode_hex_32}
use cloakpipe.Decisions.Table.{order_by, last}

pub data StoreError : Type 0 where
  json_error : StoreError
  seq_out_of_order : ℕ → StoreError
  prev_hash_mismatch : StoreError
  record_hash_mismatch : StoreError

-- What the crate `serde_json` writes for a record and reads, over a type of texts.
pub record Json (T : Type 0) : Type 0 where
  pub to_string : LedgerRecord → Option T
  pub from_str : T → Option LedgerRecord

-- A row of the table `records`.
pub record RecordRow (T : Type 0) : Type 0 where
  pub id : ℕ
  pub tenant_id : String
  pub seq : ℕ
  pub record_hash : String
  pub prev_hash : String
  pub record_json : T

pub record StoredRecord : Type 0 where
  pub id : ℕ
  pub content : LedgerRecord

-- `if !test { return Err(e) }`
abbrev pub ensure : Bool → StoreError → Result (Unit {0}) StoreError
ensure test e = if test then ok tt else err e

abbrev pub expected_seq : Option ℕ → ℕ
expected_seq none = 0
expected_seq (some s) = suc s

module _ {T : Type 0} (f : Formats) (json : Json T) where
  -- `WHERE tenant_id = ?1 ORDER BY seq`
  unfoldable pub tenant_rows : Bytes → List (RecordRow T) → List (RecordRow T)
  unfolding order_by
  tenant_rows tenant rows =
      order_by (λ (r : RecordRow T). r.seq)
        (filter (λ (r : RecordRow T). r.tenant_id == f.hyphenated tenant) rows)

  unfoldable pub head_row : Option (RecordRow T) → Result (Option ℕ × Bytes) StoreError
  unfolding decode_hex_32
  head_row none = ok (none, genesis_hash)
  head_row (some r) = do
    hash ← ok_or (decode_hex_32 r.record_hash) prev_hash_mismatch
    ok (some r.seq, hash)

  unfoldable pub head : Bytes → List (RecordRow T) → Result (Option ℕ × Bytes) StoreError
  unfolding tenant_rows head_row
  head tenant rows = head_row (last (tenant_rows tenant rows))

  unfoldable pub read_rows : List (RecordRow T) → Result (List StoredRecord) StoreError
  read_rows [] = ok []
  read_rows (r ∷ rs) = do
    content ← ok_or (json.from_str r.record_json) json_error
    rest ← read_rows rs
    ok (record { id = r.id; content = content } ∷ rest)

  unfoldable pub records_for_tenant :
      Bytes → List (RecordRow T) → Result (List StoredRecord) StoreError
  unfolding tenant_rows read_rows
  records_for_tenant tenant rows = read_rows (tenant_rows tenant rows)

  -- `append`; `id` is the row's id, which SQLite gives. It returns the id, the record as it was
  -- linked, and the table.
  module _ (sha256 : Bytes → Bytes) where
    abbrev pub new_row : ℕ → Bytes → LedgerRecord → T → RecordRow T
    new_row id tenant r text = record {
      id = id;
      tenant_id = f.hyphenated tenant;
      seq = r.seq;
      record_hash = hex_lower r.record_hash;
      prev_hash = hex_lower r.prev_hash;
      record_json = text;
    }

    -- The checks and the insertion, once the record is linked.
    unfoldable pub insert_linked :
        ℕ
        → Bytes
        → LedgerRecord
        → List (RecordRow T)
        → Result ((ℕ × LedgerRecord) × List (RecordRow T)) StoreError
    unfolding compute_hash hex_lower
    insert_linked id tenant linked rows = do
      _ ← ensure (bytes_eq (compute_hash f sha256 linked) linked.record_hash) record_hash_mismatch
      text ← ok_or (json.to_string linked) json_error
      ok ((id, linked), rows ++ new_row id tenant linked text ∷ [])

    -- What `append` does once it has found the head.
    unfoldable pub append_after :
        ℕ
        → Bytes
        → LedgerRecord
        → List (RecordRow T)
        → Option ℕ × Bytes
        → Result ((ℕ × LedgerRecord) × List (RecordRow T)) StoreError
    unfolding link_and_hash insert_linked
    append_after id tenant r rows (head_seq, head_hash) = do
      let expected = expected_seq head_seq
      _ ← ensure (nat_eq r.seq expected) (seq_out_of_order expected)
      insert_linked id tenant (link_and_hash f sha256 head_hash r) rows

    unfoldable pub append :
        ℕ
        → Bytes
        → LedgerRecord
        → List (RecordRow T)
        → Result ((ℕ × LedgerRecord) × List (RecordRow T)) StoreError
    unfolding head append_after
    append id tenant r rows = do found ← head tenant rows; append_after id tenant r rows found
