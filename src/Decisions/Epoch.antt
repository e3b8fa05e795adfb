-- ===== src/Decisions/Epoch.antt =====
-- crates/cloakpipe-ledger/src/epoch.rs, over the receipts of crates/cloakpipe-anchor/src/receipt.rs.
use cloakpipe.Base.{ℕ, String, Bool, Option, List, ◌∷◌, ◌++◌, ◌==◌, any, Bytes}
use cloakpipe.Json.{Value, number, string, object, unsigned, no_fields, field}
use cloakpipe.Decisions.Entry.{Encodings, genesis, covered, canonical_json, sort_fields, in_map}

abbrev pub epoch_kind : String
epoch_kind = "cloakpipe.epoch/v1"

abbrev pub epoch_hash_domain : String
epoch_hash_domain = "cloakpipe.epoch.v1"

abbrev pub epoch_genesis : String
epoch_genesis = genesis

pub record EpochHead : Type 0 where
  pub kind : String
  pub epoch : ℕ
  pub first_seq : ℕ
  pub last_seq : ℕ
  pub entries_head : String
  pub prev_epoch : String
  pub sealed_at : String
  pub signer : String
  pub epoch_hash : String
  pub sig : String

-- `serde_json::to_value` of a head.
unfoldable pub head_value : Bool → EpochHead → Value
unfolding sort_fields
head_value preserve_order h = object (
    in_map preserve_order (
      field "kind" (string h.kind) (
        field "epoch" (number (unsigned h.epoch)) (
          field "first_seq" (number (unsigned h.first_seq)) (
            field "last_seq" (number (unsigned h.last_seq)) (
              field "entries_head" (string h.entries_head) (
                field "prev_epoch" (string h.prev_epoch) (
                  field "sealed_at" (string h.sealed_at) (
                    field "signer" (string h.signer) (
                      field "epoch_hash" (string h.epoch_hash)
                        (field "sig" (string h.sig) (no_fields))))))))))))

unfoldable pub epoch_hash_of : Encodings → Value → Bytes
unfolding canonical_json covered
epoch_hash_of e head = e.sha256 (
    e.into_bytes epoch_hash_domain
    ++ 10 ∷ canonical_json e (covered e.preserve_order "epoch_hash" head))

-- `EpochHead::compute_hash`
unfoldable pub compute_head_hash : Encodings → EpochHead → String
unfolding epoch_hash_of head_value
compute_head_hash e h = e.hex_encode (epoch_hash_of e (head_value e.preserve_order h))

-- The bytes that are anchored.
unfoldable pub artifact : Encodings → EpochHead → Bytes
unfolding canonical_json head_value
artifact e h = canonical_json e (head_value e.preserve_order h)

-- A receipt of a time-stamping authority: the batch, the digest of what was stamped, the
-- authority's address, the nonce and the answer; or an entry of a Rekor log: the batch, the digest,
-- the log's address, the entry's identifier and the entry.
pub data ExternalReceipt : Type 0 where
  rfc3161 : String → String → String → String → String → ExternalReceipt
  rekor : String → String → String → String → Value → ExternalReceipt

unfoldable pub receipt_kind : ExternalReceipt → String
receipt_kind (rfc3161 batch_id subject_hash tsa_url nonce tsr) = "rfc3161"
receipt_kind (rekor batch_id subject_hash rekor_url entry_uuid entry) = "rekor"

pub record StoredEpoch : Type 0 where
  pub head : EpochHead
  pub anchors : List ExternalReceipt
  pub last_error : Option String

-- `have.contains(kind)` where `have` is the list of kinds that `kinds` returns: sorting the list
-- and leaving duplicates out of it does not change the answer.
unfoldable pub has_kind : String → List ExternalReceipt → Bool
unfolding receipt_kind
has_kind k anchors = any (λ r. receipt_kind r == k) anchors
