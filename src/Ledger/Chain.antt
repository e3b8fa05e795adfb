-- ===== src/Ledger/Chain.antt =====
-- crates/cloakpipe-ledger/src/chain.rs
use cloakpipe.Base.{ℕ, suc, not, List, [], ◌∷◌, replicate, Bytes, bytes_eq, nat_eq, if◌then◌else◌}
use cloakpipe.Base.Results.{Result, ok, err}
use cloakpipe.Ledger.Record.{LedgerRecord}
use cloakpipe.Ledger.Canonical.{Formats, canonicalize}

abbrev pub genesis_hash : Bytes
genesis_hash = replicate 32 0

pub data ChainLinkError : Type 0 where
  seq_mismatch : ℕ → ℕ → ChainLinkError
  prev_hash_mismatch : ChainLinkError

module _ (f : Formats) (sha256 : Bytes → Bytes) where
  unfoldable pub compute_hash : LedgerRecord → Bytes
  unfolding canonicalize
  compute_hash r = sha256 (canonicalize f r)

  -- `link_and_hash`
  unfoldable pub link_and_hash : Bytes → LedgerRecord → LedgerRecord
  unfolding compute_hash
  link_and_hash prev r =
      let linked = record r { prev_hash = prev } in
      record linked { record_hash = compute_hash linked }

  -- The loop of `verify_chain`, from a sequence number and a previous hash.
  unfoldable pub verify_from : ℕ → Bytes → List LedgerRecord → Result Bytes ChainLinkError
  unfolding compute_hash
  verify_from expected prev [] = ok prev
  verify_from expected prev (r ∷ rs) =
      let rest = verify_from (suc expected) (compute_hash r) rs in
      if not (nat_eq r.seq expected)
      then err (seq_mismatch expected r.seq)
      else if not (bytes_eq r.prev_hash prev)
      then err prev_hash_mismatch
      else if not (bytes_eq (compute_hash r) r.record_hash)
      then err prev_hash_mismatch
      else rest

  unfoldable pub verify_chain : List LedgerRecord → Result Bytes ChainLinkError
  unfolding verify_from
  verify_chain records = verify_from 0 genesis_hash records
