-- ===== src/Tests/LedgerTests.antt =====
-- A chain of two records, and one of them replaced.
use cloakpipe.Base.{
  ℕ, ◌≡◌, refl, ◌⊎◌, none, some, List, [], ◌∷◌, ◌++◌, length, replicate, Bytes, bytes_eq, nat_eq,
  if◌then◌else◌, arith,
}
use cloakpipe.Base.Results.{ok, err}
use cloakpipe.Merkle.Binding.{Collision}
use cloakpipe.Ledger.Record.{LedgerRecord, mcp_tool_call, allow}
use cloakpipe.Ledger.Canonical.{Formats, canonicalize}
use cloakpipe.Ledger.Chain.{genesis_hash, link_and_hash, verify_chain}
use cloakpipe.Ledger.Table.{seq_out_of_order, Json, RecordRow, records_for_tenant, append}
use cloakpipe.Ledger.Records.{Sound, contents}
use cloakpipe.Ledger.Appends.{table_after, answer, appended, verify_chain-append}
use cloakpipe.Ledger.Tampering.{verify_chain-replace}

-- Formats that print nothing but the bytes of a constant.
abbrev blank : Formats
blank = record {
  decimal = λ n. "";
  decimal_i64 = λ n. "";
  to_rfc3339_secs = λ n. "";
  hyphenated = λ u. "";
  into_bytes = λ s. 7 ∷ [];
}

-- A stand-in for SHA-256.
abbrev constant_digest : Bytes → Bytes
constant_digest bytes = 9 ∷ []

abbrev record_at : ℕ → ℕ → LedgerRecord
record_at n time = record {
  seq = n;
  ts = time;
  tenant_id = [];
  hop = mcp_tool_call;
  detections = [];
  actions = [];
  policy = record { pack_id = "p"; pack_version = "1"; rule_id = "r"; decision = allow };
  identities = record { agent_id = []; human_principal = none; upstream = "u"; region = "in" };
  egress = record { destination = "d"; bytes_out_hash = [] };
  metadata = [];
  prev_hash = [];
  record_hash = [];
}

abbrev linked : ℕ → ℕ → Bytes → LedgerRecord
linked n time prev = record (record_at n time) { prev_hash = prev; record_hash = 9 ∷ [] }

abbrev tenant : Bytes
tenant = 1 ∷ []

abbrev other_tenant : Bytes
other_tenant = 2 ∷ []

abbrev uuids : Formats
uuids = record blank { hyphenated = λ u. if bytes_eq u tenant then "one" else "two" }

-- A stand-in for `serde_json`: a text is the record itself.
abbrev whole : Json LedgerRecord
whole = record { to_string = λ r. some r; from_str = λ r. some r }

abbrev digest32 : Bytes → Bytes
digest32 bytes = replicate 32 9

whole-Sound : Sound whole digest32
whole-Sound = record {
  reads = λ r. (r, refl, refl);
  digest_size = λ b. refl;
  digest_bytes = λ b. ground arith;
}

-- The third one is out of order and is refused.
abbrev calls : List (ℕ × Bytes × LedgerRecord)
calls =
    (1, tenant, record_at 0 5) ∷ (2, other_tenant, record_at 0 5) ∷ (3, tenant, record_at 2 7) ∷ []

abbrev rows : List (RecordRow LedgerRecord)
rows = appended uuids whole digest32 calls []

verify_chain-append_example :
    let out = append uuids whole digest32 4 tenant (record_at 1 6) rows in
    (rs : List LedgerRecord) × (h : Bytes) × (let next = nat_eq 1 (length rs) in
      let linked = link_and_hash uuids digest32 h (record_at 1 6) in
      let after = if next then rs ++ linked ∷ [] else rs in
      (contents (records_for_tenant uuids whole tenant rows) ≡ ok rs)
      × (verify_chain uuids digest32 rs ≡ ok h)
      × (answer out ≡ (if next then ok (4, linked) else err (seq_out_of_order (length rs))))
      × (contents (records_for_tenant uuids whole tenant (table_after rows out)) ≡ ok after)
      × (verify_chain uuids digest32 after ≡ ok (if next then linked.record_hash else h)))
verify_chain-append_example =
    verify_chain-append uuids whole digest32 whole-Sound calls 4 tenant (record_at 1 6)

-- The tenant's one record after these calls, and the answer to the next append.
stores_one :
    contents (records_for_tenant uuids whole tenant rows)
    ≡ ok (record (record_at 0 5) { prev_hash = genesis_hash; record_hash = replicate 32 9 } ∷ [])
unfolding records_for_tenant appended bytes_eq
stores_one = refl

accepts_next :
    answer (append uuids whole digest32 4 tenant (record_at 1 6) rows)
    ≡ ok (4, record (record_at 1 6) { prev_hash = replicate 32 9; record_hash = replicate 32 9 })
unfolding append appended bytes_eq
accepts_next = refl

abbrev after_it : List LedgerRecord
after_it = linked 1 6 (9 ∷ []) ∷ []

verifies_first :
    verify_chain blank constant_digest (linked 0 5 genesis_hash ∷ after_it) ≡ ok (9 ∷ [])
unfolding verify_chain bytes_eq
verifies_first = refl

verifies_other :
    verify_chain blank constant_digest (linked 0 8 genesis_hash ∷ after_it) ≡ ok (9 ∷ [])
unfolding verify_chain bytes_eq
verifies_other = refl

verify_chain-replace_example :
    ((linked 0 5 genesis_hash).seq ≡ (linked 0 8 genesis_hash).seq)
    × ((linked 0 5 genesis_hash).prev_hash ≡ (linked 0 8 genesis_hash).prev_hash)
    × ((linked 0 5 genesis_hash).record_hash ≡ (linked 0 8 genesis_hash).record_hash)
    × ((canonicalize blank (linked 0 5 genesis_hash) ≡ canonicalize blank (linked 0 8 genesis_hash))
        ⊎ Collision constant_digest)
verify_chain-replace_example =
    verify_chain-replace blank constant_digest [] after_it (linked 0 5 genesis_hash)
      (linked 0 8 genesis_hash) (9 ∷ []) verifies_first verifies_other
