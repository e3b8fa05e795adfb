-- ===== src/Lib.antt =====
-- cloakpipe: the gate between an agent and the tools it calls, and the evidence it leaves.
--
-- A tool call reaches the gate (crates/cloakpipe-mcp/src/gate.rs). The gate refuses it unless the
-- release declares the tool, the arguments pass the tool's contract (crates/cloakpipe-release),
-- the Cedar policy permits it (crates/cloakpipe-policy), and, where the contract or the policy
-- asks for one, an approval receipt for this very call verifies (crates/cloakpipe-receipt). A call
-- with a side effect is then begun in the operations store
-- (crates/cloakpipe-mcp/src/operations.rs), which decides whether to forward it, replay its stored
-- result, or refuse it; the proxy (crates/cloakpipe-mcp/src/proxy.rs) acts on that decision, and
-- settles the operation on the reply. What happened is appended to the hash-chained ledgers
-- (crates/cloakpipe-ledger): records for each tenant, and decisions, which are signed and sealed into
-- epochs. A Merkle tree over hashes is anchored (crates/cloakpipe-anchor/src/merkle.rs), and a
-- verifier of its own reads the decisions (crates/cloakpipe-verify). Apart from the gate, sensitive
-- texts are replaced by tokens (crates/cloakpipe-core).
--
--   Base        shared names and lemmas: native numbers, lists, options, results, byte strings.
--   Json        the values of the crate serde_json; a float is its bit pattern, and what Rust does
--               with floats is the record Floats.
--   Contract    crates/cloakpipe-release/src/contract.rs: Constraint (the keywords of a
--               constraint, paths into arguments and task context), Check (Constraint::check as
--               check, and check_object as check_keys followed by check_declared).
--   Rules       crates/cloakpipe-release/src/rules.rs and ToolRule of contract.rs: Condition
--               (Condition::matches as condition_holds, and eval), Parser (the parser of
--               conditions, from tokens on), Parsed (what it returns), Printed and Reparsed
--               (conditions written as tokens, and read back), Duration (parse_duration), Groups
--               (what it accepts), Key (IdempotencyKey::render), Tool (ToolRule::check as
--               check_call, needs_approval, shown), Closed (what a passing call carries).
--   Policy      crates/cloakpipe-policy/src: Counters (record as record_call, forget, snapshot),
--               Engine (evaluate, from Cedar's answer on), Windows (what recording does to the
--               windows).
--   Receipt     crates/cloakpipe-receipt/src: Dsse (pae, verified_keyids), OperationId, Approval
--               (verify_approval), Accepted (what an accepted receipt is).
--   Gate        crates/cloakpipe-mcp/src/gate.rs: Denial, State, Call (authorize, approve,
--               evaluate_policy, operation as operation_of), Steps (what each has found where it
--               returns a value), Authorized (what the gate lets through).
--   Operations  crates/cloakpipe-mcp/src/operations.rs: Rows and Store (every method of
--               OperationStore), Events (runs of calls of the store, in any order), and proofs in
--               Table, Held, AtMostOnce, Done, Replay, Keyed, Called and Sweep.
--   Proxy       crates/cloakpipe-mcp/src/proxy.rs: Pending (PendingOps), Coordinate (coordinate,
--               replayed and settle_reply), Forwarded and Answered (what a call and its retry
--               get), Exit (finish and abandon), Swept (what the exit sweep leaves).
--   Ledger      crates/cloakpipe-ledger/src: Record, Builder (RecordBuilder and its checks of
--               metadata), Canonical (canonicalize), Chain (verify_chain), Table (head, append and
--               records_for_tenant of store.rs, with the columns as they are written), Records and
--               Appends (what the table holds after appends), Metadata and Tampering.
--   Decisions   crates/cloakpipe-ledger/src: Entry (decision.rs), Epoch (epoch.rs), Hex
--               (decode_hex_32), Table (ORDER BY and MAX of a query), Store (the tables of
--               decisions and epochs in store.rs), Steps (runs of the store's operations), Spec
--               (two plain lists), and proofs in Refinement, Promise, Anchoring, Tiles, Sealing and
--               Chained.
--   Verify      crates/cloakpipe-verify/src/decisions.rs, which does not depend on the ledger:
--               Decisions (verify_decisions, tally), Tally, Hashes (its hash of an entry and the
--               gate's) and Accepts (what it makes of what the gate writes).
--   Masking     crates/cloakpipe-core/src: Entity (lib.rs), Assoc (a HashMap), Resolver, Vault,
--               Replacer, and proofs in Tokens, Known and Roundtrip.
--   Merkle      crates/cloakpipe-anchor/src/merkle.rs, with Inclusion, Binding and Depth.
--   Tests       runs at concrete inputs, with stand-ins for the parameters.
--
-- State is passed explicitly: a method that writes returns the new store, and an error leaves the
-- old one. An SQL table is the list of its rows, and each statement the function on rows that its
-- text says. The clock is an argument. Times are seconds or nanoseconds since the year 0, so that
-- they are natural numbers, and a time less a span is written as a sum on the other side.
--
-- Parameters stand for code outside the repository: SHA-256, Ed25519, base64, JSON text, RFC 3339
-- times, regular expressions, Cedar, floats, and what the operating system says to a lock or a
-- read. The gate also takes the fingerprint of a call and the derivation of operation ids as
-- parameters. Where the proxy settles an operation, a parameter says whether the database takes the
-- write; elsewhere it does. The members of a JSON object stand in the order of its map: a parameter
-- says, for the gate's decision chain and for its verifier, whether serde_json is built with
-- preserve_order.
--
-- Every function is structural, but for two. The loop that builds the levels of a Merkle tree runs on
-- fuel, which is the number of leaves: that is enough, since each level has half the nodes of the one
-- below, rounded up. The parser of conditions runs on three times the number of tokens and three
-- more: each of its loops and calls goes at most three calls down before it takes a token.
--
-- Not modelled: the rest of the JSON-RPC proxy and the approval broker's HTTP requests, which are
-- transport; the parsers of contracts, manifests and templates, and the tokens of conditions; the
-- detectors, which are regular expressions and models; the encryption and the files of the vault;
-- time-stamping services, the archives of evidence and the command line, which are I/O and text
-- formats; and the parts that stand apart from the gate (leak scanner, HTTP proxy, document trees,
-- vectors, local models).
pub mod Base
pub mod Merkle
pub mod Json
pub mod Contract
pub mod Receipt
pub mod Policy
pub mod Gate
pub mod Ledger
pub mod Proxy
pub mod Rules
pub mod Decisions
pub mod Verify
pub mod Masking
pub mod Operations
pub mod Tests
