-- ===== src/Gate/State.antt =====
-- crates/cloakpipe-mcp/src/gate.rs: the state of the gate, and what it takes from other code.
use cloakpipe.Base.{ℕ, String, Bool, Option, List, Bytes}
use cloakpipe.Json.{Value, Floats}
use cloakpipe.Policy.Counters.{Counters}
use cloakpipe.Policy.Engine.{PolicyEngine}
use cloakpipe.Receipt.Dsse.{Codecs, Envelope, TrustedKey}
use cloakpipe.Rules.Tool.{ToolRule}

-- `std::fs::read` of a receipt file.
pub data ReadFile : Type 0 where
  contents : Bytes → ReadFile
  no_file : ReadFile
  unreadable : ReadFile

-- The receipts directory: the receipt file of a fingerprint, and whether a denial marker for it is
-- in force at a time; and the keys trusted to approve.
pub record Approvals : Type 0 where
  pub receipt : String → ReadFile
  pub denial_in_force : String → ℕ → Bool
  pub approvers : List TrustedKey

-- The counter store is `none` when it fails.
pub record PolicyState : Type 0 where
  pub engine : PolicyEngine
  pub counters : Option Counters

pub data PolicyVerdict : Type 0 where
  allowed : PolicyVerdict
  needs_approval_by : List String → PolicyVerdict

-- `ToolGate`, with the fields that a decision reads. `broker` is whether the approval broker holds a
-- denial of a fingerprint at a time; `has_operations` whether there is an operations store.
pub record ToolGate : Type 0 where
  pub release : String
  pub release_name : String
  pub policy_source : Option Bytes
  pub policy : Option PolicyState
  pub tools : List String
  pub contracts_loaded : Bool
  pub rules : List (String × ToolRule)
  pub task : Option Value
  pub approvals : Option Approvals
  pub broker : Option (String → ℕ → Bool)
  pub has_operations : Bool
  pub operation_id_key : Option Bytes

-- What the gate calls in other crates: the patterns of `regex`, the canonical text of a value and
-- the hex digest of a text for idempotency keys, the parse of a release hash, the hex fingerprint
-- of a call, the parse of an envelope, SHA-256, and the derivation of operation ids.
pub record Calls : Type 0 where
  pub codecs : Codecs
  pub floats : Floats
  pub is_match : String → String → Bool
  pub encode : Value → String
  pub digest : String → String
  pub parse_release : String → Option Bytes
  pub fingerprint : Bytes → String → Value → String
  pub read_envelope : Bytes → Option Envelope
  pub sha256 : Bytes → Bytes
  pub derive_operation_id : Bytes → String → String → String
  pub derive_idempotent_operation_id : Bytes → String → String → String → String

pub record ApprovedCall : Type 0 where
  pub receipt_digest : Bytes
  pub operation_id : String
  pub fingerprint : String

pub record OperationKey : Type 0 where
  pub operation_id : String
  pub fingerprint : String

pub record Authorization : Type 0 where
  pub approval : Option ApprovedCall
  pub operation : Option OperationKey
