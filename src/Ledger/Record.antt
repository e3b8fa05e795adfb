-- ===== src/Ledger/Record.antt =====
-- crates/cloakpipe-ledger/src/record.rs: the record, and the names that its enums are hashed under.
use cloakpipe.Base.{ℕ, String, Bool, Option, List, Bytes}

pub data Hop : Type 0 where
  llm_prompt llm_response mcp_tool_call mcp_tool_result sub_agent_msg memory_write : Hop
  retrieval_result unmask release_registered release_promoted release_certified : Hop
  certification_revoked operation_reconciled : Hop

unfoldable pub hop_tag : Hop → String
hop_tag llm_prompt = "llm_prompt"
hop_tag llm_response = "llm_response"
hop_tag mcp_tool_call = "mcp_tool_call"
hop_tag mcp_tool_result = "mcp_tool_result"
hop_tag sub_agent_msg = "sub_agent_msg"
hop_tag memory_write = "memory_write"
hop_tag retrieval_result = "retrieval_result"
hop_tag unmask = "unmask"
hop_tag release_registered = "release_registered"
hop_tag release_promoted = "release_promoted"
hop_tag release_certified = "release_certified"
hop_tag certification_revoked = "certification_revoked"
hop_tag operation_reconciled = "operation_reconciled"

pub data Detector : Type 0 where
  regex checksum onnx_bert gliner custom : Detector

unfoldable pub detector_tag : Detector → String
detector_tag regex = "regex"
detector_tag checksum = "checksum"
detector_tag onnx_bert = "onnx_bert"
detector_tag gliner = "gliner"
detector_tag custom = "custom"

pub data ActionKind : Type 0 where
  pseudonymize block passthrough fpe_token : ActionKind

unfoldable pub action_tag : ActionKind → String
action_tag pseudonymize = "pseudonymize"
action_tag block = "block"
action_tag passthrough = "passthrough"
action_tag fpe_token = "fpe_token"

pub record Action : Type 0 where
  pub entity_type : String
  pub kind : ActionKind
  pub token_ref : Option String

pub record Detection : Type 0 where
  pub entity_type : String
  pub count : ℕ
  pub detector : Detector

pub data RuleDecision : Type 0 where
  allow deny flag : RuleDecision

unfoldable pub decision_tag : RuleDecision → String
decision_tag allow = "allow"
decision_tag deny = "deny"
decision_tag flag = "flag"

pub record Policy : Type 0 where
  pub pack_id : String
  pub pack_version : String
  pub rule_id : String
  pub decision : RuleDecision

-- A UUID is its bytes.
pub record Identity : Type 0 where
  pub agent_id : Bytes
  pub human_principal : Option Bytes
  pub upstream : String
  pub region : String

pub record Egress : Type 0 where
  pub destination : String
  pub bytes_out_hash : Bytes

-- An integer is its 64 bits.
pub data MetadataValue : Type 0 where
  bool : Bool → MetadataValue
  integer : ℕ → MetadataValue
  hash : Bytes → MetadataValue
  opaque_id : String → MetadataValue

-- `ts` is a time in nanoseconds; `metadata` is in key order.
pub record LedgerRecord : Type 0 where
  pub seq : ℕ
  pub ts : ℕ
  pub tenant_id : Bytes
  pub hop : Hop
  pub detections : List Detection
  pub actions : List Action
  pub policy : Policy
  pub identities : Identity
  pub egress : Egress
  pub metadata : List (String × MetadataValue)
  pub prev_hash : Bytes
  pub record_hash : Bytes
