-- ===== src/Gate/Denial.antt =====
-- crates/cloakpipe-mcp/src/gate.rs: why a call fails the gate.
use cloakpipe.Base.{String, Bool, true, false, Option, none, some, List}
use cloakpipe.Contract.Constraint.{
  Violation, argument_missing, undeclared_argument, argument_invalid, scope_mismatch,
  task_context_missing,
}

pub data Denial : Type 0 where
  undeclared_tool : Denial
  missing_argument : Option String → Denial
  unknown_argument : Option String → Denial
  invalid_argument : Option String → Denial
  other_scope : Option String → Denial
  no_task_context : Option String → Denial
  approval_required : Denial
  approval_invalid : Denial
  approval_expired : Denial
  approval_denied : Denial
  contract_missing : Denial
  operation_conflict : String → Denial
  reconcile_first : String → Denial
  operations_unavailable : Denial
  request_id_missing : Denial
  request_id_in_use : Denial
  policy_denied : List String → Denial
  fail_closed : Denial
  tool_drift : String → Denial
  tool_unavailable : Denial

-- `Denial::code`
abbrev pub denial_code : Denial → String
denial_code undeclared_tool = "undeclared_tool"
denial_code (missing_argument path) = "argument_missing"
denial_code (unknown_argument path) = "undeclared_argument"
denial_code (invalid_argument path) = "argument_invalid"
denial_code (other_scope path) = "scope_mismatch"
denial_code (no_task_context path) = "task_context_missing"
denial_code approval_required = "approval_required"
denial_code approval_invalid = "approval_invalid"
denial_code approval_expired = "approval_expired"
denial_code approval_denied = "approval_denied"
denial_code contract_missing = "contract_missing"
denial_code (operation_conflict id) = "operation_conflict"
denial_code (reconcile_first id) = "reconcile_before_retry"
denial_code operations_unavailable = "operations_unavailable"
denial_code request_id_missing = "request_id_missing"
denial_code request_id_in_use = "request_id_in_use"
denial_code (policy_denied policies) = "policy_denied"
denial_code fail_closed = "fail_closed"
denial_code (tool_drift server) = "tool_drift"
denial_code tool_unavailable = "tool_unavailable"

-- `Denial::is_upstream`
abbrev pub is_upstream : Denial → Bool
is_upstream (tool_drift server) = true
is_upstream tool_unavailable = true
is_upstream _ = false

-- `Denial::operation_id`
abbrev pub denied_operation : Denial → Option String
denied_operation (operation_conflict id) = some id
denied_operation (reconcile_first id) = some id
denied_operation _ = none

-- `From<contract::Violation> for Denial`
abbrev pub of_violation : Violation → Denial
of_violation v = elim v.code [
  | argument_missing ↦ missing_argument v.path
  | undeclared_argument ↦ unknown_argument v.path
  | argument_invalid ↦ invalid_argument v.path
  | scope_mismatch ↦ other_scope v.path
  | task_context_missing ↦ no_task_context v.path
]
