-- ===== src/Gate/Call.antt =====
-- crates/cloakpipe-mcp/src/gate.rs: the methods of `ToolGate` that decide a call.
use Prim.Native.String.{◌++◌ as push_str}
use cloakpipe.Base.{
  ℕ, ◌-◌, ◌/◌, ◌^◌, String, Bool, true, false, not, ◌&&◌, ◌||◌, Option, none, some, List, [], ◌∷◌,
  ◌++◌, any, leb, ltb, ◌==◌, if◌then◌else◌, Bytes,
}
use cloakpipe.Base.Results.{Result, ok, err, ◌>>=◌, ◌>>◌, ok_or, map_err}
use cloakpipe.Json.{Value, null, get_path}
use cloakpipe.Policy.Counters.{Counters, record_call, snapshot}
use cloakpipe.Policy.Engine.{
  PolicyDecision, PolicyError, allow, require_approval, deny, contains, evaluate,
}
use cloakpipe.Receipt.Dsse.{Codecs}
use cloakpipe.Receipt.Approval.{ApprovalError, invalid, expired, as_string, verify_approval}
use cloakpipe.Rules.Key.{render}
use cloakpipe.Rules.Tool.{ToolRule, ApprovalRule, needs_approval, check_call}
use cloakpipe.Gate.Denial.{
  Denial, of_violation, undeclared_tool, contract_missing, approval_required, approval_invalid,
  approval_expired, approval_denied, operations_unavailable, no_task_context, policy_denied,
  fail_closed,
}
use cloakpipe.Gate.State.{
  ReadFile, contents, no_file, unreadable, Approvals, PolicyState, PolicyVerdict, allowed,
  needs_approval_by, ToolGate, Calls, ApprovedCall, OperationKey, Authorization,
}

abbrev pub or_null : Option Value → Value
or_null none = null
or_null (some v) = v

abbrev pub is_none {ℓ} : {A : Type ℓ} → Option A → Bool
is_none none = true
is_none (some a) = false

-- `rules.get(tool)`
unfoldable pub rule_of : String → List (String × ToolRule) → Option ToolRule
rule_of tool [] = none
rule_of tool ((name, rule) ∷ rules) = if name == tool then some rule else rule_of tool rules

abbrev pub timestamp : ℕ → ℕ
timestamp nanos = nanos / 1000000000

-- `unix`
abbrev pub unix : Codecs → String → Result ℕ Denial
unix cs now = elim (cs.parse_rfc3339 now) [ none ↦ err fail_closed | some t ↦ ok (timestamp t) ]

-- `ready`: none of its errors.
unfoldable pub is_ready : ToolGate → Bool
is_ready g =
    not (not g.has_operations && any (λ (x : String × ToolRule). x.1.side_effect) g.rules)
    && not (not (is_none g.policy_source) && is_none g.policy)

-- `record_forwarded`, with the counter store that it leaves.
unfoldable pub record_forwarded :
    Codecs → ToolGate → String → String → Result (Option (ℕ × Counters)) Denial
unfolding record_call
record_forwarded cs g tool now = elim g.policy [
  | none ↦ if is_none g.policy_source then ok none else err fail_closed
  | some policy ↦ do
    at_unix ← unix cs now
    counters ← ok_or policy.counters fail_closed
    ok (some (record_call counters g.release_name tool at_unix))
]

-- What the gate makes of the engine's answer.
abbrev pub verdict_of : Result PolicyDecision PolicyError → Result PolicyVerdict Denial
verdict_of (ok (allow policies)) = ok allowed
verdict_of (ok (require_approval approvers policies)) = ok (needs_approval_by approvers)
verdict_of (ok (deny policies)) = err (policy_denied policies)
verdict_of (err e) = err fail_closed

unfoldable pub evaluate_loaded :
    Calls → ToolGate → PolicyState → String → Option Value → String → Result PolicyVerdict Denial
unfolding snapshot evaluate
evaluate_loaded cs g policy tool arguments now = do
  now_unix ← unix cs.codecs now
  release ← ok_or (cs.parse_release g.release) fail_closed
  counters ← ok_or policy.counters fail_closed
  verdict_of (
      evaluate policy.engine (record {
        release = g.release_name;
        tool = tool;
        fingerprint = push_str "sha256:" (cs.fingerprint release tool (or_null arguments));
        args = arguments;
        task = g.task;
        counters = snapshot counters g.release_name g.tools now_unix;
        now_unix = now_unix;
      }))

unfoldable pub evaluate_policy :
    Calls → ToolGate → String → Option Value → String → Result PolicyVerdict Denial
unfolding evaluate_loaded
evaluate_policy cs g tool arguments now = elim g.policy [
  | none ↦ if is_none g.policy_source then ok allowed else err fail_closed
  | some policy ↦ evaluate_loaded cs g policy tool arguments now
]

abbrev approvers_of : Option ApprovalRule → List String
approvers_of none = []
approvers_of (some a) = a.approvers

abbrev add_routes : List String → List String → List String
add_routes routes [] = routes
add_routes routes (r ∷ rs) = add_routes (if contains r routes then routes else routes ++ r ∷ []) rs

unfoldable pub approval_needed :
    Calls → ToolRule → Option Value → PolicyVerdict → Option (List String)
unfolding needs_approval
approval_needed cs rule arguments verdict =
    let manifest = needs_approval cs.floats rule arguments in
    let routes = if manifest then approvers_of rule.approval else [] in
    elim verdict [
      | needs_approval_by cedar ↦ some (add_routes routes cedar)
      | allowed ↦ if manifest then some routes else none
    ]

-- `task_id`
unfoldable pub task_id : ToolGate → Option String
task_id g = elim g.task [ none ↦ none | some t ↦ as_string (get_path ("taskId" ∷ []) t) ]

abbrev ttl_of : Option ApprovalRule → Option ℕ
ttl_of none = none
ttl_of (some a) = a.ttl_secs

-- `i64::try_from(ttl).unwrap_or(i64::MAX)`
abbrev pub as_i64 : ℕ → ℕ
as_i64 n = if ltb n (2 ^ 63) then n else 2 ^ 63 - 1

-- `within_ttl`. Where the window ends before it starts, its seconds are not positive.
unfoldable pub within_ttl : Codecs → ToolRule → String → String → Bool
within_ttl cs rule approved_at not_after = elim (ttl_of rule.approval) [
  | none ↦ true
  | some ttl ↦ elim (cs.parse_rfc3339 approved_at) [
    | none ↦ false
    | some from ↦ elim (cs.parse_rfc3339 not_after) [
      | none ↦ false
      | some to ↦ leb (timestamp (to - from)) (as_i64 ttl)
    ]
  ]
]

abbrev pub broker_denies : Option (String → ℕ → Bool) → String → ℕ → Bool
broker_denies none hex now = false
broker_denies (some is_denied) hex now = is_denied hex now

-- A denial in force; none where the time cannot be read.
abbrev pub is_denied : Calls → ToolGate → Approvals → String → String → Bool
is_denied cs g approvals hex now = elim (cs.codecs.parse_rfc3339 now) [
  | none ↦ false
  | some t ↦ broker_denies g.broker hex (timestamp t) || approvals.denial_in_force hex (timestamp t)
]

abbrev pub read_receipt : ReadFile → Result Bytes Denial
read_receipt (contents bytes) = ok bytes
read_receipt no_file = err approval_required
read_receipt unreadable = err approval_invalid

abbrev pub guard_denial : Bool → Denial → Result (Unit {0}) Denial
guard_denial true d = err d
guard_denial false d = ok tt

abbrev pub of_approval_error : ApprovalError → Denial
of_approval_error expired = approval_expired
of_approval_error invalid = approval_invalid

unfoldable pub approve :
    Calls → ToolGate → ToolRule → String → Value → String → Result ApprovedCall Denial
unfolding verify_approval within_ttl task_id
approve cs g rule tool arguments now = do
  approvals ← ok_or g.approvals approval_required
  release ← ok_or (cs.parse_release g.release) approval_invalid
  let hex = cs.fingerprint release tool arguments
  guard_denial (is_denied cs g approvals hex now) approval_denied
  bytes ← read_receipt (approvals.receipt hex)
  id ← ok_or (task_id g) (no_task_context none)
  envelope ← ok_or (cs.read_envelope bytes) approval_invalid
  a ← map_err of_approval_error (
      verify_approval cs.codecs envelope (record {
        fingerprint = hex;
        release = g.release;
        tool = tool;
        task_id = id;
        approvers = approvals.approvers;
        now = now;
      }))
  guard_denial (not (within_ttl cs.codecs rule a.approved_at a.not_after)) approval_invalid
  ok (record { receipt_digest = cs.sha256 bytes; operation_id = a.operation_id; fingerprint = hex })

-- The id of a call without a receipt, from the idempotency key template or the task.
unfoldable pub derived_key :
    Calls → ToolGate → ToolRule → String → Option Value → Result OperationKey Denial
unfolding render task_id
derived_key cs g rule tool raw = do
  release ← ok_or (cs.parse_release g.release) operations_unavailable
  let fp = cs.fingerprint release tool (or_null raw)
  elim rule.idempotency_key [
    | some template ↦ do
      rendered ← map_err of_violation (render cs.encode cs.digest template raw g.task)
      key ← ok_or g.operation_id_key operations_unavailable
      ok (record {
        operation_id = cs.derive_idempotent_operation_id key g.release_name tool rendered;
        fingerprint = fp;
      })
    | none ↦ do
      id ← ok_or (task_id g) (no_task_context none)
      key ← ok_or g.operation_id_key operations_unavailable
      ok (record { operation_id = cs.derive_operation_id key id fp; fingerprint = fp })
  ]

unfoldable pub operation_key :
    Calls
    → ToolGate
    → ToolRule
    → String
    → Option Value
    → Option ApprovedCall
    → Result OperationKey Denial
unfolding derived_key
operation_key cs g rule tool raw (some a) =
    ok (record { operation_id = a.operation_id; fingerprint = a.fingerprint })
operation_key cs g rule tool raw none = derived_key cs g rule tool raw

-- `if condition { Some(action?) } else { None }`
abbrev pub when {ℓ} : {A : Type ℓ} → Bool → Result A Denial → Result (Option A) Denial
when true action = do a ← action; ok (some a)
when false action = ok none

-- `authorize` of a call to a tool with a rule.
unfoldable pub authorize_rule :
    Calls → ToolGate → ToolRule → String → Option Value → String → Result Authorization Denial
unfolding check_call evaluate_policy approval_needed approve operation_key
authorize_rule cs g rule tool arguments now = do
  map_err of_violation (check_call cs.floats cs.is_match rule arguments g.task)
  verdict ← evaluate_policy cs g tool arguments now
  approval ←
      when (not (is_none (approval_needed cs rule arguments verdict)))
        (approve cs g rule tool (or_null arguments) now)
  operation ← when rule.side_effect (operation_key cs g rule tool arguments approval)
  ok (record { approval = approval; operation = operation })

unfoldable pub authorize :
    Calls → ToolGate → String → Option Value → String → Result Authorization Denial
unfolding rule_of authorize_rule
authorize cs g tool arguments now = do
  guard_denial (not (contains tool g.tools)) undeclared_tool
  guard_denial (not g.contracts_loaded) contract_missing
  elim (rule_of tool g.rules) [
    | none ↦ ok (record { approval = none; operation = none })
    | some rule ↦ authorize_rule cs g rule tool arguments now
  ]

abbrev pub result_or {ℓ κ} : {A : Type ℓ} {E : Type κ} → Result A E → A → A
result_or (ok a) d = a
result_or (err e) d = d

-- `.ok()`
abbrev pub ok_of {ℓ κ} : {A : Type ℓ} {E : Type κ} → Result A E → Option A
ok_of (ok a) = some a
ok_of (err e) = none

-- The operation of a call to a tool with a rule, whether or not the call passes the gate.
abbrev pub shadow_approval :
    Calls → ToolGate → ToolRule → String → Option Value → String → Option ApprovedCall
shadow_approval cs g rule tool raw now =
    let verdict = result_or (evaluate_policy cs g tool raw now) allowed in
    if not (is_none (approval_needed cs rule raw verdict))
    then ok_of (approve cs g rule tool (or_null raw) now)
    else none

-- `operation`
unfoldable pub operation_of :
    Calls → ToolGate → String → Option Value → String → Result (Option OperationKey) Denial
unfolding rule_of evaluate_policy approval_needed approve operation_key
operation_of cs g tool raw now = elim (rule_of tool g.rules) [
  | none ↦ ok none
  | some rule ↦
      when rule.side_effect
        (operation_key cs g rule tool raw (shadow_approval cs g rule tool raw now))
]
