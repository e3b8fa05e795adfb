-- ===== src/Tests/GateTests.antt =====
-- A refund that needs an approval, with its receipt.
use cloakpipe.Base.{
  ℕ, String, ◌≡◌, ◌≢◌, refl, true, false, Option, none, some, [], ◌∷◌, Bytes, nat_eq, ◌==◌,
  if◌then◌else◌,
}
use cloakpipe.Base.Results.{ok}
use cloakpipe.Json.{
  Value, null, string, array, object, no_items, item, no_fields, field, get_path, Floats,
}
use cloakpipe.Contract.Constraint.{none_declared}
use cloakpipe.Rules.Tool.{ToolRule, check_call}
use cloakpipe.Policy.Engine.{contains}
use cloakpipe.Receipt.Dsse.{Codecs, Envelope, TrustedKey, pae}
use cloakpipe.Receipt.OperationId.{is_valid_operation_id}
use cloakpipe.Receipt.Approval.{
  Approval, ApprovalCheck, subject_ok, read_approval, verify_approval, payload_type_name,
  statement_type, approval_predicate_type,
}
use cloakpipe.Receipt.Accepted.{IsSignedBy, IsCurrent, verify_approval-accepts}
use cloakpipe.Gate.State.{
  contents, no_file, Approvals, PolicyVerdict, allowed, ToolGate, Calls, ApprovedCall,
  Authorization,
}
use cloakpipe.Gate.Call.{rule_of, evaluate_policy, approval_needed, authorize, operation_of}
use cloakpipe.Gate.Steps.{IsApproved}
use cloakpipe.Gate.Authorized.{
  authorize-passed, authorize-IsApproved, operation_of-authorize, authorize-unloaded_policy,
}

abbrev receipt_statement : Value
receipt_statement = object (
    field "_type" (string statement_type) (
      field "predicate"
        (object (
          field "approvedAt" (string "100") (
            field "approver" (string "alice") (
              field "notAfter" (string "900") (
                field "operationId" (string "op-1") (
                  field "release" (string "sha256:aa") (
                    field "taskId" (string "task-1")
                      (field "tool" (string "refund") no_fields))))))))
        (field "predicateType" (string approval_predicate_type) (
          field "subject"
            (array (
              item
                (object (
                  field "digest" (object (field "sha256" (string "bb") no_fields))
                    (field "name" (string "tool-call:refund") no_fields)))
                no_items))
            no_fields))))

abbrev times : String → Option ℕ
times s =
    if s == "100"
    then some 100
    else if s == "500"
    then some 500
    else if s == "900"
    then some 900
    else none

-- Stand-ins: every text decodes to one byte, every signature verifies.
abbrev toy_codecs : Codecs
toy_codecs = record {
  as_bytes = λ s. [];
  decimal = λ n. "";
  base64_decode = λ s. some (4 ∷ []);
  signature_from_slice = λ b. some b;
  verify_strict = λ key message sig. true;
  from_slice = λ b. some receipt_statement;
  parse_rfc3339 = times;
}

abbrev signed_envelope : Envelope
signed_envelope = record {
  payload_type = payload_type_name;
  payload = "";
  signatures = record { keyid = "alice"; sig = "" } ∷ [];
}

abbrev alice : TrustedKey
alice = record { keyid = "alice"; public_key = [] }

abbrev refund_check : ApprovalCheck
refund_check = record {
  fingerprint = "bb";
  release = "sha256:aa";
  tool = "refund";
  task_id = "task-1";
  approvers = alice ∷ [];
  now = "500";
}

abbrev refund_approval : Approval
refund_approval = record {
  release = "sha256:aa";
  tool = "refund";
  task_id = "task-1";
  operation_id = "op-1";
  approver = "alice";
  approved_at = "100";
  not_after = "900";
}

verifies_receipt : verify_approval toy_codecs signed_envelope refund_check ≡ ok refund_approval
unfolding verify_approval
verifies_receipt = refl

verify_approval-accepts_example :
    (payload : Bytes) × (statement predicate : Value) × (toy_codecs.base64_decode
        signed_envelope.payload
      ≡ some payload)
    × IsSignedBy toy_codecs
        (pae toy_codecs payload_type_name payload)
        signed_envelope.signatures
        (alice ∷ [])
        "alice"
    × (toy_codecs.from_slice payload ≡ some statement)
    × (subject_ok (get_path ("subject" ∷ []) statement) "bb" ≡ true)
    × (get_path ("predicate" ∷ []) statement ≡ some predicate)
    × (read_approval predicate ≡ some refund_approval)
    × (refund_approval.release ≡ refund_check.release)
    × (refund_approval.tool ≡ refund_check.tool)
    × (refund_approval.task_id ≡ refund_check.task_id)
    × (is_valid_operation_id "op-1" ≡ true)
    × IsCurrent toy_codecs refund_approval refund_check
verify_approval-accepts_example =
    verify_approval-accepts toy_codecs signed_envelope refund_check refund_approval verifies_receipt

abbrev toy_floats : Floats
toy_floats = record {
  of_unsigned = λ n. n;
  of_negative = λ n. n;
  partial_cmp = λ a b. none;
  same = nat_eq;
  is_whole = λ b. false;
}

abbrev calls : Calls
calls = record {
  codecs = toy_codecs;
  floats = toy_floats;
  is_match = λ re s. false;
  encode = λ v. "";
  digest = λ s. s;
  parse_release = λ s. some [];
  fingerprint = λ release tool arguments. "bb";
  read_envelope = λ b. some signed_envelope;
  sha256 = λ b. b;
  derive_operation_id = λ key task fp. fp;
  derive_idempotent_operation_id = λ key release tool rendered. rendered;
}

abbrev refund_rule : ToolRule
refund_rule = record {
  side_effect = true;
  requires_approval = true;
  arguments = none_declared;
  required = [];
  idempotency_key = none;
  approval = none;
}

abbrev approvals_dir : Approvals
approvals_dir = record {
  receipt = λ hex. if hex == "bb" then contents (3 ∷ []) else no_file;
  denial_in_force = λ hex now. false;
  approvers = alice ∷ [];
}

abbrev gate : ToolGate
gate = record {
  release = "sha256:aa";
  release_name = "agent";
  policy_source = none;
  policy = none;
  tools = "refund" ∷ [];
  contracts_loaded = true;
  rules = ("refund", refund_rule) ∷ [];
  task = some (object (field "taskId" (string "task-1") no_fields));
  approvals = some approvals_dir;
  broker = none;
  has_operations = true;
  operation_id_key = some [];
}

abbrev approved_call : ApprovedCall
approved_call = record { receipt_digest = 3 ∷ []; operation_id = "op-1"; fingerprint = "bb" }

abbrev refund_authorization : Authorization
refund_authorization = record {
  approval = some approved_call;
  operation = some (record { operation_id = "op-1"; fingerprint = "bb" });
}

finds_rule : rule_of "refund" gate.rules ≡ some refund_rule
unfolding rule_of
finds_rule = refl

authorizes : authorize calls gate "refund" none "500" ≡ ok refund_authorization
unfolding authorize cloakpipe.Contract.Check.check_keys cloakpipe.Contract.Check.check_declared
authorizes = refl

decides : evaluate_policy calls gate "refund" none "500" ≡ ok allowed
unfolding evaluate_policy
decides = refl

needs : approval_needed calls refund_rule none allowed ≡ some []
unfolding approval_needed
needs = refl

authorize-passed_example :
    (contains "refund" ("refund" ∷ []) ≡ true)
    × (true ≡ true)
    × (check_call toy_floats calls.is_match refund_rule none gate.task ≡ ok tt)
    × ((verdict : PolicyVerdict) × (evaluate_policy calls gate "refund" none "500" ≡ ok verdict))
authorize-passed_example =
    authorize-passed calls gate refund_rule "refund" none "500" refund_authorization finds_rule
      authorizes

authorize-IsApproved_example :
    (call : ApprovedCall) × (some approved_call ≡ some call)
    × IsApproved calls gate refund_rule "refund" null "500" call
authorize-IsApproved_example =
    authorize-IsApproved calls gate refund_rule "refund" none "500" refund_authorization allowed []
      finds_rule authorizes decides needs

operation_of-authorize_example :
    operation_of calls gate "refund" none "500" ≡ ok refund_authorization.operation
operation_of-authorize_example =
    operation_of-authorize calls gate "refund" none "500" refund_authorization authorizes

-- The same gate, with a policy that is not loaded.
abbrev unloaded : ToolGate
unloaded = record gate { policy_source = some [] }

authorize-unloaded_policy_example :
    authorize calls unloaded "refund" none "500" ≢ ok refund_authorization
authorize-unloaded_policy_example =
    authorize-unloaded_policy calls unloaded refund_rule "refund" none "500" refund_authorization []
      finds_rule refl refl
