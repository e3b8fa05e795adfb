-- ===== src/Gate/Steps.antt =====
-- What the methods of the gate have found where they return a value.
use cloakpipe.Base.{
  String, ◌≡◌, refl, sym, ap, ◌∙◌, ◌⊎◌, Bool, true, false, not, Option, none, some, Bytes, inl, inr,
}
use cloakpipe.Base.Results.{
  Result, ok, ok_or, map_err, >>=-eq-ok, ok_or-eq-ok, map_err-eq-ok, ok_injective,
}
use cloakpipe.Json.{Value}
use cloakpipe.Policy.Engine.{contains}
use cloakpipe.Receipt.Dsse.{Envelope}
use cloakpipe.Receipt.Approval.{Approval, ApprovalCheck, verify_approval}
use cloakpipe.Rules.Tool.{ToolRule, check_call}
use cloakpipe.Gate.Denial.{
  Denial, of_violation, undeclared_tool, contract_missing, approval_required, approval_invalid,
  approval_denied, no_task_context,
}
use cloakpipe.Gate.State.{
  ReadFile, contents, no_file, unreadable, Approvals, PolicyVerdict, ToolGate, Calls, ApprovedCall,
  Authorization,
}
use cloakpipe.Gate.Call.{
  or_null, is_none, rule_of, evaluate_policy, approval_needed, task_id, within_ttl, is_denied,
  read_receipt, guard_denial, of_approval_error, approve, operation_key, when, authorize_rule,
  authorize,
}

guard_denial-eq-ok : (b : Bool) (d : Denial) → guard_denial b d ≡ ok tt → b ≡ false
guard_denial-eq-ok true d e = cc
guard_denial-eq-ok false d e = refl

not-eq-false : (b : Bool) → not b ≡ false → b ≡ true
not-eq-false true e = refl
not-eq-false false e = cc

read_receipt-eq-ok : (f : ReadFile) {bytes : Bytes} → read_receipt f ≡ ok bytes → f ≡ contents bytes
read_receipt-eq-ok (contents b) e = cc
read_receipt-eq-ok no_file e = cc
read_receipt-eq-ok unreadable e = cc

pub when-eq-ok {ℓ} :
    {A : Type ℓ} (b : Bool) (action : Result A Denial) {o : Option A}
    → when b action ≡ ok o
    → ((b ≡ false) × (o ≡ none)) ⊎ ((b ≡ true) × ((a : A) × (action ≡ ok a) × (o ≡ some a)))
when-eq-ok false action e = inl (refl, cc)
when-eq-ok true action e = let (a, done, e₁) = >>=-eq-ok action _ e in inr (refl, (a, done, cc))

-- The check of a receipt against a call.
abbrev pub check_of :
    Calls → ToolGate → Approvals → Bytes → String → String → Value → String → ApprovalCheck
check_of cs g approvals release id tool arguments now = record {
  fingerprint = cs.fingerprint release tool arguments;
  release = g.release;
  tool = tool;
  task_id = id;
  approvers = approvals.approvers;
  now = now;
}

-- The receipt on which a call is approved: the file for the call's fingerprint in the receipts
-- directory, with no denial in force, that verifies for this release, tool, task and fingerprint at
-- this time, within the tool's ttl.
pub record IsApproved (cs : Calls) (g : ToolGate) (rule : ToolRule) (tool : String)
    (arguments : Value) (now : String) (call : ApprovedCall) : Type 0 where
  pub approvals : Approvals
  pub release : Bytes
  pub bytes : Bytes
  pub task : String
  pub envelope : Envelope
  pub approval : Approval
  pub has_approvals : g.approvals ≡ some approvals
  pub has_release : cs.parse_release g.release ≡ some release
  pub not_denied : is_denied cs g approvals (cs.fingerprint release tool arguments) now ≡ false
  pub has_file : approvals.receipt (cs.fingerprint release tool arguments) ≡ contents bytes
  pub has_task : task_id g ≡ some task
  pub is_envelope : cs.read_envelope bytes ≡ some envelope
  pub verifies :
      verify_approval cs.codecs envelope (check_of cs g approvals release task tool arguments now)
      ≡ ok approval
  pub in_ttl : within_ttl cs.codecs rule approval.approved_at approval.not_after ≡ true
  pub names_call : call ≡ record {
    receipt_digest = cs.sha256 bytes;
    operation_id = approval.operation_id;
    fingerprint = cs.fingerprint release tool arguments;
  }

pub approve-eq-ok :
    (cs : Calls) (g : ToolGate) (rule : ToolRule) (tool : String) (arguments : Value) (now : String)
    (call : ApprovedCall)
    → approve cs g rule tool arguments now ≡ ok call
    → IsApproved cs g rule tool arguments now call
unfolding approve
approve-eq-ok cs g rule tool arguments now call e =
    let (approvals, p₁, e₁) = >>=-eq-ok (ok_or g.approvals approval_required) _ e in
    let (release, p₂, e₂) = >>=-eq-ok (ok_or (cs.parse_release g.release) approval_invalid) _ e₁ in
    let hex = cs.fingerprint release tool arguments in
    let (_, p₃, e₃) =
      >>=-eq-ok (guard_denial (is_denied cs g approvals hex now) approval_denied) _ e₂ in
    let (bytes, p₄, e₄) = >>=-eq-ok (read_receipt (approvals.receipt hex)) _ e₃ in
    let (id, p₅, e₅) = >>=-eq-ok (ok_or (task_id g) (no_task_context none)) _ e₄ in
    let (envelope, p₆, e₆) = >>=-eq-ok (ok_or (cs.read_envelope bytes) approval_invalid) _ e₅ in
    let (a, p₇, e₇) =
      >>=-eq-ok
        (map_err of_approval_error (
          verify_approval cs.codecs envelope
            (check_of cs g approvals release id tool arguments now)))
        _ e₆ in
    let (_, p₈, e₈) =
      >>=-eq-ok
        (guard_denial (not (within_ttl cs.codecs rule a.approved_at a.not_after)) approval_invalid)
        _ e₇ in
    record {
      approvals = approvals;
      release = release;
      bytes = bytes;
      task = id;
      envelope = envelope;
      approval = a;
      has_approvals = ok_or-eq-ok _ _ p₁;
      has_release = ok_or-eq-ok _ _ p₂;
      not_denied = guard_denial-eq-ok _ _ p₃;
      has_file = read_receipt-eq-ok _ p₄;
      has_task = ok_or-eq-ok _ _ p₅;
      is_envelope = ok_or-eq-ok _ _ p₆;
      verifies = map_err-eq-ok _ _ p₇;
      in_ttl = not-eq-false _ (guard_denial-eq-ok _ _ p₈);
      names_call = sym (ok_injective e₈);
    }

pub authorize_rule-eq-ok :
    (cs : Calls) (g : ToolGate) (rule : ToolRule) (tool : String) (arguments : Option Value)
    (now : String) {auth : Authorization}
    → authorize_rule cs g rule tool arguments now ≡ ok auth
    → (verdict : PolicyVerdict) × (check_call cs.floats cs.is_match rule arguments g.task ≡ ok tt)
      × (evaluate_policy cs g tool arguments now ≡ ok verdict)
      × (when
            (not (is_none (approval_needed cs rule arguments verdict)))
            (approve cs g rule tool (or_null arguments) now)
          ≡ ok auth.approval)
      × (when rule.side_effect (operation_key cs g rule tool arguments auth.approval)
          ≡ ok auth.operation)
unfolding authorize_rule
authorize_rule-eq-ok cs g rule tool arguments now {auth} e =
    let (_, passed, e₁) =
      >>=-eq-ok (map_err of_violation (check_call cs.floats cs.is_match rule arguments g.task)) _
        e in
    let (verdict, decided, e₂) = >>=-eq-ok (evaluate_policy cs g tool arguments now) _ e₁ in
    let (approval, approved, e₃) =
      >>=-eq-ok
        (when (not (is_none (approval_needed cs rule arguments verdict)))
          (approve cs g rule tool (or_null arguments) now))
        _ e₂ in
    let (operation, named, e₄) =
      >>=-eq-ok (when rule.side_effect (operation_key cs g rule tool arguments approval)) _ e₃ in
    let same : approval ≡ auth.approval =
      ap (λ (x : Authorization). x.approval) (ok_injective e₄) in
    let same' : operation ≡ auth.operation =
      ap (λ (x : Authorization). x.operation) (ok_injective e₄) in
    (
      verdict,
      map_err-eq-ok _ _ passed,
      decided,
      approved ∙ ap ok same,
      ap (λ o. when rule.side_effect (operation_key cs g rule tool arguments o)) (sym same)
          ∙ named
          ∙ ap ok same',
    )

-- The answer for a tool that may have a rule.
abbrev pub authorize_found :
    Calls
    → ToolGate
    → Option ToolRule
    → String
    → Option Value
    → String
    → Result Authorization Denial
authorize_found cs g rule tool arguments now = elim rule [
  | none ↦ ok (record { approval = none; operation = none })
  | some r ↦ authorize_rule cs g r tool arguments now
]

pub authorize-eq-ok :
    (cs : Calls) (g : ToolGate) (tool : String) (arguments : Option Value) (now : String)
    {auth : Authorization}
    → authorize cs g tool arguments now ≡ ok auth
    → (contains tool g.tools ≡ true)
      × (g.contracts_loaded ≡ true)
      × (authorize_found cs g (rule_of tool g.rules) tool arguments now ≡ ok auth)
unfolding authorize
authorize-eq-ok cs g tool arguments now e =
    let (_, declared, e₁) =
      >>=-eq-ok (guard_denial (not (contains tool g.tools)) undeclared_tool) _ e in
    let (_, loaded, e₂) = >>=-eq-ok (guard_denial (not g.contracts_loaded) contract_missing) _ e₁ in
    (
      not-eq-false _ (guard_denial-eq-ok _ _ declared),
      not-eq-false _ (guard_denial-eq-ok _ _ loaded),
      e₂,
    )
