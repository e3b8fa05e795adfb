-- ===== src/Gate/Authorized.antt =====
-- What the gate lets through.
use cloakpipe.Base.{
  String, ◌≡◌, ◌≢◌, sym, ap, ◌∙◌, true, not, Bytes, if◌then◌else◌, Option, none, some, List,
  Option-cases, inl, inr,
}
use cloakpipe.Base.Results.{Result, ok, err, ok_injective}
use cloakpipe.Json.{Value}
use cloakpipe.Policy.Engine.{contains}
use cloakpipe.Rules.Tool.{ToolRule, check_call}
use cloakpipe.Gate.Denial.{Denial, fail_closed}
use cloakpipe.Gate.State.{
  PolicyVerdict, PolicyState, allowed, ToolGate, Calls, ApprovedCall, OperationKey, Authorization,
}
use cloakpipe.Gate.Call.{
  or_null, is_none, rule_of, evaluate_policy, evaluate_loaded, approval_needed, approve,
  operation_key, when, authorize_rule, authorize, shadow_approval, operation_of,
}
use cloakpipe.Gate.Steps.{
  IsApproved, when-eq-ok, approve-eq-ok, authorize_rule-eq-ok, authorize_found, authorize-eq-ok,
}

authorize-eq-rule :
    (cs : Calls) (g : ToolGate) (tool : String) (arguments : Option Value) (now : String)
    {auth : Authorization} {rule : ToolRule}
    → authorize cs g tool arguments now ≡ ok auth
    → rule_of tool g.rules ≡ some rule
    → authorize_rule cs g rule tool arguments now ≡ ok auth
authorize-eq-rule cs g tool arguments now e found =
    let (_, _, rest) = authorize-eq-ok cs g tool arguments now e in
    ap (λ r. authorize_found cs g r tool arguments now) (sym found) ∙ rest

-- Where the gate lets through a call to a tool with a rule, the release declares the tool, the
-- contracts are loaded, the arguments pass the tool's contract, and the policy has not refused the
-- call.
pub authorize-passed :
    (cs : Calls) (g : ToolGate) (rule : ToolRule) (tool : String) (arguments : Option Value)
    (now : String) (auth : Authorization)
    → rule_of tool g.rules ≡ some rule
    → authorize cs g tool arguments now ≡ ok auth
    → (contains tool g.tools ≡ true)
      × (g.contracts_loaded ≡ true)
      × (check_call cs.floats cs.is_match rule arguments g.task ≡ ok tt)
      × ((verdict : PolicyVerdict) × (evaluate_policy cs g tool arguments now ≡ ok verdict))
authorize-passed cs g rule tool arguments now auth found e =
    let (declared, loaded, _) = authorize-eq-ok cs g tool arguments now e in
    let (verdict, passed, decided, _, _) =
      authorize_rule-eq-ok cs g rule tool arguments now
        (authorize-eq-rule cs g tool arguments now e found) in
    (declared, loaded, passed, (verdict, decided))

-- A call that the gate lets through, and that needs an approval by the manifest's rule or by the
-- policy, has one: a receipt in the receipts directory for the fingerprint of exactly these
-- arguments, with no denial in force, that verifies for this release, tool and task at this time,
-- within the tool's ttl.
pub authorize-IsApproved :
    (cs : Calls) (g : ToolGate) (rule : ToolRule) (tool : String) (arguments : Option Value)
    (now : String) (auth : Authorization) (verdict : PolicyVerdict) (routes : List String)
    → rule_of tool g.rules ≡ some rule
    → authorize cs g tool arguments now ≡ ok auth
    → evaluate_policy cs g tool arguments now ≡ ok verdict
    → approval_needed cs rule arguments verdict ≡ some routes
    → (call : ApprovedCall) × (auth.approval ≡ some call)
      × IsApproved cs g rule tool (or_null arguments) now call
authorize-IsApproved cs g rule tool arguments now auth verdict routes found e decided needed =
    let (verdict', _, decided', approved, _) =
      authorize_rule-eq-ok cs g rule tool arguments now
        (authorize-eq-rule cs g tool arguments now e found) in
    let same : verdict' ≡ verdict = ok_injective (sym decided' ∙ decided) in
    let must : not (is_none (approval_needed cs rule arguments verdict')) ≡ true =
      ap (λ v. not (is_none (approval_needed cs rule arguments v))) same
      ∙ ap (λ o. not (is_none o)) needed in
    elim (when-eq-ok _ (approve cs g rule tool (or_null arguments) now) approved) [
      | inl (skipped, _) ↦ cc (skipped, must)
      | inr (_, (call, done, here)) ↦
          (call, here, approve-eq-ok cs g rule tool (or_null arguments) now call done)
    ]

approve_same :
    (cs : Calls) (g : ToolGate) (rule : ToolRule) (tool : String) (arguments : Option Value)
    (now : String) (verdict : PolicyVerdict) {o : Option ApprovedCall}
    → evaluate_policy cs g tool arguments now ≡ ok verdict
    → when
        (not (is_none (approval_needed cs rule arguments verdict)))
        (approve cs g rule tool (or_null arguments) now)
      ≡ ok o
    → shadow_approval cs g rule tool arguments now ≡ o
approve_same cs g rule tool arguments now verdict decided approved =
    elim (when-eq-ok _ (approve cs g rule tool (or_null arguments) now) approved) [
      | inl (skipped, nothing) ↦ rw (decided, skipped, nothing)
      | inr (must, (call, done, here)) ↦ rw (decided, must, done, here)
    ]

-- The operation for a tool that may have a rule.
abbrev operation_found :
    Calls
    → ToolGate
    → Option ToolRule
    → String
    → Option Value
    → String
    → Result (Option OperationKey) Denial
operation_found cs g rule tool arguments now = elim rule [
  | none ↦ ok none
  | some r ↦
      when r.side_effect
        (operation_key cs g r tool arguments (shadow_approval cs g r tool arguments now))
]

-- The operation that shadow mode tracks for a call is the one that the gate names where it lets the
-- call through.
pub operation_of-authorize :
    (cs : Calls) (g : ToolGate) (tool : String) (arguments : Option Value) (now : String)
    (auth : Authorization)
    → authorize cs g tool arguments now ≡ ok auth
    → operation_of cs g tool arguments now ≡ ok auth.operation
unfolding operation_of
operation_of-authorize cs g tool arguments now auth e = elim (Option-cases (rule_of tool g.rules)) [
  | inl missing ↦
      let (_, _, rest) = authorize-eq-ok cs g tool arguments now e in
      let same = ap (λ r. authorize_found cs g r tool arguments now) (sym missing) ∙ rest in
      ap (λ r. operation_found cs g r tool arguments now) missing
      ∙ ap (λ (a : Authorization). ok a.operation) (ok_injective same)
  | inr (rule, found) ↦
      let (verdict, _, decided, approved, named) =
        authorize_rule-eq-ok cs g rule tool arguments now
          (authorize-eq-rule cs g tool arguments now e found) in
      ap (λ r. operation_found cs g r tool arguments now) found
      ∙ ap (λ o. when rule.side_effect (operation_key cs g rule tool arguments o))
          (approve_same cs g rule tool arguments now verdict decided approved)
      ∙ named
]

-- The verdict where a policy may be loaded.
abbrev verdict_found :
    Calls
    → ToolGate
    → Option PolicyState
    → Option Bytes
    → String
    → Option Value
    → String
    → Result PolicyVerdict Denial
verdict_found cs g policy source tool arguments now = elim policy [
  | none ↦ if is_none source then ok allowed else err fail_closed
  | some p ↦ evaluate_loaded cs g p tool arguments now
]

evaluate_policy-unloaded :
    (cs : Calls) (g : ToolGate) (tool : String) (arguments : Option Value) (now : String)
    {source : Bytes}
    → g.policy ≡ none
    → g.policy_source ≡ some source
    → evaluate_policy cs g tool arguments now ≡ err fail_closed
unfolding evaluate_policy
evaluate_policy-unloaded cs g tool arguments now none_loaded has_source =
    ap (λ p. verdict_found cs g p g.policy_source tool arguments now) none_loaded
    ∙ ap (λ s. verdict_found cs g none s tool arguments now) has_source

-- Where the release has a policy and the gate has not loaded it, the gate lets through no call to a
-- tool with a rule.
pub authorize-unloaded_policy :
    (cs : Calls) (g : ToolGate) (rule : ToolRule) (tool : String) (arguments : Option Value)
    (now : String) (auth : Authorization) (source : Bytes)
    → rule_of tool g.rules ≡ some rule
    → g.policy ≡ none
    → g.policy_source ≡ some source
    → authorize cs g tool arguments now ≢ ok auth
authorize-unloaded_policy cs g rule tool arguments now auth source found none_loaded has_source e =
    let (verdict, _, decided, _, _) =
      authorize_rule-eq-ok cs g rule tool arguments now
        (authorize-eq-rule cs g tool arguments now e found) in
    cc (decided, evaluate_policy-unloaded cs g tool arguments now none_loaded has_source)
