-- ===== src/Rules/Tool.antt =====
-- The rules of one tool: `ToolRule` of crates/cloakpipe-release/src/contract.rs and `ApprovalRule`
-- of rules.rs.
use cloakpipe.Base.{
  ℕ, String, Bool, true, false, not, Option, none, some, List, [], ◌∷◌, if◌then◌else◌,
}
use cloakpipe.Base.Results.{Result, ok, err, ◌>>=◌, ◌>>◌}
use cloakpipe.Json.{Value, null, array, object, Fields, no_fields, Floats, get}
use cloakpipe.Contract.Constraint.{Violation, argument_invalid, at, Properties, declares}
use cloakpipe.Contract.Check.{check_keys, check_declared, unwrap_or}
use cloakpipe.Rules.Condition.{Expr, condition_holds}
use cloakpipe.Rules.Key.{Part}

pub record ApprovalRule : Type 0 where
  pub condition : Option Expr
  pub approvers : List String
  pub ttl_secs : Option ℕ
  pub shown_arguments : List String

pub record ToolRule : Type 0 where
  pub side_effect : Bool
  pub requires_approval : Bool
  pub arguments : Properties
  pub required : List String
  pub idempotency_key : Option (List Part)
  pub approval : Option ApprovalRule

abbrev condition_of : Option ApprovalRule → Option Expr
condition_of none = none
condition_of (some a) = a.condition

unfoldable pub needs_approval : Floats → ToolRule → Option Value → Bool
unfolding condition_holds
needs_approval fl rule arguments =
    if not rule.requires_approval then false else elim (condition_of rule.approval) [
      | none ↦ true
      | some c ↦ condition_holds fl c (unwrap_or arguments null)
    ]

-- Absent arguments are an empty object; anything else but an object is invalid.
abbrev pub arguments_of : Option Value → Result Fields Violation
arguments_of none = ok no_fields
arguments_of (some (object o)) = ok o
arguments_of (some _) = err (at argument_invalid "")

-- `ToolRule::check`
unfoldable pub check_call :
    Floats
    → (String → String → Bool)
    → ToolRule
    → Option Value
    → Option Value
    → Result (Unit {0}) Violation
check_call fl is_match rule arguments task = do
  o ← arguments_of arguments
  check_keys (λ k. declares k rule.arguments) rule.required false none none o ""
  check_declared fl is_match task rule.arguments o ""

-- `is_object() || is_array()`
abbrev pub is_compound : Value → Bool
is_compound (object o) = true
is_compound (array a) = true
is_compound _ = false

abbrev shown_in : List String → Fields → List (String × Value)
shown_in [] args = []
shown_in (name ∷ names) args =
    let rest = shown_in names args in
    elim (get name args) [ none ↦ rest | some v ↦ if is_compound v then rest else (name, v) ∷ rest ]

-- `ApprovalRule::shown`
unfoldable pub shown : ApprovalRule → Option Value → List (String × Value)
shown rule (some (object args)) = shown_in rule.shown_arguments args
shown rule _ = []
