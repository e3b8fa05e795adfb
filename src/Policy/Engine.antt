-- ===== src/Policy/Engine.antt =====
-- `PolicyEngine::evaluate` of crates/cloakpipe-policy/src/lib.rs, from Cedar's answer on.
use cloakpipe.Base.{
  ℕ, String, ◌≡◌, refl, Bool, true, false, ◌||◌, Option, none, some, List, [], ◌∷◌, ◌++◌, any, ◌==◌,
  all, if◌then◌else◌, arith,
}
use cloakpipe.Base.Results.{Result, ok, err, ◌>>=◌}
use cloakpipe.Base.Text.{is_empty}
use cloakpipe.Json.{Value}
use cloakpipe.Policy.Counters.{Window}

pub data PolicyError : Type 0 where
  parse_error : String → PolicyError
  input : String → PolicyError
  evaluation : List String → PolicyError

pub data PolicyDecision : Type 0 where
  allow : List String → PolicyDecision
  require_approval : List String → List String → PolicyDecision
  deny : List String → PolicyDecision

pub record CallInput : Type 0 where
  pub release : String
  pub tool : String
  pub fingerprint : String
  pub args : Option Value
  pub task : Option Value
  pub counters : List (String × Window)
  pub now_unix : ℕ

-- What Cedar answers: the policies whose evaluation failed, whether it denies, and the policies
-- that decided, each list in order and without repetition.
pub record Response : Type 0 where
  pub errored : List String
  pub denies : Bool
  pub satisfied : List String

-- A policy set: Cedar's answer to a call, where the call can be put to it, and the `@approval`
-- annotation of each policy.
pub record PolicyEngine : Type 0 where
  pub is_authorized : CallInput → Result Response PolicyError
  pub approval_annotation : String → Option String

abbrev pub contains : String → List String → Bool
contains s ss = any (λ t. t == s) ss

-- `approvers.push(route)`, unless it is empty or there already.
abbrev pub push_route : List String → String → List String
push_route approvers route =
    if is_empty route || contains route approvers then approvers else approvers ++ route ∷ []

-- The loop over the satisfied permits: `none` where one has no annotation.
unfoldable pub collect_routes : PolicyEngine → List String → List String → Option (List String)
unfolding is_empty
collect_routes engine approvers [] = some approvers
collect_routes engine approvers (id ∷ ids) = elim (engine.approval_annotation id) [
  | none ↦ none
  | some route ↦ collect_routes engine (push_route approvers route) ids
]

abbrev pub decide_permits : List String → Option (List String) → PolicyDecision
decide_permits satisfied none = allow satisfied
decide_permits satisfied (some approvers) = require_approval approvers satisfied

abbrev pub decide : PolicyEngine → Response → Result PolicyDecision PolicyError
decide engine r = elim r.errored [
  | [] ↦
      if r.denies
      then ok (deny r.satisfied)
      else ok (decide_permits r.satisfied (collect_routes engine [] r.satisfied))
  | id ∷ ids ↦ err (evaluation r.errored)
]

unfoldable pub evaluate : PolicyEngine → CallInput → Result PolicyDecision PolicyError
unfolding collect_routes
evaluate engine call = do r ← engine.is_authorized call; decide engine r

abbrev pub is_annotated : PolicyEngine → String → Bool
is_annotated engine id = elim (engine.approval_annotation id) [ none ↦ false | some route ↦ true ]

abbrev pub or_empty : Option String → String
or_empty none = ""
or_empty (some route) = route

-- The routes of the satisfied permits, each once, in their order.
abbrev pub routes : PolicyEngine → List String → List String → List String
routes engine approvers [] = approvers
routes engine approvers (id ∷ ids) =
    routes engine (push_route approvers (or_empty (engine.approval_annotation id))) ids

collect_routes_lem :
    (engine : PolicyEngine) (approvers ids : List String)
    → collect_routes engine approvers ids
      ≡ (if all (is_annotated engine) ids then some (routes engine approvers ids) else none)
unfolding collect_routes
collect_routes_lem engine approvers [] = refl
collect_routes_lem engine approvers (id ∷ ids) = ground (
  arith,
  collect_routes_lem engine (push_route approvers (or_empty (engine.approval_annotation id))) ids,
)

-- Once Cedar answers without an evaluation error, a call that it does not deny needs an approval
-- exactly when every permit that is satisfied has an `@approval` annotation, in whatever order they
-- come; one permit without it allows the call.
pub evaluate-permitted :
    (engine : PolicyEngine) (call : CallInput) (r : Response)
    → engine.is_authorized call ≡ ok r
    → r.errored ≡ []
    → r.denies ≡ false
    → evaluate engine call ≡ (
        if all (is_annotated engine) r.satisfied
        then ok (require_approval (routes engine [] r.satisfied) r.satisfied)
        else ok (allow r.satisfied))
unfolding evaluate
evaluate-permitted engine call r answered clean permitted =
    rw answered (ground (arith, collect_routes_lem engine [] r.satisfied))
