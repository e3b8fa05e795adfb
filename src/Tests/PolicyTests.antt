-- ===== src/Tests/PolicyTests.antt =====
-- Two calls of one tool, and a policy with an approval route.
use cloakpipe.Base.{
  suc, ◌≡◌, refl, false, ◌&&◌, none, some, [], ◌∷◌, all, ◌==◌, if◌then◌else◌, arith,
}
use cloakpipe.Base.Results.{ok}
use cloakpipe.Policy.Counters.{Counters, record_call, forget, window}
use cloakpipe.Policy.Engine.{
  CallInput, PolicyEngine, Response, allow, require_approval, evaluate, is_annotated, routes,
  evaluate-permitted,
}
use cloakpipe.Policy.Windows.{HasFreshId, window-record_call, forget-record_call}

abbrev counted : Counters
counted = record {
  calls = record { id = 1; release = "agent"; tool = "refund"; at = 100000 } ∷ [];
  next_id = 2;
}

window-record_call_example :
    window (record_call counted "agent" "refund" 100100).1 "agent" "refund" 100100 ≡ (
      if "agent" == "agent" && "refund" == "refund"
      then record {
        last_1h = suc (window counted "agent" "refund" 100100).last_1h;
        last_24h = suc (window counted "agent" "refund" 100100).last_24h;
      }
      else window counted "agent" "refund" 100100)
window-record_call_example = window-record_call counted "agent" "refund" "agent" "refund" 100100

is_fresh : HasFreshId counted
is_fresh = (omega arith, tt)

forget-record_call_example :
    window
      (forget
        (record_call counted "agent" "refund" 100100).1
        (record_call counted "agent" "refund" 100100).0)
      "agent"
      "refund"
      100100
    ≡ window counted "agent" "refund" 100100
forget-record_call_example =
    forget-record_call counted "agent" "refund" "agent" "refund" 100100 is_fresh

abbrev answer : Response
answer = record { errored = []; denies = false; satisfied = "big" ∷ "small" ∷ [] }

abbrev engine : PolicyEngine
engine = record {
  is_authorized = λ call. ok answer;
  approval_annotation = λ id. if id == "big" then some "finance" else none;
}

abbrev call : CallInput
call = record {
  release = "agent";
  tool = "refund";
  fingerprint = "sha256:00";
  args = none;
  task = none;
  counters = [];
  now_unix = 100100;
}

evaluate-permitted_example : evaluate engine call ≡ (
    if all (is_annotated engine) answer.satisfied
    then ok (require_approval (routes engine [] answer.satisfied) answer.satisfied)
    else ok (allow answer.satisfied))
evaluate-permitted_example = evaluate-permitted engine call answer refl refl refl
